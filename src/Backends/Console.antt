-- ===== src/Backends/Console.antt =====
-- src/backends/console.rs: each measurement is a line of standard output.
use ingraind.Prelude.{Text, List, Run, ◌>>=◌, unwrap, try_map}
use ingraind.Float.{Float}
use ingraind.Backends.{Message, measurements}
use ingraind.Backends.Encoders.{Writers, measurement_to_json}
use ingraind.Metrics.{Measurement}
use ingraind.Grains.Statsd.Delivery.{Utf8}

module _ {F : Type 0} ⦃fl : Float F⦄ ⦃utf8 : Utf8⦄ ⦃writers : Writers F⦄ where
  unfoldable pub line : Measurement F → Run Text
  unfolding measurement_to_json
  line m = measurement_to_json m >>= λ bytes. unwrap (utf8.from_utf8 bytes)

  -- the lines that are printed
  unfoldable pub handle : Message F → Run (List Text)
  unfolding line
  handle msg = try_map line (measurements msg)
