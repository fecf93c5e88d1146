-- ===== src/Grains/TestProbe.antt =====
-- src/grains/test.rs: the probe that sends made-up measurements, so many of them a second.
-- `timestamp_now` is read once for a poll.
use ingraind.Prelude.{
  ℕ, ◌+◌, ◌-◌, Bool, true, false, Text, chars, Option, none, some, List, [], ◌∷◌, if◌then◌else◌,
  ◌==◌, text_equality, ltb, min, length, replicate, foldl, Run, Result, ok, err, panic, ◌>>=◌,
  unwrap,
}
use ingraind.Prelude.Maps.{or_default}
use ingraind.Prelude.Number.{parse_u64, to_string}
use ingraind.Float.{Float}
use ingraind.Backends.{Message, list, measurements}
use ingraind.Grains.Recipients.{do_send}
use ingraind.Metrics
use ingraind.Metrics.{Measurement}
use ingraind.Metrics.Kind
use ingraind.Metrics.Units
use ingraind.Metrics.Units.{MeasureUnit}
use ingraind.Metrics.TagList
use ingraind.Metrics.TagList.{Tags}

-- `TestProbeConfig`, its defaults filled in
pub record TestProbeConfig : Type 0 where
  pub name : Text
  pub measurement : Text
  pub measurement_type : Text
  pub aggregation_type : Option Text
  pub tags : List (Text × Text)
  pub measurements_per_second : ℕ
  pub message_len : ℕ

abbrev pub default_ms_per_second : ℕ
default_ms_per_second = 10000

abbrev pub default_message_len : ℕ
default_message_len = 5000

-- the stream but for its interval timer
pub record MeasurementStream : Type 0 where
  pub name : Text
  pub unit : MeasureUnit
  pub kind : ℕ
  pub tags : List (Text × Text)
  pub message_len : ℕ
  pub ms_per_second : ℕ
  pub ms_sent : ℕ

unfoldable pub new : Text → MeasureUnit → ℕ → List (Text × Text) → ℕ → ℕ → MeasurementStream
new name unit kind tags message_len ms_per_second = record {
  name = name;
  unit = unit;
  kind = kind;
  tags = tags;
  message_len = message_len;
  ms_per_second = ms_per_second;
  ms_sent = 0;
}

-- an error of `try_from_str` that `unwrap` meets
abbrev or_panic : {E A : Type 0} → Result E A → Run A
or_panic (ok a) = ok a
or_panic (err e) = err panic

-- the stream that `started` adds
unfoldable pub started : TestProbeConfig → Run MeasurementStream
started config = do
  unit ←
      or_panic
        (Units.try_from_str config.measurement_type (or_default (parse_u64 config.measurement) 0))
  aggregation ← unwrap config.aggregation_type
  kind ← or_panic (Kind.try_from_str aggregation)
  ok (new config.name unit kind config.tags config.message_len config.measurements_per_second)

-- the value of a tag: the time for `$TS`
unfoldable pub tag_value : ℕ → Text → Text
tag_value now value = if value == chars "$TS" then to_string now else value

unfoldable pub stream_tags : ℕ → List (Text × Text) → Tags
stream_tags now tags =
    foldl (λ built p. TagList.insert p.0 (tag_value now p.1) built) TagList.new tags

-- `interval.poll()` ready: a second has passed
unfoldable pub tick : Bool → MeasurementStream → MeasurementStream
tick true s = record s { ms_sent = 0 }
tick false s = s

module _ {F : Type 0} ⦃fl : Float F⦄ where
  unfoldable pub measurement : ℕ → MeasurementStream → Measurement F
  measurement now s = Metrics.new now s.kind s.name s.unit (stream_tags now s.tags)

  -- `poll` behind the timer; `none` is `NotReady`.
  unfoldable pub send : ℕ → MeasurementStream → MeasurementStream × Option (Message F)
  send now s =
      let message_len = min s.message_len (s.ms_per_second - s.ms_sent) in
      if ltb s.ms_sent s.ms_per_second
      then (
        record s { ms_sent = s.ms_sent + message_len },
        some (list (replicate message_len (measurement now s))),
      )
      else (s, none)

  unfoldable pub poll : Bool → ℕ → MeasurementStream → MeasurementStream × Option (Message F)
  poll ready now s = send now (tick ready s)

-- the stream handler of the probe
unfoldable pub handle : {R F : Type 0} → List R → Message F → List (R × Message F)
handle recipients message = do_send recipients message

module _ (F : Type 0) ⦃fl : Float F⦄ where
  -- the number of measurements in what a poll gives
  abbrev pub sent_by : Option (Message F) → ℕ
  sent_by none = 0
  sent_by (some msg) = length (measurements msg)

  -- polls at the given times, none of them at the end of a second: the stream behind them, and the
  -- number of measurements sent
  unfoldable pub polls : List ℕ → MeasurementStream → MeasurementStream × ℕ
  polls [] s = (s, 0)
  polls (now ∷ times) s =
      let r = poll {F = F} false now s in
      let rest = polls times r.0 in (rest.0, sent_by r.1 + rest.1)
