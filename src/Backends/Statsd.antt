-- ===== src/Backends/Statsd.antt =====
-- src/backends/statsd.rs: how the client of cadence is made, and what the handler asks it for. A count
-- is what `count_with_tags` and `with_tag` are called with; the environment, the socket and the sink
-- are an interface.
use ingraind.Prelude.{
  Bool, Option, Run, ok, ◌>>=◌, unwrap, demand, ◌>>◌, chars, ap₂, ◌↔◌, ℕ, ◌-◌, ◌^◌, ◌<◌, ◌≡◌, refl,
  Text, List, [], ◌∷◌, ◌++◌, map, arith, if◌then◌else◌, ltb, foldl, ap, ◌∙◌, sym, append_assoc,
  append-nil,
}
use ingraind.Prelude.Number.{parse_unsigned}
use ingraind.Backends.{Message, single, list, measurements}
use ingraind.Metrics.{Measurement}
use ingraind.Metrics.Units
use ingraind.Metrics.TagList.{Tags}

pub record StatsdConfig : Type 0 where
  pub use_tags : Bool

-- `Statsd`: of the client its prefix and the server that its sink writes to
pub record Statsd : Type 0 where
  pub prefix : Text
  pub host : Text
  pub port : ℕ

-- `env::var`, `UdpSocket::bind`, `set_nonblocking` and `BufferedUdpMetricSink::from`, of which only
-- whether they succeed is read
pub record Environment : Type 0 where
  pub var : Text → Option Text
  pub bind : Text → Bool
  pub set_nonblocking : Bool
  pub sink_from : Text → ℕ → Bool

abbrev u16_max : ℕ
u16_max = 65535

unfoldable pub new : ⦃env : Environment⦄ → StatsdConfig → Run Statsd
new ⦃env⦄ config = do
  demand (env.bind (chars "0.0.0.0:0"))
  demand env.set_nonblocking
  host ← unwrap (env.var (chars "STATSD_HOST"))
  port ← unwrap (env.var (chars "STATSD_PORT"))
  port ← unwrap (parse_unsigned u16_max port)
  demand (env.sink_from host port)
  ok (record { prefix = chars "ingraind.metrics"; host = host; port = port })

-- an `i64`, as the library's integers are made: `negsuc n` is - (n + 1)
pub data Integer : Type 0 where
  pos negsuc : ℕ → Integer

-- `as i64` of a `u64`
unfoldable pub as_i64 : ℕ → Integer
as_i64 n = if ltb n (2 ^ 63) then pos n else negsuc (2 ^ 64 - 1 - n)

pub record Count : Type 0 where
  pub name : Text
  pub value : Integer
  pub tags : List (Text × Text)

unfoldable pub with_tag : Count → Text × Text → Count
with_tag builder p = record builder { tags = builder.tags ++ p ∷ [] }

with_tags : (tags : Tags) (c : Count) → foldl with_tag c tags ≡ record c { tags = c.tags ++ tags }
unfolding with_tag
with_tags [] c = ap (λ t. record c { tags = t }) (sym (append-nil c.tags))
with_tags (p ∷ tags) c =
    with_tags tags (with_tag c p)
    ∙ ap (λ t. record c { tags = t }) (append_assoc c.tags (p ∷ []) tags)

module _ {F : Type 0} where
  unfoldable pub count_with_tags : Measurement F → Count
  count_with_tags msg =
      foldl with_tag (record { name = msg.name; value = as_i64 (Units.get msg.value); tags = [] })
        msg.tags

  unfoldable pub handle : Message F → List Count
  handle (list ms) = map count_with_tags ms
  handle (single m) = count_with_tags m ∷ []

  -- what is sent for a measurement
  abbrev pub count_of : Measurement F → Count
  count_of m = record { name = m.name; value = as_i64 (Units.get m.value); tags = m.tags }

  count_with_tags_lem : (m : Measurement F) → count_with_tags m ≡ count_of m
  unfolding count_with_tags
  count_with_tags_lem m = with_tags m.tags _

  map_count : (ms : List (Measurement F)) → map count_with_tags ms ≡ map count_of ms
  map_count [] = refl
  map_count (m ∷ ms) = ap₂ ◌∷◌ (count_with_tags_lem m) (map_count ms)

  -- Every measurement of a message is sent once and in order, as a count of its number under its
  -- name and all its tags; the kind, the unit and the sample rate are not sent.
  pub statsd_counts : (msg : Message F) → handle msg ≡ map count_of (measurements msg)
  unfolding handle
  statsd_counts (list ms) = map_count ms
  statsd_counts (single m) = ap (λ c. c ∷ []) (count_with_tags_lem m)

-- A number of 64 bits arrives as it is exactly if it is below 2 ^ 63.
pub as_i64-pos : (n : ℕ) → n < 18446744073709551616 → (as_i64 n ≡ pos n) ↔ (n < 9223372036854775808)
unfolding as_i64
as_i64-pos n h = ground arith
