-- ===== src/Grains/Statsd/Served.antt =====
-- The grain of src/grains/statsd.rs as it runs: its configuration and its handling of the datagrams that
-- arrive. The socket's address is of any type, and binding it only succeeds or fails.
use ingraind.Prelude.{
  ℕ, ◌≡◌, Bool, Text, chars, Option, none, some, List, [], ◌∷◌, ◌++◌, map, if◌then◌else◌, Run,
  Result, ok, err, ◌>>=◌, unwrap, demand, FromStr, lines, Each, ◌⊎◌,
}
use ingraind.Float.{Float}
use ingraind.Backends.{Message}
use ingraind.Grains.Statsd.{Metric, MetricError}
use ingraind.Grains.Statsd.Grammar.{Line, IsLine, write, metric_of}
use ingraind.Grains.Statsd.Delivery.{Utf8, decode, handle, to_message}

pub record StatsdConfig : Type 0 where
  pub bind_address : Text

abbrev pub default_bind_address : Text
default_bind_address = chars "127.0.0.1:8125"

pub record Statsd (A R : Type 0) : Type 0 where
  pub bind_address : A
  pub recipients : List R

-- `Running` of actix
pub data Running : Type 0 where
  running_stop running_continue : Running

module _ {A R : Type 0} where
  unfoldable pub new : A → List R → Statsd A R
  new bind_address recipients = record { bind_address = bind_address; recipients = recipients }

  unfoldable pub with_config : ⦃addresses : FromStr A⦄ → StatsdConfig → List R → Run (Statsd A R)
  unfolding new
  with_config ⦃addresses⦄ config recipients =
      unwrap (addresses.from_str config.bind_address) >>= λ bind_address.
      ok (new bind_address recipients)

  -- The address whose datagrams the actor gets from here on.
  unfoldable pub started : (A → Bool) → Statsd A R → Run A
  started binds statsd = demand (binds statsd.bind_address) >>= λ _. ok statsd.bind_address

unfoldable pub error : MetricError → Running
error e = running_continue

module _ {A R F : Type 0} ⦃fl : Float F⦄ ⦃utf8 : Utf8⦄ where
  -- What the stream makes of a datagram, in front of what is sent `later`. `ends` tells whether the
  -- stream is over with a datagram of which the decoder makes no item.
  unfoldable pub item :
      Bool
      → Statsd A R
      → ℕ
      → List (R × Message F)
      → Result MetricError (Option (List (Metric F)))
      → List (R × Message F)
  unfolding handle error
  item ends statsd now later (ok (some metrics)) = handle now statsd.recipients metrics ++ later
  item ends statsd now later (ok none) = if ends then [] else later
  item ends statsd now later (err e) = elim (error e) [
    | running_continue ↦ later
    | running_stop ↦ []
  ]

  -- the datagrams one after the other, each with the time at which it is handled
  unfoldable pub serve : Bool → Statsd A R → List (ℕ × List ℕ) → List (R × Message F)
  unfolding item
  serve ends statsd [] = []
  serve ends statsd ((now, datagram) ∷ datagrams) =
      item ends statsd now (serve ends statsd datagrams) (decode datagram).0

-- bytes that arrived at a time, at least one
pub record Datagram : Type 0 where
  pub now : ℕ
  pub byte : ℕ
  pub bytes : List ℕ

abbrev pub arrival : Datagram → ℕ × List ℕ
arrival d = (d.now, d.byte ∷ d.bytes)

-- a line of the language, and the metric that it stands for
abbrev pub Written : {F : Type 0} → ⦃fl : Float F⦄ → Text → Metric F → Type 0
Written line metric = (l : Line) × (line ≡ write l) × IsLine l × (metric_of l ≡ ok metric)

-- the metrics of a datagram: it is UTF-8, and each of its lines stands for one
abbrev pub Means :
    {F : Type 0} → ⦃fl : Float F⦄ → ⦃utf8 : Utf8⦄ → Datagram → List (Metric F) → Type 0
Means ⦃utf8 = utf8⦄ d metrics =
    (text : Text) × (utf8.from_utf8 (d.byte ∷ d.bytes) ≡ some text)
    × Each Written (lines text) metrics

-- a message with its metrics for each recipient, or none at all for a datagram without a meaning
abbrev pub Portion :
    {R F : Type 0}
    → ⦃fl : Float F⦄ → ⦃utf8 : Utf8⦄ → List R
    → Datagram
    → List (R × Message F)
    → Type 0
Portion {F = F} recipients d out =
    ((metrics : List (Metric F)) × Means d metrics
      × (out ≡ map (λ r. (r, to_message d.now metrics)) recipients))
    ⊎ ((¬ ((metrics : List (Metric F)) × Means d metrics)) × (out ≡ []))

module _ {F : Type 0} ⦃fl : Float F⦄ where
  -- what the decoder makes of a datagram, and what it means
  abbrev Decoded : ⦃utf8 : Utf8⦄ → Datagram → Result MetricError (Option (List (Metric F))) → Type 0
  Decoded d result =
      ((metrics : List (Metric F)) × Means d metrics × (result ≡ ok (some metrics)))
      ⊎ ((¬ ((metrics : List (Metric F)) × Means d metrics)) × (e : MetricError) × (result ≡ err e))
