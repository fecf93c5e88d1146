-- ===== src/Grains/Statsd/Delivery.antt =====
-- src/grains/statsd.rs: from the bytes of a datagram to the messages for the recipients.
use ingraind.Prelude.{
  ℕ, ◌≡◌, refl, Bool, false, Text, Option, none, some, List, [], ◌∷◌, map, nat_equality, Result, ok,
  ◌>>=◌, ok_or, All, ◌||◌, ◌&&◌,
}
use ingraind.Float.{Float}
use ingraind.Backends.{Message, single, list, measurements}
use ingraind.Metrics
use ingraind.Metrics.{Measurement}
use ingraind.Metrics.Kind
use ingraind.Metrics.Kind.{has}
use ingraind.Metrics.Units.{MeasureUnit, is_str}
use ingraind.Aggregations.Buffer.Flush.Panics.{FitsKind}
use ingraind.Grains.Recipients.{do_send}
use ingraind.Grains.Statsd.{
  Metric, MetricValue, counter, timing, gauge, set, histogram, MetricError, error, parse_metrics,
}

-- `str::from_utf8`
pub record Utf8 : Type 0 where
  pub from_utf8 : List ℕ → Option Text

module _ {F : Type 0} ⦃fl : Float F⦄ where
  -- the kind, the value and the reset flag of a measurement
  unfoldable pub kind_and_value : MetricValue F → ℕ × MeasureUnit × Bool
  kind_and_value (counter v) = (Kind.counter, MeasureUnit.count (fl.to_u64 v), false)
  kind_and_value (gauge v rst) = (Kind.gauge, MeasureUnit.count (fl.to_u64 v), rst)
  kind_and_value (timing t) = (Kind.timer, MeasureUnit.count (fl.to_u64 t), false)
  kind_and_value (set v) = (Kind.set, MeasureUnit.str v, false)
  kind_and_value (histogram v) = (Kind.histogram, MeasureUnit.count v, false)

  -- `Into<Measurement>` of a metric; `now` is what the clock reads
  unfoldable pub to_measurement : ℕ → Metric F → Measurement F
  unfolding kind_and_value
  to_measurement now metric =
      let r = kind_and_value metric.value in
      let m = Metrics.new now r.0 metric.key r.1 metric.tags in
      record m { reset = r.2; sample_rate = metric.sample_rate }

  -- `Into<Message>` of a list of metrics
  unfoldable pub to_message : ℕ → List (Metric F) → Message F
  unfolding to_measurement
  to_message now (metric ∷ []) = single (to_measurement now metric)
  to_message now metrics = list (map (to_measurement now) metrics)

  -- the handler for the metrics of one datagram
  unfoldable pub handle : {R : Type 0} → ℕ → List R → List (Metric F) → List (R × Message F)
  unfolding to_message do_send
  handle now recipients metrics = do_send recipients (to_message now metrics)

  to_measurement-FitsKind : (now : ℕ) (metric : Metric F) → FitsKind (to_measurement now metric)
  unfolding to_measurement has
  to_measurement-FitsKind now metric = go metric.value
    where
      go :
          (v : MetricValue F)
          → ((has (kind_and_value v).0 Kind.counter || has (kind_and_value v).0 Kind.gauge)
              && is_str (kind_and_value v).1)
            ≡ false
      go (counter v) = refl
      go (timing v) = refl
      go (gauge v b) = refl
      go (set v) = refl
      go (histogram v) = refl

  map-FitsKind :
      (now : ℕ) (metrics : List (Metric F)) → All FitsKind (map (to_measurement now) metrics)
  map-FitsKind now [] = tt
  map-FitsKind now (metric ∷ metrics) =
      (to_measurement-FitsKind now metric, map-FitsKind now metrics)

  -- Whatever the metrics of a datagram are, a counter or gauge measurement made of them holds a
  -- number, so an aggregator takes the message without a panic at its next flush.
  pub to_message-FitsKind :
      (now : ℕ) (metrics : List (Metric F)) → All FitsKind (measurements (to_message now metrics))
  unfolding to_message
  to_message-FitsKind now [] = tt
  to_message-FitsKind now (metric ∷ []) = (to_measurement-FitsKind now metric, tt)
  to_message-FitsKind now (metric ∷ next ∷ metrics) =
      (to_measurement-FitsKind now metric, map-FitsKind now (next ∷ metrics))

module _ {F : Type 0} ⦃fl : Float F⦄ ⦃utf8 : Utf8⦄ where
  -- `Decoder::decode`: the result, and what is left of the buffer. The decoder makes no I/O error.
  unfoldable pub decode : List ℕ → Result MetricError (Option (List (Metric F))) × List ℕ
  unfolding parse_metrics
  decode [] = (ok none, [])
  decode (b ∷ bytes) = (
    ok_or (utf8.from_utf8 (b ∷ bytes)) error >>= λ input.
        parse_metrics input >>= λ metrics. ok (some metrics),
    [],
  )
