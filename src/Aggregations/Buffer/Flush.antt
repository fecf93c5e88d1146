-- ===== src/Aggregations/Buffer/Flush.antt =====
-- `Aggregator::flush` of src/aggregations/buffer.rs. The readings of the clock in one flush are
-- taken as one, `now`. `Vec::with_capacity` and `shrink_to_fit` change no contents.
pub mod Panics
pub mod Sent
use ingraind.Prelude.{
  ℕ, ◌+◌, ◌≡◌, Text, Option, none, some, List, [], ◌∷◌, ◌++◌, map, Run, ok, ◌>>=◌, try_map, chars,
  length,
}
use ingraind.Prelude.Number.{to_string}
use ingraind.Float.{Float}
use ingraind.Metrics
use ingraind.Metrics.{Measurement}
use ingraind.Metrics.Kind
use ingraind.Metrics.Units
use ingraind.Metrics.Units.{MeasureUnit}
use ingraind.Metrics.TagList
use ingraind.Metrics.TagList.{Tags}
use ingraind.Aggregations.Buffer.{
  Hasher, Histogram, MeasurementKey, AggregatedMetric, Table, Aggregator, join, percentiles,
}

-- `flat_map` into a list
unfoldable pub flat_map : {A B : Type 0} → (A → List B) → List A → List B
flat_map f [] = []
flat_map f (x ∷ xs) = f x ++ flat_map f xs

module _ {F H : Type 0} where
  -- the aggregator with its tables cleared
  abbrev pub cleared : Aggregator F H → Aggregator F H
  cleared a = record a { counters = []; gauges = []; timers = []; sets = []; histograms = [] }

-- the tags of a flushed set: its elements beside those that it had
unfoldable pub set_tags : Tags → Option Text → Tags
set_tags tags none = tags
set_tags tags (some elements) = TagList.insert (chars "set_elements") elements tags

module _ {F : Type 0} ⦃fl : Float F⦄ where
  -- a counter or a gauge; `to_unit` panics on the unit of a text
  unfoldable pub flush_number : ℕ → ℕ → MeasurementKey × AggregatedMetric F → Run (Measurement F)
  flush_number now kind (k, v) = do
    u ← Units.to_unit v.unit (fl.to_u64 v.value)
    ok (Metrics.new now kind k.name u v.tags)

  unfoldable pub flush_timer : ℕ → MeasurementKey × AggregatedMetric (List F) → List (Measurement F)
  flush_timer now (k, v) =
      map (λ t. Metrics.new now Kind.timer k.name (MeasureUnit.count (fl.to_u64 t)) v.tags) v.value

  unfoldable pub flush_set : ℕ → MeasurementKey × AggregatedMetric (List Text) → Measurement F
  unfolding set_tags
  flush_set now (k, v) =
      Metrics.new now Kind.set k.name (MeasureUnit.count (length v.value))
        (set_tags v.tags (join v.value (chars ",")))

module _ {F H : Type 0} ⦃fl : Float F⦄ ⦃hist : Histogram F H⦄ where
  unfoldable pub flush_histogram : ℕ → MeasurementKey × AggregatedMetric H → List (Measurement F)
  flush_histogram now (k, v) =
      map
        (λ p.
          Metrics.new now Kind.percentile (k.name ++ (chars "_" ++ to_string p))
            (MeasureUnit.count (hist.value_at_percentile (fl.of_u64 p) v.value)) v.tags)
        percentiles

  unfoldable pub flush : ℕ → Aggregator F H → Run (List (Measurement F) × Aggregator F H)
  flush now a = do
    counters ← try_map (flush_number now Kind.counter) a.counters
    gauges ← try_map (flush_number now Kind.gauge) a.gauges
    ok (
      counters
          ++ (gauges
              ++ (flat_map (flush_timer now) a.timers
                  ++ (map (flush_set now) a.sets ++ flat_map (flush_histogram now) a.histograms))),
      cleared a,
    )
