-- ===== src/Aggregations/Buffer.antt =====
-- The `Aggregator` of src/aggregations/buffer.rs: measurements are summed up by kind and key until
-- they are flushed. The tables are `HashMap`s; no theorem speaks of their order.
pub mod Counters
pub mod Flush
pub mod Totals
pub mod Order
pub mod Series
pub mod Schedule
use ingraind.Prelude.{
  ℕ, ◌+◌, ◌≡◌, ◌↔◌, Bool, true, false, ◌&&◌, ◌||◌, Text, Option, none, some, List, [], ◌∷◌, ◌++◌,
  map, arith, if◌then◌else◌, ◌==◌, Equality, text_equality, nat_equality, chars, foldl,
  text_beq_iff, nat_beq_iff, Run, ok, ◌>>=◌, length, is_empty,
}
use ingraind.Prelude.Maps
use ingraind.Prelude.Maps.{Map, or_default, entry}
use ingraind.Prelude.Number.{to_string}
use ingraind.Float.{Float}
use ingraind.Metrics
use ingraind.Metrics.{Measurement}
use ingraind.Metrics.Kind
use ingraind.Metrics.Kind.{has}
use ingraind.Metrics.Units
use ingraind.Metrics.Units.{MeasureUnit, UnitType}
use ingraind.Metrics.TagList
use ingraind.Metrics.TagList.{Tags}

-- `DefaultHasher` over the tags
pub record Hasher : Type 0 where
  pub hash_tags : Tags → ℕ

-- `hdrhistogram::Histogram<u64>`: `empty` is `Histogram::new(3).unwrap()`.
pub record Histogram (F H : Type 0) : Type 0 where
  pub empty : H
  pub saturating_record : ℕ → H → H
  pub value_at_percentile : F → H → ℕ

pub record MeasurementKey : Type 0 where
  pub name : Text
  pub tags_hash : ℕ

unfoldable pub key_beq : MeasurementKey → MeasurementKey → Bool
key_beq a b = a.name == b.name && a.tags_hash == b.tags_hash

pub key_beq_iff : (a b : MeasurementKey) → (key_beq a b ≡ true) ↔ (a ≡ b)
unfolding key_beq
key_beq_iff a b = ground (arith, text_beq_iff a.name b.name, nat_beq_iff a.tags_hash b.tags_hash)

instance abbrev pub key_equality : Equality MeasurementKey
key_equality = record { same = key_beq; same_iff = key_beq_iff }

pub record AggregatedMetric (T : Type 0) : Type 0 where
  pub value : T
  pub unit : UnitType
  pub tags : Tags

abbrev pub Table : Type 0 → Type 0
Table T = Map MeasurementKey (AggregatedMetric T)

pub record Aggregator (F H : Type 0) : Type 0 where
  pub counters : Table F
  pub gauges : Table F
  pub timers : Table (List F)
  pub sets : Table (List Text)
  pub histograms : Table H
  pub enable_histograms : Bool

abbrev pub new : {F H : Type 0} → Bool → Aggregator F H
new enable_histograms = record {
  counters = [];
  gauges = [];
  timers = [];
  sets = [];
  histograms = [];
  enable_histograms = enable_histograms;
}

abbrev pub percentiles : List ℕ
percentiles = 25 ∷ 50 ∷ 75 ∷ 90 ∷ 95 ∷ 99 ∷ []

-- `HashSet::insert`
unfoldable pub set_insert : Text → List Text → List Text
set_insert x [] = x ∷ []
set_insert x (y ∷ ys) = if y == x then y ∷ ys else y ∷ set_insert x ys

-- `join` of the source; its result is empty for an empty iterator
unfoldable pub join : List Text → Text → Option Text
join [] sep = none
join (item ∷ items) sep = some (foldl (λ ret next. ret ++ (sep ++ next)) item items)

-- the value that `or_insert_with` puts in: the unit and the tags of the first measurement
abbrev pub fresh : {F T : Type 0} → Measurement F → T → AggregatedMetric T
fresh m v = record { value = v; unit = Units.get_type m.value; tags = m.tags }

module _ {T : Type 0} where
  abbrev pub change : (T → T) → AggregatedMetric T → AggregatedMetric T
  change f am = record am { value = f am.value }

module _ {F : Type 0} ⦃h : Hasher⦄ where
  unfoldable pub measurement_key : Measurement F → MeasurementKey
  measurement_key m = record { name = m.name; tags_hash = h.hash_tags m.tags }

module _ {F : Type 0} ⦃fl : Float F⦄ ⦃h : Hasher⦄ where
  -- the number that the counters, gauges and timers take
  unfoldable pub value_of : Measurement F → F
  value_of m =
      if has m.kind Kind.counter || has m.kind Kind.gauge || has m.kind Kind.timer
      then fl.of_u64 (Units.get m.value)
      else fl.of_u64 0

  unfoldable pub record_counter : Measurement F → Table F → Table F
  record_counter m t =
      if has m.kind Kind.counter
      then entry (measurement_key m) (fresh m (fl.of_u64 0))
          (change λ v. fl.add v (fl.div (value_of m) (or_default m.sample_rate (fl.of_u64 1)))) t
      else t

  unfoldable pub record_gauge : Measurement F → Table F → Table F
  record_gauge m t =
      if has m.kind Kind.gauge
      then entry (measurement_key m) (fresh m (fl.of_u64 0))
          (change λ v. if m.reset then value_of m else fl.add v (value_of m)) t
      else t

  unfoldable pub record_timer : Measurement F → Table (List F) → Table (List F)
  record_timer m t =
      if has m.kind Kind.timer
      then entry (measurement_key m) (fresh m []) (change λ vs. vs ++ value_of m ∷ []) t
      else t

-- what a set takes in of one value: the text, and nothing of a number
unfoldable pub set_value : MeasureUnit → List Text → List Text
set_value (MeasureUnit.str v) s = set_insert v s
set_value _ s = s

module _ {F : Type 0} ⦃h : Hasher⦄ where
  unfoldable pub record_set : Measurement F → Table (List Text) → Table (List Text)
  record_set m t =
      if has m.kind Kind.set
      then entry (measurement_key m) (fresh m []) (change (set_value m.value)) t
      else t

module _ {F H : Type 0} ⦃h : Hasher⦄ ⦃hist : Histogram F H⦄ where
  unfoldable pub record_histogram : Bool → Measurement F → Table H → Table H
  record_histogram enabled m t =
      if enabled && has m.kind Kind.histogram
      then entry (measurement_key m) (fresh m hist.empty)
          (change (hist.saturating_record (Units.get m.value))) t
      else t

module _ {F H : Type 0} ⦃fl : Float F⦄ ⦃h : Hasher⦄ ⦃hist : Histogram F H⦄ where
  -- `Aggregator::record`: each kind of the measurement has its table.
  unfoldable pub record_measurement : Aggregator F H → Measurement F → Aggregator F H
  record_measurement a m = record a {
    counters = record_counter m a.counters;
    gauges = record_gauge m a.gauges;
    timers = record_timer m a.timers;
    sets = record_set m a.sets;
    histograms = record_histogram a.enable_histograms m a.histograms;
  }

  -- the loop of `Buffer::handle` over a list
  unfoldable pub record_all : Aggregator F H → List (Measurement F) → Aggregator F H
  record_all = foldl record_measurement
