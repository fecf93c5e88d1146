-- ===== src/Aggregations/Buffer/Counters.antt =====
-- What the tables of the aggregator of src/aggregations/buffer.rs hold for a key after any
-- sequence of measurements.
use ingraind.Prelude.{
  ℕ, ◌≡◌, refl, Bool, ◌&&◌, Text, Option, none, some, List, [], ◌∷◌, ◌++◌, arith, if◌then◌else◌,
  ◌==◌, retain, ◌∙◌, Bool-cases, inl, inr,
}
use ingraind.Prelude.Maps.{or_default, entry, lookup, lookup-entry}
use ingraind.Float.{Float}
use ingraind.Metrics.{Measurement}
use ingraind.Metrics.Kind
use ingraind.Metrics.Kind.{has}
use ingraind.Aggregations.Buffer.{
  Hasher, Histogram, MeasurementKey, key_equality, key_beq_iff, AggregatedMetric, fresh, change,
  Table, Aggregator, measurement_key, value_of, record_counter, record_gauge, record_timer,
  record_set, record_measurement, record_all, set_value,
}

abbrev pub map_value : {T : Type 0} → Option (AggregatedMetric T) → Option T
map_value none = none
map_value (some am) = some am.value

-- the value that a table holds for a key
abbrev pub value_at : {T : Type 0} → MeasurementKey → Table T → Option T
value_at k t = map_value (lookup k t)

-- an entry that `or_insert_with` makes, or finds, and that is then changed
value_at-entry :
    {F T : Type 0} (k j : MeasurementKey) (m : Measurement F) (d : T) (f : T → T) (t : Table T)
    → value_at j (entry k (fresh m d) (change f) t)
      ≡ (if k == j then some (f (or_default (value_at k t) d)) else value_at j t)
value_at-entry k j m d f t = ground (arith, lookup-entry k j (fresh m d) (change f) t)

module _ {F : Type 0} ⦃h : Hasher⦄ where
  -- the measurement is for key `k`, and of the kind
  abbrev pub counts_for : MeasurementKey → ℕ → Measurement F → Bool
  counts_for k flag m = has m.kind flag && measurement_key m == k

-- A value that each of some measurements updates; the first finds it perhaps absent.
abbrev pub fold_value : {M T : Type 0} → (Option T → M → T) → Option T → List M → Option T
fold_value update o [] = o
fold_value update o (m ∷ ms) = fold_value update (some (update o m)) ms

module _ {F : Type 0} ⦃fl : Float F⦄ ⦃h : Hasher⦄ where
  -- what a measurement adds to its counter: its number, scaled up by its sample rate
  abbrev pub contribution : Measurement F → F
  contribution m = fl.div (value_of m) (or_default m.sample_rate (fl.of_u64 1))

  -- an absent counter or gauge starts at 0, an absent timer or set empty
  abbrev pub count_step : Option F → Measurement F → F
  count_step o m = fl.add (or_default o (fl.of_u64 0)) (contribution m)

  abbrev pub gauge_step : Option F → Measurement F → F
  gauge_step o m = if m.reset then value_of m else fl.add (or_default o (fl.of_u64 0)) (value_of m)

  abbrev pub timer_step : Option (List F) → Measurement F → List F
  timer_step o m = or_default o [] ++ value_of m ∷ []

  abbrev pub set_step : Option (List Text) → Measurement F → List Text
  set_step o m = set_value m.value (or_default o [])

  record_counter_value :
      (k : MeasurementKey) (m : Measurement F) (t : Table F)
      → value_at k (record_counter m t)
        ≡ (if counts_for k Kind.counter m then some (count_step (value_at k t) m) else value_at k t)
  unfolding record_counter
  record_counter_value k m t = ground (
    arith,
    key_beq_iff (measurement_key m) k,
    value_at-entry (measurement_key m) k m (fl.of_u64 0) (λ v. fl.add v (contribution m)) t,
  )

  record_gauge_value :
      (k : MeasurementKey) (m : Measurement F) (t : Table F)
      → value_at k (record_gauge m t)
        ≡ (if counts_for k Kind.gauge m then some (gauge_step (value_at k t) m) else value_at k t)
  unfolding record_gauge
  record_gauge_value k m t = ground (
    arith,
    key_beq_iff (measurement_key m) k,
    value_at-entry (measurement_key m) k m (fl.of_u64 0)
        (λ v. if m.reset then value_of m else fl.add v (value_of m)) t,
  )

  record_timer_value :
      (k : MeasurementKey) (m : Measurement F) (t : Table (List F))
      → value_at k (record_timer m t)
        ≡ (if counts_for k Kind.timer m then some (timer_step (value_at k t) m) else value_at k t)
  unfolding record_timer
  record_timer_value k m t = ground (
    arith,
    key_beq_iff (measurement_key m) k,
    value_at-entry (measurement_key m) k m [] (λ vs. vs ++ value_of m ∷ []) t,
  )

  record_set_value :
      (k : MeasurementKey) (m : Measurement F) (t : Table (List Text))
      → value_at k (record_set m t)
        ≡ (if counts_for k Kind.set m then some (set_step (value_at k t) m) else value_at k t)
  unfolding record_set
  record_set_value k m t = ground (
    arith,
    key_beq_iff (measurement_key m) k,
    value_at-entry (measurement_key m) k m [] (set_value m.value) t,
  )

module _ {F H : Type 0} ⦃fl : Float F⦄ ⦃h : Hasher⦄ ⦃hist : Histogram F H⦄ where
  -- a table whose value each fitting measurement updates, over a whole sequence
  table-record_all :
      {T : Type 0} (table : Aggregator F H → Table T) (k : MeasurementKey) (flag : ℕ)
      (update : Option T → Measurement F → T)
      → ((m : Measurement F) (a : Aggregator F H)
          → value_at k (table (record_measurement a m)) ≡ (
              if counts_for k flag m
              then some (update (value_at k (table a)) m)
              else value_at k (table a)))
      → (ms : List (Measurement F)) (a : Aggregator F H)
      → value_at k (table (record_all a ms))
        ≡ fold_value update (value_at k (table a)) (retain (counts_for k flag) ms)
  unfolding record_all
  table-record_all table k flag update one [] a = refl
  table-record_all table k flag update one (m ∷ ms) a =
      table-record_all table k flag update one ms (record_measurement a m)
      ∙ elim (Bool-cases (counts_for k flag m)) [
        | inl e ↦ rw (one m a) (rw e)
        | inr e ↦ rw (one m a) (rw e)
      ]

  -- After any measurements, a key's counter is what it was, plus the contributions of the counter
  -- measurements for that key, in their order; no other measurement changes it.
  pub counters-record_all :
      (k : MeasurementKey) (ms : List (Measurement F)) (a : Aggregator F H)
      → value_at k (record_all a ms).counters
        ≡ fold_value count_step (value_at k a.counters) (retain (counts_for k Kind.counter) ms)
  unfolding record_measurement
  counters-record_all k =
      table-record_all (λ a. a.counters) k Kind.counter count_step
        (λ m a. record_counter_value k m a.counters)

  pub gauges-record_all :
      (k : MeasurementKey) (ms : List (Measurement F)) (a : Aggregator F H)
      → value_at k (record_all a ms).gauges
        ≡ fold_value gauge_step (value_at k a.gauges) (retain (counts_for k Kind.gauge) ms)
  unfolding record_measurement
  gauges-record_all k =
      table-record_all (λ a. a.gauges) k Kind.gauge gauge_step
        (λ m a. record_gauge_value k m a.gauges)

  pub timers-record_all :
      (k : MeasurementKey) (ms : List (Measurement F)) (a : Aggregator F H)
      → value_at k (record_all a ms).timers
        ≡ fold_value timer_step (value_at k a.timers) (retain (counts_for k Kind.timer) ms)
  unfolding record_measurement
  timers-record_all k =
      table-record_all (λ a. a.timers) k Kind.timer timer_step
        (λ m a. record_timer_value k m a.timers)

  pub sets-record_all :
      (k : MeasurementKey) (ms : List (Measurement F)) (a : Aggregator F H)
      → value_at k (record_all a ms).sets
        ≡ fold_value set_step (value_at k a.sets) (retain (counts_for k Kind.set) ms)
  unfolding record_measurement
  sets-record_all k =
      table-record_all (λ a. a.sets) k Kind.set set_step (λ m a. record_set_value k m a.sets)
