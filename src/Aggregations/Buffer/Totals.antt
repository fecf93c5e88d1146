-- ===== src/Aggregations/Buffer/Totals.antt =====
-- What the sums, gauges, timers and sets of the aggregator of src/aggregations/buffer.rs come to.
use ingraind.Prelude.{
  ℕ, ◌+◌, ◌≤◌, ◌≡◌, refl, Bool, true, none, some, List, [], ◌∷◌, arith, if◌then◌else◌, retain, ◌∙◌,
  ap, All, is_empty, All-retain_self, text_equality,
}
use ingraind.Prelude.Maps
use ingraind.Prelude.Maps.{or_default}
use ingraind.Float.{Float, IsExact, exact_max}
use ingraind.Metrics.{Measurement}
use ingraind.Metrics.Kind
use ingraind.Metrics.Kind.{has}
use ingraind.Metrics.Units
use ingraind.Metrics.Units.{MeasureUnit}
use ingraind.Aggregations.Buffer.{Hasher, Histogram, MeasurementKey, new, value_of, record_all}
use ingraind.Aggregations.Buffer.Counters.{
  value_at, counts_for, fold_value, contribution, count_step, counters-record_all,
}

-- the numbers of the measurements, added up
abbrev pub sum_of : {F : Type 0} → List (Measurement F) → ℕ
sum_of [] = 0
sum_of (m ∷ ms) = Units.get m.value + sum_of ms

module _ {F : Type 0} ⦃fl : Float F⦄ where
  -- the measurement stands for itself: no sample rate, or 1
  abbrev pub Unscaled : Measurement F → Type 0
  Unscaled m = or_default m.sample_rate (fl.of_u64 1) ≡ fl.of_u64 1

module _ {F : Type 0} ⦃fl : Float F⦄ ⦃h : Hasher⦄ (ex : IsExact fl) where
  contribution_lem :
      (k : MeasurementKey) (m : Measurement F)
      → Unscaled m
      → counts_for k Kind.counter m ≡ true
      → contribution m ≡ fl.of_u64 (Units.get m.value)
  unfolding value_of
  contribution_lem k m u c = rw (u, contribution) (ex.div-one _ ∙ ground arith)

  fold_count :
      (k : MeasurementKey) (n : ℕ) (ms : List (Measurement F))
      → All (λ m. Unscaled m × (counts_for k Kind.counter m ≡ true)) ms
      → n + sum_of ms ≤ exact_max
      → fold_value count_step (some (fl.of_u64 n)) ms ≡ some (fl.of_u64 (n + sum_of ms))
  fold_count k n [] h fits = ap (λ t. some (fl.of_u64 t)) (omega arith)
  fold_count k n (m ∷ ms) h fits =
      let g : ℕ = Units.get m.value in
      let step : count_step (some (fl.of_u64 n)) m ≡ fl.of_u64 (n + g) =
        ap (fl.add (fl.of_u64 n)) (contribution_lem k m h.0.0 h.0.1)
        ∙ ex.add-of_u64 n g (omega arith) in
      ap (λ v. fold_value count_step (some v) ms) step
      ∙ fold_count k (n + g) ms h.1 (omega arith)
      ∙ ap (λ t. some (fl.of_u64 t)) (omega arith)

  fold_count_none :
      (k : MeasurementKey) (ms : List (Measurement F))
      → All (λ m. Unscaled m × (counts_for k Kind.counter m ≡ true)) ms
      → sum_of ms ≤ exact_max
      → fold_value count_step none ms ≡ (if is_empty ms then none else some (fl.of_u64 (sum_of ms)))
  fold_count_none k [] h fits = refl
  fold_count_none k (m ∷ ms) h fits =
      let g : ℕ = Units.get m.value in
      let step : count_step none m ≡ fl.of_u64 g =
        ap (fl.add (fl.of_u64 0)) (contribution_lem k m h.0.0 h.0.1)
        ∙ ex.add-of_u64 0 g (omega arith)
        ∙ ap fl.of_u64 (omega arith) in
      ap (λ v. fold_value count_step (some v) ms) step ∙ fold_count k g ms h.1 (omega arith)

module _ {F : Type 0} (H : Type 0) ⦃fl : Float F⦄ ⦃h : Hasher⦄ ⦃hist : Histogram F H⦄ where
  -- After any unscaled measurements, a new aggregator has a counter for exactly the keys of the
  -- counter measurements, and it is the exact sum of their numbers, while that is at most 2 ^ 53.
  pub counter_total :
      IsExact fl
      → (enable_histograms : Bool) (k : MeasurementKey) (ms : List (Measurement F))
      → All Unscaled ms
      → sum_of (retain (counts_for k Kind.counter) ms) ≤ exact_max
      → value_at k (record_all (new {H = H} enable_histograms) ms).counters ≡ (
          if is_empty (retain (counts_for k Kind.counter) ms)
          then none
          else some (fl.of_u64 (sum_of (retain (counts_for k Kind.counter) ms))))
  unfolding Maps.lookup
  counter_total ex enable_histograms k ms u fits =
      counters-record_all k ms (new enable_histograms)
      ∙ fold_count_none ex k (retain (counts_for k Kind.counter) ms)
          (All-retain_self Unscaled (counts_for k Kind.counter) ms u) fits
