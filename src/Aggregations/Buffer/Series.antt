-- ===== src/Aggregations/Buffer/Series.antt =====
-- Gauges, timers and sets of the aggregator of src/aggregations/buffer.rs after any measurements.
use ingraind.Prelude.{
  ◌≡◌, refl, Bool, true, false, ◌||◌, Text, Option, none, some, List, [], ◌∷◌, ◌++◌, map, arith,
  if◌then◌else◌, ◌==◌, retain, ◌∙◌, append_assoc, append-nil, sym, ap, All, is_empty,
  All-retain_self, text_equality, text_beq_iff, retain-append, All-intro,
}
use ingraind.Prelude.Maps
use ingraind.Prelude.Maps.{or_default}
use ingraind.Float.{Float}
use ingraind.Metrics.{Measurement}
use ingraind.Metrics.Kind
use ingraind.Metrics.Kind.{has}
use ingraind.Metrics.Units
use ingraind.Metrics.Units.{MeasureUnit}
use ingraind.Aggregations.Buffer.{
  Hasher, Histogram, MeasurementKey, Aggregator, new, value_of, record_all, set_insert, set_value,
}
use ingraind.Aggregations.Buffer.Counters.{
  value_at, counts_for, fold_value, gauge_step, timer_step, set_step, gauges-record_all,
  timers-record_all, sets-record_all,
}

module _ {M T : Type 0} where
  fold_value-append :
      (f : Option T → M → T) (o : Option T) (xs ys : List M)
      → fold_value f o (xs ++ ys) ≡ fold_value f (fold_value f o xs) ys
  fold_value-append f o [] ys = refl
  fold_value-append f o (x ∷ xs) ys = fold_value-append f (some (f o x)) xs ys

module _ {F : Type 0} ⦃fl : Float F⦄ where
  -- the number of a measurement, as the tables hold it
  abbrev pub number : Measurement F → F
  number m = fl.of_u64 (Units.get m.value)

module _ {F : Type 0} ⦃fl : Float F⦄ ⦃h : Hasher⦄ where
  gauge_step_reset :
      (k : MeasurementKey) (m : Measurement F) (o : Option F)
      → counts_for k Kind.gauge m ≡ true
      → m.reset ≡ true
      → gauge_step o m ≡ number m
  unfolding value_of
  gauge_step_reset k m o c r = ground arith

  timer_value :
      (k : MeasurementKey) (m : Measurement F)
      → counts_for k Kind.timer m ≡ true
      → value_of m ≡ number m
  unfolding value_of
  timer_value k m c = ground arith

  fold_timers :
      (k : MeasurementKey) (ms : List (Measurement F)) (vs : List F)
      → All (λ m. Unit {0} × (counts_for k Kind.timer m ≡ true)) ms
      → fold_value timer_step (some vs) ms ≡ some (vs ++ map number ms)
  fold_timers k [] vs h = ap some (sym (append-nil vs))
  fold_timers k (m ∷ ms) vs h =
      fold_timers k ms (vs ++ value_of m ∷ []) h.1
      ∙ ap some (rw (timer_value k m h.0.1) (append_assoc vs (number m ∷ []) (map number ms)))

  fold_timers_none :
      (k : MeasurementKey) (ms : List (Measurement F))
      → All (λ m. Unit {0} × (counts_for k Kind.timer m ≡ true)) ms
      → fold_value timer_step none ms ≡ (if is_empty ms then none else some (map number ms))
  fold_timers_none k [] h = refl
  fold_timers_none k (m ∷ ms) h =
      fold_timers k ms (value_of m ∷ []) h.1 ∙ ap some (rw (timer_value k m h.0.1))

-- `x` stands in the set
abbrev pub contains : Text → List Text → Bool
contains x [] = false
contains x (y ∷ ys) = y == x || contains x ys

-- no text stands in the set twice
abbrev pub Distinct : List Text → Type 0
Distinct [] = Unit
Distinct (y ∷ ys) = (contains y ys ≡ false) × Distinct ys

contains-set_insert :
    (x y : Text) (s : List Text) → contains x (set_insert y s) ≡ (y == x || contains x s)
unfolding set_insert
contains-set_insert x y [] = ground arith
contains-set_insert x y (z ∷ s) =
    ground (arith, contains-set_insert x y s, text_beq_iff z y, text_beq_iff z x, text_beq_iff y x)

set_insert-Distinct : (y : Text) (s : List Text) → Distinct s → Distinct (set_insert y s)
unfolding set_insert
set_insert-Distinct y [] h = ground arith
set_insert-Distinct y (z ∷ s) h = ground (
  arith,
  set_insert-Distinct y s h.1,
  contains-set_insert z y s,
  text_beq_iff z y,
  text_beq_iff y z,
)

-- the value is the text `x`
abbrev pub is_text : Text → MeasureUnit → Bool
is_text x (MeasureUnit.str v) = v == x
is_text x _ = false

-- one of the measurements holds the text `x`
abbrev pub names : {F : Type 0} → Text → List (Measurement F) → Bool
names x [] = false
names x (m ∷ ms) = is_text x m.value || names x ms

set_value_lem :
    (x : Text) (u : MeasureUnit) (s : List Text)
    → contains x (set_value u s) ≡ (is_text x u || contains x s)
unfolding set_value
set_value_lem x (MeasureUnit.byte n) s = refl
set_value_lem x (MeasureUnit.count n) s = refl
set_value_lem x (MeasureUnit.str v) s = contains-set_insert x v s

set_value-Distinct : (u : MeasureUnit) (s : List Text) → Distinct s → Distinct (set_value u s)
unfolding set_value
set_value-Distinct (MeasureUnit.byte n) s h = h
set_value-Distinct (MeasureUnit.count n) s h = h
set_value-Distinct (MeasureUnit.str v) s h = set_insert-Distinct v s h

module _ {F : Type 0} ⦃fl : Float F⦄ ⦃h : Hasher⦄ where
  fold_set :
      (x : Text) (ms : List (Measurement F)) (o : Option (List Text))
      → Distinct (or_default o [])
      → (contains x (or_default (fold_value set_step o ms) [])
          ≡ (contains x (or_default o []) || names x ms))
        × Distinct (or_default (fold_value set_step o ms) [])
  fold_set x [] o d = (ground arith, d)
  fold_set x (m ∷ ms) o d =
      let ih =
        fold_set x ms (some (set_step o m)) (set_value-Distinct m.value (or_default o []) d) in
      (ih.0 ∙ rw (set_value_lem x m.value (or_default o [])) (ground arith), ih.1)

module _ {F : Type 0} (H : Type 0) ⦃fl : Float F⦄ ⦃h : Hasher⦄ ⦃hist : Histogram F H⦄ where
  -- A gauge measurement that resets makes the gauge of its key its own number, whatever was
  -- recorded before it; only later gauge measurements for the key change it.
  pub gauge_reset :
      (a : Aggregator F H) (k : MeasurementKey) (before : List (Measurement F)) (m : Measurement F)
      (after : List (Measurement F))
      → counts_for k Kind.gauge m ≡ true
      → m.reset ≡ true
      → value_at k (record_all a (before ++ m ∷ after)).gauges
        ≡ fold_value gauge_step (some (number m)) (retain (counts_for k Kind.gauge) after)
  gauge_reset a k before m after c r =
      let old =
        fold_value gauge_step (value_at k a.gauges) (retain (counts_for k Kind.gauge) before) in
      let keep = retain (counts_for k Kind.gauge) in
      let merged : keep (before ++ m ∷ after) ≡ keep before ++ m ∷ keep after =
        retain-append (counts_for k Kind.gauge) before (m ∷ after) ∙ rw c in
      gauges-record_all k (before ++ m ∷ after) a
      ∙ ap (fold_value gauge_step (value_at k a.gauges)) merged
      ∙ fold_value-append gauge_step (value_at k a.gauges) (retain (counts_for k Kind.gauge) before)
          (m ∷ retain (counts_for k Kind.gauge) after)
      ∙ ap (λ v. fold_value gauge_step (some v) (retain (counts_for k Kind.gauge) after))
          (gauge_step_reset k m old c r)

  -- A new aggregator has a timer for exactly the keys of the timer measurements, and it holds all
  -- of their numbers, in the order in which they came.
  pub timer_values :
      (enable_histograms : Bool) (k : MeasurementKey) (ms : List (Measurement F))
      → value_at k (record_all (new {H = H} enable_histograms) ms).timers ≡ (
          if is_empty (retain (counts_for k Kind.timer) ms)
          then none
          else some (map number (retain (counts_for k Kind.timer) ms)))
  unfolding Maps.lookup
  timer_values enable_histograms k ms =
      timers-record_all k ms (new enable_histograms)
      ∙ fold_timers_none k (retain (counts_for k Kind.timer) ms) (
          All-retain_self (λ m. Unit) (counts_for k Kind.timer) ms
            (All-intro (λ m. Unit) (λ m. tt) ms))

  -- The set of a key in a new aggregator holds exactly the texts of the set measurements for the
  -- key, each once.
  pub set_elements :
      (enable_histograms : Bool) (k : MeasurementKey) (ms : List (Measurement F)) (x : Text)
      → (contains x
            (or_default (value_at k (record_all (new {H = H} enable_histograms) ms).sets) [])
          ≡ names x (retain (counts_for k Kind.set) ms))
        × Distinct (or_default (value_at k (record_all (new {H = H} enable_histograms) ms).sets) [])
  unfolding Maps.lookup
  set_elements enable_histograms k ms x =
      rw (sets-record_all k ms (new {H = H} enable_histograms))
        (fold_set x (retain (counts_for k Kind.set) ms) none tt)
