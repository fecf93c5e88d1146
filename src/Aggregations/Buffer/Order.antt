-- ===== src/Aggregations/Buffer/Order.antt =====
-- The order in which measurements reach the aggregator of src/aggregations/buffer.rs does not change a
-- counter.
use ingraind.Prelude.{
  ℕ, ◌+◌, ◌≤◌, ◌≡◌, refl, Bool, false, none, some, List, ◌∷◌, arith, if◌then◌else◌, retain, ◌∙◌, ap,
  ap₂, sym, All, is_empty, Bool-cases, inl, inr,
}
use mathlib.Core.List.{Perm, Permᴰ}
use mathlib.Core.Logic.{∥∥₁_elim}
use ingraind.Float.{Float, IsExact, exact_max}
use ingraind.Metrics.{Measurement}
use ingraind.Metrics.Kind
use ingraind.Metrics.Units
use ingraind.Aggregations.Buffer.{Hasher, Histogram, MeasurementKey, new, record_all}
use ingraind.Aggregations.Buffer.Counters.{value_at, counts_for}
use ingraind.Aggregations.Buffer.Totals.{sum_of, Unscaled, counter_total}

module _ {F : Type 0} (p : Measurement F → Bool) where
  -- whether any measurement counts, and what those that count come to
  abbrev tally : List (Measurement F) → Bool × ℕ
  tally ms = (is_empty (retain p ms), sum_of (retain p ms))

  tally_cons :
      (a : Measurement F) (l r : List (Measurement F))
      → tally l ≡ tally r
      → tally (a ∷ l) ≡ tally (a ∷ r)
  tally_cons a l r e = elim (Bool-cases (p a)) [
    | inl h ↦ rw h (ap (λ (t : Bool × ℕ). (false, Units.get a.value + t.1)) e)
    | inr h ↦ rw h e
  ]

  tally_swap :
      (a b : Measurement F) (l : List (Measurement F)) → tally (a ∷ b ∷ l) ≡ tally (b ∷ a ∷ l)
  tally_swap a b l = elim (Bool-cases (p a)) [
    | inl h ↦ elim (Bool-cases (p b)) [
      | inl g ↦ rw h (rw g (ap (λ (n : ℕ). (false, n)) (omega arith)))
      | inr g ↦ rw h (rw g refl)
    ]
    | inr h ↦ elim (Bool-cases (p b)) [ inl g ↦ rw h (rw g refl) | inr g ↦ rw h (rw g refl) ]
  ]

  tally-Permᴰ : {l r : List (Measurement F)} → Permᴰ l r → tally l ≡ tally r
  tally-Permᴰ Permᴰ.nil = refl
  tally-Permᴰ (Permᴰ.cons {a = a} {l₁ = l} {l₂ = r} e q) =
      tally_cons a l r (tally-Permᴰ q) ∙ ap (λ x. tally (x ∷ r)) e
  tally-Permᴰ (Permᴰ.swap {a = a} {b = b} {l = l} e f) =
      tally_swap a b l ∙ ap₂ (λ x y. tally (x ∷ y ∷ l)) f e
  tally-Permᴰ (Permᴰ.trans q r) = tally-Permᴰ q ∙ tally-Permᴰ r

  tally-Perm : (l r : List (Measurement F)) → Perm l r → tally l ≡ tally r
  tally-Perm l r q = ∥∥₁_elim q (hlevel) tally-Permᴰ

module _ {F : Type 0} (H : Type 0) ⦃fl : Float F⦄ ⦃h : Hasher⦄ ⦃hist : Histogram F H⦄ where
  -- However unscaled measurements are reordered on their way to a new aggregator, each counter comes out
  -- the same, while its sum is at most 2 ^ 53.
  pub counter-Perm :
      IsExact fl
      → (enable_histograms : Bool) (k : MeasurementKey) (ms ns : List (Measurement F)) → Perm ms ns
      → All Unscaled ms
      → All Unscaled ns
      → sum_of (retain (counts_for k Kind.counter) ms) ≤ exact_max
      → value_at k (record_all (new {H = H} enable_histograms) ms).counters
        ≡ value_at k (record_all (new {H = H} enable_histograms) ns).counters
  counter-Perm ex enable_histograms k ms ns q u w fits =
      let same = tally-Perm (counts_for k Kind.counter) ms ns q in
      let total = ap (λ (t : Bool × ℕ). t.1) same in
      counter_total H ex enable_histograms k ms u fits
      ∙ ap (λ (t : Bool × ℕ). if t.0 then none else some (fl.of_u64 t.1)) same
      ∙ sym (counter_total H ex enable_histograms k ns w (omega (arith, fits, total)))
