-- ===== src/Aggregations/Buffer/Flush/Sent.antt =====
-- What `Aggregator::flush` of src/aggregations/buffer.rs sends for the counters and the gauges.
use mathlib.Core.Path.{subst}
use ingraind.Prelude.{
  Bool, Text, chars, ℕ, ◌≡◌, refl, false, true, List, [], ◌∷◌, ◌++◌, map, arith, ok, try_map,
  bind_inv, ◌==◌, nat_equality, retain, retain-append, All, All-append, All-weaken, Each,
  Each-try_map, ap, ap₂, sym, ◌∙◌, append-nil,
}
use ingraind.Prelude.Number.{to_string}
use ingraind.Float.{Float}
use ingraind.Metrics
use ingraind.Metrics.{Measurement}
use ingraind.Metrics.Kind
use ingraind.Metrics.Units
use ingraind.Metrics.Units.{MeasureUnit}
use ingraind.Aggregations.Buffer.{
  Hasher, Histogram, MeasurementKey, AggregatedMetric, Aggregator, percentiles,
}
use ingraind.Aggregations.Buffer.Flush.{
  flush, flush_number, flush_timer, flush_set, flush_histogram, flat_map,
}

module _ {A : Type 0} (p : A → Bool) where
  retain_all : (xs : List A) → All (λ x. p x ≡ true) xs → retain p xs ≡ xs
  retain_all [] h = refl
  retain_all (x ∷ xs) h = ground (arith, retain_all xs h.1)

  retain_none : (xs : List A) → All (λ x. p x ≡ false) xs → retain p xs ≡ []
  retain_none [] h = refl
  retain_none (x ∷ xs) h = ground (arith, retain_none xs h.1)

module _ {A B : Type 0} (P : B → Type 0) where
  All-map_any : (f : A → B) → ((x : A) → P (f x)) → (xs : List A) → All P (map f xs)
  All-map_any f each [] = tt
  All-map_any f each (x ∷ xs) = (each x, All-map_any f each xs)

  All-flat_map : (f : A → List B) → ((x : A) → All P (f x)) → (xs : List A) → All P (flat_map f xs)
  unfolding flat_map
  All-flat_map f each [] = tt
  All-flat_map f each (x ∷ xs) =
      All-append P (f x) (flat_map f xs) (each x) (All-flat_map f each xs)

module _ {F : Type 0} where
  abbrev pub is_kind : ℕ → Measurement F → Bool
  is_kind kind m = m.kind == kind

  -- neither a counter nor a gauge
  abbrev IsOther : Measurement F → Type 0
  IsOther m = (is_kind Kind.counter m ≡ false) × (is_kind Kind.gauge m ≡ false)

module _ {F : Type 0} ⦃fl : Float F⦄ where
  -- the measurement of a counter or a gauge: its number in its unit, under its name and with its tags
  abbrev pub Holds : ℕ → ℕ → MeasurementKey × AggregatedMetric F → Measurement F → Type 0
  Holds now kind p m =
      (u : MeasureUnit) × (Units.to_unit p.1.unit (fl.to_u64 p.1.value) ≡ ok u)
      × (m ≡ Metrics.new now kind p.0.name u p.1.tags)

  flush_number-Holds :
      (now kind : ℕ) (p : MeasurementKey × AggregatedMetric F) (m : Measurement F)
      → flush_number now kind p ≡ ok m
      → Holds now kind p m
  unfolding flush_number
  flush_number-Holds now kind (k, am) m e =
      let (u, unit, o) = bind_inv (Units.to_unit am.unit (fl.to_u64 am.value)) _ e in (u, unit, cc)

  -- what is made of a table has its kind
  Each-is_kind :
      (now kind : ℕ) (table : List (MeasurementKey × AggregatedMetric F))
      (ms : List (Measurement F))
      → Each (Holds now kind) table ms
      → All (λ m. m.kind ≡ kind) ms
  Each-is_kind now kind [] [] h = tt
  Each-is_kind now kind [] (m ∷ ms) h = absurd h
  Each-is_kind now kind (p ∷ table) [] h = absurd h
  Each-is_kind now kind (p ∷ table) (m ∷ ms) h =
      (ap (λ (m : Measurement F). m.kind) h.0.2, Each-is_kind now kind table ms h.1)

  flush_timer-IsOther :
      (now : ℕ) (p : MeasurementKey × AggregatedMetric (List F)) → All IsOther (flush_timer now p)
  unfolding flush_timer
  flush_timer-IsOther now (k, v) = All-map_any IsOther _ (λ t. (refl, refl)) v.value

module _ (F : Type 0) ⦃fl : Float F⦄ where
  flush_set-IsOther :
      (now : ℕ) (p : MeasurementKey × AggregatedMetric (List Text))
      → IsOther {F = F} (flush_set now p)
  unfolding flush_set
  flush_set-IsOther now (k, v) = (refl, refl)

module _ {H : Type 0} (F : Type 0) ⦃fl : Float F⦄ ⦃hist : Histogram F H⦄ where
  flush_histogram-IsOther :
      (now : ℕ) (p : MeasurementKey × AggregatedMetric H)
      → All (IsOther {F = F}) (flush_histogram now p)
  unfolding flush_histogram
  flush_histogram-IsOther now (k, v) =
      All-map_any (IsOther {F = F})
        (λ p.
          Metrics.new now Kind.percentile (k.name ++ (chars "_" ++ to_string p))
            (MeasureUnit.count (hist.value_at_percentile (fl.of_u64 p) v.value)) v.tags)
        (λ p. (refl, refl)) percentiles

module _ {F : Type 0} where
  -- what is found of two kinds in the parts of a flush
  two_kinds :
      (cs gs rest : List (Measurement F))
      → All (λ m. m.kind ≡ Kind.counter) cs
      → All (λ m. m.kind ≡ Kind.gauge) gs
      → All IsOther rest
      → (retain (is_kind Kind.counter) (cs ++ (gs ++ rest)) ≡ cs)
        × (retain (is_kind Kind.gauge) (cs ++ (gs ++ rest)) ≡ gs)
  two_kinds cs gs rest c g o = (
    retain-append (is_kind Kind.counter) cs (gs ++ rest)
        ∙ ap₂ ◌++◌
            (retain_all (is_kind Kind.counter) cs
              (All-weaken _ _ (λ m e. ap (λ k. k == Kind.counter) e) cs c))
            (retain-append (is_kind Kind.counter) gs rest
              ∙ ap₂ ◌++◌
                  (retain_none (is_kind Kind.counter) gs
                    (All-weaken _ _ (λ m e. ap (λ k. k == Kind.counter) e) gs g))
                  (retain_none (is_kind Kind.counter) rest (All-weaken _ _ (λ m e. e.0) rest o)))
        ∙ append-nil cs,
    retain-append (is_kind Kind.gauge) cs (gs ++ rest)
        ∙ ap₂ ◌++◌
            (retain_none (is_kind Kind.gauge) cs
              (All-weaken _ _ (λ m e. ap (λ k. k == Kind.gauge) e) cs c))
            (retain-append (is_kind Kind.gauge) gs rest
              ∙ ap₂ ◌++◌
                  (retain_all (is_kind Kind.gauge) gs
                    (All-weaken _ _ (λ m e. ap (λ k. k == Kind.gauge) e) gs g))
                  (retain_none (is_kind Kind.gauge) rest (All-weaken _ _ (λ m e. e.1) rest o)))
        ∙ append-nil gs,
  )

module _ {F H : Type 0} ⦃fl : Float F⦄ ⦃h : Hasher⦄ ⦃hist : Histogram F H⦄ where
  -- A flush that does not panic sends exactly one measurement for each counter and one for each gauge of
  -- the aggregator, in the order of the tables: under its name and with its tags, with its number in its
  -- unit. It sends no other measurement of these two kinds.
  pub flush-counter :
      (now : ℕ) (a a' : Aggregator F H) (out : List (Measurement F))
      → flush now a ≡ ok (out, a')
      → Each (Holds now Kind.counter) a.counters (retain (is_kind Kind.counter) out)
        × Each (Holds now Kind.gauge) a.gauges (retain (is_kind Kind.gauge) out)
  unfolding flush
  flush-counter now a a' out e =
      let (cs, counted, r) = bind_inv (try_map (flush_number now Kind.counter) a.counters) _ e in
      let (gs, gauged, o) = bind_inv (try_map (flush_number now Kind.gauge) a.gauges) _ r in
      let rest : List (Measurement F) =
        flat_map (flush_timer now) a.timers
        ++ (map (flush_set now) a.sets ++ flat_map (flush_histogram now) a.histograms) in
      let others : All IsOther rest =
        All-append IsOther (flat_map (flush_timer now) a.timers) _
          (All-flat_map IsOther (flush_timer now) (flush_timer-IsOther now) a.timers)
          (All-append IsOther (map (flush_set now) a.sets) _
            (All-map_any IsOther (flush_set now) (flush_set-IsOther F now) a.sets)
            (All-flat_map IsOther (flush_histogram now) (flush_histogram-IsOther F now)
              a.histograms)) in
      let held_counters =
        Each-try_map (flush_number now Kind.counter) (Holds now Kind.counter)
          (flush_number-Holds now Kind.counter) a.counters counted in
      let held_gauges =
        Each-try_map (flush_number now Kind.gauge) (Holds now Kind.gauge)
          (flush_number-Holds now Kind.gauge) a.gauges gauged in
      let found =
        two_kinds cs gs rest (Each-is_kind now Kind.counter a.counters cs held_counters)
          (Each-is_kind now Kind.gauge a.gauges gs held_gauges) others in
      let sent : cs ++ (gs ++ rest) ≡ out = cc in
      (
        subst (Each (Holds now Kind.counter) a.counters)
            (sym found.0 ∙ ap (retain (is_kind Kind.counter)) sent) held_counters,
        subst (Each (Holds now Kind.gauge) a.gauges)
            (sym found.1 ∙ ap (retain (is_kind Kind.gauge)) sent) held_gauges,
      )
