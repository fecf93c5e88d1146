-- ===== src/Aggregations/Buffer/Flush/Panics.antt =====
-- `Aggregator::flush` of src/aggregations/buffer.rs panics on a counter or a gauge whose unit is
-- that of a text. No such entry arises if counters and gauges are recorded with numbers only.
use ingraind.Prelude.{
  ℕ, ◌≡◌, refl, Bool, false, ◌&&◌, ◌||◌, List, [], ◌∷◌, ◌++◌, map, All, arith, ok, try_map,
  Bool-cases, inl, inr, ap, ◌∙◌,
}
use ingraind.Prelude.Maps.{All-entry}
use ingraind.Float.{Float}
use ingraind.Metrics
use ingraind.Metrics.{Measurement}
use ingraind.Metrics.Kind
use ingraind.Metrics.Kind.{has}
use ingraind.Metrics.Units
use ingraind.Metrics.Units.{MeasureUnit, UnitType, is_str}
use ingraind.Aggregations.Buffer.{
  Hasher, Histogram, Table, Aggregator, new, key_equality, record_counter, record_gauge,
  record_measurement, record_all,
}
use ingraind.Aggregations.Buffer.Flush.{
  flush, flush_number, flush_timer, flush_set, flush_histogram, flat_map, cleared,
}

abbrev IsNumber : UnitType → Type 0
IsNumber UnitType.str = ⊥
IsNumber _ = Unit

abbrev AreNumbers : {F : Type 0} → Table F → Type 0
AreNumbers t = All (λ p. IsNumber p.1.unit) t

-- no counter and no gauge has the unit of a text
pub record IsNumeric {F H : Type 0} (a : Aggregator F H) : Type 0 where
  pub counters : AreNumbers a.counters
  pub gauges : AreNumbers a.gauges

-- a counter or gauge measurement holds a number
abbrev pub FitsKind : {F : Type 0} → Measurement F → Type 0
FitsKind m = (has m.kind Kind.counter || has m.kind Kind.gauge) && is_str m.value ≡ false

get_type-IsNumber : (u : MeasureUnit) → is_str u ≡ false → IsNumber (Units.get_type u)
unfolding Units.get_type
get_type-IsNumber (MeasureUnit.byte x) h = tt
get_type-IsNumber (MeasureUnit.count x) h = tt
get_type-IsNumber (MeasureUnit.str s) h = ground arith

module _ {F : Type 0} ⦃fl : Float F⦄ ⦃h : Hasher⦄ where
  record_counter-AreNumbers :
      (m : Measurement F) (t : Table F)
      → FitsKind m
      → AreNumbers t
      → AreNumbers (record_counter m t)
  unfolding record_counter
  record_counter-AreNumbers m t fits a = elim (Bool-cases (has m.kind Kind.counter)) [
    | inl e ↦ rw e (
        All-entry (λ am. IsNumber am.unit) _ _ _ t (get_type-IsNumber m.value (ground arith))
          (λ v n. n) a)
    | inr e ↦ rw e a
  ]

  record_gauge-AreNumbers :
      (m : Measurement F) (t : Table F) → FitsKind m → AreNumbers t → AreNumbers (record_gauge m t)
  unfolding record_gauge
  record_gauge-AreNumbers m t fits a = elim (Bool-cases (has m.kind Kind.gauge)) [
    | inl e ↦ rw e (
        All-entry (λ am. IsNumber am.unit) _ _ _ t (get_type-IsNumber m.value (ground arith))
          (λ v n. n) a)
    | inr e ↦ rw e a
  ]

to_unit-IsNumber :
    (t : UnitType) (n : ℕ) → IsNumber t → (u : MeasureUnit) × (Units.to_unit t n ≡ ok u)
unfolding Units.to_unit
to_unit-IsNumber UnitType.byte n h = (MeasureUnit.byte n, refl)
to_unit-IsNumber UnitType.count n h = (MeasureUnit.count n, refl)
to_unit-IsNumber UnitType.str n h = absurd h

module _ {F : Type 0} ⦃fl : Float F⦄ where
  flush_number_total :
      (now kind : ℕ) (t : Table F)
      → AreNumbers t
      → (out : List (Measurement F)) × (try_map (flush_number now kind) t ≡ ok out)
  unfolding try_map flush_number
  flush_number_total now kind [] h = ([], refl)
  flush_number_total now kind ((k, v) ∷ t) h =
      let (u, e) = to_unit-IsNumber v.unit (fl.to_u64 v.value) h.0 in
      let (out, f) = flush_number_total now kind t h.1 in
      (Metrics.new now kind k.name u v.tags ∷ out, rw e (rw f))

module _ {F H : Type 0} ⦃fl : Float F⦄ ⦃h : Hasher⦄ ⦃hist : Histogram F H⦄ where
  pub record_measurement-IsNumeric :
      (a : Aggregator F H) (m : Measurement F)
      → FitsKind m
      → IsNumeric a
      → IsNumeric (record_measurement a m)
  unfolding record_measurement
  record_measurement-IsNumeric a m fits n = record {
    counters = record_counter-AreNumbers m a.counters fits n.counters;
    gauges = record_gauge-AreNumbers m a.gauges fits n.gauges;
  }

  pub record_all-IsNumeric :
      (ms : List (Measurement F)) (a : Aggregator F H)
      → All FitsKind ms
      → IsNumeric a
      → IsNumeric (record_all a ms)
  unfolding record_all
  record_all-IsNumeric [] a fits n = n
  record_all-IsNumeric (m ∷ ms) a fits n =
      record_all-IsNumeric ms (record_measurement a m) fits.1
        (record_measurement-IsNumeric a m fits.0 n)

  pub flush-IsNumeric :
      (now : ℕ) (a : Aggregator F H)
      → IsNumeric a
      → (out : List (Measurement F)) × (flush now a ≡ ok (out, cleared a))
  unfolding flush
  flush-IsNumeric now a n =
      let (counters, c) = flush_number_total now Kind.counter a.counters n.counters in
      let (gauges, g) = flush_number_total now Kind.gauge a.gauges n.gauges in
      (
        counters
            ++ (gauges
                ++ (flat_map (flush_timer now) a.timers
                    ++ (map (flush_set now) a.sets
                        ++ flat_map (flush_histogram now) a.histograms))),
        rw c (rw g),
      )

  cleared-record_all :
      (ms : List (Measurement F)) (a : Aggregator F H) → cleared (record_all a ms) ≡ cleared a
  unfolding record_all record_measurement
  cleared-record_all [] a = refl
  cleared-record_all (m ∷ ms) a = cleared-record_all ms (record_measurement a m)

  -- a new aggregator after some measurements
  abbrev pub recorded : Bool → List (Measurement F) → Aggregator F H
  recorded enable_histograms ms = record_all (new enable_histograms) ms

  -- Whatever measurements a new aggregator is given, if each counter or gauge among them holds a
  -- number, the flush behind them does not panic, and clears the tables.
  pub flush_total :
      (now : ℕ) (enable_histograms : Bool) (ms : List (Measurement F))
      → All FitsKind ms
      → (out : List (Measurement F)) × (flush now (recorded enable_histograms ms)
          ≡ ok (out, new enable_histograms))
  flush_total now enable_histograms ms fits =
      let start = new {F = F} {H = H} enable_histograms in
      let (out, e) =
        flush-IsNumeric now (record_all start ms)
          (record_all-IsNumeric ms start fits (record { counters = tt; gauges = tt })) in
      (out, e ∙ ap (λ a. ok (out, a)) (cleared-record_all ms start))
