-- ===== src/Tests/Buffer.antt =====
-- src/aggregations/buffer.rs: the unit tests, and the theorems at a few measurements.
use ingraind.Prelude.{
  ℕ, ◌≤◌, ◌≡◌, refl, Bool, true, false, none, some, List, [], ◌∷◌, chars, String, ok, arith, retain,
  is_empty, if◌then◌else◌, All, Each, text_beq, try_map,
}
use ingraind.Prelude.Maps.{or_default, entry, lookup}
use ingraind.Float.{whole-IsExact, exact_max}
use ingraind.Backends.{single, list}
use ingraind.Metrics
use ingraind.Metrics.{Measurement}
use ingraind.Metrics.Kind
use ingraind.Metrics.Kind.{has}
use ingraind.Metrics.Units
use ingraind.Metrics.Units.{MeasureUnit, UnitType, is_str}
use ingraind.Aggregations.Buffer.{
  MeasurementKey, AggregatedMetric, Aggregator, new, measurement_key, record_measurement,
  record_all, record_counter, record_gauge, record_timer, record_set, record_histogram, value_of,
  key_beq, key_equality, set_insert, set_value,
}
use ingraind.Aggregations.Buffer.Counters.{value_at, counts_for}
use ingraind.Aggregations.Buffer.Flush.{
  flush, flush_number, flush_timer, flush_set, flush_histogram, flat_map, cleared,
}
use ingraind.Aggregations.Buffer.Flush.Panics.{flush_total, FitsKind, recorded, IsNumeric}
use ingraind.Aggregations.Buffer.Flush.Sent.{Holds, is_kind, flush-counter}
use mathlib.Core.List.{Permᴰ}
use ingraind.Aggregations.Buffer.Order.{counter-Perm}
use ingraind.Aggregations.Buffer.Totals.{counter_total, sum_of}
use ingraind.Aggregations.Buffer.Schedule.{
  Buffer, handle, started, flush_if_needed, schedule_next_flush,
}
use ingraind.Aggregations.Buffer.Schedule.Timer.{
  message, Reach, here, next, start, IsArmed, Reach-IsArmed,
}
use ingraind.Aggregations.Buffer.Schedule.Handling.{handle_total, after, requests}
use ingraind.Tests.Samples.{whole_float, tag_count, largest}

abbrev count_of : String → ℕ → Measurement ℕ
count_of name n = Metrics.new 7 Kind.counter (chars name) (MeasureUnit.count n) []

abbrev gauge_of : ℕ → Bool → Measurement ℕ
gauge_of n reset =
    let m = Metrics.new {F = ℕ} 7 Kind.gauge (chars "foo") (MeasureUnit.count n) [] in
    record m { reset = reset }

abbrev set_of : String → Measurement ℕ
set_of v = Metrics.new 7 Kind.set (chars "foo") (MeasureUnit.str (chars v)) []

abbrev timer_of : ℕ → Measurement ℕ
timer_of n = Metrics.new 7 Kind.timer (chars "foo") (MeasureUnit.count n) []

abbrev foo : MeasurementKey
foo = record { name = chars "foo"; tags_hash = 0 }

abbrev mixed : List (Measurement ℕ)
mixed =
    count_of "foo" 1
    ∷ gauge_of 4 true
    ∷ count_of "bar" 9
    ∷ set_of "bar"
    ∷ count_of "foo" 2
    ∷ timer_of 320
    ∷ set_of "bad"
    ∷ set_of "bar"
    ∷ gauge_of 3 false
    ∷ []

abbrev mixed_run : Aggregator ℕ ℕ
mixed_run = record_all (new true) mixed

-- the counter, the gauge, the set and the timer of "foo"
values :
    (value_at foo mixed_run.counters ≡ some 3)
    × (value_at foo mixed_run.gauges ≡ some 7)
    × (value_at foo mixed_run.sets ≡ some (chars "bar" ∷ chars "bad" ∷ []))
    × (value_at foo mixed_run.timers ≡ some (320 ∷ []))
unfolding record_all record_measurement record_counter record_gauge record_timer record_set
    record_histogram value_of key_beq set_insert set_value has text_beq entry lookup measurement_key
    Units.get Units.get_type
values = (refl, refl, refl, refl)

unscaled : All (λ (m : Measurement ℕ). or_default m.sample_rate 1 ≡ 1) mixed
unscaled = (refl, (refl, (refl, (refl, (refl, (refl, (refl, (refl, (refl, tt)))))))))

small : sum_of (retain (counts_for foo Kind.counter) mixed) ≤ exact_max
unfolding measurement_key key_beq has text_beq Units.get
small = omega arith

counter_total_example : value_at foo (record_all (new {F = ℕ} {H = ℕ} true) mixed).counters ≡ (
    if is_empty (retain (counts_for foo Kind.counter) mixed)
    then none
    else some (sum_of (retain (counts_for foo Kind.counter) mixed)))
counter_total_example = counter_total ℕ whole-IsExact true foo mixed unscaled small

-- two measurements of a counter in either order
counter-Perm_example :
    value_at foo
      (record_all (new {F = ℕ} {H = ℕ} true) (count_of "foo" 3 ∷ count_of "foo" 4 ∷ [])).counters
    ≡ value_at foo
        (record_all (new {F = ℕ} {H = ℕ} true) (count_of "foo" 4 ∷ count_of "foo" 3 ∷ [])).counters
unfolding measurement_key key_beq has text_beq Units.get
counter-Perm_example =
    counter-Perm ℕ whole-IsExact true foo (count_of "foo" 3 ∷ count_of "foo" 4 ∷ [])
      (count_of "foo" 4 ∷ count_of "foo" 3 ∷ []) ∣ Permᴰ.swap refl refl ∣₁ (refl, (refl, tt))
      (refl, (refl, tt)) (omega arith)

resets : counts_for foo Kind.gauge (gauge_of 4 true) ≡ true
unfolding measurement_key key_beq has text_beq
resets = refl

mixed-FitsKind : All (FitsKind {F = ℕ}) mixed
unfolding has
mixed-FitsKind = (refl, (refl, (refl, (refl, (refl, (refl, (refl, (refl, (refl, tt)))))))))

flush_total_example :
    (out : List (Measurement ℕ)) × (flush 8 (recorded {F = ℕ} {H = ℕ} true mixed)
      ≡ ok (out, new true))
flush_total_example = flush_total 8 true mixed mixed-FitsKind

abbrev three : AggregatedMetric ℕ
three = record { value = 3; unit = UnitType.count; tags = [] }

abbrev one_counter : Aggregator ℕ ℕ
one_counter = record {
  counters = (foo, three) ∷ [];
  gauges = [];
  timers = [];
  sets = [];
  histograms = [];
  enable_histograms = false;
}

abbrev sent_three : List (Measurement ℕ)
sent_three = count_of "foo" 3 ∷ []

one_flush : flush 7 one_counter ≡ ok (sent_three, new false)
unfolding flush flush_number flush_timer flush_set flush_histogram flat_map try_map Units.to_unit
one_flush = refl

flush-counter_example :
    Each (Holds 7 Kind.counter) one_counter.counters (retain (is_kind Kind.counter) sent_three)
    × Each (Holds 7 Kind.gauge) one_counter.gauges (retain (is_kind Kind.gauge) sent_three)
flush-counter_example = flush-counter 7 one_counter (new false) sent_three one_flush

abbrev idle : Buffer ℕ ℕ
idle = record { aggregator = new true; flush_handle = 0; flush_period = 30000; last_flush_time = 0 }

idle-IsNumeric : IsNumeric idle.aggregator
idle-IsNumeric = record { counters = tt; gauges = tt }

handle_total_example :
    (out : List (Measurement ℕ)) × (flush 8 idle.aggregator ≡ ok (out, cleared idle.aggregator))
    × (handle 31000 8 2 (list mixed) idle
        ≡ ok (after 31000 2 (list mixed) idle, requests 31000 idle out))
    × IsNumeric (after 31000 2 (list mixed) idle).aggregator
handle_total_example = handle_total 31000 8 2 (list mixed) idle idle-IsNumeric mixed-FitsKind

early :
    handle 20 8 2 (single (count_of "foo" 1)) (started 10 1 idle).0
    ≡ ok (after 20 2 (single (count_of "foo" 1)) (started 10 1 idle).0, [])
unfolding handle started flush_if_needed schedule_next_flush
early = refl

one_message : Reach (start 10 1 idle) (record {
  buffer = after 20 2 (single (count_of "foo" 1)) (started 10 1 idle).0;
  timers = (start 10 1 idle).timers;
})
unfolding started schedule_next_flush
one_message = next here (message 20 8 2 (single (count_of "foo" 1)) (omega arith) early)

Reach-IsArmed_example : IsArmed (record {
  buffer = after 20 2 (single (count_of "foo" 1)) (started 10 1 idle).0;
  timers = (start 10 1 idle).timers;
})
Reach-IsArmed_example = Reach-IsArmed 10 1 idle one_message
