-- ===== src/Aggregations/Buffer/Schedule.antt =====
-- The actor `Buffer` of src/aggregations/buffer.rs: when it flushes, and what it asks of actix.
-- Times are milliseconds of `Instant::now()`. What the actor asks of its context and of the
-- upstream recipient is a list of requests; the handle that `run_later` returns is an argument.
-- An upstream mailbox that is closed is not modelled (`do_send(..).unwrap()` would panic).
pub mod Timer
pub mod Handling
use ingraind.Prelude.{
  ℕ, ◌+◌, ◌-◌, ◌*◌, ◌%◌, ◌^◌, ◌≤◌, ◌<◌, ◌≡◌, refl, Bool, true, false, Option, none, some, List, [],
  ◌∷◌, ◌++◌, arith, if◌then◌else◌, ◌==◌, nat_equality, Run, ok, err, ◌>>=◌, leb, is_empty, not,
  retain, nat_beq_iff, Bool-cases, inl, inr, bind_inv,
}
use ingraind.Float.{Float}
use ingraind.Backends.{Message, single, list, measurements}
use ingraind.Metrics.{Measurement}
use ingraind.Aggregations.Buffer.{Hasher, Histogram, Aggregator, new, record_all}
use ingraind.Aggregations.Buffer.Flush as Tables

-- `BufferConfig`, its defaults filled in
pub record BufferConfig : Type 0 where
  pub interval_ms : ℕ
  pub interval_s : Option ℕ
  pub enable_histograms : Bool

abbrev pub default_interval_ms : ℕ
default_interval_ms = 10000

abbrev pub default_enable_histograms : Bool
default_enable_histograms = true

-- the actor's fields but for `upstream`
pub record Buffer (F H : Type 0) : Type 0 where
  pub aggregator : Aggregator F H
  pub flush_handle : ℕ
  pub flush_period : ℕ
  pub last_flush_time : ℕ

pub data Request (F : Type 0) : Type 0 where
  cancel_future : ℕ → Request F
  run_later : ℕ → Request F
  do_send : Message F → Request F

-- the period in milliseconds; the product wraps in `u64`, as a release build computes it
unfoldable pub period : BufferConfig → ℕ
period config = elim config.interval_s [ none ↦ config.interval_ms | some s ↦ (s * 1000) % 2 ^ 64 ]

-- a message is sent only if there is something to send
module _ {F : Type 0} where
  unfoldable pub send_list : List (Measurement F) → List (Request F)
  send_list [] = []
  send_list (m ∷ ms) = do_send (list (m ∷ ms)) ∷ []

module _ {F H : Type 0} where
  -- `SpawnHandle::default()` is handle 0.
  unfoldable pub launch : ℕ → BufferConfig → Buffer F H
  unfolding period
  launch now config = record {
    aggregator = new config.enable_histograms;
    flush_handle = 0;
    flush_period = period config;
    last_flush_time = now;
  }

  unfoldable pub schedule_next_flush : ℕ → ℕ → Buffer F H → Buffer F H × List (Request F)
  schedule_next_flush now handle b = (
    record b { last_flush_time = now; flush_handle = handle },
    cancel_future b.flush_handle ∷ run_later b.flush_period ∷ [],
  )

  -- `started` of the actor
  unfoldable pub started : ℕ → ℕ → Buffer F H → Buffer F H × List (Request F)
  unfolding schedule_next_flush
  started now handle b = schedule_next_flush now handle b

module _ {F H : Type 0} ⦃fl : Float F⦄ ⦃h : Hasher⦄ ⦃hist : Histogram F H⦄ where
  -- `stamp` is what `timestamp_now` reads
  unfoldable pub flush : ℕ → ℕ → ℕ → Buffer F H → Run (Buffer F H × List (Request F))
  unfolding schedule_next_flush send_list
  flush now stamp handle b =
      let scheduled = schedule_next_flush now handle b in
      Tables.flush stamp b.aggregator >>= λ r.
      ok (record (scheduled.0) { aggregator = r.1 }, scheduled.1 ++ send_list r.0)

  unfoldable pub flush_if_needed : ℕ → ℕ → ℕ → Buffer F H → Run (Buffer F H × List (Request F))
  unfolding flush
  flush_if_needed now stamp handle b =
      if leb b.flush_period (now - b.last_flush_time) then flush now stamp handle b else ok (b, [])

  -- the actor's message handler
  unfoldable pub handle : ℕ → ℕ → ℕ → Message F → Buffer F H → Run (Buffer F H × List (Request F))
  unfolding flush_if_needed
  handle now stamp fresh msg b = flush_if_needed now stamp fresh b >>= λ r.
      ok (record (r.0) { aggregator = record_all (r.0).aggregator (measurements msg) }, r.1)
