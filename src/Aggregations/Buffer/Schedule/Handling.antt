-- ===== src/Aggregations/Buffer/Schedule/Handling.antt =====
-- What the handler of the actor `Buffer` of src/aggregations/buffer.rs does with a message.
use ingraind.Prelude.{
  ℕ, ◌-◌, ◌≡◌, Bool, List, [], ◌∷◌, if◌then◌else◌, ok, leb, Bool-cases, inl, inr, All,
}
use ingraind.Float.{Float}
use ingraind.Backends.{Message, measurements}
use ingraind.Metrics.{Measurement}
use ingraind.Aggregations.Buffer.{Hasher, Histogram, Aggregator, record_all}
use ingraind.Aggregations.Buffer.Flush as Tables
use ingraind.Aggregations.Buffer.Flush.{cleared}
use ingraind.Aggregations.Buffer.Flush.Panics.{
  IsNumeric, FitsKind, flush-IsNumeric, record_all-IsNumeric,
}
use ingraind.Aggregations.Buffer.Schedule.{
  Buffer, Request, cancel_future, run_later, send_list, handle,
}

module _ {F H : Type 0} where
  -- a flush is due
  abbrev pub is_due : ℕ → Buffer F H → Bool
  is_due now b = leb b.flush_period (now - b.last_flush_time)

  cleared-IsNumeric : (a : Aggregator F H) → IsNumeric (cleared a)
  cleared-IsNumeric a = record { counters = tt; gauges = tt }

module _ {F H : Type 0} ⦃fl : Float F⦄ ⦃h : Hasher⦄ ⦃hist : Histogram F H⦄ where
  -- the actor after it has handled a message; `fresh` is the handle of a new timer
  abbrev pub after : ℕ → ℕ → Message F → Buffer F H → Buffer F H
  after now fresh msg b =
      if is_due now b
      then record b {
        aggregator = record_all (cleared b.aggregator) (measurements msg);
        flush_handle = fresh;
        last_flush_time = now;
      }
      else record b { aggregator = record_all b.aggregator (measurements msg) }

  -- what it has asked for, if the flush gave `out`
  abbrev pub requests : ℕ → Buffer F H → List (Measurement F) → List (Request F)
  requests now b out =
      if is_due now b
      then cancel_future b.flush_handle ∷ run_later b.flush_period ∷ send_list out
      else []

  handle-flush :
      (now stamp fresh : ℕ) (msg : Message F) (b : Buffer F H) (out : List (Measurement F))
      → Tables.flush stamp b.aggregator ≡ ok (out, cleared b.aggregator)
      → handle now stamp fresh msg b ≡ ok (after now fresh msg b, requests now b out)
  unfolding handle
  handle-flush now stamp fresh msg b out e = elim (Bool-cases (is_due now b)) [
    | inl late ↦ rw (late, e)
    | inr early ↦ rw early
  ]

  -- From an aggregator whose counters and gauges are numbers, a message whose counters and gauges
  -- are numbers is handled without a panic. If a flush is due, what was recorded before is sent
  -- (unless it is nothing), the timer is set anew and the message starts the new tables; if none is
  -- due, nothing is asked for. The message is recorded either way, and the numbers stay numbers.
  pub handle_total :
      (now stamp fresh : ℕ) (msg : Message F) (b : Buffer F H)
      → IsNumeric b.aggregator
      → All FitsKind (measurements msg)
      → (out : List (Measurement F)) × (Tables.flush stamp b.aggregator
          ≡ ok (out, cleared b.aggregator))
        × (handle now stamp fresh msg b ≡ ok (after now fresh msg b, requests now b out))
        × IsNumeric (after now fresh msg b).aggregator
  handle_total now stamp fresh msg b n fits =
      let (out, e) = flush-IsNumeric stamp b.aggregator n in
      (
        out,
        e,
        handle-flush now stamp fresh msg b out e,
        elim (Bool-cases (is_due now b)) [
          | inl late ↦ rw late (
              record_all-IsNumeric (measurements msg) (cleared b.aggregator) fits
                (cleared-IsNumeric b.aggregator))
          | inr early ↦ rw early (record_all-IsNumeric (measurements msg) b.aggregator fits n)
        ],
      )
