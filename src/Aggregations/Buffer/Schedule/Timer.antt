-- ===== src/Aggregations/Buffer/Schedule/Timer.antt =====
-- The actor `Buffer` of src/aggregations/buffer.rs among its timers: messages and timers in any
-- order. Of actix it is used that `cancel_future` takes a timer away, that `run_later` adds one
-- under a new handle, and that a timer does not fire before it is due.
use ingraind.Prelude.{
  ℕ, ◌+◌, ◌-◌, ◌≤◌, ◌≡◌, refl, true, List, [], ◌∷◌, arith, if◌then◌else◌, ◌==◌, nat_equality, Run,
  ok, leb, Bool-cases, inl, inr, bind_inv, ◌∙◌, sym,
}
use ingraind.Float.{Float}
use ingraind.Backends.{Message, measurements}
use ingraind.Metrics.{Measurement}
use ingraind.Aggregations.Buffer.{Hasher, Histogram, Aggregator, record_all}
use ingraind.Aggregations.Buffer.Flush as Tables
use ingraind.Aggregations.Buffer.Flush.{cleared}
use ingraind.Aggregations.Buffer.Schedule.{
  Buffer, Request, cancel_future, run_later, do_send, schedule_next_flush, started, send_list,
  flush, flush_if_needed, handle,
}

-- the timers that are pending: their handles, and when they are due
abbrev pub Timers : Type 0
Timers = List (ℕ × ℕ)

abbrev cancel : ℕ → Timers → Timers
cancel h [] = []
cancel h ((j, due) ∷ ts) = let rest = cancel h ts in if j == h then rest else (j, due) ∷ rest

cancel_own : (j due : ℕ) → cancel j ((j, due) ∷ []) ≡ []
cancel_own j due = ground arith

module _ {F : Type 0} where
  -- the requests carried out in order, at time `now`; `run_later` returns `fresh`
  abbrev pub carry_out : ℕ → ℕ → List (Request F) → Timers → Timers
  carry_out now fresh [] ts = ts
  carry_out now fresh (cancel_future h ∷ rs) ts = carry_out now fresh rs (cancel h ts)
  carry_out now fresh (run_later d ∷ rs) ts = carry_out now fresh rs ((fresh, now + d) ∷ ts)
  carry_out now fresh (do_send m ∷ rs) ts = carry_out now fresh rs ts

module _ {F : Type 0} where
  carry_out-send_list :
      (now fresh : ℕ) (ms : List (Measurement F)) (ts : Timers)
      → carry_out now fresh (send_list ms) ts ≡ ts
  unfolding send_list
  carry_out-send_list now fresh [] ts = refl
  carry_out-send_list now fresh (m ∷ ms) ts = refl

pub record System (F H : Type 0) : Type 0 where
  pub buffer : Buffer F H
  pub timers : Timers

module _ {F H : Type 0} ⦃fl : Float F⦄ ⦃h : Hasher⦄ ⦃hist : Histogram F H⦄ where
  -- A message comes, or the first of the pending timers that is due fires.
  pub data Step (s : System F H) : System F H → Type 0 where
    message :
        {b : Buffer F H} {rs : List (Request F)} (now stamp fresh : ℕ) (msg : Message F)
        → s.buffer.last_flush_time ≤ now
        → handle now stamp fresh msg s.buffer ≡ ok (b, rs)
        → Step s (record { buffer = b; timers = carry_out now fresh rs s.timers })
    fire :
        {b : Buffer F H} {rs : List (Request F)} {j due : ℕ} {ts : Timers} (now stamp fresh : ℕ)
        → s.timers ≡ (j, due) ∷ ts
        → due ≤ now
        → flush_if_needed now stamp fresh s.buffer ≡ ok (b, rs)
        → Step s (record { buffer = b; timers = carry_out now fresh rs ts })

  pub data Reach (s : System F H) : System F H → Type 0 where
    here : Reach s s
    next : {t u : System F H} → Reach s t → Step t u → Reach s u

  -- Exactly one timer is pending: the buffer's own, a period after its last flush.
  abbrev pub IsArmed : System F H → Type 0
  IsArmed s =
      s.timers ≡ (s.buffer.flush_handle, s.buffer.last_flush_time + s.buffer.flush_period) ∷ []

  flush-eq-ok :
      (now stamp fresh : ℕ) (b b' : Buffer F H) (rs : List (Request F))
      → flush now stamp fresh b ≡ ok (b', rs)
      → (out : List (Measurement F)) × (a : Aggregator F H) × (record b {
        aggregator = a;
        last_flush_time = now;
        flush_handle = fresh;
      }
          ≡ b')
        × (cancel_future b.flush_handle ∷ run_later b.flush_period ∷ send_list out ≡ rs)
  unfolding flush schedule_next_flush
  flush-eq-ok now stamp fresh b b' rs e =
      let ((out, a), sent, o) = bind_inv (Tables.flush stamp b.aggregator) _ e in (out, a, cc, cc)

  flush-IsArmed :
      (now stamp fresh : ℕ) (b b' : Buffer F H) (rs : List (Request F)) (ts : Timers)
      → flush now stamp fresh b ≡ ok (b', rs)
      → cancel b.flush_handle ts ≡ []
      → IsArmed (record { buffer = b'; timers = carry_out now fresh rs ts })
  flush-IsArmed now stamp fresh b b' rs ts e c =
      let (out, a, eb, er) = flush-eq-ok now stamp fresh b b' rs e in
      rw (← eb) (rw (← er) (carry_out-send_list now fresh out _ ∙ rw c))

  -- whether a flush was due or not
  flush_if_needed-IsArmed :
      (now stamp fresh : ℕ) (b b' : Buffer F H) (rs : List (Request F)) (ts : Timers)
      → flush_if_needed now stamp fresh b ≡ ok (b', rs)
      → IsArmed (record { buffer = b; timers = ts })
      → IsArmed (record { buffer = b'; timers = carry_out now fresh rs ts })
  unfolding flush_if_needed
  flush_if_needed-IsArmed now stamp fresh b b' rs ts e armed =
      elim (Bool-cases (leb b.flush_period (now - b.last_flush_time))) [
        | inl late ↦
            flush-IsArmed now stamp fresh b b' rs ts (rw late at e)
              (rw armed (cancel_own b.flush_handle (b.last_flush_time + b.flush_period)))
        | inr early ↦
            let same : ◌≡◌ {A = Run (Buffer F H × List (Request F))} (ok (b, [])) (ok (b', rs)) =
              rw early at e in
            let eb : b ≡ b' = cc in let er : [] ≡ rs = cc in rw (← eb) (rw (← er) armed)
      ]

  fire-IsArmed :
      (now stamp fresh : ℕ) (b b' : Buffer F H) (rs : List (Request F)) (j due : ℕ) (ts : Timers)
      → flush_if_needed now stamp fresh b ≡ ok (b', rs)
      → IsArmed (record { buffer = b; timers = (j, due) ∷ ts })
      → due ≤ now
      → IsArmed (record { buffer = b'; timers = carry_out now fresh rs ts })
  unfolding flush_if_needed
  fire-IsArmed now stamp fresh b b' rs j due ts e armed d =
      let late : leb b.flush_period (now - b.last_flush_time) ≡ true = ground arith in
      let none_left : ts ≡ [] = cc in
      flush-IsArmed now stamp fresh b b' rs ts (rw late at e) (rw none_left)

  handle-IsArmed :
      (now stamp fresh : ℕ) (msg : Message F) (b b' : Buffer F H) (rs : List (Request F))
      (ts : Timers)
      → handle now stamp fresh msg b ≡ ok (b', rs)
      → IsArmed (record { buffer = b; timers = ts })
      → IsArmed (record { buffer = b'; timers = carry_out now fresh rs ts })
  unfolding handle
  handle-IsArmed now stamp fresh msg b b' rs ts e armed =
      let ((b₁, rs₁), first, o) = bind_inv (flush_if_needed now stamp fresh b) _ e in
      let eb : record b₁ { aggregator = record_all b₁.aggregator (measurements msg) } ≡ b' = cc in
      let er : rs₁ ≡ rs = cc in
      rw (← eb) (rw (← er) (flush_if_needed-IsArmed now stamp fresh b b₁ rs₁ ts first armed))

  Step-IsArmed : {s t : System F H} → Step s t → IsArmed s → IsArmed t
  Step-IsArmed {s} (message now stamp fresh msg later e) armed =
      handle-IsArmed now stamp fresh msg s.buffer _ _ s.timers e armed
  Step-IsArmed {s} (fire {j} {due} {ts} now stamp fresh pending d e) armed =
      fire-IsArmed now stamp fresh s.buffer _ _ j due ts e (sym pending ∙ armed) d

  -- the system behind `started`
  abbrev pub start : ℕ → ℕ → Buffer F H → System F H
  start now fresh b = record {
    buffer = (started now fresh b).0;
    timers = carry_out now fresh (started now fresh b).1 [];
  }

  -- Once the actor has started, exactly one timer is pending after any messages and timers: the
  -- one that the actor holds the handle of, due one period after the last flush.
  pub Reach-IsArmed :
      (now fresh : ℕ) (b : Buffer F H) {s : System F H} → Reach (start now fresh b) s → IsArmed s
  unfolding started
  Reach-IsArmed now fresh b here = refl
  Reach-IsArmed now fresh b (next r st) = Step-IsArmed st (Reach-IsArmed now fresh b r)
