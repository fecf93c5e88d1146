-- ===== src/Pipeline/Mailboxes.antt =====
-- The actors of a pipeline as they run: each has a mailbox, in which what the one before it sends
-- waits, and at any time any actor with a message takes the next one. src/config.rs starts each actor
-- by `start_in_arbiter` or `start`, so they run side by side, and `do_send` of a recipient appends to
-- its mailbox. That a mailbox keeps the order of what is sent to it, and that an actor handles one
-- message at a time, is what actix documents, and the steps below assume it.
pub mod Sequential
pub mod Progress
pub mod Guarded
pub mod Described
pub mod Arrived
pub mod Finished
use ingraind.Prelude.{ℕ, zero, suc, ◌≡◌, List, [], ◌∷◌, ◌++◌, Run, ok}
use ingraind.Float.{Float}
use ingraind.Backends.{Message}
use ingraind.Aggregations.Buffer.{Hasher, Histogram}
use ingraind.Aggregations.Container.{Cgroups}
use ingraind.Aggregations.Regex.{Matcher}
use ingraind.Pipeline.{
  Stage, Recipient, backend, stage, system_details_stage, buffer_stage, container_stage, exec_stage,
  regex_stage, whitelist_stage,
}
use ingraind.Aggregations.Buffer.Schedule.{Buffer, Request, flush_if_needed}
use ingraind.Pipeline.Delivery.{Tick, handle, messages}

-- a pipeline with the mailbox of each stage, and what the backend got
abbrev pub Actors : Type 0 → Type 0 → Type 0 → Type 0
Actors F H R = Recipient (Stage F H R × List (Message F)) (List (Message F))

module _ {F H R : Type 0} where
  -- messages sent to the front of a pipeline
  abbrev pub push : List (Message F) → Actors F H R → Actors F H R
  push sent (backend got) = backend (got ++ sent)
  push sent (stage (s, queue) upstream) = stage (s, queue ++ sent) upstream

  -- the stages with empty mailboxes
  abbrev pub idle : List (Stage F H R) → Actors F H R
  idle [] = backend []
  idle (s ∷ stages) = stage (s, []) (idle stages)

  abbrev pub got : Actors F H R → List (Message F)
  got (backend msgs) = msgs
  got (stage c upstream) = got upstream

  -- no message waits
  abbrev pub IsIdle : Actors F H R → Type 0
  IsIdle (backend msgs) = Unit
  IsIdle (stage (s, queue) upstream) = (queue ≡ []) × IsIdle upstream

  -- a stage that does not read the time: any but a buffer
  abbrev pub IsTimeless : Stage F H R → Type 0
  IsTimeless (system_details_stage s) = Unit
  IsTimeless (buffer_stage b) = ⊥
  IsTimeless container_stage = Unit
  IsTimeless (exec_stage e) = Unit
  IsTimeless (regex_stage rules) = Unit
  IsTimeless (whitelist_stage w) = Unit

  abbrev pub AllTimeless : Actors F H R → Type 0
  AllTimeless (backend msgs) = Unit
  AllTimeless (stage (s, queue) upstream) = IsTimeless s × AllTimeless upstream

-- One actor, whichever it is, handles its next message at some time, or the timer of a buffer fires,
-- without a panic.
pub data Step {F H R : Type 0} ⦃fl : Float F⦄ ⦃h : Hasher⦄ ⦃hist : Histogram F H⦄ ⦃re : Matcher R⦄
    ⦃cg : Cgroups⦄ : Actors F H R → Actors F H R → Type 0 where
  handled :
      {s s' : Stage F H R} {msg : Message F} {queue sent : List (Message F)}
      {upstream : Actors F H R} (t : Tick)
      → handle t s msg ≡ ok (s', sent)
      → Step (stage (s, msg ∷ queue) upstream) (stage (s', queue) (push sent upstream))
  fired :
      {b b' : Buffer F H} {queue : List (Message F)} {asked : List (Request F)}
      {upstream : Actors F H R} (t : Tick)
      → flush_if_needed t.now t.stamp t.fresh b ≡ ok (b', asked)
      → Step
          (stage (buffer_stage b, queue) upstream)
          (stage (buffer_stage b', queue) (push (messages asked) upstream))
  behind :
      {c : Stage F H R × List (Message F)} {a b : Actors F H R}
      → Step a b
      → Step (stage c a) (stage c b)

-- so many steps
pub data Steps {F H R : Type 0} ⦃fl : Float F⦄ ⦃h : Hasher⦄ ⦃hist : Histogram F H⦄ ⦃re : Matcher R⦄
    ⦃cg : Cgroups⦄ : ℕ → Actors F H R → Actors F H R → Type 0 where
  here : {a : Actors F H R} → Steps zero a a
  next : {n : ℕ} {a b c : Actors F H R} → Step a b → Steps n b c → Steps (suc n) a c
