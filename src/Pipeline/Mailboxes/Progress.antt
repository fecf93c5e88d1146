-- ===== src/Pipeline/Mailboxes/Progress.antt =====
-- How many steps the actors of a pipeline take until no message waits.
use mathlib.Core.Path.{fun_ext}
use ingraind.Prelude.{
  ℕ, zero, suc, ◌+◌, ◌<◌, ◌≡◌, refl, ap, sym, ◌∙◌, ◌⊎◌, inl, inr, List, [], ◌∷◌, ◌++◌, append_assoc,
  append-nil, Run, ok, err, ◌>>=◌, bind_inv, All, arith, length,
}
use ingraind.Float.{Float}
use ingraind.Backends.{Message}
use ingraind.Aggregations.Buffer.{Hasher, Histogram}
use ingraind.Aggregations.Container.{Cgroups}
use ingraind.Aggregations.Regex.{Matcher}
use ingraind.Pipeline.{Stage, backend, stage}
use ingraind.Pipeline.Chain.{chain}
use ingraind.Pipeline.Delivery.{Tick, handle, handle_all, deliver}
use ingraind.Pipeline.Mailboxes.{
  Actors, push, idle, got, IsIdle, IsTimeless, AllTimeless, Step, handled, fired, behind, Steps,
  here, next,
}
use ingraind.Pipeline.Mailboxes.Sequential.{
  handle-IsTimeless, settle, settle-Step, settle-deliver, settle-start, settle-Steps,
  Step-AllTimeless, start-AllTimeless,
}

-- a number of what a run returns, nothing after a panic
abbrev counted : {A : Type 0} → (A → ℕ) → Run A → ℕ
counted f (ok a) = f a
counted f (err e) = 0

zero_or_more : (n : ℕ) → (n ≡ 0) ⊎ (0 < n)
zero_or_more zero = inl refl
zero_or_more (suc n) = inr (omega arith)

module _ {F H R : Type 0} ⦃fl : Float F⦄ ⦃h : Hasher⦄ ⦃hist : Histogram F H⦄ ⦃re : Matcher R⦄
    ⦃cg : Cgroups⦄ where
  -- how often the stages are called for messages that go through them one after the other
  unfoldable pub calls : Tick → List (Stage F H R) → List (Message F) → ℕ
  unfolding handle_all
  calls t [] msgs = 0
  calls t (s ∷ stages) msgs = length msgs + counted (λ r. calls t stages r.1) (handle_all t s msgs)

  -- how many are left, with what is still sent to the first one
  work : Tick → List (Message F) → Actors F H R → ℕ
  unfolding handle_all
  work t extra (backend msgs) = 0
  work t extra (stage (s, queue) upstream) =
      length (queue ++ extra) + counted (λ r. work t r.1 upstream) (handle_all t s (queue ++ extra))

  work-push :
      (t : Tick) (sent extra : List (Message F)) (a : Actors F H R)
      → work t extra (push sent a) ≡ work t (sent ++ extra) a
  unfolding work
  work-push t sent extra (backend msgs) = refl
  work-push t sent extra (stage (s, queue) upstream) =
      ap (λ q. length q + counted (λ r. work t r.1 upstream) (handle_all t s q))
        (append_assoc queue sent extra)

  work-idle :
      (t : Tick) (stages : List (Stage F H R)) (msgs : List (Message F))
      → work t msgs (idle stages) ≡ calls t stages msgs
  unfolding work calls
  work-idle t [] msgs = refl
  work-idle t (s ∷ stages) msgs =
      ap (λ (f : List (Message F) → ℕ). length msgs + counted (λ r. f r.1) (handle_all t s msgs))
        (fun_ext (work-idle t stages))

  work_rest :
      (t : Tick) (sent : List (Message F)) (upstream : Actors F H R)
      (rest : Run (Stage F H R × List (Message F)))
      → counted
          (λ (r : Stage F H R × List (Message F)). work t r.1 upstream)
          (rest >>= λ (w : Stage F H R × List (Message F)). ok (w.0, sent ++ w.1))
        ≡ counted (λ r. work t r.1 (push sent upstream)) rest
  work_rest t sent upstream (ok (s, msgs)) = sym (work-push t sent msgs upstream)
  work_rest t sent upstream (err e) = refl

  -- A step is one call, if all the others can be made.
  work-Step :
      {a b z : Actors F H R} (t : Tick) (extra : List (Message F))
      → AllTimeless a
      → settle t extra a ≡ ok z
      → Step a b
      → work t extra a ≡ suc (work t extra b)
  unfolding work handle_all settle
  work-Step t extra timeless e (handled {s} {s'} {msg} {queue} {sent} {upstream} u step) =
      rw (handle-IsTimeless t u s msg timeless.0 ∙ step)
        (omega (arith, work_rest t sent upstream (handle_all t s' (queue ++ extra))))
  work-Step t extra timeless e (fired u f) = absurd timeless.0
  work-Step t extra timeless e (behind {c = c} {a} {b} step) =
      let (r, first, later) =
        bind_inv (handle_all t c.0 (c.1 ++ extra))
          (λ r. settle t r.1 a >>= λ z. ok (stage (r.0, []) z)) e in
      let (z, rest, same) = bind_inv (settle t r.1 a) (λ z. ok (stage (r.0, []) z)) later in
      rw first (omega (arith, work-Step t r.1 timeless.1 rest step))

  work-Steps :
      {n : ℕ} {a b z : Actors F H R} (t : Tick)
      → AllTimeless a
      → settle t [] a ≡ ok z
      → Steps n a b
      → work t [] a ≡ n + work t [] b
  work-Steps t timeless e here = omega arith
  work-Steps t timeless e (next step steps) = omega (
    arith,
    work-Step t [] timeless e step,
    work-Steps t (Step-AllTimeless timeless step) (sym (settle-Step t [] timeless step) ∙ e) steps,
  )

  -- With nothing left to do no message waits.
  work-IsIdle : (t : Tick) (a : Actors F H R) → work t [] a ≡ 0 → IsIdle a
  unfolding work handle_all
  work-IsIdle t (backend msgs) h = tt
  work-IsIdle t (stage (s, []) upstream) h = (refl, work-IsIdle t upstream (omega arith))
  work-IsIdle t (stage (s, msg ∷ queue) upstream) h = absurd (omega arith)

  IsIdle-work : (t : Tick) (a : Actors F H R) → IsIdle a → work t [] a ≡ 0
  unfolding work handle_all
  IsIdle-work t (backend msgs) h = refl
  IsIdle-work t (stage (s, queue) upstream) h = rw h.0 (omega (arith, IsIdle-work t upstream h.1))

  -- If all that waits can be handled in turn, an actor with a message can take it now.
  ready :
      (t : Tick) (a : Actors F H R) {z : Actors F H R}
      → settle t [] a ≡ ok z
      → IsIdle a ⊎ ((b : Actors F H R) × Step a b)
  unfolding settle handle_all
  ready t (backend msgs) e = inl tt
  ready t (stage (s, []) upstream) e =
      let (z, later, same) = bind_inv (settle t [] upstream) (λ a. ok (stage (s, []) a)) e in
      elim (ready t upstream later) [
        | inl quiet ↦ inl (refl, quiet)
        | inr (b, step) ↦ inr (stage (s, []) b, behind step)
      ]
  ready t (stage (s, msg ∷ queue) upstream) e =
      let (r, first, later) =
        bind_inv (handle_all t s (msg ∷ queue ++ []))
          (λ r. settle t r.1 upstream >>= λ a. ok (stage (r.0, []) a)) e in
      let ((s', sent), now, rest) =
        bind_inv (handle t s msg)
          (λ r. handle_all t r.0 (queue ++ []) >>= λ q. ok (q.0, r.1 ++ q.1)) first in
      inr (stage (s', queue) (push sent upstream), handled t now)

  settle_start_ok :
      {B : Type 0} (t : Tick) (stages : List (Stage F H R)) (b : B) (msgs out : List (Message F))
      → (deliver t (chain stages b) msgs >>= λ r. ok r.1) ≡ ok out
      → (z : Actors F H R) × (settle t [] (push msgs (idle stages)) ≡ ok z)
  settle_start_ok t stages b msgs out e =
      let (z, settled, same) =
        bind_inv (settle t msgs (idle stages)) (λ a. ok (got a))
          (settle-deliver t stages b msgs ∙ e) in
      (z, settle-start t stages msgs ∙ settled)

  -- If the messages can go through the stages of a pipeline without a buffer one after the other without
  -- a panic, then the actors, in whatever order and at whatever times they take turns, make exactly
  -- as many steps as that takes calls: after fewer steps some actor can make another one, and after as
  -- many no message waits.
  pub Steps-calls :
      {B : Type 0} {n : ℕ} {a : Actors F H R} (t : Tick) (stages : List (Stage F H R)) (b : B)
      (msgs out : List (Message F))
      → All IsTimeless stages
      → (deliver t (chain stages b) msgs >>= λ r. ok r.1) ≡ ok out
      → Steps n (push msgs (idle stages)) a
      → ((n < calls t stages msgs) × ((b : Actors F H R) × Step a b))
        ⊎ ((n ≡ calls t stages msgs) × IsIdle a)
  Steps-calls {n = n} {a} t stages b msgs out timeless e steps =
      let (z, settled) = settle_start_ok t stages b msgs out e in
      let all = start-AllTimeless stages msgs timeless in
      let count : work t [] (push msgs (idle stages)) ≡ n + work t [] a =
        work-Steps t all settled steps in
      let total : work t [] (push msgs (idle stages)) ≡ calls t stages msgs =
        work-push t msgs [] (idle stages)
        ∙ ap (λ ms. work t ms (idle stages)) (append-nil msgs)
        ∙ work-idle t stages msgs in
      elim (zero_or_more (work t [] a)) [
        | inl done ↦ inr (omega arith, work-IsIdle t a done)
        | inr more ↦ elim (ready t a (sym (settle-Steps t all steps) ∙ settled)) [
          | inl quiet ↦ absurd (omega (arith, IsIdle-work t a quiet))
          | inr step ↦ inl (omega arith, step)
        ]
      ]
