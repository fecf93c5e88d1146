-- ===== src/Pipeline/Mailboxes/Sequential.antt =====
-- However the actors of a pipeline take turns, they do what `deliver` does with one message after the
-- other.
use ingraind.Prelude.{
  ℕ, ◌≡◌, refl, ap, sym, ◌∙◌, List, [], ◌∷◌, ◌++◌, append_assoc, append-nil, Run, ok, err, ◌>>=◌,
  All,
}
use mathlib.Core.Path.{fun_ext}
use ingraind.Float.{Float}
use ingraind.Backends.{Message}
use ingraind.Aggregations.Buffer.{Hasher, Histogram}
use ingraind.Aggregations.Container.{Cgroups}
use ingraind.Aggregations.Regex.{Matcher}
use ingraind.Aggregations.Exec as Exec
use ingraind.Pipeline.{
  Stage, Recipient, backend, stage, system_details_stage, buffer_stage, container_stage, exec_stage,
  regex_stage, whitelist_stage,
}
use ingraind.Pipeline.Chain.{chain}
use ingraind.Pipeline.Delivery.{Tick, handle, handle_all, deliver}
use ingraind.Pipeline.Mailboxes.{
  Actors, push, idle, got, IsIdle, IsTimeless, AllTimeless, Step, handled, fired, behind, Steps,
  here, next,
}

bind_pure :
    {A B C : Type 0} (r : Run A) (f : A → B) (g : B → C)
    → ((r >>= λ a. ok (f a)) >>= λ b. ok (g b)) ≡ (r >>= λ a. ok (g (f a)))
bind_pure (ok a) f g = refl
bind_pure (err e) f g = refl

-- the same stage, or a panic
abbrev Stays : {F H R : Type 0} → Stage F H R → Run (Stage F H R × List (Message F)) → Type 0
Stays s (ok (s', sent)) = s' ≡ s
Stays s (err e) = Unit

module _ {F R : Type 0} (H : Type 0) where
  exec-Stays :
      {A : Type 0} (spawned : Run A) (e : Exec.Exec R) (msg : Message F)
      → Stays {H = H}
          (exec_stage e)
          ((spawned >>= λ a. ok (a, msg)) >>= λ (r : A × Message F). ok (exec_stage e, r.1 ∷ []))
  exec-Stays (ok a) e msg = refl
  exec-Stays (err _) e msg = tt

module _ {F H R : Type 0} ⦃fl : Float F⦄ ⦃h : Hasher⦄ ⦃hist : Histogram F H⦄ ⦃re : Matcher R⦄
    ⦃cg : Cgroups⦄ where
  pub handle-IsTimeless :
      (t u : Tick) (s : Stage F H R) (msg : Message F)
      → IsTimeless s
      → handle t s msg ≡ handle u s msg
  unfolding handle
  handle-IsTimeless t u (system_details_stage s) msg h = refl
  handle-IsTimeless t u (buffer_stage b) msg h = absurd h
  handle-IsTimeless t u container_stage msg h = refl
  handle-IsTimeless t u (exec_stage e) msg h = refl
  handle-IsTimeless t u (regex_stage rules) msg h = refl
  handle-IsTimeless t u (whitelist_stage w) msg h = refl

  handle-Stays :
      (t : Tick) (s : Stage F H R) (msg : Message F) → IsTimeless s → Stays s (handle t s msg)
  unfolding handle Exec.handle
  handle-Stays t (system_details_stage s) msg h = refl
  handle-Stays t (buffer_stage b) msg h = absurd h
  handle-Stays t container_stage msg h = refl
  handle-Stays t (exec_stage e) msg h = exec-Stays H _ e msg
  handle-Stays t (regex_stage rules) msg h = refl
  handle-Stays t (whitelist_stage w) msg h = refl

  -- Each stage in turn, from the first on, handles all that waits for it, behind what is sent to it.
  unfoldable pub settle : Tick → List (Message F) → Actors F H R → Run (Actors F H R)
  unfolding handle_all
  settle t extra (backend msgs) = ok (backend (msgs ++ extra))
  settle t extra (stage (s, queue) upstream) =
      handle_all t s (queue ++ extra) >>= λ r. settle t r.1 upstream >>= λ a. ok (stage (r.0, []) a)

  settle-push :
      (t : Tick) (sent extra : List (Message F)) (a : Actors F H R)
      → settle t extra (push sent a) ≡ settle t (sent ++ extra) a
  unfolding settle
  settle-push t sent extra (backend msgs) = ap (λ r. ok (backend r)) (append_assoc msgs sent extra)
  settle-push t sent extra (stage (s, queue) upstream) =
      ap (λ q. handle_all t s q >>= λ r. settle t r.1 upstream >>= λ a. ok (stage (r.0, []) a))
        (append_assoc queue sent extra)

  -- the rest of a stage's messages, behind the first
  settle_rest :
      (t : Tick) (sent : List (Message F)) (upstream : Actors F H R)
      (rest : Run (Stage F H R × List (Message F)))
      → ((rest >>= λ (w : Stage F H R × List (Message F)). ok (w.0, sent ++ w.1))
          >>= λ (r : Stage F H R × List (Message F)).
              settle t r.1 upstream >>= λ a. ok (stage (r.0, []) a))
        ≡ (rest >>= λ r. settle t r.1 (push sent upstream) >>= λ a. ok (stage (r.0, []) a))
  settle_rest t sent upstream (ok (s, msgs)) =
      ap (λ (z : Run (Actors F H R)). z >>= λ a. ok (stage (s, []) a))
        (sym (settle-push t sent msgs upstream))
  settle_rest t sent upstream (err e) = refl

  -- A step changes nothing of what comes out in the end.
  pub settle-Step :
      {a b : Actors F H R} (t : Tick) (extra : List (Message F))
      → AllTimeless a
      → Step a b
      → settle t extra a ≡ settle t extra b
  unfolding settle handle_all
  settle-Step t extra timeless (handled {s} {s'} {msg} {queue} {sent} {upstream} u e) =
      rw (handle-IsTimeless t u s msg timeless.0 ∙ e)
        (settle_rest t sent upstream (handle_all t s' (queue ++ extra)))
  settle-Step t extra timeless (fired u e) = absurd timeless.0
  settle-Step t extra timeless (behind {c = c} {a} {b} step) =
      ap
        (λ (f : List (Message F) → Run (Actors F H R)).
          handle_all t c.0 (c.1 ++ extra) >>= λ r. f r.1 >>= λ z. ok (stage (r.0, []) z))
        (fun_ext (λ e. settle-Step t e timeless.1 step))

  push-AllTimeless :
      (sent : List (Message F)) (a : Actors F H R) → AllTimeless a → AllTimeless (push sent a)
  push-AllTimeless sent (backend msgs) h = tt
  push-AllTimeless sent (stage (s, queue) upstream) h = h

  pub Step-AllTimeless : {a b : Actors F H R} → AllTimeless a → Step a b → AllTimeless b
  Step-AllTimeless timeless (handled {s} {s'} {msg} {queue} {sent} {upstream} u e) =
      let stays : s' ≡ s = rw e at (handle-Stays u s msg timeless.0) in
      (rw stays timeless.0, push-AllTimeless sent upstream timeless.1)
  Step-AllTimeless timeless (fired u e) = absurd timeless.0
  Step-AllTimeless timeless (behind step) = (timeless.0, Step-AllTimeless timeless.1 step)

  pub Steps-AllTimeless : {n : ℕ} {a b : Actors F H R} → AllTimeless a → Steps n a b → AllTimeless b
  Steps-AllTimeless timeless here = timeless
  Steps-AllTimeless timeless (next step steps) =
      Steps-AllTimeless (Step-AllTimeless timeless step) steps

  pub settle-Steps :
      {n : ℕ} {a b : Actors F H R} (t : Tick)
      → AllTimeless a
      → Steps n a b
      → settle t [] a ≡ settle t [] b
  settle-Steps t timeless here = refl
  settle-Steps t timeless (next step steps) =
      settle-Step t [] timeless step ∙ settle-Steps t (Step-AllTimeless timeless step) steps

  settle-IsIdle : (t : Tick) (a : Actors F H R) → IsIdle a → settle t [] a ≡ ok a
  unfolding settle handle_all
  settle-IsIdle t (backend msgs) h = ap (λ r. ok (backend r)) (append-nil msgs)
  settle-IsIdle t (stage (s, queue) upstream) h = rw h.0 (rw (settle-IsIdle t upstream h.1) refl)

  -- what reaches the backend in the end
  abbrev pub received : Run (Actors F H R) → Run (List (Message F))
  received r = r >>= λ a. ok (got a)

  -- the recipient behind a stage that has handled its messages, as `deliver` goes on
  abbrev onward :
      {B : Type 0}
      → Tick
      → Recipient (Stage F H R) B
      → Stage F H R × List (Message F)
      → Run (Recipient (Stage F H R) B × List (Message F))
  onward t upstream w = deliver t upstream w.1 >>= λ q. ok (stage w.0 q.0, q.1)

  settle-deliver-onward :
      {B : Type 0} (t : Tick) (stages : List (Stage F H R)) (b : B)
      → ((msgs : List (Message F))
          → received (settle t msgs (idle stages))
            ≡ (deliver t (chain stages b) msgs >>= λ r. ok r.1))
      → (r : Run (Stage F H R × List (Message F)))
      → received (
          r >>= λ (w : Stage F H R × List (Message F)).
          settle t w.1 (idle stages) >>= λ a. ok (stage (w.0, []) a))
        ≡ ((r >>= onward t (chain stages b)) >>= λ q. ok q.1)
  settle-deliver-onward {B} t stages b later (ok (s, sent)) =
      bind_pure (settle t sent (idle stages)) (λ a. stage (s, []) a) got
      ∙ later sent
      ∙ sym (
          let past : Recipient (Stage F H R) B × List (Message F)
              → Recipient (Stage F H R) B × List (Message F) =
            λ q. (stage s q.0, q.1) in
          bind_pure (deliver t (chain stages b) sent) past (λ q. q.1))
  settle-deliver-onward t stages b later (err e) = refl

  pub settle-deliver :
      {B : Type 0} (t : Tick) (stages : List (Stage F H R)) (b : B) (msgs : List (Message F))
      → received (settle t msgs (idle stages)) ≡ (deliver t (chain stages b) msgs >>= λ r. ok r.1)
  unfolding settle deliver
  settle-deliver t [] b msgs = refl
  settle-deliver t (s ∷ stages) b msgs =
      settle-deliver-onward t stages b (settle-deliver t stages b) (handle_all t s msgs)

  pub idle-AllTimeless :
      (stages : List (Stage F H R)) → All IsTimeless stages → AllTimeless (idle stages)
  idle-AllTimeless [] h = tt
  idle-AllTimeless (s ∷ stages) h = (h.0, idle-AllTimeless stages h.1)

  pub start-AllTimeless :
      (stages : List (Stage F H R)) (msgs : List (Message F))
      → All IsTimeless stages
      → AllTimeless (push msgs (idle stages))
  start-AllTimeless stages msgs h = push-AllTimeless msgs (idle stages) (idle-AllTimeless stages h)

  pub settle-start :
      (t : Tick) (stages : List (Stage F H R)) (msgs : List (Message F))
      → settle t [] (push msgs (idle stages)) ≡ settle t msgs (idle stages)
  settle-start t stages msgs =
      settle-push t msgs [] (idle stages) ∙ ap (λ ms. settle t ms (idle stages)) (append-nil msgs)

  -- However many steps the actors of a pipeline without a buffer take, in whatever order and at whatever
  -- times: once no message waits any more, the backend has got what `deliver` sends to it when the
  -- messages go through the stages one after the other.
  pub Steps-deliver :
      {B : Type 0} {n : ℕ} {a : Actors F H R} (t : Tick) (stages : List (Stage F H R)) (b : B)
      (msgs : List (Message F))
      → All IsTimeless stages
      → Steps n (push msgs (idle stages)) a
      → IsIdle a
      → (deliver t (chain stages b) msgs >>= λ r. ok r.1) ≡ ok (got a)
  Steps-deliver {a = a} t stages b msgs timeless steps quiet =
      sym (settle-deliver t stages b msgs)
      ∙ ap received (
          sym (settle-start t stages msgs)
          ∙ settle-Steps t (start-AllTimeless stages msgs timeless) steps
          ∙ settle-IsIdle t a quiet)
