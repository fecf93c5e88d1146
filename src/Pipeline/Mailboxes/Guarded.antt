-- ===== src/Pipeline/Mailboxes/Guarded.antt =====
-- What a whitelist keeps from a backend while the actors of a pipeline take turns and buffers flush.
use ingraind.Prelude.{ℕ, zero, suc, ◌≡◌, refl, List, [], ◌∷◌, ◌++◌, All, All-append, length}
use ingraind.Float.{Float}
use ingraind.Backends.{Message}
use ingraind.Aggregations.Buffer.{Hasher, Histogram}
use ingraind.Aggregations.Container.{Cgroups}
use ingraind.Aggregations.Regex.{Matcher}
use ingraind.Aggregations.Whitelist.{Whitelist}
use ingraind.Pipeline.{Stage, backend, stage, buffer_stage, whitelist_stage}
use ingraind.Pipeline.Delivery.Whitelisted.{Allowed, AddsNone, handle-AddsNone, handle-whitelist}
use ingraind.Pipeline.Mailboxes.{
  Actors, push, idle, got, Step, handled, fired, behind, Steps, here, next,
}

module _ {F H R : Type 0} (w : Whitelist) where
  -- behind the whitelist no stage adds a tag, and what waits and what the backend got has only allowed tags
  abbrev IsClean : Actors F H R → Type 0
  IsClean (backend msgs) = All (Allowed w) msgs
  IsClean (stage (s, queue) upstream) = AddsNone s × All (Allowed w) queue × IsClean upstream

  -- behind so many stages stands the whitelist
  abbrev IsGuarded : ℕ → Actors F H R → Type 0
  IsGuarded n (backend msgs) = ⊥
  IsGuarded zero (stage (s, queue) upstream) = (s ≡ whitelist_stage w) × IsClean upstream
  IsGuarded (suc n) (stage c upstream) = IsGuarded n upstream

  push-IsClean :
      (sent : List (Message F)) (a : Actors F H R)
      → All (Allowed w) sent
      → IsClean a
      → IsClean (push sent a)
  push-IsClean sent (backend msgs) allowed clean = All-append (Allowed w) msgs sent clean allowed
  push-IsClean sent (stage (s, queue) upstream) allowed clean =
      (clean.0, All-append (Allowed w) queue sent clean.1 allowed, clean.2)

  push-IsGuarded :
      (n : ℕ) (sent : List (Message F)) (a : Actors F H R)
      → IsGuarded n a
      → IsGuarded n (push sent a)
  push-IsGuarded n sent (backend msgs) guarded = guarded
  push-IsGuarded zero sent (stage (s, queue) upstream) guarded = guarded
  push-IsGuarded (suc n) sent (stage (s, queue) upstream) guarded = guarded

  idle-IsClean : (after : List (Stage F H R)) → All AddsNone after → IsClean (idle after)
  idle-IsClean [] adds = tt
  idle-IsClean (s ∷ after) adds = (adds.0, tt, idle-IsClean after adds.1)

  idle-IsGuarded :
      (before after : List (Stage F H R))
      → All AddsNone after
      → IsGuarded (length before) (idle (before ++ whitelist_stage w ∷ after))
  idle-IsGuarded [] after adds = (refl, idle-IsClean after adds)
  idle-IsGuarded (s ∷ before) after adds = idle-IsGuarded before after adds

  got-IsClean : (a : Actors F H R) → IsClean a → All (Allowed w) (got a)
  got-IsClean (backend msgs) clean = clean
  got-IsClean (stage c upstream) clean = got-IsClean upstream clean.2

  got-IsGuarded : (n : ℕ) (a : Actors F H R) → IsGuarded n a → All (Allowed w) (got a)
  got-IsGuarded n (backend msgs) guarded = absurd guarded
  got-IsGuarded zero (stage (s, queue) upstream) guarded = got-IsClean upstream guarded.1
  got-IsGuarded (suc n) (stage c upstream) guarded = got-IsGuarded n upstream guarded

module _ {F H R : Type 0} ⦃fl : Float F⦄ ⦃h : Hasher⦄ ⦃hist : Histogram F H⦄ ⦃re : Matcher R⦄
    ⦃cg : Cgroups⦄ (w : Whitelist) where
  Step-IsClean : {a b : Actors F H R} → IsClean w a → Step a b → IsClean w b
  Step-IsClean clean (handled {s} {s'} {msg} {queue} {sent} {upstream} t e) =
      let sends : AddsNone s' × All (Allowed w) sent =
        rw e at (handle-AddsNone w t s msg clean.0 clean.1.0) in
      (sends.0, clean.1.1, push-IsClean w sent upstream sends.1 clean.2)
  Step-IsClean clean (fired t e) = absurd clean.0
  Step-IsClean clean (behind step) = (clean.0, clean.1, Step-IsClean clean.2 step)

  -- The whitelist stays where it is, whatever the stages before it do.
  Step-IsGuarded : (n : ℕ) {a b : Actors F H R} → IsGuarded w n a → Step a b → IsGuarded w n b
  Step-IsGuarded zero guarded (handled {s} {s'} {msg} {queue} {sent} {upstream} t e) =
      let sends : (s' ≡ whitelist_stage w) × All (Allowed w) sent =
        rw e at (handle-whitelist w t s msg guarded.0 tt) in
      (sends.0, push-IsClean w sent upstream sends.1 guarded.1)
  Step-IsGuarded zero guarded (fired {b} t e) =
      let other : buffer_stage b ≡ whitelist_stage w = guarded.0 in absurd cc
  Step-IsGuarded zero guarded (behind step) = (guarded.0, Step-IsClean guarded.1 step)
  Step-IsGuarded (suc n) guarded (handled {sent = sent} {upstream} t e) =
      push-IsGuarded w n sent upstream guarded
  Step-IsGuarded (suc n) guarded (fired {upstream = upstream} t e) =
      push-IsGuarded w n _ upstream guarded
  Step-IsGuarded (suc n) guarded (behind step) = Step-IsGuarded n guarded step

  Steps-IsGuarded :
      (n : ℕ) {k : ℕ} {a b : Actors F H R} → IsGuarded w n a → Steps k a b → IsGuarded w n b
  Steps-IsGuarded n guarded here = guarded
  Steps-IsGuarded n guarded (next step steps) =
      Steps-IsGuarded n (Step-IsGuarded n guarded step) steps

  -- Whatever the stages before a whitelist do, buffers among them, whatever messages come, and in
  -- whatever order the actors take turns and the buffers flush: every tag that has reached the backend
  -- has a key of the whitelist, if the stages behind it are those that add no tag: whitelists, regular
  -- expressions and commands.
  pub Steps-Allowed :
      (before after : List (Stage F H R)) (msgs : List (Message F)) {k : ℕ} {a : Actors F H R}
      → All AddsNone after
      → Steps k (push msgs (idle (before ++ whitelist_stage w ∷ after))) a
      → All (Allowed w) (got a)
  Steps-Allowed before after msgs {k} {a} adds steps = got-IsGuarded w (length before) a (
      Steps-IsGuarded (length before)
        (push-IsGuarded w (length before) msgs (idle (before ++ whitelist_stage w ∷ after))
          (idle-IsGuarded w before after adds))
        steps)
