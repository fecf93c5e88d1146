-- ===== src/Pipeline/Delivery/Whitelisted.antt =====
-- What a whitelist of src/aggregations/whitelist.rs keeps from a backend, wherever it stands in the
-- pipeline that src/main.rs builds.
use ingraind.Prelude.{
  ◌≡◌, refl, true, List, [], ◌∷◌, ◌++◌, map, Run, ok, err, ◌>>=◌, All, All-retain, All-retain_self,
  All-append, All-weaken, All-intro,
}
use ingraind.Float.{Float}
use ingraind.Backends.{Message, single, list, measurements, for_each}
use ingraind.Metrics.{Measurement}
use ingraind.Metrics.TagList.{Tags}
use ingraind.Aggregations.Buffer.{Hasher, Histogram}
use ingraind.Aggregations.Container.{Cgroups}
use ingraind.Aggregations.Exec as Exec
use ingraind.Aggregations.Regex as Regex
use ingraind.Aggregations.Regex.{Matcher}
use ingraind.Aggregations.Whitelist as Whitelist
use ingraind.Aggregations.Whitelist.{Whitelist, contains}
use ingraind.Pipeline.{
  Stage, Recipient, stage, system_details_stage, buffer_stage, container_stage, exec_stage,
  regex_stage, whitelist_stage,
}
use ingraind.Pipeline.Chain.{chain}
use ingraind.Pipeline.Delivery.{Tick, handle, handle_all, deliver}

-- every tag has a key of the whitelist
abbrev pub Allowed : {F : Type 0} → Whitelist → Message F → Type 0
Allowed w msg = All (λ m. All (λ tag. contains w.allowed tag.0 ≡ true) m.tags) (measurements msg)

module _ {F : Type 0} where
  All-map :
      (P Q : Measurement F → Type 0) (f : Measurement F → Measurement F)
      → ((m : Measurement F) → P m → Q (f m))
      → (ms : List (Measurement F)) → All P ms
      → All Q (map f ms)
  All-map P Q f each [] h = tt
  All-map P Q f each (m ∷ ms) h = (each m h.0, All-map P Q f each ms h.1)

  All-for_each :
      (P Q : Measurement F → Type 0) (f : Measurement F → Measurement F)
      → ((m : Measurement F) → P m → Q (f m))
      → (msg : Message F) → All P (measurements msg)
      → All Q (measurements (for_each f msg))
  All-for_each P Q f each (single m) h = (each m h.0, tt)
  All-for_each P Q f each (list ms) h = All-map P Q f each ms h

  whitelist-Allowed : (w : Whitelist) (msg : Message F) → Allowed w (Whitelist.handle w msg)
  unfolding Whitelist.handle Whitelist.filter_tags
  whitelist-Allowed w msg =
      All-for_each (λ _. Unit {0}) _ (Whitelist.filter_tags w)
        (λ m _.
          All-weaken (λ tag. Unit {0} × (contains w.allowed tag.0 ≡ true))
            (λ tag. contains w.allowed tag.0 ≡ true) (λ _ e. e.1) _
            (All-retain_self (λ _. Unit {0}) (λ tag. contains w.allowed tag.0) m.tags
              (All-intro (λ _. Unit {0}) (λ _. tt) m.tags)))
        msg (All-intro (λ _. Unit {0}) (λ _. tt) (measurements msg))

  rewhitelist-Allowed :
      (w v : Whitelist) (msg : Message F) → Allowed w msg → Allowed w (Whitelist.handle v msg)
  unfolding Whitelist.handle Whitelist.filter_tags
  rewhitelist-Allowed w v msg h =
      All-for_each _ _ (Whitelist.filter_tags v)
        (λ m e.
          All-retain (λ tag. contains w.allowed tag.0 ≡ true) (λ tag. contains v.allowed tag.0)
            m.tags e)
        msg h

module _ {R : Type 0} ⦃re : Matcher R⦄ where
  All-filter_tag :
      (w : Whitelist) (rules : Regex.Rules R) (tags : Tags)
      → All (λ tag. contains w.allowed tag.0 ≡ true) tags
      → All (λ tag. contains w.allowed tag.0 ≡ true) (map (Regex.filter_tag rules) tags)
  unfolding Regex.filter_tag
  All-filter_tag w rules [] h = tt
  All-filter_tag w rules ((k, v) ∷ tags) h = (h.0, All-filter_tag w rules tags h.1)

module _ {F R : Type 0} ⦃re : Matcher R⦄ where
  regex-Allowed :
      (w : Whitelist) (rules : Regex.Rules R) (msg : Message F)
      → Allowed w msg
      → Allowed w (Regex.handle rules msg)
  unfolding Regex.handle Regex.filter_tags
  regex-Allowed w rules msg h =
      All-for_each _ _ (Regex.filter_tags rules) (λ m e. All-filter_tag w rules m.tags e) msg h

-- a stage that adds no tag
abbrev pub AddsNone : {F H R : Type 0} → Stage F H R → Type 0
AddsNone (system_details_stage s) = ⊥
AddsNone (buffer_stage b) = ⊥
AddsNone container_stage = ⊥
AddsNone (exec_stage e) = Unit
AddsNone (regex_stage rules) = Unit
AddsNone (whitelist_stage w) = Unit

-- if a stage does not panic, it stays one of a kind, and what it sends has a property
abbrev pub Sends :
    {F H R : Type 0}
    → (Stage F H R → Type 0)
    → (Message F → Type 0)
    → Run (Stage F H R × List (Message F))
    → Type 0
Sends Q P (ok (s, msgs)) = Q s × All P msgs
Sends Q P (err e) = Unit

module _ {F H R : Type 0} (Q : Stage F H R → Type 0) (P : Message F → Type 0) where
  Sends-exec :
      {A : Type 0} (spawned : Run A) (e : Exec.Exec R) (msg : Message F)
      → Q (exec_stage e)
      → P msg
      → Sends Q P
          ((spawned >>= λ a. ok (a, msg)) >>= λ (r : A × Message F). ok (exec_stage e, r.1 ∷ []))
  Sends-exec (ok a) e msg q p = (q, (p, tt))
  Sends-exec (err _) e msg q p = tt

  -- the messages of a stage, and those of the stage behind them
  Sends-both :
      (first : Run (Stage F H R × List (Message F)))
      (rest : Stage F H R → Run (Stage F H R × List (Message F)))
      → Sends Q P first
      → ((s : Stage F H R) → Q s → Sends Q P (rest s))
      → Sends Q P (first >>= λ r. rest r.0 >>= λ q. ok (q.0, r.1 ++ q.1))
  Sends-both (err _) rest f g = tt
  Sends-both (ok (s, msgs)) rest f g = later (rest s) (g s f.0)
    where
      later :
          (r : Run (Stage F H R × List (Message F)))
          → Sends Q P r
          → Sends Q P (r >>= λ q. ok (q.0, msgs ++ q.1))
      later (err _) g' = tt
      later (ok (s', msgs')) g' = (g'.0, All-append P msgs msgs' f.1 g'.1)

module _ {F H R : Type 0} ⦃fl : Float F⦄ ⦃h : Hasher⦄ ⦃hist : Histogram F H⦄ ⦃re : Matcher R⦄
    ⦃cg : Cgroups⦄ where
  pub handle-AddsNone :
      (w : Whitelist) (t : Tick) (s : Stage F H R) (msg : Message F)
      → AddsNone s
      → Allowed w msg
      → Sends AddsNone (Allowed w) (handle t s msg)
  unfolding handle Exec.handle
  handle-AddsNone w t (exec_stage e) msg a p = Sends-exec AddsNone (Allowed w) _ e msg tt p
  handle-AddsNone w t (regex_stage rules) msg a p = (tt, (regex-Allowed w rules msg p, tt))
  handle-AddsNone w t (whitelist_stage v) msg a p = (tt, (rewhitelist-Allowed w v msg p, tt))
  handle-AddsNone w t (system_details_stage s) msg a p = absurd a
  handle-AddsNone w t (buffer_stage b) msg a p = absurd a
  handle-AddsNone w t container_stage msg a p = absurd a

  handle_all-Sends :
      (Q : Stage F H R → Type 0) (P P' : Message F → Type 0) (t : Tick)
      → ((s : Stage F H R) (msg : Message F) → Q s → P msg → Sends Q P' (handle t s msg))
      → (s : Stage F H R) (msgs : List (Message F)) → Q s
      → All P msgs
      → Sends Q P' (handle_all t s msgs)
  unfolding handle_all
  handle_all-Sends Q P P' t each s [] q h = (q, tt)
  handle_all-Sends Q P P' t each s (msg ∷ msgs) q h =
      Sends-both Q P' (handle t s msg) (λ s'. handle_all t s' msgs) (each s msg q h.0)
        (λ s' q'. handle_all-Sends Q P P' t each s' msgs q' h.1)

  pub handle-whitelist :
      (w : Whitelist) (t : Tick) (s : Stage F H R) (msg : Message F)
      → s ≡ whitelist_stage w
      → Unit {0}
      → Sends (λ s'. s' ≡ whitelist_stage w) (Allowed w) (handle t s msg)
  unfolding handle
  handle-whitelist w t s msg same u = rw same (refl, (whitelist-Allowed w msg, tt))

-- if no stage panics, what reaches the backend has a property
abbrev Reaches :
    {F S B : Type 0} → (Message F → Type 0) → Run (Recipient S B × List (Message F)) → Type 0
Reaches P (ok (r, msgs)) = All P msgs
Reaches P (err e) = Unit

module _ {F H R : Type 0} where
  any-Sends : (r : Run (Stage F H R × List (Message F))) → Sends (λ _. Unit {0}) (λ _. Unit {0}) r
  any-Sends (ok (s, msgs)) = (tt, All-intro (λ _. Unit {0}) (λ _. tt) msgs)
  any-Sends (err _) = tt

module _ {F H R B : Type 0} (Q : Stage F H R → Type 0) (P P' : Message F → Type 0) where
  Reaches-stage :
      (handled : Run (Stage F H R × List (Message F)))
      (next : List (Message F) → Run (Recipient (Stage F H R) B × List (Message F)))
      → Sends Q P handled
      → ((msgs : List (Message F)) → All P msgs → Reaches P' (next msgs))
      → Reaches P' (handled >>= λ r. next r.1 >>= λ q. ok (stage r.0 q.0, q.1))
  Reaches-stage (err _) next h f = tt
  Reaches-stage (ok (s, msgs)) next h f = later (next msgs) (f msgs h.1)
    where
      later :
          (r : Run (Recipient (Stage F H R) B × List (Message F)))
          → Reaches P' r
          → Reaches P' (r >>= λ q. ok (stage s q.0, q.1))
      later (err _) g = tt
      later (ok (upstream, out)) g = g

module _ {F H R B : Type 0} ⦃fl : Float F⦄ ⦃h : Hasher⦄ ⦃hist : Histogram F H⦄ ⦃re : Matcher R⦄
    ⦃cg : Cgroups⦄ where
  deliver-AddsNone :
      (w : Whitelist) (t : Tick) (after : List (Stage F H R)) (b : B) (msgs : List (Message F))
      → All AddsNone after
      → All (Allowed w) msgs
      → Reaches (Allowed w) (deliver t (chain after b) msgs)
  unfolding deliver
  deliver-AddsNone w t [] b msgs a h = h
  deliver-AddsNone w t (s ∷ after) b msgs a h =
      Reaches-stage AddsNone (Allowed w) (Allowed w) (handle_all t s msgs)
        (deliver t (chain after b))
        (handle_all-Sends AddsNone (Allowed w) (Allowed w) t (handle-AddsNone w t) s msgs a.0 h)
        (λ ms. deliver-AddsNone w t after b ms a.1)

  deliver-whitelist :
      (w : Whitelist) (t : Tick) (before after : List (Stage F H R)) (b : B)
      (msgs : List (Message F))
      → All AddsNone after
      → Reaches (Allowed w) (deliver t (chain (before ++ whitelist_stage w ∷ after) b) msgs)
  unfolding deliver
  deliver-whitelist w t [] after b msgs a =
      Reaches-stage (λ s. s ≡ whitelist_stage w) (Allowed w) (Allowed w)
        (handle_all t (whitelist_stage w) msgs) (deliver t (chain after b))
        (handle_all-Sends (λ s. s ≡ whitelist_stage w) (λ _. Unit {0}) (Allowed w) t
          (handle-whitelist w t) (whitelist_stage w) msgs refl
          (All-intro (λ _. Unit {0}) (λ _. tt) msgs))
        (λ ms. deliver-AddsNone w t after b ms a)
  deliver-whitelist w t (s ∷ before) after b msgs a =
      Reaches-stage (λ _. Unit {0}) (λ _. Unit {0}) (Allowed w) (handle_all t s msgs)
        (deliver t (chain (before ++ whitelist_stage w ∷ after) b))
        (any-Sends (handle_all t s msgs)) (λ ms _. deliver-whitelist w t before after b ms a)

  -- Whatever the stages before a whitelist do, and whatever messages come, if no stage panics, every tag that reaches the
  -- backend has a key of the whitelist, if the stages behind it are those that add no tag: whitelists,
  -- regular expressions and commands.
  pub deliver-Allowed :
      (w : Whitelist) (t : Tick) (before after : List (Stage F H R)) (b : B)
      (msgs out : List (Message F)) (r : Recipient (Stage F H R) B)
      → All AddsNone after
      → deliver t (chain (before ++ whitelist_stage w ∷ after) b) msgs ≡ ok (r, out)
      → All (Allowed w) out
  deliver-Allowed w t before after b msgs out r a e =
      rw e at (deliver-whitelist w t before after b msgs a)
