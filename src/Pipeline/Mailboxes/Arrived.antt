-- ===== src/Pipeline/Mailboxes/Arrived.antt =====
-- What has reached the backend when the stages of src/aggregations have handled all messages.
use mathlib.Core.Path.{fun_ext, subst}
use ingraind.Prelude.{
  ◌≡◌, refl, ap, sym, ◌∙◌, chars, List, [], ◌∷◌, ◌++◌, Run, ok, err, ◌>>=◌, bind_inv, Each-then,
  Each-append, Each-refl, text_equality, All, Each,
}
use ingraind.Float.{Float}
use ingraind.Backends.{Message}
use ingraind.Metrics.TagList.{get, or_else}
use ingraind.Aggregations.Buffer.{Hasher, Histogram}
use ingraind.Aggregations.Container as Container
use ingraind.Aggregations.Container.{Cgroups, docker_id, get_docker_container_id}
use ingraind.Aggregations.Exec as Exec
use ingraind.Aggregations.Regex as Regex
use ingraind.Aggregations.Regex.{Matcher, rewritten}
use ingraind.Aggregations.SystemDetails as SystemDetails
use ingraind.Aggregations.Whitelist as Whitelist
use ingraind.Aggregations.Whitelist.{contains}
use ingraind.Pipeline.{
  Stage, Recipient, stage, system_details_stage, buffer_stage, container_stage, exec_stage,
  regex_stage, whitelist_stage,
}
use ingraind.Pipeline.Chain.{chain}
use ingraind.Pipeline.Delivery.{Tick, handle, handle_all, deliver}
use ingraind.Pipeline.Mailboxes.{IsTimeless}
use ingraind.Pipeline.Mailboxes.Described.{
  under, described, described_all, Arrives, for_each-Arrives, Arrives-same, Arrives-then,
  docker_id-id_of,
}

module _ {F R : Type 0} ⦃re : Matcher R⦄ ⦃cg : Cgroups⦄ (H : Type 0) where
  -- one message, which the stage makes of the one that it handles
  abbrev Sends : Stage F H R → Message F → Run (Stage F H R × List (Message F)) → Type 0
  Sends s msg (ok (s', out ∷ [])) = (s' ≡ s) × Arrives (described s) msg out
  Sends s msg (ok (s', sent)) = ⊥
  Sends s msg (err e) = Unit

  exec-Sends :
      {A : Type 0} (spawned : Run A) (e : Exec.Exec R) (msg : Message F)
      → Sends
          (exec_stage e)
          msg
          ((spawned >>= λ a. ok (a, msg)) >>= λ (r : A × Message F). ok (exec_stage e, r.1 ∷ []))
  exec-Sends (ok a) e msg = (refl, Arrives-same msg)
  exec-Sends (err _) e msg = tt

module _ {F H R : Type 0} ⦃fl : Float F⦄ ⦃h : Hasher⦄ ⦃hist : Histogram F H⦄ ⦃re : Matcher R⦄
    ⦃cg : Cgroups⦄ where
  handle-Sends :
      (t : Tick) (s : Stage F H R) (msg : Message F) → IsTimeless s → Sends H s msg (handle t s msg)
  unfolding handle Exec.handle SystemDetails.handle SystemDetails.add_tags Container.handle
      Container.add_tags Regex.handle Regex.filter_tags Whitelist.handle Whitelist.filter_tags
  handle-Sends t (system_details_stage s) msg timeless = (
    refl,
    for_each-Arrives (described {F = F} {H = H} {R = R} (system_details_stage s))
        (SystemDetails.add_tags s.host s.kernel)
        (λ m. (fun_ext (λ k. SystemDetails.get-add_tags s k m), refl)) msg,
  )
  handle-Sends t (buffer_stage b) msg timeless = absurd timeless
  handle-Sends t container_stage msg timeless = (
    refl,
    for_each-Arrives (described {F = F} {H = H} {R = R} container_stage) Container.add_tags
        (λ m. (
          fun_ext (λ k.
              Container.get-add_tags k m
              ∙ ap (λ o. or_else (get k m.tags) (under (chars "docker_id") o k))
                  (docker_id-id_of m.tags)),
          refl,
        ))
        msg,
  )
  handle-Sends t (exec_stage e) msg timeless = exec-Sends H _ e msg
  handle-Sends t (regex_stage rules) msg timeless = (
    refl,
    for_each-Arrives (described {F = F} {H = H} (regex_stage rules)) (Regex.filter_tags rules)
        (λ m. (fun_ext (λ k. Regex.get-filter_tags rules k m), refl)) msg,
  )
  handle-Sends t (whitelist_stage w) msg timeless = (
    refl,
    for_each-Arrives (described {F = F} {H = H} {R = R} (whitelist_stage w))
        (Whitelist.filter_tags w)
        (λ m. (fun_ext (λ k. Whitelist.get-retain w.allowed k m.tags), refl)) msg,
  )

  handle-inv :
      (t : Tick) (s s' : Stage F H R) (msg : Message F) (sent : List (Message F))
      → IsTimeless s
      → handle t s msg ≡ ok (s', sent)
      → (s' ≡ s) × Each (Arrives (described s)) (msg ∷ []) sent
  handle-inv t s s' msg sent timeless e = one sent (rw e at (handle-Sends t s msg timeless))
    where
      one :
          (sent : List (Message F))
          → Sends H s msg (ok (s', sent))
          → (s' ≡ s) × Each (Arrives (described s)) (msg ∷ []) sent
      one [] sends = absurd sends
      one (out ∷ []) sends = (sends.0, (sends.1, tt))
      one (out ∷ more ∷ sent) sends = absurd sends

  pub handle_all-Arrives :
      (t : Tick) (s s' : Stage F H R) (msgs sent : List (Message F))
      → IsTimeless s
      → handle_all t s msgs ≡ ok (s', sent)
      → (s' ≡ s) × Each (Arrives (described s)) msgs sent
  unfolding handle_all
  handle_all-Arrives t s s' [] sent timeless e =
      let none_left : [] ≡ sent = cc in (cc, subst (Each (Arrives (described s)) []) none_left tt)
  handle_all-Arrives t s s' (msg ∷ msgs) sent timeless e =
      let ((s₁, first), now, later) =
        bind_inv (handle t s msg) (λ r. handle_all t r.0 msgs >>= λ q. ok (q.0, r.1 ++ q.1)) e in
      let ((s₂, rest), afterwards, same) =
        bind_inv (handle_all t s₁ msgs) (λ q. ok (q.0, first ++ q.1)) later in
      let (stays, head) = handle-inv t s s₁ msg first timeless now in
      let (still, tail) =
        handle_all-Arrives t s s₂ msgs rest timeless
          (ap (λ r. handle_all t r msgs) (sym stays) ∙ afterwards) in
      let out : first ++ rest ≡ sent = cc in
      let last : s₂ ≡ s' = cc in
      (
        sym last ∙ still,
        subst (Each (Arrives (described s)) (msg ∷ msgs)) out
            (Each-append (Arrives (described s)) (msg ∷ []) first msgs rest head tail),
      )

  pub deliver-Arrives :
      {B : Type 0} (t : Tick) (stages : List (Stage F H R)) (b : B) (msgs : List (Message F))
      {r : Recipient (Stage F H R) B × List (Message F)}
      → All IsTimeless stages
      → deliver t (chain stages b) msgs ≡ ok r
      → Each (Arrives (described_all stages)) msgs r.1
  unfolding deliver
  deliver-Arrives t [] b msgs {r} timeless e =
      let out : msgs ≡ r.1 = cc in
      subst (Each (Arrives (described_all {F = F} {H = H} {R = R} [])) msgs) out
        (Each-refl (Arrives (λ f. f)) Arrives-same msgs)
  deliver-Arrives t (s ∷ stages) b msgs {r} timeless e =
      let ((s', sent), now, later) =
        bind_inv (handle_all t s msgs)
          (λ w. deliver t (chain stages b) w.1 >>= λ q. ok (stage w.0 q.0, q.1)) e in
      let (q, next, same) =
        bind_inv (deliver t (chain stages b) sent) (λ q. ok (stage s' q.0, q.1)) later in
      let out : q.1 ≡ r.1 = cc in
      subst (Each (Arrives (described_all (s ∷ stages))) msgs) out (
        Each-then (Arrives (described s)) (Arrives (described_all stages))
          (Arrives (described_all (s ∷ stages))) (Arrives-then (described s) (described_all stages))
          msgs sent q.1 (handle_all-Arrives t s s' msgs sent timeless.0 now).1
          (deliver-Arrives t stages b sent timeless.1 next))
