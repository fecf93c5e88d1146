-- ===== src/Pipeline/Chain.antt =====
-- The order of the steps of a pipeline, and which configurations start: src/main.rs, 49-81.
use mathlib.Core.List.{reverse-cons}
use ingraind.Prelude.{
  ◌≡◌, refl, ap, sym, ◌∙◌, Text, none, some, List, [], ◌∷◌, ◌++◌, map, reverse, Run, ok, err, panic,
  ◌>>=◌, bind_inv, try_map, try_map_cons, try_map_ok_cons, text_equality, ◌⊎◌, inl, inr, Among, All,
  Option-cases,
}
use ingraind.Prelude.Maps.{Map, lookup}
use ingraind.Aggregations.Regex.{Matcher}
use ingraind.Pipeline.{
  Aggregator, Stage, Recipient, backend, stage, System, launch, into_recipient, add_steps, Pipeline,
  start_pipeline, recipients_of,
}

-- the stages that a message goes through, and the backend behind them
abbrev pub chain : {S B : Type 0} → List S → B → Recipient S B
chain [] b = backend b
chain (s ∷ stages) b = stage s (chain stages b)

abbrev pub steps_of : {B : Type 0} → Pipeline B → List Aggregator
steps_of pipeline = elim pipeline.steps [ none ↦ [] | some steps ↦ steps ]

bind_ok : {A : Type 0} (r : Run A) → (r >>= λ x. ok x) ≡ r
bind_ok (ok x) = refl
bind_ok (err e) = refl

bind_through :
    {A B C : Type 0} (m : Run A) (f : A → Run C) (g : A → Run B) (h : B → Run C)
    → ((a : A) → f a ≡ (g a >>= h))
    → (m >>= f) ≡ ((m >>= g) >>= h)
bind_through (ok a) f g h each = each a
bind_through (err e) f g h each = refl

module _ {F H R B : Type 0} ⦃re : Matcher R⦄ ⦃sys : System⦄ where
  add_steps-append :
      (xs : List Aggregator) (step : Aggregator) (r : Recipient (Stage F H R) B)
      → add_steps (xs ++ step ∷ []) r ≡ (add_steps xs r >>= into_recipient step)
  unfolding add_steps
  add_steps-append [] step r = bind_ok (into_recipient step r)
  add_steps-append (x ∷ xs) step r =
      bind_through (into_recipient x r) (add_steps (xs ++ step ∷ [])) (add_steps xs)
        (into_recipient step) (add_steps-append xs step)

  into_recipient-stage :
      (step : Aggregator) (s : Stage F H R) (r : Recipient (Stage F H R) B)
      → launch step ≡ ok s
      → into_recipient step r ≡ ok (stage s r)
  unfolding into_recipient
  into_recipient-stage step s r e = rw e refl

  into_recipient_inv :
      (step : Aggregator) (r : Recipient (Stage F H R) B) {z : Recipient (Stage F H R) B}
      → into_recipient step r ≡ ok z
      → (s : Stage F H R) × (launch step ≡ ok s) × (stage s r ≡ z)
  unfolding into_recipient
  into_recipient_inv step r {z} e =
      let (s, first, made) = bind_inv (launch step) (λ s. ok (stage s r)) e in (s, first, cc)

  add_steps-reverse :
      (steps : List Aggregator) (stages : List (Stage F H R)) (b : B)
      → try_map launch steps ≡ ok stages
      → add_steps (reverse steps) (backend b) ≡ ok (chain stages b)
  add_steps-reverse [] stages b h =
      let none_left : [] ≡ stages = unfold try_map in cc in
      unfold add_steps in ap (λ t. ok (chain t b)) none_left
  add_steps-reverse (step ∷ steps) stages b h =
      let (s, ss, es, ess, e) = try_map_cons launch step steps h in
      ap (λ t. add_steps t (backend b)) (reverse-cons step steps)
      ∙ add_steps-append (reverse steps) step (backend b)
      ∙ ap (λ r. r >>= into_recipient step) (add_steps-reverse steps ss b ess)
      ∙ into_recipient-stage step s (chain ss b) es
      ∙ ap (λ t. ok (chain t b)) (sym e)

  -- If every step of a pipeline launches, a message that is sent to the pipeline goes through the
  -- stages in the order in which the steps are configured, and then to the backend.
  pub start_pipeline-chain :
      (pipeline : Pipeline B) (stages : List (Stage F H R))
      → try_map launch (steps_of pipeline) ≡ ok stages
      → start_pipeline pipeline ≡ ok (chain stages pipeline.backend)
  unfolding start_pipeline
  start_pipeline-chain pipeline stages h =
      add_steps-reverse (steps_of pipeline) stages pipeline.backend h

  add_steps-reverse_inv :
      (steps : List Aggregator) (b : B) {r : Recipient (Stage F H R) B}
      → add_steps (reverse steps) (backend b) ≡ ok r
      → (stages : List (Stage F H R)) × (try_map launch steps ≡ ok stages) × (r ≡ chain stages b)
  add_steps-reverse_inv [] b {r} e =
      let same : backend b ≡ r = unfold add_steps in cc in ([], unfold try_map in refl, sym same)
  add_steps-reverse_inv (step ∷ steps) b e =
      let (behind, started, here) =
        bind_inv (add_steps (reverse steps) (backend b)) (into_recipient step) (
          sym (
            ap (λ t. add_steps t (backend b)) (reverse-cons step steps)
            ∙ add_steps-append (reverse steps) step (backend b))
          ∙ e) in
      let (stages, launched, chained) = add_steps-reverse_inv steps b started in
      let (s, first, made) = into_recipient_inv step behind here in
      (
        s ∷ stages,
        try_map_ok_cons launch step steps first launched,
        sym made ∙ ap (stage s) chained,
      )

  -- A pipeline that starts is the chain of its launched steps.
  pub start_pipeline_inv :
      (pipeline : Pipeline B) {r : Recipient (Stage F H R) B}
      → start_pipeline pipeline ≡ ok r
      → (stages : List (Stage F H R)) × (try_map launch (steps_of pipeline) ≡ ok stages)
        × (r ≡ chain stages pipeline.backend)
  unfolding start_pipeline
  start_pipeline_inv pipeline e = add_steps-reverse_inv (steps_of pipeline) pipeline.backend e

-- the pipeline of the name is there
abbrev pub Found : {A : Type 0} → Map Text A → Text × A → Type 0
Found backends p = lookup p.0 backends ≡ some p.1

-- A probe gets the recipient of every pipeline that it names, in order, or else one of the names is
-- that of no pipeline, and the start panics.
pub recipients_of_lem :
    {A : Type 0} (backends : Map Text A) (names : List Text)
    → ((found : List (Text × A)) × (map (λ p. p.0) found ≡ names)
        × All (Found backends) found
        × (recipients_of backends names ≡ ok (map (λ p. p.1) found)))
      ⊎ ((name : Text) × Among name names
          × (lookup name backends ≡ none)
          × (recipients_of backends names ≡ err panic))
unfolding recipients_of try_map
recipients_of_lem backends [] = inl ([], refl, tt, refl)
recipients_of_lem backends (name ∷ names) = elim (Option-cases (lookup name backends)) [
  | inl missing ↦ inr (name, inl refl, missing, (rw missing refl))
  | inr (a, there) ↦ elim (recipients_of_lem backends names) [
    | inl (found, same, each, e) ↦
        inl ((name, a) ∷ found, ap (λ t. name ∷ t) same, (there, each), (rw there (rw e refl)))
    | inr (other, among, missing, e) ↦ inr (other, inr among, missing, (rw there (rw e refl)))
  ]
]
