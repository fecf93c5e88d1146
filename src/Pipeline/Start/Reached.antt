-- ===== src/Pipeline/Start/Reached.antt =====
-- What the names of pipelines stand for once the pipelines are started.
use mathlib.Core.Path.{subst}
use ingraind.Prelude.{
  ◌≡◌, ap, sym, ◌∙◌, Text, text_equality, List, Each, Among, ok, unwrap, try_map, bind_inv,
  unwrap-some, Among-try_map, Among-try_map_of, Each-try_map, Returns, FromStr,
}
use ingraind.Prelude.Maps.{Map, lookup, from_pairs, lookup-from_pairs, found-from_pairs}
use ingraind.Backends.Http.{HeaderNames}
use ingraind.Backends.Statsd.{Environment}
use ingraind.Aggregations.Regex.{Matcher}
use ingraind.Pipeline.{Stage, Recipient, System, Pipeline, launch, start_pipeline, recipients_of}
use ingraind.Pipeline.Chain.{chain, steps_of, start_pipeline_inv}
use ingraind.Pipeline.Start.{
  Backend, BackendActor, into_recipient, launch_pipeline, launch_named, start_pipelines,
}

-- a pipeline of each name is configured
abbrev pub IsNamed : List (Text × Pipeline Backend) → Text → Type 0
IsNamed pipelines name = (pipeline : Pipeline Backend) × Among (name, pipeline) pipelines

module _ {U V F H R : Type 0} ⦃names : HeaderNames⦄ ⦃uris : FromStr U⦄ ⦃values : FromStr V⦄
    ⦃sys : System⦄ ⦃env : Environment⦄ ⦃re : Matcher R⦄ where
  -- the recipient goes through the steps that the pipeline of the name configures, in their order, to
  -- the backend that it configures
  abbrev pub Reaches :
      List (Text × Pipeline Backend) → Text → Recipient (Stage F H R) (BackendActor U V) → Type 0
  Reaches pipelines name recipient =
      (pipeline : Pipeline Backend) × (b : BackendActor U V) × (stages : List (Stage F H R)) × Among
        (name, pipeline) pipelines
      × (into_recipient pipeline.backend ≡ ok b)
      × (try_map launch (steps_of pipeline) ≡ ok stages)
      × (recipient ≡ chain stages b)

  launch_pipeline_inv :
      (pipelines : List (Text × Pipeline Backend)) (name : Text) (pipeline : Pipeline Backend)
      {r : Recipient (Stage F H R) (BackendActor U V)}
      → Among (name, pipeline) pipelines
      → launch_pipeline pipeline ≡ ok r
      → Reaches pipelines name r
  unfolding launch_pipeline
  launch_pipeline_inv pipelines name pipeline among e =
      let (b, first, later) =
        bind_inv (into_recipient pipeline.backend)
          (λ (b : BackendActor U V).
            start_pipeline {F = F} {H = H} {R = R} (record { backend = b; steps = pipeline.steps }))
          e in
      let (stages, launched, same) =
        start_pipeline_inv (record { backend = b; steps = pipeline.steps }) later in
      (pipeline, b, stages, among, first, launched, same)

  start_pipelines_inv :
      (pipelines : List (Text × Pipeline Backend))
      {backends : Map Text (Recipient (Stage F H R) (BackendActor U V))}
      → start_pipelines pipelines ≡ ok backends
      → (pairs : List (Text × Recipient (Stage F H R) (BackendActor U V))) × (try_map launch_named
            pipelines
          ≡ ok pairs)
        × (from_pairs pairs ≡ backends)
  unfolding start_pipelines
  start_pipelines_inv pipelines {backends} e =
      let (pairs, first, made) =
        bind_inv (try_map launch_named pipelines) (λ pairs. ok (from_pairs pairs)) e in
      (pairs, first, cc)

  -- what a name finds among the started pipelines
  found-Reaches :
      (pipelines : List (Text × Pipeline Backend))
      {backends : Map Text (Recipient (Stage F H R) (BackendActor U V))} (name : Text)
      (r : Recipient (Stage F H R) (BackendActor U V))
      → start_pipelines pipelines ≡ ok backends
      → unwrap (lookup name backends) ≡ ok r
      → Reaches pipelines name r
  unfolding launch_named
  found-Reaches pipelines name r e found =
      let (pairs, named, made) = start_pipelines_inv pipelines e in
      let held : Among (name, r) pairs =
        lookup-from_pairs name pairs (ap (lookup name) made ∙ unwrap-some (lookup name _) found) in
      let ((key, pipeline), among, launched) =
        Among-try_map launch_named pipelines (name, r) named held in
      let (z, first, pair) =
        bind_inv (launch_pipeline pipeline)
          (λ (r : Recipient (Stage F H R) (BackendActor U V)). ok (key, r)) launched in
      let same_key : key ≡ name = cc in
      let same : z ≡ r = cc in
      launch_pipeline_inv pipelines name pipeline (rw (sym same_key) among) (first ∙ ap ok same)

  pub recipients-Each :
      (pipelines : List (Text × Pipeline Backend))
      {backends : Map Text (Recipient (Stage F H R) (BackendActor U V))} (wanted : List Text)
      {recipients : List (Recipient (Stage F H R) (BackendActor U V))}
      → start_pipelines pipelines ≡ ok backends
      → recipients_of backends wanted ≡ ok recipients
      → Each (Reaches pipelines) wanted recipients
  unfolding recipients_of
  recipients-Each pipelines {backends} wanted e found =
      Each-try_map (λ name. unwrap (lookup name backends)) (Reaches pipelines)
        (λ name r here. found-Reaches pipelines name r e here) wanted found

  pub lookup-Returns :
      (pipelines : List (Text × Pipeline Backend))
      {backends : Map Text (Recipient (Stage F H R) (BackendActor U V))} (name : Text)
      → start_pipelines pipelines ≡ ok backends
      → IsNamed pipelines name
      → Returns (unwrap (lookup name backends))
  unfolding launch_named
  lookup-Returns pipelines {backends} name e (pipeline, among) =
      let (pairs, named, made) = start_pipelines_inv pipelines e in
      let (pair, there, launched) =
        Among-try_map_of launch_named pipelines (name, pipeline) named among in
      let (z, first, here) =
        bind_inv (launch_pipeline pipeline)
          (λ (r : Recipient (Stage F H R) (BackendActor U V)). ok (name, r)) launched in
      let same : pair ≡ (name, z) = cc in
      let (r, held) = found-from_pairs name pairs (z, subst (λ q. Among q pairs) same there) in
      subst (λ o. Returns (unwrap o)) (sym held ∙ ap (lookup name) made) tt
