-- ===== src/Pipeline/Start/Missing.antt =====
-- What becomes of a configuration in which a probe names a pipeline that is not there.
use ingraind.Prelude.{
  Result-cases, Each-Among, Among-try_map_of, Among, inl, inr, err, panic, ℕ, ◌≡◌, refl, Text,
  text_equality, Option, some, List, get_elem?, ok, try_map, FromStr,
}
use ingraind.Prelude.Maps.{Map}
use ingraind.Backends.Http.{HeaderNames}
use ingraind.Backends.Statsd.{Environment}
use ingraind.Aggregations.Regex.{Matcher}
use ingraind.Pipeline.{Stage, Recipient, System, Probe, ProbeActor, Loader, start_probe}
use ingraind.Pipeline.Start.Started.{start_probe-IsWired}
use ingraind.Pipeline.Start.Reached.{Reaches, IsNamed}
use ingraind.Pipeline.Start.{
  BackendActor, Config, Logger, Process, init_logging, start_pipelines, run, main,
}

module _ {U V F H R E : Type 0} (P : Type 0) ⦃names : HeaderNames⦄ ⦃uris : FromStr U⦄
    ⦃values : FromStr V⦄ ⦃sys : System⦄ ⦃env : Environment⦄ ⦃re : Matcher R⦄ ⦃loader : Loader E P⦄
    ⦃addresses : FromStr Text⦄ where
  -- A probe that starts names only pipelines that are configured.
  start_probe-IsNamed :
      (config : Config E) {backends : Map Text (Recipient (Stage F H R) (BackendActor U V))}
      (probe : Probe E) (name : Text)
      (actor : ProbeActor P (Recipient (Stage F H R) (BackendActor U V)))
      → start_pipelines config.pipeline ≡ ok backends
      → start_probe backends probe ≡ ok actor
      → Among name probe.pipelines
      → IsNamed config.pipeline name
  start_probe-IsNamed config probe name actor e started among =
      let (recipients, each, made) = start_probe-IsWired config probe actor e started in
      let (r, reached) =
        Each-Among (Reaches config.pipeline) name probe.pipelines recipients each among in
      (reached.0, reached.3)

  run_missing :
      ⦃process : Process⦄ (config : Config E) (logger : Logger)
      (backends : Map Text (Recipient (Stage F H R) (BackendActor U V))) (probe : Probe E)
      (name : Text)
      → init_logging config.log ≡ ok logger
      → start_pipelines config.pipeline ≡ ok backends
      → Among probe config.probe
      → Among name probe.pipelines
      → ¬ IsNamed config.pipeline name
      → run {U = U} {V = V} {F = F} {H = H} {R = R} {P = P} config ≡ err panic
  unfolding run
  run_missing config logger backends probe name logging e there named missing =
      elim (Result-cases (try_map (start_probe {P = P} backends) config.probe)) [
        | inl (panic, failed) ↦ rw logging (rw e (rw failed refl))
        | inr (actors, started) ↦
            let (actor, among, launched) =
              Among-try_map_of (start_probe {P = P} backends) config.probe probe started there in
            absurd (missing (start_probe-IsNamed config probe name actor e launched named))
      ]

  -- If the configuration is read and its logger and its pipelines start, but a probe names a pipeline that
  -- is not configured, then the program panics before any probe is started.
  pub main_missing :
      ⦃process : Process⦄ (from_slice : List ℕ → Option (Config E)) (file : Text) (content : List ℕ)
      (config : Config E) (logger : Logger)
      (backends : Map Text (Recipient (Stage F H R) (BackendActor U V))) (probe : Probe E)
      (name : Text)
      → get_elem? process.args 1 ≡ some file
      → process.read file ≡ some content
      → from_slice content ≡ some config
      → init_logging config.log ≡ ok logger
      → start_pipelines config.pipeline ≡ ok backends
      → Among probe config.probe
      → Among name probe.pipelines
      → ¬ IsNamed config.pipeline name
      → main {U = U} {V = V} {F = F} {H = H} {R = R} {P = P} from_slice ≡ err panic
  unfolding main
  main_missing from_slice file content config logger backends probe name arg whole parsed logging e
        there named missing =
      rw (arg, whole, parsed)
        (run_missing config logger backends probe name logging e there named missing)
