-- ===== src/Pipeline/Start/Started.antt =====
-- What runs behind the start of the program.
use mathlib.Core.Path.{subst}
use ingraind.Prelude.{
  Result, err, panic, All-weaken, ℕ, ◌≡◌, refl, Text, text_equality, Option, some, List, [], ◌∷◌,
  map, All, Each, get_elem?, Run, ok, ◌>>=◌, unwrap, try_map, bind_inv, Each-map, Each-try_map,
  Returns, Returns-bind, Returns-try_map, Returns-ok, Result-cases, Option-cases, inl, inr, FromStr,
}
use ingraind.Prelude.Maps.{Map, lookup}
use ingraind.Backends.Http.{HeaderNames}
use ingraind.Backends.Statsd.{Environment}
use ingraind.Aggregations.Regex.{Matcher}
use ingraind.Pipeline.{
  Stage, Recipient, System, recipients_of, into_probe_actor, Probe, ProbeActor, ebpf_actor,
  stats_d_actor, osquery_actor, test_actor, Grain, Loader, start_probe,
}
use ingraind.Grains.Osquery as Osquery
use ingraind.Grains.Statsd.Served as Served
use ingraind.Pipeline.Start.Reached.{Reaches, IsNamed, recipients-Each, lookup-Returns}
use ingraind.Pipeline.Start.{
  BackendActor, Config, Arbiter, system, io, start, Logger, Process, init_logging, start_pipelines,
  Running, run, main,
}

-- two results of steps that differ in what is done with them
module _ {A B C : Type 0} where
  Returns-either :
      (r : Run A) (f : A → B) (g : A → C)
      → Returns (r >>= λ a. ok (f a))
      → Returns (r >>= λ a. ok (g a))
  Returns-either (ok a) f g h = tt
  Returns-either (err e) f g h = absurd h

  Returns-accepted :
      {S : Type 0} (r : Result S A) (f : A → B) (g : A → C)
      → Returns (elim r [ ok a ↦ let z : Run B = ok (f a) in z | err stop ↦ err panic ])
      → Returns (elim r [ ok a ↦ let z : Run C = ok (g a) in z | err stop ↦ err panic ])
  Returns-accepted (ok a) f g h = tt
  Returns-accepted (err stop) f g h = absurd h

Returns-either_twice :
    {A B C D E : Type 0} (r : Run A) (f : A → B) (f' : B → C) (g : A → D) (g' : D → E)
    → Returns ((r >>= λ a. ok (f a)) >>= λ b. ok (f' b))
    → Returns ((r >>= λ a. ok (g a)) >>= λ d. ok (g' d))
Returns-either_twice (ok a) f f' g g' h = tt
Returns-either_twice (err e) f f' g g' h = absurd h

module _ {E : Type 0} (P : Type 0) ⦃loader : Loader E P⦄ ⦃addresses : FromStr Text⦄ where
  -- the grain of the probe starts
  abbrev pub CanStart : Probe E → Type 0
  CanStart probe = Returns (into_probe_actor {E = E} {P = P} {A = Unit} probe.grain [])

  -- To whom a grain sends makes no difference to whether it starts.
  into_probe_actor-Returns :
      {A : Type 0} (grain : Grain E) (recipients : List A)
      → Returns (into_probe_actor {E = E} {P = P} {A = Unit} grain [])
      → Returns (into_probe_actor {E = E} {P = P} grain recipients)
  unfolding into_probe_actor Served.with_config
  into_probe_actor-Returns (Grain.stats_d config) recipients h =
      Returns-either_twice (unwrap (addresses.from_str config.bind_address)) _ _ _ _ h
  into_probe_actor-Returns (Grain.osquery config) recipients h =
      Returns-accepted (Osquery.with_config config) _ _ h
  into_probe_actor-Returns (Grain.test config) recipients h = tt
  into_probe_actor-Returns (Grain.ebpf config) recipients h =
      Returns-either (unwrap (loader.load config)) _ _ h

-- The actor of a grain on its arbiter: that of osquery on the one of `main`, with the accepted
-- configuration, any other on `io`, with the address, the program or the configuration of the grain; and
-- the actor sends to the recipients that it is given.
module _ {E P A : Type 0} ⦃loader : Loader E P⦄ ⦃addresses : FromStr Text⦄ where
  abbrev pub IsActorOf : Grain E → List A → Arbiter × ProbeActor P A → Type 0
  IsActorOf (Grain.ebpf config) recipients (arbiter, ebpf_actor probe sent) =
      (arbiter ≡ io) × (loader.load config ≡ some probe) × (sent ≡ recipients)
  IsActorOf (Grain.stats_d config) recipients (arbiter, stats_d_actor a) =
      (arbiter ≡ io)
      × (addresses.from_str config.bind_address ≡ some a.bind_address)
      × (a.recipients ≡ recipients)
  IsActorOf (Grain.osquery config) recipients (arbiter, osquery_actor conf sent) =
      (arbiter ≡ system) × (Osquery.with_config config ≡ ok conf) × (sent ≡ recipients)
  IsActorOf (Grain.test config) recipients (arbiter, test_actor conf sent) =
      (arbiter ≡ io) × (conf ≡ config) × (sent ≡ recipients)
  IsActorOf _ _ _ = ⊥

  start-IsActorOf :
      (grain : Grain E) (recipients : List A) (actor : ProbeActor P A)
      → into_probe_actor grain recipients ≡ ok actor
      → IsActorOf grain recipients (start actor)
  unfolding into_probe_actor Served.with_config Served.new start
  start-IsActorOf (Grain.ebpf config) recipients actor e =
      elim (Option-cases (loader.load config)) [
        | inl missing ↦ absurd (let failed : err panic ≡ ok actor = rw missing at e in cc)
        | inr (probe, loaded) ↦
            let made : ok (ebpf_actor probe recipients) ≡ ok actor = rw loaded at e in
            let same : ebpf_actor probe recipients ≡ actor = cc in
            subst (λ a. IsActorOf (Grain.ebpf config) recipients (start a)) same
              (refl, loaded, refl)
      ]
  start-IsActorOf (Grain.stats_d config) recipients actor e =
      elim (Option-cases (addresses.from_str config.bind_address)) [
        | inl missing ↦ absurd (let failed : err panic ≡ ok actor = rw missing at e in cc)
        | inr (address, read) ↦
            let a : Served.Statsd Text A = record {
              bind_address = address;
              recipients = recipients;
            } in
            let made : ok (stats_d_actor a) ≡ ok actor = rw read at e in
            let same : stats_d_actor a ≡ actor = cc in
            subst (λ a. IsActorOf (Grain.stats_d config) recipients (start a)) same
              (refl, read, refl)
      ]
  start-IsActorOf (Grain.osquery config) recipients actor e =
      elim (Result-cases (Osquery.with_config config)) [
        | inl (stop, refused) ↦
            absurd (let failed : err panic ≡ ok actor = rw (refused, into_probe_actor) at e in cc)
        | inr (conf, accepted) ↦
            let made : ok (osquery_actor conf recipients) ≡ ok actor =
              rw (accepted, into_probe_actor) at e in
            let same : osquery_actor conf recipients ≡ actor = cc in
            subst (λ a. IsActorOf (Grain.osquery config) recipients (start a)) same
              (refl, accepted, refl)
      ]
  start-IsActorOf (Grain.test config) recipients actor e =
      let same : test_actor config recipients ≡ actor = cc in
      subst (λ a. IsActorOf (Grain.test config) recipients (start a)) same (refl, refl, refl)

module _ {U V F H R E P : Type 0} ⦃names : HeaderNames⦄ ⦃uris : FromStr U⦄ ⦃values : FromStr V⦄
    ⦃sys : System⦄ ⦃env : Environment⦄ ⦃re : Matcher R⦄ ⦃loader : Loader E P⦄
    ⦃addresses : FromStr Text⦄ where
  -- the actor of a probe sends to the pipelines that the probe names
  abbrev pub IsWired :
      Config E → Probe E → ProbeActor P (Recipient (Stage F H R) (BackendActor U V)) → Type 0
  IsWired config probe actor =
      (recipients : List (Recipient (Stage F H R) (BackendActor U V))) × Each
        (Reaches config.pipeline) probe.pipelines recipients
      × (into_probe_actor probe.grain recipients ≡ ok actor)

  -- what runs for a probe: the actor of its grain on its arbiter, which sends to the pipelines that the
  -- probe names
  abbrev pub Starts :
      Config E
      → Probe E
      → Arbiter × ProbeActor P (Recipient (Stage F H R) (BackendActor U V))
      → Type 0
  Starts config probe started =
      (recipients : List (Recipient (Stage F H R) (BackendActor U V))) × Each
        (Reaches config.pipeline) probe.pipelines recipients
      × IsActorOf probe.grain recipients started

  start-Starts :
      (config : Config E) (probe : Probe E)
      (actor : ProbeActor P (Recipient (Stage F H R) (BackendActor U V)))
      → IsWired config probe actor
      → Starts config probe (start actor)
  start-Starts config probe actor (recipients, each, made) =
      (recipients, each, start-IsActorOf probe.grain recipients actor made)

  pub start_probe-IsWired :
      (config : Config E) {backends : Map Text (Recipient (Stage F H R) (BackendActor U V))}
      (probe : Probe E) (actor : ProbeActor P (Recipient (Stage F H R) (BackendActor U V)))
      → start_pipelines config.pipeline ≡ ok backends
      → start_probe backends probe ≡ ok actor
      → IsWired config probe actor
  unfolding start_probe
  start_probe-IsWired config {backends} probe actor e started =
      let (recipients, found, made) =
        bind_inv (recipients_of backends probe.pipelines)
          (λ recipients. into_probe_actor probe.grain recipients) started in
      (recipients, recipients-Each config.pipeline probe.pipelines e found, made)

module _ {U V F H R E : Type 0} (P : Type 0) ⦃names : HeaderNames⦄ ⦃uris : FromStr U⦄
    ⦃values : FromStr V⦄ ⦃sys : System⦄ ⦃env : Environment⦄ ⦃re : Matcher R⦄ ⦃loader : Loader E P⦄
    ⦃addresses : FromStr Text⦄ where
  start_probe-Returns :
      (config : Config E) {backends : Map Text (Recipient (Stage F H R) (BackendActor U V))}
      (probe : Probe E)
      → start_pipelines config.pipeline ≡ ok backends
      → All (IsNamed config.pipeline) probe.pipelines
      → CanStart P probe
      → Returns (start_probe {P = P} backends probe)
  unfolding start_probe recipients_of
  start_probe-Returns config {backends} probe e named can =
      Returns-bind (recipients_of backends probe.pipelines)
        (λ recipients. into_probe_actor probe.grain recipients)
        (Returns-try_map (λ name. unwrap (lookup name backends)) probe.pipelines
          (All-weaken (IsNamed config.pipeline) (λ name. Returns (unwrap (lookup name backends)))
            (λ name. lookup-Returns config.pipeline name e) probe.pipelines named))
        (λ recipients _. into_probe_actor-Returns P probe.grain recipients can)

  starting :
      (config : Config E) {backends : Map Text (Recipient (Stage F H R) (BackendActor U V))}
      (probes : List (Probe E))
      → start_pipelines config.pipeline ≡ ok backends
      → All (λ probe. All (IsNamed config.pipeline) probe.pipelines) probes
      → All (CanStart P) probes
      → All (λ probe. Returns (start_probe {P = P} backends probe)) probes
  starting config [] e named can = tt
  starting config (probe ∷ probes) e named can =
      (start_probe-Returns config probe e named.0 can.0, starting config probes e named.1 can.1)

  run-Starts :
      ⦃process : Process⦄ (config : Config E) (logger : Logger)
      (backends : Map Text (Recipient (Stage F H R) (BackendActor U V)))
      → init_logging config.log ≡ ok logger
      → start_pipelines config.pipeline ≡ ok backends
      → All (λ probe. All (IsNamed config.pipeline) probe.pipelines) config.probe
      → All (CanStart P) config.probe
      → (running : Running P (Recipient (Stage F H R) (BackendActor U V))) × (run config
          ≡ ok running)
        × (running.logger ≡ logger)
        × Each (Starts config) config.probe running.probe_actors
  unfolding run
  run-Starts config logger backends logging e named can =
      let (actors, started) = Returns-ok (try_map (start_probe {P = P} backends) config.probe) (
        Returns-try_map (start_probe {P = P} backends) config.probe
          (starting config config.probe e named can)) in
      (
        record { logger = logger; probe_actors = map start actors },
        rw logging (rw e (rw started refl)),
        refl,
        Each-map (IsWired config) (Starts config) start (start-Starts config) config.probe actors (
            Each-try_map (start_probe backends) (IsWired config)
              (λ probe actor. start_probe-IsWired config probe actor e) config.probe started),
      )

  -- If the file that the first argument names is read and holds a configuration, the logger and the
  -- pipelines of it start, every name of a pipeline that a probe gives is configured, and every grain
  -- starts, then the program starts: one actor runs for each probe, in order, that of osquery on the
  -- arbiter of `main` and any other on `io`, and the actor's recipients are the pipelines that the probe
  -- names, each a chain of the configured steps, in order, in front of the configured backend.
  pub main-Starts :
      ⦃process : Process⦄ (from_slice : List ℕ → Option (Config E)) (file : Text) (content : List ℕ)
      (config : Config E) (logger : Logger)
      (backends : Map Text (Recipient (Stage F H R) (BackendActor U V)))
      → get_elem? process.args 1 ≡ some file
      → process.read file ≡ some content
      → from_slice content ≡ some config
      → init_logging config.log ≡ ok logger
      → start_pipelines config.pipeline ≡ ok backends
      → All (λ probe. All (IsNamed config.pipeline) probe.pipelines) config.probe
      → All (CanStart P) config.probe
      → (running : Running P (Recipient (Stage F H R) (BackendActor U V))) × (main from_slice
          ≡ ok running)
        × (running.logger ≡ logger)
        × Each (Starts config) config.probe running.probe_actors
  unfolding main
  main-Starts from_slice file content config logger backends arg whole parsed logging e named can =
      rw (arg, whole, parsed) (run-Starts config logger backends logging e named can)
