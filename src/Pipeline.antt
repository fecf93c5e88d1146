-- ===== src/Pipeline.antt =====
-- src/config.rs and src/main.rs: from the configuration to the running pipelines and probes. A
-- recipient is a backend behind the stages that a message goes through before it.
pub mod Chain
pub mod Delivery
pub mod Mailboxes
pub mod Start
use ingraind.Prelude.{
  ℕ, ◌≡◌, refl, Bool, Text, Option, none, some, List, [], ◌∷◌, ◌++◌, map, reverse, Run, Result, ok,
  err, panic, ◌>>=◌, unwrap, try_map, text_equality, FromStr,
}
use ingraind.Prelude.Maps.{Map, lookup, from_pairs}
use ingraind.Aggregations.Buffer.Schedule.{Buffer, BufferConfig}
use ingraind.Aggregations.Buffer.Schedule as Schedule
use ingraind.Aggregations.Whitelist as Whitelist
use ingraind.Aggregations.Regex as Regex
use ingraind.Aggregations.Regex.{Matcher}
use ingraind.Aggregations.Exec as Exec
use ingraind.Aggregations.SystemDetails as SystemDetails
use ingraind.Grains.Osquery as Osquery
use ingraind.Grains.Statsd.Served as Served
use ingraind.Grains.TestProbe as TestProbe

-- the enum `Aggregator`
pub data Aggregator : Type 0 where
  add_system_details : Aggregator
  buffer : BufferConfig → Aggregator
  container : Aggregator
  exec : Exec.ExecConfig → Aggregator
  regex : List Regex.RegexPattern → Aggregator
  whitelist : Whitelist.WhitelistConfig → Aggregator

-- the actor of an aggregator
pub data Stage (F H R : Type 0) : Type 0 where
  system_details_stage : SystemDetails.AddSystemDetails → Stage F H R
  buffer_stage : Buffer F H → Stage F H R
  container_stage : Stage F H R
  exec_stage : Exec.Exec R → Stage F H R
  regex_stage : Regex.Rules R → Stage F H R
  whitelist_stage : Whitelist.Whitelist → Stage F H R

-- an address: a backend's, or a stage's with the address that it sends to
pub data Recipient (S B : Type 0) : Type 0 where
  backend : B → Recipient S B
  stage : S → Recipient S B → Recipient S B

-- what `launch` reads of the system: the clock, the kernel's release and the host's name
pub record System : Type 0 where
  pub now : ℕ
  pub uname : Option Text
  pub get_fqdn : Option Text

module _ {F H R : Type 0} ⦃re : Matcher R⦄ ⦃sys : System⦄ where
  -- the actor that `launch` of the aggregator starts
  unfoldable pub launch : Aggregator → Run (Stage F H R)
  launch add_system_details =
      SystemDetails.launch sys.uname sys.get_fqdn >>= λ a. ok (system_details_stage a)
  launch (buffer config) = ok (buffer_stage (Schedule.launch sys.now config))
  launch container = ok container_stage
  launch (exec config) = Exec.launch config >>= λ a. ok (exec_stage a)
  launch (regex patterns) = Regex.launch patterns >>= λ rules. ok (regex_stage rules)
  launch (whitelist config) = ok (whitelist_stage (Whitelist.launch config))

  -- `Aggregator::into_recipient`
  unfoldable pub into_recipient :
      {B : Type 0} → Aggregator → Recipient (Stage F H R) B → Run (Recipient (Stage F H R) B)
  into_recipient step upstream = launch step >>= λ s. ok (stage s upstream)

  -- the loop over the steps, which are in reverse order
  unfoldable pub add_steps :
      {B : Type 0} → List Aggregator → Recipient (Stage F H R) B → Run (Recipient (Stage F H R) B)
  add_steps [] upstream = ok upstream
  add_steps (step ∷ steps) upstream = into_recipient step upstream >>= add_steps steps

-- a pipeline of the configuration, the backend already an actor's address
pub record Pipeline (B : Type 0) : Type 0 where
  pub backend : B
  pub steps : Option (List Aggregator)

module _ {F H R B : Type 0} ⦃re : Matcher R⦄ ⦃sys : System⦄ where
  unfoldable pub start_pipeline : Pipeline B → Run (Recipient (Stage F H R) B)
  start_pipeline pipeline =
      let steps : List Aggregator = elim pipeline.steps [ none ↦ [] | some steps ↦ steps ] in
      add_steps (reverse steps) (Recipient.backend pipeline.backend)

-- the enum `Grain`; what the eBPF grains are configured by is any type
pub data Grain (E : Type 0) : Type 0 where
  ebpf : E → Grain E
  stats_d : Served.StatsdConfig → Grain E
  osquery : Osquery.OsqueryConfig → Grain E
  test : TestProbe.TestProbeConfig → Grain E

pub data ProbeActor (P A : Type 0) : Type 0 where
  ebpf_actor : P → List A → ProbeActor P A
  stats_d_actor : Served.Statsd Text A → ProbeActor P A
  osquery_actor : Osquery.OsqueryConfig → List A → ProbeActor P A
  test_actor : TestProbe.TestProbeConfig → List A → ProbeActor P A

-- `load` of an eBPF grain
pub record Loader (E P : Type 0) : Type 0 where
  pub load : E → Option P

-- an address of a socket is a text, as it is printed
module _ {E P A : Type 0} ⦃loader : Loader E P⦄ ⦃addresses : FromStr Text⦄ where
  unfoldable pub into_probe_actor : Grain E → List A → Run (ProbeActor P A)
  into_probe_actor (stats_d config) recipients =
      Served.with_config config recipients >>= λ a. ok (stats_d_actor a)
  into_probe_actor (osquery config) recipients = elim (Osquery.with_config config) [
    | ok conf ↦ ok (osquery_actor conf recipients)
    | err stop ↦ err panic
  ]
  into_probe_actor (test config) recipients = ok (test_actor config recipients)
  into_probe_actor (ebpf config) recipients =
      unwrap (loader.load config) >>= λ probe. ok (ebpf_actor probe recipients)

-- a probe of the configuration
pub record Probe (E : Type 0) : Type 0 where
  pub pipelines : List Text
  pub grain : Grain E

-- the recipients of a probe, by the names of its pipelines; a name without a pipeline panics
unfoldable pub recipients_of : {A : Type 0} → Map Text A → List Text → Run (List A)
recipients_of backends names = try_map (λ p. unwrap (lookup p backends)) names

module _ {E P A : Type 0} ⦃loader : Loader E P⦄ ⦃addresses : FromStr Text⦄ where
  unfoldable pub start_probe : Map Text A → Probe E → Run (ProbeActor P A)
  start_probe backends probe = recipients_of backends probe.pipelines >>= λ recipients.
      into_probe_actor probe.grain recipients
