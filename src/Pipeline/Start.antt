-- ===== src/Pipeline/Start.antt =====
-- The start of the program: src/main.rs, and of src/config.rs the backends, the logging and the arbiters of
-- the probes. The arguments, the file, the reader of TOML and the loggers are an interface; an actor
-- that is started stands with the arbiter on which it runs.
pub mod Started
pub mod Reached
pub mod Missing
use ingraind.Prelude.{
  ℕ, Bool, Text, chars, text_equality, Option, none, some, List, [], ◌∷◌, map, get_elem?, Run, ok,
  ◌>>=◌, ◌>>◌, unwrap, demand, try_map, FromStr,
}
use ingraind.Prelude.Maps.{Map, from_pairs}
use ingraind.Backends.Http as Http
use ingraind.Backends.S3 as S3
use ingraind.Backends.Statsd as Statsd
use ingraind.Aggregations.Regex.{Matcher}
use ingraind.Pipeline.{
  Stage, Recipient, System, Pipeline, start_pipeline, Probe, ProbeActor, ebpf_actor, stats_d_actor,
  osquery_actor, test_actor, Loader, start_probe,
}

-- the enum `Backend`
pub data Backend : Type 0 where
  s3 console : Backend
  stats_d : Statsd.StatsdConfig → Backend
  http : Http.HttpConfig → Backend

-- the actor of a backend
pub data BackendActor (U V : Type 0) : Type 0 where
  s3_backend : S3.S3 → BackendActor U V
  stats_d_backend : Statsd.Statsd → BackendActor U V
  http_backend : Http.Http U V → BackendActor U V
  console_backend : BackendActor U V

-- `log_level` is one of the six filters of the crate log
pub data LevelFilter : Type 0 where
  off error warn info debug trace : LevelFilter

pub record SyslogConfig : Type 0 where
  pub log_level : LevelFilter

pub data Logging : Type 0 where
  env_logger : Logging
  syslog : SyslogConfig → Logging

pub record Config (E : Type 0) : Type 0 where
  pub log : Option Logging
  pub probe : List (Probe E)
  pub pipeline : Map Text (Pipeline Backend)

-- `ProbeActor::start`: an actor of osquery runs on the arbiter of `main`, any other on `io`
pub data Arbiter : Type 0 where
  system io : Arbiter

unfoldable pub start : {P A : Type 0} → ProbeActor P A → Arbiter × ProbeActor P A
start (ebpf_actor probe recipients) = (io, ebpf_actor probe recipients)
start (stats_d_actor a) = (io, stats_d_actor a)
start (test_actor config recipients) = (io, test_actor config recipients)
start (osquery_actor config recipients) = (system, osquery_actor config recipients)

-- the logger of the process
pub data Logger : Type 0 where
  from_env : Logger
  to_syslog : LevelFilter → Text → Logger

-- the arguments of the process, `fs::read`, and whether syslog can be reached
pub record Process : Type 0 where
  pub args : List Text
  pub read : Text → Option (List ℕ)
  pub syslog_init : LevelFilter → Text → Bool

unfoldable pub init_logging : ⦃process : Process⦄ → Option Logging → Run Logger
init_logging none = ok from_env
init_logging (some env_logger) = ok from_env
init_logging ⦃process⦄ (some (syslog c)) =
    demand (process.syslog_init c.log_level (chars "ingraind")) >>= λ _.
    ok (to_syslog c.log_level (chars "ingraind"))

module _ {U V : Type 0} ⦃names : Http.HeaderNames⦄ ⦃uris : FromStr U⦄ ⦃values : FromStr V⦄
    ⦃sys : System⦄ ⦃env : Statsd.Environment⦄ where
  -- `Backend::into_recipient`
  unfoldable pub into_recipient : Backend → Run (BackendActor U V)
  into_recipient s3 =
      S3.new (env.var (chars "AWS_S3_BUCKET")) sys.get_fqdn >>= λ a. ok (s3_backend a)
  into_recipient (stats_d config) = Statsd.new config >>= λ a. ok (stats_d_backend a)
  into_recipient (http config) = Http.new config >>= λ a. ok (http_backend a)
  into_recipient console = ok console_backend

  module _ {F H R : Type 0} ⦃re : Matcher R⦄ where
    -- a pipeline of the configuration, its backend first
    unfoldable pub launch_pipeline :
        Pipeline Backend → Run (Recipient (Stage F H R) (BackendActor U V))
    launch_pipeline pipeline = into_recipient pipeline.backend >>= λ backend.
        start_pipeline (record { backend = backend; steps = pipeline.steps })

    unfoldable pub launch_named :
        Text × Pipeline Backend → Run (Text × Recipient (Stage F H R) (BackendActor U V))
    launch_named p = launch_pipeline p.1 >>= λ r. ok (p.0, r)

    unfoldable pub start_pipelines :
        List (Text × Pipeline Backend) → Run (Map Text (Recipient (Stage F H R) (BackendActor U V)))
    start_pipelines pipelines = try_map launch_named pipelines >>= λ pairs. ok (from_pairs pairs)

-- what runs when `main` enters the loop of the system
pub record Running (P A : Type 0) : Type 0 where
  pub logger : Logger
  pub probe_actors : List (Arbiter × ProbeActor P A)

module _ {U V : Type 0} ⦃names : Http.HeaderNames⦄ ⦃uris : FromStr U⦄ ⦃values : FromStr V⦄
    ⦃sys : System⦄ ⦃env : Statsd.Environment⦄ where
  module _ {F H R E P : Type 0} ⦃re : Matcher R⦄ ⦃loader : Loader E P⦄ ⦃addresses : FromStr Text⦄
      ⦃process : Process⦄ where
    -- `main` behind the reading of the configuration
    unfoldable pub run : Config E → Run (Running P (Recipient (Stage F H R) (BackendActor U V)))
    run config = do
      logger ← init_logging config.log
      backends ← start_pipelines config.pipeline
      probe_actors ← try_map (start_probe backends) config.probe
      ok (record { logger = logger; probe_actors = map start probe_actors })

    -- `from_slice` is the reader of TOML
    unfoldable pub main :
        (List ℕ → Option (Config E)) → Run (Running P (Recipient (Stage F H R) (BackendActor U V)))
    main from_slice = do
      file ← unwrap (get_elem? process.args 1)
      content ← unwrap (process.read file)
      config ← unwrap (from_slice content)
      run config
