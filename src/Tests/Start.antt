-- ===== src/Tests/Start.antt =====
-- The start of the program at a configuration of two pipelines and two probes, and at one with a probe for
-- a pipeline that is not there.
use ingraind.Prelude.{
  ap, arith, err, panic, ℕ, ◌≡◌, refl, Text, chars, some, none, [], ◌∷◌, Each, inl, inr, ok,
  text_beq, text_equality, try_map, true,
}
use ingraind.Prelude.Maps.{Map, insert, from_pairs}
use ingraind.Aggregations.Whitelist as Whitelist
use ingraind.Backends.{Message}
use ingraind.Backends.Statsd.{Environment}
use ingraind.Pipeline.{
  Aggregator, Stage, Recipient, Pipeline, Probe, Grain, Loader, launch, add_steps, start_pipeline,
  into_recipient,
}
use ingraind.Pipeline.Start as Start
use ingraind.Pipeline.Start.{
  Backend, BackendActor, Config, Process, Logging, Logger, LevelFilter, Running, init_logging,
  launch_pipeline, launch_named, start_pipelines, main,
}
use ingraind.Pipeline.Start.Reached.{IsNamed}
use ingraind.Pipeline.Start.Missing.{main_missing}
use ingraind.Pipeline.Start.Started.{Starts, main-Starts}
use ingraind.Grains.Statsd.Served as Served
use ingraind.Tests.Pipelines.{machine}
use ingraind.Tests.Http.{read_text, as_they_are}
use ingraind.Tests.Samples.{whole_float, ascii, literal}

instance abbrev process : Process
process = record {
  args = chars "ingraind" ∷ chars "config.toml" ∷ [];
  read = λ file. some (1 ∷ []);
  syslog_init = λ level name. true;
}

instance abbrev environment : Environment
environment = record {
  var = λ name. some (chars "8125");
  bind = λ address. true;
  set_nonblocking = true;
  sink_from = λ host port. true;
}

-- every grain loads as itself
instance abbrev loads : Loader ℕ ℕ
loads = record { load = λ e. some e }

abbrev config : Config ℕ
config = record {
  log = some (Logging.syslog (record { log_level = LevelFilter.debug }));
  probe =
      record { pipelines = chars "console" ∷ chars "s3" ∷ []; grain = Grain.ebpf 7 }
      ∷ record {
        pipelines = chars "s3" ∷ [];
        grain = Grain.stats_d (record { bind_address = Served.default_bind_address });
      }
      ∷ [];
  pipeline =
      (chars "s3", record { backend = Backend.s3; steps = none })
      ∷ (
        chars "console",
        record {
          backend = Backend.console;
          steps = some (
              Aggregator.container
              ∷ Aggregator.whitelist (record { allow = chars "k1" ∷ [] })
              ∷ []);
        },
      )
      ∷ [];
}

abbrev backends : Map Text (Recipient (Stage ℕ ℕ Text) (BackendActor Text Text))
backends =
    (
      chars "s3",
      Recipient.backend
          (BackendActor.s3_backend (record { hostname = chars "host"; bucket = chars "8125" })),
    )
    ∷ (
      chars "console",
      Recipient.stage Stage.container_stage (
          Recipient.stage (Stage.whitelist_stage (record { allowed = chars "k1" ∷ [] }))
            (Recipient.backend BackendActor.console_backend)),
    )
    ∷ []

pipelines_start : start_pipelines config.pipeline ≡ ok backends
unfolding start_pipelines try_map launch_named launch_pipeline Start.into_recipient
    ingraind.Backends.S3.new start_pipeline add_steps into_recipient launch Whitelist.launch
    from_pairs insert text_beq
pipelines_start = refl

logger_starts : init_logging config.log ≡ ok (Logger.to_syslog LevelFilter.debug (chars "ingraind"))
unfolding init_logging
logger_starts = refl

main-Starts_example :
    (running : Running ℕ (Recipient (Stage ℕ ℕ Text) (BackendActor Text Text))) × (main
        (λ content. some config)
      ≡ ok running)
    × (running.logger ≡ Logger.to_syslog LevelFilter.debug (chars "ingraind"))
    × Each (Starts config) config.probe running.probe_actors
unfolding ingraind.Pipeline.into_probe_actor Served.with_config
main-Starts_example =
    main-Starts ℕ (λ content. some config) (chars "config.toml") (1 ∷ []) config
      (Logger.to_syslog LevelFilter.debug (chars "ingraind")) backends refl refl refl logger_starts
      pipelines_start (((_, inr (inl refl)), ((_, inl refl), tt)), (((_, inl refl), tt), tt))
      (tt, (tt, tt))

-- the configuration with a probe for a pipeline that is not there
abbrev lost_probe : Probe ℕ
lost_probe = record { pipelines = chars "s3" ∷ chars "none" ∷ []; grain = Grain.ebpf 7 }

abbrev incomplete : Config ℕ
incomplete = record { log = config.log; probe = lost_probe ∷ []; pipeline = config.pipeline }

none_missing : ¬ IsNamed config.pipeline (chars "none")
none_missing (pipeline, inl e) = no_text (ap (λ p. p.0) e)
  where
    no_text : ¬ (chars "s3" ≡ chars "none")
    no_text e = ground (arith, e)
none_missing (pipeline, inr (inl e)) = no_text (ap (λ p. p.0) e)
  where
    no_text : ¬ (chars "console" ≡ chars "none")
    no_text e = ground (arith, e)
none_missing (pipeline, inr (inr none_left)) = elim none_left [ ]

main_missing_example :
    main {U = Text} {V = Text} {F = ℕ} {H = ℕ} {R = Text} {E = ℕ} {P = ℕ}
      (λ content. some incomplete)
    ≡ err panic
main_missing_example =
    main_missing ℕ (λ content. some incomplete) (chars "config.toml") (1 ∷ []) incomplete
      (Logger.to_syslog LevelFilter.debug (chars "ingraind")) backends lost_probe (chars "none")
      refl refl refl logger_starts pipelines_start (inl refl) (inr (inl refl)) none_missing
