-- ===== src/Grains/Osquery/Running.antt =====
-- A run of a query: src/grains/osquery.rs, 126-154 and 313-325.
use ingraind.Prelude.{
  ℕ, false, Text, Option, none, some, List, [], if◌then◌else◌, ◌==◌, nat_equality, Result, ok, err,
  ◌>>=◌, ok_or,
}
use ingraind.Float.{Float}
use ingraind.Backends.{Message, list}
use ingraind.Grains.Recipients.{do_send}
use ingraind.Grains.Statsd.Delivery.{Utf8}
use ingraind.Grains.Osquery.{
  OsqueryConfig, Query, Later, Osqueryi, new, with_command, with_args, with_config_path, with_pack,
  with_query, to_args, schedule_query, Stop, panicked, failed, io_error,
}
use ingraind.Grains.Osquery.Rows.{Json, process_query_result}

-- `Command::output`: the code of a process that exits (none of one that a signal ends), and what
-- it printed
pub record Processes : Type 0 where
  pub output : Text → List Text → Option (Option ℕ × List ℕ)

module _ ⦃ps : Processes⦄ where
  -- `status.code().unwrap()` stands in the message of the error
  unfoldable pub exit_status : Option ℕ → List ℕ → Result Stop (List ℕ)
  exit_status none stdout = err panicked
  exit_status (some code) stdout = if code == 0 then ok stdout else err (failed io_error)

  unfoldable pub run : Osqueryi → Result Stop (List ℕ)
  run o = to_args o >>= λ args.
      ok_or (ps.output o.command args) (failed io_error) >>= λ out. exit_status out.0 out.1

unfoldable pub osqueryi_for : OsqueryConfig → Query → Osqueryi
osqueryi_for conf query = with_query query.conf.query (
    with_pack query.conf.pack (
      with_config_path conf.config_path
        (with_args conf.osqueryi_args (with_command conf.osqueryi new))))

module _ (J : Type 0) {F R : Type 0} ⦃json : Json J⦄ ⦃fl : Float F⦄ ⦃utf8 : Utf8⦄
    ⦃ps : Processes⦄ where
  unfoldable pub run_query : ℕ → OsqueryConfig → List R → Query → Result Stop (List (R × Message F))
  run_query now conf recipients query = run (osqueryi_for conf query) >>= λ stdout.
      process_query_result J now query.conf stdout >>= λ ms. ok (do_send recipients (list ms))

  -- what `run_later` calls: an error is logged, and the query is scheduled again
  unfoldable pub fire :
      ℕ → OsqueryConfig → List R → Query → Result Stop (List (R × Message F) × Option Later)
  fire now conf recipients query = elim (run_query now conf recipients query) [
    | err stop ↦ elim stop [
      | panicked ↦ err panicked
      | failed e ↦ schedule_query query false >>= λ next. ok ([], next)
    ]
    | ok sent ↦ schedule_query query false >>= λ next. ok (sent, next)
  ]
