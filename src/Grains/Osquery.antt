-- ===== src/Grains/Osquery.antt =====
-- src/grains/osquery.rs: the configuration, the schedule of the queries and the command line of
-- osqueryi. A failure is a panic or an error that the grain handles.
pub mod Rows
pub mod Running
pub mod Scheduled
pub mod Accepted
pub mod Results
pub mod Runs
use ingraind.Prelude.{
  ℕ, zero, suc, ◌-◌, ◌≡◌, refl, Bool, true, false, Text, chars, Option, none, some, List, [], ◌∷◌,
  ◌++◌, map, arith, if◌then◌else◌, ◌==◌, nat_equality, Result, ok, err, ◌>>=◌, ok_or, try_map, ◌&&◌,
}
use ingraind.Metrics.Kind
use ingraind.Metrics.Units

pub record QueryConfig : Type 0 where
  pub query : Option Text
  pub pack : Option Text
  pub name : Text
  pub measurement : Text
  pub measurement_type : Text
  pub aggregation_type : Option Text
  pub iterations : Option ℕ
  pub interval_ms : Option ℕ
  pub run_at_start : Option Bool

pub record OsqueryConfig : Type 0 where
  pub osqueryi : Text
  pub osqueryi_args : List Text
  pub config_path : Option Text
  pub queries : List QueryConfig
  pub interval_ms : ℕ
  pub run_at_start : Bool

-- the errors, their texts left out
pub data OsqueryError : Type 0 where
  config_error io_error json_error error : OsqueryError

pub data Stop : Type 0 where
  panicked : Stop
  failed : OsqueryError → Stop

abbrev pub default_osqueryi : Text
default_osqueryi = chars "osqueryi"

abbrev pub default_interval_ms : ℕ
default_interval_ms = 10000

abbrev pub default_run_at_start : Bool
default_run_at_start = false

abbrev pub default_osqueryi_args : List Text
default_osqueryi_args = []

-- `get_or_insert`
abbrev get_or_insert : {A : Type 0} → Option A → A → Option A
get_or_insert none a = some a
get_or_insert (some b) a = some b

unfoldable pub propagate_defaults : QueryConfig → OsqueryConfig → QueryConfig
propagate_defaults conf parent = record conf {
  interval_ms = get_or_insert conf.interval_ms parent.interval_ms;
  run_at_start = get_or_insert conf.run_at_start parent.run_at_start;
}

-- an error that `unwrap` meets
abbrev pub or_panic : {E A : Type 0} → Result E A → Result Stop A
or_panic (ok a) = ok a
or_panic (err e) = err panicked

-- the aggregation type of a query, `counter` if it names none
unfoldable pub aggregation : QueryConfig → Text
aggregation q = elim q.aggregation_type [ none ↦ chars "counter" | some a ↦ a ]

-- the check of one query, with its aggregation type filled in
unfoldable pub validate : QueryConfig → Result Stop QueryConfig
validate q =
    let aty = aggregation q in
    or_panic (Kind.try_from_str aty) >>= λ k.
    or_panic (Units.try_from_str q.measurement_type 0) >>= λ u.
    ok (record q { aggregation_type = some aty })

unfoldable pub with_config : OsqueryConfig → Result Stop OsqueryConfig
with_config conf =
    try_map validate conf.queries >>= λ queries. ok (record conf { queries = queries })

pub record Query : Type 0 where
  pub conf : QueryConfig
  pub iterations_left : Option ℕ

-- `Query::with_config`
unfoldable pub query_with_config : QueryConfig → Result Stop Query
query_with_config conf = ok_or conf.interval_ms panicked >>= λ i.
    if i == 0
    then err (failed config_error)
    else ok (record { conf = conf; iterations_left = conf.iterations })

-- the delay until the next run
unfoldable pub delay : QueryConfig → Bool → Result Stop ℕ
delay conf is_startup =
    if is_startup && (elim conf.run_at_start [ none ↦ false | some b ↦ b ])
    then ok 0
    else ok_or conf.interval_ms panicked

abbrev pub Later : Type 0
Later = Query × ℕ

-- the run that `run_later` is asked for, if one is left: the query at that time and the delay
unfoldable pub schedule_query : Query → Bool → Result Stop (Option Later)
schedule_query query is_startup = elim query.iterations_left [
  | none ↦ delay query.conf is_startup >>= λ d. ok (some (query, d))
  | some i ↦
      if i == 0
      then ok none
      else (delay query.conf is_startup >>= λ d.
          ok (some (record query { iterations_left = some (i - 1) }, d)))
]

unfoldable pub schedule_one : OsqueryConfig → QueryConfig → Result Stop (Option Later)
schedule_one parent conf =
    query_with_config (propagate_defaults conf parent) >>= λ query. schedule_query query true

unfoldable pub schedule_queries : OsqueryConfig → Result Stop (List (Option Later))
schedule_queries conf = try_map (schedule_one conf) conf.queries

-- `started` of the actor: `expect` on the result
unfoldable pub started : OsqueryConfig → Result Stop (List (Option Later))
started conf = or_panic (schedule_queries conf)

-- the command line of osqueryi
pub record Osqueryi : Type 0 where
  pub command : Text
  pub args : List Text
  pub config_path : Option Text
  pub query : Option Text
  pub pack : Option Text

abbrev pub new : Osqueryi
new = record {
  command = chars "osqueryi";
  args = [];
  config_path = none;
  query = none;
  pack = none;
}

abbrev pub with_command : Text → Osqueryi → Osqueryi
with_command cmd o = record o { command = cmd }

abbrev pub with_args : List Text → Osqueryi → Osqueryi
with_args args o = record o { args = args }

abbrev pub with_config_path : Option Text → Osqueryi → Osqueryi
with_config_path path o = record o { config_path = path }

abbrev pub with_pack : Option Text → Osqueryi → Osqueryi
with_pack pack o = record o { pack = pack }

abbrev pub with_query : Option Text → Osqueryi → Osqueryi
with_query query o = record o { query = query }

abbrev pub config_args : Option Text → List Text
config_args none = []
config_args (some config) = chars "--config_path" ∷ config ∷ []

abbrev pub query_args : Option Text → Option Text → Result Stop (List Text)
query_args (some q) none = ok (q ∷ [])
query_args none (some p) = ok (chars "--pack" ∷ p ∷ [])
query_args none none = err (failed io_error)
query_args (some q) (some p) = err (failed io_error)

unfoldable pub to_args : Osqueryi → Result Stop (List Text)
to_args o = query_args o.query o.pack >>= λ last.
    ok (((o.args ++ chars "--json" ∷ []) ++ config_args o.config_path) ++ last)
