-- ===== src/Grains/Osquery/Scheduled.antt =====
-- How often and when the queries of src/grains/osquery.rs run, and that what `with_config` accepts
-- is read without a panic.
use ingraind.Prelude.{
  ℕ, zero, suc, Bool, false, none, some, List, [], ◌∷◌, if◌then◌else◌, nat_equality, Result, ok,
  ◌>>=◌, replicate,
}
use ingraind.Grains.Osquery.{QueryConfig, Query, schedule_query, Stop}

-- the delays of the runs of a query, up to `fuel` of them, each run scheduling the next one
unfoldable pub delays : ℕ → Query → Bool → Result Stop (List ℕ)
delays zero query is_startup = ok []
delays (suc fuel) query is_startup = schedule_query query is_startup >>= λ next. elim next [
  | none ↦ ok []
  | some later ↦ delays fuel later.0 false >>= λ rest. ok (later.1 ∷ rest)
]

-- the delay of the first run
abbrev pub first_delay : QueryConfig → ℕ → ℕ
first_delay conf i = elim conf.run_at_start [ none ↦ i | some b ↦ if b then 0 else i ]

-- `n` runs, the first after its own delay
abbrev pub expected : ℕ → ℕ → ℕ → List ℕ
expected first i zero = []
expected first i (suc n) = first ∷ replicate n i

abbrev pub left : QueryConfig → ℕ → Query
left conf n = record { conf = conf; iterations_left = some n }
