-- ===== src/Grains/Osquery/Runs.antt =====
-- What an output of osqueryi is read as, and what a run of a query leads to:
-- src/grains/osquery.rs.
use ingraind.Prelude.{
  ℕ, ◌≡◌, refl, ap, ◌∙◌, true, false, Text, none, some, List, [], ◌∷◌, ◌++◌, map, arith, ok, err,
  ◌>>=◌, All, append_assoc, text_equality,
}
use ingraind.Float.{Float}
use ingraind.Grains.Statsd.Delivery.{Utf8}
use ingraind.Grains.Osquery.{Osqueryi, to_args, OsqueryConfig, Query, QueryConfig, panicked}
use ingraind.Grains.Osquery.Rows.{Json, read_rows, process_lines, closes}
use ingraind.Grains.Osquery.Running.{Processes, run_query, fire, osqueryi_for, run, exit_status}

module _ (J F : Type 0) ⦃json : Json J⦄ ⦃fl : Float F⦄ ⦃utf8 : Utf8⦄ where
  -- the lines of a document, all but the last not closing it
  abbrev pub IsOpen : List ℕ × Text → Type 0
  IsOpen l = (utf8.from_utf8 l.0 ≡ some l.1) × (closes l.1 ≡ false)

  abbrev pub text_of : List (List ℕ × Text) → Text → Text
  text_of [] end = end
  text_of (l ∷ ls) end = l.1 ++ text_of ls end

  process_open :
      (now : ℕ) (q : QueryConfig) (accum : Text) (bytes : List ℕ) (line : Text)
      (rest : List (List ℕ))
      → utf8.from_utf8 bytes ≡ some line
      → closes line ≡ false
      → process_lines J {F = F} now q accum (bytes ∷ rest)
        ≡ process_lines J now q (accum ++ line) rest
  unfolding process_lines
  process_open now q accum bytes line rest e c = ground arith

  process_from :
      (now : ℕ) (q : QueryConfig) (accum : Text) (body : List (List ℕ × Text)) (close : List ℕ)
      (end : Text) (rest : List (List ℕ))
      → All IsOpen body
      → utf8.from_utf8 close ≡ some end
      → closes end ≡ true
      → process_lines J {F = F} now q accum (map (λ l. l.0) body ++ close ∷ rest) ≡ (
          read_rows J now q (accum ++ text_of body end) >>= λ ms.
          process_lines J now q [] rest >>= λ later. ok (ms ++ later))
  unfolding process_lines
  process_from now q accum [] close end rest h e c = ground arith
  process_from now q accum (l ∷ body) close end rest h e c =
      process_open now q accum l.0 l.1 _ h.0.0 h.0.1
      ∙ process_from now q (accum ++ l.1) body close end rest h.1 e c
      ∙ ap
          (λ t. read_rows J now q t >>= λ ms.
            process_lines J now q [] rest >>= λ later. ok (ms ++ later))
          (append_assoc accum l.1 (text_of body end))

  -- Documents that follow one another in the output are read one by one: the lines up to the first
  -- closing line are read as one document, and its measurements stand before those of the rest.
  pub process_document :
      (now : ℕ) (q : QueryConfig) (body : List (List ℕ × Text)) (close : List ℕ) (end : Text)
      (rest : List (List ℕ))
      → All IsOpen body
      → utf8.from_utf8 close ≡ some end
      → closes end ≡ true
      → process_lines J {F = F} now q [] (map (λ l. l.0) body ++ close ∷ rest) ≡ (
          read_rows J now q (text_of body end) >>= λ ms.
          process_lines J now q [] rest >>= λ later. ok (ms ++ later))
  process_document now q body close end rest h e c = process_from now q [] body close end rest h e c

module _ (J F R : Type 0) ⦃json : Json J⦄ ⦃fl : Float F⦄ ⦃utf8 : Utf8⦄ ⦃ps : Processes⦄ where
  run_signal :
      (o : Osqueryi) (args : List Text) (stdout : List ℕ)
      → to_args o ≡ ok args
      → ps.output o.command args ≡ some (none, stdout)
      → run o ≡ err panicked
  unfolding run exit_status
  run_signal o args stdout a b = ground arith

  run_query-panicked :
      (now : ℕ) (conf : OsqueryConfig) (recipients : List R) (query : Query)
      → run (osqueryi_for conf query) ≡ err panicked
      → run_query J {F = F} now conf recipients query ≡ err panicked
  unfolding run_query
  run_query-panicked now conf recipients query e = rw (e, run_query) refl

  -- If a signal ends osqueryi, which leaves it without an exit code, the run panics.
  pub fire_signal :
      (now : ℕ) (conf : OsqueryConfig) (recipients : List R) (query : Query) (args : List Text)
      (stdout : List ℕ)
      → to_args (osqueryi_for conf query) ≡ ok args
      → ps.output (osqueryi_for conf query).command args ≡ some (none, stdout)
      → fire J {F = F} now conf recipients query ≡ err panicked
  unfolding fire
  fire_signal now conf recipients query args stdout a b =
      rw (run_query-panicked now conf recipients query (run_signal _ args stdout a b), fire) refl
