-- ===== src/Grains/Osquery/Accepted.antt =====
-- What `with_config` of src/grains/osquery.rs accepts is read without a panic: the comment at
-- the end of `measurement_from_row`.
use mathlib.Core.Path.{subst}
use ingraind.Prelude.{
  Bool-cases, inl, inr, ℕ, ◌≡◌, refl, sym, Text, Option, none, some, List, [], ◌∷◌, ◌++◌, Result,
  ok, err, ◌>>=◌, ok_or, try_map, try_map_cons, bind_inv, All,
}
use ingraind.Float.{Float}
use ingraind.Metrics.Kind
use ingraind.Metrics.Units
use ingraind.Metrics.Units.{MeasureUnit, try_from_str_total}
use ingraind.Grains.Statsd.Delivery.{Utf8}
use ingraind.Grains.Osquery.{
  QueryConfig, OsqueryConfig, OsqueryError, io_error, json_error, Stop, panicked, failed, error,
  or_panic, aggregation, validate, with_config, propagate_defaults,
}
use ingraind.Grains.Osquery.Rows.{
  Json, measurement_from_row, measurements_from_rows, read_rows, process_lines,
  process_query_result, closes, row_fields,
}

-- the kind and the unit of the query can be read
abbrev pub IsAccepted : QueryConfig → Type 0
IsAccepted q =
    (a : Text) × (q.aggregation_type ≡ some a)
    × ((k : ℕ) × (Kind.try_from_str a ≡ ok k))
    × ((u : MeasureUnit) × (Units.try_from_str q.measurement_type 0 ≡ ok u))

-- a result that is no panic
abbrev pub Calm : {A : Type 0} → Result Stop A → Type 0
Calm (ok a) = Unit
Calm (err panicked) = ⊥
Calm (err (failed e)) = Unit

or_panic_inv : {E A : Type 0} (r : Result E A) (a : A) → or_panic r ≡ ok a → r ≡ ok a
or_panic_inv (ok b) a h = cc
or_panic_inv (err e) a h = cc

validate-IsAccepted : (q p : QueryConfig) → validate q ≡ ok p → IsAccepted p
unfolding validate
validate-IsAccepted q p h =
    let (k, ek, h2) = bind_inv (or_panic (Kind.try_from_str (aggregation q))) _ h in
    let (u, eu, h3) = bind_inv (or_panic (Units.try_from_str q.measurement_type 0)) _ h2 in
    let same : record q { aggregation_type = some (aggregation q) } ≡ p = cc in
    subst IsAccepted same (aggregation q, refl, (k, or_panic_inv _ k ek), (u, or_panic_inv _ u eu))

try_map-IsAccepted : (qs ps : List QueryConfig) → try_map validate qs ≡ ok ps → All IsAccepted ps
try_map-IsAccepted [] ps h =
    let none_left : [] ≡ ps = unfold try_map in cc in subst (All IsAccepted) none_left tt
try_map-IsAccepted (q ∷ qs) ps h =
    let (p, rest, ep, er, e) = try_map_cons validate q qs h in
    subst (All IsAccepted) (sym e) (validate-IsAccepted q p ep, try_map-IsAccepted qs rest er)

Calm-bind :
    {A B : Type 0} (r : Result Stop A) (next : A → Result Stop B)
    → Calm r
    → ((a : A) → Calm (next a))
    → Calm (r >>= next)
Calm-bind (ok a) next c h = h a
Calm-bind (err panicked) next c h = absurd c
Calm-bind (err (failed e)) next c h = tt

Calm-try_map :
    {A B : Type 0} (f : A → Result Stop B) (xs : List A)
    → ((a : A) → Calm (f a))
    → Calm (try_map f xs)
unfolding try_map
Calm-try_map f [] h = tt
Calm-try_map f (x ∷ xs) h =
    Calm-bind (f x) _ (h x) (λ y. Calm-bind (try_map f xs) _ (Calm-try_map f xs h) (λ ys. tt))

Calm-ok_or : {A : Type 0} (o : Option A) (e : OsqueryError) → Calm (ok_or o (failed e))
Calm-ok_or none e = tt
Calm-ok_or (some a) e = tt

module _ (J F : Type 0) ⦃json : Json J⦄ ⦃fl : Float F⦄ ⦃utf8 : Utf8⦄ where
  Calm-row :
      (now : ℕ) (q : QueryConfig) (row : J)
      → IsAccepted q
      → Calm (measurement_from_row {F = F} now q row)
  unfolding measurement_from_row
  Calm-row now q row (a, ea, (k, ek), (u, eu)) =
      Calm-bind (ok_or (json.as_object row) (failed error)) _
        (Calm-ok_or (json.as_object row) error)
        (λ obj.
          let (w, ew) =
            try_from_str_total q.measurement_type 0 (row_fields q.measurement obj [] 0).1 u eu in
          rw ea (rw ek (rw ew tt)))

  Calm-read_rows :
      (now : ℕ) (q : QueryConfig) (text : Text)
      → IsAccepted q
      → Calm (read_rows J {F = F} now q text)
  unfolding read_rows measurements_from_rows
  Calm-read_rows now q text accepted =
      Calm-bind (ok_or (json.from_slice text) (failed json_error)) _
        (Calm-ok_or (json.from_slice text) json_error)
        (λ rows.
          Calm-bind (ok_or (json.as_array rows) (failed error)) _
            (Calm-ok_or (json.as_array rows) error)
            (λ items.
              Calm-try_map (measurement_from_row now q) items (λ row. Calm-row now q row accepted)))

  Calm-process_lines :
      (now : ℕ) (q : QueryConfig) (accum : Text) (ls : List (List ℕ))
      → IsAccepted q
      → Calm (process_lines J {F = F} now q accum ls)
  unfolding process_lines
  Calm-process_lines now q accum [] accepted = tt
  Calm-process_lines now q accum (bytes ∷ rest) accepted =
      Calm-bind (ok_or (utf8.from_utf8 bytes) (failed io_error)) _
        (Calm-ok_or (utf8.from_utf8 bytes) io_error)
        (λ line. elim (Bool-cases (closes line)) [
          | inl e ↦ rw e (
              Calm-bind (read_rows J now q (accum ++ line)) _
                (Calm-read_rows now q (accum ++ line) accepted)
                (λ ms.
                  Calm-bind (process_lines J now q [] rest) _
                    (Calm-process_lines now q [] rest accepted) (λ later. tt)))
          | inr e ↦ rw e (Calm-process_lines now q (accum ++ line) rest accepted)
        ])

  Calm-each :
      (c : OsqueryConfig) (now : ℕ) (data_bytes : List ℕ) (qs : List QueryConfig)
      → All IsAccepted qs
      → All (λ q. Calm (process_query_result J {F = F} now (propagate_defaults q c) data_bytes)) qs
  Calm-each c now data_bytes [] h = tt
  Calm-each c now data_bytes (q ∷ qs) h = (
    unfold process_query_result propagate_defaults in Calm-process_lines now _ [] _ h.0,
    Calm-each c now data_bytes qs h.1,
  )

  -- Whatever osqueryi prints for a query of a configuration that `with_config` accepts, it is read
  -- into measurements or refused with an error: the `unwrap`s do not panic.
  pub accepted-Calm :
      (conf c : OsqueryConfig) (now : ℕ) (data_bytes : List ℕ)
      → with_config conf ≡ ok c
      → All
          (λ q. Calm (process_query_result J {F = F} now (propagate_defaults q c) data_bytes))
          c.queries
  unfolding with_config
  accepted-Calm conf c now data_bytes h =
      let (qs, e, done) = bind_inv (try_map validate conf.queries) _ h in
      let same : record conf { queries = qs } ≡ c = cc in
      subst
        (λ (d : OsqueryConfig).
          All (λ q. Calm (process_query_result J {F = F} now (propagate_defaults q d) data_bytes))
            d.queries)
        same (Calm-each _ now data_bytes qs (try_map-IsAccepted conf.queries qs e))
