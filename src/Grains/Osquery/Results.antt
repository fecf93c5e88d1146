-- ===== src/Grains/Osquery/Results.antt =====
-- What a row of osqueryi is read as, and its command line: src/grains/osquery.rs.
use ingraind.Prelude.{
  bind_inv, ℕ, ◌≡◌, ◌≢◌, refl, ap, sym, ◌∙◌, Text, Option, none, some, List, [], ◌∷◌, ◌++◌, map,
  arith, ok, All, append_assoc, append-nil, ◌⊎◌, ◌↔◌, inl, inr, text_beq_iff, text_equality, chars,
}
use ingraind.Prelude.Maps.{or_default}
use ingraind.Prelude.Number.{parse_u64}
use ingraind.Metrics.TagList
use ingraind.Metrics.TagList.{Tags}
use ingraind.Grains.Osquery.{Osqueryi, to_args, config_args, query_args}
use ingraind.Grains.Osquery.Rows.{Json, row_fields, measured, tag_value}

module _ {J : Type 0} ⦃json : Json J⦄ where
  -- no field of the key
  abbrev pub NotKey : Text → Text × J → Type 0
  NotKey name p = p.0 ≢ name

  abbrev pub as_tags : List (Text × J) → Tags
  as_tags = map (λ p. (p.0, tag_value p.1))

  measured-other : (name k : Text) (v : J) → k ≢ name → measured name k v ≡ none
  unfolding measured
  measured-other name k v h = ground (arith, text_beq_iff k name)

  measured_self :
      (name s : Text) (v : J)
      → json.as_str v ≡ some s
      → measured name name v ≡ some (or_default (parse_u64 s) 0)
  unfolding measured
  measured_self name s v e = rw e (ground (arith, (text_beq_iff name name).1 refl))

  row_fields-tag :
      (name k : Text) (v : J) (fields : List (Text × J)) (tags : Tags) (n : ℕ)
      → measured name k v ≡ none
      → row_fields name ((k, v) ∷ fields) tags n
        ≡ row_fields name fields (tags ++ (k, tag_value v) ∷ []) n
  unfolding row_fields TagList.insert
  row_fields-tag name k v fields tags n e = rw (e, row_fields) refl

  row_fields-measured :
      (name k : Text) (v : J) (fields : List (Text × J)) (tags : Tags) (n m : ℕ)
      → measured name k v ≡ some m
      → row_fields name ((k, v) ∷ fields) tags n ≡ row_fields name fields tags m
  unfolding row_fields
  row_fields-measured name k v fields tags n m e = rw (e, row_fields) refl

  row_fields-others :
      (name : Text) (fields : List (Text × J)) (tags : Tags) (n : ℕ)
      → All (NotKey name) fields
      → row_fields name fields tags n ≡ (tags ++ as_tags fields, n)
  unfolding row_fields
  row_fields-others name [] tags n h = ap (λ t. (t, n)) (sym (append-nil tags))
  row_fields-others name ((k, v) ∷ fields) tags n h =
      row_fields-tag name k v fields tags n (measured-other name k v h.0)
      ∙ row_fields-others name fields _ n h.1
      ∙ ap (λ t. (t, n)) (append_assoc tags ((k, tag_value v) ∷ []) (as_tags fields))

  row_fields-append :
      (name : Text) (before after : List (Text × J)) (tags : Tags) (n : ℕ)
      → All (NotKey name) before
      → row_fields name (before ++ after) tags n ≡ row_fields name after (tags ++ as_tags before) n
  unfolding row_fields
  row_fields-append name [] after tags n h =
      ap (λ t. row_fields name after t n) (sym (append-nil tags))
  row_fields-append name ((k, v) ∷ before) after tags n h =
      row_fields-tag name k v (before ++ after) tags n (measured-other name k v h.0)
      ∙ row_fields-append name before after _ n h.1
      ∙ ap (λ t. row_fields name after t n)
          (append_assoc tags ((k, tag_value v) ∷ []) (as_tags before))

  -- Of a row in which one field has the key of the measurement, that field is a string: the value
  -- measured is the number it writes, 0 if it is no `u64`, and the other fields are the tags, in
  -- their order.
  pub row_fields_lem :
      (name s : Text) (v : J) (before after : List (Text × J))
      → All (NotKey name) before
      → All (NotKey name) after
      → json.as_str v ≡ some s
      → row_fields name (before ++ (name, v) ∷ after) [] 0
        ≡ (as_tags before ++ as_tags after, or_default (parse_u64 s) 0)
  row_fields_lem name s v before after hb ha e =
      row_fields-append name before _ [] 0 hb
      ∙ row_fields-measured name name v after (as_tags before) 0 _ (measured_self name s v e)
      ∙ (row_fields-others name after (as_tags before) (or_default (parse_u64 s) 0) ha)

-- what the command line ends with: the query, or the pack behind its flag, but not both
abbrev pub Ends : Option Text → Option Text → List Text → Type 0
Ends query pack last =
    ((q : Text) × (query ≡ some q) × (pack ≡ none) × (last ≡ q ∷ []))
    ⊎ ((p : Text) × (query ≡ none) × (pack ≡ some p) × (last ≡ chars "--pack" ∷ p ∷ []))

query_args_iff :
    (query pack : Option Text) (last : List Text)
    → (query_args query pack ≡ ok last) ↔ Ends query pack last
query_args_iff none none last = (
  λ h. absurd (ground arith),
  λ h. elim h [
    | inl (q, a, b, c) ↦ absurd (ground arith)
    | inr (p, a, b, c) ↦ absurd (ground arith)
  ],
)
query_args_iff none (some p) last = (
  λ h. inr (p, refl, refl, (cc)),
  λ h. elim h [
    | inl (q, a, b, c) ↦ absurd (ground arith)
    | inr (r, a, b, c) ↦ (let same : p ≡ r = cc in rw same (cc))
  ],
)
query_args_iff (some q) none last = (
  λ h. inl (q, refl, refl, (cc)),
  λ h. elim h [
    | inl (r, a, b, c) ↦ (let same : q ≡ r = cc in rw same (cc))
    | inr (p, a, b, c) ↦ absurd (ground arith)
  ],
)
query_args_iff (some q) (some p) last = (
  λ h. absurd (ground arith),
  λ h. elim h [
    | inl (r, a, b, c) ↦ absurd (ground arith)
    | inr (r, a, b, c) ↦ absurd (ground arith)
  ],
)

-- There is a command line exactly if the query or the pack is given and not the other, and then it
-- is the arguments of the configuration, the flag for JSON, the path of the configuration behind
-- its flag if there is one, and at the end the query, or the pack behind its flag.
pub to_args_iff :
    (o : Osqueryi) (args : List Text)
    → (to_args o ≡ ok args) ↔ (
        (last : List Text) × Ends o.query o.pack last
        × (args ≡ ((o.args ++ chars "--json" ∷ []) ++ config_args o.config_path) ++ last))
unfolding to_args
to_args_iff o args = (
  λ h.
      let (last, e, done) = bind_inv (query_args o.query o.pack) _ h in
      (last, (query_args_iff o.query o.pack last).0 e, (cc)),
  λ (last, e, same). rw ((query_args_iff o.query o.pack last).1 e) (rw same refl),
)
