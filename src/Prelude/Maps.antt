-- ===== src/Prelude/Maps.antt =====
-- `HashMap` as an association list: what the table holds, in the order of the first insertions.
-- The order stands for the unspecified order of the real table; each key is held once.
use mathlib.Core.Path.{◌≡◌, refl, sym, ap, ◌∙◌}
use mathlib.Core.Logic.{◌⊎◌, inl, inr}
use mathlib.Core.Bool.{true, false}
use mathlib.Core.Option.{Option, none, some}
use mathlib.Core.List.{List, [], ◌∷◌, foldl}
use native.Mathlib.Omega.{arith}
use ingraind.Prelude.Tests.{if◌then◌else◌, Equality, ◌==◌, ==_refl, Bool-cases}
use ingraind.Prelude.Lists.{All, Among}

abbrev pub Map : Type 0 → Type 0 → Type 0
Map K V = List (K × V)

-- `unwrap_or`
abbrev pub or_default : {V : Type 0} → Option V → V → V
or_default (some v) d = v
or_default none d = d

module _ {K V : Type 0} ⦃e : Equality K⦄ where
  -- `HashMap::get`
  unfoldable pub lookup : K → Map K V → Option V
  lookup key ((held, value) ∷ table) = if held == key then some value else lookup key table
  lookup key [] = none

  -- `HashMap::insert`; the key that is there stays
  unfoldable pub insert : K → V → Map K V → Map K V
  insert key new ((held, value) ∷ table) =
      if held == key then (held, new) ∷ table else (held, value) ∷ insert key new table
  insert key new [] = (key, new) ∷ []

  -- `*map.entry(k).or_insert_with(|| d)` changed by `f`
  unfoldable pub entry : K → V → (V → V) → Map K V → Map K V
  entry k d f [] = (k, f d) ∷ []
  entry k d f ((j, v) ∷ m) = if j == k then (j, f v) ∷ m else (j, v) ∷ entry k d f m

  -- `pairs.into_iter().collect()`: a later pair replaces an earlier one with its key
  unfoldable pub from_pairs : List (K × V) → Map K V
  from_pairs = foldl (λ m p. insert p.0 p.1 m) []

  pub lookup-insert :
      (key j : K) (new : V) (table : Map K V)
      → lookup j (insert key new table) ≡ (if key == j then some new else lookup j table)
  unfolding lookup insert
  lookup-insert key j new ((held, value) ∷ table) = ground (
    arith,
    lookup-insert key j new table,
    e.same_iff held key,
    e.same_iff key j,
    e.same_iff held j,
  )
  lookup-insert key j new [] = refl

  pub lookup-insert_self :
      (key : K) (new : V) (table : Map K V) → lookup key (insert key new table) ≡ some new
  lookup-insert_self key new table =
      lookup-insert key key new table
      ∙ ap (λ b. if b then some new else lookup key table) (==_refl key)

  pub lookup-insert_other :
      (key j : K) (new : V) (table : Map K V)
      → ¬ (key ≡ j)
      → lookup j (insert key new table) ≡ lookup j table
  lookup-insert_other key j new table other =
      ground (arith, lookup-insert key j new table, e.same_iff key j)

  pub lookup-entry :
      (k j : K) (d : V) (f : V → V) (m : Map K V)
      → lookup j (entry k d f m)
        ≡ (if k == j then some (f (or_default (lookup k m) d)) else lookup j m)
  unfolding lookup entry
  lookup-entry k j d f [] = refl
  lookup-entry k j d f ((i, w) ∷ m) =
      ground (arith, e.same_iff k j, e.same_iff i k, e.same_iff i j, lookup-entry k j d f m)

  -- what holds of the new value and of the old ones holds of all
  pub All-entry :
      (P : V → Type 0) (k : K) (d : V) (f : V → V) (m : Map K V)
      → P d
      → ((v : V) → P v → P (f v))
      → All (λ p. P p.1) m
      → All (λ p. P p.1) (entry k d f m)
  unfolding entry
  All-entry P k d f [] hd hf h = (hf d hd, tt)
  All-entry P k d f ((j, v) ∷ m) hd hf h = ground (arith, hf v h.0, All-entry P k d f m hd hf h.1)

  inserted :
      (key k : K) (v : V) (table : Map K V) (pairs : List (K × V)) {value : V}
      → lookup key (insert k v table) ≡ some value
      → (k == key ≡ true) ⊎ (k == key ≡ false)
      → Among (key, value) ((k, v) ∷ pairs) ⊎ (lookup key table ≡ some value)
  inserted key k v table pairs {value} here (inl same) =
      let at : k ≡ key = (e.same_iff k key).0 same in
      let value_is : some v ≡ some value =
        sym (lookup-insert k key v table ∙ ap (λ b. if b then some v else lookup key table) same)
        ∙ here in
      inl (inl cc)
  inserted key k v table pairs here (inr other) = inr (
      sym (lookup-insert k key v table ∙ ap (λ b. if b then some v else lookup key table) other)
      ∙ here)

  after_insert :
      (key k : K) (v : V) (table : Map K V) (pairs : List (K × V))
      → (k == key ≡ true) ⊎ (k == key ≡ false)
      → ((w : V) × Among (key, w) ((k, v) ∷ pairs)) ⊎ ((w : V) × (lookup key table ≡ some w))
      → ((w : V) × Among (key, w) pairs) ⊎ ((w : V) × (lookup key (insert k v table) ≡ some w))
  after_insert key k v table pairs (inl same) h =
      inr (v, lookup-insert k key v table ∙ ap (λ b. if b then some v else lookup key table) same)
  after_insert key k v table pairs (inr other) (inl (w, inl here)) =
      let same : k == key ≡ true = (e.same_iff k key).1 (ap (λ p. p.0) here) in absurd cc
  after_insert key k v table pairs (inr other) (inl (w, inr among)) = inl (w, among)
  after_insert key k v table pairs (inr other) (inr (w, held)) = inr (
    w,
    lookup-insert k key v table ∙ ap (λ b. if b then some v else lookup key table) other ∙ held,
  )

  -- what is found in a table made of pairs is one of them
  lookup-inserts :
      (key : K) (pairs : List (K × V)) (table : Map K V) {value : V}
      → lookup key (foldl (λ m p. insert p.0 p.1 m) table pairs) ≡ some value
      → Among (key, value) pairs ⊎ (lookup key table ≡ some value)
  lookup-inserts key [] table found = inr found
  lookup-inserts key ((k, v) ∷ pairs) table found =
      elim (lookup-inserts key pairs (insert k v table) found) [
        | inl among ↦ inl (inr among)
        | inr here ↦ inserted key k v table pairs here (Bool-cases (k == key))
      ]

  pub lookup-from_pairs :
      (key : K) (pairs : List (K × V)) {value : V}
      → lookup key (from_pairs pairs) ≡ some value
      → Among (key, value) pairs
  unfolding from_pairs
  lookup-from_pairs key pairs found = elim (lookup-inserts key pairs [] found) [
    | inl among ↦ among
    | inr nothing ↦ absurd (unfold lookup in cc)
  ]

  -- a key of one of the pairs is found
  found-inserts :
      (key : K) (pairs : List (K × V)) (table : Map K V)
      → ((v : V) × Among (key, v) pairs) ⊎ ((v : V) × (lookup key table ≡ some v))
      → (v : V) × (lookup key (foldl (λ m p. insert p.0 p.1 m) table pairs) ≡ some v)
  found-inserts key [] table (inl (v, among)) = absurd among
  found-inserts key [] table (inr found) = found
  found-inserts key ((k, w) ∷ pairs) table where_it_is =
      found-inserts key pairs (insert k w table)
        (after_insert key k w table pairs (Bool-cases (k == key)) where_it_is)

  pub found-from_pairs :
      (key : K) (pairs : List (K × V))
      → (v : V) × Among (key, v) pairs
      → (v : V) × (lookup key (from_pairs pairs) ≡ some v)
  unfolding from_pairs
  found-from_pairs key pairs there = found-inserts key pairs [] (inl there)
