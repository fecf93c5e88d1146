-- ===== src/Aggregations/Exec.antt =====
-- src/aggregations/exec.rs: a command is run for the measurements that match the conditions. A run
-- of the handler gives the commands that it spawns; that a spawn fails (`expect`) is not modelled.
pub mod Spawned
use ingraind.Prelude.{
  All, ◌↔◌, ◌⊎◌, ◌≢◌, ◌∙◌, ℕ, ◌≡◌, refl, Bool, true, ◌&&◌, not, Text, Option, none, some, List, [],
  ◌∷◌, ◌++◌, map, arith, if◌then◌else◌, ◌==◌, nat_equality, text_equality, ap, Run, ok, err, panic,
  ◌>>=◌, unwrap, try_map, Bool-cases, inl, inr,
}
use ingraind.Prelude.Maps.{Map, lookup, from_pairs, or_default}
use ingraind.Prelude.Blanks.{trim}
use ingraind.Backends.{Message, measurements}
use ingraind.Metrics.TagList.{Tags, get}
use ingraind.Aggregations.Regex.{Matcher}

pub record ExecPattern : Type 0 where
  pub regex : Text
  pub key : Text

pub record ExecConfig : Type 0 where
  pub command : List Text
  pub only_if : Option (List ExecPattern)

abbrev pub Rules : Type 0 → Type 0
Rules R = Map Text R

-- the command and the rules of the actor
pub record Exec (R : Type 0) : Type 0 where
  pub command : List Text
  pub rules : Rules R

-- a command with its arguments
abbrev pub Spawn : Type 0
Spawn = Text × List Text

-- the loop of `get_tag`
unfoldable pub get_tag : Tags → Text → Option Text
get_tag [] tag = none
get_tag ((key, value) ∷ tags) tag = if key == tag then some value else get_tag tags tag

-- the text without its last character, and that character
unfoldable pub split_last : Text → Option (Text × ℕ)
split_last [] = none
split_last (c ∷ s) = elim (split_last s) [
  | none ↦ some ([], c)
  | some (init, last) ↦ some (c ∷ init, last)
]

-- what stands between `{` and `}`; the opening brace alone has no last character left
unfoldable pub placeholder : Text → Option Text
unfolding split_last
placeholder [] = none
placeholder (c ∷ s) =
    if c == b'{'
    then elim (split_last s) [
      | none ↦ none
      | some (inner, last) ↦ if last == b'}' then some inner else none
    ]
    else none

-- an argument of the command: the value of the tag that it names, or itself
unfoldable pub argument : Tags → Text → Text
unfolding placeholder
argument tags a = elim (placeholder a) [
  | none ↦ a
  | some inner ↦ elim (get_tag tags (trim inner)) [ none ↦ a | some t ↦ t ]
]

-- `nth(0).unwrap()` on the arguments: a command without a program panics
unfoldable pub command_line : List Text → Run Spawn
command_line [] = err panic
command_line (program ∷ args) = ok (program, args)

module _ {R : Type 0} ⦃re : Matcher R⦄ where
  unfoldable pub compile_pattern : ExecPattern → Run (Text × R)
  compile_pattern p = unwrap (re.compile p.regex) >>= λ r. ok (p.key, r)

  unfoldable pub launch : ExecConfig → Run (Exec R)
  unfolding compile_pattern
  launch config =
      let patterns : List ExecPattern = elim config.only_if [ none ↦ [] | some ps ↦ ps ] in
      try_map compile_pattern patterns >>= λ pairs.
      ok (record { command = config.command; rules = from_pairs pairs })

  -- whether no tag with a rule fails to match it
  unfoldable pub all_match : Rules R → Tags → Bool
  all_match rules [] = true
  all_match rules ((k, v) ∷ tags) =
      elim (lookup k rules) [ none ↦ true | some r ↦ re.is_match r v ] && all_match rules tags

  unfoldable pub run_command : Exec R → Tags → Run (Option Spawn)
  unfolding all_match argument command_line
  run_command exec tags =
      if not (all_match exec.rules tags)
      then ok none
      else (command_line (map (argument tags) exec.command) >>= λ c. ok (some c))

  -- The message goes on as it came; beside it, the commands that are run for its measurements.
  unfoldable pub handle : {F : Type 0} → Exec R → Message F → Run (List (Option Spawn) × Message F)
  unfolding run_command
  handle exec msg =
      try_map (λ m. run_command exec m.tags) (measurements msg) >>= λ spawned. ok (spawned, msg)

-- The two ways in which the program looks a tag up agree: the first tag with the key counts.
pub get_tag-get : (tags : Tags) (k : Text) → get_tag tags k ≡ get k tags
unfolding get_tag get
get_tag-get [] k = refl
get_tag-get ((j, v) ∷ tags) k = ground (arith, get_tag-get tags k)

split_last-append : (s : Text) (c : ℕ) → split_last (s ++ c ∷ []) ≡ some (s, c)
unfolding split_last
split_last-append [] c = refl
split_last-append (x ∷ s) c = rw (split_last-append s c) refl

pub placeholder_braced : (inner : Text) → placeholder (b'{' ∷ (inner ++ b'}' ∷ [])) ≡ some inner
unfolding placeholder
placeholder_braced inner = rw (split_last-append inner b'}') refl

pub argument_named :
    (tags : Tags) (a inner : Text)
    → placeholder a ≡ some inner
    → argument tags a ≡ or_default (get (trim inner) tags) a
unfolding argument
argument_named tags a inner e = rw (e, argument) (rw (get_tag-get tags (trim inner)) (ground arith))

-- An argument that stands in braces is replaced by the value of the first tag with the key between
-- them, blanks around the key aside, if there is such a tag; an argument without a brace in front is
-- passed as it is.
pub argument_placeholder :
    (tags : Tags) (inner a : Text) (c : ℕ)
    → c ≢ b'{'
    → (argument tags (b'{' ∷ (inner ++ b'}' ∷ []))
        ≡ or_default (get (trim inner) tags) (b'{' ∷ (inner ++ b'}' ∷ [])))
      × (argument tags (c ∷ a) ≡ c ∷ a)
unfolding argument placeholder
argument_placeholder tags inner a c other =
    (argument_named tags _ inner (placeholder_braced inner), ground arith)

both_iff : (a b : Bool) → (a && b ≡ true) ↔ ((a ≡ true) × (b ≡ true))
both_iff a b = ground arith

module _ {R : Type 0} ⦃re : Matcher R⦄ where
  -- the tag has no rule for its key, or it matches it
  abbrev pub Fits : Rules R → Text × Text → Type 0
  Fits rules p =
      (lookup p.0 rules ≡ none)
      ⊎ ((r : R) × (lookup p.0 rules ≡ some r) × (re.is_match r p.1 ≡ true))

  rule_iff :
      (o : Option R) (v : Text)
      → (elim o [ none ↦ true | some r ↦ re.is_match r v ] ≡ true)
        ↔ ((o ≡ none) ⊎ ((r : R) × (o ≡ some r) × (re.is_match r v ≡ true)))
  rule_iff none v = (λ h. inl refl, λ h. refl)
  rule_iff (some r) v = (
    λ h. inr (r, refl, h),
    λ h. elim h [
      | inl e ↦ absurd (ground arith)
      | inr (q, e, m) ↦ (let same : r ≡ q = cc in ap (λ x. re.is_match x v) same ∙ m)
    ],
  )

  pub all_match_iff :
      (rules : Rules R) (tags : Tags) → (all_match rules tags ≡ true) ↔ All (Fits rules) tags
  unfolding all_match
  all_match_iff rules [] = (λ h. tt, λ h. refl)
  all_match_iff rules ((k, v) ∷ tags) = (
    λ h.
        let (a, b) = (both_iff _ _).0 h in
        ((rule_iff (lookup k rules) v).0 a, (all_match_iff rules tags).0 b),
    λ h.
        (both_iff _ _).1
          ((rule_iff (lookup k rules) v).1 (h.0), (all_match_iff rules tags).1 (h.1)),
  )

  -- With a program to run, the command is run exactly for the measurements of which every tag
  -- matches the rule for its key if it has one, and it is run with every argument replaced; for the
  -- others nothing is run.
  pub run_command_runs :
      (exec : Exec R) (program : Text) (args : List Text) (tags : Tags)
      → exec.command ≡ program ∷ args
      → ((run_command exec tags ≡ ok (some (argument tags program, map (argument tags) args)))
          ↔ All (Fits exec.rules) tags)
        × ((run_command exec tags ≡ ok (some (argument tags program, map (argument tags) args)))
            ⊎ (run_command exec tags ≡ ok none))
  unfolding run_command command_line
  run_command_runs exec program args tags c = elim (Bool-cases (all_match exec.rules tags)) [
    | inl e ↦ rw e (rw c ((λ h. (all_match_iff exec.rules tags).0 e, λ h. refl), inl refl))
    | inr e ↦ rw e (
      (
        λ h. absurd (ground arith),
        λ h. absurd (let yes = (all_match_iff exec.rules tags).1 h in ground arith),
      ),
      inr refl,
    )
  ]
