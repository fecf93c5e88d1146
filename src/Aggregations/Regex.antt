-- ===== src/Aggregations/Regex.antt =====
-- src/aggregations/regex.rs: the values of the tags with a rule are replaced where they match.
use ingraind.Prelude.{
  ◌≡◌, refl, Bool, Text, Option, none, some, List, [], ◌∷◌, map, arith, if◌then◌else◌,
  text_equality, text_beq_iff, ap, map_fuse, Run, ok, ◌>>=◌, unwrap, try_map,
}
use ingraind.Prelude.Maps.{Map, lookup, from_pairs}
use ingraind.Backends.{Message, for_each, measurements, map-for_each, for_each-for_each}
use ingraind.Metrics.{Measurement}
use ingraind.Metrics.TagList.{Tags, get}

-- the crate `regex`: `Regex::new` and `is_match`
pub record Matcher (R : Type 0) : Type 0 where
  pub compile : Text → Option R
  pub is_match : R → Text → Bool

pub record RegexPattern : Type 0 where
  pub regex : Text
  pub replace_with : Text
  pub key : Text

abbrev pub Rules : Type 0 → Type 0
Rules R = Map Text (R × Text)

module _ {R : Type 0} ⦃re : Matcher R⦄ where
  unfoldable pub compile_pattern : RegexPattern → Run (Text × (R × Text))
  compile_pattern p = unwrap (re.compile p.regex) >>= λ r. ok (p.key, (r, p.replace_with))

  -- a pattern that does not compile panics; of two patterns for a key the later one counts
  unfoldable pub launch : List RegexPattern → Run (Rules R)
  unfolding compile_pattern
  launch patterns = try_map compile_pattern patterns >>= λ pairs. ok (from_pairs pairs)

  -- the value of a tag under the rule for its key
  unfoldable pub rewrite : Option (R × Text) → Text → Text
  rewrite none value = value
  rewrite (some (regex, replace)) value = if re.is_match regex value then replace else value

  unfoldable pub filter_tag : Rules R → Text × Text → Text × Text
  unfolding rewrite
  filter_tag rules (key, value) = (key, rewrite (lookup key rules) value)

  unfoldable pub filter_tags : {F : Type 0} → Rules R → Measurement F → Measurement F
  filter_tags rules msg = record msg { tags = map (filter_tag rules) msg.tags }

  unfoldable pub handle : {F : Type 0} → Rules R → Message F → Message F
  handle rules msg = for_each (filter_tags rules) msg

  -- what the rule for a key makes of the value that is found under it
  abbrev pub rewritten : Rules R → Text → Option Text → Option Text
  rewritten rules k none = none
  rewritten rules k (some v) = some (rewrite (lookup k rules) v)

  get-filter_tag :
      (rules : Rules R) (k : Text) (tags : Tags)
      → get k (map (filter_tag rules) tags) ≡ rewritten rules k (get k tags)
  unfolding get filter_tag
  get-filter_tag rules k [] = refl
  get-filter_tag rules k ((j, v) ∷ tags) =
      ground (arith, text_beq_iff j k, get-filter_tag rules k tags)

  pub get-filter_tags :
      {F : Type 0} (rules : Rules R) (k : Text) (m : Measurement F)
      → get k (filter_tags rules m).tags ≡ rewritten rules k (get k m.tags)
  unfolding filter_tags
  get-filter_tags rules k m = get-filter_tag rules k m.tags

  rewrite_again :
      (rule : Option (R × Text)) (v : Text) → rewrite rule (rewrite rule v) ≡ rewrite rule v
  unfolding rewrite
  rewrite_again none v = refl
  rewrite_again (some (regex, replace)) v = ground arith

  filter_tag_again :
      (rules : Rules R) (p : Text × Text)
      → filter_tag rules (filter_tag rules p) ≡ filter_tag rules p
  unfolding filter_tag
  filter_tag_again rules (j, v) = ap (λ w. (j, w)) (rewrite_again (lookup j rules) v)

  filter_tags_again :
      {F : Type 0} (rules : Rules R) (m : Measurement F)
      → filter_tags rules (filter_tags rules m) ≡ filter_tags rules m
  unfolding filter_tags
  filter_tags_again rules m =
      ap (λ (tags : Tags). record m { tags = tags })
        (map_fuse (filter_tag rules) (filter_tag rules) (filter_tag rules) (filter_tag_again rules)
          m.tags)

  -- Of every measurement that goes through, in its place, each key keeps its tags, and the value
  -- found under it is the replacement of the rule for the key if it matches that rule, and else as
  -- it was; a second pass with the same rules changes nothing.
  pub regex_tags :
      {F : Type 0} (rules : Rules R) (msg : Message F) (k : Text)
      → (map (λ m. get k m.tags) (measurements (handle rules msg))
          ≡ map (λ m. rewritten rules k (get k m.tags)) (measurements msg))
        × (handle rules (handle rules msg) ≡ handle rules msg)
  unfolding handle
  regex_tags rules msg k = (
    map-for_each (λ m. get k m.tags) (filter_tags rules) (λ m. rewritten rules k (get k m.tags))
        (get-filter_tags rules k) msg,
    for_each-for_each (filter_tags rules) (filter_tags rules) (filter_tags_again rules) msg,
  )
