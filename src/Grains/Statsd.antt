-- ===== src/Grains/Statsd.antt =====
-- src/grains/statsd.rs: the statsd protocol and the grain that listens to it.
pub mod Grammar
pub mod Sound
pub mod Delivery
pub mod Served
pub mod Values
use ingraind.Prelude.{
  ℕ, ◌≡◌, Bool, true, false, not, ◌||◌, Text, Option, none, some, List, [], ◌∷◌, map, if◌then◌else◌,
  ◌==◌, nat_equality, text_equality, Result, ok, err, ◌>>=◌, ok_or, try_map, chars, split_once,
  split, lines, is_empty, length,
}
use ingraind.Prelude.Number.{parse_u64}
use ingraind.Float.{Float}
use ingraind.Backends.{Message, single, list}
use ingraind.Metrics
use ingraind.Metrics.{Measurement}
use ingraind.Metrics.Kind
use ingraind.Metrics.TagList
use ingraind.Metrics.TagList.{Tags}
use ingraind.Metrics.Units.{MeasureUnit}

pub data MetricValue (F : Type 0) : Type 0 where
  counter : F → MetricValue F
  timing : F → MetricValue F
  gauge : F → Bool → MetricValue F
  set : Text → MetricValue F
  histogram : ℕ → MetricValue F

pub record Metric (F : Type 0) : Type 0 where
  pub key : Text
  pub value : MetricValue F
  pub sample_rate : Option F
  pub tags : Tags

pub data MetricError : Type 0 where
  error value_error type_error sample_rate_error tag_error : MetricError

-- `filter(|v| !v.is_empty()).ok_or(e)`: the first character and the rest, of which the text is made
unfoldable pub nonempty : MetricError → Text → Result MetricError (ℕ × Text)
nonempty e [] = err e
nonempty e (c ∷ s) = ok (c, s)

-- the part behind `#`, put into the tags
unfoldable pub parse_tag : Text → Tags → Result MetricError Tags
parse_tag part tags =
    let parts = split_once b':' part in
    nonempty tag_error parts.0 >>= λ key. ok_or parts.1 tag_error >>= λ rest.
    nonempty tag_error rest >>= λ value.
    ok (TagList.insert (key.0 ∷ key.1) (value.0 ∷ value.1) tags)

module _ {F : Type 0} ⦃fl : Float F⦄ where
  -- one round of the loop over the parts behind the type
  unfoldable pub parse_part : Text → Option F × Tags → Result MetricError (Option F × Tags)
  parse_part [] (rate, tags) = err error
  parse_part (c ∷ part) (rate, tags) =
      if c == b'@'
      then (ok_or (fl.parse part) sample_rate_error >>= λ r. ok (some r, tags))
      else if c == b'#'
      then (parse_tag part tags >>= λ tags'. ok (rate, tags'))
      else err error

  unfoldable pub parse_parts : List Text → Option F × Tags → Result MetricError (Option F × Tags)
  parse_parts [] acc = ok acc
  parse_parts (part ∷ rest) acc = parse_part part acc >>= λ acc'. parse_parts rest acc'

  -- The value `first ∷ more` is not empty, so `value.chars().nth(0).unwrap()` does not panic.
  unfoldable pub parse_value : Text → ℕ → Text → Result MetricError (MetricValue F)
  parse_value ty first more =
      if ty == chars "c"
      then (ok_or (fl.parse (first ∷ more)) value_error >>= λ v. ok (counter v))
      else if ty == chars "g"
      then (ok_or (fl.parse (first ∷ more)) value_error >>= λ v.
          ok (gauge v (not (first == b'+' || first == b'-'))))
      else if ty == chars "ms"
      then (ok_or (fl.parse (first ∷ more)) value_error >>= λ v. ok (timing v))
      else if ty == chars "s"
      then ok (set (first ∷ more))
      else if ty == chars "h"
      then (ok_or (parse_u64 (first ∷ more)) value_error >>= λ v. ok (histogram v))
      else err type_error

  -- the fields behind the key, split at `|`
  unfoldable pub parse_fields : Text → Text → List Text → Result MetricError (Metric F)
  parse_fields key value [] = nonempty value_error value >>= λ _. err type_error
  parse_fields key value (ty ∷ rest) = nonempty value_error value >>= λ v.
      nonempty type_error ty >>= λ t. parse_parts rest (none, TagList.new) >>= λ acc.
      parse_value (t.0 ∷ t.1) v.0 v.1 >>= λ mv.
      ok (record { key = key; value = mv; sample_rate = acc.0; tags = acc.1 })

  unfoldable pub parse_metric : Text → Result MetricError (Metric F)
  parse_metric input =
      let parts = split_once b':' input in
      ok_or parts.1 error >>= λ value.
      parse_fields parts.0 (split b'|' value).0 (split b'|' value).1

  unfoldable pub parse_metrics : Text → Result MetricError (List (Metric F))
  parse_metrics input = try_map parse_metric (lines input)
