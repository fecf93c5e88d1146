-- ===== src/Grains/Statsd/Grammar.antt =====
-- The language of src/grains/statsd.rs, stated without the parser: what a line is made of and
-- how it is written. `parse_metric` reads every such line.
use ingraind.Prelude.{
  ℕ, ◌≡◌, ◌≢◌, refl, Text, Option, none, some, List, [], ◌∷◌, ◌++◌, map, nat_equality,
  text_equality, Result, ok, ◌>>=◌, ok_or, split_once, split, join_with, Lacks, All, ◌∙◌,
  split_once-append, split-join_with, All-append, Option-cases, inl, inr,
}
use ingraind.Float.{Float}
use ingraind.Metrics.TagList
use ingraind.Metrics.TagList.{Tags}
use ingraind.Grains.Statsd.{
  Metric, MetricError, parse_metric, parse_parts, parse_part, parse_tag, parse_value, parse_fields,
  nonempty,
}

-- what stands behind the type: `@rate` or `#key:value`
pub data Part : Type 0 where
  rate : Text → Part
  tag : Text → Text → Part

-- The value is not empty: its first character stands by itself.
pub record Line : Type 0 where
  pub key : Text
  pub first : ℕ
  pub more : Text
  pub type : Text
  pub parts : List Part

unfoldable pub write_part : Part → Text
write_part (rate t) = b'@' ∷ t
write_part (tag k v) = b'#' ∷ (k ++ b':' ∷ v)

unfoldable pub write : Line → Text
unfolding write_part
write l = l.key ++ b':' ∷ join_with (b'|' ∷ []) (l.first ∷ l.more) (l.type ∷ map write_part l.parts)

abbrev pub PartFits : Part → Type 0
PartFits (rate t) = Lacks b'|' t
PartFits (tag k v) = (k ≢ []) × (v ≢ []) × Lacks b':' k × Lacks b'|' k × Lacks b'|' v

pub record IsLine (l : Line) : Type 0 where
  pub key : Lacks b':' l.key
  pub value : Lacks b'|' (l.first ∷ l.more)
  pub type : Lacks b'|' l.type
  pub type_ne_nil : l.type ≢ []
  pub parts : All PartFits l.parts

pub parse_tag_lem :
    (k v : Text) (tags : Tags)
    → PartFits (tag k v)
    → parse_tag (k ++ b':' ∷ v) tags ≡ ok (TagList.insert k v tags)
unfolding parse_tag nonempty
parse_tag_lem [] v tags h = absurd (h.0 refl)
parse_tag_lem (c ∷ k) [] tags h = absurd (h.1 refl)
parse_tag_lem (c ∷ k) (d ∷ v) tags h = rw (split_once-append b':' (c ∷ k) (d ∷ v) h.2)

write_part-Lacks : (p : Part) → PartFits p → Lacks b'|' (write_part p)
unfolding write_part
write_part-Lacks (rate t) h = (refl, h)
write_part-Lacks (tag k v) h = (refl, All-append _ k (b':' ∷ v) h.3 (refl, h.4))

write_parts-Lacks : (ps : List Part) → All PartFits ps → All (Lacks b'|') (map write_part ps)
write_parts-Lacks [] h = tt
write_parts-Lacks (p ∷ ps) h = (write_part-Lacks p h.0, write_parts-Lacks ps h.1)

module _ {F : Type 0} ⦃fl : Float F⦄ where
  -- what the parts stand for: the last rate, and the tags in order
  abbrev pub meaning : List Part → Option F × Tags → Result MetricError (Option F × Tags)
  meaning [] acc = ok acc
  meaning (rate t ∷ ps) acc =
      ok_or (fl.parse t) MetricError.sample_rate_error >>= λ r. meaning ps (some r, acc.1)
  meaning (tag k v ∷ ps) acc = meaning ps (acc.0, TagList.insert k v acc.1)

  -- the metric of a line
  abbrev pub metric_of : Line → Result MetricError (Metric F)
  metric_of l = meaning l.parts (none, TagList.new) >>= λ acc.
      parse_value l.type l.first l.more >>= λ v.
      ok (record { key = l.key; value = v; sample_rate = acc.0; tags = acc.1 })

  pub parse_parts_lem :
      (ps : List Part) (acc : Option F × Tags)
      → All PartFits ps
      → parse_parts (map write_part ps) acc ≡ meaning ps acc
  unfolding parse_parts parse_part write_part
  parse_parts_lem [] acc h = refl
  parse_parts_lem (rate t ∷ ps) (r, tags) h = elim (Option-cases (fl.parse t)) [
    | inl e ↦ rw e
    | inr (x, e) ↦ rw e (parse_parts_lem ps (some x, tags) h.1)
  ]
  parse_parts_lem (tag k v ∷ ps) (r, tags) h =
      rw (parse_tag_lem k v tags h.0) (parse_parts_lem ps (r, TagList.insert k v tags) h.1)

  -- how the parser goes on behind the key, and behind the type
  unfoldable pub read_value : Text → Text → Result MetricError (Metric F)
  read_value key value = parse_fields key (split b'|' value).0 (split b'|' value).1

  pub parse_metric_split :
      (s : Text)
      → parse_metric s
        ≡ (ok_or (split_once b':' s).1 MetricError.error >>= read_value (split_once b':' s).0)
  unfolding parse_metric read_value
  parse_metric_split s = refl

  pub parse_fields_parts :
      (key : Text) (c : ℕ) (more type : Text) (rest : List Text)
      → type ≢ []
      → parse_fields {F = F} key (c ∷ more) (type ∷ rest) ≡ (
          parse_parts rest (none, TagList.new) >>= λ acc. parse_value type c more >>= λ v.
          ok (record { key = key; value = v; sample_rate = acc.0; tags = acc.1 }))
  unfolding parse_fields nonempty
  parse_fields_parts key c more [] rest ne = absurd (ne refl)
  parse_fields_parts key c more (t ∷ type) rest ne = refl

  read_value-write :
      (l : Line)
      → IsLine l
      → read_value l.key
          (join_with (b'|' ∷ []) (l.first ∷ l.more) (l.type ∷ map write_part l.parts))
        ≡ metric_of l
  unfolding read_value
  read_value-write l h =
      rw
        (split-join_with b'|' (l.first ∷ l.more) (l.type ∷ map write_part l.parts) h.value
          (h.type, write_parts-Lacks l.parts h.parts))
        (parse_fields_parts l.key l.first l.more l.type (map write_part l.parts) h.type_ne_nil
          ∙ rw (parse_parts_lem l.parts (none, TagList.new) h.parts))

  -- A line of the language is read as its metric, or is refused for the first of its rates or for
  -- its value; a rate comes before the value.
  pub parse_metric-write : (l : Line) → IsLine l → parse_metric (write l) ≡ metric_of l
  unfolding write
  parse_metric-write l h =
      parse_metric_split (write l)
      ∙ rw (split_once-append b':' l.key _ h.key) (read_value-write l h)
