-- ===== src/Grains/Statsd/Sound.antt =====
-- The converse of the grammar of src/grains/statsd.rs: what `parse_metric` accepts is a line.
use ingraind.Prelude.{
  ℕ, ◌≡◌, ◌≢◌, refl, Text, Option, none, some, List, [], ◌∷◌, ◌++◌, map, ◌==◌, nat_equality,
  text_equality, Result, ok, err, ◌>>=◌, ok_or, split_once, split, join_with, Lacks, All, ◌∙◌, ap,
  sym, ap₂, split_parts, split_once_parts, bind_inv, inl, inr, Bool-cases, nat_beq_iff,
}
use mathlib.Core.Path.{subst}
use ingraind.Float.{Float}
use ingraind.Metrics.TagList
use ingraind.Metrics.TagList.{Tags}
use ingraind.Grains.Statsd.{
  Metric, MetricError, parse_metric, parse_parts, parse_part, parse_tag, parse_fields, nonempty,
}
use ingraind.Grains.Statsd.Grammar.{
  Part, rate, tag, Line, write_part, write, PartFits, IsLine, metric_of, read_value,
  parse_metric_split, parse_metric-write,
}

ok_or-eq-ok : {E A : Type 0} (o : Option A) (e : E) (a : A) → ok_or o e ≡ ok a → o ≡ some a
ok_or-eq-ok none e a h = cc
ok_or-eq-ok (some b) e a h = cc

nonempty-ne-nil : (e : MetricError) (s : Text) (r : ℕ × Text) → nonempty e s ≡ ok r → s ≡ r.0 ∷ r.1
unfolding nonempty
nonempty-ne-nil e [] r h = cc
nonempty-ne-nil e (c ∷ s) r h = cc

Lacks-append_left : (c : ℕ) (a b : Text) → Lacks c (a ++ b) → Lacks c a
Lacks-append_left c [] b h = tt
Lacks-append_left c (x ∷ a) b h = (h.0, Lacks-append_left c a b h.1)

Lacks-append_right : (c : ℕ) (a b : Text) → Lacks c (a ++ b) → Lacks c b
Lacks-append_right c [] b h = h
Lacks-append_right c (x ∷ a) b h = Lacks-append_right c a b h.1

cons-ne-nil : (c : ℕ) (s : Text) → c ∷ s ≢ []
cons-ne-nil c s e = cc

-- An accepted tag is a key and a value.
parse_tag-Part :
    (part : Text) (tags r : Tags)
    → parse_tag part tags ≡ ok r
    → Lacks b'|' part
    → (k v : Text) × (part ≡ k ++ b':' ∷ v) × PartFits (tag k v)
unfolding parse_tag
parse_tag-Part part tags r h free =
    let (k, hk, h₁) = bind_inv (nonempty MetricError.tag_error (split_once b':' part).0) _ h in
    let (v, hv, h₂) = bind_inv (ok_or (split_once b':' part).1 MetricError.tag_error) _ h₁ in
    let (w, hw, h₃) = bind_inv (nonempty MetricError.tag_error v) _ h₂ in
    let key = nonempty-ne-nil _ _ k hk in
    let value = nonempty-ne-nil _ _ w hw in
    let (whole, lacks) = split_once_parts b':' part v (ok_or-eq-ok _ _ v hv) in
    let free' = subst (Lacks b'|') whole free in
    (
      (split_once b':' part).0,
      v,
      whole,
      (
        rw key (cons-ne-nil _ _),
        rw value (cons-ne-nil _ _),
        lacks,
        Lacks-append_left b'|' _ (b':' ∷ v) free',
        (Lacks-append_right b'|' (split_once b':' part).0 (b':' ∷ v) free').1,
      ),
    )

module _ {F : Type 0} ⦃fl : Float F⦄ where
  -- An accepted part is a rate or a tag.
  parse_part-Part :
      (text : Text) (acc r : Option F × Tags)
      → parse_part text acc ≡ ok r
      → Lacks b'|' text
      → (p : Part) × (text ≡ write_part p) × PartFits p
  unfolding parse_part write_part
  parse_part-Part [] (q, tags) r h free = cc
  parse_part-Part (c ∷ text) (q, tags) r h free = elim (Bool-cases (c == b'@')) [
    | inl e ↦ (rate text, ap (λ x. x ∷ text) ((nat_beq_iff c b'@').0 e), free.1)
    | inr e ↦ elim (Bool-cases (c == b'#')) [
      | inl e' ↦
          let accepted : ◌≡◌ {A = Result MetricError (Option F × Tags)}
              (parse_tag text tags >>= λ tags'. ok (q, tags')) (ok r) =
            rw e' at (rw e at h) in
          let (t, ht, o) = bind_inv (parse_tag text tags) _ accepted in
          let (k, v, whole, fits) = parse_tag-Part text tags t ht free.1 in
          (tag k v, rw whole (ap (λ x. x ∷ (k ++ b':' ∷ v)) ((nat_beq_iff c b'#').0 e')), fits)
      | inr e' ↦
          let refused : ◌≡◌ {A = Result MetricError (Option F × Tags)} (err MetricError.error)
              (ok r) =
            rw e' at (rw e at h) in
          cc
    ]
  ]

  parse_parts-Part :
      (texts : List Text) (acc r : Option F × Tags)
      → parse_parts texts acc ≡ ok r
      → All (Lacks b'|') texts
      → (ps : List Part) × (texts ≡ map write_part ps) × All PartFits ps
  unfolding parse_parts
  parse_parts-Part [] acc r h free = ([], refl, tt)
  parse_parts-Part (text ∷ texts) acc r h free =
      let (acc', one, more) = bind_inv (parse_part text acc) _ h in
      let (p, text_equality, fits) = parse_part-Part text acc acc' one free.0 in
      let (ps, texts_eq, all_fit) = parse_parts-Part texts acc' r more free.1 in
      (p ∷ ps, ap₂ ◌∷◌ text_equality texts_eq, (fits, all_fit))

  -- Accepted fields are a value, a type and parts.
  parse_fields-Line :
      (key value : Text) (fields : List Text) (m : Metric F)
      → parse_fields key value fields ≡ ok m
      → Lacks b':' key
      → Lacks b'|' value
      → All (Lacks b'|') fields
      → (l : Line) × (l.key ≡ key)
        × (value ≡ l.first ∷ l.more)
        × (fields ≡ l.type ∷ map write_part l.parts)
        × IsLine l
  unfolding parse_fields
  parse_fields-Line key value [] m h lacks free free' =
      let (v, _, refused) = bind_inv (nonempty MetricError.value_error value) _ h in cc
  parse_fields-Line key value (ty ∷ rest) m h lacks free free' =
      let (v, hv, h₁) = bind_inv (nonempty MetricError.value_error value) _ h in
      let (t, ht, h₂) = bind_inv (nonempty MetricError.type_error ty) _ h₁ in
      let (acc, ha, _) = bind_inv (parse_parts rest (none, TagList.new)) _ h₂ in
      let (ps, written, fits) = parse_parts-Part rest (none, TagList.new) acc ha free'.1 in
      let whole = nonempty-ne-nil _ value v hv in
      let typed = nonempty-ne-nil _ ty t ht in
      (
        record { key = key; first = v.0; more = v.1; type = ty; parts = ps },
        refl,
        whole,
        ap (λ r. ty ∷ r) written,
        record {
          key = lacks;
          value = subst (Lacks b'|') whole free;
          type = free'.0;
          type_ne_nil = rw typed (cons-ne-nil _ _);
          parts = fits;
        },
      )

  parse_metric-Line :
      (s : Text) (m : Metric F) → parse_metric s ≡ ok m → (l : Line) × (s ≡ write l) × IsLine l
  unfolding read_value write
  parse_metric-Line s m h =
      let (v, hv, read) =
        bind_inv (ok_or (split_once b':' s).1 MetricError.error) _
          (sym (parse_metric_split s) ∙ h) in
      let (whole, lacks) = split_once_parts b':' s v (ok_or-eq-ok _ _ v hv) in
      let (joined, first_free, rest_free) = split_parts b'|' v in
      let (l, key_equality, value_eq, fields_eq, fits) =
        parse_fields-Line _ (split b'|' v).0 (split b'|' v).1 m read lacks first_free rest_free in
      (
        l,
        whole
            ∙ ap₂ (λ k r. k ++ b':' ∷ r) (sym key_equality)
                (joined ∙ ap₂ (join_with (b'|' ∷ [])) value_eq fields_eq),
        fits,
      )

  -- What the parser accepts is a line of the language, and what it reads is the metric of that line.
  pub parse_metric_sound :
      (s : Text) (m : Metric F)
      → parse_metric s ≡ ok m
      → (l : Line) × (s ≡ write l) × IsLine l × (metric_of l ≡ ok m)
  parse_metric_sound s m h =
      let (l, written, fits) = parse_metric-Line s m h in
      (l, written, fits, sym (parse_metric-write l fits) ∙ ap parse_metric (sym written) ∙ h)
