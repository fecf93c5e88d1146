-- ===== src/Grains/Statsd/Values.antt =====
-- The values of src/grains/statsd.rs, 90-103, by their types.
use ingraind.Prelude.{
  ℕ, ◌≡◌, ◌≢◌, ◌↔◌, ◌⊎◌, refl, Bool, true, false, Text, chars, some, ◌∷◌, arith, ok, text_beq,
  text_beq_iff, text_equality, nat_equality,
}
use ingraind.Prelude.Number.{parse_u64}
use ingraind.Float.{Float}
use ingraind.Grains.Statsd.{MetricValue, counter, timing, gauge, set, histogram, parse_value}

-- whether a gauge resets: not if its value begins with a sign
abbrev pub Resets : ℕ → Bool → Type 0
Resets first true = (first ≢ b'+') × (first ≢ b'-')
Resets first false = (first ≡ b'+') ⊎ (first ≡ b'-')

-- the tests on the type, as equations
names :
    (ty : Text)
    → ((text_beq ty (chars "c") ≡ true) ↔ (ty ≡ chars "c"))
      × ((text_beq ty (chars "g") ≡ true) ↔ (ty ≡ chars "g"))
      × ((text_beq ty (chars "ms") ≡ true) ↔ (ty ≡ chars "ms"))
      × ((text_beq ty (chars "s") ≡ true) ↔ (ty ≡ chars "s"))
      × ((text_beq ty (chars "h") ≡ true) ↔ (ty ≡ chars "h"))
names ty =
    (text_beq_iff ty _, text_beq_iff ty _, text_beq_iff ty _, text_beq_iff ty _, text_beq_iff ty _)

module _ {F : Type 0} ⦃fl : Float F⦄ where
  -- the value that a type and a text stand for
  abbrev pub Reads : Text → ℕ → Text → MetricValue F → Type 0
  Reads ty first more (counter v) = (ty ≡ chars "c") × (fl.parse (first ∷ more) ≡ some v)
  Reads ty first more (gauge v reset) =
      (ty ≡ chars "g") × (fl.parse (first ∷ more) ≡ some v) × Resets first reset
  Reads ty first more (timing v) = (ty ≡ chars "ms") × (fl.parse (first ∷ more) ≡ some v)
  Reads ty first more (set text) = (ty ≡ chars "s") × (text ≡ first ∷ more)
  Reads ty first more (histogram n) = (ty ≡ chars "h") × (parse_u64 (first ∷ more) ≡ some n)

  -- A value is read exactly if its type is one of the five names and its text is a number where the
  -- type asks for one; a gauge resets exactly if its text does not begin with a sign.
  pub parse_value_iff :
      (ty : Text) (first : ℕ) (more : Text) (value : MetricValue F)
      → (parse_value ty first more ≡ ok value) ↔ Reads ty first more value
  unfolding parse_value text_beq
  parse_value_iff ty first more (counter v) =
      (λ h. ground (arith, names ty), λ h. rw (h.0) (rw (h.1) refl))
  parse_value_iff ty first more (gauge v true) =
      (λ h. ground (arith, names ty), λ h. rw (h.0) (rw (h.1) (ground (arith, h.2))))
  parse_value_iff ty first more (gauge v false) =
      (λ h. ground (arith, names ty), λ h. rw (h.0) (rw (h.1) (ground (arith, h.2))))
  parse_value_iff ty first more (timing v) =
      (λ h. ground (arith, names ty), λ h. rw (h.0) (rw (h.1) refl))
  parse_value_iff ty first more (set text) =
      (λ h. ground (arith, names ty), λ h. rw (h.0) (rw (h.1) refl))
  parse_value_iff ty first more (histogram n) =
      (λ h. ground (arith, names ty), λ h. rw (h.0) (rw (h.1) refl))
