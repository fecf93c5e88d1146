-- ===== src/Prelude/Str.antt =====
-- Rust strings as the lists of their characters, with the operations of `str` that the program uses.
use Prim.Native.Nat.{ℕ}
use Prim.Native.Char.{code}
use Prim.Native.String.{String}
use mathlib.Core.Path.{◌≡◌, refl, ap, ap₂, ◌∙◌, sym}
use mathlib.Core.Logic.{◌↔◌, inl, inr}
use mathlib.Core.Bool.{Bool, true, false, ◌&&◌}
use mathlib.Core.Option.{Option, none, some}
use mathlib.Core.List.{List, [], ◌∷◌, ◌++◌}
use native.Mathlib.Omega.{arith}
use ingraind.Prelude.Tests.{nat_beq, nat_beq_iff, if◌then◌else◌, Equality, Bool-cases}
use ingraind.Prelude.Lists.{All}

-- A string is the list of its code points.
abbrev pub Text : Type 0
Text = List ℕ

-- a literal as a text
abbrev pub chars : String → Text
chars (String.◌∷◌ x literal) = code x ∷ chars literal
chars String.[] = []

-- `==` of `str`
unfoldable pub text_beq : Text → Text → Bool
text_beq [] [] = true
text_beq (x ∷ xs) (y ∷ ys) = nat_beq x y && text_beq xs ys
text_beq _ _ = false

pub text_beq_iff : (a b : Text) → (text_beq a b ≡ true) ↔ (a ≡ b)
unfolding text_beq
text_beq_iff (x ∷ xs) (y ∷ ys) = ground (arith, text_beq_iff xs ys)
text_beq_iff _ _ = ground arith

instance abbrev pub text_equality : Equality Text
text_equality = record { same = text_beq; same_iff = text_beq_iff }

-- the text holds no `c`
abbrev pub Lacks : ℕ → Text → Type 0
Lacks c = All (λ x. nat_beq x c ≡ false)

-- `splitn(2, c)`: what stands before the first `c`, and what stands behind it, if there is one
unfoldable pub split_once : ℕ → Text → Text × Option Text
split_once c [] = ([], none)
split_once c (x ∷ xs) =
    let rest = split_once c xs in if nat_beq x c then ([], some xs) else (x ∷ rest.0, rest.1)

-- `split(c)`: the first part, which is always there, and the others
unfoldable pub split : ℕ → Text → Text × List Text
split c [] = ([], [])
split c (x ∷ xs) =
    let rest = split c xs in if nat_beq x c then ([], rest.0 ∷ rest.1) else (x ∷ rest.0, rest.1)

-- parts put together again, `c` between any two
abbrev pub join_with : Text → Text → List Text → Text
join_with sep first [] = first
join_with sep first (p ∷ ps) = first ++ (sep ++ join_with sep p ps)

-- `join(sep)`
abbrev pub join : Text → List Text → Text
join sep [] = []
join sep (p ∷ ps) = join_with sep p ps

pub split_once-append : (c : ℕ) (a b : Text) → Lacks c a → split_once c (a ++ c ∷ b) ≡ (a, some b)
unfolding split_once
split_once-append c [] b h = ground arith
split_once-append c (x ∷ a) b h = ground (arith, split_once-append c a b h.1)

pub split_once-none : (c : ℕ) (a : Text) → Lacks c a → split_once c a ≡ (a, none)
unfolding split_once
split_once-none c [] h = refl
split_once-none c (x ∷ a) h = ground (arith, split_once-none c a h.1)

pub split-append :
    (c : ℕ) (a b : Text) → Lacks c a → split c (a ++ c ∷ b) ≡ (a, (split c b).0 ∷ (split c b).1)
unfolding split
split-append c [] b h = ground arith
split-append c (x ∷ a) b h = ground (arith, split-append c a b h.1)

pub split-none : (c : ℕ) (a : Text) → Lacks c a → split c a ≡ (a, [])
unfolding split
split-none c [] h = refl
split-none c (x ∷ a) h = ground (arith, split-none c a h.1)

-- Splitting undoes joining.
pub split-join_with :
    (c : ℕ) (first : Text) (ps : List Text)
    → Lacks c first
    → All (Lacks c) ps
    → split c (join_with (c ∷ []) first ps) ≡ (first, ps)
split-join_with c first [] h hs = split-none c first h
split-join_with c first (p ∷ ps) h hs =
    split-append c first _ h ∙ ap (λ r. (first, r.0 ∷ r.1)) (split-join_with c p ps hs.0 hs.1)

abbrev strip_cr : Text → Text
strip_cr [] = []
strip_cr (x ∷ []) = if nat_beq x b'\r' then [] else x ∷ []
strip_cr (x ∷ y ∷ s) = x ∷ strip_cr (y ∷ s)

-- lines that a line feed ends, with a carriage return before it; the last may have none
ended_lines : Text → List Text → List Text
ended_lines [] [] = []
ended_lines (x ∷ s) [] = (x ∷ s) ∷ []
ended_lines s (t ∷ ts) = strip_cr s ∷ ended_lines t ts

-- `lines()`
unfoldable pub lines : Text → List Text
unfolding split ended_lines
lines s = ended_lines (split b'\n' s).0 (split b'\n' s).1

strip_cr-same : (s : Text) → Lacks b'\r' s → strip_cr s ≡ s
strip_cr-same [] h = refl
strip_cr-same (x ∷ []) h = rw h.0 refl
strip_cr-same (x ∷ y ∷ s) h = ap (λ r. x ∷ r) (strip_cr-same (y ∷ s) h.1)

pub lines-append :
    (s rest : Text) → Lacks b'\n' s → Lacks b'\r' s → lines (s ++ b'\n' ∷ rest) ≡ s ∷ lines rest
unfolding lines
lines-append s rest h hr =
    ap (λ (r : Text × List Text). ended_lines r.0 r.1) (split-append b'\n' s rest h)
    ∙ ap (λ t. t ∷ lines rest) (strip_cr-same s hr)

join_with-cons :
    (sep : Text) (x : ℕ) (first : Text) (ps : List Text)
    → join_with sep (x ∷ first) ps ≡ x ∷ join_with sep first ps
join_with-cons sep x first [] = refl
join_with-cons sep x first (p ∷ ps) = refl

-- A text is its parts put together, and no part holds the separator.
pub split_parts :
    (c : ℕ) (s : Text)
    → (s ≡ join_with (c ∷ []) (split c s).0 (split c s).1)
      × Lacks c (split c s).0
      × All (Lacks c) (split c s).1
unfolding split
split_parts c [] = (refl, tt, tt)
split_parts c (x ∷ s) = elim (Bool-cases (nat_beq x c)) [
  | inl e ↦
      let ih = split_parts c s in rw e (ap₂ ◌∷◌ ((nat_beq_iff x c).0 e) (ih.0), tt, (ih.1, ih.2))
  | inr e ↦
      let ih = split_parts c s in
      rw e (
        ap (λ t. x ∷ t) ih.0 ∙ sym (join_with-cons (c ∷ []) x (split c s).0 (split c s).1),
        (e, ih.1),
        ih.2,
      )
]

pub split_once_parts :
    (c : ℕ) (s b : Text)
    → (split_once c s).1 ≡ some b
    → (s ≡ (split_once c s).0 ++ c ∷ b) × Lacks c (split_once c s).0
unfolding split_once
split_once_parts c [] b h = absurd (ground arith)
split_once_parts c (x ∷ s) b h = elim (Bool-cases (nat_beq x c)) [
  | inl e ↦
      let same : some s ≡ some b = rw e at h in rw e (ap₂ ◌∷◌ ((nat_beq_iff x c).0 e) (cc), tt)
  | inr e ↦ let ih = split_once_parts c s b (rw e at h) in rw e (ap (λ t. x ∷ t) ih.0, (e, ih.1))
]
