-- ===== src/Prelude/Lists.antt =====
-- Lists measured by native numbers, under the library's names.
use Prim.Native.Nat.{ℕ, zero, suc, ◌+◌, ◌≤◌}
use mathlib.Core.Path.{◌≡◌, refl, subst, ap, ap₂}
use mathlib.Core.List.{List, [], ◌∷◌, ◌++◌, map}
use mathlib.Core.Option.{Option, none, some}
use mathlib.Core.Logic.{◌⊎◌, inl, inr}
use mathlib.Core.Bool.{Bool, true, false}
use native.Mathlib.Omega.{arith}
use ingraind.Prelude.Tests.{if◌then◌else◌}

module _ {ℓ} {A : Type ℓ} where
  abbrev pub length : List A → ℕ
  length [] = 0
  length (x ∷ xs) = suc (length xs)

  abbrev pub get_elem? : List A → ℕ → Option A
  get_elem? [] i = none
  get_elem? (x ∷ xs) zero = some x
  get_elem? (x ∷ xs) (suc i) = get_elem? xs i

  abbrev pub take : ℕ → List A → List A
  take zero xs = []
  take (suc n) [] = []
  take (suc n) (x ∷ xs) = x ∷ take n xs

  abbrev pub drop : ℕ → List A → List A
  drop zero xs = xs
  drop (suc n) [] = []
  drop (suc n) (x ∷ xs) = drop n xs

  abbrev pub replicate : ℕ → A → List A
  replicate zero a = []
  replicate (suc n) a = a ∷ replicate n a

  -- `Vec::retain`, `Iterator::filter`
  abbrev pub retain : (A → Bool) → List A → List A
  retain p [] = []
  retain p (x ∷ xs) = let rest = retain p xs in if p x then x ∷ rest else rest

  abbrev pub is_empty : List A → Bool
  is_empty [] = true
  is_empty (x ∷ xs) = false

  -- every element has the property
  abbrev pub All {κ} : (A → Type κ) → List A → Type κ
  All P [] = Unit
  All P (x ∷ xs) = P x × All P xs

  pub length-append : (xs ys : List A) → length (xs ++ ys) ≡ length xs + length ys
  length-append [] ys = omega arith
  length-append (x ∷ xs) ys = omega (arith, length-append xs ys)

  pub length-replicate : (n : ℕ) (a : A) → length (replicate n a) ≡ n
  length-replicate zero a = refl
  length-replicate (suc n) a = ap suc (length-replicate n a)

  pub length-retain : (p : A → Bool) (xs : List A) → length (retain p xs) ≤ length xs
  length-retain p [] = omega arith
  length-retain p (x ∷ xs) = ground (arith, length-retain p xs)

module _ {ℓ κ} {A : Type ℓ} {B : Type κ} where
  pub length-map : (xs : List A) (f : A → B) → length (map f xs) ≡ length xs
  length-map [] f = refl
  length-map (x ∷ xs) f = ap suc (length-map xs f)

module _ {ℓ κ} {A : Type ℓ} (P : A → Type κ) where
  pub All-append : (xs ys : List A) → All P xs → All P ys → All P (xs ++ ys)
  All-append [] ys p q = q
  All-append (x ∷ xs) ys p q = (p.0, All-append xs ys p.1 q)

  pub All-intro : ((x : A) → P x) → (xs : List A) → All P xs
  All-intro f [] = tt
  All-intro f (x ∷ xs) = (f x, All-intro f xs)

  pub All-retain : (p : A → Bool) (xs : List A) → All P xs → All P (retain p xs)
  All-retain p [] h = tt
  All-retain p (x ∷ xs) h = ground (arith, All-retain p xs h.1)

  -- the elements that are kept pass the test
  pub All-retain_self :
      (p : A → Bool) (xs : List A) → All P xs → All (λ x. P x × (p x ≡ true)) (retain p xs)
  All-retain_self p [] h = tt
  All-retain_self p (x ∷ xs) h = ground (arith, All-retain_self p xs h.1)

-- the elements of two lists of the same length are related one by one
abbrev pub Each {ℓ κ} : {A : Type ℓ} {B : Type κ} → (A → B → Type 0) → List A → List B → Type 0
Each R [] [] = Unit
Each R (x ∷ xs) (y ∷ ys) = R x y × Each R xs ys
Each R _ _ = ⊥

pub Each-map {ℓ κ μ} :
    {A : Type ℓ} {B : Type κ} {C : Type μ} (R : A → B → Type 0) (S : A → C → Type 0) (g : B → C)
    → ((x : A) (y : B) → R x y → S x (g y))
    → (xs : List A) (ys : List B) → Each R xs ys
    → Each S xs (map g ys)
Each-map R S g each [] [] h = tt
Each-map R S g each [] (y ∷ ys) h = absurd h
Each-map R S g each (x ∷ xs) [] h = absurd h
Each-map R S g each (x ∷ xs) (y ∷ ys) h = (each x y h.0, Each-map R S g each xs ys h.1)

-- `x` stands in the list
abbrev pub Among : {A : Type 0} → A → List A → Type 0
Among x [] = ⊥
Among x (y ∷ ys) = (y ≡ x) ⊎ Among x ys

module _ {A : Type 0} where
  pub Among-append_left : (x : A) (xs ys : List A) → Among x xs → Among x (xs ++ ys)
  Among-append_left x [] ys m = absurd m
  Among-append_left x (y ∷ xs) ys (inl e) = inl e
  Among-append_left x (y ∷ xs) ys (inr m) = inr (Among-append_left x xs ys m)

  pub Among-append_right : (x : A) (xs ys : List A) → Among x ys → Among x (xs ++ ys)
  Among-append_right x [] ys m = m
  Among-append_right x (y ∷ xs) ys m = inr (Among-append_right x xs ys m)

module _ {ℓ} {A : Type ℓ} where
  pub retain-append :
      (p : A → Bool) (xs ys : List A) → retain p (xs ++ ys) ≡ retain p xs ++ retain p ys
  retain-append p [] ys = refl
  retain-append p (x ∷ xs) ys = ground (arith, retain-append p xs ys)

module _ {ℓ κ μ} {A : Type ℓ} {B : Type κ} {C : Type μ} where
  -- two passes over a list as one
  pub map_fuse :
      (f : B → C) (g : A → B) (h : A → C)
      → ((x : A) → f (g x) ≡ h x)
      → (xs : List A) → map f (map g xs) ≡ map h xs
  map_fuse f g h each [] = refl
  map_fuse f g h each (x ∷ xs) = ap₂ ◌∷◌ (each x) (map_fuse f g h each xs)

module _ {ℓ κ μ} {A : Type ℓ} (P : A → Type κ) (Q : A → Type μ) where
  pub All-weaken : ((x : A) → P x → Q x) → (xs : List A) → All P xs → All Q xs
  All-weaken f [] h = tt
  All-weaken f (x ∷ xs) h = (f x h.0, All-weaken f xs h.1)

pub Each-Among :
    {A B : Type 0} (R : A → B → Type 0) (x : A) (xs : List A) (ys : List B)
    → Each R xs ys
    → Among x xs
    → (y : B) × R x y
Each-Among R x [] ys each among = absurd among
Each-Among R x (z ∷ xs) [] each among = absurd each
Each-Among R x (z ∷ xs) (y ∷ ys) each (inl here) = (y, subst (λ w. R w y) here each.0)
Each-Among R x (z ∷ xs) (y ∷ ys) each (inr later) = Each-Among R x xs ys each.1 later

abbrev pub flatten : {A : Type 0} → List (List A) → List A
flatten [] = []
flatten (xs ∷ xss) = xs ++ flatten xss

pub Each-then :
    {A B C : Type 0} (P : A → B → Type 0) (Q : B → C → Type 0) (R : A → C → Type 0)
    → ((x : A) (y : B) (z : C) → P x y → Q y z → R x z)
    → (xs : List A) (ys : List B) (zs : List C) → Each P xs ys
    → Each Q ys zs
    → Each R xs zs
Each-then P Q R step [] [] [] p q = tt
Each-then P Q R step [] [] (z ∷ zs) p q = absurd q
Each-then P Q R step [] (y ∷ ys) zs p q = absurd p
Each-then P Q R step (x ∷ xs) [] zs p q = absurd p
Each-then P Q R step (x ∷ xs) (y ∷ ys) [] p q = absurd q
Each-then P Q R step (x ∷ xs) (y ∷ ys) (z ∷ zs) p q =
    (step x y z p.0 q.0, Each-then P Q R step xs ys zs p.1 q.1)

pub Each-append :
    {A B : Type 0} (R : A → B → Type 0) (xs : List A) (ys : List B) (us : List A) (vs : List B)
    → Each R xs ys
    → Each R us vs
    → Each R (xs ++ us) (ys ++ vs)
Each-append R [] [] us vs p q = q
Each-append R [] (y ∷ ys) us vs p q = absurd p
Each-append R (x ∷ xs) [] us vs p q = absurd p
Each-append R (x ∷ xs) (y ∷ ys) us vs p q = (p.0, Each-append R xs ys us vs p.1 q)

pub Each-refl : {A : Type 0} (R : A → A → Type 0) → ((x : A) → R x x) → (xs : List A) → Each R xs xs
Each-refl R same [] = tt
Each-refl R same (x ∷ xs) = (same x, Each-refl R same xs)
