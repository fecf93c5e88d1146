-- ===== src/Prelude/Outcome.antt =====
-- Rust's `Result`, and a panic as an error of its own.
use Prim.Native.Nat.{ℕ}
use mathlib.Core.Path.{◌≡◌, refl, sym, ap, ◌∙◌, subst}
use mathlib.Core.Logic.{◌⊎◌, inl, inr}
use mathlib.Core.Bool.{Bool, true, false}
use mathlib.Core.Option.{Option, none, some}
use mathlib.Core.List.{List, [], ◌∷◌}
use native.Mathlib.Omega.{arith}
use ingraind.Prelude.Lists.{All, Each, Among}

pub data Result {ℓ} (E A : Type ℓ) : Type ℓ where
  ok : A → Result E A
  err : E → Result E A

-- A panic ends the process: the hook of src/main.rs exits with status 1.
pub data Panic : Type 0 where
  panic : Panic

abbrev pub Run : Type 0 → Type 0
Run A = Result Panic A

-- `?`: the steps that follow, or the first error
infixl 5 ◌>>=◌ ◌>>◌
abbrev pub ◌>>=◌ {ℓ} : {E A B : Type ℓ} → Result E A → (A → Result E B) → Result E B
◌>>=◌ (err e) next = err e
◌>>=◌ (ok x) next = next x

abbrev pub ◌>>◌ {ℓ} : {E A B : Type ℓ} → Result E A → Result E B → Result E B
step >> next = step >>= λ _. next

-- `Option::ok_or`
abbrev pub ok_or {ℓ} : {E A : Type ℓ} → Option A → E → Result E A
ok_or (some a) e = ok a
ok_or none e = err e

-- `Option::unwrap`
abbrev pub unwrap : {A : Type 0} → Option A → Run A
unwrap o = ok_or o panic

-- `FromStr`, of which only whether a text is read and as what
pub record FromStr (A : Type 0) : Type 0 where
  pub from_str : List ℕ → Option A

-- `unwrap` of what is only a success or a failure
abbrev pub demand : Bool → Run Unit
demand true = ok tt
demand false = err panic

-- `iter.map(f).collect::<Result<Vec<_>, _>>()`: the first error ends it.
module _ {ℓ} {E A B : Type ℓ} where
  unfoldable pub try_map : (A → Result E B) → List A → Result E (List B)
  try_map f [] = ok []
  try_map f (x ∷ xs) = do y ← f x; ys ← try_map f xs; ok (y ∷ ys)

  -- What a chain that succeeds went through.
  pub bind_inv :
      (step : Result E A) (next : A → Result E B) {z : B}
      → (step >>= next) ≡ ok z
      → (x : A) × (step ≡ ok x) × (next x ≡ ok z)
  bind_inv (err e) next done = cc
  bind_inv (ok x) next done = (x, refl, done)

module _ {ℓ} {E A B : Type ℓ} where
  pub try_map_cons :
      (f : A → Result E B) (x : A) (xs : List A) {zs : List B}
      → try_map f (x ∷ xs) ≡ ok zs
      → (y : B) × (ys : List B) × (f x ≡ ok y) × (try_map f xs ≡ ok ys) × (zs ≡ y ∷ ys)
  unfolding try_map
  try_map_cons f x xs e =
      let (y, fx, r) = bind_inv (f x) (λ y. try_map f xs >>= λ ys. ok (y ∷ ys)) e in
      let (ys, fxs, o) = bind_inv (try_map f xs) (λ ys. ok (y ∷ ys)) r in (y, ys, fx, fxs, cc)

  pub try_map_ok_cons :
      (f : A → Result E B) (x : A) (xs : List A) {y : B} {ys : List B}
      → f x ≡ ok y
      → try_map f xs ≡ ok ys
      → try_map f (x ∷ xs) ≡ ok (y ∷ ys)
  unfolding try_map
  try_map_ok_cons f x xs first rest = rw first (rw rest refl)

-- the code returns: it does not panic
abbrev pub Returns {ℓ} : {E A : Type ℓ} → Result E A → Type 0
Returns (ok a) = Unit
Returns (err e) = ⊥

module _ {ℓ} {E A B : Type ℓ} where
  pub Returns-bind :
      (step : Result E A) (next : A → Result E B)
      → Returns step
      → ((x : A) → step ≡ ok x → Returns (next x))
      → Returns (step >>= next)
  Returns-bind (err e) next r h = absurd r
  Returns-bind (ok x) next r h = h x refl

module _ {ℓ} {E A B : Type ℓ} where
  pub Returns-try_map :
      (f : A → Result E B) (xs : List A) → All (λ x. Returns (f x)) xs → Returns (try_map f xs)
  unfolding try_map
  Returns-try_map f [] h = tt
  Returns-try_map f (x ∷ xs) h =
      Returns-bind (f x) (λ y. try_map f xs >>= λ ys. ok (y ∷ ys)) h.0
        (λ y _.
          Returns-bind (try_map f xs) (λ ys. ok (y ∷ ys)) (Returns-try_map f xs h.1) (λ ys _. tt))

pub Result-cases {ℓ} :
    {E A : Type ℓ} (r : Result E A) → ((e : E) × (r ≡ err e)) ⊎ ((a : A) × (r ≡ ok a))
Result-cases (ok a) = inr (a, refl)
Result-cases (err e) = inl (e, refl)

pub Returns-ok {ℓ} : {E A : Type ℓ} (r : Result E A) → Returns r → (a : A) × (r ≡ ok a)
Returns-ok (ok a) h = (a, refl)
Returns-ok (err e) h = absurd h

module _ {ℓ} {E A B : Type ℓ} where
  -- Each result of a loop that succeeds is that of its element.
  pub Each-try_map :
      (f : A → Result E B) (R : A → B → Type 0)
      → ((x : A) (y : B) → f x ≡ ok y → R x y)
      → (xs : List A) {ys : List B} → try_map f xs ≡ ok ys
      → Each R xs ys
  Each-try_map f R each [] {ys} e =
      let none_left : [] ≡ ys = unfold try_map in cc in subst (Each R []) none_left tt
  Each-try_map f R each (x ∷ xs) {ys} e =
      let (y, rest, fx, fxs, same) = try_map_cons f x xs e in
      subst (Each R (x ∷ xs)) (sym same) (each x y fx, Each-try_map f R each xs fxs)

-- What comes out of a loop comes from one of the elements.
pub Among-try_map :
    {E A B : Type 0} (f : A → Result E B) (xs : List A) {ys : List B} (y : B)
    → try_map f xs ≡ ok ys
    → Among y ys
    → (x : A) × Among x xs × (f x ≡ ok y)
Among-try_map f [] {ys} y e among =
    let none_left : [] ≡ ys = unfold try_map in cc in absurd (subst (Among y) (sym none_left) among)
Among-try_map f (x ∷ xs) {ys} y e among =
    let (z, rest, fx, fxs, same) = try_map_cons f x xs e in
    elim (subst (Among y) same among) [
      | inl here ↦ (x, inl refl, fx ∙ ap ok here)
      | inr later ↦ let (x', there, fx') = Among-try_map f xs y fxs later in (x', inr there, fx')
    ]

-- and the other way round
pub Among-try_map_of :
    {E A B : Type 0} (f : A → Result E B) (xs : List A) {ys : List B} (x : A)
    → try_map f xs ≡ ok ys
    → Among x xs
    → (y : B) × Among y ys × (f x ≡ ok y)
Among-try_map_of f [] x e among = absurd among
Among-try_map_of f (x ∷ xs) w e (inl here) =
    let (z, rest, fx, fxs, same) = try_map_cons f x xs e in
    (z, subst (Among z) (sym same) (inl refl), ap f (sym here) ∙ fx)
Among-try_map_of f (x ∷ xs) w e (inr later) =
    let (z, rest, fx, fxs, same) = try_map_cons f x xs e in
    let (y, there, fy) = Among-try_map_of f xs w fxs later in
    (y, subst (Among y) (sym same) (inr there), fy)

pub unwrap-some : {A : Type 0} (o : Option A) {a : A} → unwrap o ≡ ok a → o ≡ some a
unwrap-some o e = ground arith
