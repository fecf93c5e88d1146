-- ===== src/Tests/Rayon.antt =====
-- A concrete `chunks` for the parameter of the backend of src/backends/http.rs, and that it does what rayon
-- says.
use ingraind.Prelude.{
  flatten, ℕ, zero, suc, ◌-◌, ◌≤◌, ◌<◌, ◌≡◌, refl, ap, ◌∙◌, List, [], ◌∷◌, ◌++◌, arith, take, drop,
  length, All,
}
use ingraind.Backends.Http.{Rayon}
use ingraind.Backends.Http.Parts.{Fits, IsRayon}

-- runs of `size` elements, the last one maybe shorter. The length of the list is
-- enough fuel for a positive size.
unfoldable pub chunks_from : {A : Type 0} → ℕ → ℕ → List A → List (List A)
chunks_from zero size xs = []
chunks_from (suc fuel) size [] = []
chunks_from (suc fuel) size (x ∷ xs) =
    let rest = chunks_from fuel size (drop size (x ∷ xs)) in take size (x ∷ xs) ∷ rest

instance abbrev pub in_runs : {A : Type 0} → Rayon A
in_runs = record { chunks = λ size xs. chunks_from (length xs) size xs }

module _ {A : Type 0} where
  take-drop : (n : ℕ) (xs : List A) → take n xs ++ drop n xs ≡ xs
  take-drop zero xs = refl
  take-drop (suc n) [] = refl
  take-drop (suc n) (x ∷ xs) = ap (λ t. x ∷ t) (take-drop n xs)

  length-drop : (n : ℕ) (xs : List A) → length (drop n xs) ≡ length xs - n
  length-drop zero xs = omega arith
  length-drop (suc n) [] = omega arith
  length-drop (suc n) (x ∷ xs) = omega (arith, length-drop n xs)

  length-take : (n : ℕ) (xs : List A) → length (take n xs) ≤ n
  length-take zero xs = omega arith
  length-take (suc n) [] = omega arith
  length-take (suc n) (x ∷ xs) = omega (arith, length-take n xs)

  length-take_positive : (n : ℕ) (x : A) (xs : List A) → 0 < n → 0 < length (take n (x ∷ xs))
  length-take_positive zero x xs h = absurd (omega arith)
  length-take_positive (suc n) x xs h = omega arith

  chunks_from-flatten :
      (fuel size : ℕ) (xs : List A)
      → 0 < size
      → length xs ≤ fuel
      → (flatten (chunks_from fuel size xs) ≡ xs) × All (Fits size) (chunks_from fuel size xs)
  unfolding chunks_from
  chunks_from-flatten zero size [] s h = (refl, tt)
  chunks_from-flatten zero size (x ∷ xs) s h = absurd (omega arith)
  chunks_from-flatten (suc fuel) size [] s h = (refl, tt)
  chunks_from-flatten (suc fuel) size (x ∷ xs) s h =
      let (same, each) =
        chunks_from-flatten fuel size (drop size (x ∷ xs)) s
          (omega (arith, length-drop size (x ∷ xs))) in
      (
        ap (λ t. take size (x ∷ xs) ++ t) same ∙ take-drop size (x ∷ xs),
        ((length-take_positive size x xs s, length-take size (x ∷ xs)), each),
      )

  pub in_runs-IsRayon : IsRayon (in_runs {A = A})
  in_runs-IsRayon = record {
    chunks-flatten = λ size xs s. (chunks_from-flatten (length xs) size xs s (omega arith)).0;
    chunks-Fits = λ size xs s. (chunks_from-flatten (length xs) size xs s (omega arith)).1;
  }
