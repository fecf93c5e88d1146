-- ===== src/Grains/CString.antt =====
-- `to_string` of src/grains/mod.rs: the text in a buffer that C code wrote.
use ingraind.Prelude.{
  ℕ, ◌≡◌, Text, List, [], ◌∷◌, ◌++◌, if◌then◌else◌, ◌==◌, nat_equality, All, arith, false,
}

-- `String::from_utf8_lossy`
pub record Lossy : Type 0 where
  pub from_utf8_lossy : List ℕ → Text

-- the bytes up to the first zero, or all of them if there is none
unfoldable pub until_zero : List ℕ → List ℕ
until_zero [] = []
until_zero (b ∷ bs) = let rest = until_zero bs in if b == 0 then [] else b ∷ rest

unfoldable pub to_string : ⦃lossy : Lossy⦄ → List ℕ → Text
unfolding until_zero
to_string ⦃lossy⦄ buf = lossy.from_utf8_lossy (until_zero buf)

pub until_zero-append :
    (name rest : List ℕ) → All (λ b. (b == 0) ≡ false) name → until_zero (name ++ 0 ∷ rest) ≡ name
unfolding until_zero
until_zero-append [] rest h = ground arith
until_zero-append (b ∷ name) rest h = ground (arith, until_zero-append name rest h.1)
