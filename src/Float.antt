-- ===== src/Float.antt =====
-- `f64`, which the program computes counters and rates with: a type with the operations that the
-- code uses, as the interface that the modules over it take. `IsExact` is what IEEE 754 doubles
-- and the conversions of Rust give for numbers up to 2 ^ 53.
use ingraind.Prelude.{ℕ, ◌+◌, ◌≤◌, ◌≡◌, Text, Option, arith, refl, leb, if◌then◌else◌, ◌/◌}
use ingraind.Prelude.Number.{u64_max, parse_u64}

-- `of_u64 n` is `n as f64`, so `0f64` is `of_u64 0`; `to_u64 x` is `x as u64`, which saturates;
-- `parse` is `f64::from_str`.
pub record Float (F : Type 0) : Type 0 where
  pub of_u64 : ℕ → F
  pub to_u64 : F → ℕ
  pub add : F → F → F
  pub div : F → F → F
  pub parse : Text → Option F

abbrev pub exact_max : ℕ
exact_max = 9007199254740992

pub record IsExact {F : Type 0} (fl : Float F) : Type 0 where
  pub to_u64-le : (x : F) → fl.to_u64 x ≤ u64_max
  pub to_u64-of_u64 : (n : ℕ) → n ≤ exact_max → fl.to_u64 (fl.of_u64 n) ≡ n
  pub add-of_u64 :
      (a b : ℕ) → a + b ≤ exact_max → fl.add (fl.of_u64 a) (fl.of_u64 b) ≡ fl.of_u64 (a + b)
  pub div-one : (x : F) → fl.div x (fl.of_u64 1) ≡ x

-- A value shows that the laws can be met: whole numbers, with the saturating conversion.
abbrev pub whole : Float ℕ
whole = record {
  of_u64 = λ n. n;
  to_u64 = λ x. if leb x u64_max then x else u64_max;
  add = λ a b. a + b;
  div = λ a b. a / b;
  parse = parse_u64;
}

pub whole-IsExact : IsExact whole
whole-IsExact = record {
  to_u64-le = λ x. ground arith;
  to_u64-of_u64 = λ n h. ground arith;
  add-of_u64 = λ a b h. refl;
  div-one = λ x. omega arith;
}
