-- ===== src/Prelude/Number.antt =====
-- Decimal numbers in text: `u64::from_str` and `to_string` of an unsigned integer.
use ingraind.Prelude.Tests.{leb, ltb, if◌then◌else◌, nat_beq}
use ingraind.Prelude.Str.{Text}
use Prim.Native.Nat.{ℕ, zero, suc, ◌+◌, ◌-◌, ◌*◌, ◌/◌, ◌%◌, ◌≤◌}
use mathlib.Core.Path.{◌≡◌}
use mathlib.Core.Bool.{Bool, ◌&&◌}
use mathlib.Core.Option.{Option, none, some}
use mathlib.Core.List.{[], ◌∷◌}
use native.Mathlib.Omega.{arith}

abbrev pub u64_max : ℕ
u64_max = 18446744073709551615

unfoldable pub is_digit : ℕ → Bool
is_digit c = leb b'0' c && leb c b'9'

-- The number so far and the digits left; `none` on another character or past the type's maximum.
unfoldable pub digits_from : ℕ → ℕ → Text → Option ℕ
unfolding is_digit
digits_from limit n [] = some n
digits_from limit n (c ∷ cs) =
    let n' = n * 10 + (c - b'0') in
    let rest = digits_from limit n' cs in if is_digit c && leb n' limit then rest else none

abbrev unsigned_digits : ℕ → Text → Option ℕ
unsigned_digits limit [] = none
unsigned_digits limit (c ∷ cs) = digits_from limit 0 (c ∷ cs)

-- `from_str` of the unsigned type with the given maximum: an optional `+`, then at least one digit
unfoldable pub parse_unsigned : ℕ → Text → Option ℕ
unfolding digits_from
parse_unsigned limit [] = none
parse_unsigned limit (c ∷ cs) =
    if nat_beq c b'+' then unsigned_digits limit cs else digits_from limit 0 (c ∷ cs)

abbrev pub parse_u64 : Text → Option ℕ
parse_u64 = parse_unsigned u64_max

-- the digits of `n`, in front of `rest`; `n < 10 ^ fuel` is enough
unfoldable pub show_onto : ℕ → ℕ → Text → Text
show_onto zero n rest = rest
show_onto (suc fuel) n rest =
    let more = show_onto fuel (n / 10) ((b'0' + n % 10) ∷ rest) in
    if ltb n 10 then (b'0' + n) ∷ rest else more

-- `to_string` of a number below `10 ^ 40`, which every unsigned type is
unfoldable pub to_string : ℕ → Text
unfolding show_onto
to_string n = show_onto 40 n []

digits_from-le :
    (limit n : ℕ) (s : Text) (r : ℕ) → n ≤ limit → digits_from limit n s ≡ some r → r ≤ limit
unfolding digits_from
digits_from-le limit n [] r h e = ground arith
digits_from-le limit n (c ∷ cs) r h e =
    ground (arith, digits_from-le limit (n * 10 + (c - b'0')) cs r)

-- An accepted number fits its type.
pub parse_unsigned-le : (limit : ℕ) (s : Text) (r : ℕ) → parse_unsigned limit s ≡ some r → r ≤ limit
unfolding parse_unsigned
parse_unsigned-le limit [] r e = ground arith
parse_unsigned-le limit (c ∷ []) r e = ground (arith, digits_from-le limit 0 (c ∷ []) r)
parse_unsigned-le limit (c ∷ d ∷ cs) r e =
    ground (arith, digits_from-le limit 0 (c ∷ d ∷ cs) r, digits_from-le limit 0 (d ∷ cs) r)
