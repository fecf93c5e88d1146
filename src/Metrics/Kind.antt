-- ===== src/Metrics/Kind.antt =====
-- The module `kind` of src/metrics/mod.rs: a kind is a `u16` of flags.
use ingraind.Prelude.{
  ℕ, ◌-◌, ◌≡◌, ◌↔◌, Bool, not, ◌&&◌, ◌||◌, Text, Option, none, some, [], ◌∷◌, ◌++◌, arith,
  if◌then◌else◌, ◌==◌, leb, ok, err, Result, chars, bit_and, text_equality, nat_equality,
  text_beq_iff,
}

abbrev pub counter : ℕ
counter = 1

abbrev pub gauge : ℕ
gauge = 2

abbrev pub meter : ℕ
meter = 4

abbrev pub histogram : ℕ
histogram = 8

abbrev pub timer : ℕ
timer = 16

abbrev pub set : ℕ
set = 32

abbrev pub set_uniques : ℕ
set_uniques = 64

abbrev pub percentile : ℕ
percentile = 128

-- `kind & flag != 0`
unfoldable pub has : ℕ → ℕ → Bool
has kind flag = not (bit_and kind flag == 0)

-- `to_uppercase` of one character, as far as ASCII letters can come out of it: the small letters,
-- and the dotless i, the long s, the sharp s and the Latin ligatures. No other character's upper
-- case is made of ASCII letters alone, so no other can make a text equal to an ASCII name.
upper_char : ℕ → Text
upper_char c =
    if leb b'a' c && leb c b'z'
    then (c - 32) ∷ []
    else if c == 0x131
    then chars "I"
    else if c == 0x17F
    then chars "S"
    else if c == 0xDF
    then chars "SS"
    else if c == 0xFB00
    then chars "FF"
    else if c == 0xFB01
    then chars "FI"
    else if c == 0xFB02
    then chars "FL"
    else if c == 0xFB03
    then chars "FFI"
    else if c == 0xFB04
    then chars "FFL"
    else if c == 0xFB05 || c == 0xFB06
    then chars "ST"
    else c ∷ []

unfoldable pub to_uppercase : Text → Text
unfolding upper_char
to_uppercase [] = []
to_uppercase (c ∷ s) = upper_char c ++ to_uppercase s

-- the `match` of `try_from_str`, on the text in upper case
unfoldable pub of_upper : Text → Result (Unit {0}) ℕ
of_upper s =
    if s == chars "COUNTER"
    then ok counter
    else if s == chars "GAUGE"
    then ok gauge
    else if s == chars "METER"
    then ok meter
    else if s == chars "HISTOGRAM"
    then ok histogram
    else if s == chars "TIMER"
    then ok timer
    else if s == chars "SET"
    then ok set
    else if s == chars "SET_UNIQUES"
    then ok set_uniques
    else if s == chars "PERCENTILE"
    then ok percentile
    else err tt

unfoldable pub try_from_str : Text → Result (Unit {0}) ℕ
unfolding to_uppercase of_upper
try_from_str s = of_upper (to_uppercase s)

-- the name of each single flag
abbrev pub name_of : ℕ → Option Text
name_of k =
    if k == counter
    then some (chars "COUNTER")
    else if k == gauge
    then some (chars "GAUGE")
    else if k == meter
    then some (chars "METER")
    else if k == histogram
    then some (chars "HISTOGRAM")
    else if k == timer
    then some (chars "TIMER")
    else if k == set
    then some (chars "SET")
    else if k == set_uniques
    then some (chars "SET_UNIQUES")
    else if k == percentile
    then some (chars "PERCENTILE")
    else none

abbrev Named : Text → ℕ → Type 0
Named u k = name_of k ≡ some u

of_upper-Named : (u : Text) (k : ℕ) → (of_upper u ≡ ok k) ↔ Named u k
unfolding of_upper
of_upper-Named u k = ground (
  arith,
  text_beq_iff u (chars "COUNTER"),
  text_beq_iff u (chars "GAUGE"),
  text_beq_iff u (chars "METER"),
  text_beq_iff u (chars "HISTOGRAM"),
  text_beq_iff u (chars "TIMER"),
  text_beq_iff u (chars "SET"),
  text_beq_iff u (chars "SET_UNIQUES"),
  text_beq_iff u (chars "PERCENTILE"),
)

-- A text is read as a kind exactly when its upper case is the name of that kind.
pub try_from_str_iff :
    (s : Text) (k : ℕ) → (try_from_str s ≡ ok k) ↔ (name_of k ≡ some (to_uppercase s))
unfolding try_from_str
try_from_str_iff s k = of_upper-Named (to_uppercase s) k
