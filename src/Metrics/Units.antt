-- ===== src/Metrics/Units.antt =====
-- `Unit` and `UnitType` of src/metrics/mod.rs.
use ingraind.Prelude.{
  ℕ, ◌≡◌, Bool, true, false, refl, Text, arith, if◌then◌else◌, ◌==◌, ok, err, Result, Run, panic,
  chars, text_equality, inl, inr, Bool-cases,
}
use ingraind.Metrics.Kind.{to_uppercase}

-- `Unit` of the source
pub data MeasureUnit : Type 0 where
  byte : ℕ → MeasureUnit
  count : ℕ → MeasureUnit
  str : Text → MeasureUnit

pub data UnitType : Type 0 where
  byte count str : UnitType

-- `UnitType::to_unit` panics on `Str`.
unfoldable pub to_unit : UnitType → ℕ → Run MeasureUnit
to_unit UnitType.byte val = ok (MeasureUnit.byte val)
to_unit UnitType.count val = ok (MeasureUnit.count val)
to_unit UnitType.str val = err panic

unfoldable pub to_unit_str : UnitType → Text → MeasureUnit
to_unit_str t val = MeasureUnit.str val

-- `Unit::get`
unfoldable pub get : MeasureUnit → ℕ
get (MeasureUnit.byte x) = x
get (MeasureUnit.count x) = x
get (MeasureUnit.str _) = 0

unfoldable pub get_type : MeasureUnit → UnitType
get_type (MeasureUnit.byte _) = UnitType.byte
get_type (MeasureUnit.count _) = UnitType.count
get_type (MeasureUnit.str _) = UnitType.str

unfoldable pub try_from_str : Text → ℕ → Result (Unit {0}) MeasureUnit
unfolding to_uppercase
try_from_str s val =
    let u = to_uppercase s in
    if u == chars "BYTE"
    then ok (MeasureUnit.byte val)
    else if u == chars "COUNT"
    then ok (MeasureUnit.count val)
    else err tt

abbrev pub is_str : MeasureUnit → Bool
is_str (MeasureUnit.str _) = true
is_str _ = false

-- A unit is rebuilt from its type and its number, except a text: that type panics, and its
-- number reads 0.
pub to_unit-get_type :
    (u : MeasureUnit) → to_unit (get_type u) (get u) ≡ (if is_str u then err panic else ok u)
unfolding to_unit get_type get
to_unit-get_type (MeasureUnit.byte x) = refl
to_unit-get_type (MeasureUnit.count x) = refl
to_unit-get_type (MeasureUnit.str s) = refl

-- What a number is read into is never a text, whatever the number, and holds that number.
pub try_from_str-get :
    (s : Text) (val : ℕ) (u : MeasureUnit)
    → try_from_str s val ≡ ok u
    → (to_unit (get_type u) val ≡ ok u) × (get u ≡ val)
unfolding try_from_str to_unit get_type get
try_from_str-get s val u h = ground arith

-- Whether a text names a unit does not depend on the number.
pub try_from_str_total :
    (s : Text) (a b : ℕ) (u : MeasureUnit)
    → try_from_str s a ≡ ok u
    → (w : MeasureUnit) × (try_from_str s b ≡ ok w)
unfolding try_from_str
try_from_str_total s a b u h = elim (Bool-cases (to_uppercase s == chars "BYTE")) [
  | inl e ↦ (MeasureUnit.byte b, ground arith)
  | inr e ↦ (MeasureUnit.count b, ground arith)
]
