-- ===== src/Backends/Encoders.antt =====
-- src/backends/encoders.rs: what is written of a measurement, as JSON and as Cap'n Proto. serde_json
-- and capnp write the bytes.
use ingraind.Prelude.{
  ℕ, ◌≡◌, refl, Text, chars, Option, none, some, List, [], ◌∷◌, map, Run, unwrap, ◌++◌, arith,
  if◌then◌else◌, ◌==◌, text_equality, foldl, ◌∙◌, ap, sym,
}
use ingraind.Prelude.Maps
use ingraind.Prelude.Maps.{Map, lookup, from_pairs, lookup-insert}
use ingraind.Float.{Float}
use ingraind.Metrics.{Measurement}
use ingraind.Metrics.Units
use ingraind.Metrics.Units.{MeasureUnit}
use ingraind.Metrics.TagList.{Tags, or_else}

pub data Encoding : Type 0 where
  json capnp : Encoding

unfoldable pub type_str : MeasureUnit → Text
type_str (MeasureUnit.byte x) = chars "byte"
type_str (MeasureUnit.count x) = chars "count"
type_str (MeasureUnit.str s) = chars "string"

unfoldable pub serialized_name : {F : Type 0} → Measurement F → Text
serialized_name msg = msg.name ++ (b'_' ∷ type_str msg.value)

pub record SerializedMeasurement : Type 0 where
  pub timestamp : ℕ
  pub kind : ℕ
  pub name : Text
  pub measurement : ℕ
  pub tags : Map Text Text

-- `SerializedMeasurement::from`; the tags are collected into a `HashMap`.
unfoldable pub serialized : {F : Type 0} → Measurement F → SerializedMeasurement
serialized msg = record {
  timestamp = msg.timestamp;
  kind = msg.kind;
  name = serialized_name msg;
  measurement = Units.get msg.value;
  tags = from_pairs msg.tags;
}

-- the value of the last tag with the key
abbrev pub last_value : Text → Tags → Option Text
last_value k [] = none
last_value k ((j, v) ∷ tags) = or_else (last_value k tags) (if j == k then some v else none)

or_else_assoc : (a b c : Option Text) → or_else (or_else a b) c ≡ or_else a (or_else b c)
or_else_assoc none b c = refl
or_else_assoc (some a) b c = refl

or_else_if :
    (j k v : Text) (o : Option Text)
    → (if j == k then some v else o) ≡ or_else (if j == k then some v else none) o
or_else_if j k v o = ground arith

lookup-foldl :
    (k : Text) (tags : Tags) (table : Map Text Text)
    → lookup k (foldl (λ m p. Maps.insert p.0 p.1 m) table tags)
      ≡ or_else (last_value k tags) (lookup k table)
lookup-foldl k [] table = refl
lookup-foldl k ((j, v) ∷ tags) table =
    lookup-foldl k tags (Maps.insert j v table)
    ∙ ap (or_else (last_value k tags))
        (lookup-insert j k v table ∙ or_else_if j k v (lookup k table))
    ∙ sym (or_else_assoc (last_value k tags) (if j == k then some v else none) (lookup k table))

or_else-none : (o : Option Text) → or_else o none ≡ o
or_else-none none = refl
or_else-none (some a) = refl

-- Of several tags with a key, the last one's value is written; no key is added and none is lost.
pub serialized_tag :
    {F : Type 0} (m : Measurement F) (k : Text) → lookup k (serialized m).tags ≡ last_value k m.tags
unfolding serialized from_pairs lookup
serialized_tag m k = lookup-foldl k m.tags [] ∙ or_else-none (last_value k m.tags)

-- a measurement of the Cap'n Proto payload; its tags stay a list
pub record CapnpMeasurement (F : Type 0) : Type 0 where
  pub timestamp : ℕ
  pub kind : ℕ
  pub name : Text
  pub measurement : F
  pub tags : Tags

-- the bytes that `serde_json::to_vec` writes of one value and of a list, and those of a payload
pub record Writers (F : Type 0) : Type 0 where
  pub value_to_vec : SerializedMeasurement → Option (List ℕ)
  pub list_to_vec : List SerializedMeasurement → Option (List ℕ)
  pub write_message : List (CapnpMeasurement F) → Option (List ℕ)

module _ {F : Type 0} ⦃fl : Float F⦄ where
  unfoldable pub capnp_measurement : Measurement F → CapnpMeasurement F
  capnp_measurement source = record {
    timestamp = source.timestamp;
    kind = source.kind;
    name = serialized_name source;
    measurement = fl.of_u64 (Units.get source.value);
    tags = source.tags;
  }

  module _ ⦃writers : Writers F⦄ where
    unfoldable pub measurement_to_json : Measurement F → Run (List ℕ)
    measurement_to_json measurement = unwrap (writers.value_to_vec (serialized measurement))

    unfoldable pub to_json : List (Measurement F) → Run (List ℕ)
    to_json measurements = unwrap (writers.list_to_vec (map serialized measurements))

    unfoldable pub to_capnp : List (Measurement F) → Run (List ℕ)
    unfolding capnp_measurement
    to_capnp src = unwrap (writers.write_message (map capnp_measurement src))

    unfoldable pub encode : Encoding → List (Measurement F) → Run (List ℕ)
    unfolding to_json to_capnp
    encode Encoding.json measurements = to_json measurements
    encode Encoding.capnp measurements = to_capnp measurements
