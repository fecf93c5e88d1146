-- ===== src/Grains/Osquery/Rows.antt =====
-- The JSON that osqueryi prints, read into measurements: src/grains/osquery.rs, 156-233.
use ingraind.Prelude.{
  ℕ, Bool, true, false, Text, chars, Option, none, some, List, [], ◌∷◌, ◌++◌, if◌then◌else◌, ◌==◌,
  nat_equality, text_equality, Result, ok, ◌>>=◌, ok_or, try_map,
}
use ingraind.Prelude.Blanks.{trim}
use ingraind.Prelude.Maps.{or_default}
use ingraind.Prelude.Number.{parse_u64}
use ingraind.Float.{Float}
use ingraind.Metrics
use ingraind.Metrics.{Measurement}
use ingraind.Metrics.Kind
use ingraind.Metrics.Units
use ingraind.Metrics.TagList
use ingraind.Metrics.TagList.{Tags}
use ingraind.Grains.Statsd.Delivery.{Utf8}
use ingraind.Grains.Osquery.{
  QueryConfig, error, json_error, io_error, Stop, panicked, failed, or_panic,
}

-- `serde_json::Value`: `from_slice` reads one, `as_str` is the string of a `Value::String`, and
-- `to_string` writes a value; of a Boolean or a number it writes what the value inside is written as.
pub record Json (J : Type 0) : Type 0 where
  pub from_slice : Text → Option J
  pub as_array : J → Option (List J)
  pub as_object : J → Option (List (Text × J))
  pub as_str : J → Option Text
  pub to_string : J → Text

module _ {J : Type 0} ⦃json : Json J⦄ where
  -- a field's value as the value of a tag
  unfoldable pub tag_value : J → Text
  tag_value v = elim (json.as_str v) [ none ↦ json.to_string v | some s ↦ s ]

  -- what a field is measured as, if it is the measurement: a string, 0 if it is no number
  unfoldable pub measured : Text → Text → J → Option ℕ
  measured name k v =
      if k == name
      then elim (json.as_str v) [ none ↦ none | some s ↦ some (or_default (parse_u64 s) 0) ]
      else none

  -- the loop over the fields of a row
  unfoldable pub row_fields : Text → List (Text × J) → Tags → ℕ → Tags × ℕ
  row_fields name [] tags n = (tags, n)
  row_fields name ((k, v) ∷ fields) tags n = elim (measured name k v) [
    | none ↦ row_fields name fields (TagList.insert k (tag_value v) tags) n
    | some m ↦ row_fields name fields tags m
  ]

module _ {J F : Type 0} ⦃json : Json J⦄ ⦃fl : Float F⦄ where
  -- `now` is what `timestamp_now` reads.
  unfoldable pub measurement_from_row : ℕ → QueryConfig → J → Result Stop (Measurement F)
  measurement_from_row now config row = do
    obj ← ok_or (json.as_object row) (failed error)
    aggregation ← ok_or config.aggregation_type panicked
    kind ← or_panic (Kind.try_from_str aggregation)
    unit ←
        or_panic
          (Units.try_from_str config.measurement_type (row_fields config.measurement obj [] 0).1)
    ok (
        Metrics.new now kind (chars "osquery." ++ config.name) unit
          (row_fields config.measurement obj [] 0).0)

  unfoldable pub measurements_from_rows : ℕ → QueryConfig → J → Result Stop (List (Measurement F))
  measurements_from_rows now config rows =
      ok_or (json.as_array rows) (failed error) >>= try_map (measurement_from_row now config)

module _ (J : Type 0) {F : Type 0} ⦃json : Json J⦄ ⦃fl : Float F⦄ where
  -- the text of one result
  unfoldable pub read_rows : ℕ → QueryConfig → Text → Result Stop (List (Measurement F))
  read_rows now config text =
      ok_or (json.from_slice text) (failed json_error) >>= measurements_from_rows now config

-- the lines that `read_line` gives, each with its line feed
unfoldable pub read_lines : List ℕ → List (List ℕ)
read_lines [] = []
read_lines (c ∷ cs) =
    let rest = read_lines cs in
    if c == b'\n'
    then (c ∷ []) ∷ rest
    else (elim rest [ [] ↦ (c ∷ []) ∷ [] | l ∷ ls ↦ (c ∷ l) ∷ ls ])

-- the line that ends a result
unfoldable pub closes : Text → Bool
closes line = trim line == chars "]"

module _ (J : Type 0) {F : Type 0} ⦃json : Json J⦄ ⦃fl : Float F⦄ ⦃utf8 : Utf8⦄ where
  -- The loop over the lines. A line that is no UTF-8 ends it with an error; lines behind the last
  -- closing line are dropped.
  unfoldable pub process_lines :
      ℕ → QueryConfig → Text → List (List ℕ) → Result Stop (List (Measurement F))
  process_lines now config accum [] = ok []
  process_lines now config accum (bytes ∷ rest) =
      ok_or (utf8.from_utf8 bytes) (failed io_error) >>= λ line. elim (closes line) [
        | true ↦ read_rows J now config (accum ++ line) >>= λ ms.
            process_lines now config [] rest >>= λ later. ok (ms ++ later)
        | false ↦ process_lines now config (accum ++ line) rest
      ]

  unfoldable pub process_query_result :
      ℕ → QueryConfig → List ℕ → Result Stop (List (Measurement F))
  process_query_result now config data_bytes = process_lines now config [] (read_lines data_bytes)
