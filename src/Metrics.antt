-- ===== src/Metrics.antt =====
-- src/metrics/mod.rs: tags, kinds, units and measurements.
pub mod TagList
pub mod Kind
pub mod Units
use ingraind.Prelude.{ℕ, ◌+◌, ◌*◌, Bool, true, Text, Option, some}
use ingraind.Float.{Float}
use ingraind.Metrics.TagList.{Tags}
use ingraind.Metrics.Units.{MeasureUnit}

-- `F` is the type of `f64`.
pub record Measurement (F : Type 0) : Type 0 where
  pub timestamp : ℕ
  pub kind : ℕ
  pub name : Text
  pub value : MeasureUnit
  pub sample_rate : Option F
  pub reset : Bool
  pub tags : Tags

module _ {F : Type 0} ⦃fl : Float F⦄ where
  abbrev pub with_timestamp : ℕ → ℕ → Text → MeasureUnit → Tags → Measurement F
  with_timestamp timestamp kind name value tags = record {
    timestamp = timestamp;
    kind = kind;
    name = name;
    value = value;
    sample_rate = some (fl.of_u64 1);
    reset = true;
    tags = tags;
  }

  -- `Measurement::new`; `now` is what `timestamp_now()` reads.
  abbrev pub new : ℕ → ℕ → Text → MeasureUnit → Tags → Measurement F
  new now kind name value tags = with_timestamp now kind name value tags

-- `timestamp_now`, from the seconds and the nanoseconds since the epoch that the clock gives
unfoldable pub timestamp_now : ℕ → ℕ → ℕ
timestamp_now secs subsec_nanos = secs * 1000000000 + subsec_nanos
