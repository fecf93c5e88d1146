-- ===== src/Backends.antt =====
-- src/backends/mod.rs: the messages that grains, aggregators and backends pass on.
pub mod Http
pub mod Encoders
pub mod Statsd
pub mod Console
pub mod S3
use ingraind.Prelude.{List, [], ◌∷◌, map, ◌≡◌, ap, map_fuse}
use ingraind.Metrics.{Measurement}

pub data Message (F : Type 0) : Type 0 where
  single : Measurement F → Message F
  list : List (Measurement F) → Message F

module _ {F : Type 0} where
  -- the measurements of a message, in order
  abbrev pub measurements : Message F → List (Measurement F)
  measurements (single m) = m ∷ []
  measurements (list ms) = ms

  -- `par_iter_mut().for_each(f)` on a list, `f` on a single measurement: each is changed by itself
  abbrev pub for_each : (Measurement F → Measurement F) → Message F → Message F
  for_each f (single m) = single (f m)
  for_each f (list ms) = list (map f ms)

module _ {F B : Type 0} where
  -- what is read of the measurements behind a step that changes each by itself
  pub map-for_each :
      (f : Measurement F → B) (g : Measurement F → Measurement F) (h : Measurement F → B)
      → ((m : Measurement F) → f (g m) ≡ h m)
      → (msg : Message F) → map f (measurements (for_each g msg)) ≡ map h (measurements msg)
  map-for_each f g h each (single m) = ap (λ x. x ∷ []) (each m)
  map-for_each f g h each (list ms) = map_fuse f g h each ms

module _ {F : Type 0} where
  -- a step that changes nothing any more behind another
  pub for_each-for_each :
      (f g : Measurement F → Measurement F)
      → ((m : Measurement F) → f (g m) ≡ g m)
      → (msg : Message F) → for_each f (for_each g msg) ≡ for_each g msg
  for_each-for_each f g same (single m) = ap single (same m)
  for_each-for_each f g same (list ms) = ap list (map_fuse f g g same ms)
