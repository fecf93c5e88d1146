-- ===== src/Aggregations/Exec/Spawned.antt =====
-- Which commands the step of src/aggregations/exec.rs runs for the measurements of a message.
use ingraind.Prelude.{
  ◌≡◌, ◌⊎◌, Text, Option, none, some, List, [], ◌∷◌, ◌++◌, nat_equality, All, Each,
}
use ingraind.Prelude.Maps.{or_default}
use ingraind.Prelude.Blanks.{trim}
use ingraind.Metrics.{Measurement}
use ingraind.Metrics.TagList.{Tags, get}
use ingraind.Aggregations.Regex.{Matcher}
use ingraind.Aggregations.Exec.{Exec, Spawn, Fits}

abbrev pub braced : Text → Text
braced inner = b'{' ∷ (inner ++ b'}' ∷ [])

-- What is passed for an argument: for one in braces the value of the first tag with the key between them,
-- blanks around the key aside, if there is such a tag, and the argument itself for any other one.
abbrev pub Filled : Tags → Text → Text → Type 0
Filled tags a passed =
    ((inner : Text) × (a ≡ braced inner) × (passed ≡ or_default (get (trim inner) tags) a))
    ⊎ ((¬ ((inner : Text) × (a ≡ braced inner))) × (passed ≡ a))

module _ {R F : Type 0} ⦃re : Matcher R⦄ where
  -- the command is run with its arguments filled in if all tags with a rule match it, and not at all else
  abbrev pub Runs : Exec R → Text → List Text → Measurement F → Option Spawn → Type 0
  Runs exec program args m spawned =
      (All (Fits exec.rules) m.tags
        × ((name : Text) × (passed : List Text) × (spawned ≡ some (name, passed))
            × Filled m.tags program name
            × Each (Filled m.tags) args passed))
      ⊎ ((¬ All (Fits exec.rules) m.tags) × (spawned ≡ none))
