-- ===== src/Aggregations/Whitelist.antt =====
-- src/aggregations/whitelist.rs: only the tags whose key is allowed pass.
use ingraind.Prelude.{
  ◌≡◌, refl, Bool, true, false, ◌||◌, Text, none, List, [], ◌∷◌, map, arith, if◌then◌else◌, ◌==◌,
  text_equality, retain, All, text_beq_iff, ap,
}
use ingraind.Backends.{Message, for_each, measurements, map-for_each, for_each-for_each}
use ingraind.Metrics.{Measurement}
use ingraind.Metrics.TagList.{Tags, get}

pub record WhitelistConfig : Type 0 where
  pub allow : List Text

-- the actor's set of keys, as the list that it is collected from
pub record Whitelist : Type 0 where
  pub allowed : List Text

unfoldable pub launch : WhitelistConfig → Whitelist
launch config = record { allowed = config.allow }

-- `HashSet::contains`
abbrev pub contains : List Text → Text → Bool
contains [] k = false
contains (x ∷ xs) k = x == k || contains xs k

module _ {F : Type 0} where
  unfoldable pub filter_tags : Whitelist → Measurement F → Measurement F
  filter_tags whitelist msg = record msg {
    tags = retain (λ p. contains whitelist.allowed p.0) msg.tags;
  }

  unfoldable pub handle : Whitelist → Message F → Message F
  unfolding filter_tags
  handle whitelist msg = for_each (filter_tags whitelist) msg

pub get-retain :
    (xs : List Text) (k : Text) (tags : Tags)
    → get k (retain (λ p. contains xs p.0) tags) ≡ (if contains xs k then get k tags else none)
unfolding get
get-retain xs k [] = ground arith
get-retain xs k ((j, v) ∷ tags) = ground (arith, text_beq_iff j k, get-retain xs k tags)

retain_again :
    (xs : List Text) (tags : Tags)
    → All (λ p. contains xs p.0 ≡ true) tags
    → retain (λ p. contains xs p.0) tags ≡ tags
retain_again xs [] h = refl
retain_again xs (p ∷ tags) h = ground (arith, retain_again xs tags h.1)

passing :
    (xs : List Text) (tags : Tags)
    → All (λ p. contains xs p.0 ≡ true) (retain (λ p. contains xs p.0) tags)
passing xs [] = tt
passing xs (p ∷ tags) = ground (arith, passing xs tags)

module _ {F : Type 0} where
  filter_tags_again :
      (whitelist : Whitelist) (m : Measurement F)
      → filter_tags whitelist (filter_tags whitelist m) ≡ filter_tags whitelist m
  unfolding filter_tags
  filter_tags_again whitelist m =
      ap (λ (tags : Tags). record m { tags = tags })
        (retain_again whitelist.allowed _ (passing whitelist.allowed m.tags))

  -- Of every measurement that goes through, in its place, exactly the tags with an allowed key are
  -- found, with the values that they had; and what has gone through once passes as it is.
  pub whitelist_tags :
      (whitelist : Whitelist) (msg : Message F) (k : Text)
      → (map (λ m. get k m.tags) (measurements (handle whitelist msg))
          ≡ map
              (λ m. if contains whitelist.allowed k then get k m.tags else none)
              (measurements msg))
        × (handle whitelist (handle whitelist msg) ≡ handle whitelist msg)
  unfolding handle
  whitelist_tags whitelist msg k = (
    map-for_each (λ m. get k m.tags) (filter_tags whitelist)
        (λ m. if contains whitelist.allowed k then get k m.tags else none)
        (λ m. get-retain whitelist.allowed k m.tags) msg,
    for_each-for_each (filter_tags whitelist) (filter_tags whitelist) (filter_tags_again whitelist)
        msg,
  )
