-- ===== src/Metrics/TagList.antt =====
-- `Tags` of src/metrics/mod.rs: an ordered list of pairs, in which a key may occur more than once.
use ingraind.Prelude.{
  ℕ, ◌≡◌, refl, ◌&&◌, Text, Option, none, some, List, [], ◌∷◌, ◌++◌, arith, length, take, drop,
  if◌then◌else◌, ◌==◌, Run, ok, err, panic, leb, text_equality,
}

abbrev pub Tags : Type 0
Tags = List (Text × Text)

abbrev pub new : Tags
new = []

abbrev pub len : Tags → ℕ
len = length

-- No check for a key that is there: `get` then goes on finding the first.
unfoldable pub insert : Text → Text → Tags → Tags
insert k v tags = tags ++ (k, v) ∷ []

-- both lists after `self.append(other)`
unfoldable pub append : Tags → Tags → Tags × Tags
append tags other = (tags ++ other, [])

-- `drain(start..stop)`: what is taken out, and what stays
unfoldable pub drain : ℕ → ℕ → Tags → Run (Tags × Tags)
drain start stop tags =
    if leb start stop && leb stop (length tags)
    then ok (drop start (take stop tags), take start tags ++ drop stop tags)
    else err panic

unfoldable pub get : Text → Tags → Option Text
get k [] = none
get k ((tk, tv) ∷ tags) = if tk == k then some tv else get k tags

-- the first value, and if there is none the second
abbrev pub or_else : Option Text → Option Text → Option Text
or_else (some v) o = some v
or_else none o = o

pub get-append : (k : Text) (a b : Tags) → get k (a ++ b) ≡ or_else (get k a) (get k b)
unfolding get
get-append k [] b = refl
get-append k ((tk, tv) ∷ a) b = ground (arith, get-append k a b)

-- After an insertion, a key that had a value keeps that one; the new value is found only under
-- its own key, where there was none.
pub get-insert :
    (k j v : Text) (tags : Tags)
    → get k (insert j v tags) ≡ or_else (get k tags) (if j == k then some v else none)
unfolding insert get
get-insert k j v tags = get-append k tags ((j, v) ∷ [])
