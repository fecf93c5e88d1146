-- ===== src/Grains/Syscalls/Symbols.antt =====
-- The symbol map of src/grains/syscalls.rs from a file that is written like /proc/kallsyms.
use ingraind.Prelude.{
  ℕ, suc, ◌≡◌, refl, ap, ◌∙◌, Text, Option, none, some, List, [], ◌∷◌, ◌++◌, append-nil, map,
  nat_equality, All, Lacks, split_once-append, split_once-none, split, lines, lines-append, ok,
  try_map,
}
use ingraind.Prelude.Maps.{from_pairs}
use ingraind.Grains.Syscalls.{splitn, from_hex, symbol, parse_symbol_map}

-- a line: the address as it is written, its value, the type, the name, and what follows the name if there is
-- another blank
pub record Line : Type 0 where
  pub written : Text
  pub address : ℕ
  pub kind : Text
  pub name : Text
  pub behind : Option Text

abbrev behind_text : Option Text → Text
behind_text none = []
behind_text (some t) = b' ' ∷ t

abbrev behind_parts : Option Text → List Text
behind_parts none = []
behind_parts (some t) = t ∷ []

-- the text of a line
abbrev pub text_of : Line → Text
text_of l = l.written ++ b' ' ∷ (l.kind ++ b' ' ∷ (l.name ++ behind_text l.behind))

abbrev pub file_of : List Line → Text
file_of [] = []
file_of (l ∷ ls) = text_of l ++ b'\n' ∷ file_of ls

-- the written address has that value, the parts hold no blank, and the line is one line
abbrev pub IsLine : Line → Type 0
IsLine l =
    (from_hex l.written ≡ some l.address)
    × Lacks b' ' l.written
    × Lacks b' ' l.kind
    × Lacks b' ' l.name
    × Lacks b'\n' (text_of l)
    × Lacks b'\r' (text_of l)

splitn-append :
    (n : ℕ) (a b : Text)
    → Lacks b' ' a
    → splitn (suc (suc n)) b' ' (a ++ b' ' ∷ b) ≡ a ∷ splitn (suc n) b' ' b
unfolding splitn
splitn-append n a b h =
    rw (split_once-append b' ' a b h, splitn)
      (ap (λ (p : Text × Option Text). p.0 ∷ splitn (suc n) b' ' b) (split_once-append b' ' a b h))

splitn-last :
    (name : Text) (behind : Option Text)
    → Lacks b' ' name
    → splitn 2 b' ' (name ++ behind_text behind) ≡ name ∷ behind_parts behind
unfolding splitn
splitn-last name none h =
    ap (splitn 2 b' ') (append-nil name)
    ∙ rw (split_once-none b' ' name h, splitn)
        (ap (λ (p : Text × Option Text). p.0 ∷ []) (split_once-none b' ' name h))
splitn-last name (some t) h = splitn-append 0 name t h

splitn-text_of :
    (l : Line)
    → IsLine l
    → splitn 4 b' ' (text_of l) ≡ l.written ∷ l.kind ∷ l.name ∷ behind_parts l.behind
unfolding splitn
splitn-text_of l h =
    splitn-append 2 l.written _ h.1
    ∙ ap (λ r. l.written ∷ r)
        (splitn-append 1 l.kind _ h.2 ∙ ap (λ r. l.kind ∷ r) (splitn-last l.name l.behind h.3))

symbol-text_of : (l : Line) → IsLine l → symbol (text_of l) ≡ ok (l.address, l.name)
unfolding symbol
symbol-text_of l h = rw (splitn-text_of l h) (rw (h.0) refl)

symbols-file_of :
    (ls : List Line)
    → All IsLine ls
    → try_map symbol (lines (file_of ls)) ≡ ok (map (λ (l : Line). (l.address, l.name)) ls)
unfolding try_map lines split
symbols-file_of [] h = refl
symbols-file_of (l ∷ ls) h =
    ap (try_map symbol) (lines-append (text_of l) (file_of ls) h.0.4 h.0.5)
    ∙ rw (symbol-text_of l h.0) (rw (symbols-file_of ls h.1) refl)

-- A file of symbols, in whose lines the addresses are hexadecimal numbers and blanks stand only between
-- the parts, is read back: the map holds the name of each address that a line has, the last
-- line's where an address has more than one.
pub parse_symbol_map-file_of :
    (ls : List Line)
    → All IsLine ls
    → parse_symbol_map (file_of ls) ≡ ok (from_pairs (map (λ (l : Line). (l.address, l.name)) ls))
unfolding parse_symbol_map
parse_symbol_map-file_of ls h = rw (symbols-file_of ls h) refl
