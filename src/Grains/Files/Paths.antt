-- ===== src/Grains/Files/Paths.antt =====
-- The path that src/grains/file.rs makes of the segments which ingraind-probes/src/file/main.rs
-- writes: from the name of the file to that of the root, and empty behind it.
use ingraind.Prelude.{
  ℕ, zero, suc, ◌+◌, ◌≡◌, refl, ap, ap₂, sym, ◌∙◌, false, Text, chars, List, [], ◌∷◌, ◌++◌, map,
  reverse, reverse-append, reverse-cons, reverse-reverse, map-append, map_fuse, append_assoc, ◌==◌,
  nat_equality, arith, length, length-append, drop, replicate, All, All-weaken, join,
}
use ingraind.Grains.CString.{Lossy, until_zero, until_zero-append}
use ingraind.Grains.Files.{path_of, segment_text, trim_slashes}
use ingraind.Probes.File.{PathList, no_segment, path_list_len, write_segment}
use ingraind.Probes.File.Lineage.{Node, filled}

-- a name of a file: not empty, and without a slash in front
abbrev pub IsName : Text → Type 0
IsName [] = ⊥
IsName (c ∷ s) = (c == b'/') ≡ false

trim_slashes-name : (c : ℕ) (s : Text) → (c == b'/') ≡ false → trim_slashes (c ∷ s) ≡ c ∷ s
unfolding trim_slashes
trim_slashes-name c s h = ground arith

trim_slashes-join :
    (names : List Text)
    → All IsName names
    → trim_slashes (join (chars "/") names) ≡ join (chars "/") names
unfolding trim_slashes
trim_slashes-join [] h = refl
trim_slashes-join ((c ∷ s) ∷ []) h = trim_slashes-name c s h.0
trim_slashes-join ((c ∷ s) ∷ t ∷ names) h = trim_slashes-name c _ h.0
trim_slashes-join ([] ∷ names) h = absurd h.0

-- in front of the names: nothing in a text, or a slash in each of some
trim_slashes-root :
    (names : List Text)
    → All IsName names
    → trim_slashes (join (chars "/") (chars "/" ∷ names)) ≡ join (chars "/") names
unfolding trim_slashes
trim_slashes-root [] h = refl
trim_slashes-root (t ∷ names) h = trim_slashes-join (t ∷ names) h

trim_slashes-empties :
    (j : ℕ) (names : List Text)
    → All IsName names
    → trim_slashes (join (chars "/") (replicate j [] ++ chars "/" ∷ names)) ≡ join (chars "/") names
unfolding trim_slashes
trim_slashes-empties zero names h = trim_slashes-root names h
trim_slashes-empties (suc zero) names h = trim_slashes-root names h
trim_slashes-empties (suc (suc j)) names h = trim_slashes-empties (suc j) names h

replicate-snoc : {A : Type 0} (j : ℕ) (a : A) → replicate j a ++ (a ∷ []) ≡ a ∷ replicate j a
replicate-snoc zero a = refl
replicate-snoc (suc j) a = ap (λ r. a ∷ r) (replicate-snoc j a)

reverse-replicate : {A : Type 0} (j : ℕ) (a : A) → reverse (replicate j a) ≡ replicate j a
reverse-replicate zero a = refl
reverse-replicate (suc j) a =
    reverse-cons a (replicate j a)
    ∙ ap (λ r. r ++ (a ∷ [])) (reverse-replicate j a)
    ∙ replicate-snoc j a

write_segment-append :
    (i : ℕ) (w s : List ℕ) (done rest : PathList)
    → length done ≡ i
    → write_segment i w (done ++ s ∷ rest) ≡ done ++ (w ++ drop (length w) s) ∷ rest
write_segment-append zero w s [] rest h = refl
write_segment-append zero w s (_ ∷ _) rest h = absurd (omega (arith, h))
write_segment-append (suc i) w s [] rest h = absurd (omega (arith, h))
write_segment-append (suc i) w s (d ∷ done) rest h =
    ap (λ r. d ∷ r) (write_segment-append i w s done rest (omega (arith, h)))

map-reverse : {A B : Type 0} (f : A → B) (xs : List A) → map f (reverse xs) ≡ reverse (map f xs)
map-reverse f [] = refl
map-reverse f (x ∷ xs) =
    ap (map f) (reverse-cons x xs)
    ∙ map-append f (reverse xs) (x ∷ [])
    ∙ ap (λ r. r ++ (f x ∷ [])) (map-reverse f xs)
    ∙ sym (reverse-cons (f x) (map f xs))

map-replicate :
    {A B : Type 0} (f : A → B) (j : ℕ) (a : A) → map f (replicate j a) ≡ replicate j (f a)
map-replicate f zero a = refl
map-replicate f (suc j) a = ap (λ r. f a ∷ r) (map-replicate f j a)

-- a segment that a string is written to
abbrev pad : List ℕ → List ℕ
pad w = w ++ drop (length w) no_segment

filled-replicate :
    (nodes : List Node) (i j k : ℕ) (done : PathList)
    → length done ≡ i
    → length nodes + j ≡ k
    → filled i nodes (done ++ replicate k no_segment)
      ≡ done ++ (map (λ (node : Node). pad node.name) nodes ++ replicate j no_segment)
filled-replicate [] i j k done h e = ap (λ m. done ++ replicate m no_segment) (omega (arith, e))
filled-replicate (node ∷ nodes) i j zero done h e = absurd (omega (arith, e))
filled-replicate (node ∷ nodes) i j (suc k) done h e =
    ap (filled (i + 1) nodes) (
      write_segment-append i node.name no_segment done (replicate k no_segment) h
      ∙ sym (append_assoc done (pad node.name ∷ []) (replicate k no_segment)))
    ∙ filled-replicate nodes (i + 1) j k (done ++ (pad node.name ∷ []))
        (length-append done _ ∙ omega (arith, h)) (omega (arith, e))
    ∙ append_assoc done (pad node.name ∷ []) _

-- a name as `bpf_probe_read_str` writes it, with the zero that ends it
abbrev pub ended : List ℕ → List ℕ
ended name = name ++ 0 ∷ []

abbrev NoZero : List ℕ → Type 0
NoZero = All (λ b. (b == 0) ≡ false)

module _ ⦃lossy : Lossy⦄ where
  -- a name of a directory or a file, as bytes
  abbrev pub IsComponent : List ℕ → Type 0
  IsComponent name = NoZero name × IsName (lossy.from_utf8_lossy name)

  -- what `from_utf8_lossy` makes of ASCII, as far as it is needed
  abbrev pub KeepsAscii : Type 0
  KeepsAscii = (lossy.from_utf8_lossy [] ≡ []) × (lossy.from_utf8_lossy (chars "/") ≡ chars "/")

  segment_text-ended :
      (name : List ℕ) → NoZero name → segment_text (pad (ended name)) ≡ lossy.from_utf8_lossy name
  segment_text-ended name h =
      ap lossy.from_utf8_lossy
        (ap until_zero (append_assoc name (0 ∷ []) _) ∙ until_zero-append name _ h)

  texts :
      (names : List (List ℕ))
      → All NoZero names
      → map segment_text (map pad (map ended names)) ≡ map lossy.from_utf8_lossy names
  texts [] h = refl
  texts (name ∷ names) h = ap₂ ◌∷◌ (segment_text-ended name h.0) (texts names h.1)

  All-map_names :
      (names : List (List ℕ)) → All IsComponent names → All IsName (map lossy.from_utf8_lossy names)
  All-map_names [] h = tt
  All-map_names (name ∷ names) h = (h.0.1, All-map_names names h.1)

  -- the texts of the segments from the last to the first
  texts_of :
      (nodes : List Node) (names : List (List ℕ)) (j : ℕ)
      → All NoZero names
      → lossy.from_utf8_lossy [] ≡ []
      → map (λ (node : Node). node.name) nodes ≡ reverse (map ended names)
      → length nodes + j ≡ path_list_len
      → map segment_text (reverse (filled 0 nodes (replicate path_list_len no_segment)))
        ≡ replicate j [] ++ map lossy.from_utf8_lossy names
  unfolding until_zero
  texts_of nodes names j h empty same e =
      let padded : map (λ (node : Node). pad node.name) nodes
          ≡ reverse (map pad (map ended names)) =
        sym (
          map_fuse pad (λ (node : Node). node.name) (λ (node : Node). pad node.name) (λ _. refl)
            nodes)
        ∙ ap (map pad) same
        ∙ map-reverse pad (map ended names) in
      let turned : reverse (filled 0 nodes (replicate path_list_len no_segment))
          ≡ replicate j no_segment ++ map pad (map ended names) =
        ap reverse (
          filled-replicate nodes 0 j path_list_len [] refl e
          ∙ ap (λ r. r ++ replicate j no_segment) padded)
        ∙ reverse-append (reverse (map pad (map ended names))) (replicate j no_segment)
        ∙ ap₂ ◌++◌ (reverse-replicate j no_segment) (reverse-reverse (map pad (map ended names))) in
      ap (map segment_text) turned
      ∙ map-append segment_text (replicate j no_segment) (map pad (map ended names))
      ∙ ap₂ ◌++◌ (map-replicate segment_text j no_segment ∙ ap (replicate j) empty) (texts names h)

  -- If the probe wrote the names of a file and of all its ancestors, as many as fit the list, the path
  -- of the access is the names below the root joined by slashes, the root's name and the segments
  -- left empty being trimmed off. The names hold no zero and come out neither empty nor with a slash in
  -- front, and `from_utf8_lossy` keeps the empty text and the slash.
  pub path_of-filled :
      (nodes : List Node) (names : List (List ℕ)) (j : ℕ)
      → KeepsAscii
      → All IsComponent names
      → map (λ (node : Node). node.name) nodes ≡ reverse (map ended (chars "/" ∷ names))
      → length nodes + j ≡ path_list_len
      → path_of (filled 0 nodes (replicate path_list_len no_segment))
        ≡ join (chars "/") (map lossy.from_utf8_lossy names)
  unfolding path_of
  path_of-filled nodes names j ascii h same e =
      ap (λ ts. trim_slashes (join (chars "/") ts))
        (texts_of nodes (chars "/" ∷ names) j
            ((refl, tt), All-weaken IsComponent NoZero (λ _ c. c.0) names h) ascii.0 same e
          ∙ ap (λ t. replicate j [] ++ (t ∷ map lossy.from_utf8_lossy names)) ascii.1)
      ∙ trim_slashes-empties j (map lossy.from_utf8_lossy names) (All-map_names names h)
