-- ===== src/Tests/Samples.antt =====
-- The parameters of the model at concrete values, and the data that the tests share: whole numbers
-- for `f64`, the number of tags for their hash, the largest value for a histogram.
use ingraind.Prelude.{
  ℕ, Text, Option, none, nat_equality, refl, text_equality, ◌==◌, some, leb, if◌then◌else◌, Bool,
  true, not, ◌&&◌, nat_beq, [], ◌∷◌, ◌≡◌, Lacks, arith,
}
use ingraind.Aggregations.Regex.{Matcher}
use ingraind.Float.{Float, whole}
use ingraind.Metrics.TagList
use ingraind.Metrics.TagList.{Tags}
use ingraind.Aggregations.Buffer.{Hasher, Histogram}
use ingraind.Grains.Statsd.Delivery.{Utf8}
use ingraind.Grains.CString.{Lossy}
use ingraind.Probes.Bpf.{BpfMap, HasRoom}

instance abbrev pub whole_float : Float ℕ
whole_float = whole

instance abbrev pub tag_count : Hasher
tag_count = record { hash_tags = TagList.len }

instance abbrev pub largest : Histogram ℕ ℕ
largest = record {
  empty = 0;
  saturating_record = λ n h. if leb n h then h else n;
  value_at_percentile = λ p h. h;
}

instance abbrev pub ascii : Utf8
ascii = record { from_utf8 = λ bytes. some bytes }

-- a pattern is the text that it matches
instance abbrev pub literal : Matcher Text
literal = record { compile = λ p. some p; is_match = λ r v. r == v }

-- whether a text lacks a character, for texts that are written out
abbrev pub lacks : ℕ → Text → Bool
lacks c [] = true
lacks c (x ∷ s) = not (nat_beq x c) && lacks c s

pub Lacks-lacks : (c : ℕ) (s : Text) → lacks c s ≡ true → Lacks c s
Lacks-lacks c [] h = tt
Lacks-lacks c (x ∷ s) h = ground (arith, Lacks-lacks c s)

-- a map with room for every key
abbrev pub Table : Type 0
Table = ℕ → Option ℕ

instance abbrev pub table : BpfMap ℕ ℕ Table
table = record {
  get = λ k m. m k;
  set = λ k v m j. if k == j then some v else m j;
  delete = λ k m j. if k == j then none else m j;
}

pub table-HasRoom : HasRoom table
table-HasRoom = record { get-set = λ k j v m. refl; get-delete = λ k j m. refl }

abbrev pub nothing : Table
nothing k = none

-- bytes as the characters of the same numbers
instance abbrev pub bytewise : Lossy
bytewise = record { from_utf8_lossy = λ bytes. bytes }
