-- ===== src/Tests/Steps.antt =====
-- The theorems of the aggregation steps and of the backends at concrete messages.
use ingraind.Prelude.{
  ℕ, ◌≡◌, refl, Text, chars, text_beq, none, some, [], ◌∷◌, map, ok, text_equality, if◌then◌else◌,
}
use ingraind.Backends.{Message, list, measurements}
use ingraind.Metrics.{Measurement}
use ingraind.Metrics.Units.{MeasureUnit}
use ingraind.Metrics.TagList.{Tags, get}
use ingraind.Metrics
use ingraind.Metrics.Kind
use ingraind.Metrics.Units
use ingraind.Aggregations.Whitelist as Whitelist
use ingraind.Aggregations.Regex as Regex
use ingraind.Aggregations.Regex.{Matcher}
use ingraind.Aggregations.Container.{Cgroups}
use ingraind.Aggregations.Exec as Exec
use ingraind.Tests.Samples.{whole_float, literal}

-- every file holds the same id
instance abbrev one_container : Cgroups
one_container = record {
  read_to_string = λ path. some (chars "abc");
  read_again = λ path. none;
  captures = λ s. some (some s);
}

abbrev tags : Tags
tags = (chars "process_id", chars "12") ∷ (chars "host", chars "a") ∷ []

abbrev pub sample : Measurement ℕ
sample = Metrics.new 7 1 (chars "m") (MeasureUnit.count 3) tags

abbrev message : Message ℕ
message = list (sample ∷ sample ∷ [])

abbrev only_host : Whitelist.Whitelist
only_host = Whitelist.launch (record { allow = chars "host" ∷ [] })

whitelist_tags_example :
    (map
        (λ (m : Measurement ℕ). get (chars "host") m.tags)
        (measurements (Whitelist.handle only_host message))
      ≡ map
          (λ (m : Measurement ℕ).
            if Whitelist.contains only_host.allowed (chars "host")
            then get (chars "host") m.tags
            else none)
          (measurements message))
    × (Whitelist.handle only_host (Whitelist.handle only_host message)
        ≡ Whitelist.handle only_host message)
whitelist_tags_example = Whitelist.whitelist_tags only_host message (chars "host")

abbrev rename : Regex.Rules Text
rename = (chars "host", (chars "a", chars "b")) ∷ []

abbrev rules : Exec.Exec Text
rules = record {
  command = chars "echo" ∷ chars "{ host }" ∷ [];
  rules = (chars "host", chars "a") ∷ [];
}

abbrev other_host : Measurement ℕ
other_host = record sample { tags = (chars "host", chars "b") ∷ [] }

count_read : Units.try_from_str (chars "count") 4 ≡ ok (MeasureUnit.count 4)
unfolding Units.try_from_str Kind.to_uppercase text_beq
count_read = refl

try_from_str-get_example :
    (Units.to_unit (Units.get_type (MeasureUnit.count 4)) 4 ≡ ok (MeasureUnit.count 4))
    × (Units.get (MeasureUnit.count 4) ≡ 4)
try_from_str-get_example = Units.try_from_str-get (chars "count") 4 (MeasureUnit.count 4) count_read
