-- ===== src/Tests/Statsd.antt =====
-- src/grains/statsd.rs: the unit tests, and the theorems at lines of theirs.
use ingraind.Prelude.{
  List, Bool, ltb, ◌&&◌, if◌then◌else◌, String, ℕ, ◌≡◌, refl, true, false, Text, none, some, [],
  ◌∷◌, chars, Result, ok, err, try_map, split_once, split, lines, arith, ◌≢◌, text_beq, map,
}
use ingraind.Prelude.Number.{digits_from, parse_unsigned}
use ingraind.Metrics.TagList
use ingraind.Grains.Statsd.{
  Metric, counter, timing, gauge, set, MetricError, parse_metric, parse_metrics, parse_fields,
  parse_parts, parse_part, parse_tag, parse_value, nonempty,
}
use ingraind.Grains.Statsd.Grammar.{Line, rate, tag, write, metric_of, IsLine, parse_metric-write}
use ingraind.Grains.Statsd.Sound.{parse_metric_sound}
use ingraind.Grains.Statsd.Delivery.{to_message, decode, handle, Utf8}
use ingraind.Grains.Recipients.{do_send}
use ingraind.Grains.Statsd.Served as Served
use ingraind.Tests.Samples.{whole_float}

abbrev parsed : Text → Result MetricError (Metric ℕ)
parsed = parse_metric

abbrev read : String → Result MetricError (Metric ℕ)
read s = parsed (chars s)

-- `test_parse_counter`, `test_parse_gauge`, `test_parse_set` and `test_parse_tags_many`
parses :
    (read "foo:1|c"
      ≡ ok (record { key = chars "foo"; value = counter 1; sample_rate = none; tags = [] }))
    × (read "foo:42|g"
        ≡ ok (record { key = chars "foo"; value = gauge 42 true; sample_rate = none; tags = [] }))
    × (read "foo:+42|g"
        ≡ ok (record { key = chars "foo"; value = gauge 42 false; sample_rate = none; tags = [] }))
    × (read "foo:42|s"
        ≡ ok
            (record { key = chars "foo"; value = set (chars "42"); sample_rate = none; tags = [] }))
    × (read "foo:1|c|#bar:baz|#bao:bab"
        ≡ ok (record {
          key = chars "foo";
          value = counter 1;
          sample_rate = none;
          tags = (chars "bar", chars "baz") ∷ (chars "bao", chars "bab") ∷ [];
        }))
unfolding parse_metric parse_fields parse_parts parse_part parse_tag parse_value nonempty split_once
    split digits_from parse_unsigned TagList.insert text_beq
parses = (refl, refl, refl, refl, refl)

-- `test_parse_metric_errors`
refusals :
    (read "" ≡ err MetricError.error)
    × (read "foo" ≡ err MetricError.error)
    × (read "foo:" ≡ err MetricError.value_error)
    × (read "foo:bar" ≡ err MetricError.type_error)
    × (read "foo:bar|" ≡ err MetricError.type_error)
    × (read "foo:bar|baz" ≡ err MetricError.type_error)
    × (read "foo:1234|ms|" ≡ err MetricError.error)
    × (read "foo:1234|ms|bar" ≡ err MetricError.error)
    × (read "foo:1|g|@bar" ≡ err MetricError.sample_rate_error)
    × (read "foo:bar|c" ≡ err MetricError.value_error)
    × (read "foo:*42|g" ≡ err MetricError.value_error)
    × (read "foo:1|g|#" ≡ err MetricError.tag_error)
    × (read "foo:1|g|#foo" ≡ err MetricError.tag_error)
    × (read "foo:1|g|#foo:" ≡ err MetricError.tag_error)
unfolding parse_metric parse_fields parse_parts parse_part parse_tag parse_value nonempty split_once
    split digits_from parse_unsigned TagList.insert text_beq
refusals = (refl, refl, refl, refl, refl, refl, refl, refl, refl, refl, refl, refl, refl, refl)

-- `test_parse_metrics_multi`
two_lines :
    parse_metrics {F = ℕ} (chars "foo:1|c\r\nbar:100|ms\n")
    ≡ ok (
        record { key = chars "foo"; value = counter 1; sample_rate = none; tags = [] }
        ∷ record { key = chars "bar"; value = timing 100; sample_rate = none; tags = [] }
        ∷ [])
unfolding parse_metrics parse_metric parse_fields parse_parts parse_part parse_tag parse_value
    nonempty split_once split digits_from parse_unsigned TagList.insert text_beq lines try_map
two_lines = refl

abbrev sampled : Line
sampled = record {
  key = chars "foo";
  first = b'1';
  more = [];
  type = chars "c";
  parts = rate (chars "2") ∷ tag (chars "bar") (chars "a:b") ∷ [];
}

abbrev sampled_text : Text
sampled_text = chars "foo:1|c|@2|#bar:a:b"

nonempty_text : (c : ℕ) (s : Text) → c ∷ s ≢ []
nonempty_text c s e = ground arith

sampled-IsLine : IsLine sampled
sampled-IsLine = record {
  key = (refl, (refl, (refl, tt)));
  value = (refl, tt);
  type = (refl, tt);
  type_ne_nil = nonempty_text _ _;
  parts = (
    (refl, tt),
    (
      (
        nonempty_text _ _,
        nonempty_text _ _,
        (refl, (refl, (refl, tt))),
        (refl, (refl, (refl, tt))),
        (refl, (refl, (refl, tt))),
      ),
      tt,
    ),
  );
}

parse_metric-write_example : parse_metric {F = ℕ} (write sampled) ≡ metric_of sampled
parse_metric-write_example = parse_metric-write sampled sampled-IsLine

sampled_metric : Metric ℕ
sampled_metric = record {
  key = chars "foo";
  value = counter 1;
  sample_rate = some 2;
  tags = (chars "bar", chars "a:b") ∷ [];
}

sampled_parses : parsed sampled_text ≡ ok sampled_metric
unfolding parse_metric parse_fields parse_parts parse_part parse_tag parse_value nonempty split_once
    split digits_from parse_unsigned TagList.insert text_beq sampled_metric
sampled_parses = refl

parse_metric_sound_example :
    (l : Line) × (sampled_text ≡ write l) × IsLine l × (metric_of l ≡ ok sampled_metric)
parse_metric_sound_example = parse_metric_sound sampled_text sampled_metric sampled_parses

-- a line whose value is no number
abbrev refused : Line
refused = record { key = chars "foo"; first = b'x'; more = []; type = chars "c"; parts = [] }

refused-IsLine : IsLine refused
refused-IsLine = record {
  key = (refl, (refl, (refl, tt)));
  value = (refl, tt);
  type = (refl, tt);
  type_ne_nil = nonempty_text _ _;
  parts = tt;
}

abbrev is_ascii : List ℕ → Bool
is_ascii [] = true
is_ascii (b ∷ bytes) = ltb b 128 && is_ascii bytes

-- the bytes of ASCII are UTF-8, and no other ones
instance abbrev only_ascii : Utf8
only_ascii = record { from_utf8 = λ bytes. if is_ascii bytes then some bytes else none }

grain : Served.Statsd ℕ ℕ
grain = Served.new 0 (7 ∷ 8 ∷ [])

-- a line without a metric behind one with a metric, a datagram that is not UTF-8, and a line without
-- a line feed
abbrev malformed : Served.Datagram
malformed = record { now = 4; byte = b'f'; bytes = chars "oo:1|c\nfoo:x|c\n" }

abbrev no_text : Served.Datagram
no_text = record { now = 5; byte = 255; bytes = [] }

abbrev arrived : Served.Datagram
arrived = record { now = 6; byte = b'f'; bytes = chars "oo:1|c|@2|#bar:a:b" }

-- Only the last one is delivered.
delivered :
    Served.serve {F = ℕ} true grain (map Served.arrival (malformed ∷ no_text ∷ arrived ∷ []))
    ≡ map (λ r. (r, to_message 6 (sampled_metric ∷ []))) (7 ∷ 8 ∷ [])
unfolding Served.serve Served.item handle do_send decode to_message parse_metrics parse_metric
    parse_fields parse_parts parse_part parse_tag parse_value nonempty split_once split digits_from
    parse_unsigned TagList.insert text_beq lines try_map sampled_metric grain Served.new
delivered = refl
