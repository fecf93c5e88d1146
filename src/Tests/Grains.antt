-- ===== src/Tests/Grains.antt =====
-- The theorems of the grains and of the pipelines at concrete inputs.
use ingraind.Prelude.{
  ℕ, ◌≡◌, ◌↔◌, refl, true, false, Text, chars, text_beq, Option, none, some, List, [], ◌∷◌, ◌++◌,
  arith, All, Run, ok, ◌>>=◌, text_equality, nat_equality, try_map, replicate,
}
use ingraind.Prelude.Blanks.{trim, trim_start}
use ingraind.Prelude.Number.{to_string}
use ingraind.Backends.{Message, measurements}
use ingraind.Metrics.Kind
use ingraind.Metrics.Units
use ingraind.Metrics.Units.{MeasureUnit}
use ingraind.Grains.Statsd.{parse_value, gauge, Metric, counter, timing}
use ingraind.Grains.Statsd.Values.{Reads, parse_value_iff}
use ingraind.Grains.Statsd.Delivery.{to_message, to_message-FitsKind}
use ingraind.Aggregations.Buffer.Flush.Panics.{FitsKind}
use ingraind.Grains.Osquery as Osquery
use ingraind.Grains.Osquery.{
  QueryConfig, OsqueryConfig, Query, Stop, panicked, Osqueryi, to_args, config_args,
}
use ingraind.Grains.Osquery.Rows.{Json, process_query_result, process_lines, read_rows, closes}
use ingraind.Grains.Osquery.Accepted.{accepted-Calm, Calm}
use ingraind.Grains.Osquery.Runs as Runs
use ingraind.Grains.Osquery.Running.{Processes, osqueryi_for}
use ingraind.Grains.TestProbe.{MeasurementStream}
use ingraind.Grains.Packet.{
  Frame, bytes_of, show_ip, tag_ip_and_ports, tag_ip_and_ports-bytes_of, packet_len,
}
use ingraind.Grains.SocketIo.{read_messages, read_whole, read_messages_whole}
use ingraind.Tests.Samples.{whole_float, ascii}

abbrev metrics : List (Metric ℕ)
metrics =
    record { key = chars "a"; value = counter 3; sample_rate = none; tags = [] }
    ∷ record { key = chars "b"; value = timing 4; sample_rate = none; tags = [] }
    ∷ []

to_message-FitsKind_example : All FitsKind (measurements (to_message 5 metrics))
to_message-FitsKind_example = to_message-FitsKind 5 metrics

-- a JSON value as the text of it; arrays and objects are not read
instance abbrev texts : Json Text
texts = record {
  from_slice = λ t. some t;
  as_array = λ t. some (t ∷ []);
  as_object = λ t. some ((chars "time", t) ∷ []);
  as_str = λ t. some t;
  to_string = λ t. t;
}

-- osqueryi is ended by a signal
instance abbrev killed : Processes
killed = record { output = λ command args. some (none, []) }

abbrev query : QueryConfig
query = record {
  query = some (chars "select 1");
  pack = none;
  name = chars "q";
  measurement = chars "time";
  measurement_type = chars "count";
  aggregation_type = none;
  iterations = some 3;
  interval_ms = some 50;
  run_at_start = some true;
}

abbrev config : OsqueryConfig
config = record {
  osqueryi = Osquery.default_osqueryi;
  osqueryi_args = [];
  config_path = none;
  queries = query ∷ [];
  interval_ms = 100;
  run_at_start = false;
}

abbrev checked : OsqueryConfig
checked = record config {
  queries = record query { aggregation_type = some (chars "counter") } ∷ [];
}

config-checked : Osquery.with_config config ≡ ok checked
unfolding Osquery.with_config Osquery.validate Osquery.aggregation try_map Kind.try_from_str
    Kind.of_upper Kind.to_uppercase Units.try_from_str text_beq
config-checked = refl

accepted-Calm_example :
    All
      (λ q.
        Calm
          (process_query_result Text {F = ℕ} 5 (Osquery.propagate_defaults q checked) (chars "12")))
      checked.queries
accepted-Calm_example = accepted-Calm Text ℕ config checked 5 (chars "12") config-checked

abbrev planned : Query
planned = record { conf = query; iterations_left = some 3 }

closing : closes (chars "]") ≡ true
unfolding closes trim trim_start text_beq
closing = refl

opening : closes (chars "[\n") ≡ false
unfolding closes trim trim_start text_beq
opening = refl

-- a document of two lines, with another one behind it
process_document_example :
    process_lines Text {F = ℕ} 5 query [] (chars "[\n" ∷ chars "]" ∷ chars "[]" ∷ []) ≡ (
      read_rows Text 5 query (chars "[\n]") >>= λ ms.
      process_lines Text 5 query [] (chars "[]" ∷ []) >>= λ later. ok (ms ++ later))
process_document_example =
    Runs.process_document Text ℕ 5 query ((chars "[\n", chars "[\n") ∷ []) (chars "]") (chars "]")
      (chars "[]" ∷ []) ((refl, opening), tt) refl closing

planned_args : to_args (osqueryi_for config planned) ≡ ok (chars "--json" ∷ chars "select 1" ∷ [])
unfolding to_args osqueryi_for
planned_args = refl

abbrev stream : MeasurementStream
stream = record {
  name = chars "t";
  unit = MeasureUnit.count 1;
  kind = 1;
  tags = [];
  message_len = 3;
  ms_per_second = 10;
  ms_sent = 2;
}

-- a frame with 24 bytes of IP header, and a declared length of 28
abbrev pub frame : Frame
frame = record {
  eth = replicate 14 0;
  first = 70;
  middle = 0 ∷ 0 ∷ 28 ∷ replicate 8 0;
  source = (10, 0, 0, 1);
  destination = (10, 0, 0, 2);
  options = replicate 4 0;
  source_port = 443;
  destination_port = 50000;
  rest = [];
}

tag_ip_and_ports-bytes_of_example :
    tag_ip_and_ports (bytes_of frame)
    ≡ ok (
        (chars "d_ip", show_ip (10, 0, 0, 2))
        ∷ (chars "s_ip", show_ip (10, 0, 0, 1))
        ∷ (chars "d_port", to_string 50000)
        ∷ (chars "s_port", to_string 443)
        ∷ [])
tag_ip_and_ports-bytes_of_example = tag_ip_and_ports-bytes_of frame (refl, refl, refl)

pub frame_len : packet_len (bytes_of frame) ≡ ok 42
unfolding packet_len
frame_len = refl

abbrev no_message : List ℕ → Run (Option (Message ℕ))
no_message buf = ok none

read_messages_whole_example :
    read_messages no_message (bytes_of frame ∷ []) ≡ read_whole no_message (bytes_of frame ∷ [])
read_messages_whole_example =
    read_messages_whole no_message (bytes_of frame ∷ [])
      ((frame_len, (omega arith), (omega arith)), tt)

-- a frame that declares the most that 16 bits hold
abbrev long_frame : List ℕ
long_frame = replicate 16 0 ++ 255 ∷ 255 ∷ []

long_len : packet_len long_frame ≡ ok 65549
unfolding packet_len
long_len = refl

parse_value_iff_example :
    (parse_value {F = ℕ} (chars "g") b'-' (chars "5") ≡ ok (gauge 5 false))
    ↔ Reads {F = ℕ} (chars "g") b'-' (chars "5") (gauge 5 false)
parse_value_iff_example = parse_value_iff (chars "g") b'-' (chars "5") (gauge 5 false)
