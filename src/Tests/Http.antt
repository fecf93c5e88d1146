-- ===== src/Tests/Http.antt =====
-- What the backend of src/backends/http.rs sends of a message with three measurements in two parts.
use ingraind.Prelude.{
  flatten, ℕ, ◌≡◌, refl, Text, chars, some, none, List, [], ◌∷◌, map, All, ok, arith, text_beq,
  text_equality, length, try_map, FromStr, ap, length-map, ◌⊎◌,
}
use ingraind.Prelude.Maps.{insert}
use ingraind.Backends.{Message, list}
use ingraind.Backends.Encoders.{Encoding, Writers, encode}
use ingraind.Backends.Http.{
  HeaderNames, HttpConfig, Http, Request, new, add_headers, content_type_of, groups, handle,
}
use ingraind.Backends.Http.Requests.{Posts, handle-Posts}
use ingraind.Tests.Samples.{whole_float}
use ingraind.Tests.Rayon.{chunks_from, in_runs, in_runs-IsRayon}
use ingraind.Backends.Http.Parts.{Fits, handle-flatten}
use ingraind.Metrics.{Measurement}
use ingraind.Tests.Steps.{sample}

-- every text is an address, a name and a value; names are not changed
instance abbrev pub read_text : FromStr Text
read_text = record { from_str = λ t. some t }

instance abbrev pub as_they_are : HeaderNames
as_they_are = record { from_bytes = λ t. some t }

-- as many bytes as measurements
instance abbrev counting : Writers ℕ
counting = record {
  value_to_vec = λ m. some (1 ∷ []);
  list_to_vec = λ ms. some (length ms ∷ []);
  write_message = λ ms. some (length ms ∷ []);
}

abbrev config : HttpConfig
config = record {
  uri = chars "https://example.com/";
  headers = (chars "content-type", chars "text/plain") ∷ (chars "x-key", chars "k") ∷ [];
  threads = none;
  encoding = some Encoding.capnp;
  parallel_chunk_size = some 2;
}

abbrev backend : Http Text Text
backend = record {
  headers = (chars "content-type", chars "text/plain") ∷ (chars "x-key", chars "k") ∷ [];
  uri = chars "https://example.com/";
  client = 4;
  encoding = Encoding.capnp;
  content_type = chars "application/octet-stream";
  parallel_chunk_size = 2;
}

backend_new : new config ≡ ok backend
unfolding new add_headers insert text_beq content_type_of
backend_new = refl

abbrev message : Message ℕ
message = list (sample ∷ sample ∷ sample ∷ [])

bodies :
    try_map (encode {F = ℕ} Encoding.capnp) (groups 2 (sample ∷ sample ∷ sample ∷ []))
    ≡ ok ((2 ∷ []) ∷ (1 ∷ []) ∷ [])
unfolding try_map encode groups chunks_from
bodies = refl

other_name : ¬ (some (chars "x-key") ≡ some (chars "content-type"))
other_name e = ground (arith, e)

handle-Posts_example :
    (reqs : List (Request Text Text)) × (handle backend message ≡ ok reqs)
    × (map (λ (r : Request Text Text). r.body) reqs ≡ (2 ∷ []) ∷ (1 ∷ []) ∷ [])
    × All (Posts config (chars "application/octet-stream")) reqs
unfolding content_type_of
handle-Posts_example =
    handle-Posts config backend (chars "application/octet-stream") message
      ((2 ∷ []) ∷ (1 ∷ []) ∷ []) ((other_name, tt), (tt, tt)) backend_new refl bodies

each_encodes : (ms : List (Measurement ℕ)) → encode Encoding.capnp ms ≡ ok (length ms ∷ [])
unfolding encode
each_encodes ms = ap (λ n. ok (n ∷ [])) (length-map ms _)

handle-flatten_example :
    (parts : List (List (Measurement ℕ))) × (reqs : List (Request Text Text)) × (handle backend
        message
      ≡ ok reqs)
    × (map (λ (r : Request Text Text). r.body) reqs ≡ map (λ ms. length ms ∷ []) parts)
    × (flatten parts ≡ sample ∷ sample ∷ sample ∷ [])
    × (((◌≡◌ {A = ℕ} 2 0) × (parts ≡ (sample ∷ sample ∷ sample ∷ []) ∷ [])) ⊎ All (Fits 2) parts)
handle-flatten_example =
    handle-flatten backend (chars "application/octet-stream") (λ ms. length ms ∷ []) message
      in_runs-IsRayon refl each_encodes
