-- ===== src/Backends/Http.antt =====
-- src/backends/http.rs: the configuration, and how the handler makes requests of a message. hyper's
-- readers of addresses, header names and values are an interface, and so are the bytes of a body; a
-- request is spawned, and what becomes of it is not waited for.
pub mod Requests
pub mod Parts
use ingraind.Prelude.{
  ℕ, zero, suc, ◌-◌, ◌≤◌, ◌<◌, ◌≡◌, refl, ap, ◌∙◌, Text, chars, text_equality, Option, List, [],
  ◌∷◌, ◌++◌, map, arith, if◌then◌else◌, ltb, take, drop, length, All, true, Run, ok, ◌>>=◌, unwrap,
  try_map, FromStr,
}
use ingraind.Prelude.Maps.{Map, insert, or_default}
use ingraind.Float.{Float}
use ingraind.Backends.{Message, measurements}
use ingraind.Metrics.{Measurement}
use ingraind.Backends.Encoders.{Encoding, Writers, encode}

-- `HeaderName::from_bytes`, which gives a name as it is compared
pub record HeaderNames : Type 0 where
  pub from_bytes : Text → Option Text

-- `HTTPConfig`
pub record HttpConfig : Type 0 where
  pub uri : Text
  pub headers : Map Text Text
  pub threads : Option ℕ
  pub encoding : Option Encoding
  pub parallel_chunk_size : Option ℕ

-- `HTTP`; of the client the number of its threads
pub record Http (U V : Type 0) : Type 0 where
  pub headers : Map Text V
  pub uri : U
  pub client : ℕ
  pub encoding : Encoding
  pub content_type : Text
  pub parallel_chunk_size : ℕ

unfoldable pub content_type_of : Encoding → Text
content_type_of Encoding.json = chars "application/json"
content_type_of Encoding.capnp = chars "application/octet-stream"

pub data Method : Type 0 where
  get post : Method

pub record Request (U V : Type 0) : Type 0 where
  pub method : Method
  pub uri : U
  pub headers : Map Text V
  pub body : List ℕ

-- `header::CONTENT_TYPE`
abbrev pub content_type_name : Text
content_type_name = chars "content-type"

module _ {V : Type 0} ⦃names : HeaderNames⦄ ⦃values : FromStr V⦄ where
  -- the loop over the configured headers
  unfoldable pub add_headers : List (Text × Text) → Map Text V → Run (Map Text V)
  add_headers [] headers = ok headers
  add_headers ((h, v) ∷ rest) headers = unwrap (names.from_bytes h) >>= λ name.
      unwrap (values.from_str v) >>= λ value. add_headers rest (insert name value headers)

module _ {U V : Type 0} ⦃names : HeaderNames⦄ ⦃uris : FromStr U⦄ ⦃values : FromStr V⦄ where
  unfoldable pub new : HttpConfig → Run (Http U V)
  new config = do
    uri ← unwrap (uris.from_str config.uri)
    headers ← add_headers config.headers []
    let encoding = or_default config.encoding Encoding.json
    ok (record {
      headers = headers;
      uri = uri;
      client = or_default config.threads 4;
      encoding = encoding;
      content_type = content_type_of encoding;
      parallel_chunk_size = or_default config.parallel_chunk_size 0;
    })

-- `into_par_iter().chunks(size)` of rayon, collected
pub record Rayon (A : Type 0) : Type 0 where
  pub chunks : ℕ → List A → List (List A)

-- what the payloads of a message are made of
unfoldable pub groups : {A : Type 0} ⦃rayon : Rayon A⦄ → ℕ → List A → List (List A)
groups ⦃rayon⦄ size xs = if ltb 0 size then rayon.chunks size xs else xs ∷ []

module _ {U V : Type 0} ⦃values : FromStr V⦄ where
  -- the request that holds a payload
  unfoldable pub request : Http U V → List ℕ → Run (Request U V)
  request http payload = unwrap (values.from_str http.content_type) >>= λ value. ok (record {
    method = post;
    uri = http.uri;
    headers = insert content_type_name value http.headers;
    body = payload;
  })

module _ {U V F : Type 0} ⦃values : FromStr V⦄ ⦃fl : Float F⦄ ⦃writers : Writers F⦄
    ⦃rayon : Rayon (Measurement F)⦄ where
  -- the requests that are spawned; all payloads are made before the first one
  unfoldable pub handle : Http U V → Message F → Run (List (Request U V))
  unfolding request
  handle http msg =
      try_map (encode http.encoding) (groups http.parallel_chunk_size (measurements msg))
      >>= λ payloads. try_map (request http) payloads
