-- ===== src/Backends/Http/Requests.antt =====
-- What a request of src/backends/http.rs is made of.
use ingraind.Prelude.{
  ℕ, ◌≡◌, refl, ap, ◌∙◌, sym, Text, ◌==◌, if◌then◌else◌, text_equality, some, List, [], ◌∷◌, map,
  arith, All, All-weaken, ok, ◌>>=◌, unwrap, try_map, FromStr, unwrap-some, bind_inv,
}
use ingraind.Prelude.Maps.{
  Map, lookup, insert, lookup-insert, lookup-insert_self, lookup-insert_other, or_default,
}
use ingraind.Float.{Float}
use ingraind.Backends.{Message, measurements}
use ingraind.Metrics.{Measurement}
use ingraind.Backends.Encoders.{Writers, Encoding, encode}
use ingraind.Backends.Http.{
  HeaderNames, HttpConfig, Http, Request, post, content_type_name, add_headers, new,
  content_type_of, groups, Rayon, request, handle,
}

module _ ⦃names : HeaderNames⦄ where
  -- the header has another name
  abbrev pub IsOther : Text → Text × Text → Type 0
  IsOther name p = ¬ (names.from_bytes p.0 ≡ some name)

  -- no two of the headers have the same name, as names are compared
  abbrev pub AreDistinct : List (Text × Text) → Type 0
  AreDistinct [] = Unit
  AreDistinct (p ∷ rest) =
      All (λ q. ¬ (names.from_bytes q.0 ≡ names.from_bytes p.0)) rest × AreDistinct rest

module _ {V : Type 0} ⦃names : HeaderNames⦄ ⦃values : FromStr V⦄ where
  -- the header is there, with the value of the configuration
  abbrev pub Holds : Map Text V → Text × Text → Type 0
  Holds headers p =
      (name : Text) × (value : V) × (names.from_bytes p.0 ≡ some name)
      × (values.from_str p.1 ≡ some value)
      × (lookup name headers ≡ some value)

  add_headers_cons :
      (h v : Text) (rest : List (Text × Text)) (old : Map Text V) {headers : Map Text V}
      → add_headers ((h, v) ∷ rest) old ≡ ok headers
      → (name : Text) × (value : V) × (names.from_bytes h ≡ some name)
        × (values.from_str v ≡ some value)
        × (add_headers rest (insert name value old) ≡ ok headers)
  unfolding add_headers
  add_headers_cons h v rest old e =
      let (name, named, later) =
        bind_inv (unwrap (names.from_bytes h))
          (λ name. unwrap (values.from_str v) >>= λ value. add_headers rest (insert name value old))
          e in
      let (value, read, last) =
        bind_inv (unwrap (values.from_str v)) (λ value. add_headers rest (insert name value old))
          later in
      (
        name,
        value,
        unwrap-some (names.from_bytes h) named,
        unwrap-some (values.from_str v) read,
        last,
      )

  -- Headers of other names leave a header as it was.
  add_headers-lookup :
      (name : Text) (rest : List (Text × Text)) (old : Map Text V) {headers : Map Text V}
      → All (IsOther name) rest
      → add_headers rest old ≡ ok headers
      → lookup name headers ≡ lookup name old
  add_headers-lookup name [] old {headers} others e =
      let same : old ≡ headers = unfold add_headers in cc in ap (lookup name) (sym same)
  add_headers-lookup name ((h, v) ∷ rest) old others e =
      let (other, value, named, read, later) = add_headers_cons h v rest old e in
      add_headers-lookup name rest (insert other value old) others.1 later
      ∙ lookup-insert_other other name value old (λ same. others.0 (named ∙ ap some same))

  pub add_headers-Holds :
      (configured : List (Text × Text)) (old : Map Text V) {headers : Map Text V}
      → AreDistinct configured
      → add_headers configured old ≡ ok headers
      → All (Holds headers) configured
  add_headers-Holds [] old distinct e = tt
  add_headers-Holds ((h, v) ∷ rest) old distinct e =
      let (name, value, named, read, later) = add_headers_cons h v rest old e in
      (
        (
          name,
          value,
          named,
          read,
          add_headers-lookup name rest (insert name value old)
                (All-weaken (λ q. ¬ (names.from_bytes q.0 ≡ names.from_bytes h)) (IsOther name)
                  (λ q other same. other (same ∙ sym named)) rest distinct.0)
                later
              ∙ lookup-insert_self name value old,
        ),
        add_headers-Holds rest (insert name value old) distinct.1 later,
      )

module _ {U V : Type 0} where
  abbrev pub request_of : Http U V → V → List ℕ → Request U V
  request_of http kind payload = record {
    method = post;
    uri = http.uri;
    headers = insert content_type_name kind http.headers;
    body = payload;
  }

  pub requests_bodies :
      (http : Http U V) (kind : V) (payloads : List (List ℕ))
      → map (λ (r : Request U V). r.body) (map (request_of http kind) payloads) ≡ payloads
  requests_bodies http kind [] = refl
  requests_bodies http kind (payload ∷ payloads) =
      ap (λ t. payload ∷ t) (requests_bodies http kind payloads)

module _ {U V : Type 0} ⦃values : FromStr V⦄ where
  pub requests_lem :
      (http : Http U V) (kind : V) (payloads : List (List ℕ))
      → values.from_str http.content_type ≡ some kind
      → try_map (request http) payloads ≡ ok (map (request_of http kind) payloads)
  unfolding try_map request
  requests_lem http kind [] e = refl
  requests_lem http kind (payload ∷ payloads) e = rw e (rw (requests_lem http kind payloads e) refl)

module _ {U V : Type 0} ⦃names : HeaderNames⦄ ⦃uris : FromStr U⦄ ⦃values : FromStr V⦄ where
  -- the header is among a request's, with the value of the configuration, or for the type of the
  -- content with the value `kind`
  abbrev pub Carries : V → Request U V → Text × Text → Type 0
  Carries kind req p =
      (name : Text) × (value : V) × (names.from_bytes p.0 ≡ some name)
      × (values.from_str p.1 ≡ some value)
      × (lookup name req.headers ≡ (if content_type_name == name then some kind else some value))

  -- a POST to the address of the configuration, with its headers and the type of the content
  abbrev pub Posts : HttpConfig → V → Request U V → Type 0
  Posts config kind req =
      (req.method ≡ post)
      × (uris.from_str config.uri ≡ some req.uri)
      × (lookup content_type_name req.headers ≡ some kind)
      × All (Carries kind req) config.headers

  new_inv :
      (config : HttpConfig) {http : Http U V}
      → new config ≡ ok http
      → (uris.from_str config.uri ≡ some http.uri)
        × (add_headers config.headers [] ≡ ok http.headers)
        × (http.encoding ≡ or_default config.encoding Encoding.json)
        × (http.content_type ≡ content_type_of (or_default config.encoding Encoding.json))
        × (http.parallel_chunk_size ≡ or_default config.parallel_chunk_size 0)
  unfolding new
  new_inv config e = ground arith

  Holds-Carries :
      (http : Http U V) (kind : V) (payload : List ℕ) (p : Text × Text)
      → Holds http.headers p
      → Carries kind (request_of http kind payload) p
  Holds-Carries http kind payload p (name, value, named, read, found) = (
    name,
    value,
    named,
    read,
    lookup-insert content_type_name name kind http.headers
        ∙ ap (λ o. if content_type_name == name then some kind else o) found,
  )

  request-Posts :
      (config : HttpConfig) {http : Http U V} (kind : V) (payload : List ℕ)
      → AreDistinct config.headers
      → new config ≡ ok http
      → Posts config kind (request_of http kind payload)
  request-Posts config {http} kind payload distinct e =
      let made = new_inv config e in
      (
        refl,
        made.0,
        lookup-insert_self content_type_name kind http.headers,
        All-weaken (Holds http.headers) (Carries kind (request_of http kind payload))
            (Holds-Carries http kind payload) config.headers
            (add_headers-Holds config.headers [] distinct made.1),
      )

  requests-Posts :
      (config : HttpConfig) {http : Http U V} (kind : V) (payloads : List (List ℕ))
      → AreDistinct config.headers
      → new config ≡ ok http
      → All (Posts config kind) (map (request_of http kind) payloads)
  requests-Posts config kind [] distinct e = tt
  requests-Posts config kind (payload ∷ payloads) distinct e =
      (request-Posts config kind payload distinct e, requests-Posts config kind payloads distinct e)

module _ {U V F : Type 0} ⦃names : HeaderNames⦄ ⦃uris : FromStr U⦄ ⦃values : FromStr V⦄
    ⦃fl : Float F⦄ ⦃writers : Writers F⦄ ⦃rayon : Rayon (Measurement F)⦄ where
  -- If no two of the configured headers have the same name, the type of the content is a valid header and
  -- the measurements of a message can be encoded, then the message is sent: there is one request for each
  -- payload, in order, and each is a POST to the configured address, with the type of the content that
  -- goes with the encoding, whatever the configuration says of it, and all other configured headers.
  pub handle-Posts :
      (config : HttpConfig) (http : Http U V) (kind : V) (msg : Message F)
      (payloads : List (List ℕ))
      → AreDistinct config.headers
      → new config ≡ ok http
      → values.from_str (content_type_of (or_default config.encoding Encoding.json)) ≡ some kind
      → try_map
          (encode (or_default config.encoding Encoding.json))
          (groups (or_default config.parallel_chunk_size 0) (measurements msg))
        ≡ ok payloads
      → (reqs : List (Request U V)) × (handle http msg ≡ ok reqs)
        × (map (λ (r : Request U V). r.body) reqs ≡ payloads)
        × All (Posts config kind) reqs
  unfolding handle
  handle-Posts config http kind msg payloads distinct e valid encoded =
      let made = new_inv config e in
      (
        map (request_of http kind) payloads,
        rw made.2 (
            rw made.4
              (rw encoded (requests_lem http kind payloads (ap values.from_str made.3 ∙ valid)))),
        requests_bodies http kind payloads,
        requests-Posts config kind payloads distinct e,
      )
