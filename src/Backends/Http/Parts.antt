-- ===== src/Backends/Http/Parts.antt =====
-- Which measurements the requests of src/backends/http.rs hold.
use ingraind.Prelude.{
  ℕ, zero, suc, ◌≤◌, ◌<◌, ◌≡◌, refl, ◌⊎◌, inl, inr, List, [], ◌∷◌, map, some, arith, ltb, true,
  append-nil, length, flatten, All, ok, try_map, FromStr,
}
use ingraind.Float.{Float}
use ingraind.Backends.{Message, measurements}
use ingraind.Backends.Encoders.{Writers, encode}
use ingraind.Backends.Http.{Http, Request, Rayon, groups, handle}
use ingraind.Backends.Http.Requests.{request_of, requests_lem, requests_bodies}
use ingraind.Metrics.{Measurement}

-- a part: at least one element, and no more than the size
abbrev pub Fits : {A : Type 0} → ℕ → List A → Type 0
Fits size ms = (0 < length ms) × (length ms ≤ size)

-- what rayon says of `chunks`: vectors of so many elements, the last one maybe shorter
pub record IsRayon {A : Type 0} (rayon : Rayon A) : Type 0 where
  pub chunks-flatten : (size : ℕ) (xs : List A) → 0 < size → flatten (rayon.chunks size xs) ≡ xs
  pub chunks-Fits : (size : ℕ) (xs : List A) → 0 < size → All (Fits size) (rayon.chunks size xs)

module _ {A : Type 0} ⦃rayon : Rayon A⦄ (law : IsRayon rayon) where
  groups_lem :
      (size : ℕ) (xs : List A)
      → (flatten (groups size xs) ≡ xs)
        × (((size ≡ 0) × (groups size xs ≡ xs ∷ [])) ⊎ All (Fits size) (groups size xs))
  unfolding groups
  groups_lem zero xs = (append-nil xs, inl (refl, refl))
  groups_lem (suc n) xs =
      rw (positive n) (
        law.chunks-flatten (suc n) xs (omega arith),
        inr (law.chunks-Fits (suc n) xs (omega arith)),
      )
    where
      positive : (n : ℕ) → ltb 0 (suc n) ≡ true
      positive n = ground arith

module _ {U V F : Type 0} ⦃values : FromStr V⦄ ⦃fl : Float F⦄ ⦃writers : Writers F⦄
    ⦃rayon : Rayon (Measurement F)⦄ where
  encoded_all :
      (http : Http U V) (body : List (Measurement F) → List ℕ) (parts : List (List (Measurement F)))
      → ((ms : List (Measurement F)) → encode http.encoding ms ≡ ok (body ms))
      → try_map (encode http.encoding) parts ≡ ok (map body parts)
  unfolding try_map
  encoded_all http body [] e = refl
  encoded_all http body (ms ∷ parts) e = rw (e ms) (rw (encoded_all http body parts e) refl)

  -- If measurements can be encoded and the type of the content is a valid header, then a message is sent
  -- as requests whose bodies are the encodings of parts of it, in order: the parts put together are the
  -- measurements of the message, each once and in order. With a chunk size no part is empty or has more
  -- measurements than the size, and without one there is one part.
  pub handle-flatten :
      (http : Http U V) (kind : V) (body : List (Measurement F) → List ℕ) (msg : Message F)
      → IsRayon rayon
      → values.from_str http.content_type ≡ some kind
      → ((ms : List (Measurement F)) → encode http.encoding ms ≡ ok (body ms))
      → (parts : List (List (Measurement F))) × (reqs : List (Request U V)) × (handle http msg
          ≡ ok reqs)
        × (map (λ (r : Request U V). r.body) reqs ≡ map body parts)
        × (flatten parts ≡ measurements msg)
        × (((http.parallel_chunk_size ≡ 0) × (parts ≡ measurements msg ∷ []))
            ⊎ All (Fits http.parallel_chunk_size) parts)
  unfolding handle
  handle-flatten http kind body msg law valid encodes =
      let parts : List (List (Measurement F)) =
        groups http.parallel_chunk_size (measurements msg) in
      let split = groups_lem law http.parallel_chunk_size (measurements msg) in
      (
        parts,
        map (request_of http kind) (map body parts),
        rw (encoded_all http body parts encodes) (requests_lem http kind (map body parts) valid),
        requests_bodies http kind (map body parts),
        split.0,
        split.1,
      )
