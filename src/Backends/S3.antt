-- ===== src/Backends/S3.antt =====
-- src/backends/s3.rs: each message is an object of its own, named for the host and the time.
use ingraind.Prelude.{ℕ, Text, chars, Option, List, [], ◌∷◌, ◌++◌, Run, ok, ◌>>=◌, unwrap}
use ingraind.Prelude.Number.{to_string}
use ingraind.Float.{Float}
use ingraind.Backends.{Message, single, list}
use ingraind.Backends.Encoders.{Writers, to_json}

-- The fields but for the client, which gets what `handle` gives.
pub record S3 : Type 0 where
  pub hostname : Text
  pub bucket : Text

-- `PutObjectRequest`
pub record PutObjectRequest : Type 0 where
  pub bucket : Text
  pub key : Text
  pub body : List ℕ

-- `new`, from the variable of the environment and the host's name
unfoldable pub new : Option Text → Option Text → Run S3
new variable get_fqdn = do
  bucket ← unwrap variable
  hostname ← unwrap get_fqdn
  ok (record { hostname = hostname; bucket = bucket })

-- The object that is put; `now` is what `timestamp_now()` reads.
unfoldable pub handle :
    {F : Type 0} ⦃fl : Float F⦄ ⦃writers : Writers F⦄ → ℕ → S3 → Message F → Run PutObjectRequest
unfolding to_json
handle now s3 msg = to_json (elim msg [ single m ↦ m ∷ [] | list ms ↦ ms ]) >>= λ body.
    ok (record {
      bucket = s3.bucket;
      key = s3.hostname ++ (chars "_" ++ to_string now);
      body = body;
    })
