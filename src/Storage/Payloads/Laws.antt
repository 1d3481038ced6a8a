-- ===== src/Storage/Payloads/Laws.antt =====
-- What the checks of a payload and of its location promise
-- (src/mx_bank_monitor/ingestion/artifacts.py).
use mexican_banking_monitor.Base.{
  ℕ, ◌≡◌, refl, sym, ap, ◌∙◌, true, ◌&&◌, Option, none, some, List, Text, text_eq, text_eq→,
  text_eq_refl, length, ok, require, >>=-eq-ok, >>-eq-ok, require-eq-ok, and_parts, ◌==◌, ==_iff,
  ltb,
}
use mexican_banking_monitor.Discovery.Patterns.{is_sha256}
use mexican_banking_monitor.Storage.Errors.{invalid_payload, invalid_location}
use mexican_banking_monitor.Storage.Keys.{
  validate_sha256, key_of, canonical_artifact_key, sha256_from_key,
}
use mexican_banking_monitor.Storage.Keys.RoundTrip.{sha256_from_key-key_of, key_of-sha256_from_key}
use mexican_banking_monitor.Storage.Payloads.{
  regulatory_artifacts_bucket, StorageBackend, local, supabase, ArtifactPayload, check_mime_type,
  check_artifact_payload, bucket_allowed, check_location, same_backend, StoredArtifactLocation,
  validate_location, StoredArtifact, check_stored_artifact, artifact_at, artifact_for,
}

-- A payload that passes has the digest and the length of its content.
pub record IsPayload (hexdigest : List ℕ → Text) (payload : ArtifactPayload) : Type 0 where
  pub form : is_sha256 payload.sha256 ≡ true
  pub digest : hexdigest payload.content ≡ payload.sha256
  pub whole : length payload.content ≡ payload.byte_length
  pub positive : ltb 0 payload.byte_length ≡ true

pub check_artifact_payload-IsPayload :
    (hexdigest : List ℕ → Text) (payload : ArtifactPayload)
    → check_artifact_payload hexdigest payload ≡ ok tt
    → IsPayload hexdigest payload
unfolding check_artifact_payload validate_sha256
check_artifact_payload-IsPayload hexdigest payload h =
    let e = invalid_payload in
    let (a, k1) = >>-eq-ok (require (ltb 0 payload.byte_length) e) _ h in
    let (digest, d, k2) = >>=-eq-ok (validate_sha256 payload.sha256 e) _ k1 in
    let (form, k3) = >>-eq-ok (require (is_sha256 payload.sha256) e) (ok payload.sha256) d in
    let (b, k4) = >>-eq-ok (require (length payload.content == payload.byte_length) e) _ k2 in
    let (c, k5) =
      >>-eq-ok (require (text_eq (hexdigest payload.content) payload.sha256) e)
        (check_mime_type payload.mime_type) k4 in
    record {
      form = require-eq-ok (is_sha256 payload.sha256) e form;
      digest =
          text_eq→ _ _ (require-eq-ok (text_eq (hexdigest payload.content) payload.sha256) e c);
      positive = require-eq-ok (ltb 0 payload.byte_length) e a;
      whole = (==_iff _ _).0 (require-eq-ok (length payload.content == payload.byte_length) e b);
    }

canonical_artifact_key-ok :
    (sha key : Text) → canonical_artifact_key sha ≡ ok key → key ≡ key_of sha
unfolding canonical_artifact_key validate_sha256
canonical_artifact_key-ok sha key h =
    let (v, e, k) = >>=-eq-ok (validate_sha256 sha invalid_payload) (λ v. ok (key_of v)) h in
    let (form, e2) = >>-eq-ok (require (is_sha256 sha) invalid_payload) (ok sha) e in cc (k, e2)

-- The artifact of a payload has the canonical key of its digest.
pub artifact_for-ok :
    (backend : StorageBackend) (bucket : Option Text) (payload : ArtifactPayload)
    (artifact : StoredArtifact)
    → artifact_for backend bucket payload ≡ ok artifact
    → artifact ≡ artifact_at backend bucket payload (key_of payload.sha256)
unfolding artifact_for
artifact_for-ok backend bucket payload artifact h =
    let (key, e, k1) = >>=-eq-ok (canonical_artifact_key payload.sha256) _ h in
    let (a, k2) =
      >>-eq-ok (check_location (artifact_at backend bucket payload key).location) _ k1 in
    let (b, k3) =
      >>-eq-ok (check_stored_artifact (artifact_at backend bucket payload key))
        (ok (artifact_at backend bucket payload key)) k2 in
    let same : artifact_at backend bucket payload key ≡ artifact = cc k3 in
    sym same
    ∙ ap (artifact_at backend bucket payload) (canonical_artifact_key-ok payload.sha256 key e)

-- The two stores' own backend and bucket.
pub data IsOwn : StorageBackend → Option Text → Type 0 where
  own_files : IsOwn local none
  own_bucket : IsOwn supabase (some regulatory_artifacts_bucket)

IsOwn-allowed :
    (backend : StorageBackend) (bucket : Option Text)
    → IsOwn backend bucket
    → (same_backend backend backend && bucket_allowed backend bucket) ≡ true
unfolding same_backend bucket_allowed
IsOwn-allowed _ _ own_files = refl
IsOwn-allowed _ _ own_bucket = text_eq_refl regulatory_artifacts_bucket

-- The location of an artifact with a digest of the right form is one of its store.
pub validate_location-own :
    (backend : StorageBackend) (bucket : Option Text) (payload : ArtifactPayload)
    → IsOwn backend bucket
    → is_sha256 payload.sha256 ≡ true
    → validate_location backend
        (artifact_at backend bucket payload (key_of payload.sha256)).location
      ≡ ok payload.sha256
unfolding validate_location
validate_location-own backend bucket payload own form =
    rw (IsOwn-allowed backend bucket own) (sha256_from_key-key_of payload.sha256 form)

-- What is located passes on to the digest of its key.
pub validate_location-digest :
    (backend : StorageBackend) (location : StoredArtifactLocation) (digest : Text)
    → validate_location backend location ≡ ok digest
    → sha256_from_key location.storage_key ≡ ok digest
unfolding validate_location
validate_location-digest backend location digest h =
    (>>-eq-ok
      (require
        (same_backend location.storage_backend backend
          && bucket_allowed backend location.storage_bucket)
        invalid_location)
      (sha256_from_key location.storage_key) h).1

IsOwn-bucket_allowed :
    (backend : StorageBackend) (bucket : Option Text)
    → IsOwn backend bucket
    → bucket_allowed backend bucket ≡ true
unfolding bucket_allowed
IsOwn-bucket_allowed _ _ own_files = refl
IsOwn-bucket_allowed _ _ own_bucket = text_eq_refl regulatory_artifacts_bucket

-- A sound payload has an artifact in either store.
pub artifact_for-own :
    (hexdigest : List ℕ → Text) (backend : StorageBackend) (bucket : Option Text)
    (payload : ArtifactPayload)
    → IsOwn backend bucket
    → IsPayload hexdigest payload
    → artifact_for backend bucket payload
      ≡ ok (artifact_at backend bucket payload (key_of payload.sha256))
unfolding artifact_for canonical_artifact_key validate_sha256 check_location check_stored_artifact
artifact_for-own hexdigest backend bucket payload own valid = rw (
  valid.form,
  sha256_from_key-key_of payload.sha256 valid.form,
  IsOwn-bucket_allowed backend bucket own,
  valid.positive,
  text_eq_refl (key_of payload.sha256),
)

same_backend-eq : (a b : StorageBackend) → same_backend a b ≡ true → a ≡ b
unfolding same_backend
same_backend-eq local local h = refl
same_backend-eq local supabase h = cc h
same_backend-eq supabase local h = cc h
same_backend-eq supabase supabase h = refl

IsOwn-only :
    (backend : StorageBackend) (own bucket : Option Text)
    → IsOwn backend own
    → bucket_allowed backend bucket ≡ true
    → bucket ≡ own
unfolding bucket_allowed
IsOwn-only _ _ none own_files h = refl
IsOwn-only _ _ (some b) own_files h = cc h
IsOwn-only _ _ none own_bucket h = cc h
IsOwn-only _ _ (some b) own_bucket h = ap some (text_eq→ b regulatory_artifacts_bucket h)

-- A location that a store accepts is the one of its key's digest.
pub validate_location_unique :
    (backend : StorageBackend) (own : Option Text) (location : StoredArtifactLocation)
    (digest : Text)
    → IsOwn backend own
    → validate_location backend location ≡ ok digest
    → location
      ≡ record { storage_backend = backend; storage_bucket = own; storage_key = key_of digest }
unfolding validate_location
validate_location_unique backend own location digest is_own h =
    let allowed =
      same_backend location.storage_backend backend
      && bucket_allowed backend location.storage_bucket in
    let (a, k) =
      >>-eq-ok (require allowed invalid_location) (sha256_from_key location.storage_key) h in
    let (b, c) = and_parts _ _ (require-eq-ok allowed invalid_location a) in
    let e = same_backend-eq location.storage_backend backend b in
    let f = IsOwn-only backend own location.storage_bucket is_own c in
    let g = (key_of-sha256_from_key location.storage_key digest k).1 in
    λ i. record { storage_backend = e i; storage_bucket = f i; storage_key = g i }
