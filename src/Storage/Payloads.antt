-- ===== src/Storage/Payloads.antt =====
-- Payloads, locations and stored artifacts, with the checks of their constructors
-- (src/mx_bank_monitor/ingestion/artifacts.py). `hexdigest` is SHA-256 in lowercase hexadecimal.
pub mod Laws
use mexican_banking_monitor.Base.{
  ℕ, Bool, true, false, not, ◌&&◌, ◌||◌, Option, none, some, List, [], ◌∷◌, Text, codes, text_eq,
  length, ok, err, require, ◌>>=◌, ◌>>◌, if◌then◌else◌, ◌==◌, ltb, is_some,
}
use mexican_banking_monitor.Discovery.Summary.{is_blank}
use mexican_banking_monitor.Storage.Errors.{StoreError, Stored, invalid_payload, invalid_location}
use mexican_banking_monitor.Storage.Keys.{validate_sha256, canonical_artifact_key, sha256_from_key}

abbrev pub regulatory_artifacts_bucket : Text
regulatory_artifacts_bucket = codes "regulatory-artifacts"

pub data StorageBackend : Type 0 where
  local supabase : StorageBackend

pub data PutOutcome : Type 0 where
  stored reused : PutOutcome

-- A byte length is a natural number here: the code refuses a negative one like 0.
pub record ArtifactPayload : Type 0 where
  pub content : List ℕ
  pub sha256 : Text
  pub byte_length : ℕ
  pub mime_type : Option Text

-- any(ord(character) < 32 or ord(character) == 127 for character in value)
unfoldable pub has_unsafe_character : Text → Bool
has_unsafe_character [] = false
has_unsafe_character (c ∷ value) = (ltb c 32 || (c == 127)) || has_unsafe_character value

unfoldable pub check_mime_type : Option Text → Stored Unit
unfolding has_unsafe_character
check_mime_type none = ok tt
check_mime_type (some value) =
    require (not (is_blank value)) invalid_payload
    >> require (not (has_unsafe_character value)) invalid_payload

unfoldable pub check_artifact_payload : (List ℕ → Text) → ArtifactPayload → Stored Unit
unfolding check_mime_type
check_artifact_payload hexdigest self = do
  require (ltb 0 self.byte_length) invalid_payload
  validated ← validate_sha256 self.sha256 invalid_payload
  require (length self.content == self.byte_length) invalid_payload
  require (text_eq (hexdigest self.content) self.sha256) invalid_payload
  check_mime_type self.mime_type

unfoldable pub from_bytes : (List ℕ → Text) → List ℕ → Option Text → Stored ArtifactPayload
from_bytes hexdigest content mime_type = do
  let payload : ArtifactPayload = record {
    content = content;
    sha256 = hexdigest content;
    byte_length = length content;
    mime_type = mime_type;
  }
  check_artifact_payload hexdigest payload
  ok payload

pub record StoredArtifactLocation : Type 0 where
  pub storage_backend : StorageBackend
  pub storage_bucket : Option Text
  pub storage_key : Text

unfoldable pub bucket_allowed : StorageBackend → Option Text → Bool
bucket_allowed local none = true
bucket_allowed local (some bucket) = false
bucket_allowed supabase none = false
bucket_allowed supabase (some bucket) = text_eq bucket regulatory_artifacts_bucket

unfoldable pub check_location : StoredArtifactLocation → Stored Unit
unfolding bucket_allowed
check_location self = sha256_from_key self.storage_key >>= λ digest.
    require (bucket_allowed self.storage_backend self.storage_bucket) invalid_location

unfoldable pub same_backend : StorageBackend → StorageBackend → Bool
same_backend local local = true
same_backend local supabase = false
same_backend supabase local = false
same_backend supabase supabase = true

-- `_validate_location`, of the store with the backend; the digest of the key is what it finds.
unfoldable pub validate_location : StorageBackend → StoredArtifactLocation → Stored Text
unfolding same_backend bucket_allowed
validate_location backend location =
    require
      (same_backend location.storage_backend backend
        && bucket_allowed backend location.storage_bucket)
      invalid_location
    >> sha256_from_key location.storage_key

pub record StoredArtifact : Type 0 where
  pub location : StoredArtifactLocation
  pub sha256 : Text
  pub byte_length : ℕ

unfoldable pub check_stored_artifact : StoredArtifact → Stored Unit
check_stored_artifact self = do
  validated ← validate_sha256 self.sha256 invalid_location
  require (ltb 0 self.byte_length) invalid_location
  key ← canonical_artifact_key self.sha256
  require (text_eq self.location.storage_key key) invalid_location

pub record PutArtifactResult : Type 0 where
  pub artifact : StoredArtifact
  pub outcome : PutOutcome

abbrev pub put_result : StoredArtifact → PutOutcome → PutArtifactResult
put_result artifact outcome = record { artifact = artifact; outcome = outcome }

-- `_artifact_for`, of either store, with its backend and bucket.
abbrev pub artifact_at : StorageBackend → Option Text → ArtifactPayload → Text → StoredArtifact
artifact_at backend bucket payload key = record {
  location = record { storage_backend = backend; storage_bucket = bucket; storage_key = key };
  sha256 = payload.sha256;
  byte_length = payload.byte_length;
}

unfoldable pub artifact_for : StorageBackend → Option Text → ArtifactPayload → Stored StoredArtifact
unfolding check_location check_stored_artifact
artifact_for backend bucket payload = do
  key ← canonical_artifact_key payload.sha256
  check_location (artifact_at backend bucket payload key).location
  check_stored_artifact (artifact_at backend bucket payload key)
  ok (artifact_at backend bucket payload key)
