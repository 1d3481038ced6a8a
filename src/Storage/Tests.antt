-- ===== src/Storage/Tests.antt =====
-- Concrete runs of the stores (src/mx_bank_monitor/ingestion/artifacts.py).
mod Memory
mod Service
use mexican_banking_monitor.Base.{
  ℕ, suc, ◌%◌, ◌*◌, ◌≤◌, ◌+◌, ◌≡◌, ◌⊎◌, refl, Bool, true, false, Option, none, some, List, [], ◌∷◌,
  Text, codes, text_eq, contains, length, ok, err, arith, if◌then◌else◌, ◌==◌,
}
use mexican_banking_monitor.Base.Regex.{fullmatch}
use mexican_banking_monitor.Discovery.Patterns.{is_sha256}
use mexican_banking_monitor.Discovery.Summary.{is_blank}
use mexican_banking_monitor.Storage.Errors.{
  StoreError, backend_failed, corruption, write_outcome_unknown, is_integrity_error, is_store_error,
}
use mexican_banking_monitor.Storage.Keys.{
  key_of, validate_sha256, canonical_artifact_key, strip_prefix, digest_group, checked_digest,
  digest_behind, sha256_from_key,
}
use mexican_banking_monitor.Storage.Keys.RoundTrip.{sha256_from_key-key_of}
use mexican_banking_monitor.Storage.Payloads.{
  regulatory_artifacts_bucket, local, supabase, stored, reused, ArtifactPayload,
  has_unsafe_character, check_mime_type, check_artifact_payload, bucket_allowed, check_location,
  same_backend, validate_location, check_stored_artifact, PutArtifactResult, artifact_at,
  put_result, artifact_for,
}
use mexican_banking_monitor.Storage.Action.{Relates}
use mexican_banking_monitor.Storage.Local.{
  is_exact, conflict_error, exact_payload, assert_exact_payload, reuse_existing, after_link,
  link_and_check, after_write, write_and_link, removing, publish, store_at, resolved,
  prepare_parent, prepared_target_path, target_path, read_content, read_bytes,
}
use mexican_banking_monitor.Storage.Local
use mexican_banking_monitor.Storage.Local.Keeps.{KeepsFiles, put_if_absent-KeepsFiles}
use mexican_banking_monitor.Storage.Local.RoundTrip.{
  IsStored, put_if_absent-IsStored, get-put_if_absent,
}
use mexican_banking_monitor.Storage.Urls.{
  is_unreserved, quote, split_slashes, join_slashes, quoted_location,
}
use mexican_banking_monitor.Storage.Server.{
  is_success, is_transient_status, error_code, response_error,
}
use mexican_banking_monitor.Storage.Remote.{
  Settings, unresolved, read_response, read_once, backoff, after_read, read_from,
  assert_remote_payload, resolve_ambiguous, after_post, upload, create,
}
use mexican_banking_monitor.Storage.Remote
use mexican_banking_monitor.Storage.Remote.Sound.{IsStoredRemotely, put_if_absent-IsStoredRemotely}
use mexican_banking_monitor.Storage.Remote.Requests.{put_if_absent-Sends}
use mexican_banking_monitor.Storage.Remote.Raised.{is_public, put_if_absent-RaisesPublic}
use mexican_banking_monitor.Storage.Contract.{IsContentAddressed, Reaches, at_once, after, putting}
use mexican_banking_monitor.Storage.Contract.Local.{
  local_store, local_store-IsContentAddressed, local_get-put_if_absent,
}
use mexican_banking_monitor.Storage.Contract.Remote.{
  remote_store, remote_store-IsContentAddressed, remote_get-put_if_absent,
}
use mexican_banking_monitor.Storage.Tests.Memory.{
  Disk, find, without, top, put, memory_files, memory_files-IsFileSystem,
}
use mexican_banking_monitor.Storage.Tests.Service.{
  Contents, update, base_url, memory_service, memory_service-IsServer, post-sent, fetch-sent,
  unreachable_service,
}

abbrev digest_of_even : Text
digest_of_even = codes "00aaaaaaaaaaaaaaaaaaaaaaaaaaaaaaaaaaaaaaaaaaaaaaaaaaaaaaaaaaaaaa"

abbrev digest_of_odd : Text
digest_of_odd = codes "01bbbbbbbbbbbbbbbbbbbbbbbbbbbbbbbbbbbbbbbbbbbbbbbbbbbbbbbbbbbbbb"

abbrev length_digest : List ℕ → Text
length_digest content = if length content % 2 == 0 then digest_of_even else digest_of_odd

abbrev payload : ArtifactPayload
payload = record {
  content = 80 ∷ 75 ∷ 3 ∷ [];
  sha256 = digest_of_odd;
  byte_length = 3;
  mime_type = some (codes "application/zip");
}

abbrev no_files : Disk
no_files = ([], λ n. [])

abbrev nothing : Contents
nothing name = none

digest_is_sha256 : is_sha256 digest_of_odd ≡ true
unfolding is_sha256 fullmatch
digest_is_sha256 = refl

payload_ok : check_artifact_payload length_digest payload ≡ ok tt
unfolding check_artifact_payload validate_sha256 is_sha256 fullmatch check_mime_type is_blank
    has_unsafe_character text_eq
payload_ok = refl

sha256_from_key-key_of_example : sha256_from_key (key_of digest_of_odd) ≡ ok digest_of_odd
sha256_from_key-key_of_example = sha256_from_key-key_of digest_of_odd digest_is_sha256

-- A first upload of the payload.
abbrev first_file : PutArtifactResult
first_file = put_result (artifact_at local none payload (key_of digest_of_odd)) stored

abbrev files : Disk
files = (Local.put_if_absent length_digest memory_files payload no_files).1

first_file_stored :
    Local.put_if_absent length_digest memory_files payload no_files ≡ (ok first_file, files)
unfolding Local.put_if_absent prepared_target_path store_at publish removing write_and_link
    after_write link_and_check after_link assert_exact_payload exact_payload is_exact resolved
    prepare_parent artifact_for check_location check_stored_artifact canonical_artifact_key
    validate_location sha256_from_key digest_behind digest_group checked_digest strip_prefix
    same_backend bucket_allowed check_artifact_payload validate_sha256 is_sha256 fullmatch
    check_mime_type is_blank has_unsafe_character text_eq find without top put
first_file_stored = refl

-- A second one finds the file.
second_file_reused :
    (Local.put_if_absent length_digest memory_files payload files).0
    ≡ ok (put_result (artifact_at local none payload (key_of digest_of_odd)) reused)
unfolding Local.put_if_absent prepared_target_path store_at publish removing write_and_link
    after_write link_and_check after_link reuse_existing assert_exact_payload exact_payload is_exact
    resolved prepare_parent artifact_for check_location check_stored_artifact canonical_artifact_key
    validate_location sha256_from_key digest_behind digest_group checked_digest strip_prefix
    same_backend bucket_allowed check_artifact_payload validate_sha256 is_sha256 fullmatch
    check_mime_type is_blank has_unsafe_character text_eq find without top put
second_file_reused = refl

put_if_absent-KeepsFiles_example :
    KeepsFiles length_digest memory_files memory_files-IsFileSystem files
      (Local.put_if_absent length_digest memory_files payload files).1
put_if_absent-KeepsFiles_example =
    put_if_absent-KeepsFiles length_digest memory_files memory_files-IsFileSystem payload files

put_if_absent-IsStored_example :
    IsStored length_digest memory_files memory_files-IsFileSystem payload first_file files
put_if_absent-IsStored_example =
    put_if_absent-IsStored length_digest memory_files memory_files-IsFileSystem payload no_files
      files first_file first_file_stored

get-put_if_absent_example :
    (Local.get length_digest memory_files first_file.artifact.location files
      ≡ (ok payload.content, files))
    ⊎ (Local.get length_digest memory_files first_file.artifact.location files
        ≡ (err backend_failed, files))
get-put_if_absent_example =
    get-put_if_absent length_digest memory_files memory_files-IsFileSystem payload no_files files
      first_file first_file_stored

local_store-IsContentAddressed_example :
    IsContentAddressed length_digest (local_store length_digest memory_files)
local_store-IsContentAddressed_example =
    local_store-IsContentAddressed length_digest memory_files memory_files-IsFileSystem

abbrev settings : Settings
settings = record {
  supabase_url = base_url;
  secret_key = codes "key";
  read_attempts = 3;
  create_attempts = 2;
  retry_backoff = 100;
}

abbrev no_objects : Contents × ℕ
no_objects = (nothing, 0)

abbrev first_object : PutArtifactResult
first_object =
    put_result
      (artifact_at supabase (some regulatory_artifacts_bucket) payload (key_of digest_of_odd))
      stored

abbrev objects : Contents × ℕ
objects = (Remote.put_if_absent length_digest memory_service settings payload no_objects).1

first_object_stored :
    Remote.put_if_absent length_digest memory_service settings payload no_objects
    ≡ (ok first_object, objects)
unfolding Remote.put_if_absent create upload after_post assert_remote_payload Remote.get read_from
    read_once after_read read_response is_success is_transient_status quoted_location quote
    is_unreserved split_slashes join_slashes artifact_for check_location check_stored_artifact
    canonical_artifact_key validate_location sha256_from_key digest_behind digest_group
    checked_digest strip_prefix same_backend bucket_allowed check_artifact_payload validate_sha256
    is_sha256 fullmatch check_mime_type is_blank has_unsafe_character text_eq update
first_object_stored = refl

put_if_absent-IsStoredRemotely_example :
    IsStoredRemotely length_digest memory_service settings memory_service-IsServer payload
      first_object objects
put_if_absent-IsStoredRemotely_example =
    put_if_absent-IsStoredRemotely length_digest memory_service settings memory_service-IsServer
      payload no_objects objects first_object first_object_stored

put_if_absent-Sends_example :
    (Remote.put_if_absent length_digest memory_service settings payload no_objects).1.1 ≤ 0 + 2 * 4
put_if_absent-Sends_example =
    put_if_absent-Sends length_digest memory_service settings (λ (s : Contents × ℕ). s.1) post-sent
      fetch-sent (λ delay s. omega arith) payload no_objects

remote_store-IsContentAddressed_example :
    IsContentAddressed length_digest (remote_store length_digest memory_service settings)
remote_store-IsContentAddressed_example =
    remote_store-IsContentAddressed length_digest memory_service settings memory_service-IsServer

-- Without an answer, the upload and the three reads behind it are tried.
unanswered :
    Remote.put_if_absent length_digest unreachable_service settings payload 0
    ≡ (err write_outcome_unknown, 4)
unfolding Remote.put_if_absent create upload after_post resolve_ambiguous unresolved
    is_integrity_error is_store_error assert_remote_payload Remote.get read_from read_once backoff
    after_read read_response quoted_location quote is_unreserved split_slashes join_slashes
    artifact_for check_location check_stored_artifact canonical_artifact_key validate_location
    sha256_from_key digest_behind digest_group checked_digest strip_prefix same_backend
    bucket_allowed check_artifact_payload validate_sha256 is_sha256 fullmatch check_mime_type
    is_blank has_unsafe_character text_eq
unanswered = refl

put_if_absent-RaisesPublic_example : is_public write_outcome_unknown ≡ true
put_if_absent-RaisesPublic_example =
    put_if_absent-RaisesPublic length_digest unreachable_service settings payload payload_ok 0 4
      write_outcome_unknown unanswered

-- The same upload again, and then a read.
abbrev later : Contents × ℕ
later = (Remote.put_if_absent length_digest memory_service settings payload objects).1

later_read :
    Remote.get length_digest memory_service settings first_object.artifact.location later ≡ (
      ok (80 ∷ 75 ∷ 3 ∷ []),
      (Remote.get length_digest memory_service settings first_object.artifact.location later).1,
    )
unfolding Remote.put_if_absent create upload after_post assert_remote_payload Remote.get read_from
    read_once after_read read_response is_success is_transient_status error_code quoted_location
    quote is_unreserved split_slashes join_slashes artifact_for check_location check_stored_artifact
    canonical_artifact_key validate_location sha256_from_key digest_behind digest_group
    checked_digest strip_prefix same_backend bucket_allowed check_artifact_payload validate_sha256
    is_sha256 fullmatch check_mime_type is_blank has_unsafe_character text_eq update contains
later_read = refl

remote_get-put_if_absent_example : 80 ∷ 75 ∷ 3 ∷ [] ≡ payload.content
remote_get-put_if_absent_example =
    remote_get-put_if_absent length_digest memory_service settings memory_service-IsServer payload
      no_objects objects later
      (Remote.get length_digest memory_service settings first_object.artifact.location later).1
      first_object (80 ∷ 75 ∷ 3 ∷ []) first_object_stored
      (after objects objects later (at_once objects) (putting payload objects)) later_read

-- The same on the files.
abbrev later_files : Disk
later_files = (Local.put_if_absent length_digest memory_files payload files).1

later_file_read :
    Local.get length_digest memory_files first_file.artifact.location later_files
    ≡ (ok (80 ∷ 75 ∷ 3 ∷ []), later_files)
unfolding Local.get target_path read_bytes read_content Local.put_if_absent prepared_target_path
    store_at publish removing write_and_link after_write link_and_check after_link reuse_existing
    assert_exact_payload exact_payload is_exact resolved prepare_parent artifact_for check_location
    check_stored_artifact canonical_artifact_key validate_location sha256_from_key digest_behind
    digest_group checked_digest strip_prefix same_backend bucket_allowed check_artifact_payload
    validate_sha256 is_sha256 fullmatch check_mime_type is_blank has_unsafe_character text_eq find
    without top put
later_file_read = refl

local_get-put_if_absent_example : 80 ∷ 75 ∷ 3 ∷ [] ≡ payload.content
local_get-put_if_absent_example =
    local_get-put_if_absent length_digest memory_files memory_files-IsFileSystem payload no_files
      files later_files later_files first_file (80 ∷ 75 ∷ 3 ∷ []) first_file_stored
      (after files files later_files (at_once files) (putting payload files)) later_file_read
