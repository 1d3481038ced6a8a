-- ===== src/Storage/Remote.antt =====
-- `SupabaseArtifactStore` (src/mx_bank_monitor/ingestion/artifacts.py) over a storage service. The
-- client's opening and closing, and the messages, are left out.
pub mod Keeps
pub mod Sound
pub mod Requests
pub mod Raised
use mexican_banking_monitor.Base.{
  ℕ, zero, suc, ◌*◌, ◌^◌, ◌-◌, Bool, true, false, not, ◌&&◌, Option, none, some, List, [], ◌∷◌,
  Text, codes, text_eq, length, ok, err, require, if◌then◌else◌, ◌==◌, ltb,
}
use mexican_banking_monitor.Discovery.Summary.{is_blank}
use mexican_banking_monitor.Storage.Errors.{
  StoreError, Stored, not_found, collision, corruption, transient_failure, write_outcome_unknown,
  is_integrity_error, is_store_error,
}
use mexican_banking_monitor.Storage.Keys.{sha256_from_key}
use mexican_banking_monitor.Storage.Payloads.{
  regulatory_artifacts_bucket, supabase, PutOutcome, stored, reused, ArtifactPayload,
  check_artifact_payload, StoredArtifactLocation, validate_location, StoredArtifact,
  PutArtifactResult, put_result, artifact_for,
}
use mexican_banking_monitor.Storage.Action.{Action, ◌>>=◌, ◌>>◌, lift}
use mexican_banking_monitor.Storage.Urls.{quoted_location, upload_url, download_url}
use mexican_banking_monitor.Storage.Server.{
  Response, Server, is_success, is_transient_status, error_code, code_among, duplicate_codes,
  response_error,
}
use mexican_banking_monitor.Storage.Local.{conflict_error}

-- The backoff is in units of a duration that is never negative.
pub record Settings : Type 0 where
  pub supabase_url : Text
  pub secret_key : Text
  pub read_attempts : ℕ
  pub create_attempts : ℕ
  pub retry_backoff : ℕ

abbrev onto_stripped : ℕ → Text → Text
onto_stripped c [] = if c == b'/' then [] else c ∷ []
onto_stripped c (d ∷ text) = c ∷ d ∷ text

-- text.rstrip("/")
unfoldable pub rstrip_slashes : Text → Text
rstrip_slashes [] = []
rstrip_slashes (c ∷ text) = onto_stripped c (rstrip_slashes text)

-- `__init__`, or none where it raises.
unfoldable pub opened : Settings → Option Settings
unfolding rstrip_slashes
opened given =
    if (not (is_blank given.supabase_url) && not (length given.secret_key == 0))
      && (ltb 0 given.read_attempts && ltb 0 given.create_attempts)
    then some (record {
      supabase_url = rstrip_slashes given.supabase_url;
      secret_key = given.secret_key;
      read_attempts = given.read_attempts;
      create_attempts = given.create_attempts;
      retry_backoff = given.retry_backoff;
    })
    else none

abbrev pub is_transient : StoreError → Bool
is_transient transient_failure = true
is_transient _ = false

abbrev pub is_not_found : StoreError → Bool
is_not_found not_found = true
is_not_found _ = false

-- What the first handler of `_create`, and the last two of `_resolve_ambiguous`, raise instead.
unfoldable pub unresolved : StoreError → StoreError
unresolved error =
    if is_integrity_error error
    then error
    else if is_store_error error
    then write_outcome_unknown
    else error

unfoldable pub read_response : Option Response → Stored (List ℕ)
unfolding is_success is_transient_status response_error
read_response none = err transient_failure
read_response (some response) =
    if is_success response
    then ok response.content
    else if is_transient_status response.status_code
    then err transient_failure
    else err (response_error response)

module _ (hexdigest : List ℕ → Text) (server : Server) (self : Settings) where
  unfoldable pub read_once : StoredArtifactLocation → Action server.State (List ℕ)
  unfolding read_response
  read_once location s = (
    read_response
        (server.fetch (download_url self.supabase_url (quoted_location location)) self.secret_key
          s).0,
    (server.fetch (download_url self.supabase_url (quoted_location location)) self.secret_key s).1,
  )

  abbrev sleep_unless_zero : ℕ → server.State → server.State
  sleep_unless_zero zero s = s
  sleep_unless_zero (suc delay) s = server.sleep (suc delay) s

  -- `_backoff`, where attempts are left.
  unfoldable pub backoff : ℕ → ℕ → server.State → server.State
  backoff zero attempt s = s
  backoff (suc left) attempt s = sleep_unless_zero (self.retry_backoff * 2 ^ (attempt - 1)) s

  -- One round of the loop: a transient failure is followed by the next round.
  unfoldable pub after_read :
      Action server.State (List ℕ)
      → (server.State → server.State)
      → Stored (List ℕ) × server.State
      → Stored (List ℕ) × server.State
  after_read next pause (ok content, s) = (ok content, s)
  after_read next pause (err error, s) =
      if is_transient error then next (pause s) else (err error, s)

  -- `_read_with_retries` from an attempt on, with the number of attempts that are left.
  unfoldable pub read_from : ℕ → ℕ → StoredArtifactLocation → Action server.State (List ℕ)
  unfolding after_read backoff read_once
  read_from zero attempt location s = (err StoreError.backend_failed, s)
  read_from (suc left) attempt location s =
      after_read (read_from left (suc attempt) location) (backoff left attempt)
        (read_once location s)

  unfoldable pub get : StoredArtifactLocation → Action server.State (List ℕ)
  unfolding read_from
  get location = do
    digest ← lift (validate_location supabase location)
    content ← read_from self.read_attempts 1 location
    expected ← lift (sha256_from_key location.storage_key)
    lift (require (text_eq (hexdigest content) expected) corruption)
    lift (ok content)

  unfoldable pub verify : StoredArtifact → Action server.State Unit
  unfolding get
  verify artifact = do
    digest ← lift (validate_location supabase artifact.location)
    content ← get artifact.location
    lift (require (length content == artifact.byte_length) corruption)

  unfoldable pub assert_remote_payload :
      StoredArtifactLocation → ArtifactPayload → Bool → Action server.State Unit
  unfolding get conflict_error
  assert_remote_payload location payload is_collision = do
    existing ← get location
    lift (
        require ((length existing == payload.byte_length) && text_eq existing payload.content)
          (conflict_error is_collision))

  -- The result behind a check, or what its handlers raise or do where it raised.
  abbrev pub handled :
      (StoreError → Action server.State PutArtifactResult)
      → PutArtifactResult
      → Stored Unit × server.State
      → Stored PutArtifactResult × server.State
  handled handler result (ok done, s) = (ok result, s)
  handled handler result (err error, s) = handler error s

  abbrev pub raising_unresolved : StoreError → Action server.State PutArtifactResult
  raising_unresolved error = lift (err (unresolved error))

  -- `again` is what follows where the object is not there.
  abbrev pub retrying :
      Action server.State PutArtifactResult → StoreError → Action server.State PutArtifactResult
  retrying again error s = if is_not_found error then again s else raising_unresolved error s

  unfoldable pub resolve_ambiguous :
      Action server.State PutArtifactResult
      → ArtifactPayload
      → StoredArtifact
      → Action server.State PutArtifactResult
  unfolding assert_remote_payload unresolved
  resolve_ambiguous again payload artifact s =
      handled (retrying again) (put_result artifact reused)
        (assert_remote_payload artifact.location payload false s)

  -- Behind the answer to an upload.
  unfoldable pub after_post :
      Action server.State PutArtifactResult
      → ArtifactPayload
      → StoredArtifact
      → Option Response
      → Action server.State PutArtifactResult
  unfolding resolve_ambiguous assert_remote_payload unresolved is_success error_code
      is_transient_status response_error
  after_post again payload artifact none s = resolve_ambiguous again payload artifact s
  after_post again payload artifact (some response) s =
      if is_success response
      then handled raising_unresolved (put_result artifact stored)
          (assert_remote_payload artifact.location payload false s)
      else if code_among duplicate_codes (error_code response.json)
      then (assert_remote_payload artifact.location payload true
            >> lift (ok (put_result artifact reused)))
          s
      else if is_transient_status response.status_code
      then resolve_ambiguous again payload artifact s
      else (err (response_error response), s)

  abbrev content_type : Option Text → Text
  content_type none = codes "application/octet-stream"
  content_type (some mime_type) = mime_type

  unfoldable pub upload :
      ArtifactPayload → StoredArtifact → server.State → Option Response × server.State
  upload payload artifact s =
      server.post (upload_url self.supabase_url (quoted_location artifact.location)) self.secret_key
        (content_type payload.mime_type) payload.content s

  -- `_create`, with the number of attempts that are left, this one included.
  unfoldable pub create :
      ℕ → ArtifactPayload → StoredArtifact → Action server.State PutArtifactResult
  unfolding after_post upload
  create zero payload artifact s = (err write_outcome_unknown, s)
  create (suc left) payload artifact s =
      after_post (create left payload artifact) payload artifact (upload payload artifact s).0
        (upload payload artifact s).1

  unfoldable pub put_if_absent : ArtifactPayload → Action server.State PutArtifactResult
  unfolding create
  put_if_absent payload = do
    lift (check_artifact_payload hexdigest payload)
    artifact ← lift (artifact_for supabase (some regulatory_artifacts_bucket) payload)
    create self.create_attempts payload artifact
