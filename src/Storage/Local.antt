-- ===== src/Storage/Local.antt =====
-- `LocalArtifactStore` (src/mx_bank_monitor/ingestion/artifacts.py) over a file system. The lock, the
-- file descriptor and the messages are left out.
pub mod Keeps
pub mod Sound
pub mod RoundTrip
use mexican_banking_monitor.Base.{
  ℕ, Bool, true, false, not, ◌&&◌, Option, none, some, List, [], ◌∷◌, Text, text_eq, length, Result,
  ok, err, require, if◌then◌else◌, ◌==◌,
}
use mexican_banking_monitor.Storage.Errors.{
  StoreError, Stored, invalid_location, not_found, collision, corruption, backend_failed,
}
use mexican_banking_monitor.Storage.Keys.{sha256_from_key}
use mexican_banking_monitor.Storage.Payloads.{
  local, PutOutcome, stored, reused, ArtifactPayload, check_artifact_payload,
  StoredArtifactLocation, validate_location, StoredArtifact, PutArtifactResult, put_result,
  artifact_for,
}
use mexican_banking_monitor.Storage.Action.{Action, ◌>>=◌, ◌>>◌, lift}
use mexican_banking_monitor.Storage.FileSystem.{
  FileSystem, LinkOutcome, linked, file_exists, link_failed, ReadOutcome, bytes, missing,
  read_failed,
}

-- Whether what was read is what the payload says and holds.
unfoldable pub is_exact : (List ℕ → Text) → List ℕ → ArtifactPayload → Bool
is_exact hexdigest existing payload =
    (length existing == payload.byte_length)
    && (text_eq (hexdigest existing) payload.sha256 && text_eq existing payload.content)

unfoldable pub conflict_error : Bool → StoreError
conflict_error true = collision
conflict_error false = corruption

module _ (hexdigest : List ℕ → Text) (fs : FileSystem) where
  unfoldable pub exact_payload : ArtifactPayload → Bool → ReadOutcome → Stored Unit
  unfolding is_exact conflict_error
  exact_payload payload is_collision (bytes existing) =
      require (is_exact hexdigest existing payload) (conflict_error is_collision)
  exact_payload payload is_collision missing = err backend_failed
  exact_payload payload is_collision read_failed = err backend_failed

  unfoldable pub assert_exact_payload : Text → ArtifactPayload → Bool → Action fs.State Unit
  unfolding exact_payload
  assert_exact_payload target payload is_collision s =
      lift (exact_payload payload is_collision (fs.read target s)) s

  unfoldable pub reuse_existing :
      Text → ArtifactPayload → StoredArtifact → Action fs.State PutArtifactResult
  unfolding assert_exact_payload
  reuse_existing target payload artifact =
      assert_exact_payload target payload true >> lift (ok (put_result artifact reused))

  -- Behind `os.link`.
  unfoldable pub after_link :
      LinkOutcome → Text → ArtifactPayload → StoredArtifact → Action fs.State PutArtifactResult
  unfolding reuse_existing assert_exact_payload
  after_link linked target payload artifact =
      assert_exact_payload target payload false >> lift (ok (put_result artifact stored))
  after_link file_exists target payload artifact = reuse_existing target payload artifact
  after_link link_failed target payload artifact = lift (err backend_failed)

  unfoldable pub link_and_check :
      Text → Text → ArtifactPayload → StoredArtifact → Action fs.State PutArtifactResult
  unfolding after_link
  link_and_check temporary target payload artifact s =
      after_link (fs.link temporary target s).0 target payload artifact
        (fs.link temporary target s).1

  -- Behind `os.fsync`, or what failed before it.
  unfoldable pub after_write :
      Bool → Text → Text → ArtifactPayload → StoredArtifact → Action fs.State PutArtifactResult
  unfolding link_and_check
  after_write true temporary target payload artifact =
      link_and_check temporary target payload artifact
  after_write false temporary target payload artifact = lift (err backend_failed)

  unfoldable pub write_and_link :
      Text → Text → ArtifactPayload → StoredArtifact → Action fs.State PutArtifactResult
  unfolding after_write
  write_and_link temporary target payload artifact s =
      after_write (fs.write temporary payload.content s).0 temporary target payload artifact
        (fs.write temporary payload.content s).1

  -- The `finally` clause removes the temporary file, whatever came of it.
  unfoldable pub removing : {A : Type 0} → Text → Stored A × fs.State → Stored A × fs.State
  removing temporary (result, s) = (result, fs.unlink temporary s)

  unfoldable pub publish :
      Option Text → Text → ArtifactPayload → StoredArtifact → Action fs.State PutArtifactResult
  unfolding removing write_and_link
  publish none target payload artifact s = (err backend_failed, s)
  publish (some temporary) target payload artifact s =
      removing temporary (write_and_link temporary target payload artifact s)

  unfoldable pub store_at :
      Text → ArtifactPayload → StoredArtifact → Action fs.State PutArtifactResult
  unfolding publish reuse_existing
  store_at target payload artifact s =
      if fs.exists target s
      then reuse_existing target payload artifact s
      else publish (fs.make_temporary target s).0 target payload artifact
          (fs.make_temporary target s).1

  unfoldable pub resolved : Option Text → Stored Text
  resolved none = err invalid_location
  resolved (some target) = ok target

  -- `_target_path`, without and with `prepare_parent`.
  unfoldable pub target_path : StoredArtifactLocation → Action fs.State Text
  unfolding resolved
  target_path location = do
    digest ← lift (validate_location local location)
    lift (resolved (fs.resolve location.storage_key))

  unfoldable pub prepare_parent : Text → Action fs.State Unit
  prepare_parent key s = (
    if (fs.make_directory key s).0 then ok tt else err backend_failed,
    (fs.make_directory key s).1,
  )

  unfoldable pub prepared_target_path : StoredArtifactLocation → Action fs.State Text
  unfolding resolved prepare_parent
  prepared_target_path location = do
    digest ← lift (validate_location local location)
    prepare_parent location.storage_key
    lift (resolved (fs.resolve location.storage_key))

  unfoldable pub put_if_absent : ArtifactPayload → Action fs.State PutArtifactResult
  unfolding prepared_target_path store_at
  put_if_absent payload = do
    lift (check_artifact_payload hexdigest payload)
    artifact ← lift (artifact_for local none payload)
    target ← prepared_target_path artifact.location
    store_at target payload artifact

  unfoldable pub read_content : ReadOutcome → Stored (List ℕ)
  read_content (bytes content) = ok content
  read_content missing = err not_found
  read_content read_failed = err backend_failed

  unfoldable pub read_bytes : Text → Action fs.State (List ℕ)
  unfolding read_content
  read_bytes target s = (read_content (fs.read target s), s)

  unfoldable pub get : StoredArtifactLocation → Action fs.State (List ℕ)
  unfolding target_path read_bytes
  get location = do
    target ← target_path location
    content ← read_bytes target
    expected ← lift (sha256_from_key location.storage_key)
    lift (require (text_eq (hexdigest content) expected) corruption)
    lift (ok content)

  unfoldable pub verify : StoredArtifact → Action fs.State Unit
  unfolding get
  verify artifact = do
    digest ← lift (validate_location local artifact.location)
    content ← get artifact.location
    lift (require (length content == artifact.byte_length) corruption)
