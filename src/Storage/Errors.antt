-- ===== src/Storage/Errors.antt =====
-- The exceptions of src/mx_bank_monitor/ingestion/artifacts.py, one constructor for each class that
-- is raised.
use mexican_banking_monitor.Base.{Bool, true, false, Result}

pub data StoreError : Type 0 where
  invalid_payload invalid_location not_found collision corruption : StoreError
  backend_failed unauthorized write_outcome_unknown transient_failure : StoreError

abbrev pub Stored : Type 0 → Type 0
Stored = Result StoreError

-- isinstance(error, ArtifactIntegrityError)
unfoldable pub is_integrity_error : StoreError → Bool
is_integrity_error StoreError.collision = true
is_integrity_error StoreError.corruption = true
is_integrity_error _ = false

-- isinstance(error, ArtifactStoreError)
unfoldable pub is_store_error : StoreError → Bool
is_store_error StoreError.invalid_payload = false
is_store_error StoreError.invalid_location = false
is_store_error _ = true
