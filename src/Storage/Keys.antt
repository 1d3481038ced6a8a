-- ===== src/Storage/Keys.antt =====
-- Canonical storage keys: `canonical_artifact_key` and `_sha256_from_key`
-- (src/mx_bank_monitor/ingestion/artifacts.py).
pub mod RoundTrip
use mexican_banking_monitor.Base.{
  ℕ, Bool, true, false, Option, none, some, List, [], ◌∷◌, ◌++◌, Text, codes, text_eq, take, drop,
  Result, ok, err, require, ◌>>=◌, ◌>>◌, if◌then◌else◌, ◌==◌,
}
use mexican_banking_monitor.Base.Regex.{class, times, fullmatch}
use mexican_banking_monitor.Discovery.Patterns.{hex, is_sha256}
use mexican_banking_monitor.Storage.Errors.{StoreError, Stored, invalid_payload, invalid_location}

unfoldable pub validate_sha256 : Text → StoreError → Stored Text
validate_sha256 value error = require (is_sha256 value) error >> ok value

-- f"sha256/{validated[:2]}/{validated}"
abbrev pub key_of : Text → Text
key_of validated = codes "sha256/" ++ (take 2 validated ++ (b'/' ∷ validated))

unfoldable pub canonical_artifact_key : Text → Stored Text
unfolding validate_sha256
canonical_artifact_key artifact_sha256 =
    validate_sha256 artifact_sha256 invalid_payload >>= λ validated. ok (key_of validated)

-- What is left behind the prefix.
unfoldable pub strip_prefix : Text → Text → Option Text
strip_prefix [] text = some text
strip_prefix (p ∷ prefix) [] = none
strip_prefix (p ∷ prefix) (c ∷ text) = if p == c then strip_prefix prefix text else none

-- The second group of `sha256/([0-9a-f]{2})/([0-9a-f]{64})`, behind the first "/".
unfoldable pub digest_group : Text → Option Text
unfolding strip_prefix
digest_group rest =
    if fullmatch (times 2 (class hex)) (take 2 rest)
    then strip_prefix (b'/' ∷ []) (drop 2 rest)
    else none

-- The two groups agree.
unfoldable pub checked_digest : Text → Option Text → Stored Text
checked_digest shard none = err invalid_location
checked_digest shard (some digest) =
    require (is_sha256 digest) invalid_location
    >> (require (text_eq shard (take 2 digest)) invalid_location >> ok digest)

unfoldable pub digest_behind : Option Text → Stored Text
unfolding checked_digest
digest_behind none = err invalid_location
digest_behind (some rest) = checked_digest (take 2 rest) (digest_group rest)

-- The groups have fixed widths, so the match is read from the left.
unfoldable pub sha256_from_key : Text → Stored Text
unfolding digest_behind
sha256_from_key storage_key = digest_behind (strip_prefix (codes "sha256/") storage_key)
