-- ===== src/Discovery/Identity.antt =====
-- The identity of a release: the SHA-256 of the canonical JSON of its artifact set.
pub mod Laws
use mexican_banking_monitor.Base.{
  ℕ, Bool, true, false, Option, none, some, List, [], ◌∷◌, map, Text, codes, require, ◌>>◌, ◌>>=◌,
  ok, err, not, ◌==◌, ◌||◌, is_some, text_eq, length, if◌then◌else◌,
}
use mexican_banking_monitor.Base.Texts.{text_lt}
use mexican_banking_monitor.Base.Sorting.{sort_by, sorted_set}
use mexican_banking_monitor.Base.Json.{
  Json, Items, object, array, string, null, field, end, nil, cons, dumps,
}
use mexican_banking_monitor.Discovery.Errors.{Checked, source_contract_invalid}
use mexican_banking_monitor.Discovery.Contracts.{
  require_identifier, require_identity_scheme, require_sorted_unique_roles,
}
use mexican_banking_monitor.Discovery.Summary.{is_blank}
use mexican_banking_monitor.Discovery.Records.{SourceFormat, format_eq, DiscoveredArtifact}
use mexican_banking_monitor.Discovery.Releases.{
  DiscoveredRelease, ValidatedArtifact, validated_role, pair_role, require_digests,
}

-- (role, digest) < (role, digest)
unfoldable pub pair_lt : Text × Text → Text × Text → Bool
pair_lt (r, d) (s, e) = text_lt r s || (if text_eq r s then text_lt d e else false)

unfoldable pub revision_allowed : Option Text → Bool
unfolding is_blank
revision_allowed none = true
revision_allowed (some revision) = not (is_blank revision)

unfoldable pub revision_json : Option Text → Json
revision_json none = null
revision_json (some revision) = string revision

unfoldable pub pair_items : List (Text × Text) → Items
pair_items [] = nil
pair_items ((role, digest) ∷ pairs) =
    cons (object (field (codes "role") (string role) (field (codes "sha256") (string digest) end)))
      (pair_items pairs)

unfoldable pub identity_payload : Text → Text → Text → Option Text → List (Text × Text) → Json
unfolding revision_json pair_items
identity_payload identity_scheme source_code release_family_key revision pairs = object (
    field (codes "identity_scheme") (string identity_scheme) (
      field (codes "source_code") (string source_code) (
        field (codes "release_family_key") (string release_family_key) (
          field (codes "revision") (revision_json revision)
            (field (codes "artifacts") (array (pair_items pairs)) end)))))

-- The sorted pairs, once every check has passed.
unfoldable pub checked_pairs :
    Text → Text → Text → Option Text → List (Text × Text) → Checked (List (Text × Text))
unfolding revision_allowed
checked_pairs identity_scheme source_code release_family_key revision artifact_sha256_by_role = do
  let pairs = sort_by pair_lt artifact_sha256_by_role
  require_identity_scheme identity_scheme source_contract_invalid
  require_identifier source_code source_contract_invalid
  require_identifier release_family_key source_contract_invalid
  require (revision_allowed revision) source_contract_invalid
  require_digests pairs source_contract_invalid
  require_sorted_unique_roles (map pair_role pairs) source_contract_invalid
  ok pairs

-- The payload is ASCII, so that its UTF-8 encoding is its code points.
unfoldable pub artifact_set_identity_hash :
    (List ℕ → Text) → Text → Text → Text → Option Text → List (Text × Text) → Checked Text
unfolding checked_pairs
artifact_set_identity_hash hexdigest scheme source_code release_family_key revision by_role = do
  pairs ← checked_pairs scheme source_code release_family_key revision by_role
  ok (hexdigest (dumps (identity_payload scheme source_code release_family_key revision pairs)))

-- `{item.artifact_role: item for item in artifacts}.get(role)`: the last item of a role stands.
unfoldable pub find_artifact : Text → List ValidatedArtifact → Option ValidatedArtifact
find_artifact role [] = none
find_artifact role (item ∷ items) = elim (find_artifact role items) [
  | some found ↦ some found
  | none ↦ if text_eq item.artifact_role role then some item else none
]

-- The number of keys of that dictionary.
abbrev pub observed_size : List ValidatedArtifact → ℕ
observed_size artifacts = length (sorted_set (map validated_role artifacts))

has_format : SourceFormat → Option ValidatedArtifact → Bool
has_format format none = false
has_format format (some artifact) = format_eq artifact.artifact_format format

unfoldable pub require_observed : List DiscoveredArtifact → List ValidatedArtifact → Checked Unit
unfolding has_format find_artifact
require_observed [] artifacts = ok tt
require_observed (expected ∷ rest) artifacts =
    require (has_format expected.artifact_format (find_artifact expected.artifact_role artifacts))
      source_contract_invalid
    >> require_observed rest artifacts

abbrev pub digest_pair : ValidatedArtifact → Text × Text
digest_pair item = (item.artifact_role, item.sha256)

unfoldable pub release_identity_hash :
    (List ℕ → Text) → DiscoveredRelease → List ValidatedArtifact → Checked Text
unfolding require_observed
release_identity_hash hexdigest discovered artifacts = do
  require (observed_size artifacts == length artifacts) source_contract_invalid
  require_observed discovered.artifacts artifacts
  require (observed_size artifacts == length discovered.artifacts) source_contract_invalid
  artifact_set_identity_hash hexdigest discovered.identity_scheme discovered.source_code
      discovered.release_family_key discovered.revision (map digest_pair artifacts)
