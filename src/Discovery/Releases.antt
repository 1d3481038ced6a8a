-- ===== src/Discovery/Releases.antt =====
-- The releases of ingestion/discovery.py: what was discovered, what was observed, what is in the
-- catalog, and the classification.
use mexican_banking_monitor.Base.{
  ℕ, Bool, Option, none, some, List, [], ◌∷◌, map, Text, require, ◌>>◌, ok, not, leb, ◌==◌, ◌&&◌,
  is_some, text_eq, length,
}
use mexican_banking_monitor.Base.Sorting.{sort_by, by_key, sorted_set}
use mexican_banking_monitor.Discovery.Errors.{
  ErrorKind, Checked, source_contract_invalid, lineage_ambiguous, empty_artifact,
}
use mexican_banking_monitor.Discovery.Contracts.{
  require_identifier, require_identity_scheme, require_sha256, require_sorted_unique_roles,
}
use mexican_banking_monitor.Discovery.Summary.{is_empty}
use mexican_banking_monitor.Discovery.Records.{
  SourceFormat, Datetime, HttpObservation, ArtifactStructure, require_structure, ArtifactMetadata,
  ReleaseMetadata, exact_observed_artifact_set, DiscoveredArtifact, check_artifact_metadata,
  check_release_metadata,
}

pub record DiscoveredRelease : Type 0 where
  pub source_code : Text
  pub source_definition_version : ℕ
  pub release_family_key : Text
  pub identity_scheme : Text
  pub artifacts : List DiscoveredArtifact
  pub revision : Option Text
  pub published_at : Option Datetime
  pub covered_period_start : Option ℕ
  pub covered_period_end : Option ℕ

abbrev pub discovered_role : DiscoveredArtifact → Text
discovered_role item = item.artifact_role

-- Revision, publication time and covered period are never inferred, so they must be absent.
unfoldable pub check_discovered_release : DiscoveredRelease → Checked Unit
check_discovered_release self = do
  require_identifier self.source_code source_contract_invalid
  require (leb 1 self.source_definition_version) source_contract_invalid
  require_identifier self.release_family_key source_contract_invalid
  require_identity_scheme self.identity_scheme source_contract_invalid
  require_sorted_unique_roles (map discovered_role self.artifacts) source_contract_invalid
  require (not (is_some self.revision)) source_contract_invalid
  require (not (is_some self.published_at)) source_contract_invalid
  require (not (is_some self.covered_period_start)) source_contract_invalid
  require (not (is_some self.covered_period_end)) source_contract_invalid

pub record ValidatedArtifact : Type 0 where
  pub artifact_role : Text
  pub artifact_format : SourceFormat
  pub filename : Text
  pub catalog_mime_type : Text
  pub sha256 : Text
  pub byte_length : ℕ
  pub content : List ℕ
  pub http : HttpObservation
  pub structure : ArtifactStructure

abbrev pub validated_role : ValidatedArtifact → Text
validated_role item = item.artifact_role

-- `hexdigest` is SHA-256 in lowercase hexadecimal.
unfoldable pub check_validated_artifact : (List ℕ → Text) → ValidatedArtifact → Checked Unit
check_validated_artifact hexdigest self = do
  require_identifier self.artifact_role source_contract_invalid
  require_sha256 self.sha256 source_contract_invalid
  require (not (is_empty self.content)) empty_artifact
  require (self.byte_length == length self.content && text_eq (hexdigest self.content) self.sha256)
      source_contract_invalid
  require_structure self.artifact_format self.structure

abbrev pub metadata_of : ValidatedArtifact → ArtifactMetadata
metadata_of item = record {
  artifact_role = item.artifact_role;
  artifact_format = item.artifact_format;
  byte_length = item.byte_length;
  structure = item.structure;
}

-- The constructor of each item of the tuple.
each_metadata : List ArtifactMetadata → Checked Unit
each_metadata [] = ok tt
each_metadata (item ∷ items) = check_artifact_metadata item >> each_metadata items

-- `ReleaseMetadata.from_artifacts`
unfoldable pub from_artifacts : Text → List ValidatedArtifact → Checked ReleaseMetadata
unfolding each_metadata
from_artifacts identity_scheme artifacts = do
  let items = map metadata_of (sort_by (by_key validated_role) artifacts)
  let metadata : ReleaseMetadata = record {
    identity_scheme = identity_scheme;
    snapshot_semantics = exact_observed_artifact_set;
    artifacts = items;
  }
  each_metadata items
  check_release_metadata metadata
  ok metadata

pub record ObservedRelease : Type 0 where
  pub discovered : DiscoveredRelease
  pub artifacts : List ValidatedArtifact
  pub release_identity_hash : Text
  pub first_observed_at : Datetime
  pub metadata : ReleaseMetadata

pub record CatalogedRelease : Type 0 where
  pub release_identity_hash : Text
  pub supersedes_release_identity_hash : Option Text
  pub artifact_sha256_by_role : List (Text × Text)

abbrev pub pair_role : Text × Text → Text
pair_role (role, digest) = role

unfoldable pub require_digests : List (Text × Text) → ErrorKind → Checked Unit
require_digests [] error = ok tt
require_digests ((role, digest) ∷ pairs) error =
    require_sha256 digest error >> require_digests pairs error

unfoldable pub check_predecessor : Option Text → Text → Checked Unit
check_predecessor none identity = ok tt
check_predecessor (some predecessor) identity = do
  require_sha256 predecessor lineage_ambiguous
  require (not (text_eq predecessor identity)) lineage_ambiguous

unfoldable pub check_cataloged_release : CatalogedRelease → Checked Unit
unfolding require_digests check_predecessor
check_cataloged_release self = do
  require_sha256 self.release_identity_hash lineage_ambiguous
  check_predecessor self.supersedes_release_identity_hash self.release_identity_hash
  require_digests self.artifact_sha256_by_role lineage_ambiguous
  require_sorted_unique_roles (map pair_role self.artifact_sha256_by_role) lineage_ambiguous

pub record PriorFamilyState : Type 0 where
  pub source_code : Text
  pub release_family_key : Text
  pub releases : List CatalogedRelease

abbrev pub identity_of : CatalogedRelease → Text
identity_of item = item.release_identity_hash

-- len(identities) == len(set(identities))
unfoldable pub all_distinct : List Text → Bool
all_distinct xs = length xs == length (sorted_set xs)

unfoldable pub check_prior_family_state : PriorFamilyState → Checked Unit
check_prior_family_state self = do
  require_identifier self.source_code lineage_ambiguous
  require_identifier self.release_family_key lineage_ambiguous
  require (all_distinct (map identity_of self.releases)) lineage_ambiguous
