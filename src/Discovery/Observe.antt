-- ===== src/Discovery/Observe.antt =====
-- `ObservedRelease`: its checks, and `from_validated_artifacts`.
pub mod Laws
use mexican_banking_monitor.Base.{
  ℕ, Bool, true, false, Option, none, some, List, [], ◌∷◌, map, Text, require, ◌>>◌, ◌>>=◌, ok, err,
  not, ◌==◌, ◌&&◌, is_some, ltb, text_eq, if◌then◌else◌,
}
use mexican_banking_monitor.Base.Sorting.{sort_by, by_key}
use mexican_banking_monitor.Discovery.Errors.{Checked, discovery_failed, source_contract_invalid}
use mexican_banking_monitor.Discovery.Summary.{is_empty}
use mexican_banking_monitor.Discovery.Records.{
  SourceFormat, format_eq, Datetime, LineTerminator, crlf, lf, ZipMemberStructure, CsvTextStructure,
  ArtifactStructure, zip_member, csv_text, ArtifactMetadata, ReleaseMetadata, DiscoveredArtifact,
}
use mexican_banking_monitor.Discovery.Releases.{
  DiscoveredRelease, ValidatedArtifact, validated_role, ObservedRelease, from_artifacts,
}
use mexican_banking_monitor.Discovery.Identity.{release_identity_hash}

-- The comparison of the (role, format) tuples.
unfoldable pub roles_and_formats_match : List ValidatedArtifact → List DiscoveredArtifact → Bool
roles_and_formats_match [] [] = true
roles_and_formats_match [] (d ∷ ds) = false
roles_and_formats_match (a ∷ as') [] = false
roles_and_formats_match (a ∷ as') (d ∷ ds) =
    text_eq a.artifact_role d.artifact_role
    && format_eq a.artifact_format d.artifact_format
    && roles_and_formats_match as' ds

-- min(item.http.observed_at for item in artifacts)
unfoldable pub earliest_from : Datetime → List ValidatedArtifact → Datetime
earliest_from best [] = best
earliest_from best (item ∷ items) =
    earliest_from
      (if ltb item.http.observed_at.instant best.instant then item.http.observed_at else best) items

-- The comparisons that `@dataclass` gives.
bool_eq : Bool → Bool → Bool
bool_eq true b = b
bool_eq false b = not b

line_terminator_eq : LineTerminator → LineTerminator → Bool
line_terminator_eq crlf crlf = true
line_terminator_eq lf lf = true
line_terminator_eq _ _ = false

-- `==` of datetimes: a naive one and an aware one are unequal.
unfoldable pub datetime_eq : Datetime → Datetime → Bool
unfolding bool_eq
datetime_eq a b = bool_eq (is_some a.utcoffset) (is_some b.utcoffset) && a.instant == b.instant

unfoldable pub structure_eq : ArtifactStructure → ArtifactStructure → Bool
unfolding bool_eq line_terminator_eq
structure_eq (zip_member a) (zip_member b) =
    text_eq a.member_name b.member_name
    && a.member_uncompressed_size == b.member_uncompressed_size
    && text_eq a.header_sha256 b.header_sha256
structure_eq (csv_text a) (csv_text b) =
    text_eq a.header_sha256 b.header_sha256
    && bool_eq a.has_bom b.has_bom
    && line_terminator_eq a.line_terminator b.line_terminator
structure_eq _ _ = false

unfoldable pub artifact_metadata_eq : ArtifactMetadata → ArtifactMetadata → Bool
unfolding structure_eq
artifact_metadata_eq a b =
    text_eq a.artifact_role b.artifact_role
    && format_eq a.artifact_format b.artifact_format
    && a.byte_length == b.byte_length
    && structure_eq a.structure b.structure

unfoldable pub artifacts_metadata_eq : List ArtifactMetadata → List ArtifactMetadata → Bool
unfolding artifact_metadata_eq
artifacts_metadata_eq [] [] = true
artifacts_metadata_eq [] (b ∷ bs) = false
artifacts_metadata_eq (a ∷ as') [] = false
artifacts_metadata_eq (a ∷ as') (b ∷ bs) = artifact_metadata_eq a b && artifacts_metadata_eq as' bs

unfoldable pub release_metadata_eq : ReleaseMetadata → ReleaseMetadata → Bool
unfolding artifacts_metadata_eq
release_metadata_eq a b =
    text_eq a.identity_scheme b.identity_scheme
    && text_eq a.snapshot_semantics b.snapshot_semantics
    && artifacts_metadata_eq a.artifacts b.artifacts

unfoldable pub earliest : List ValidatedArtifact → Checked Datetime
unfolding earliest_from
earliest [] = err discovery_failed
earliest (item ∷ items) = ok (earliest_from item.http.observed_at items)

unfoldable pub check_observed_release : (List ℕ → Text) → ObservedRelease → Checked Unit
unfolding roles_and_formats_match datetime_eq
check_observed_release hexdigest self = do
  require (roles_and_formats_match self.artifacts self.discovered.artifacts) source_contract_invalid
  identity ← release_identity_hash hexdigest self.discovered self.artifacts
  require (text_eq self.release_identity_hash identity) source_contract_invalid
  first ← earliest self.artifacts
  require (datetime_eq self.first_observed_at first) source_contract_invalid
  metadata ← from_artifacts self.discovered.identity_scheme self.artifacts
  require (release_metadata_eq self.metadata metadata) source_contract_invalid

unfoldable pub from_validated_artifacts :
    (List ℕ → Text) → DiscoveredRelease → List ValidatedArtifact → Checked ObservedRelease
unfolding check_observed_release
from_validated_artifacts hexdigest discovered artifacts = do
  let ordered = sort_by (by_key validated_role) artifacts
  require (not (is_empty ordered)) source_contract_invalid
  identity ← release_identity_hash hexdigest discovered ordered
  first ← earliest ordered
  metadata ← from_artifacts discovered.identity_scheme ordered
  let observed : ObservedRelease = record {
    discovered = discovered;
    artifacts = ordered;
    release_identity_hash = identity;
    first_observed_at = first;
    metadata = metadata;
  }
  check_observed_release hexdigest observed
  ok observed
