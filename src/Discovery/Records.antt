-- ===== src/Discovery/Records.antt =====
-- The records of ingestion/discovery.py with the checks of their `__post_init__`. Python's checks
-- that a value has its declared type hold here by typing.
use mexican_banking_monitor.Base.{
  ℕ, Bool, true, false, Option, List, [], ◌∷◌, map, Text, codes, require, ◌>>◌, ok, err, not, ltb,
  is_some, text_eq,
}
use mexican_banking_monitor.Base.Int.{ℤ}
use mexican_banking_monitor.Base.Json.{
  Json, Items, object, array, string, number, boolean, field, end, nil, cons,
}
use mexican_banking_monitor.Discovery.Errors.{ErrorKind, Checked, source_contract_invalid}
use mexican_banking_monitor.Discovery.Contracts.{
  require_identifier, require_identity_scheme, require_sha256, require_sorted_unique_roles,
}
use mexican_banking_monitor.Discovery.Summary.{is_empty}

-- `SourceFormat` of config/models.py
pub data SourceFormat : Type 0 where
  csv xlsx pdf zip : SourceFormat

unfoldable pub format_eq : SourceFormat → SourceFormat → Bool
format_eq csv csv = true
format_eq xlsx xlsx = true
format_eq pdf pdf = true
format_eq zip zip = true
format_eq _ _ = false

unfoldable pub format_value : SourceFormat → Text
format_value csv = codes "csv"
format_value xlsx = codes "xlsx"
format_value pdf = codes "pdf"
format_value zip = codes "zip"

-- A moment in UTC microseconds, and the offset in minutes of its clock, if it has one.
pub record Datetime : Type 0 where
  pub instant : ℕ
  pub utcoffset : Option ℤ

unfoldable pub require_aware : Datetime → ErrorKind → Checked Unit
require_aware value error = require (is_some value.utcoffset) error

pub record HttpObservation : Type 0 where
  pub requested_url : Text
  pub final_url : Text
  pub redirect_chain : List Text
  pub status_code : ℕ
  pub content_type : Option Text
  pub content_length : Option ℕ
  pub content_encoding : Option Text
  pub etag : Option Text
  pub last_modified : Option Text
  pub content_disposition : Option Text
  pub observed_at : Datetime

unfoldable pub check_http_observation : HttpObservation → Checked Unit
unfolding require_aware
check_http_observation self = require_aware self.observed_at source_contract_invalid

pub data LineTerminator : Type 0 where
  crlf lf : LineTerminator

unfoldable pub line_terminator_value : LineTerminator → Text
line_terminator_value crlf = codes "crlf"
line_terminator_value lf = codes "lf"

pub record ZipMemberStructure : Type 0 where
  pub member_name : Text
  pub member_uncompressed_size : ℕ
  pub header_sha256 : Text

unfoldable pub check_zip_member_structure : ZipMemberStructure → Checked Unit
check_zip_member_structure self = do
  require (not (is_empty self.member_name)) source_contract_invalid
  require_sha256 self.header_sha256 source_contract_invalid

pub record CsvTextStructure : Type 0 where
  pub header_sha256 : Text
  pub has_bom : Bool
  pub line_terminator : LineTerminator

unfoldable pub check_csv_text_structure : CsvTextStructure → Checked Unit
check_csv_text_structure self = require_sha256 self.header_sha256 source_contract_invalid

pub data ArtifactStructure : Type 0 where
  zip_member : ZipMemberStructure → ArtifactStructure
  csv_text : CsvTextStructure → ArtifactStructure

unfoldable pub structure_to_json : ArtifactStructure → Json
unfolding line_terminator_value
structure_to_json (zip_member s) = object (
    field (codes "kind") (string (codes "zip_member")) (
      field (codes "member_name") (string s.member_name) (
        field (codes "member_uncompressed_size") (number s.member_uncompressed_size)
          (field (codes "header_sha256") (string s.header_sha256) end))))
structure_to_json (csv_text s) = object (
    field (codes "kind") (string (codes "csv_text")) (
      field (codes "header_sha256") (string s.header_sha256) (
        field (codes "has_bom") (boolean s.has_bom) (
          field (codes "line_terminator") (string (line_terminator_value s.line_terminator)) end))))

-- `_require_structure`: ZIP and CSV have a frozen structure, the other formats have none.
unfoldable pub require_structure : SourceFormat → ArtifactStructure → Checked Unit
require_structure zip (zip_member s) = ok tt
require_structure csv (csv_text s) = ok tt
require_structure _ _ = err source_contract_invalid

pub record ArtifactMetadata : Type 0 where
  pub artifact_role : Text
  pub artifact_format : SourceFormat
  pub byte_length : ℕ
  pub structure : ArtifactStructure

unfoldable pub check_artifact_metadata : ArtifactMetadata → Checked Unit
check_artifact_metadata self = do
  require_identifier self.artifact_role source_contract_invalid
  require (ltb 0 self.byte_length) source_contract_invalid
  require_structure self.artifact_format self.structure

unfoldable pub metadata_to_json : ArtifactMetadata → Json
unfolding format_value structure_to_json
metadata_to_json self = object (
    field (codes "artifact_role") (string self.artifact_role) (
      field (codes "artifact_format") (string (format_value self.artifact_format)) (
        field (codes "byte_length") (number self.byte_length)
          (field (codes "structure") (structure_to_json self.structure) end))))

-- `snapshot_semantics` has the one value `exact_observed_artifact_set`, which is its type.
abbrev pub exact_observed_artifact_set : Text
exact_observed_artifact_set = codes "exact_observed_artifact_set"

pub record ReleaseMetadata : Type 0 where
  pub identity_scheme : Text
  pub snapshot_semantics : Text
  pub artifacts : List ArtifactMetadata

abbrev pub metadata_role : ArtifactMetadata → Text
metadata_role item = item.artifact_role

unfoldable pub check_release_metadata : ReleaseMetadata → Checked Unit
check_release_metadata self = do
  require_identity_scheme self.identity_scheme source_contract_invalid
  require (text_eq self.snapshot_semantics exact_observed_artifact_set) source_contract_invalid
  require_sorted_unique_roles (map metadata_role self.artifacts) source_contract_invalid

metadata_items : List ArtifactMetadata → Items
unfolding metadata_to_json
metadata_items [] = nil
metadata_items (item ∷ items) = cons (metadata_to_json item) (metadata_items items)

unfoldable pub release_metadata_to_json : ReleaseMetadata → Json
unfolding metadata_items
release_metadata_to_json self = object (
    field (codes "identity_scheme") (string self.identity_scheme) (
      field (codes "snapshot_semantics") (string self.snapshot_semantics)
        (field (codes "artifacts") (array (metadata_items self.artifacts)) end)))

pub record DiscoveredArtifact : Type 0 where
  pub artifact_role : Text
  pub artifact_format : SourceFormat
  pub original_url : Text

unfoldable pub check_discovered_artifact : DiscoveredArtifact → Checked Unit
check_discovered_artifact self = do
  require_identifier self.artifact_role source_contract_invalid
  require (not (is_empty self.original_url)) source_contract_invalid
