-- ===== src/Config/Sources.antt =====
-- The sources document (src/mx_bank_monitor/config/models.py).
use mexican_banking_monitor.Base.{
  ℕ, Bool, true, false, not, Option, none, some, List, [], ◌∷◌, ◌++◌, map, Text, codes, ok, err,
  require, ◌>>◌, if◌then◌else◌, is_some, ◌==◌,
}
use mexican_banking_monitor.Config.Errors.{
  DefinitionLifecycle, Validated, unsupported_schema_version, missing_artifact_role,
  missing_artifact_format, undue_artifact_fields, empty_formats, empty_endpoints, undeclared_format,
  empty_reporting_scope_codes, duplicate_value,
}
use mexican_banking_monitor.Config.Unique.{require_unique}

abbrev pub config_schema_version : ℕ
config_schema_version = 2

-- `supported_schema_version`, which every document runs first.
unfoldable pub supported_schema_version : ℕ → Validated
supported_schema_version version =
    require (version == config_schema_version) (unsupported_schema_version version)

pub data SourceFormat : Type 0 where
  csv : SourceFormat
  xlsx : SourceFormat
  pdf : SourceFormat
  zip : SourceFormat

pub data SourceRole : Type 0 where
  primary : SourceRole
  reconciliation : SourceRole
  authoritative_icap : SourceRole

pub data EndpointKind : Type 0 where
  landing_page : EndpointKind
  document_library : EndpointKind
  artifact : EndpointKind

unfoldable pub format_value : SourceFormat → Text
format_value csv = codes "csv"
format_value xlsx = codes "xlsx"
format_value pdf = codes "pdf"
format_value zip = codes "zip"

unfoldable pub kind_value : EndpointKind → Text
kind_value landing_page = codes "landing_page"
kind_value document_library = codes "document_library"
kind_value artifact = codes "artifact"

unfoldable pub is_artifact : EndpointKind → Bool
is_artifact landing_page = false
is_artifact document_library = false
is_artifact artifact = true

unfoldable pub format_in : SourceFormat → List SourceFormat → Bool
format_in f [] = false
format_in csv (csv ∷ formats) = true
format_in xlsx (xlsx ∷ formats) = true
format_in pdf (pdf ∷ formats) = true
format_in zip (zip ∷ formats) = true
format_in f (g ∷ formats) = format_in f formats

-- `artifact_fields_set`: whether `model_fields_set` has one of the two fields. The URL is text, as
-- `HttpUrl` prints it.
pub record SourceEndpoint : Type 0 where
  pub kind : EndpointKind
  pub url : Text
  pub artifact_role : Option Text
  pub artifact_format : Option SourceFormat
  pub artifact_fields_set : Bool

unfoldable pub artifact_fields_match_kind : SourceEndpoint → Validated
unfolding is_artifact
artifact_fields_match_kind self =
    if is_artifact self.kind
    then require (is_some self.artifact_role) missing_artifact_role
      >> require (is_some self.artifact_format) missing_artifact_format
    else require (not self.artifact_fields_set) undue_artifact_fields

pub record SourceDefinition : Type 0 where
  pub code : Text
  pub definition_version : ℕ
  pub label : Text
  pub regulator_code : Text
  pub country : Text
  pub sector : Text
  pub adapter_key : Text
  pub methodological_role : SourceRole
  pub formats : List SourceFormat
  pub endpoints : List SourceEndpoint
  pub reporting_scope_codes : List Text
  pub lifecycle : DefinitionLifecycle

unfoldable pub is_nonempty {ℓ} : {A : Type ℓ} → List A → Bool
is_nonempty [] = false
is_nonempty (x ∷ xs) = true

unfoldable pub endpoint_key : SourceEndpoint → Text
unfolding kind_value
endpoint_key item = kind_value item.kind ++ codes ":" ++ item.url

unfoldable pub artifact_endpoints : List SourceEndpoint → List SourceEndpoint
unfolding is_artifact
artifact_endpoints [] = []
artifact_endpoints (item ∷ items) =
    let rest = artifact_endpoints items in if is_artifact item.kind then item ∷ rest else rest

unfoldable pub declared_roles : List SourceEndpoint → List Text
declared_roles [] = []
declared_roles (item ∷ items) = elim item.artifact_role [
  | none ↦ declared_roles items
  | some role ↦ role ∷ declared_roles items
]

unfoldable pub require_declared_formats : List SourceFormat → List SourceEndpoint → Validated
unfolding format_in
require_declared_formats formats [] = ok tt
require_declared_formats formats (item ∷ items) = elim item.artifact_format [
  | none ↦ err undeclared_format
  | some format ↦
      require (format_in format formats) undeclared_format >> require_declared_formats formats items
]

unfoldable pub unique_nested_values : SourceDefinition → Validated
unfolding is_nonempty format_value endpoint_key artifact_endpoints declared_roles
    require_declared_formats require_unique
unique_nested_values self = do
  require (is_nonempty self.formats) empty_formats
  require_unique (duplicate_value (codes "source format")) (map format_value self.formats)
  require (is_nonempty self.endpoints) empty_endpoints
  require_unique (duplicate_value (codes "source endpoint")) (map endpoint_key self.endpoints)
  let artifacts = artifact_endpoints self.endpoints
  require_unique (duplicate_value (codes "artifact role")) (declared_roles artifacts)
  require_declared_formats self.formats artifacts
  require (is_nonempty self.reporting_scope_codes) empty_reporting_scope_codes
  require_unique (duplicate_value (codes "reporting scope reference")) self.reporting_scope_codes

pub record SourcesDocument : Type 0 where
  pub schema_version : ℕ
  pub sources : List SourceDefinition

abbrev pub source_code_of : SourceDefinition → Text
source_code_of item = item.code

unfoldable pub unique_sources : SourcesDocument → Validated
unfolding require_unique
unique_sources self =
    require_unique (duplicate_value (codes "source code")) (map source_code_of self.sources)
