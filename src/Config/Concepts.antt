-- ===== src/Config/Concepts.antt =====
-- Reporting scopes, canonical concepts, regulatory concepts and their mappings
-- (src/mx_bank_monitor/config/models.py).
use mexican_banking_monitor.Base.{
  ℕ, Bool, true, false, ◌&&◌, Option, none, some, List, [], ◌∷◌, ◌++◌, map, Text, codes, text_eq,
  require, ◌>>◌, if◌then◌else◌,
}
use mexican_banking_monitor.Base.Json.{decimal}
use mexican_banking_monitor.Config.Errors.{
  DefinitionLifecycle, ContractError, Validated, is_active, duplicate_value,
  empty_reporting_scope_codes, empty_reporting_scopes, period_kind_mismatch, overlapping_mapping,
}
use mexican_banking_monitor.Config.Unique.{require_unique}
use mexican_banking_monitor.Config.Ranges.{ValidityRange}
use mexican_banking_monitor.Config.Pairs.{require_no_conflict}
use mexican_banking_monitor.Config.Sources.{is_nonempty}
use mexican_banking_monitor.Config.Institutions.{overlap}

pub record ReportingScopeDefinition : Type 0 where
  pub code : Text
  pub definition_version : ℕ
  pub label : Text
  pub definition : Text
  pub rationale : Text
  pub lifecycle : DefinitionLifecycle

pub record ReportingScopesDocument : Type 0 where
  pub schema_version : ℕ
  pub reporting_scopes : List ReportingScopeDefinition

abbrev pub scope_code_of : ReportingScopeDefinition → Text
scope_code_of item = item.code

unfoldable pub unique_scopes : ReportingScopesDocument → Validated
unfolding require_unique is_nonempty
unique_scopes self =
    require_unique (duplicate_value (codes "reporting scope code"))
      (map scope_code_of self.reporting_scopes)
    >> require (is_nonempty self.reporting_scopes) empty_reporting_scopes

pub data ConceptDataNature : Type 0 where
  stock : ConceptDataNature
  flow_ytd : ConceptDataNature

pub data PeriodKind : Type 0 where
  instant : PeriodKind
  duration : PeriodKind

pub record CanonicalConceptDefinition : Type 0 where
  pub code : Text
  pub definition_version : ℕ
  pub label : Text
  pub definition : Text
  pub data_nature : ConceptDataNature
  pub period_kind : PeriodKind
  pub canonical_unit_code : Text
  pub reporting_scope_codes : List Text
  pub lifecycle : DefinitionLifecycle

unfoldable pub expected_period_kind : ConceptDataNature → PeriodKind
expected_period_kind stock = instant
expected_period_kind flow_ytd = duration

unfoldable pub same_period_kind : PeriodKind → PeriodKind → Bool
same_period_kind instant instant = true
same_period_kind instant duration = false
same_period_kind duration instant = false
same_period_kind duration duration = true

unfoldable pub consistent_period_semantics : CanonicalConceptDefinition → Validated
unfolding expected_period_kind same_period_kind is_nonempty require_unique
consistent_period_semantics self = do
  require (same_period_kind self.period_kind (expected_period_kind self.data_nature))
      period_kind_mismatch
  require (is_nonempty self.reporting_scope_codes) empty_reporting_scope_codes
  require_unique (duplicate_value (codes "reporting scope reference")) self.reporting_scope_codes

pub record ConceptsDocument : Type 0 where
  pub schema_version : ℕ
  pub concepts : List CanonicalConceptDefinition

abbrev pub concept_code_of : CanonicalConceptDefinition → Text
concept_code_of item = item.code

unfoldable pub unique_concepts : ConceptsDocument → Validated
unfolding require_unique
unique_concepts self =
    require_unique (duplicate_value (codes "canonical concept code"))
      (map concept_code_of self.concepts)

pub record RegulatoryConceptDefinition : Type 0 where
  pub range : ValidityRange
  pub source_code : Text
  pub code : Text
  pub definition_version : ℕ
  pub label : Text
  pub definition : Text
  pub reporting_scope_codes : List Text
  pub lifecycle : DefinitionLifecycle

pub data Comparability : Type 0 where
  exact : Comparability
  harmonized : Comparability
  proxy : Comparability
  not_comparable : Comparability

pub record MappingDefinition : Type 0 where
  pub range : ValidityRange
  pub source_code : Text
  pub regulatory_concept_code : Text
  pub regulatory_concept_definition_version : ℕ
  pub canonical_concept_code : Text
  pub reporting_scope_code : Text
  pub definition_version : ℕ
  pub transformation_key : Option Text
  pub comparability : Comparability
  pub lifecycle : DefinitionLifecycle
  pub methodology_notes : Text
  pub provenance : Text

pub record MappingsDocument : Type 0 where
  pub schema_version : ℕ
  pub regulatory_concepts : List RegulatoryConceptDefinition
  pub mappings : List MappingDefinition

-- ":".join(parts)
unfoldable pub joined : List Text → Text
joined [] = []
joined (part ∷ []) = part
joined (part ∷ next ∷ parts) = part ++ codes ":" ++ joined (next ∷ parts)

unfoldable pub regulatory_identity : RegulatoryConceptDefinition → Text
unfolding joined decimal
regulatory_identity item =
    joined (item.source_code ∷ item.code ∷ decimal item.definition_version ∷ [])

unfoldable pub mapping_identity : MappingDefinition → Text
unfolding joined decimal
mapping_identity item = joined (
    item.source_code
    ∷ item.regulatory_concept_code
    ∷ decimal item.regulatory_concept_definition_version
    ∷ item.canonical_concept_code
    ∷ item.reporting_scope_code
    ∷ decimal item.definition_version
    ∷ [])

unfoldable pub active_mappings : List MappingDefinition → List MappingDefinition
unfolding is_active
active_mappings [] = []
active_mappings (item ∷ items) =
    let rest = active_mappings items in if is_active item.lifecycle then item ∷ rest else rest

unfoldable pub same_mapping : MappingDefinition → MappingDefinition → Bool
unfolding decimal
same_mapping mapping other =
    text_eq mapping.source_code other.source_code
    && (text_eq mapping.regulatory_concept_code other.regulatory_concept_code
        && (text_eq (decimal mapping.regulatory_concept_definition_version)
              (decimal other.regulatory_concept_definition_version)
            && (text_eq mapping.canonical_concept_code other.canonical_concept_code
                && text_eq mapping.reporting_scope_code other.reporting_scope_code)))

unfoldable pub mapping_conflict : MappingDefinition → MappingDefinition → Option ContractError
unfolding same_mapping overlap
mapping_conflict mapping other =
    if same_mapping mapping other && overlap mapping.range other.range
    then some overlapping_mapping
    else none

unfoldable pub validate_mapping_versions : MappingsDocument → Validated
unfolding require_unique regulatory_identity mapping_identity active_mappings mapping_conflict
    require_no_conflict
validate_mapping_versions self = do
  require_unique (duplicate_value (codes "regulatory concept identity/version"))
      (map regulatory_identity self.regulatory_concepts)
  require_unique (duplicate_value (codes "mapping identity/version"))
      (map mapping_identity self.mappings)
  require_no_conflict mapping_conflict (active_mappings self.mappings)
