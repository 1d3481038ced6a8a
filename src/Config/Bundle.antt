-- ===== src/Config/Bundle.antt =====
-- The six documents together, and their references to each other (`ConfigBundle` in
-- src/mx_bank_monitor/config/models.py).
use mexican_banking_monitor.Base.{
  Bool, ◌&&◌, Option, none, some, List, [], ◌∷◌, map, Text, codes, text_eq, contains, Result, ok,
  err, require, ◌>>=◌, ◌>>◌, if◌then◌else◌, ◌==◌,
}
use mexican_banking_monitor.Config.Errors.{
  ContractError, Validated, outside_boundary, unknown_reference, regulator_mismatch,
  unsupported_scope,
}
use mexican_banking_monitor.Config.Sources.{SourcesDocument, SourceDefinition, source_code_of}
use mexican_banking_monitor.Config.Institutions.{
  InstitutionsDocument, InstitutionDefinition, RegulatoryRegistration, InstitutionAlias,
}
use mexican_banking_monitor.Config.Concepts.{
  ReportingScopesDocument, ConceptsDocument, MappingsDocument, CanonicalConceptDefinition,
  RegulatoryConceptDefinition, MappingDefinition, scope_code_of, concept_code_of,
}
use mexican_banking_monitor.Config.Metrics.{MetricsDocument, MetricDefinition, MetricInput}

pub record ConfigBundle : Type 0 where
  pub sources : SourcesDocument
  pub institutions : InstitutionsDocument
  pub reporting_scopes : ReportingScopesDocument
  pub concepts : ConceptsDocument
  pub mappings : MappingsDocument
  pub metrics : MetricsDocument

-- A dictionary made of the items in order: the last one with the key stands.
unfoldable pub find_last : {A : Type 0} → (A → Bool) → List A → Option A
find_last is_it [] = none
find_last is_it (item ∷ items) =
    let later = find_last is_it items in
    elim later [ some found ↦ some found | none ↦ if is_it item then some item else none ]

abbrev pub has_code : Text → SourceDefinition → Bool
has_code code source = text_eq source.code code

abbrev pub is_concept : Text → CanonicalConceptDefinition → Bool
is_concept code concept = text_eq concept.code code

-- regulatory_key == (item.source_code, item.code, item.definition_version)
abbrev pub is_regulatory : MappingDefinition → RegulatoryConceptDefinition → Bool
is_regulatory mapping item =
    text_eq item.source_code mapping.source_code
    && (text_eq item.code mapping.regulatory_concept_code
        && (item.definition_version == mapping.regulatory_concept_definition_version))

-- The owner that the message also names is left out.
unfoldable pub require_reference : Text → Text → List Text → Validated
require_reference kind value known = require (contains value known) (unknown_reference kind value)

-- A dictionary lookup: a missing key would raise `KeyError`.
unfoldable pub require_found : {A : Type 0} → Text → Text → Option A → Result ContractError A
require_found kind value none = err (unknown_reference kind value)
require_found kind value (some a) = ok a

unfoldable pub check_scopes : List Text → List Text → Validated
unfolding require_reference
check_scopes scope_codes [] = ok tt
check_scopes scope_codes (code ∷ codes') =
    require_reference (codes "reporting scope") code scope_codes >> check_scopes scope_codes codes'

unfoldable pub check_sources : List Text → List SourceDefinition → Validated
unfolding check_scopes
check_sources scope_codes [] = ok tt
check_sources scope_codes (source ∷ sources) = do
  require (text_eq source.regulator_code (codes "cnbv"))
      (outside_boundary source.code source.regulator_code)
  require (text_eq source.country (codes "MX")) (outside_boundary source.code source.country)
  require (text_eq source.sector (codes "banca_multiple"))
      (outside_boundary source.code source.sector)
  check_scopes scope_codes source.reporting_scope_codes
  check_sources scope_codes sources

unfoldable pub check_concepts : List Text → List CanonicalConceptDefinition → Validated
unfolding check_scopes
check_concepts scope_codes [] = ok tt
check_concepts scope_codes (concept ∷ concepts) =
    check_scopes scope_codes concept.reporting_scope_codes >> check_concepts scope_codes concepts

unfoldable pub check_registrations : List SourceDefinition → List RegulatoryRegistration → Validated
unfolding require_reference require_found find_last
check_registrations sources [] = ok tt
check_registrations sources (registration ∷ registrations) = do
  require_reference (codes "source") registration.source_code (map source_code_of sources)
  source ←
      require_found (codes "source") registration.source_code
        (find_last (has_code registration.source_code) sources)
  require (text_eq registration.regulator_code source.regulator_code)
      (regulator_mismatch registration.regulator_code source.regulator_code)
  check_registrations sources registrations

unfoldable pub check_aliases : List Text → List InstitutionAlias → Validated
unfolding require_reference
check_aliases source_codes [] = ok tt
check_aliases source_codes (alias ∷ aliases) =
    require_reference (codes "source") alias.source_code source_codes
    >> check_aliases source_codes aliases

unfoldable pub check_owners : List SourceDefinition → List InstitutionDefinition → Validated
unfolding check_registrations check_aliases
check_owners sources [] = ok tt
check_owners sources (institution ∷ institutions) = do
  require (text_eq institution.country (codes "MX"))
      (outside_boundary institution.code institution.country)
  check_registrations sources institution.registrations
  check_aliases (map source_code_of sources) institution.aliases
  check_owners sources institutions

unfoldable pub check_regulatory_concepts :
    List Text → List Text → List RegulatoryConceptDefinition → Validated
unfolding require_reference check_scopes
check_regulatory_concepts source_codes scope_codes [] = ok tt
check_regulatory_concepts source_codes scope_codes (item ∷ items) = do
  require_reference (codes "source") item.source_code source_codes
  check_scopes scope_codes item.reporting_scope_codes
  check_regulatory_concepts source_codes scope_codes items

unfoldable pub check_mapping : ConfigBundle → MappingDefinition → Validated
unfolding require_reference require_found find_last
check_mapping self mapping = do
  let sources = self.sources.sources
  let concepts = self.concepts.concepts
  require_reference (codes "source") mapping.source_code (map source_code_of sources)
  require_reference (codes "canonical concept") mapping.canonical_concept_code
      (map concept_code_of concepts)
  require_reference (codes "reporting scope") mapping.reporting_scope_code
      (map scope_code_of self.reporting_scopes.reporting_scopes)
  regulatory_concept ←
      require_found (codes "regulatory concept") mapping.regulatory_concept_code
        (find_last (is_regulatory mapping) self.mappings.regulatory_concepts)
  source ←
      require_found (codes "source") mapping.source_code
        (find_last (has_code mapping.source_code) sources)
  require (contains mapping.reporting_scope_code source.reporting_scope_codes)
      (unsupported_scope (codes "source") mapping.reporting_scope_code)
  require (contains mapping.reporting_scope_code regulatory_concept.reporting_scope_codes)
      (unsupported_scope (codes "regulatory concept") mapping.reporting_scope_code)
  canonical_concept ←
      require_found (codes "canonical concept") mapping.canonical_concept_code
        (find_last (is_concept mapping.canonical_concept_code) concepts)
  require (contains mapping.reporting_scope_code canonical_concept.reporting_scope_codes)
      (unsupported_scope (codes "canonical concept") mapping.reporting_scope_code)

unfoldable pub check_mappings : ConfigBundle → List MappingDefinition → Validated
unfolding check_mapping
check_mappings self [] = ok tt
check_mappings self (mapping ∷ mappings) =
    check_mapping self mapping >> check_mappings self mappings

unfoldable pub check_inputs : ConfigBundle → List MetricInput → Validated
unfolding require_reference require_found find_last
check_inputs self [] = ok tt
check_inputs self (metric_input ∷ inputs) = do
  require_reference (codes "canonical concept") metric_input.canonical_concept_code
      (map concept_code_of self.concepts.concepts)
  require_reference (codes "reporting scope") metric_input.reporting_scope_code
      (map scope_code_of self.reporting_scopes.reporting_scopes)
  concept ←
      require_found (codes "canonical concept") metric_input.canonical_concept_code
        (find_last (is_concept metric_input.canonical_concept_code) self.concepts.concepts)
  require (contains metric_input.reporting_scope_code concept.reporting_scope_codes)
      (unsupported_scope (codes "canonical concept") metric_input.reporting_scope_code)
  check_inputs self inputs

unfoldable pub check_metrics : ConfigBundle → List MetricDefinition → Validated
unfolding check_inputs
check_metrics self [] = ok tt
check_metrics self (metric ∷ metrics) =
    check_inputs self metric.inputs >> check_metrics self metrics

unfoldable pub validate_cross_references : ConfigBundle → Validated
unfolding check_sources check_concepts check_owners check_regulatory_concepts check_mappings
    check_metrics
validate_cross_references self = do
  let scope_codes = map scope_code_of self.reporting_scopes.reporting_scopes
  check_sources scope_codes self.sources.sources
  check_concepts scope_codes self.concepts.concepts
  check_owners self.sources.sources self.institutions.institutions
  check_regulatory_concepts (map source_code_of self.sources.sources) scope_codes
      self.mappings.regulatory_concepts
  check_mappings self self.mappings.mappings
  check_metrics self self.metrics.metrics
