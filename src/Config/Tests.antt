-- ===== src/Config/Tests.antt =====
-- The theorems on the configuration's contracts at a concrete bundle.
use mexican_banking_monitor.Base.{
  ℕ, ◌≡◌, ◌↔◌, refl, true, none, some, List, [], ◌∷◌, ◌++◌, Text, codes, ok, contains, text_eq, All,
}
use mexican_banking_monitor.Base.Distinct.{IsDistinct}
use mexican_banking_monitor.Base.Json.{decimal}
use mexican_banking_monitor.Discovery.Summary.{is_space}
use mexican_banking_monitor.Config.Errors.{active}
use mexican_banking_monitor.Config.Unique.{duplicate, duplicate_iff, duplicate-some}
use mexican_banking_monitor.Config.Ranges.{ValidityRange}
use mexican_banking_monitor.Config.Pairs.{AllPairs}
use mexican_banking_monitor.Config.Sources.{SourceDefinition, primary, csv}
use mexican_banking_monitor.Config.Institutions.{
  InstitutionsDocument, InstitutionDefinition, RegulatoryRegistration, InstitutionAlias, legal_name,
  validate_identity_contracts, all_registrations, all_aliases,
}
use mexican_banking_monitor.Config.Concepts.{
  ReportingScopeDefinition, CanonicalConceptDefinition, RegulatoryConceptDefinition,
  MappingDefinition, MappingsDocument, stock, instant, exact, active_mappings,
  validate_mapping_versions,
}
use mexican_banking_monitor.Config.Bundle.{ConfigBundle, validate_cross_references}
use mexican_banking_monitor.Config.Days.{
  RegistrationsApart, AliasesApart, MappingsApart, validate_identity_contracts-apart,
  validate_mapping_versions-apart,
}
use mexican_banking_monitor.Config.Resolved.{IsResolved, validate_cross_references-IsResolved}

abbrev early : ValidityRange
early = record { valid_from = 10; valid_to = some 20 }

abbrev late : ValidityRange
late = record { valid_from = 21; valid_to = none }

abbrev alias_in : ValidityRange → InstitutionAlias
alias_in range = record {
  range = range;
  value = codes "Banco  X";
  alias_type = legal_name;
  source_code = codes "cnbv_csv";
}

abbrev registration_in : ValidityRange → RegulatoryRegistration
registration_in range = record {
  range = range;
  regulator_code = codes "cnbv";
  registration_type = codes "bank";
  registration_code = codes "040";
  source_code = codes "cnbv_csv";
}

-- The alias and the registration pass from one institution to the other.
abbrev institution_in : Text → ValidityRange → InstitutionDefinition
institution_in code range = record {
  code = code;
  definition_version = 1;
  canonical_label = code;
  country = codes "MX";
  lifecycle = active;
  provenance = codes "p";
  registrations = registration_in range ∷ [];
  aliases = alias_in range ∷ [];
  cohorts = [];
}

abbrev institutions_document : InstitutionsDocument
institutions_document = record {
  schema_version = 2;
  cohorts = [];
  institutions = institution_in (codes "x") early ∷ institution_in (codes "y") late ∷ [];
}

abbrev same_case : Text → Text
same_case text = text

institutions_accepted : validate_identity_contracts same_case institutions_document ≡ ok tt
unfolding validate_identity_contracts text_eq contains is_space
institutions_accepted = refl

abbrev source : SourceDefinition
source = record {
  code = codes "cnbv_csv";
  definition_version = 1;
  label = codes "l";
  regulator_code = codes "cnbv";
  country = codes "MX";
  sector = codes "banca_multiple";
  adapter_key = codes "a";
  methodological_role = primary;
  formats = csv ∷ [];
  endpoints = [];
  reporting_scope_codes = codes "s" ∷ [];
  lifecycle = active;
}

abbrev scope : ReportingScopeDefinition
scope = record {
  code = codes "s";
  definition_version = 1;
  label = codes "l";
  definition = codes "d";
  rationale = codes "r";
  lifecycle = active;
}

abbrev concept : CanonicalConceptDefinition
concept = record {
  code = codes "assets";
  definition_version = 1;
  label = codes "l";
  definition = codes "d";
  data_nature = stock;
  period_kind = instant;
  canonical_unit_code = codes "MXN";
  reporting_scope_codes = codes "s" ∷ [];
  lifecycle = active;
}

abbrev regulatory : RegulatoryConceptDefinition
regulatory = record {
  range = late;
  source_code = codes "cnbv_csv";
  code = codes "r";
  definition_version = 1;
  label = codes "l";
  definition = codes "d";
  reporting_scope_codes = codes "s" ∷ [];
  lifecycle = active;
}

abbrev mapping_in : ℕ → ValidityRange → MappingDefinition
mapping_in version range = record {
  range = range;
  source_code = codes "cnbv_csv";
  regulatory_concept_code = codes "r";
  regulatory_concept_definition_version = 1;
  canonical_concept_code = codes "assets";
  reporting_scope_code = codes "s";
  definition_version = version;
  transformation_key = none;
  comparability = exact;
  lifecycle = active;
  methodology_notes = codes "n";
  provenance = codes "p";
}

abbrev mappings_document : MappingsDocument
mappings_document = record {
  schema_version = 2;
  regulatory_concepts = regulatory ∷ [];
  mappings = mapping_in 1 early ∷ mapping_in 2 late ∷ [];
}

mappings_accepted : validate_mapping_versions mappings_document ≡ ok tt
unfolding validate_mapping_versions text_eq contains decimal
mappings_accepted = refl

abbrev bundle : ConfigBundle
bundle = record {
  sources = record { schema_version = 2; sources = source ∷ [] };
  institutions = institutions_document;
  reporting_scopes = record { schema_version = 2; reporting_scopes = scope ∷ [] };
  concepts = record { schema_version = 2; concepts = concept ∷ [] };
  mappings = mappings_document;
  metrics = record { schema_version = 2; metrics = [] };
}

bundle_accepted : validate_cross_references bundle ≡ ok tt
unfolding validate_cross_references text_eq contains
bundle_accepted = refl

validate_identity_contracts-apart_example :
    AllPairs RegistrationsApart (all_registrations institutions_document.institutions)
    × AllPairs (AliasesApart same_case) (all_aliases institutions_document.institutions)
validate_identity_contracts-apart_example =
    validate_identity_contracts-apart same_case institutions_document institutions_accepted

validate_mapping_versions-apart_example :
    AllPairs MappingsApart (active_mappings mappings_document.mappings)
validate_mapping_versions-apart_example =
    validate_mapping_versions-apart mappings_document mappings_accepted

validate_cross_references-IsResolved_example : All (IsResolved bundle) bundle.mappings.mappings
validate_cross_references-IsResolved_example =
    validate_cross_references-IsResolved bundle bundle_accepted

duplicate_iff_example :
    (duplicate (codes "a" ∷ codes "b" ∷ []) ≡ none) ↔ IsDistinct (codes "a" ∷ codes "b" ∷ [])
duplicate_iff_example = duplicate_iff (codes "a" ∷ codes "b" ∷ [])

repeated : duplicate (codes "a" ∷ codes "b" ∷ codes "a" ∷ []) ≡ some (codes "a")
unfolding duplicate contains text_eq
repeated = refl

duplicate-some_example :
    (before after : List Text) × ((codes "a" ∷ codes "b" ∷ codes "a" ∷ [])
      ≡ before ++ codes "a" ∷ after)
    × (contains (codes "a") before ≡ true)
duplicate-some_example =
    duplicate-some (codes "a" ∷ codes "b" ∷ codes "a" ∷ []) (codes "a") repeated
