-- ===== src/Config/Resolved.antt =====
-- What `ConfigBundle` promises of its references (src/mx_bank_monitor/config/models.py).
use mexican_banking_monitor.Base.{
  ◌≡◌, true, Option, none, some, List, [], ◌∷◌, map, Text, codes, contains, ok, require, >>=-eq-ok,
  >>-eq-ok, require-eq-ok, All,
}
use mexican_banking_monitor.Config.Errors.{unknown_reference, unsupported_scope}
use mexican_banking_monitor.Config.Sources.{SourceDefinition, source_code_of}
use mexican_banking_monitor.Config.Concepts.{
  CanonicalConceptDefinition, RegulatoryConceptDefinition, MappingDefinition, scope_code_of,
  concept_code_of,
}
use mexican_banking_monitor.Config.Bundle.{
  ConfigBundle, find_last, has_code, is_concept, is_regulatory, require_reference, require_found,
  check_sources, check_concepts, check_owners, check_regulatory_concepts, check_mapping,
  check_mappings, check_metrics, validate_cross_references,
}

-- What a mapping points to, and that all of it supports the mapping's scope.
pub record IsResolved (bundle : ConfigBundle) (mapping : MappingDefinition) : Type 0 where
  pub source : SourceDefinition
  pub regulatory_concept : RegulatoryConceptDefinition
  pub canonical_concept : CanonicalConceptDefinition
  pub source_found : find_last (has_code mapping.source_code) bundle.sources.sources ≡ some source
  pub regulatory_found :
      find_last (is_regulatory mapping) bundle.mappings.regulatory_concepts
      ≡ some regulatory_concept
  pub concept_found :
      find_last (is_concept mapping.canonical_concept_code) bundle.concepts.concepts
      ≡ some canonical_concept
  pub scope_known :
      contains mapping.reporting_scope_code
        (map scope_code_of bundle.reporting_scopes.reporting_scopes)
      ≡ true
  pub scope_of_source : contains mapping.reporting_scope_code source.reporting_scope_codes ≡ true
  pub scope_of_regulatory :
      contains mapping.reporting_scope_code regulatory_concept.reporting_scope_codes ≡ true
  pub scope_of_concept :
      contains mapping.reporting_scope_code canonical_concept.reporting_scope_codes ≡ true

require_found-some :
    {A : Type 0} (kind value : Text) (o : Option A) (a : A)
    → require_found kind value o ≡ ok a
    → o ≡ some a
unfolding require_found
require_found-some kind value none a h = cc h
require_found-some kind value (some b) a h = cc h

check_mapping-IsResolved :
    (bundle : ConfigBundle) (mapping : MappingDefinition)
    → check_mapping bundle mapping ≡ ok tt
    → IsResolved bundle mapping
unfolding check_mapping require_reference
check_mapping-IsResolved bundle mapping h =
    let sources = bundle.sources.sources in
    let concepts = bundle.concepts.concepts in
    let scope = mapping.reporting_scope_code in
    let (a, k1) =
      >>-eq-ok (require_reference (codes "source") mapping.source_code (map source_code_of sources))
        _ h in
    let (b, k2) =
      >>-eq-ok
        (require_reference (codes "canonical concept") mapping.canonical_concept_code
          (map concept_code_of concepts))
        _ k1 in
    let (c, k3) =
      >>-eq-ok
        (require_reference (codes "reporting scope") scope
          (map scope_code_of bundle.reporting_scopes.reporting_scopes))
        _ k2 in
    let (regulatory, r, k4) =
      >>=-eq-ok
        (require_found (codes "regulatory concept") mapping.regulatory_concept_code
          (find_last (is_regulatory mapping) bundle.mappings.regulatory_concepts))
        _ k3 in
    let (source, s, k5) =
      >>=-eq-ok
        (require_found (codes "source") mapping.source_code
          (find_last (has_code mapping.source_code) sources))
        _ k4 in
    let (d, k6) =
      >>-eq-ok
        (require (contains scope source.reporting_scope_codes)
          (unsupported_scope (codes "source") scope))
        _ k5 in
    let (e, k7) =
      >>-eq-ok
        (require (contains scope regulatory.reporting_scope_codes)
          (unsupported_scope (codes "regulatory concept") scope))
        _ k6 in
    let (concept, f, k8) =
      >>=-eq-ok
        (require_found (codes "canonical concept") mapping.canonical_concept_code
          (find_last (is_concept mapping.canonical_concept_code) concepts))
        _ k7 in
    record {
      source = source;
      regulatory_concept = regulatory;
      canonical_concept = concept;
      source_found = require_found-some _ _ _ source s;
      regulatory_found = require_found-some _ _ _ regulatory r;
      concept_found = require_found-some _ _ _ concept f;
      scope_known = require-eq-ok _ (unknown_reference (codes "reporting scope") scope) c;
      scope_of_source = require-eq-ok _ (unsupported_scope (codes "source") scope) d;
      scope_of_regulatory =
          require-eq-ok _ (unsupported_scope (codes "regulatory concept") scope) e;
      scope_of_concept = require-eq-ok _ (unsupported_scope (codes "canonical concept") scope) k8;
    }

check_mappings-All :
    (bundle : ConfigBundle) (mappings : List MappingDefinition)
    → check_mappings bundle mappings ≡ ok tt
    → All (IsResolved bundle) mappings
unfolding check_mappings
check_mappings-All bundle [] h = tt
check_mappings-All bundle (m ∷ ms) h =
    let (here, k) = >>-eq-ok (check_mapping bundle m) (check_mappings bundle ms) h in
    (check_mapping-IsResolved bundle m here, check_mappings-All bundle ms k)

-- In an accepted bundle every mapping resolves: its source, regulatory concept version and
-- canonical concept are there, and each of them supports the mapping's scope, which is a known one.
pub validate_cross_references-IsResolved :
    (bundle : ConfigBundle)
    → validate_cross_references bundle ≡ ok tt
    → All (IsResolved bundle) bundle.mappings.mappings
unfolding validate_cross_references
validate_cross_references-IsResolved bundle h =
    let scopes = map scope_code_of bundle.reporting_scopes.reporting_scopes in
    let (a, k1) = >>-eq-ok (check_sources scopes bundle.sources.sources) _ h in
    let (b, k2) = >>-eq-ok (check_concepts scopes bundle.concepts.concepts) _ k1 in
    let (c, k3) =
      >>-eq-ok (check_owners bundle.sources.sources bundle.institutions.institutions) _ k2 in
    let (d, k4) =
      >>-eq-ok
        (check_regulatory_concepts (map source_code_of bundle.sources.sources) scopes
          bundle.mappings.regulatory_concepts)
        _ k3 in
    let (e, k5) =
      >>-eq-ok (check_mappings bundle bundle.mappings.mappings)
        (check_metrics bundle bundle.metrics.metrics) k4 in
    check_mappings-All bundle bundle.mappings.mappings e
