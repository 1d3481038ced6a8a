-- ===== src/Config/Days.antt =====
-- What the documents' validators promise of each day: no two contracts that mean the same hold on
-- it (src/mx_bank_monitor/config/models.py).
use mexican_banking_monitor.Base.{
  ℕ, ◌≡◌, Bool, true, ◌&&◌, Option, none, some, map, Text, codes, ok, >>-eq-ok, if◌then◌else◌,
}
use mexican_banking_monitor.Config.Errors.{ContractError, duplicate_value}
use mexican_banking_monitor.Config.Unique.{require_unique}
use mexican_banking_monitor.Config.Ranges.{ValidityRange, HoldsOn, ranges_overlap-of_day}
use mexican_banking_monitor.Config.Pairs.{
  require_no_conflict, AllPairs, require_no_conflict-AllPairs, AllPairs-map,
}
use mexican_banking_monitor.Config.Institutions.{
  RegulatoryRegistration, InstitutionAlias, InstitutionsDocument, overlap, same_registration,
  same_alias, registration_conflict, alias_conflict, check_institutions, all_registrations,
  all_aliases, cohort_code_of, institution_code_of, validate_identity_contracts,
}
use mexican_banking_monitor.Config.Concepts.{
  MappingDefinition, MappingsDocument, regulatory_identity, mapping_identity, active_mappings,
  same_mapping, mapping_conflict, validate_mapping_versions,
}

-- Two contracts that mean the same do not hold on one day.
abbrev pub AreApart : Bool → ValidityRange → ValidityRange → Type 0
AreApart same left right = same ≡ true → (day : ℕ) → HoldsOn left day → HoldsOn right day → ⊥

AreApart-of_none :
    (same : Bool) (left right : ValidityRange) (e : ContractError)
    → ◌≡◌ {A = Option ContractError} (if same && overlap left right then some e else none) none
    → AreApart same left right
unfolding overlap
AreApart-of_none same left right e h s day l r =
    cc (rw (s, ranges_overlap-of_day left right day l r) at h)

abbrev pub AliasesApart : (Text → Text) → Text × InstitutionAlias → Text × InstitutionAlias → Type 0
AliasesApart casefold a b = AreApart (same_alias casefold a.1 b.1) a.1.range b.1.range

abbrev pub RegistrationsApart :
    Text × RegulatoryRegistration → Text × RegulatoryRegistration → Type 0
RegistrationsApart a b = AreApart (same_registration a.1 b.1) a.1.range b.1.range

abbrev pub MappingsApart : MappingDefinition → MappingDefinition → Type 0
MappingsApart a b = AreApart (same_mapping a b) a.range b.range

-- In an accepted document, no two registrations of one identity and no two aliases of one source
-- and normalized text hold on a common day, whatever institutions they belong to.
pub validate_identity_contracts-apart :
    (casefold : Text → Text) (self : InstitutionsDocument)
    → validate_identity_contracts casefold self ≡ ok tt
    → AllPairs RegistrationsApart (all_registrations self.institutions)
      × AllPairs (AliasesApart casefold) (all_aliases self.institutions)
unfolding validate_identity_contracts
validate_identity_contracts-apart casefold self h =
    let (cohorts, k1) =
      >>-eq-ok
        (require_unique (duplicate_value (codes "cohort code")) (map cohort_code_of self.cohorts)) _
        h in
    let (institutions, k2) =
      >>-eq-ok
        (require_unique (duplicate_value (codes "institution code"))
          (map institution_code_of self.institutions))
        _ k1 in
    let (members, k3) =
      >>-eq-ok (check_institutions (map cohort_code_of self.cohorts) self.institutions) _ k2 in
    let (registrations, aliases) =
      >>-eq-ok (require_no_conflict registration_conflict (all_registrations self.institutions))
        (require_no_conflict (alias_conflict casefold) (all_aliases self.institutions)) k3 in
    (
      AllPairs-map _ RegistrationsApart registrations_apart (all_registrations self.institutions)
          (require_no_conflict-AllPairs registration_conflict _ registrations),
      AllPairs-map _ (AliasesApart casefold) aliases_apart (all_aliases self.institutions)
          (require_no_conflict-AllPairs (alias_conflict casefold) _ aliases),
    )
  where
    registrations_apart :
        (a b : Text × RegulatoryRegistration)
        → registration_conflict a b ≡ none
        → RegistrationsApart a b
    registrations_apart a b e =
        AreApart-of_none (same_registration a.1 b.1) a.1.range b.1.range _
          (unfold registration_conflict in e)

    aliases_apart :
        (a b : Text × InstitutionAlias)
        → alias_conflict casefold a b ≡ none
        → AliasesApart casefold a b
    aliases_apart a b e =
        AreApart-of_none (same_alias casefold a.1 b.1) a.1.range b.1.range _
          (unfold alias_conflict in e)

-- In an accepted document, no two active mappings between the same concepts, of one source,
-- concept version and scope, hold on a common day.
pub validate_mapping_versions-apart :
    (self : MappingsDocument)
    → validate_mapping_versions self ≡ ok tt
    → AllPairs MappingsApart (active_mappings self.mappings)
unfolding validate_mapping_versions
validate_mapping_versions-apart self h =
    let (concepts, k1) =
      >>-eq-ok
        (require_unique (duplicate_value (codes "regulatory concept identity/version"))
          (map regulatory_identity self.regulatory_concepts))
        _ h in
    let (identities, k2) =
      >>-eq-ok
        (require_unique (duplicate_value (codes "mapping identity/version"))
          (map mapping_identity self.mappings))
        (require_no_conflict mapping_conflict (active_mappings self.mappings)) k1 in
    AllPairs-map _ MappingsApart mappings_apart (active_mappings self.mappings)
      (require_no_conflict-AllPairs mapping_conflict _ k2)
  where
    mappings_apart : (a b : MappingDefinition) → mapping_conflict a b ≡ none → MappingsApart a b
    mappings_apart a b e =
        AreApart-of_none (same_mapping a b) a.range b.range _ (unfold mapping_conflict in e)
