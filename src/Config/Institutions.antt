-- ===== src/Config/Institutions.antt =====
-- The institutions document (src/mx_bank_monitor/config/models.py). `casefold` is `str.casefold`.
use mexican_banking_monitor.Base.{
  ℕ, Bool, ◌&&◌, Option, none, some, List, [], ◌∷◌, ◌++◌, map, Text, codes, text_eq, contains, ok,
  require, ◌>>◌, if◌then◌else◌,
}
use mexican_banking_monitor.Discovery.Summary.{split, join}
use mexican_banking_monitor.Config.Errors.{
  DefinitionLifecycle, ContractError, Validated, duplicate_value, unknown_reference,
  overlapping_membership, overlapping_registration, ambiguous_alias, unordered_validity,
}
use mexican_banking_monitor.Config.Unique.{require_unique}
use mexican_banking_monitor.Config.Ranges.{ValidityRange, ranges_overlap, is_ordered}
use mexican_banking_monitor.Config.Pairs.{require_no_later, require_no_conflict}

unfoldable pub normalize_institution_alias : (Text → Text) → Text → Text
unfolding split join
normalize_institution_alias casefold value = casefold (join (split value))

-- The ranges of two contracts, compared.
unfoldable pub overlap : ValidityRange → ValidityRange → Bool
unfolding ranges_overlap
overlap left right = ranges_overlap left.valid_from left.valid_to right.valid_from right.valid_to

unfoldable pub ordered_validity : ValidityRange → Validated
unfolding is_ordered
ordered_validity self = require (is_ordered self) unordered_validity

-- The three kinds of contract that extend `ValidityRange` carry their range as a field.
pub record RegulatoryRegistration : Type 0 where
  pub range : ValidityRange
  pub regulator_code : Text
  pub registration_type : Text
  pub registration_code : Text
  pub source_code : Text

pub data AliasType : Type 0 where
  legal_name : AliasType
  trade_name : AliasType
  source_label : AliasType

pub record InstitutionAlias : Type 0 where
  pub range : ValidityRange
  pub value : Text
  pub alias_type : AliasType
  pub source_code : Text

pub record CohortMembership : Type 0 where
  pub range : ValidityRange
  pub cohort_code : Text
  pub rationale : Text

pub record InstitutionDefinition : Type 0 where
  pub code : Text
  pub definition_version : ℕ
  pub canonical_label : Text
  pub country : Text
  pub lifecycle : DefinitionLifecycle
  pub provenance : Text
  pub registrations : List RegulatoryRegistration
  pub aliases : List InstitutionAlias
  pub cohorts : List CohortMembership

pub record CohortDefinition : Type 0 where
  pub code : Text
  pub label : Text
  pub definition : Text
  pub lifecycle : DefinitionLifecycle

pub record InstitutionsDocument : Type 0 where
  pub schema_version : ℕ
  pub cohorts : List CohortDefinition
  pub institutions : List InstitutionDefinition

unfoldable pub membership_conflict : CohortMembership → CohortMembership → Option ContractError
unfolding overlap
membership_conflict membership other =
    if text_eq membership.cohort_code other.cohort_code && overlap membership.range other.range
    then some (overlapping_membership membership.cohort_code)
    else none

-- The loop over the memberships of one institution.
unfoldable pub check_memberships : List Text → List CohortMembership → Validated
unfolding require_no_later membership_conflict
check_memberships known_cohorts [] = ok tt
check_memberships known_cohorts (membership ∷ memberships) = do
  require (contains membership.cohort_code known_cohorts)
      (unknown_reference (codes "cohort") membership.cohort_code)
  require_no_later membership_conflict membership memberships
  check_memberships known_cohorts memberships

unfoldable pub check_institutions : List Text → List InstitutionDefinition → Validated
unfolding check_memberships
check_institutions known_cohorts [] = ok tt
check_institutions known_cohorts (institution ∷ institutions) =
    check_memberships known_cohorts institution.cohorts
    >> check_institutions known_cohorts institutions

-- `extend((institution.code, item) for item in items)`
unfoldable pub with_code : {A : Type 0} → Text → List A → List (Text × A)
with_code code [] = []
with_code code (item ∷ items) = (code, item) ∷ with_code code items

unfoldable pub all_registrations : List InstitutionDefinition → List (Text × RegulatoryRegistration)
unfolding with_code
all_registrations [] = []
all_registrations (institution ∷ institutions) =
    with_code institution.code institution.registrations ++ all_registrations institutions

unfoldable pub all_aliases : List InstitutionDefinition → List (Text × InstitutionAlias)
unfolding with_code
all_aliases [] = []
all_aliases (institution ∷ institutions) =
    with_code institution.code institution.aliases ++ all_aliases institutions

unfoldable pub same_registration : RegulatoryRegistration → RegulatoryRegistration → Bool
same_registration registration other =
    text_eq registration.regulator_code other.regulator_code
    && (text_eq registration.registration_type other.registration_type
        && text_eq registration.registration_code other.registration_code)

unfoldable pub registration_conflict :
    Text × RegulatoryRegistration → Text × RegulatoryRegistration → Option ContractError
unfolding same_registration overlap
registration_conflict (institution_code, registration) (other_code, other) =
    if same_registration registration other && overlap registration.range other.range
    then some (overlapping_registration institution_code other_code)
    else none

unfoldable pub same_alias : (Text → Text) → InstitutionAlias → InstitutionAlias → Bool
unfolding normalize_institution_alias
same_alias casefold alias other =
    text_eq alias.source_code other.source_code
    && text_eq (normalize_institution_alias casefold alias.value)
        (normalize_institution_alias casefold other.value)

unfoldable pub alias_conflict :
    (Text → Text) → Text × InstitutionAlias → Text × InstitutionAlias → Option ContractError
unfolding same_alias overlap
alias_conflict casefold (institution_code, alias) (other_code, other) =
    if same_alias casefold alias other && overlap alias.range other.range
    then some (ambiguous_alias alias.value institution_code other_code)
    else none

abbrev pub cohort_code_of : CohortDefinition → Text
cohort_code_of item = item.code

abbrev pub institution_code_of : InstitutionDefinition → Text
institution_code_of item = item.code

unfoldable pub validate_identity_contracts : (Text → Text) → InstitutionsDocument → Validated
unfolding require_unique check_institutions all_registrations all_aliases require_no_conflict
    registration_conflict alias_conflict
validate_identity_contracts casefold self = do
  require_unique (duplicate_value (codes "cohort code")) (map cohort_code_of self.cohorts)
  require_unique (duplicate_value (codes "institution code"))
      (map institution_code_of self.institutions)
  check_institutions (map cohort_code_of self.cohorts) self.institutions
  require_no_conflict registration_conflict (all_registrations self.institutions)
  require_no_conflict (alias_conflict casefold) (all_aliases self.institutions)
