-- ===== src/Config/Errors.antt =====
-- The errors of the contracts in src/mx_bank_monitor/config/models.py, with the values that their
-- messages name, and the enumerations that more than one document uses.
use mexican_banking_monitor.Base.{ℕ, Bool, true, false, Text, Result}

pub data DefinitionLifecycle : Type 0 where
  draft : DefinitionLifecycle
  active : DefinitionLifecycle
  review_required : DefinitionLifecycle
  retired : DefinitionLifecycle

pub data ContractError : Type 0 where
  unsupported_schema_version : ℕ → ContractError
  unordered_validity : ContractError
  missing_artifact_role : ContractError
  missing_artifact_format : ContractError
  undue_artifact_fields : ContractError
  empty_formats : ContractError
  empty_endpoints : ContractError
  undeclared_format : ContractError
  empty_reporting_scope_codes : ContractError
  empty_reporting_scopes : ContractError
  duplicate_value : Text → Text → ContractError
  overlapping_membership : Text → ContractError
  overlapping_registration : Text → Text → ContractError
  ambiguous_alias : Text → Text → Text → ContractError
  period_kind_mismatch : ContractError
  overlapping_mapping : ContractError
  empty_inputs : ContractError
  mixed_input_scopes : ContractError
  missing_implementation_key : ContractError
  outside_boundary : Text → Text → ContractError
  unknown_reference : Text → Text → ContractError
  regulator_mismatch : Text → Text → ContractError
  unsupported_scope : Text → Text → ContractError

abbrev pub Validated : Type 0
Validated = Result ContractError (Unit {0})

unfoldable pub is_active : DefinitionLifecycle → Bool
is_active draft = false
is_active active = true
is_active review_required = false
is_active retired = false
