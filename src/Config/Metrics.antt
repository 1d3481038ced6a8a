-- ===== src/Config/Metrics.antt =====
-- The metrics document (src/mx_bank_monitor/config/models.py).
use mexican_banking_monitor.Base.{
  ℕ, suc, ◌==◌, Bool, not, ◌&&◌, Option, List, [], ◌∷◌, ◌++◌, map, Text, codes, require, ◌>>◌,
  if◌then◌else◌, is_some, contains,
}
use mexican_banking_monitor.Base.Json.{decimal}
use mexican_banking_monitor.Config.Errors.{
  DefinitionLifecycle, Validated, is_active, duplicate_value, empty_inputs, mixed_input_scopes,
  missing_implementation_key,
}
use mexican_banking_monitor.Config.Unique.{require_unique}
use mexican_banking_monitor.Config.Sources.{is_nonempty}

pub record MetricInput : Type 0 where
  pub role : Text
  pub canonical_concept_code : Text
  pub reporting_scope_code : Text

pub data MetricDisplayFormat : Type 0 where
  percent : MetricDisplayFormat

pub data RoundingMode : Type 0 where
  half_even : RoundingMode

pub data Frequency : Type 0 where
  monthly : Frequency

pub data ReportingScopeRule : Type 0 where
  exact : ReportingScopeRule

pub record MetricOutput : Type 0 where
  pub unit_code : Text
  pub display_format : MetricDisplayFormat
  pub display_decimal_places : ℕ

pub record MetricRounding : Type 0 where
  pub mode : RoundingMode
  pub calculation_decimal_places : ℕ

pub record MetricDefinition : Type 0 where
  pub code : Text
  pub definition_version : ℕ
  pub label : Text
  pub lifecycle : DefinitionLifecycle
  pub implementation_key : Option Text
  pub inputs : List MetricInput
  pub reporting_scope_rule : ReportingScopeRule
  pub output : MetricOutput
  pub frequency : Frequency
  pub rounding : MetricRounding
  pub methodology_description : Text

abbrev pub role_of : MetricInput → Text
role_of item = item.role

abbrev pub input_scope_of : MetricInput → Text
input_scope_of item = item.reporting_scope_code

-- len(set(codes)): how many different texts the list has.
unfoldable pub distinct_count : List Text → ℕ
distinct_count [] = 0
distinct_count (code ∷ codes) =
    let rest = distinct_count codes in if contains code codes then rest else suc rest

-- `exact` is the one rule there is.
unfoldable pub scopes_match : ReportingScopeRule → List MetricInput → Bool
unfolding distinct_count
scopes_match exact inputs = distinct_count (map input_scope_of inputs) == 1

unfoldable pub validate_inputs_and_implementation : MetricDefinition → Validated
unfolding is_nonempty require_unique scopes_match is_active
validate_inputs_and_implementation self = do
  require (is_nonempty self.inputs) empty_inputs
  require_unique (duplicate_value (codes "metric input role")) (map role_of self.inputs)
  require (scopes_match self.reporting_scope_rule self.inputs) mixed_input_scopes
  require (not (is_active self.lifecycle && not (is_some self.implementation_key)))
      missing_implementation_key

pub record MetricsDocument : Type 0 where
  pub schema_version : ℕ
  pub metrics : List MetricDefinition

unfoldable pub metric_identity : MetricDefinition → Text
unfolding decimal
metric_identity item = item.code ++ codes ":" ++ decimal item.definition_version

unfoldable pub unique_metrics : MetricsDocument → Validated
unfolding require_unique metric_identity
unique_metrics self =
    require_unique (duplicate_value (codes "metric identity/version"))
      (map metric_identity self.metrics)
