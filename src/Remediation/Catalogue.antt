-- ===== src/Remediation/Catalogue.antt =====
-- domain/catalogue.py: the closed action catalogue and the validation of action parameters.
pub mod Schema
use Prim.Native.String.{String}
use sentinelops_ai.Prelude.{
  ℕ, Bool, true, false, not, ◌&&◌, ◌||◌, Option, none, some, List, [], ◌∷◌, map, string_eq, nat_eq,
  ◌==◌, elem, codes, class_run, is_lower, is_upper, is_digit, is_empty, keep_if, if◌then◌else◌,
  Result, ok, err, ◌>>=◌, ◌>>◌, raise_if,
}
use sentinelops_ai.Prelude.Int.{ℤ, pos, ltb_ℤ}
use sentinelops_ai.Prelude.Dict.{Dict, lookup, has_key, keys}
use sentinelops_ai.Remediation.Enums.{
  RemediationActionType, restart_service, scale_service, roll_back_deployment, disable_feature_flag,
  RiskLevel, low, medium, high, ExecutorType, local_simulation, TargetType, service,
}
use sentinelops_ai.Remediation.Errors.{
  Error, ParameterFault, parameter_validation, unknown_parameter, missing_parameter, wrong_type,
  below_minimum, above_maximum, value_not_allowed, pattern_mismatch,
}
use sentinelops_ai.Remediation.Target.{ServiceTarget, is_allowed_service}

-- A Python object given for a parameter; `other` is any that is no str, int or bool.
pub data Value : Type 0 where
  str : String → Value
  int : ℤ → Value
  bool : Bool → Value
  other : Value

pub data ValueType : Type 0 where
  int_type string_type : ValueType

-- The patterns of the catalogue are `^[class]{lo,hi}$`; `re.fullmatch` takes no final newline.
pub record CharPattern : Type 0 where
  pub allows : ℕ → Bool
  pub least : ℕ
  pub most : ℕ

unfoldable pub fullmatch : CharPattern → String → Bool
fullmatch p s = class_run p.allows p.least p.most (codes s)

pub record ActionParameter : Type 0 where
  pub name : String
  pub description : String
  pub required : Bool
  pub value_type : ValueType
  pub min_value : Option ℤ
  pub max_value : Option ℤ
  pub pattern : Option CharPattern
  pub allowed_values : Option (List String)

pub record ActionDefinition : Type 0 where
  pub action_type : RemediationActionType
  pub description : String
  pub allowed_target_types : List TargetType
  pub allowed_target_services : List String
  pub allowed_severities : List String
  pub risk_level : RiskLevel
  pub executor_type : ExecutorType
  pub max_blast_radius : ℕ
  pub timeout_seconds : ℕ
  pub cooldown_seconds : ℕ
  pub parameters : List ActionParameter

abbrev pub allowed_action_target_services : List String
allowed_action_target_services = "orders-service" ∷ []

abbrev pub higher_severities : List String
higher_severities = "MEDIUM" ∷ "HIGH" ∷ "CRITICAL" ∷ []

-- `_def`
abbrev define :
    RemediationActionType
    → String
    → RiskLevel
    → List String
    → ℕ
    → ℕ
    → ℕ
    → List ActionParameter
    → ActionDefinition
define action description risk severities radius timeout cooldown parameters = record {
  action_type = action;
  description = description;
  allowed_target_types = service ∷ [];
  allowed_target_services = allowed_action_target_services;
  allowed_severities = severities;
  risk_level = risk;
  executor_type = local_simulation;
  max_blast_radius = radius;
  timeout_seconds = timeout;
  cooldown_seconds = cooldown;
  parameters = parameters;
}

abbrev pub replicas_parameter : ActionParameter
replicas_parameter = record {
  name = "replicas";
  description = "Desired replica count.";
  required = true;
  value_type = int_type;
  min_value = some (pos 1);
  max_value = some (pos 10);
  pattern = none;
  allowed_values = none;
}

-- `^[A-Za-z0-9._-]{1,64}$`
abbrev pub revision_pattern : CharPattern
revision_pattern = record {
  allows = λ c. is_upper c || is_lower c || is_digit c || c == b'.' || c == b'_' || c == b'-';
  least = 1;
  most = 64;
}

abbrev pub to_revision_parameter : ActionParameter
to_revision_parameter = record {
  name = "to_revision";
  description =
      "Explicit revision id to roll back to; omitted means the immediately previous revision.";
  required = false;
  value_type = string_type;
  min_value = none;
  max_value = none;
  pattern = some revision_pattern;
  allowed_values = none;
}

-- `^[a-z0-9_.-]{1,64}$`
abbrev pub flag_pattern : CharPattern
flag_pattern = record {
  allows = λ c. is_lower c || is_digit c || c == b'_' || c == b'.' || c == b'-';
  least = 1;
  most = 64;
}

abbrev pub flag_key_parameter : ActionParameter
flag_key_parameter = record {
  name = "flag_key";
  description = "The feature-flag key to disable.";
  required = true;
  value_type = string_type;
  min_value = none;
  max_value = none;
  pattern = some flag_pattern;
  allowed_values = none;
}

-- `_CATALOGUE`
unfoldable pub catalogue : RemediationActionType → ActionDefinition
catalogue restart_service =
    define restart_service
      "Restart the target service's running instances to clear transient in-process state (saturated connection pools, stuck worker threads, corrupt in-memory caches)."
      medium higher_severities 1 120 300 []
catalogue scale_service =
    define scale_service "Set the number of running replicas for the target service, within bounds."
      medium higher_severities 10 180 300 (replicas_parameter ∷ [])
catalogue roll_back_deployment =
    define roll_back_deployment
      "Roll the target service back to its previous known-good deployment revision." high
      higher_severities 1 300 600 (to_revision_parameter ∷ [])
catalogue disable_feature_flag =
    define disable_feature_flag "Turn a named feature flag off for the target service." low
      ("LOW" ∷ higher_severities) 1 30 60 (flag_key_parameter ∷ [])

-- The catalogue is total, so the lookup by an enum member always answers.
unfoldable pub get_action_definition : RemediationActionType → Option ActionDefinition
get_action_definition a = some (catalogue a)

unfoldable pub require_action_definition : RemediationActionType → ActionDefinition
require_action_definition a = catalogue a

-- `ActionDefinition.required_parameter_names`
unfoldable pub required_parameter_names : ActionDefinition → List String
required_parameter_names d = map (λ p. p.name) (keep_if (λ p. p.required) d.parameters)

abbrev pub is_listed : TargetType → List TargetType → Bool
is_listed service [] = false
is_listed service (service ∷ ts) = true

unfoldable pub is_allowed_target : RemediationActionType → ServiceTarget → Bool
is_allowed_target action t =
    let d = catalogue action in
    is_listed t.target_type d.allowed_target_types
    && is_allowed_service t.service_name
    && elem t.service_name d.allowed_target_services

abbrev fault : {A : Type 0} → ParameterFault → Result Error A
fault f = err (parameter_validation f)

check_int : ActionParameter → Value → Result Error Value
check_int spec (int n) = do
  raise_if (elim spec.min_value [ none ↦ false | some m ↦ ltb_ℤ n m ])
      (parameter_validation below_minimum)
  raise_if (elim spec.max_value [ none ↦ false | some m ↦ ltb_ℤ m n ])
      (parameter_validation above_maximum)
  ok (int n)
check_int spec _ = fault wrong_type

check_string : ActionParameter → Value → Result Error Value
unfolding fullmatch
check_string spec (str s) = do
  raise_if (elim spec.allowed_values [ none ↦ false | some vs ↦ not (elem s vs) ])
      (parameter_validation value_not_allowed)
  raise_if (elim spec.pattern [ none ↦ false | some p ↦ not (fullmatch p s) ])
      (parameter_validation pattern_mismatch)
  ok (str s)
check_string spec _ = fault wrong_type

-- `_validate_one`
unfoldable pub validate_one : ActionParameter → Value → Result Error Value
unfolding check_int check_string
validate_one spec value = elim spec.value_type [
  | int_type ↦ check_int spec value
  | string_type ↦ check_string spec value
]

-- The loop over the specifications that builds `normalized`.
unfoldable pub normalize : List ActionParameter → Dict Value → Result Error (Dict Value)
normalize [] parameters = ok []
normalize (spec ∷ specs) parameters =
    let rest = normalize specs parameters in
    elim (lookup spec.name parameters) [
      | none ↦ rest
      | some value ↦ (do v ← validate_one spec value; vs ← rest; ok ((spec.name, v) ∷ vs))
    ]

unfoldable pub validate_action_parameters :
    RemediationActionType → Dict Value → Result Error (Dict Value)
unfolding normalize required_parameter_names
validate_action_parameters action parameters =
    let d = require_action_definition action in
    do
      raise_if
          (not (
            is_empty
              (keep_if (λ k. not (elem k (map (λ p. p.name) d.parameters))) (keys parameters))))
          (parameter_validation unknown_parameter)
      raise_if
          (not (is_empty (keep_if (λ k. not (has_key k parameters)) (required_parameter_names d))))
          (parameter_validation missing_parameter)
      normalize d.parameters parameters
