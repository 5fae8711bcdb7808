-- ===== src/Remediation/Policy.antt =====
-- policy: the deterministic rules, the engine that runs them all, and the lifecycle step that a
-- decision causes.
pub mod Codes
pub mod Eligible
pub mod Reasons
pub mod Lifecycle
use sentinelops_ai.Prelude.{
  ℕ, ◌+◌, ◌*◌, max, String, Bool, true, false, not, ◌&&◌, ◌||◌, Option, none, some, List, [], ◌∷◌,
  ◌++◌, map, string_eq, nat_eq, ◌==◌, elem, is_empty, if◌then◌else◌, leb, ltb, Result, ok, err,
  ◌>>=◌, ◌>>◌, raise_if,
}
use sentinelops_ai.Prelude.Int.{ℤ, pos, negsuc}
use sentinelops_ai.Prelude.Dict.{Dict, lookup}
use sentinelops_ai.Remediation.Enums.{
  RemediationActionType, restart_service, scale_service, roll_back_deployment, disable_feature_flag,
  action_eq, RemediationStatus, proposed, policy_evaluation, pending_approval, approved, executing,
  executed, verifying, recovered, blocked, status_eq, RiskLevel, high, rank,
}
use sentinelops_ai.Remediation.Errors.{Error, policy_error}
use sentinelops_ai.Remediation.StateMachine.{validate_transition}
use sentinelops_ai.Remediation.Target.{ServiceTarget, is_allowed_service}
use sentinelops_ai.Remediation.Catalogue.{
  Value, int, get_action_definition, ActionDefinition, validate_action_parameters, is_listed,
}
use sentinelops_ai.Remediation.Proposal.{RemediationProposal}
use sentinelops_ai.Remediation.Policy.Codes.{
  PolicyReasonCode, policy_ok, approval_required, action_not_allowed, target_not_allowed,
  environment_not_allowed, severity_not_allowed, parameter_invalid, risk_exceeded, proposal_expired,
  invalid_state, cooldown_active, duplicate_active, sorted_codes,
}

abbrev pub known_severities : List String
known_severities = "INFO" ∷ "LOW" ∷ "MEDIUM" ∷ "HIGH" ∷ "CRITICAL" ∷ []

pub record PolicyConfig : Type 0 where
  pub policy_version : String
  pub eligible_actions : List RemediationActionType
  pub allowed_environments : List String
  pub max_allowed_risk : RiskLevel
  pub max_blast_radius : ℕ
  pub require_known_incident_severity : Bool

-- `PolicyConfig()`
abbrev pub default_config : PolicyConfig
default_config = record {
  policy_version = "1";
  eligible_actions =
      restart_service ∷ scale_service ∷ roll_back_deployment ∷ disable_feature_flag ∷ [];
  allowed_environments = "development" ∷ [];
  max_allowed_risk = high;
  max_blast_radius = 10;
  require_known_incident_severity = true;
}

-- The two answers of a `RemediationHistoryPort` for the proposal at hand
-- (`RemediationHistorySnapshot`).
pub record History : Type 0 where
  pub active_exists : Bool
  pub last_completed : Option ℕ

-- `NullRemediationHistory`
abbrev pub null_history : History
null_history = record { active_exists = false; last_completed = none }

pub record PolicyContext : Type 0 where
  pub now : ℕ
  pub incident_severity : Option String
  pub history : History

-- A violation without its text for a human reader
pub record PolicyViolation : Type 0 where
  pub code : PolicyReasonCode
  pub rule : String

pub data PolicyOutcome : Type 0 where
  allow deny : PolicyOutcome

pub record PolicyDecision : Type 0 where
  pub outcome : PolicyOutcome
  pub reason_codes : List PolicyReasonCode
  pub violations : List PolicyViolation
  pub policy_version : String
  pub evaluated_rules : List String
  pub evaluated_at : ℕ

abbrev pub is_allow : PolicyOutcome → Bool
is_allow allow = true
is_allow deny = false

abbrev violation : PolicyReasonCode → String → PolicyViolation
violation c r = record { code = c; rule = r }

-- `[v] if b else []`
abbrev report_if : Bool → PolicyReasonCode → String → List PolicyViolation
report_if true c r = violation c r ∷ []
report_if false c r = []

abbrev pub Rule : Type 0
Rule = RemediationProposal → PolicyContext → PolicyConfig → List PolicyViolation

abbrev pub policy_input_states : List RemediationStatus
policy_input_states = proposed ∷ policy_evaluation ∷ []

unfoldable pub state_rule : Rule
state_rule p ctx config = report_if (not (elem p.status policy_input_states)) invalid_state "state"

-- What a rule does with the definition, or nothing where the action is unknown
abbrev with_definition :
    RemediationActionType → (ActionDefinition → List PolicyViolation) → List PolicyViolation
with_definition action f = elim (get_action_definition action) [ none ↦ [] | some d ↦ f d ]

unfoldable pub action_rule : Rule
unfolding get_action_definition
action_rule p ctx config = elim (get_action_definition p.action_type) [
  | none ↦ violation action_not_allowed "action" ∷ []
  | some _ ↦
      report_if (not (elem p.action_type config.eligible_actions)) action_not_allowed "action"
]

unfoldable pub target_rule : Rule
unfolding get_action_definition
target_rule p ctx config = with_definition p.action_type λ d.
    if not (is_allowed_service p.target.service_name)
    then violation target_not_allowed "target" ∷ []
    else if not (elem p.target.service_name d.allowed_target_services)
    then violation target_not_allowed "target" ∷ []
    else if not (is_listed p.target.target_type d.allowed_target_types)
    then violation target_not_allowed "target" ∷ []
    else []

unfoldable pub environment_rule : Rule
environment_rule p ctx config =
    report_if (not (elem p.target.environment config.allowed_environments)) environment_not_allowed
      "environment"

unfoldable pub severity_rule : Rule
unfolding get_action_definition
severity_rule p ctx config = with_definition p.action_type λ d. elim ctx.incident_severity [
  | none ↦ report_if config.require_known_incident_severity severity_not_allowed "severity"
  | some severity ↦
      if not (elem severity known_severities)
      then violation severity_not_allowed "severity" ∷ []
      else report_if (not (elem severity d.allowed_severities)) severity_not_allowed "severity"
]

unfoldable pub parameter_rule : Rule
parameter_rule p ctx config = elim (validate_action_parameters p.action_type p.parameters) [
  | ok _ ↦ []
  | err _ ↦ violation parameter_invalid "parameters" ∷ []
]

-- `max(effective_blast_radius, replicas)` for an int that is no bool
abbrev pub widen : ℕ → Option Value → ℕ
widen radius (some (int (pos n))) = max radius n
widen radius _ = radius

unfoldable pub effective_blast_radius : ActionDefinition → RemediationProposal → ℕ
effective_blast_radius d p =
    if p.action_type == scale_service
    then widen d.max_blast_radius (lookup "replicas" p.parameters)
    else d.max_blast_radius

unfoldable pub risk_rule : Rule
unfolding get_action_definition
risk_rule p ctx config = with_definition p.action_type λ d.
    report_if (ltb (rank config.max_allowed_risk) (rank d.risk_level)) risk_exceeded "risk"
    ++ report_if (ltb config.max_blast_radius (effective_blast_radius d p)) risk_exceeded "risk"

unfoldable pub expiry_rule : Rule
expiry_rule p ctx config =
    if leb p.expires_at p.created_at
    then violation proposal_expired "expiry" ∷ []
    else report_if (leb p.expires_at ctx.now) proposal_expired "expiry"

-- `elapsed < cooldown`, in microseconds; a completion in the future counts as too recent
abbrev pub too_recent : ℕ → ℕ → Option ℕ → Bool
too_recent now cooldown none = false
too_recent now cooldown (some t) = ltb now (t + cooldown * 1000000)

unfoldable pub cooldown_rule : Rule
unfolding get_action_definition
cooldown_rule p ctx config = with_definition p.action_type λ d.
    report_if ctx.history.active_exists duplicate_active "cooldown"
    ++ report_if (too_recent ctx.now d.cooldown_seconds ctx.history.last_completed) cooldown_active
        "cooldown"

-- `RULES`, each with its `__name__`
unfoldable pub rules : List (String × Rule)
rules =
    ("state_rule", state_rule)
    ∷ ("action_rule", action_rule)
    ∷ ("target_rule", target_rule)
    ∷ ("environment_rule", environment_rule)
    ∷ ("severity_rule", severity_rule)
    ∷ ("parameter_rule", parameter_rule)
    ∷ ("risk_rule", risk_rule)
    ∷ ("expiry_rule", expiry_rule)
    ∷ ("cooldown_rule", cooldown_rule)
    ∷ []

-- The loop of `PolicyEngine.evaluate`
unfoldable pub run_rules :
    List (String × Rule) → RemediationProposal → PolicyContext → PolicyConfig → List PolicyViolation
run_rules [] p ctx config = []
run_rules ((name, rule) ∷ rs) p ctx config = rule p ctx config ++ run_rules rs p ctx config

abbrev rule_names : List (String × Rule) → List String
rule_names [] = []
rule_names ((name, rule) ∷ rs) = name ∷ rule_names rs

-- The decision on the violations found
unfoldable pub decide_on : List PolicyViolation → PolicyContext → PolicyConfig → PolicyDecision
decide_on violations ctx config = record {
  outcome = if is_empty violations then allow else deny;
  reason_codes =
      if is_empty violations
      then policy_ok ∷ approval_required ∷ []
      else sorted_codes (map (λ v. v.code) violations);
  violations = violations;
  policy_version = config.policy_version;
  evaluated_rules = rule_names rules;
  evaluated_at = ctx.now;
}

unfoldable pub evaluate : PolicyConfig → RemediationProposal → PolicyContext → PolicyDecision
unfolding decide_on
evaluate config p ctx = decide_on (run_rules rules p ctx config) ctx config

abbrev pub forbidden_result_states : List RemediationStatus
forbidden_result_states = approved ∷ executing ∷ executed ∷ verifying ∷ recovered ∷ []

-- `_PATHS`; it is read only at a policy input state and one of the two targets
abbrev path_to : RemediationStatus → RemediationStatus → List RemediationStatus
path_to proposed pending_approval = policy_evaluation ∷ pending_approval ∷ []
path_to proposed blocked = blocked ∷ []
path_to policy_evaluation pending_approval = pending_approval ∷ []
path_to policy_evaluation blocked = blocked ∷ []
path_to _ _ = []

-- The loop over the path
unfoldable pub advance :
    RemediationProposal → List RemediationStatus → Result Error RemediationProposal
advance p [] = ok p
advance p (next ∷ path) =
    let rest = advance (record p { status = next }) path in
    do validate_transition p.status next; rest

unfoldable pub apply_policy_decision :
    RemediationProposal → PolicyDecision → Result Error RemediationProposal
unfolding advance
apply_policy_decision p decision = do
  raise_if (not (elem p.status policy_input_states)) policy_error
  let target = if is_allow decision.outcome then pending_approval else blocked
  result ← advance p (path_to p.status target)
  raise_if (elem result.status forbidden_result_states) policy_error
  ok result
