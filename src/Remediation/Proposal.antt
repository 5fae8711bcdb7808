-- ===== src/Remediation/Proposal.antt =====
-- domain/proposal.py: the proposal, its validation, the mapping from an RCA recommendation, and
-- the guard before an execution.
pub mod Mapping
use sentinelops_ai.Prelude.{
  ℕ, ◌+◌, String, Bool, true, false, not, ◌&&◌, ◌||◌, Option, none, some, List, [], ◌∷◌, string_eq,
  nat_eq, ◌==◌, elem, length, codes, class_run, is_lower, is_upper, is_digit, is_empty,
  if◌then◌else◌, leb, strip, no_text, prefix, before_newline, Result, ok, err, ◌>>=◌, ◌>>◌,
  raise_if,
}
use sentinelops_ai.Prelude.Dict.{Dict, lookup}
use sentinelops_ai.Remediation.Enums.{
  RemediationActionType, restart_service, scale_service, roll_back_deployment, RemediationStatus,
  proposed, approved, blocked, RemediationTrigger, rca_recommendation, RiskLevel, ApprovalDecision,
  approve, reject, status_eq,
}
use sentinelops_ai.Remediation.Errors.{
  Error, invalid_proposer, unknown_target, invalid_window, approval_error,
}
use sentinelops_ai.Remediation.Target.{ServiceTarget, make_target, RemediationApproval}
use sentinelops_ai.Remediation.Catalogue.{
  Value, ActionDefinition, require_action_definition, required_parameter_names, is_allowed_target,
  validate_action_parameters,
}

-- `requires_approval` is the literal True and is left out.
pub record RemediationProposal : Type 0 where
  pub remediation_id : String
  pub incident_id : String
  pub investigation_id : Option String
  pub trigger : RemediationTrigger
  pub proposed_by : String
  pub action_type : RemediationActionType
  pub target : ServiceTarget
  pub parameters : Dict Value
  pub risk_level : RiskLevel
  pub source_recommendation : String
  pub reason : String
  pub expected_effect : String
  pub evidence_references : List String
  pub status : RemediationStatus
  pub created_at : ℕ
  pub expires_at : ℕ

-- `Field(min_length=1, max_length=128)`
abbrev pub is_proposer : String → Bool
is_proposer name = leb 1 (length (codes name)) && leb (length (codes name)) 128

-- What runs when a proposal is constructed: the bounds on the proposer, then
-- `RemediationProposal._check`
unfoldable pub check_proposal : RemediationProposal → Result Error (Unit {0})
check_proposal p = do
  raise_if (not (is_proposer p.proposed_by)) invalid_proposer
  raise_if (not (is_allowed_target p.action_type p.target)) unknown_target
  _ ← validate_action_parameters p.action_type p.parameters
  raise_if (leb p.expires_at p.created_at) invalid_window

-- The `block_reason` of a `BlockedProposal`, one constructor for each message.
pub data BlockReason : Type 0 where
  no_executable_action severity_not_eligible needs_parameters no_target_service : BlockReason
  invalid_target target_not_allowed construction_failed : BlockReason

pub record BlockedProposal : Type 0 where
  pub remediation_id : String
  pub incident_id : String
  pub investigation_id : Option String
  pub source_recommendation : String
  pub mapped_action_type : Option RemediationActionType
  pub block_reason : BlockReason
  pub created_at : ℕ

pub data MappingResult : Type 0 where
  mapped : RemediationProposal → MappingResult
  unmapped : BlockedProposal → MappingResult

pub record RcaRecommendedAction : Type 0 where
  pub action_type : String
  pub target_service : Option String
  pub description : String
  pub rationale : String
  pub evidence_ids : List String

-- `_RCA_ACTION_MAP.get`
unfoldable pub rca_action : String → Option RemediationActionType
rca_action label =
    if label == "RESTART_SERVICE"
    then some restart_service
    else if label == "ROLL_BACK_DEPLOYMENT"
    then some roll_back_deployment
    else if label == "SCALE_SERVICE"
    then some scale_service
    else none

-- `[A-Za-z0-9_.:-]{1,64}`
is_label : List ℕ → Bool
is_label =
    class_run
      (λ c.
        is_upper c || is_lower c || is_digit c || c == b'_' || c == b'.' || c == b':' || c == b'-')
      1 64

-- `_safe_label`; `$` in `re.match` also stands before a final newline
unfoldable pub safe_label : String → String
unfolding is_label before_newline
safe_label raw =
    if is_label (codes raw) || is_label (before_newline (codes raw)) then raw else "<invalid-label>"

-- `(a or b)` on texts
abbrev or_text : String → String → String
or_text a b = if no_text a then b else a

-- The severity test of `proposal_from_rca`: an absent severity passes.
abbrev pub severity_blocks : Option String → ActionDefinition → Bool
severity_blocks none d = false
severity_blocks (some s) d = not (elem s d.allowed_severities)

-- `RcaRecommendedActionInput.target_service`, None and "" alike
abbrev pub named_target : Option String → Option String
named_target none = none
named_target (some name) = if no_text name then none else some name

-- The arguments of one call of `proposal_from_rca`; `remediation_id` is what
-- `new_remediation_id` returns.
pub record MappingContext : Type 0 where
  pub remediation_id : String
  pub incident_id : String
  pub investigation_id : Option String
  pub incident_severity : Option String
  pub target_environment : String
  pub proposed_by : String
  pub now : ℕ
  pub ttl : ℕ

-- The local function `blocked`
blocked_by :
    MappingContext
    → RcaRecommendedAction
    → Option RemediationActionType
    → BlockReason
    → MappingResult
blocked_by c r action why = unmapped (record {
  remediation_id = c.remediation_id;
  incident_id = c.incident_id;
  investigation_id = c.investigation_id;
  source_recommendation = safe_label r.action_type;
  mapped_action_type = action;
  block_reason = why;
  created_at = c.now;
})

-- The proposal that `proposal_from_rca` builds at its end
abbrev pub derived_proposal :
    MappingContext
    → RcaRecommendedAction
    → RemediationActionType
    → ServiceTarget
    → RemediationProposal
derived_proposal c r action target =
    let d = require_action_definition action in
    record {
      remediation_id = c.remediation_id;
      incident_id = c.incident_id;
      investigation_id = c.investigation_id;
      trigger = rca_recommendation;
      proposed_by = c.proposed_by;
      action_type = action;
      target = target;
      parameters = [];
      risk_level = d.risk_level;
      source_recommendation = safe_label r.action_type;
      reason =
          or_text (prefix 4000 (or_text (strip r.rationale) (strip r.description)))
            "Derived from a Phase 4 RCA recommendation.";
      expected_effect = d.description;
      evidence_references = r.evidence_ids;
      status = proposed;
      created_at = c.now;
      expires_at = c.now + c.ttl;
    }

-- The `try` around the constructor
construct :
    MappingContext → RcaRecommendedAction → RemediationActionType → ServiceTarget → MappingResult
unfolding blocked_by
construct c r action target =
    let p = derived_proposal c r action target in
    elim (check_proposal p) [
      | ok _ ↦ mapped p
      | err _ ↦ blocked_by c r (some action) construction_failed
    ]

-- From the test of the target on
map_target : MappingContext → RcaRecommendedAction → RemediationActionType → String → MappingResult
unfolding blocked_by construct
map_target c r action name = elim (make_target name c.target_environment) [
  | none ↦ blocked_by c r (some action) invalid_target
  | some target ↦
      if not (is_allowed_target action target)
      then blocked_by c r (some action) target_not_allowed
      else construct c r action target
]

-- From the definition of the action on
map_action : MappingContext → RcaRecommendedAction → RemediationActionType → MappingResult
unfolding blocked_by map_target
map_action c r action =
    let d = require_action_definition action in
    if severity_blocks c.incident_severity d
    then blocked_by c r (some action) severity_not_eligible
    else if not (is_empty (required_parameter_names d))
    then blocked_by c r (some action) needs_parameters
    else elim (named_target r.target_service) [
      | none ↦ blocked_by c r (some action) no_target_service
      | some name ↦ map_target c r action name
    ]

unfoldable pub proposal_from_rca : RcaRecommendedAction → MappingContext → MappingResult
unfolding blocked_by map_action
proposal_from_rca r c = elim (rca_action r.action_type) [
  | none ↦ blocked_by c r none no_executable_action
  | some action ↦ map_action c r action
]

abbrev pub is_approve : ApprovalDecision → Bool
is_approve approve = true
is_approve reject = false

unfoldable pub authorize_execution :
    RemediationProposal → Option RemediationApproval → Result Error (Unit {0})
authorize_execution p approval = do
  raise_if (not (p.status == approved)) approval_error
  elim approval [
    | none ↦ err approval_error
    | some a ↦ do
      raise_if (not (a.remediation_id == p.remediation_id)) approval_error
      raise_if (not (is_approve a.decision)) approval_error
  ]
