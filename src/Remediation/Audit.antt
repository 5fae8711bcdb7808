-- ===== src/Remediation/Audit.antt =====
-- audit/model.py and audit/builders.py: the append-only audit events. The free texts `reason` and
-- `metadata`, the random `audit_id` and the caller's `correlation_id` are left out.
use sentinelops_ai.Prelude.{ℕ, String, Option, none, some, List, [], if◌then◌else◌, ◌==◌}
use sentinelops_ai.Remediation.Enums.{
  RemediationActionType, RemediationStatus, proposed, policy_evaluation, approved, rejected,
  executing, executed, verifying, recovered, blocked, status_eq, ApproverRole, ExecutionStatus,
}
use sentinelops_ai.Remediation.Target.{RemediationApproval}
use sentinelops_ai.Remediation.Proposal.{RemediationProposal, is_approve}
use sentinelops_ai.Remediation.Policy.{PolicyDecision, PolicyOutcome}
use sentinelops_ai.Remediation.Policy.Codes.{PolicyReasonCode}
use sentinelops_ai.Remediation.Executor.{ExecutionResult}

pub data AuditEventType : Type 0 where
  proposal_created policy_evaluated remediation_blocked decision_approved decision_rejected :
      AuditEventType
  execution_requested execution_started execution_succeeded execution_failed : AuditEventType
  verification_started verification_succeeded verification_failed : AuditEventType

pub data ActorType : Type 0 where
  system human : ActorType

pub record AuditEvent : Type 0 where
  pub remediation_id : String
  pub incident_id : String
  pub event_type : AuditEventType
  pub actor_type : ActorType
  pub actor_role : Option ApproverRole
  pub previous_state : Option RemediationStatus
  pub new_state : Option RemediationStatus
  pub action_type : RemediationActionType
  pub target_service : String
  pub target_environment : String
  pub policy_outcome : Option PolicyOutcome
  pub policy_reason_codes : List PolicyReasonCode
  pub execution_id : Option String
  pub execution_result : Option ExecutionStatus
  pub verification_id : Option String
  pub occurred_at : ℕ

-- `_event` with its defaults: a system event with nothing but the transition
abbrev event :
    RemediationProposal
    → AuditEventType
    → ℕ
    → Option RemediationStatus
    → RemediationStatus
    → AuditEvent
event p kind now before after = record {
  remediation_id = p.remediation_id;
  incident_id = p.incident_id;
  event_type = kind;
  actor_type = system;
  actor_role = none;
  previous_state = before;
  new_state = some after;
  action_type = p.action_type;
  target_service = p.target.service_name;
  target_environment = p.target.environment;
  policy_outcome = none;
  policy_reason_codes = [];
  execution_id = none;
  execution_result = none;
  verification_id = none;
  occurred_at = now;
}

unfoldable pub proposal_created_event : RemediationProposal → ℕ → AuditEvent
proposal_created_event p now = event p proposal_created now none proposed

unfoldable pub policy_evaluated_event :
    RemediationProposal → PolicyDecision → RemediationStatus → ℕ → AuditEvent
policy_evaluated_event p d new_state now =
    record (event p policy_evaluated now (some policy_evaluation) new_state) {
      policy_outcome = some d.outcome;
      policy_reason_codes = d.reason_codes;
    }

unfoldable pub remediation_blocked_event : RemediationProposal → PolicyDecision → ℕ → AuditEvent
remediation_blocked_event p d now =
    record (event p remediation_blocked now (some policy_evaluation) blocked) {
      policy_outcome = some d.outcome;
      policy_reason_codes = d.reason_codes;
    }

unfoldable pub decision_event :
    RemediationProposal → RemediationApproval → RemediationStatus → ℕ → AuditEvent
decision_event p a previous now =
    record (event p (if is_approve a.decision then decision_approved else decision_rejected) now
      (some previous) (if is_approve a.decision then approved else rejected)) {
        actor_type = human;
        actor_role = some a.approver_role;
      }

unfoldable pub execution_requested_event : RemediationProposal → String → ℕ → AuditEvent
execution_requested_event p i now =
    record (event p execution_requested now (some approved) approved) { execution_id = some i }

unfoldable pub execution_started_event : RemediationProposal → String → ℕ → AuditEvent
execution_started_event p i now = record (event p execution_started now (some approved) executing) {
  execution_id = some i;
}

unfoldable pub execution_finished_event :
    RemediationProposal → ExecutionResult → RemediationStatus → ℕ → AuditEvent
execution_finished_event p r final now =
    record (event p (if final == executed then execution_succeeded else execution_failed) now
      (some executing) final) {
        execution_id = some r.execution_id;
        execution_result = some r.status;
      }

unfoldable pub verification_started_event : RemediationProposal → String → String → ℕ → AuditEvent
verification_started_event p verification execution now =
    record (event p verification_started now (some executed) verifying) {
      execution_id = some execution;
      verification_id = some verification;
    }

unfoldable pub verification_finished_event :
    RemediationProposal → String → String → RemediationStatus → ℕ → AuditEvent
verification_finished_event p verification execution final now =
    record (event p (if final == recovered then verification_succeeded else verification_failed) now
      (some verifying) final) { execution_id = some execution; verification_id = some verification }
