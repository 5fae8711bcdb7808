-- ===== src/Remediation/Service.antt =====
-- service.py: `RemediationService` over the in-memory repository and an executor. A method changes
-- the world (the store and the executor's state) and returns or raises; what was committed before
-- it raises stays. Fresh ids and the clock's readings are arguments. Metrics, logs and the
-- best-effort publication on Kafka, which follow each commit, are left out.
pub mod Execution
pub mod Spacing
pub mod Verification
pub mod Calls
use sentinelops_ai.Prelude.{
  ℕ, ◌+◌, String, Bool, true, false, not, ◌&&◌, ◌||◌, Option, none, some, List, [], ◌∷◌, ◌++◌, ◌==◌,
  leb, if◌then◌else◌, Result, ok, err, ◌>>=◌, ◌>>◌, raise_if, length,
}
use sentinelops_ai.Remediation.Enums.{
  RemediationStatus, pending_approval, approved, rejected, executing, executed, execution_failed,
  verifying, recovered, recovery_failed, status_eq, ApprovalDecision, approve, reject, ApproverRole,
  ExecutionStatus, started, succeeded, failed,
}
use sentinelops_ai.Remediation.Errors.{
  Error, not_mappable, not_found, invalid_state, policy_blocked, expired_error,
  unauthorized_approver, unknown_target, verification_conflict, executor_failure,
}
use sentinelops_ai.Remediation.StateMachine.{validate_transition}
use sentinelops_ai.Remediation.Target.{RemediationApproval, DecisionRequest, make_approval}
use sentinelops_ai.Remediation.Catalogue.{is_allowed_target, validate_action_parameters}
use sentinelops_ai.Remediation.Proposal.{
  RemediationProposal, RcaRecommendedAction, MappingContext, mapped, unmapped, proposal_from_rca,
  authorize_execution, is_approve,
}
use sentinelops_ai.Remediation.Policy.{
  PolicyConfig, PolicyContext, is_allow, evaluate, apply_policy_decision, PolicyDecision,
}
use sentinelops_ai.Remediation.Authorization.{can_approve}
use sentinelops_ai.Remediation.Executor.{
  Executor, ExecutionResult, Attempt, returned, executor_error, raised, no_effect,
  execution_failed_with,
}
use sentinelops_ai.Remediation.Recovery.{RecoveryConfig, Probe, verify, RecoveryOutcome}
use sentinelops_ai.Remediation.Recovery as Recovery
use sentinelops_ai.Remediation.Audit.{
  AuditEvent, proposal_created_event, policy_evaluated_event, remediation_blocked_event,
  decision_event, execution_requested_event, execution_started_event, execution_finished_event,
  verification_started_event, verification_finished_event,
}
use sentinelops_ai.Remediation.Record.{RemediationRecord, VerificationResult, status_of}
use sentinelops_ai.Remediation.Repository.{
  Store, Written, create, get, record_decision, begin_execution, finish_execution,
  begin_verification, finish_verification, history_snapshot,
}

-- `propose` from the policy's decision on, up to the record and the events for the repository
unfoldable pub decided_proposal :
    RemediationProposal → PolicyDecision → ℕ → Result Error (RemediationRecord × List AuditEvent)
decided_proposal p decision now = do
  advanced ← apply_policy_decision p decision
  let blocked_event : List AuditEvent =
      if is_allow decision.outcome then [] else remediation_blocked_event advanced decision now ∷ []
  ok (
    record {
      proposal = advanced;
      policy_decision = decision;
      approval = none;
      execution = none;
      verification = none;
    },
    proposal_created_event p now
        ∷ policy_evaluated_event advanced decision advanced.status now
        ∷ blocked_event,
  )

unfoldable pub prepare_proposal :
    PolicyConfig
    → RcaRecommendedAction
    → MappingContext
    → Store
    → Result Error (RemediationRecord × List AuditEvent)
unfolding decided_proposal
prepare_proposal config r c s = elim (proposal_from_rca r c) [
  | unmapped b ↦ err not_mappable
  | mapped p ↦
      let context : PolicyContext = record {
        now = c.now;
        incident_severity = c.incident_severity;
        history = history_snapshot c.incident_id p.action_type p.target s;
      } in
      decided_proposal p (evaluate config p context) c.now
]

-- `RemediationService.propose`
unfoldable pub propose : PolicyConfig → RcaRecommendedAction → MappingContext → Store → Written
unfolding prepare_proposal
propose config r c s = do made ← prepare_proposal config r c s; create made.0 made.1 s

-- `_check_decidable`
unfoldable pub check_decidable :
    RemediationRecord → ApprovalDecision → ApproverRole → ℕ → Result Error (Unit {0})
check_decidable r decision role now = do
  raise_if (elim r.approval [ none ↦ false | some a ↦ true ]) invalid_state
  raise_if (not (status_of r == pending_approval)) invalid_state
  raise_if (not (is_allow r.policy_decision.outcome)) policy_blocked
  raise_if (leb r.proposal.expires_at now) expired_error
  raise_if (is_approve decision && not (can_approve role r.proposal.action_type))
      unauthorized_approver

-- `decide` up to the call of `record_decision`, on the record that it read
unfoldable pub prepare_decision :
    String
    → RemediationRecord
    → DecisionRequest
    → Result Error (RemediationProposal × RemediationApproval × List AuditEvent)
unfolding check_decidable make_approval
prepare_decision rid current q = do
  check_decidable current q.decision q.approver_role q.decided_at
  let target = if is_approve q.decision then approved else rejected
  validate_transition (status_of current) target
  a ← make_approval rid q
  ok (
    record current.proposal { status = target },
    a,
    decision_event current.proposal a (status_of current) q.decided_at ∷ [],
  )

-- `RemediationService.decide`
unfoldable pub decide : String → DecisionRequest → Store → Written
unfolding prepare_decision
decide rid q s = elim (get rid s) [
  | none ↦ err not_found
  | some current ↦ do
    (p, a, events) ← prepare_decision rid current q
    record_decision rid p a events s
]
