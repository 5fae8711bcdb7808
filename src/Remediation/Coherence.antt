-- ===== src/Remediation/Coherence.antt =====
-- The invariant of the store: the evidence that it holds for what the status of a record says.
pub mod Updates
pub mod Writes
pub mod Events
pub mod Proposing
pub mod Deciding
pub mod Executing
pub mod Verifying
pub mod Calls
pub mod Safety
pub mod Progress
pub mod Recovers
pub mod EndToEnd
use sentinelops_ai.Prelude.{
  ℕ, ◌<◌, ◌+◌, ◌&&◌, String, ◌≡◌, Bool, true, false, Option, none, some, List, [], ◌∷◌, string_eq,
  ◌==◌, if◌then◌else◌,
}
use sentinelops_ai.Prelude.Dict.{lookup}
use sentinelops_ai.Remediation.Enums.{
  RemediationStatus, pending_approval, approved, executing, executed, verifying, blocked, rejected,
  execution_failed, recovered, recovery_failed, ApprovalDecision, approve, reject, ExecutionStatus,
  started, succeeded, failed,
}
use sentinelops_ai.Remediation.Target.{RemediationApproval}
use sentinelops_ai.Remediation.Policy.{PolicyOutcome, allow, deny}
use sentinelops_ai.Remediation.Authorization.{can_approve}
use sentinelops_ai.Remediation.Executor.{ExecutionResult}
use sentinelops_ai.Remediation.Recovery as Recovery
use sentinelops_ai.Remediation.Audit.{AuditEvent, AuditEventType, execution_started}
use sentinelops_ai.Remediation.Record.{RemediationRecord, VerificationResult, status_of}
use sentinelops_ai.Remediation.Repository.{Store}

-- A human with a role that suffices for the action approved this remediation, which the policy had
-- allowed, before it expired.
pub record IsApproved (r : RemediationRecord) (a : RemediationApproval) : Type 0 where
  pub recorded : r.approval ≡ some a
  pub own : a.remediation_id ≡ r.proposal.remediation_id
  pub affirmative : a.decision ≡ approve
  pub allowed : r.policy_decision.outcome ≡ allow
  pub authorized : can_approve a.approver_role r.proposal.action_type ≡ true
  pub in_time : a.decided_at < r.proposal.expires_at

abbrev pub Approval : RemediationRecord → Type 0
Approval r = (a : RemediationApproval) × IsApproved r a

abbrev pub Execution : RemediationRecord → ExecutionStatus → Type 0
Execution r s = (e : ExecutionResult) × (r.execution ≡ some e) × (e.status ≡ s)

abbrev pub Verification : RemediationRecord → Recovery.VerificationStatus → Type 0
Verification r s = (v : VerificationResult) × (r.verification ≡ some v) × (v.status ≡ s)

abbrev pub Unrun : RemediationRecord → Type 0
Unrun r = (r.execution ≡ none) × (r.verification ≡ none)

-- What a record of each status holds; the other statuses are never stored.
abbrev pub Evidence : RemediationStatus → RemediationRecord → Type 0
Evidence pending_approval r = (r.policy_decision.outcome ≡ allow) × (r.approval ≡ none) × Unrun r
Evidence blocked r = (r.policy_decision.outcome ≡ deny) × (r.approval ≡ none) × Unrun r
Evidence rejected r =
    ((a : RemediationApproval) × (r.approval ≡ some a) × (a.decision ≡ reject)) × Unrun r
Evidence approved r = Approval r × Unrun r
Evidence executing r = Approval r × Execution r started × (r.verification ≡ none)
Evidence executed r = Approval r × Execution r succeeded × (r.verification ≡ none)
Evidence execution_failed r = Approval r × Execution r failed × (r.verification ≡ none)
Evidence verifying r =
    Approval r × Execution r succeeded × Verification r Recovery.VerificationStatus.started
Evidence recovered r =
    Approval r × Execution r succeeded × Verification r Recovery.VerificationStatus.recovered
Evidence recovery_failed r =
    Approval r × Execution r succeeded × Verification r Recovery.VerificationStatus.recovery_failed
Evidence _ r = ⊥

-- The status that a remediation's audit trail ends in.
pub last_state : String → List AuditEvent → Option RemediationStatus
last_state rid [] = none
last_state rid (e ∷ es) =
    let rest = last_state rid es in
    elim rest [ some s ↦ some s | none ↦ if e.remediation_id == rid then e.new_state else none ]

-- How often a remediation's execution has started, by its audit trail
unfoldable pub is_start : AuditEventType → Bool
is_start execution_started = true
is_start _ = false

pub starts : String → List AuditEvent → ℕ
unfolding is_start
starts rid [] = 0
starts rid (e ∷ es) =
    (if e.remediation_id == rid && is_start e.event_type then 1 else 0) + starts rid es

abbrev pub runs : Option ExecutionResult → ℕ
runs none = 0
runs (some e) = 1

pub record RecordOk (rid : String) (r : RemediationRecord) (s : Store) : Type 0 where
  pub id : r.proposal.remediation_id ≡ rid
  pub evidence : Evidence (status_of r) r
  pub execution : lookup rid s.executions ≡ r.execution
  pub verification : lookup rid s.verifications ≡ r.verification
  pub trail : last_state rid s.audit ≡ some (status_of r)
  pub started : starts rid s.audit ≡ runs r.execution

pub record NoRecord (rid : String) (s : Store) : Type 0 where
  pub execution : lookup rid s.executions ≡ none
  pub verification : lookup rid s.verifications ≡ none
  pub started : starts rid s.audit ≡ 0

pub record IsCoherent (s : Store) : Type 0 where
  pub stored :
      (rid : String) (r : RemediationRecord) → lookup rid s.records ≡ some r → RecordOk rid r s
  pub absent : (rid : String) → lookup rid s.records ≡ none → NoRecord rid s
