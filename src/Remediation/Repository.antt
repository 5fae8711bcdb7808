-- ===== src/Remediation/Repository.antt =====
-- repository.py: the in-memory repository. Every operation is atomic: it raises before it writes.
pub mod Snapshot
use sentinelops_ai.Prelude.{
  ℕ, String, Bool, true, false, not, ◌&&◌, ◌||◌, Option, none, some, List, [], ◌∷◌, ◌++◌, string_eq,
  nat_eq, ◌==◌, elem, ltb, keep_if, take, drop, if◌then◌else◌, Result, ok, err, ◌>>=◌, ◌>>◌,
  raise_if,
}
use sentinelops_ai.Prelude.Dict.{Dict, lookup, insert, has_key, values}
use sentinelops_ai.Remediation.Enums.{
  RemediationActionType, action_eq, RemediationStatus, proposed, policy_evaluation,
  pending_approval, approved, executing, executed, verifying, execution_failed, status_eq,
}
use sentinelops_ai.Remediation.Errors.{
  Error, not_found, already_exists, already_decided, execution_conflict, verification_conflict,
}
use sentinelops_ai.Remediation.StateMachine.{validate_transition}
use sentinelops_ai.Remediation.Target.{ServiceTarget, RemediationApproval}
use sentinelops_ai.Remediation.Proposal.{RemediationProposal}
use sentinelops_ai.Remediation.Policy.{History}
use sentinelops_ai.Remediation.Executor.{ExecutionResult}
use sentinelops_ai.Remediation.Audit.{AuditEvent}
use sentinelops_ai.Remediation.Record.{
  RemediationRecord, VerificationResult, status_of, with_status, with_proposal, with_approval,
  with_execution, with_verification,
}

pub record Store : Type 0 where
  pub records : Dict RemediationRecord
  pub order : List String
  pub executions : Dict ExecutionResult
  pub verifications : Dict VerificationResult
  pub audit : List AuditEvent

abbrev pub empty_store : Store
empty_store = record { records = []; order = []; executions = []; verifications = []; audit = [] }

-- What an operation returns, with the store after it
abbrev pub Written : Type 0
Written = Result Error (RemediationRecord × Store)

unfoldable pub create : RemediationRecord → List AuditEvent → Store → Written
create r events s =
    let rid = r.proposal.remediation_id in
    if has_key rid s.records
    then err already_exists
    else ok (
      r,
      record s {
        records = insert rid r s.records;
        order = s.order ++ rid ∷ [];
        audit = s.audit ++ events;
      },
    )

unfoldable pub get : String → Store → Option RemediationRecord
get rid s = lookup rid s.records

-- The record to change, or the error of a missing one
abbrev found : Option RemediationRecord → Result Error RemediationRecord
found none = err not_found
found (some r) = ok r

abbrev pub is_some {ℓ} : {A : Type ℓ} → Option A → Bool
is_some none = false
is_some (some a) = true

unfoldable pub record_decision :
    String → RemediationProposal → RemediationApproval → List AuditEvent → Store → Written
unfolding with_proposal with_approval
record_decision rid p a events s = do
  r ← found (lookup rid s.records)
  raise_if (is_some r.approval) already_decided
  let updated = with_approval a (with_proposal p r)
  ok (updated, record s { records = insert rid updated s.records; audit = s.audit ++ events })

unfoldable pub begin_execution : String → ExecutionResult → List AuditEvent → Store → Written
unfolding with_status with_execution
begin_execution rid pending events s = do
  r ← found (lookup rid s.records)
  raise_if (not (status_of r == approved) || has_key rid s.executions) execution_conflict
  validate_transition approved executing
  let updated = with_execution pending (with_status executing r)
  ok (
    updated,
    record s {
      records = insert rid updated s.records;
      executions = insert rid pending s.executions;
      audit = s.audit ++ events;
    },
  )

unfoldable pub finish_execution :
    String → ExecutionResult → RemediationStatus → List AuditEvent → Store → Written
unfolding with_status with_execution
finish_execution rid result final events s = do
  r ← found (lookup rid s.records)
  raise_if (not (status_of r == executing)) execution_conflict
  validate_transition executing final
  let updated = with_execution result (with_status final r)
  ok (
    updated,
    record s {
      records = insert rid updated s.records;
      executions = insert rid result s.executions;
      audit = s.audit ++ events;
    },
  )

unfoldable pub begin_verification : String → VerificationResult → List AuditEvent → Store → Written
unfolding with_status with_verification
begin_verification rid pending events s = do
  r ← found (lookup rid s.records)
  raise_if (not (status_of r == executed) || has_key rid s.verifications) verification_conflict
  validate_transition executed verifying
  let updated = with_verification pending (with_status verifying r)
  ok (
    updated,
    record s {
      records = insert rid updated s.records;
      verifications = insert rid pending s.verifications;
      audit = s.audit ++ events;
    },
  )

unfoldable pub finish_verification :
    String → VerificationResult → RemediationStatus → List AuditEvent → Store → Written
unfolding with_status with_verification
finish_verification rid result final events s = do
  r ← found (lookup rid s.records)
  raise_if (not (status_of r == verifying)) verification_conflict
  validate_transition verifying final
  let updated = with_verification result (with_status final r)
  ok (
    updated,
    record s {
      records = insert rid updated s.records;
      verifications = insert rid result s.verifications;
      audit = s.audit ++ events;
    },
  )

unfoldable pub list_audit_events : String → ℕ → ℕ → Store → List AuditEvent
list_audit_events rid limit offset s =
    take limit (drop offset (keep_if (λ e. e.remediation_id == rid) s.audit))

-- `_ACTIVE_PRE_EXECUTION` and `_COOLDOWN_ANCHOR_STATUSES`
abbrev pub active_statuses : List RemediationStatus
active_statuses =
    proposed ∷ policy_evaluation ∷ pending_approval ∷ approved ∷ executing ∷ executed ∷ verifying
    ∷ []

abbrev pub cooldown_anchor_statuses : List RemediationStatus
cooldown_anchor_statuses = approved ∷ executing ∷ executed ∷ execution_failed ∷ []

-- The loop's filter: same incident, action, service and environment
unfoldable pub same_kind :
    String → RemediationActionType → ServiceTarget → RemediationProposal → Bool
same_kind incident action t p =
    p.incident_id == incident
    && p.action_type == action
    && p.target.service_name == t.service_name
    && p.target.environment == t.environment

abbrev pub latest : Option ℕ → ℕ → Option ℕ
latest none t = some t
latest (some u) t = if ltb u t then some t else some u

unfoldable pub anchor : RemediationRecord → Option ℕ → Option ℕ
anchor r last = elim r.approval [
  | none ↦ last
  | some a ↦ if elem (status_of r) cooldown_anchor_statuses then latest last a.decided_at else last
]

-- One round of the loop of `history_snapshot`
unfoldable pub note_record :
    String → RemediationActionType → ServiceTarget → History → RemediationRecord → History
unfolding anchor same_kind
note_record incident action t h r =
    if not (same_kind incident action t r.proposal) then h else record {
      active_exists = if elem (status_of r) active_statuses then true else h.active_exists;
      last_completed = anchor r h.last_completed;
    }

unfoldable pub note_records :
    String → RemediationActionType → ServiceTarget → History → List RemediationRecord → History
note_records incident action t h [] = h
note_records incident action t h (r ∷ rs) =
    note_records incident action t (note_record incident action t h r) rs

unfoldable pub history_snapshot : String → RemediationActionType → ServiceTarget → Store → History
history_snapshot incident action t s =
    note_records incident action t (record { active_exists = false; last_completed = none })
      (values s.records)
