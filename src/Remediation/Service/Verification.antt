-- ===== src/Remediation/Service/Verification.antt =====
-- `verify_recovery` of service.py: the claim, the verification loop and the verdict.
use sentinelops_ai.Prelude.{
  ℕ, String, Bool, true, false, not, ◌||◌, Option, none, some, List, [], ◌∷◌, ◌==◌, if◌then◌else◌,
  Result, ok, err, ◌>>◌, raise_if,
}
use sentinelops_ai.Remediation.Enums.{
  RemediationStatus, executed, verifying, recovered, recovery_failed, status_eq, started, succeeded,
  failed,
}
use sentinelops_ai.Remediation.Errors.{Error, not_found, invalid_state, verification_conflict}
use sentinelops_ai.Remediation.Executor.{ExecutionResult}
use sentinelops_ai.Remediation.Recovery.{RecoveryConfig, Probe, verify, RecoveryOutcome}
use sentinelops_ai.Remediation.Recovery as Recovery
use sentinelops_ai.Remediation.Audit.{
  AuditEvent, verification_started_event, verification_finished_event,
}
use sentinelops_ai.Remediation.Record.{RemediationRecord, VerificationResult, status_of}
use sentinelops_ai.Remediation.Repository.{
  Store, Written, get, begin_verification, finish_verification,
}

-- `_check_verifiable`, which also yields the execution that it has found
unfoldable pub check_verifiable : RemediationRecord → Result Error ExecutionResult
check_verifiable r = do
  raise_if (not (status_of r == executed)) invalid_state
  elim r.execution [
    | none ↦ err invalid_state
    | some e ↦ elim e.status [
      | succeeded ↦ ok e
      | started ↦ err invalid_state
      | failed ↦ err invalid_state
    ]
  ]

-- The `STARTED` verification row
abbrev pub pending_verification : RecoveryConfig → String → String → String → ℕ → VerificationResult
pending_verification config v rid i now = record {
  verification_id = v;
  remediation_id = rid;
  execution_id = i;
  status = Recovery.VerificationStatus.started;
  attempts = 0;
  checks = [];
  failing = none;
  timeout_seconds = config.timeout_seconds;
  poll_interval = config.poll_interval;
  started_at = now;
  completed_at = none;
}

abbrev pub finished_verification : VerificationResult → RecoveryOutcome → VerificationResult
finished_verification pending o = record pending {
  status = o.status;
  attempts = o.attempts;
  checks = o.checks;
  failing = o.failing;
  completed_at = some o.completed_at;
}

-- `RECOVERED if outcome.recovered else RECOVERY_FAILED`
abbrev pub final_status : Recovery.VerificationStatus → RemediationStatus
final_status Recovery.VerificationStatus.recovered = recovered
final_status _ = recovery_failed

-- What `verify_recovery` returns: the record, the verification, and whether it is a replay
pub record VerificationOutcome : Type 0 where
  pub record_after : RemediationRecord
  pub result : VerificationResult
  pub replayed : Bool

module _ (probe : Probe) (config : RecoveryConfig) where
  unfoldable pub settle :
      VerificationResult → Store → Written → Result Error VerificationOutcome × Store
  settle result s (err e) = (err e, s)
  settle result s (ok (r, s')) =
      (ok (record { record_after = r; result = result; replayed = false }), s')

  -- `verify_recovery` from the claim on, with what `begin_verification` has returned
  unfoldable pub conclude :
      String
      → VerificationResult
      → String
      → ℕ
      → Store
      → Written
      → Result Error VerificationOutcome × Store
  unfolding settle
  conclude rid pending i now s (err e) = (err e, s)
  conclude rid pending i now s (ok (begun, s')) =
      let outcome = verify probe begun.proposal.target config now in
      let final = final_status outcome.status in
      let result = finished_verification pending outcome in
      let events : List AuditEvent =
        verification_finished_event begun.proposal pending.verification_id i final now ∷ [] in
      settle result s' (finish_verification rid result final events s')

  -- `verify_recovery` after `_check_verifiable`, which has yielded the execution `e`
  unfoldable pub verify_checked :
      String
      → String
      → ℕ
      → RemediationRecord
      → Store
      → Result Error ExecutionResult
      → Result Error VerificationOutcome × Store
  unfolding conclude
  verify_checked rid v now r s (err e) = (err e, s)
  verify_checked rid v now r s (ok e) =
      let pending = pending_verification config v rid e.execution_id now in
      let events : List AuditEvent =
        verification_started_event r.proposal v e.execution_id now ∷ [] in
      conclude rid pending e.execution_id now s (begin_verification rid pending events s)

  -- The replay of a stored verdict
  unfoldable pub replay :
      RemediationRecord → Option VerificationResult → Result Error VerificationOutcome
  replay r none = err invalid_state
  replay r (some v) = ok (record { record_after = r; result = v; replayed = true })

  unfoldable pub verify_found :
      String
      → String
      → ℕ
      → Store
      → Option RemediationRecord
      → Result Error VerificationOutcome × Store
  unfolding verify_checked replay
  verify_found rid v now s none = (err not_found, s)
  verify_found rid v now s (some r) =
      if status_of r == recovered || status_of r == recovery_failed
      then (replay r r.verification, s)
      else if status_of r == verifying
      then (err verification_conflict, s)
      else verify_checked rid v now r s (check_verifiable r)

  -- `RemediationService.verify_recovery`; the verification id is fresh
  unfoldable pub verify_recovery :
      String → String → ℕ → Store → Result Error VerificationOutcome × Store
  unfolding verify_found
  verify_recovery rid v now s = verify_found rid v now s (get rid s)
