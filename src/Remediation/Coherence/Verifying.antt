-- ===== src/Remediation/Coherence/Verifying.antt =====
-- `verify_recovery` and the invariant, on every branch.
use sentinelops_ai.Prelude.{
  ℕ, zero, suc, String, ◌≡◌, refl, sym, ap, ◌∙◌, subst, Bool, true, false, ◌||◌, Option, none, some,
  List, string_eq, ◌==◌, if◌then◌else◌, arith, Result, ok, err,
}
use sentinelops_ai.Prelude.Dict.{lookup}
use sentinelops_ai.Remediation.Enums.{
  RemediationStatus, verifying, recovered, recovery_failed, status_eq,
}
use sentinelops_ai.Remediation.Errors.{Error}
use sentinelops_ai.Remediation.Target.{ServiceTarget}
use sentinelops_ai.Remediation.Executor.{ExecutionResult}
use sentinelops_ai.Remediation.Recovery.{
  RecoveryConfig, Probe, verify, poll_loop, RecoveryOutcome, observe, poll_checks, all_passed,
}
use sentinelops_ai.Remediation.Recovery as Recovery
use sentinelops_ai.Remediation.Audit.{
  AuditEvent, verification_started_event, verification_finished_event,
}
use sentinelops_ai.Remediation.Record.{
  RemediationRecord, VerificationResult, status_of, with_verification, with_status,
}
use sentinelops_ai.Remediation.Repository.{
  Store, Written, get, begin_verification, finish_verification,
}
use sentinelops_ai.Remediation.Service.Verification.{
  check_verifiable, pending_verification, finished_verification, final_status, VerificationOutcome,
  settle, conclude, verify_checked, verify_found, verify_recovery,
}
use sentinelops_ai.Remediation.Coherence.{Evidence, is_start, Approval, IsCoherent}
use sentinelops_ai.Remediation.Coherence.Updates.{Trailed, Updated-IsCoherent}
use sentinelops_ai.Remediation.Coherence.Writes.Verifications.{
  begin_verification-Wrote, finish_verification-Wrote,
}
use sentinelops_ai.Remediation.Coherence.Events.{trail_last}

Approval-kept :
    (r : RemediationRecord) (v : VerificationResult) (st : RemediationStatus)
    → Approval r
    → Approval (with_verification v (with_status st r))
unfolding with_verification with_status
Approval-kept r v st (a, k) = (
  a,
  record {
    recorded = k.recorded;
    own = k.own;
    affirmative = k.affirmative;
    allowed = k.allowed;
    authorized = k.authorized;
    in_time = k.in_time;
  },
)

-- How a verification that has ended is recorded
data Ended : RemediationStatus → Recovery.VerificationStatus → Type 0 where
  healthy : Ended recovered Recovery.VerificationStatus.recovered
  unhealthy : Ended recovery_failed Recovery.VerificationStatus.recovery_failed

Ended-Evidence :
    (r : RemediationRecord) (v : VerificationResult) (final : RemediationStatus)
    (x : Recovery.VerificationStatus)
    → Ended final x
    → v.status ≡ x
    → Evidence verifying r
    → Evidence final (with_verification v (with_status final r))
unfolding with_verification with_status
Ended-Evidence r v _ _ healthy q (k, e, _) = (Approval-kept r v recovered k, e, (v, refl, q))
Ended-Evidence r v _ _ unhealthy q (k, e, _) =
    (Approval-kept r v recovery_failed k, e, (v, refl, q))

either_ends :
    (b : Bool) (x y : RecoveryOutcome)
    → Ended (final_status x.status) x.status
    → Ended (final_status y.status) y.status
    → let o = if b then x else y in Ended (final_status o.status) o.status
either_ends true x y p q = p
either_ends false x y p q = q

-- A verdict is never `started`.
loop_ends :
    (probe : Probe) (target : ServiceTarget) (config : RecoveryConfig) (start n attempt current : ℕ)
    (checks : List Recovery.RecoveryCheck) (claimed : Recovery.HealthStatus)
    → let o = poll_loop probe target config start n attempt current checks claimed in
      Ended (final_status o.status) o.status
unfolding poll_loop
loop_ends probe target config start zero attempt current checks claimed = unhealthy
loop_ends probe target config start (suc n) attempt current checks claimed =
    either_ends (all_passed (poll_checks (observe probe target config start current) config)) _ _
      healthy (loop_ends probe target config start n _ _ _ _)

module _ (rid : String) (s : Store) (u : RemediationRecord) (s' : Store) (h : IsCoherent s) where
  begin_verification-IsCoherent :
      (v : VerificationResult) (events : List AuditEvent)
      → v.status ≡ Recovery.VerificationStatus.started
      → Trailed rid verifying 0 events
      → begin_verification rid v events s ≡ ok (u, s')
      → IsCoherent s' × (u.proposal.remediation_id ≡ rid)
  unfolding with_verification with_status
  begin_verification-IsCoherent v events q t m =
      let w = begin_verification-Wrote rid s u s' h v events t m in
      let k = h.stored rid w.current w.read in
      let before = subst (λ x. Evidence x w.current) w.status k.evidence in
      let evidence : Evidence verifying (with_verification v (with_status verifying w.current)) =
        (Approval-kept w.current v verifying before.0, before.1, (v, refl, q)) in
      let id : u.proposal.remediation_id ≡ rid =
        ap (λ x. x.proposal.remediation_id) w.written ∙ k.id in
      (
        Updated-IsCoherent h w.updated id
            (subst (λ x. Evidence (status_of x) x) (sym w.written) evidence),
        id,
      )

  finish_verification-IsCoherent :
      (v : VerificationResult) (final : RemediationStatus) (x : Recovery.VerificationStatus)
      (events : List AuditEvent)
      → Ended final x
      → v.status ≡ x
      → Trailed rid final 0 events
      → finish_verification rid v final events s ≡ ok (u, s')
      → IsCoherent s'
  unfolding with_verification with_status
  finish_verification-IsCoherent v final x events d q t m =
      let w = finish_verification-Wrote rid s u s' h v final events t m in
      let k = h.stored rid w.current w.read in
      let before = subst (λ x. Evidence x w.current) w.status k.evidence in
      let id : u.proposal.remediation_id ≡ rid =
        ap (λ x. x.proposal.remediation_id) w.written ∙ k.id in
      Updated-IsCoherent h w.updated id (
        subst (λ x. Evidence (status_of x) x) (sym w.written)
          (Ended-Evidence w.current v final x d q before))

module _ (probe : Probe) (config : RecoveryConfig) where
  settle-IsCoherent :
      (rid : String) (v : VerificationResult) (final : RemediationStatus)
      (x : Recovery.VerificationStatus) (events : List AuditEvent) (s : Store)
      → IsCoherent s
      → Ended final x
      → v.status ≡ x
      → Trailed rid final 0 events
      → IsCoherent (settle probe config v s (finish_verification rid v final events s)).1
  unfolding settle
  settle-IsCoherent rid v final x events s h d q t =
      elim (finish_verification rid v final events s)
          as (λ o.
            finish_verification rid v final events s ≡ o
            → IsCoherent (settle probe config v s o).1) [
              | ok (u, s') ↦
                  λ m. finish_verification-IsCoherent rid s u s' h v final x events d q t m
              | err f ↦ λ m. h
            ]
        refl

  conclude-IsCoherent :
      (rid : String) (pending : VerificationResult) (i : String) (now : ℕ) (s : Store)
      (claimed : Written)
      → IsCoherent s
      → ((u : RemediationRecord) (s' : Store)
          → claimed ≡ ok (u, s')
          → IsCoherent s' × (u.proposal.remediation_id ≡ rid))
      → IsCoherent (conclude probe config rid pending i now s claimed).1
  unfolding conclude verify verification_finished_event is_start
  conclude-IsCoherent rid pending i now s (err e) h k = h
  conclude-IsCoherent rid pending i now s (ok (u, s')) h k =
      let (coherent, q) = k u s' refl in
      let outcome = verify probe u.proposal.target config now in
      settle-IsCoherent rid (finished_verification pending outcome) _ outcome.status _ s' coherent
        (loop_ends probe u.proposal.target config now _ _ _ _ _) refl
        (trail_last _ _ _ _ q refl (ground arith))

  verify_checked-IsCoherent :
      (rid v : String) (now : ℕ) (r : RemediationRecord) (s : Store)
      (checked : Result Error ExecutionResult)
      → IsCoherent s
      → r.proposal.remediation_id ≡ rid
      → IsCoherent (verify_checked probe config rid v now r s checked).1
  unfolding verify_checked verification_started_event is_start
  verify_checked-IsCoherent rid v now r s (err e) h q = h
  verify_checked-IsCoherent rid v now r s (ok e) h q =
      conclude-IsCoherent rid (pending_verification config v rid e.execution_id now) e.execution_id
        now s _ h
        (λ u s'.
          begin_verification-IsCoherent rid s u s' h _ _ refl (trail_last _ _ _ _ q refl refl))

  unchanged_or :
      (b c : Bool) (x y : Result Error VerificationOutcome)
      (z : Result Error VerificationOutcome × Store) (s : Store)
      → IsCoherent s
      → IsCoherent z.1
      → IsCoherent (if b then (x, s) else if c then (y, s) else z).1
  unchanged_or true c x y z s h k = h
  unchanged_or false true x y z s h k = h
  unchanged_or false false x y z s h k = k

  verify_found-IsCoherent :
      (rid v : String) (now : ℕ) (s : Store) (found : Option RemediationRecord)
      → IsCoherent s
      → lookup rid s.records ≡ found
      → IsCoherent (verify_found probe config rid v now s found).1
  unfolding verify_found
  verify_found-IsCoherent rid v now s none h l = h
  verify_found-IsCoherent rid v now s (some r) h l =
      unchanged_or (status_of r == recovered || status_of r == recovery_failed)
        (status_of r == verifying) _ _ _ s h
        (verify_checked-IsCoherent rid v now r s (check_verifiable r) h (h.stored rid r l).id)

  pub verify_recovery-IsCoherent :
      (rid v : String) (now : ℕ) (s : Store)
      → IsCoherent s
      → IsCoherent (verify_recovery probe config rid v now s).1
  unfolding verify_recovery get
  verify_recovery-IsCoherent rid v now s h = verify_found-IsCoherent rid v now s _ h refl
