-- ===== src/Remediation/Coherence/Recovers.antt =====
-- `verify_recovery` on a remediation that has been executed.
use sentinelops_ai.Prelude.{
  ℕ, String, ◌≡◌, refl, ◌∙◌, subst, false, ◌||◌, some, List, [], ◌∷◌, ◌++◌, string_eq, ◌==◌, arith,
  ok,
}
use sentinelops_ai.Prelude.Dict.{lookup, insert, has_key, has_key-lookup}
use sentinelops_ai.Remediation.Enums.{executed, verifying, recovered, recovery_failed, status_eq}
use sentinelops_ai.Remediation.StateMachine.{validate_transition}
use sentinelops_ai.Remediation.Recovery.{RecoveryConfig, Probe, verify, max_attempts}
use sentinelops_ai.Remediation.Recovery as Recovery
use sentinelops_ai.Remediation.Audit.{
  AuditEvent, verification_started_event, verification_finished_event,
}
use sentinelops_ai.Remediation.Record.{
  RemediationRecord, VerificationResult, status_of, with_verification, with_status,
}
use sentinelops_ai.Remediation.Repository.{Store, get, begin_verification, finish_verification}
use sentinelops_ai.Remediation.Service.Verification.{
  check_verifiable, pending_verification, finished_verification, final_status, VerificationOutcome,
  settle, conclude, verify_checked, verify_found, verify_recovery,
}
use sentinelops_ai.Remediation.Coherence.{Evidence, IsCoherent}
use sentinelops_ai.Remediation.Coherence.Progress.{stored_again}

module _ (s : Store) (rid : String) (r : RemediationRecord) (h : IsCoherent s)
    (l : lookup rid s.records ≡ some r) (q : status_of r ≡ executed) where
  backing : Evidence executed r
  backing = subst (λ st. Evidence st r) q (h.stored rid r l).evidence

  check_verifiable-ok : check_verifiable r ≡ ok backing.1.0
  unfolding check_verifiable
  check_verifiable-ok = let (k, (e, w, t), n) = backing in ground (arith, q, w, t)

  no_row : has_key rid s.verifications ≡ false
  no_row = has_key-lookup rid s.verifications ∙ rw ((h.stored rid r l).verification, backing.2)

  begin_verification-ok :
      (v : VerificationResult) (events : List AuditEvent)
      → let u = with_verification v (with_status verifying r) in
        begin_verification rid v events s
        ≡ ok (
          u,
          record s {
            records = insert rid u s.records;
            verifications = insert rid v s.verifications;
            audit = s.audit ++ events;
          },
        )
  unfolding begin_verification validate_transition
  begin_verification-ok v events = ground (arith, l, q, no_row)

  not_settled : (status_of r == recovered || status_of r == recovery_failed) ≡ false
  not_settled = ground (arith, q)

  not_verifying : (status_of r == verifying) ≡ false
  not_verifying = ground (arith, q)

finish_verification-ok :
    (s : Store) (rid : String) (u : RemediationRecord) (v : VerificationResult)
    (x : Recovery.VerificationStatus) (events : List AuditEvent)
    → lookup rid s.records ≡ some u
    → status_of u ≡ verifying
    → let f = with_verification v (with_status (final_status x) u) in
      finish_verification rid v (final_status x) events s
      ≡ ok (
        f,
        record s {
          records = insert rid f s.records;
          verifications = insert rid v s.verifications;
          audit = s.audit ++ events;
        },
      )
unfolding finish_verification validate_transition
finish_verification-ok s rid u v x events l q = ground (arith, l, q)

-- What `verify_recovery` leads to
pub record Verified (probe : Probe) (config : RecoveryConfig) (rid : String) (now : ℕ)
    (r : RemediationRecord) (s' : Store) (f : RemediationRecord) : Type 0 where
  pub verdict : status_of f ≡ final_status (verify probe r.proposal.target config now).status
  pub stored : lookup rid s'.records ≡ some f
  pub execution : f.execution ≡ r.execution
  pub approval : f.approval ≡ r.approval

-- A stored remediation that has been executed is always verified: `verify_recovery` returns, not as
-- a replay, and the record stored afterwards has the status of the verifier's verdict.
pub verify_recovery_succeeds :
    (probe : Probe) (config : RecoveryConfig) (rid i : String) (now : ℕ) (s : Store)
    (r : RemediationRecord)
    → IsCoherent s
    → lookup rid s.records ≡ some r
    → status_of r ≡ executed
    → (o : VerificationOutcome) × (s' : Store) × (verify_recovery probe config rid i now s
        ≡ (ok o, s'))
      × (o.replayed ≡ false)
      × Verified probe config rid now r s' o.record_after
unfolding verify_recovery verify_found verify_checked conclude settle get with_status
    with_verification
verify_recovery_succeeds probe config rid i now s r h l q =
    let e = (backing s rid r h l q).1.0 in
    let pending = pending_verification config i rid e.execution_id now in
    let events : List AuditEvent =
      verification_started_event r.proposal i e.execution_id now ∷ [] in
    let u = with_verification pending (with_status verifying r) in
    let outcome = verify probe r.proposal.target config now in
    let v = finished_verification pending outcome in
    let s1 : Store = record s {
      records = insert rid u s.records;
      verifications = insert rid pending s.verifications;
      audit = s.audit ++ events;
    } in
    let finished : List AuditEvent =
      verification_finished_event u.proposal i e.execution_id (final_status outcome.status) now
      ∷ [] in
    let f = with_verification v (with_status (final_status outcome.status) u) in
    let s2 : Store = record s1 {
      records = insert rid f s1.records;
      verifications = insert rid v s1.verifications;
      audit = s1.audit ++ finished;
    } in
    (
      record { record_after = f; result = v; replayed = false },
      s2,
      rw l (
          rw (not_settled s rid r h l q) (
            rw (not_verifying s rid r h l q) (
              rw (check_verifiable-ok s rid r h l q) (
                rw (begin_verification-ok s rid r h l q pending events) (
                  rw (
                    finish_verification-ok s1 rid u v outcome.status finished
                      (stored_again rid u s.records) refl)))))),
      refl,
      record {
        verdict = refl;
        stored = stored_again rid f s1.records;
        execution = refl;
        approval = refl;
      },
    )
