-- ===== src/Remediation/Coherence/Writes/Verifications.antt =====
-- `begin_verification` and `finish_verification`: what they have found and written where they succeed.
use sentinelops_ai.Prelude.{
  String, ◌≡◌, sym, ap, subst, some, List, ◌++◌, string_eq, arith, ok, Option-cases, inl, inr,
}
use sentinelops_ai.Prelude.Dict.{lookup, insert}
use sentinelops_ai.Remediation.Enums.{RemediationStatus, executed, verifying, status_eq}
use sentinelops_ai.Remediation.StateMachine.{validate_transition}
use sentinelops_ai.Remediation.Audit.{AuditEvent}
use sentinelops_ai.Remediation.Record.{
  RemediationRecord, VerificationResult, status_of, with_status, with_verification,
}
use sentinelops_ai.Remediation.Repository.{Store, begin_verification, finish_verification}
use sentinelops_ai.Remediation.Coherence.{IsCoherent}
use sentinelops_ai.Remediation.Coherence.Updates.{Updated, Trailed}
use sentinelops_ai.Remediation.Coherence.Writes.{Wrote, verification_written}

module _ (rid : String) (s : Store) (u : RemediationRecord) (s' : Store) (h : IsCoherent s) where
  begin_verification-inv :
      (v : VerificationResult) (events : List AuditEvent)
      → begin_verification rid v events s ≡ ok (u, s')
      → (c : RemediationRecord) × (lookup rid s.records ≡ some c)
        × (status_of c ≡ executed)
        × (u ≡ with_verification v (with_status verifying c))
        × (s' ≡ record s {
          records = insert rid u s.records;
          verifications = insert rid v s.verifications;
          audit = s.audit ++ events;
        })
  unfolding begin_verification with_status with_verification validate_transition
  begin_verification-inv v events e = elim (Option-cases (lookup rid s.records)) [
    | inl n ↦ absurd ground arith
    | inr (r, l) ↦ (r, l, ground arith, ground arith, ground arith)
  ]

  pub begin_verification-Wrote :
      (v : VerificationResult) (events : List AuditEvent)
      → Trailed rid verifying 0 events
      → begin_verification rid v events s ≡ ok (u, s')
      → Wrote s rid executed (λ r. with_verification v (with_status verifying r)) u s'
  unfolding with_status with_verification
  begin_verification-Wrote v events t e =
      let (r, l, q, w, n) = begin_verification-inv v events e in
      record {
        current = r;
        read = l;
        status = q;
        written = w;
        updated = subst (Updated s rid u) (sym n) (
            verification_written rid r u verifying 0 events s h l t (ap status_of w)
              (ground (arith, w)) v ground arith ground arith);
      }

  finish_verification-inv :
      (v : VerificationResult) (final : RemediationStatus) (events : List AuditEvent)
      → finish_verification rid v final events s ≡ ok (u, s')
      → (c : RemediationRecord) × (lookup rid s.records ≡ some c)
        × (status_of c ≡ verifying)
        × (u ≡ with_verification v (with_status final c))
        × (s' ≡ record s {
          records = insert rid u s.records;
          verifications = insert rid v s.verifications;
          audit = s.audit ++ events;
        })
  unfolding finish_verification with_status with_verification validate_transition
  finish_verification-inv v final events e = elim (Option-cases (lookup rid s.records)) [
    | inl n ↦ absurd ground arith
    | inr (r, l) ↦ (r, l, ground arith, ground arith, ground arith)
  ]

  pub finish_verification-Wrote :
      (v : VerificationResult) (final : RemediationStatus) (events : List AuditEvent)
      → Trailed rid final 0 events
      → finish_verification rid v final events s ≡ ok (u, s')
      → Wrote s rid verifying (λ r. with_verification v (with_status final r)) u s'
  unfolding with_status with_verification
  finish_verification-Wrote v final events t e =
      let (r, l, q, w, n) = finish_verification-inv v final events e in
      record {
        current = r;
        read = l;
        status = q;
        written = w;
        updated = subst (Updated s rid u) (sym n) (
            verification_written rid r u final 0 events s h l t (ap status_of w) (ground (arith, w))
              v ground arith ground arith);
      }
