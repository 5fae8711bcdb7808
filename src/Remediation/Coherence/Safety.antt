-- ===== src/Remediation/Coherence/Safety.antt =====
-- Consequences of the invariant for executions, verifications and statuses.
use sentinelops_ai.Prelude.{
  ◌≤◌, ◌≢◌, String, ◌≡◌, sym, ◌∙◌, subst, Option, none, some, List, arith, Option-cases, inl, inr,
}
use sentinelops_ai.Prelude.Dict.{lookup}
use sentinelops_ai.Remediation.Enums.{
  RemediationStatus, proposed, policy_evaluation, pending_approval, approved, executing, executed,
  verifying, blocked, rejected, expired, execution_failed, recovered, recovery_failed, succeeded,
}
use sentinelops_ai.Remediation.Executor.{ExecutionResult}
use sentinelops_ai.Remediation.Record.{RemediationRecord, VerificationResult, status_of}
use sentinelops_ai.Remediation.Repository.{Store, empty_store}
use sentinelops_ai.Remediation.Policy.{PolicyConfig}
use sentinelops_ai.Remediation.Executor.{Executor}
use sentinelops_ai.Remediation.Recovery.{RecoveryConfig, Probe}
use sentinelops_ai.Remediation.Service.Execution.{World}
use sentinelops_ai.Remediation.Service.Calls.{Call, perform_all}
use sentinelops_ai.Remediation.Coherence.{Evidence, starts, runs, Approval, Execution, IsCoherent}
use sentinelops_ai.Remediation.Coherence.Calls.{reachable-IsCoherent}

executed-Approval :
    (st : RemediationStatus) (r : RemediationRecord) (e : ExecutionResult)
    → Evidence st r
    → r.execution ≡ some e
    → Approval r
executed-Approval proposed r e k q = elim k [ ]
executed-Approval policy_evaluation r e k q = elim k [ ]
executed-Approval expired r e k q = elim k [ ]
executed-Approval pending_approval r e (_, _, (n, _)) q = absurd (cc (n, q))
executed-Approval blocked r e (_, _, (n, _)) q = absurd (cc (n, q))
executed-Approval rejected r e (_, (n, _)) q = absurd (cc (n, q))
executed-Approval approved r e (k, _) q = k
executed-Approval executing r e (k, _, _) q = k
executed-Approval executed r e (k, _, _) q = k
executed-Approval execution_failed r e (k, _, _) q = k
executed-Approval verifying r e (k, _, _) q = k
executed-Approval recovered r e (k, _, _) q = k
executed-Approval recovery_failed r e (k, _, _) q = k

verified-Execution :
    (st : RemediationStatus) (r : RemediationRecord) (v : VerificationResult)
    → Evidence st r
    → r.verification ≡ some v
    → Approval r × Execution r succeeded
verified-Execution proposed r e k q = elim k [ ]
verified-Execution policy_evaluation r e k q = elim k [ ]
verified-Execution expired r e k q = elim k [ ]
verified-Execution pending_approval r e (_, _, (_, n)) q = absurd (cc (n, q))
verified-Execution blocked r e (_, _, (_, n)) q = absurd (cc (n, q))
verified-Execution rejected r e (_, (_, n)) q = absurd (cc (n, q))
verified-Execution approved r e (_, (_, n)) q = absurd (cc (n, q))
verified-Execution executing r e (_, _, n) q = absurd (cc (n, q))
verified-Execution executed r e (_, _, n) q = absurd (cc (n, q))
verified-Execution execution_failed r e (_, _, n) q = absurd (cc (n, q))
verified-Execution verifying r e (k, x, _) q = (k, x)
verified-Execution recovered r e (k, x, _) q = (k, x)
verified-Execution recovery_failed r e (k, x, _) q = (k, x)

module _ {s : Store} (h : IsCoherent s) where
  execution_row :
      (rid : String) (e : ExecutionResult)
      → lookup rid s.executions ≡ some e
      → (r : RemediationRecord) × (lookup rid s.records ≡ some r)
        × (r.execution ≡ some e)
        × Approval r
  execution_row rid e q = elim (Option-cases (lookup rid s.records)) [
    | inl n ↦ absurd (cc ((h.absent rid n).execution, q))
    | inr (r, l) ↦
        let k = h.stored rid r l in
        let own = sym k.execution ∙ q in
        (r, l, own, executed-Approval (status_of r) r e k.evidence own)
  ]

  verification_row :
      (rid : String) (v : VerificationResult)
      → lookup rid s.verifications ≡ some v
      → (r : RemediationRecord) × (lookup rid s.records ≡ some r)
        × (r.verification ≡ some v)
        × Approval r
        × Execution r succeeded
  verification_row rid v q = elim (Option-cases (lookup rid s.records)) [
    | inl n ↦ absurd (cc ((h.absent rid n).verification, q))
    | inr (r, l) ↦
        let k = h.stored rid r l in
        let own = sym k.verification ∙ q in
        let (a, x) = verified-Execution (status_of r) r v k.evidence own in (r, l, own, a, x)
  ]

rows_at_most : (o : Option ExecutionResult) → runs o ≤ 1
rows_at_most none = ground arith
rows_at_most (some e) = ground arith

starts_at_most : {s : Store} → IsCoherent s → (rid : String) → starts rid s.audit ≤ 1
starts_at_most {s} h rid = elim (Option-cases (lookup rid s.records)) [
  | inl n ↦ subst (λ m. m ≤ 1) (sym (h.absent rid n).started) ground arith
  | inr (r, l) ↦ subst (λ m. m ≤ 1) (sym (h.stored rid r l).started) (rows_at_most r.execution)
]

never_expired : (st : RemediationStatus) (r : RemediationRecord) → Evidence st r → st ≢ expired
never_expired st r k q = subst (λ x. Evidence x r) q k

module _ (policy : PolicyConfig) (recovery : RecoveryConfig) (E : Executor)
    (probe : E.State → Probe) where
  -- Whatever calls are made on a service whose store was empty: an execution row exists only for a
  -- stored remediation that the policy had allowed and that a human with a role sufficient for its
  -- action has approved before it expired.
  pub executions_approved :
      (cs : List Call) (w : World E) (rid : String) (e : ExecutionResult)
      → w.store ≡ empty_store
      → lookup rid (perform_all policy recovery E probe cs w).store.executions ≡ some e
      → (r : RemediationRecord) × (lookup rid
            (perform_all policy recovery E probe cs w).store.records
          ≡ some r)
        × (r.execution ≡ some e)
        × Approval r
  executions_approved cs w rid e z q =
      execution_row (reachable-IsCoherent policy recovery E probe cs w z) rid e q

  -- Whatever calls are made on a service whose store was empty: a verification row exists only for
  -- a stored remediation that was approved as above and whose execution succeeded.
  pub verifications_executed :
      (cs : List Call) (w : World E) (rid : String) (v : VerificationResult)
      → w.store ≡ empty_store
      → lookup rid (perform_all policy recovery E probe cs w).store.verifications ≡ some v
      → (r : RemediationRecord) × (lookup rid
            (perform_all policy recovery E probe cs w).store.records
          ≡ some r)
        × (r.verification ≡ some v)
        × Approval r
        × Execution r succeeded
  verifications_executed cs w rid v z q =
      verification_row (reachable-IsCoherent policy recovery E probe cs w z) rid v q

  -- Whatever calls are made on a service whose store was empty, in whatever order and however often
  -- repeated: the audit trail of a remediation starts an execution at most once.
  pub started_once :
      (cs : List Call) (w : World E) (rid : String)
      → w.store ≡ empty_store
      → starts rid (perform_all policy recovery E probe cs w).store.audit ≤ 1
  started_once cs w rid z = starts_at_most (reachable-IsCoherent policy recovery E probe cs w z) rid

  -- Whatever calls are made on a service whose store was empty: no stored remediation ever has the
  -- status `expired`.
  pub expired_unreached :
      (cs : List Call) (w : World E) (rid : String) (r : RemediationRecord)
      → w.store ≡ empty_store
      → lookup rid (perform_all policy recovery E probe cs w).store.records ≡ some r
      → status_of r ≢ expired
  expired_unreached cs w rid r z l =
      never_expired (status_of r) r
        ((reachable-IsCoherent policy recovery E probe cs w z).stored rid r l).evidence
