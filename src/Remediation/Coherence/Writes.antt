-- ===== src/Remediation/Coherence/Writes.antt =====
-- A write of the repository: one record with its row and its events.
pub mod Executions
pub mod Verifications
pub mod Records
use sentinelops_ai.Prelude.{
  ℕ, ◌+◌, String, ◌≡◌, sym, ap, ◌∙◌, subst, none, some, List, [], ◌∷◌, ◌++◌, string_eq, ◌==◌,
  if◌then◌else◌, arith, ok, Option-cases, inl, inr,
}
use sentinelops_ai.Prelude.Dict.{lookup, insert, lookup-insert, has_key-lookup}
use sentinelops_ai.Remediation.Enums.{
  RemediationStatus, approved, executing, executed, verifying, status_eq,
}
use sentinelops_ai.Remediation.StateMachine.{validate_transition}
use sentinelops_ai.Remediation.Target.{RemediationApproval}
use sentinelops_ai.Remediation.Proposal.{RemediationProposal}
use sentinelops_ai.Remediation.Executor.{ExecutionResult}
use sentinelops_ai.Remediation.Audit.{AuditEvent}
use sentinelops_ai.Remediation.Record.{
  RemediationRecord, VerificationResult, status_of, with_status, with_proposal, with_approval,
  with_execution, with_verification,
}
use sentinelops_ai.Remediation.Repository.{
  Store, create, record_decision, begin_execution, finish_execution, begin_verification,
  finish_verification,
}
use sentinelops_ai.Remediation.Coherence.{Evidence, starts, runs, last_state, IsCoherent}
use sentinelops_ai.Remediation.Coherence.Updates.{
  Updated, Trailed, trail-append, start-append, unchanged_row,
}

-- A write of the execution row, and one of the verification row
module _ (rid : String) (r u : RemediationRecord) (st : RemediationStatus) (n : ℕ)
    (events : List AuditEvent) (s : Store) (h : IsCoherent s) (l : lookup rid s.records ≡ some r)
    (t : Trailed rid st n events) (q : status_of u ≡ st)
    (b : runs r.execution + n ≡ runs u.execution) where
  trail_after :
      (j : String)
      → last_state j (s.audit ++ events)
        ≡ (if rid == j then some (status_of u) else last_state j s.audit)
  trail_after j =
      trail-append rid st s.audit events t.last j
      ∙ ap (λ x. if rid == j then some x else last_state j s.audit) (sym q)

  started_after :
      (j : String)
      → starts j (s.audit ++ events) ≡ (if rid == j then runs u.execution else starts j s.audit)
  started_after =
      start-append rid n (runs u.execution) s.audit events t.start
        (ap (λ m. m + n) (h.stored rid r l).started ∙ b)

  pub execution_written :
      (e : ExecutionResult)
      → u.execution ≡ some e
      → u.verification ≡ r.verification
      → Updated s rid u (record s {
        records = insert rid u s.records;
        executions = insert rid e s.executions;
        audit = s.audit ++ events;
      })
  execution_written e x v = record {
    records = λ j. lookup-insert rid j u s.records;
    executions = λ j.
        lookup-insert rid j e s.executions
        ∙ ap (λ o. if rid == j then o else lookup j s.executions) (sym x);
    verifications =
        unchanged_row rid u.verification s.verifications ((h.stored rid r l).verification ∙ sym v);
    trail = trail_after;
    started = started_after;
  }

  pub verification_written :
      (v : VerificationResult)
      → u.verification ≡ some v
      → u.execution ≡ r.execution
      → Updated s rid u (record s {
        records = insert rid u s.records;
        verifications = insert rid v s.verifications;
        audit = s.audit ++ events;
      })
  verification_written v x e = record {
    records = λ j. lookup-insert rid j u s.records;
    executions = unchanged_row rid u.execution s.executions ((h.stored rid r l).execution ∙ sym e);
    verifications = λ j.
        lookup-insert rid j v s.verifications
        ∙ ap (λ o. if rid == j then o else lookup j s.verifications) (sym x);
    trail = trail_after;
    started = started_after;
  }

  pub rows_kept :
      u.execution ≡ r.execution
      → u.verification ≡ r.verification
      → Updated s rid u (record s { records = insert rid u s.records; audit = s.audit ++ events })
  rows_kept e v = record {
    records = λ j. lookup-insert rid j u s.records;
    executions = unchanged_row rid u.execution s.executions ((h.stored rid r l).execution ∙ sym e);
    verifications =
        unchanged_row rid u.verification s.verifications ((h.stored rid r l).verification ∙ sym v);
    trail = trail_after;
    started = started_after;
  }

-- What an operation has read and what it has written in its place
pub record Wrote (s : Store) (rid : String) (st : RemediationStatus)
    (change : RemediationRecord → RemediationRecord) (u : RemediationRecord) (s' : Store)
    : Type 0 where
  pub current : RemediationRecord
  pub read : lookup rid s.records ≡ some current
  pub status : status_of current ≡ st
  pub written : u ≡ change current
  pub updated : Updated s rid u s'
