-- ===== src/Remediation/Coherence/Writes/Executions.antt =====
-- `begin_execution` and `finish_execution`: what they have found and written where they succeed.
use sentinelops_ai.Prelude.{
  ◌+◌, String, ◌≡◌, sym, ap, ◌∙◌, subst, none, some, List, ◌++◌, string_eq, arith, ok, Option-cases,
  inl, inr,
}
use sentinelops_ai.Prelude.Dict.{lookup, insert, has_key-lookup}
use sentinelops_ai.Remediation.Enums.{RemediationStatus, approved, executing, status_eq}
use sentinelops_ai.Remediation.StateMachine.{validate_transition}
use sentinelops_ai.Remediation.Executor.{ExecutionResult}
use sentinelops_ai.Remediation.Audit.{AuditEvent}
use sentinelops_ai.Remediation.Record.{RemediationRecord, status_of, with_status, with_execution}
use sentinelops_ai.Remediation.Repository.{Store, begin_execution, finish_execution}
use sentinelops_ai.Remediation.Coherence.{Evidence, runs, IsCoherent}
use sentinelops_ai.Remediation.Coherence.Updates.{Updated, Trailed}
use sentinelops_ai.Remediation.Coherence.Writes.{Wrote, execution_written}

module _ (rid : String) (s : Store) (u : RemediationRecord) (s' : Store) (h : IsCoherent s) where
  begin_execution-inv :
      (x : ExecutionResult) (events : List AuditEvent)
      → begin_execution rid x events s ≡ ok (u, s')
      → (c : RemediationRecord) × (lookup rid s.records ≡ some c)
        × (status_of c ≡ approved)
        × (lookup rid s.executions ≡ none)
        × (u ≡ with_execution x (with_status executing c))
        × (s' ≡ record s {
          records = insert rid u s.records;
          executions = insert rid x s.executions;
          audit = s.audit ++ events;
        })
  unfolding begin_execution with_status with_execution validate_transition
  begin_execution-inv x events e = elim (Option-cases (lookup rid s.records)) [
    | inl n ↦ absurd ground arith
    | inr (r, l) ↦ (
      r,
      l,
      ground arith,
      ground (arith, has_key-lookup rid s.executions),
      ground arith,
      ground arith,
    )
  ]

  pub begin_execution-Wrote :
      (x : ExecutionResult) (events : List AuditEvent)
      → Trailed rid executing 1 events
      → begin_execution rid x events s ≡ ok (u, s')
      → Wrote s rid approved (λ r. with_execution x (with_status executing r)) u s'
  unfolding with_status with_execution
  begin_execution-Wrote x events t e =
      let (r, l, q, free, w, n) = begin_execution-inv x events e in
      record {
        current = r;
        read = l;
        status = q;
        written = w;
        updated = subst (Updated s rid u) (sym n) (
            execution_written rid r u executing 1 events s h l t (ap status_of w)
              (ap (λ o. runs o + 1) (sym (h.stored rid r l).execution ∙ free)
                ∙ ap (λ y. runs y.execution) (sym w))
              x ground arith ground arith);
      }

  finish_execution-inv :
      (x : ExecutionResult) (final : RemediationStatus) (events : List AuditEvent)
      → finish_execution rid x final events s ≡ ok (u, s')
      → (c : RemediationRecord) × (lookup rid s.records ≡ some c)
        × (status_of c ≡ executing)
        × (u ≡ with_execution x (with_status final c))
        × (s' ≡ record s {
          records = insert rid u s.records;
          executions = insert rid x s.executions;
          audit = s.audit ++ events;
        })
  unfolding finish_execution with_status with_execution validate_transition
  finish_execution-inv x final events e = elim (Option-cases (lookup rid s.records)) [
    | inl n ↦ absurd ground arith
    | inr (r, l) ↦ (r, l, ground arith, ground arith, ground arith)
  ]

  pub finish_execution-Wrote :
      (x : ExecutionResult) (final : RemediationStatus) (events : List AuditEvent)
      → Trailed rid final 0 events
      → finish_execution rid x final events s ≡ ok (u, s')
      → Wrote s rid executing (λ r. with_execution x (with_status final r)) u s'
  unfolding with_status with_execution
  finish_execution-Wrote x final events t e =
      let (r, l, q, w, n) = finish_execution-inv x final events e in
      record {
        current = r;
        read = l;
        status = q;
        written = w;
        updated = subst (Updated s rid u) (sym n) (
            execution_written rid r u final 0 events s h l t (ap status_of w)
              (ap (λ o. runs o + 0) (subst (λ y. Evidence y r) q (h.stored rid r l).evidence).1.1
                ∙ ap (λ y. runs y.execution) (sym w))
              x ground arith ground arith);
      }
