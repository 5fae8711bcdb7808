-- ===== src/Remediation/Coherence/Executing.antt =====
-- `execute` and the invariant, on every branch.
use sentinelops_ai.Prelude.{
  ℕ, String, ◌≡◌, refl, sym, ap, ◌∙◌, subst, Bool, true, false, Option, none, some, List, string_eq,
  Result, ok, err,
}
use sentinelops_ai.Prelude.Dict.{lookup}
use sentinelops_ai.Remediation.Enums.{
  RemediationStatus, executing, executed, execution_failed, ExecutionStatus, started, succeeded,
  failed, status_eq,
}
use sentinelops_ai.Remediation.Errors.{Error}
use sentinelops_ai.Remediation.Proposal.{RemediationProposal}
use sentinelops_ai.Remediation.Executor.{
  Executor, ExecutionResult, Attempt, returned, executor_error, raised,
}
use sentinelops_ai.Remediation.Audit.{
  AuditEvent, execution_requested_event, execution_started_event, execution_finished_event,
}
use sentinelops_ai.Remediation.Record.{RemediationRecord, status_of, with_execution, with_status}
use sentinelops_ai.Remediation.Repository.{Store, Written, get, begin_execution, finish_execution}
use sentinelops_ai.Remediation.Service.Execution.{
  World, pending_execution, with_store, finish_run, run_claimed, execute_checked, execute_found,
  execute, check_executable,
}
use sentinelops_ai.Remediation.Coherence.{Evidence, is_start, Approval, IsCoherent}
use sentinelops_ai.Remediation.Coherence.Updates.{Trailed, Updated-IsCoherent}
use sentinelops_ai.Remediation.Coherence.Writes.Executions.{
  begin_execution-Wrote, finish_execution-Wrote,
}
use sentinelops_ai.Remediation.Coherence.Events.{trail_last, trail_more}

Approval-kept :
    (r : RemediationRecord) (e : ExecutionResult) (st : RemediationStatus)
    → Approval r
    → Approval (with_execution e (with_status st r))
unfolding with_execution with_status
Approval-kept r e st (a, k) = (
  a,
  record {
    recorded = k.recorded;
    own = k.own;
    affirmative = k.affirmative;
    allowed = k.allowed;
    authorized = k.authorized;
    in_time = k.in_time;
  },
)

-- How a run that has ended is recorded
data Ended : RemediationStatus → ExecutionStatus → Type 0 where
  success : Ended executed succeeded
  failure : Ended execution_failed failed

Ended-Evidence :
    (r : RemediationRecord) (e : ExecutionResult) (final : RemediationStatus) (x : ExecutionStatus)
    → Ended final x
    → e.status ≡ x
    → Approval r
    → r.verification ≡ none
    → Evidence final (with_execution e (with_status final r))
unfolding with_execution with_status
Ended-Evidence r e _ _ success q k v = (Approval-kept r e executed k, (e, refl, q), v)
Ended-Evidence r e _ _ failure q k v = (Approval-kept r e execution_failed k, (e, refl, q), v)

module _ (rid : String) (s : Store) (u : RemediationRecord) (s' : Store) (h : IsCoherent s) where
  begin_execution-IsCoherent :
      (e : ExecutionResult) (events : List AuditEvent)
      → e.status ≡ started
      → Trailed rid executing 1 events
      → begin_execution rid e events s ≡ ok (u, s')
      → IsCoherent s' × (u.proposal.remediation_id ≡ rid)
  unfolding with_execution with_status
  begin_execution-IsCoherent e events q t m =
      let w = begin_execution-Wrote rid s u s' h e events t m in
      let k = h.stored rid w.current w.read in
      let before = subst (λ x. Evidence x w.current) w.status k.evidence in
      let evidence : Evidence executing (with_execution e (with_status executing w.current)) =
        (Approval-kept w.current e executing before.0, (e, refl, q), before.1.1) in
      let id : u.proposal.remediation_id ≡ rid =
        ap (λ x. x.proposal.remediation_id) w.written ∙ k.id in
      (
        Updated-IsCoherent h w.updated id
            (subst (λ x. Evidence (status_of x) x) (sym w.written) evidence),
        id,
      )

  finish_execution-IsCoherent :
      (e : ExecutionResult) (final : RemediationStatus) (x : ExecutionStatus)
      (events : List AuditEvent)
      → Ended final x
      → e.status ≡ x
      → Trailed rid final 0 events
      → finish_execution rid e final events s ≡ ok (u, s')
      → IsCoherent s'
  unfolding with_execution with_status
  finish_execution-IsCoherent e final x events d q t m =
      let w = finish_execution-Wrote rid s u s' h e final events t m in
      let k = h.stored rid w.current w.read in
      let before = subst (λ x. Evidence x w.current) w.status k.evidence in
      let id : u.proposal.remediation_id ≡ rid =
        ap (λ x. x.proposal.remediation_id) w.written ∙ k.id in
      Updated-IsCoherent h w.updated id (
        subst (λ x. Evidence (status_of x) x) (sym w.written)
          (Ended-Evidence w.current e final x d q before.0 before.2))

module _ (E : Executor) where
  -- The claim has been written: `begun` is the record of `rid`, which runs.
  finished :
      (rid : String) (e : ExecutionResult) (final : RemediationStatus) (x : ExecutionStatus)
      (events : List AuditEvent) (w : World E)
      → IsCoherent w.store
      → Ended final x
      → e.status ≡ x
      → Trailed rid final 0 events
      → IsCoherent (with_store E e (finish_execution rid e final events w.store) w).1.store
  unfolding with_store
  finished rid e final x events w h d q t =
      elim (finish_execution rid e final events w.store)
          as (λ o.
            finish_execution rid e final events w.store ≡ o
            → IsCoherent (with_store E e o w).1.store) [
              | ok (u, s) ↦
                  λ m. finish_execution-IsCoherent rid w.store u s h e final x events d q t m
              | err f ↦ λ m. h
            ]
        refl

  finish_run-IsCoherent :
      (rid : String) (pending : ExecutionResult) (p : RemediationProposal) (now failed_at : ℕ)
      (attempt : Attempt) (w : World E)
      → IsCoherent w.store
      → p.remediation_id ≡ rid
      → ((e : ExecutionResult) → attempt ≡ returned e → e.status ≡ succeeded)
      → IsCoherent (finish_run E rid pending p now failed_at attempt w).1.store
  unfolding finish_run execution_finished_event is_start
  finish_run-IsCoherent rid pending p now failed_at (returned e) w h q law =
      finished rid e executed succeeded _ w h success (law e refl) (trail_last _ _ _ _ q refl refl)
  finish_run-IsCoherent rid pending p now failed_at (executor_error m) w h q law =
      finished rid _ execution_failed failed _ w h failure refl (trail_last _ _ _ _ q refl refl)
  finish_run-IsCoherent rid pending p now failed_at (raised e) w h q law = h

  run_claimed-IsCoherent :
      (rid i : String) (pending : ExecutionResult) (now failed_at : ℕ) (claimed : Written)
      (w : World E)
      → IsCoherent w.store
      → ((u : RemediationRecord) (s : Store)
          → claimed ≡ ok (u, s)
          → IsCoherent s × (u.proposal.remediation_id ≡ rid))
      → IsCoherent (run_claimed E rid i pending now failed_at claimed w).1.store
  unfolding run_claimed
  run_claimed-IsCoherent rid i pending now failed_at (err e) w h k = h
  run_claimed-IsCoherent rid i pending now failed_at (ok (u, s)) w h k =
      let (coherent, q) = k u s refl in
      finish_run-IsCoherent rid pending u.proposal now failed_at _ _ coherent q
        (λ e. E.returns_success w.simulation u.proposal i false now e)

  execute_checked-IsCoherent :
      (rid : String) (dry : Bool) (i : String) (now failed_at : ℕ) (r : RemediationRecord)
      (w : World E) (checked : Result Error (Unit {0}))
      → IsCoherent w.store
      → r.proposal.remediation_id ≡ rid
      → IsCoherent (execute_checked E rid dry i now failed_at r w checked).1.store
  unfolding execute_checked execution_requested_event execution_started_event is_start
  execute_checked-IsCoherent rid dry i now failed_at r w (err e) h q = h
  execute_checked-IsCoherent rid true i now failed_at r w (ok _) h q = h
  execute_checked-IsCoherent rid false i now failed_at r w (ok _) h q =
      run_claimed-IsCoherent rid i (pending_execution E r.proposal i now) now failed_at _ w h
        (λ u s.
          begin_execution-IsCoherent rid w.store u s h _ _ refl
            (trail_more _ _ _ _ _ q refl (trail_last _ _ _ _ q refl refl)))

  execute_found-IsCoherent :
      (rid : String) (dry : Bool) (i : String) (now failed_at : ℕ) (w : World E)
      (found : Option RemediationRecord)
      → IsCoherent w.store
      → lookup rid w.store.records ≡ found
      → IsCoherent (execute_found E rid dry i now failed_at w found).1.store
  unfolding execute_found
  execute_found-IsCoherent rid dry i now failed_at w none h l = h
  execute_found-IsCoherent rid dry i now failed_at w (some r) h l =
      execute_checked-IsCoherent rid dry i now failed_at r w (check_executable r now) h
        (h.stored rid r l).id

  pub execute-IsCoherent :
      (rid : String) (dry : Bool) (i : String) (now failed_at : ℕ) (w : World E)
      → IsCoherent w.store
      → IsCoherent (execute E rid dry i now failed_at w).1.store
  unfolding execute get
  execute-IsCoherent rid dry i now failed_at w h =
      execute_found-IsCoherent rid dry i now failed_at w _ h refl
