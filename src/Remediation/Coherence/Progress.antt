-- ===== src/Remediation/Coherence/Progress.antt =====
-- `execute` over the simulation, on a remediation that may run.
use sentinelops_ai.Prelude.{
  ℕ, ◌<◌, String, ◌≡◌, refl, ◌∙◌, subst, true, false, some, List, [], ◌∷◌, ◌++◌, string_eq, arith,
  ok, eq_iff,
}
use sentinelops_ai.Prelude.Dict.{Dict, lookup, insert, has_key, lookup-insert, has_key-lookup}
use sentinelops_ai.Remediation.Enums.{approved, executing, executed, status_eq}
use sentinelops_ai.Remediation.StateMachine.{validate_transition}
use sentinelops_ai.Remediation.Catalogue.{Value, is_allowed_target, validate_action_parameters}
use sentinelops_ai.Remediation.Proposal.{authorize_execution}
use sentinelops_ai.Remediation.Proposal.Mapping.{authorize_execution_iff}
use sentinelops_ai.Remediation.Executor.{ExecutionResult, local_executor}
use sentinelops_ai.Remediation.Executor.Simulated.{RanOn, simulation_execute_real}
use sentinelops_ai.Remediation.Audit.{
  AuditEvent, execution_requested_event, execution_started_event, execution_finished_event,
}
use sentinelops_ai.Remediation.Record.{RemediationRecord, status_of, with_execution, with_status}
use sentinelops_ai.Remediation.Repository.{Store, get, begin_execution, finish_execution}
use sentinelops_ai.Remediation.Service.Execution.{
  World, pending_execution, with_store, finish_run, run_claimed, execute_checked, execute_found,
  execute, check_executable,
}
use sentinelops_ai.Remediation.Coherence.{Evidence, IsCoherent}

-- What `execute` asks of the stored record
pub record Executable (s : Store) (rid : String) (now : ℕ) (r : RemediationRecord) (v : Dict Value)
    : Type 0 where
  pub stored : lookup rid s.records ≡ some r
  pub status : status_of r ≡ approved
  pub allowed : is_allowed_target r.proposal.action_type r.proposal.target ≡ true
  pub parameters : validate_action_parameters r.proposal.action_type r.proposal.parameters ≡ ok v
  pub in_time : now < r.proposal.expires_at

module _ (s : Store) (rid : String) (now : ℕ) (r : RemediationRecord) (v : Dict Value)
    (h : IsCoherent s) (x : Executable s rid now r v) where
  backing : Evidence approved r
  backing = subst (λ st. Evidence st r) x.status (h.stored rid r x.stored).evidence

  authorized : authorize_execution r.proposal r.approval ≡ ok tt
  authorized =
      let (a, k) = backing.0 in
      (authorize_execution_iff r.proposal r.approval).1
        (x.status, (a, k.recorded, k.own, k.affirmative))

  check_executable-ok : check_executable r now ≡ ok tt
  unfolding check_executable
  check_executable-ok = ground (arith, x.status, authorized, x.allowed, x.parameters, x.in_time)

  no_row : has_key rid s.executions ≡ false
  no_row = has_key-lookup rid s.executions ∙ rw ((h.stored rid r x.stored).execution, backing.1.0)

  begin_execution-ok :
      (e : ExecutionResult) (events : List AuditEvent)
      → let u = with_execution e (with_status executing r) in
        begin_execution rid e events s
        ≡ ok (
          u,
          record s {
            records = insert rid u s.records;
            executions = insert rid e s.executions;
            audit = s.audit ++ events;
          },
        )
  unfolding begin_execution validate_transition
  begin_execution-ok e events = ground (arith, x.stored, x.status, no_row)

finish_execution-ok :
    (s : Store) (rid : String) (u : RemediationRecord) (e : ExecutionResult)
    (events : List AuditEvent)
    → lookup rid s.records ≡ some u
    → status_of u ≡ executing
    → let f = with_execution e (with_status executed u) in
      finish_execution rid e executed events s
      ≡ ok (
        f,
        record s {
          records = insert rid f s.records;
          executions = insert rid e s.executions;
          audit = s.audit ++ events;
        },
      )
unfolding finish_execution validate_transition
finish_execution-ok s rid u e events l q = ground (arith, l, q)

-- What `execute` leads to
pub record Executed (rid : String) (now : ℕ) (r : RemediationRecord) (v : Dict Value)
    (w w' : World local_executor) (f : RemediationRecord) (result : ExecutionResult) : Type 0 where
  pub status : status_of f ≡ executed
  pub stored : lookup rid w'.store.records ≡ some f
  pub recorded : f.execution ≡ some result
  pub approval : f.approval ≡ r.approval
  pub target : f.proposal.target ≡ r.proposal.target
  pub ran : RanOn w.simulation w'.simulation (with_status executing r).proposal v now result

pub stored_again :
    (rid : String) (u : RemediationRecord) (d : Dict RemediationRecord)
    → lookup rid (insert rid u d) ≡ some u
stored_again rid u d = lookup-insert rid rid u d ∙ rw ((eq_iff rid rid).1 refl)

-- Once it is approved, allowed on its target, valid in its parameters and in time, a remediation in a
-- coherent store is carried out: `execute` over the simulation returns, the record stored afterwards
-- is executed and holds the result, and the simulation has done what `RanOn` says: the target has
-- what the action and its parameters ask for, begins its recovery at the time of the run and is
-- otherwise as before, as is every other service.
pub execute_succeeds :
    (rid i : String) (now failed_at : ℕ) (w : World local_executor) (r : RemediationRecord)
    (v : Dict Value)
    → IsCoherent w.store
    → Executable w.store rid now r v
    → (f : RemediationRecord) × (result : ExecutionResult) × (w' : World local_executor) × (execute
          local_executor rid false i now failed_at w
        ≡ (ok (f, result), w'))
      × Executed rid now r v w w' f result
unfolding execute execute_found execute_checked run_claimed finish_run with_store get with_status
    with_execution
execute_succeeds rid i now failed_at w r v h x =
    let p = r.proposal in
    let pending = pending_execution local_executor p i now in
    let events : List AuditEvent =
      execution_requested_event p i now ∷ execution_started_event p i now ∷ [] in
    let u = with_execution pending (with_status executing r) in
    let (result, sim, run, ran) =
      simulation_execute_real w.simulation u.proposal v i now x.parameters in
    let s : Store = record w.store {
      records = insert rid u w.store.records;
      executions = insert rid pending w.store.executions;
      audit = w.store.audit ++ events;
    } in
    let finished : List AuditEvent = execution_finished_event u.proposal result executed now ∷ [] in
    let f = with_execution result (with_status executed u) in
    let w' : World local_executor = record {
      store = record s {
        records = insert rid f s.records;
        executions = insert rid result s.executions;
        audit = s.audit ++ finished;
      };
      simulation = sim;
    } in
    (
      f,
      result,
      w',
      rw x.stored (
          rw (check_executable-ok w.store rid now r v h x) (
            rw (begin_execution-ok w.store rid now r v h x pending events) (
              rw run (
                rw (
                  finish_execution-ok s rid u result finished (stored_again rid u w.store.records)
                    refl))))),
      record {
        status = refl;
        stored = stored_again rid f s.records;
        recorded = refl;
        approval = refl;
        target = refl;
        ran = ran;
      },
    )
