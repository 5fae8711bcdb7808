-- ===== src/Rca/Service/Concludes.antt =====
-- engine/service.py: what an investigation leaves in the repository.
use sentinelops_ai.Prelude.{
  ℕ, ◌≤◌, String, ◌≡◌, refl, sym, ap, subst, ◌∙◌, inl, inr, true, none, some, List, [], ◌∷◌, ◌++◌,
  arith, eq_iff, string_eq, Result, ok, Option-cases, if_either,
}
use sentinelops_ai.Prelude.Dict.{Dict, lookup, insert, has_key-lookup, lookup-insert}
use sentinelops_ai.Rca.Domain.{completed, is_terminal, InvestigationTrigger}
use sentinelops_ai.Rca.Schemas.{Investigation, RcaReport}
use sentinelops_ai.Rca.Validation.Grounded.{IsGrounded}
use sentinelops_ai.Rca.Engine.{Meters, InvestigationState, initialize_node, ids_of}
use sentinelops_ai.Rca.Graph.{finished, recursion_limit}
use sentinelops_ai.Rca.Graph.Ready.{IsConcluded}
use sentinelops_ai.Rca.Graph.Run.{IsEnded, run_graph-IsEnded}
use sentinelops_ai.Rca.Repository.{
  InvestigationStore, RepositoryError, Completion, with_completion, complete_found,
  complete_investigation, begin_investigation, begin_unless, begun, get_active_investigation,
  get_investigation, get_evidence, get_report, stored_list, store_report,
}
use sentinelops_ai.Rca.Repository.Single.{
  IsSingle, find_active-none, insert-IsSingle, replace-IsSingle,
}
use sentinelops_ai.Rca.Service.{
  Setup, deps_for, fresh_meters, initial_state, settled, completion_of, run_engine,
  crashed_completion, stored_completion, InvestigationOutcome, outcome_with, stored_outcome,
  run_to_completion, begin_or_running, begin, run_begun, investigate,
}

-- The graph's run for an investigation of the service, where no node lets an exception through,
-- ends within the recursion limit, in a terminal status, without exceeding the limit on tool
-- calls, if that limit allows one. A completed one has a report that passed validation against the
-- evidence it collected.
pub run_engine-IsEnded :
    (c : Setup) (i : Investigation) (now : ℕ)
    → 1 ≤ c.limits.max_tool_calls
    → IsEnded (deps_for c i) (run_engine c i now)
unfolding run_engine recursion_limit deps_for fresh_meters initial_state
run_engine-IsEnded c i now budget =
    run_graph-IsEnded (deps_for c i) (recursion_limit (deps_for c i)) initialize_node initial_state
      (fresh_meters c now) (record { status = refl; grown = (refl, refl); calls = omega arith })
      (omega arith)

-- What is stored of a run: a terminal status, and for a completed one a grounded report.
pub record IsStorable (c : Completion) : Type 0 where
  pub terminal : is_terminal c.status ≡ true
  pub report_if_completed :
      c.status ≡ completed
      → (r : RcaReport) × (c.report ≡ some r) × IsGrounded (ids_of c.evidence) r

finished-IsStorable :
    (c : Setup) (s : InvestigationState) (m : Meters)
    → is_terminal s.status ≡ true
    → IsConcluded s
    → IsStorable (completion_of c (finished s m))
unfolding completion_of settled
finished-IsStorable c s m last h = rw last (record {
  terminal = last;
  report_if_completed =
      λ e. let (r, stored, same, grounded) = h.report_if_completed e in (r, stored, grounded);
})

-- A crash stores a failure.
crashed-IsStorable : (c : Setup) → IsStorable (crashed_completion c)
unfolding is_terminal
crashed-IsStorable c = record { terminal = refl; report_if_completed = λ e. ground arith }

completion-IsStorable :
    (c : Setup) (i : Investigation) (now : ℕ)
    → 1 ≤ c.limits.max_tool_calls
    → IsStorable (stored_completion c i now)
completion-IsStorable c i now budget =
    let e = run_engine-IsEnded c i now budget in
    if_either IsStorable (c.crashes i now) (crashed-IsStorable c) (
      subst (λ o. IsStorable (completion_of c o)) (sym e.returned)
        (finished-IsStorable c e.state e.meters e.terminal e.concluded))

-- What an investigation leaves: it is stored as it is returned, in a terminal status, with its
-- evidence, and if it is completed with a report grounded in that evidence.
pub record IsDone (id : String) (o : InvestigationOutcome × InvestigationStore) : Type 0 where
  pub stored : get_investigation id o.1 ≡ some o.0.investigation
  pub terminal : is_terminal o.0.investigation.status ≡ true
  pub evidence : get_evidence id o.1 ≡ some o.0.evidence
  pub report_if_completed :
      o.0.investigation.status ≡ completed
      → (r : RcaReport) × (get_report id o.1 ≡ some r) × IsGrounded (ids_of o.0.evidence) r

insert_found : {V : Type 0} (id : String) (v : V) (d : Dict V) → lookup id (insert id v d) ≡ some v
insert_found id v d = lookup-insert id id v d ∙ ground (arith, (eq_iff id id).1 refl)

stored_list_found :
    {A : Type 0} (id : String) (i : Investigation) (xs : List A) (d : Dict Investigation)
    (lists : Dict (List A))
    → lookup id d ≡ some i
    → lookup id lists ≡ some xs
    → stored_list id d lists ≡ some xs
stored_list_found id i xs d lists h k = rw (has_key-lookup id d, h, k) refl

completed-IsDone :
    (id : String) (prior : Investigation) (c : Completion) (now : ℕ) (store : InvestigationStore)
    → IsStorable c
    → IsSingle store
    → lookup id store.investigations ≡ some prior
    → (o : InvestigationOutcome × InvestigationStore) × (stored_outcome c
          (complete_found id (some prior) c now store)
        ≡ ok o)
      × IsDone id o
      × IsSingle o.1
unfolding stored_outcome complete_found outcome_with with_completion get_investigation get_evidence
    get_report
completed-IsDone id prior c now store h single here =
    let i = with_completion c now prior in
    let after : InvestigationStore = record store {
      investigations = insert id i store.investigations;
      steps = insert id c.steps store.steps;
      evidence = insert id c.evidence store.evidence;
      reports = store_report id c.report store.reports;
    } in
    let found = insert_found id i store.investigations in
    (
      (outcome_with c i, after),
      refl,
      record {
        stored = found;
        terminal = h.terminal;
        evidence =
            stored_list_found id i c.evidence after.investigations after.evidence found
              (insert_found id c.evidence store.evidence);
        report_if_completed = λ e.
            let (r, reported, grounded) = h.report_if_completed e in
            (
              r,
              ap (λ o. lookup id (store_report id o store.reports)) reported
                  ∙ insert_found id r store.reports,
              grounded,
            );
      },
      replace-IsSingle id i prior store.investigations single here h.terminal,
    )

-- Every run of a stored investigation, whatever the model and the tools answer and even if it
-- crashes, returns and leaves the investigation done: stored in a terminal status with its
-- evidence, and with a grounded report if it is completed. Then at most one investigation of each
-- incident is active, if it was so before.
pub run_to_completion-IsDone :
    (c : Setup) (i prior : Investigation) (now done : ℕ) (store : InvestigationStore)
    → 1 ≤ c.limits.max_tool_calls
    → get_investigation i.id store ≡ some prior
    → IsSingle store
    → (o : InvestigationOutcome × InvestigationStore) × (run_to_completion c i now done store
        ≡ ok o)
      × IsDone i.id o
      × IsSingle o.1
unfolding run_to_completion complete_investigation get_investigation
run_to_completion-IsDone c i prior now done store budget stored single =
    let storable = completion-IsStorable c i now budget in
    rw stored
      (completed-IsDone i.id prior (stored_completion c i now) done store storable single stored)

-- The two ways in which `investigate` returns
pub data IsInvestigated (id incident_id : String) (store : InvestigationStore)
    (answer : Result RepositoryError (InvestigationOutcome × InvestigationStore)) : Type 0 where
  running :
      (active : Investigation)
      → get_active_investigation incident_id store ≡ some active
      → answer
        ≡ ok (record { investigation = active; report = none; steps = []; evidence = [] }, store)
      → IsInvestigated id incident_id store answer
  investigated :
      (o : InvestigationOutcome × InvestigationStore)
      → get_active_investigation incident_id store ≡ none
      → answer ≡ ok o
      → IsDone id o
      → IsSingle o.1
      → IsInvestigated id incident_id store answer

-- `investigate` under a fresh id and a limit of at least one tool call, over a store with at most
-- one active investigation for each incident, always returns, also when its run crashes. If an
-- investigation of the incident is active, it returns that one and changes nothing. Else it leaves
-- a new one done: stored in a terminal status with its evidence, and with a grounded report if it
-- is completed; and still at most one is active for each incident.
pub investigate-IsInvestigated :
    (c : Setup) (id incident_id : String) (trigger : InvestigationTrigger) (now done : ℕ)
    (store : InvestigationStore)
    → 1 ≤ c.limits.max_tool_calls
    → get_investigation id store ≡ none
    → IsSingle store
    → IsInvestigated id incident_id store (investigate c id incident_id trigger now done store)
unfolding investigate begin run_begun begin_or_running begin_investigation begin_unless
    get_investigation get_active_investigation begun
investigate-IsInvestigated c id incident_id trigger now done store budget fresh single =
    elim (Option-cases (get_active_investigation incident_id store)) [
      | inr (active, e) ↦ running active e (rw e refl)
      | inl e ↦
          let i = begun id incident_id trigger c.mode now in
          let after : InvestigationStore = record store {
            investigations = insert id i store.investigations;
            order = store.order ++ id ∷ [];
          } in
          let kept : IsSingle after =
            insert-IsSingle i store.investigations single fresh
              (find_active-none incident_id store.investigations e) in
          let (o, returned, finished_as, still) =
            run_to_completion-IsDone c i i now done after budget
              (insert_found id i store.investigations) kept in
          investigated o e (rw e returned) finished_as still
    ]
