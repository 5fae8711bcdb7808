-- ===== src/Rca/Service.antt =====
-- engine/service.py: `InvestigationService` over the in-memory repository. The registry, the model
-- and the settings are those of `Setup`; a run reads its clock on its own count.
pub mod Concludes
use sentinelops_ai.Prelude.{
  ℕ, String, Bool, true, false, not, Option, none, some, List, [], ◌∷◌, if◌then◌else◌, Result, ok,
  err,
}
use sentinelops_ai.Rca.Domain.{
  InvestigationStatus, pending, failed, timed_out, is_terminal, InvestigationTrigger, Confidence,
  unknown,
}
use sentinelops_ai.Rca.Errors.{
  TerminalReason, engine_error, recursion_limit_reached, unknown_reason, non_terminal,
}
use sentinelops_ai.Rca.Schemas.{
  ResourceLimits, Evidence, Investigation, InvestigationStep, RcaReport,
}
use sentinelops_ai.Rca.Tools.{ToolRegistry}
use sentinelops_ai.Rca.Reasoner.{LlmClient}
use sentinelops_ai.Rca.Engine.{GraphDeps, Meters, InvestigationState, initialize_node}
use sentinelops_ai.Rca.Graph.{GraphOutcome, finished, recursion_error, run_graph, recursion_limit}
use sentinelops_ai.Rca.Repository.{
  InvestigationStore, RepositoryError, duplicate_active, Completion, begin_investigation,
  get_active_investigation, get_latest_investigation, complete_investigation,
}

-- What the service is constructed with, the clock of the run, and whether the run of an
-- investigation that starts at a time raises an exception that no node catches
pub record Setup : Type 0 where
  pub registry : ToolRegistry
  pub llm : LlmClient
  pub mode : String
  pub limits : ResourceLimits
  pub clock : ℕ → ℕ
  pub crashes : Investigation → ℕ → Bool

-- The `GraphDeps` of a run; `max_repair_attempts` keeps its default.
unfoldable pub deps_for : Setup → Investigation → GraphDeps
deps_for c i = record {
  incident_id = i.incident_id;
  investigation_id = i.id;
  mode = c.mode;
  registry = c.registry;
  llm = c.llm;
  limits = c.limits;
  clock = c.clock;
  max_repair_attempts = 1;
}

unfoldable pub fresh_meters : Setup → ℕ → Meters
fresh_meters c now = record {
  seq = 0;
  usage = record { tool_calls = 0; steps = 0; evidence_items = 0; started_at = now };
  tool_context = record { max_evidence_items = c.limits.max_evidence_items; issued = 0 };
  readings = 0;
  questions = 0;
}

-- `initial`; what is missing there reads as its default.
unfoldable pub initial_state : InvestigationState
initial_state = record {
  status = pending;
  terminal_reason = none;
  next = none;
  incident = [];
  plan_rationale = "";
  queue = [];
  reanalysis_count = 0;
  repair_count = 0;
  repair_errors = [];
  evidence = [];
  steps = [];
  proposed_findings = [];
  proposed_hypotheses = [];
  hypotheses = [];
  synthesis = none;
  rca = none;
}

abbrev reason_or_unknown : Option TerminalReason → TerminalReason
reason_or_unknown none = unknown_reason
reason_or_unknown (some r) = r

abbrev confidence_of : Option RcaReport → Confidence
confidence_of none = unknown
confidence_of (some r) = r.overall_confidence

-- The defensive check of the final status
unfoldable pub settled : Completion → Completion
unfolding is_terminal
settled c =
    if is_terminal c.status
    then c
    else record c { status = failed; termination_reason = non_terminal c.status }

-- What a run of the graph stores
unfoldable pub completion_of : Setup → GraphOutcome → Completion
unfolding settled
completion_of c recursion_error = record {
  status = timed_out;
  termination_reason = recursion_limit_reached;
  overall_confidence = unknown;
  model = c.llm.model;
  steps = [];
  evidence = [];
  report = none;
}
completion_of c (finished s m) = settled (record {
  status = s.status;
  termination_reason = reason_or_unknown s.terminal_reason;
  overall_confidence = confidence_of s.rca;
  model = c.llm.model;
  steps = s.steps;
  evidence = s.evidence;
  report = s.rca;
})

-- The run of the graph for a begun investigation that starts at time `now`
unfoldable pub run_engine : Setup → Investigation → ℕ → GraphOutcome
unfolding deps_for fresh_meters initial_state run_graph recursion_limit
run_engine c i now =
    run_graph (deps_for c i) (recursion_limit (deps_for c i)) initialize_node initial_state
      (fresh_meters c now)

pub record InvestigationOutcome : Type 0 where
  pub investigation : Investigation
  pub report : Option RcaReport
  pub steps : List InvestigationStep
  pub evidence : List Evidence

unfoldable pub outcome_with : Completion → Investigation → InvestigationOutcome
outcome_with c i = record {
  investigation = i;
  report = c.report;
  steps = c.steps;
  evidence = c.evidence;
}

unfoldable pub stored_outcome :
    Completion
    → Result RepositoryError (Investigation × InvestigationStore)
    → Result RepositoryError (InvestigationOutcome × InvestigationStore)
unfolding outcome_with
stored_outcome c (err e) = err e
stored_outcome c (ok (i, store)) = ok (outcome_with c i, store)

-- What `except Exception` stores
abbrev pub crashed_completion : Setup → Completion
crashed_completion c = record {
  status = failed;
  termination_reason = engine_error;
  overall_confidence = unknown;
  model = c.llm.model;
  steps = [];
  evidence = [];
  report = none;
}

-- The `try` around the run, with its `except` clauses
abbrev pub stored_completion : Setup → Investigation → ℕ → Completion
stored_completion c i now =
    if c.crashes i now then crashed_completion c else completion_of c (run_engine c i now)

-- `run_to_completion`; `now` is the time of the start and `done` that of the end.
unfoldable pub run_to_completion :
    Setup
    → Investigation
    → ℕ
    → ℕ
    → InvestigationStore
    → Result RepositoryError (InvestigationOutcome × InvestigationStore)
unfolding run_engine completion_of stored_outcome complete_investigation
run_to_completion c i now done store =
    let completion = stored_completion c i now in
    stored_outcome completion (complete_investigation i.id completion done store)

-- What `begin` returns: a fresh investigation, or the one that is already running.
pub data Begun : Type 0 where
  started : Investigation → Begun
  already_running : InvestigationOutcome → Begun

unfoldable pub begin_or_running :
    Result RepositoryError (Investigation × InvestigationStore)
    → Option Investigation
    → InvestigationStore
    → Result RepositoryError (Begun × InvestigationStore)
begin_or_running (ok (i, after)) active store = ok (started i, after)
begin_or_running (err duplicate_active) (some i) store = ok (
  already_running (record { investigation = i; report = none; steps = []; evidence = [] }),
  store,
)
begin_or_running (err e) active store = err e

-- `begin`
unfoldable pub begin :
    Setup
    → String
    → String
    → InvestigationTrigger
    → ℕ
    → InvestigationStore
    → Result RepositoryError (Begun × InvestigationStore)
unfolding begin_or_running begin_investigation get_active_investigation
begin c id incident_id trigger now store =
    begin_or_running (begin_investigation id incident_id trigger c.mode now store)
      (get_active_investigation incident_id store) store

unfoldable pub run_begun :
    Setup
    → ℕ
    → ℕ
    → Result RepositoryError (Begun × InvestigationStore)
    → Result RepositoryError (InvestigationOutcome × InvestigationStore)
unfolding run_to_completion
run_begun c now done (err e) = err e
run_begun c now done (ok (already_running outcome, store)) = ok (outcome, store)
run_begun c now done (ok (started i, store)) = run_to_completion c i now done store

-- `investigate`
unfoldable pub investigate :
    Setup
    → String
    → String
    → InvestigationTrigger
    → ℕ
    → ℕ
    → InvestigationStore
    → Result RepositoryError (InvestigationOutcome × InvestigationStore)
unfolding begin run_begun
investigate c id incident_id trigger now done store =
    run_begun c now done (begin c id incident_id trigger now store)

-- `get_existing_investigation`
unfoldable pub get_existing_investigation : String → InvestigationStore → Option Investigation
unfolding get_latest_investigation
get_existing_investigation incident_id store = get_latest_investigation incident_id store
