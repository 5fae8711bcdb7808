-- ===== src/Rca/Nodes/Gathering.antt =====
-- engine/nodes.py: the nodes that load the incident, plan and collect.
use sentinelops_ai.Prelude.{
  Bool, true, not, ◌&&◌, none, some, List, [], ◌∷◌, ◌++◌, ltb, is_empty, if◌then◌else◌, Result, ok,
  err,
}
use sentinelops_ai.Rca.Domain.{
  pending, planning, collecting_evidence, analyzing, insufficient_evidence, failed, timed_out,
  plan_step, tool_call_step, limit_step,
}
use sentinelops_ai.Rca.Errors.{
  LimitKind, out_of_time, LlmError, limit_before_incident, incident_not_loaded, no_valid_plan,
  timed_out_while_collecting,
}
use sentinelops_ai.Rca.Schemas.{Evidence, InvestigationStep}
use sentinelops_ai.Rca.Tools.{ToolResult, is_ok, get_incident, tool_text, remaining_evidence, specs}
use sentinelops_ai.Rca.Reasoner.{PlanRequest, PlanResult, Rejection, no_usable_calls}
use sentinelops_ai.Rca.Plan.{ValidatedCall, PlanValidation, validate_plan}
use sentinelops_ai.Rca.Engine.{
  GraphDeps, Meters, InvestigationState, plan_node, collect_node, analyze_node, asked, ids_of, step,
  run_validated_call,
}
use sentinelops_ai.Rca.Nodes.{terminal, with_step, llm_terminal, guarded, remaining_calls}

-- `initialize` with the evidence that `get_incident` returned
unfoldable pub incident_loaded :
    GraphDeps
    → InvestigationStep
    → Bool
    → List Evidence
    → InvestigationState
    → Meters
    → InvestigationState × Meters
unfolding step
incident_loaded d started true (e ∷ es) s m =
    let (loaded, after) =
      step d tool_call_step planning (some (tool_text get_incident)) (e.id ∷ []) m in
    (
      record s {
        status = planning;
        incident = e.content;
        evidence = s.evidence ++ e ∷ [];
        steps = s.steps ++ started ∷ loaded ∷ [];
        queue = [];
        reanalysis_count = 0;
        repair_count = 0;
        next = some plan_node;
      },
      after,
    )
incident_loaded d started success es s m =
    (terminal failed incident_not_loaded (with_step started s), m)

unfoldable pub incident_asked :
    GraphDeps
    → InvestigationStep
    → Result LimitKind ToolResult
    → InvestigationState
    → Meters
    → InvestigationState × Meters
unfolding incident_loaded
incident_asked d started (err kind) s m =
    (terminal timed_out (limit_before_incident kind) (with_step started s), m)
incident_asked d started (ok r) s m = incident_loaded d started (is_ok r.status) r.evidence s m

-- `GetIncidentRequest(incident_id=…).model_dump(mode="json")`
abbrev pub incident_request : GraphDeps → ValidatedCall
incident_request d = record {
  tool_name = get_incident;
  arguments = ("incident_id", d.incident_id) ∷ [];
}

unfoldable pub initialize : GraphDeps → InvestigationState → Meters → InvestigationState × Meters
unfolding step incident_asked run_validated_call
initialize d s m =
    let (started, m1) = step d plan_step pending none [] m in
    let (outcome, m2) = run_validated_call d (incident_request d) m1 in
    incident_asked d started outcome s m2

-- `plan` after the attempts, with the last validation
unfoldable pub planned :
    GraphDeps
    → PlanResult
    → PlanValidation
    → InvestigationState
    → Meters
    → InvestigationState × Meters
unfolding step
planned d result v s m =
    let (entry, after) = step d plan_step planning none [] m in
    let noted : InvestigationState = record (with_step entry s) {
      plan_rationale = result.rationale;
    } in
    (
      if is_empty v.accepted
          then terminal insufficient_evidence no_valid_plan noted
          else record noted {
            status = collecting_evidence;
            queue = v.accepted;
            next = some collect_node;
          },
      after,
    )

abbrev pub plan_request : GraphDeps → InvestigationState → List Rejection → PlanRequest
plan_request d s errors = record {
  incident = s.incident;
  evidence = s.evidence;
  tool_specs = specs d.registry;
  repair_errors = errors;
}

-- The one repair attempt
unfoldable pub replanned :
    GraphDeps
    → PlanResult
    → Result LlmError PlanResult
    → InvestigationState
    → Meters
    → InvestigationState × Meters
unfolding llm_terminal planned validate_plan
replanned d result (err e) s m = (llm_terminal e s, m)
replanned d result (ok retry) s m =
    planned d result (validate_plan retry.calls d.registry (remaining_calls d m)) s m

abbrev pub repair_hints : List Rejection → List Rejection
repair_hints [] = no_usable_calls ∷ []
repair_hints (r ∷ rs) = r ∷ rs

unfoldable pub first_planned :
    GraphDeps
    → PlanResult
    → PlanValidation
    → InvestigationState
    → Meters
    → InvestigationState × Meters
unfolding replanned planned
first_planned d result v s m =
    if is_empty v.accepted
    then replanned d result (d.llm.plan m.questions (plan_request d s (repair_hints v.rejected))) s
        (asked m)
    else planned d result v s m

unfoldable pub plan_asked :
    GraphDeps
    → Result LlmError PlanResult
    → InvestigationState
    → Meters
    → InvestigationState × Meters
unfolding llm_terminal first_planned validate_plan
plan_asked d (err e) s m = (llm_terminal e s, m)
plan_asked d (ok result) s m =
    first_planned d result (validate_plan result.calls d.registry (remaining_calls d m)) s m

abbrev pub plan_body : GraphDeps → InvestigationState → Meters → InvestigationState × Meters
plan_body d s m = plan_asked d (d.llm.plan m.questions (plan_request d s [])) s (asked m)

unfoldable pub plan : GraphDeps → InvestigationState → Meters → InvestigationState × Meters
unfolding guarded plan_asked
plan d = guarded d plan_node planning (plan_body d)

-- A limit other than the time ends the collection.
unfoldable pub stop_collecting :
    GraphDeps → InvestigationState → Meters → InvestigationState × Meters
unfolding step
stop_collecting d s m =
    let (note, after) = step d limit_step collecting_evidence none [] m in
    (record (with_step note s) { status = analyzing; queue = []; next = some analyze_node }, after)

-- `collect` with the outcome of the call; `rest` is the queue without it.
unfoldable pub collected :
    GraphDeps
    → ValidatedCall
    → List ValidatedCall
    → Result LimitKind ToolResult
    → InvestigationState
    → Meters
    → InvestigationState × Meters
unfolding step stop_collecting
collected d call rest (err out_of_time) s m = (terminal timed_out timed_out_while_collecting s, m)
collected d call rest (err kind) s m = stop_collecting d s m
collected d call rest (ok r) s m =
    let (entry, after) =
      step d tool_call_step collecting_evidence (some (tool_text call.tool_name))
        (ids_of r.evidence) m in
    let noted : InvestigationState = record (with_step entry s) {
      queue = rest;
      evidence = s.evidence ++ r.evidence;
    } in
    (
      if not (is_empty rest) && ltb 0 (remaining_evidence after.tool_context)
          then record noted { next = some collect_node }
          else record noted { next = some analyze_node; status = analyzing },
      after,
    )

unfoldable pub collect_queue :
    GraphDeps → List ValidatedCall → InvestigationState → Meters → InvestigationState × Meters
unfolding collected run_validated_call
collect_queue d [] s m = (record s { status = analyzing; next = some analyze_node }, m)
collect_queue d (call ∷ rest) s m =
    let (outcome, after) = run_validated_call d call m in collected d call rest outcome s after

abbrev pub collect_body : GraphDeps → InvestigationState → Meters → InvestigationState × Meters
collect_body d s m = collect_queue d s.queue s m

unfoldable pub collect : GraphDeps → InvestigationState → Meters → InvestigationState × Meters
unfolding guarded collect_queue
collect d = guarded d collect_node collecting_evidence (collect_body d)
