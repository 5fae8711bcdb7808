-- ===== src/Rca/Tests.antt =====
-- Runs of the investigation, and the theorems about it at concrete inputs.
use sentinelops_ai.Prelude.{ℕ, Bool, true, false, Option, none, some, Result, ok, err}
use sentinelops_ai.Rca.Domain.{
  unknown, InvestigationStatus, completed, failed, manual, Confidence, medium, is_terminal,
  active_statuses,
}
use sentinelops_ai.Rca.Repository.{InvestigationStore, RepositoryError}
use sentinelops_ai.Rca.Scenario.{setup, empty_store}
use sentinelops_ai.Rca.Service.{InvestigationOutcome}
use sentinelops_ai.Rca.Tools.{
  failure, caught, run_valid, run_tool, check_tools, entry, make_registry, tool_named,
  unavailable_tools, specs,
}
use sentinelops_ai.Rca.Plan.{
  check_arguments, check_named, check_call, validate_calls, validate_plan,
}
use sentinelops_ai.Rca.Synthesis.{
  finding, add_factor, add_finding, sort_findings, add_factors, unavailable_sources, build_metadata,
  backed_cause, reported_cause, clamped, recommended, timeline_of, services_of, build_rca_report,
  fallback_summary, build_fallback_report,
}
use sentinelops_ai.Rca.Engine.{step, run_permitted, run_validated_call}
use sentinelops_ai.Rca.Nodes.{llm_terminal, degraded, stopped, guarded}
use sentinelops_ai.Rca.Nodes.Gathering.{
  incident_loaded, incident_asked, initialize, planned, replanned, first_planned, plan_asked, plan,
  stop_collecting, collected, collect_queue, collect,
}
use sentinelops_ai.Rca.Nodes.Reasoning.{
  drain_call, drain, analyzed, analyze_drained, analyze, verdict_at, default_verdict, assess,
  assess_all, verified, verify,
}
use sentinelops_ai.Rca.Nodes.Report.{
  synthesized, synthesize, unreached, validate_unreached, fallen_back, fall_back, repair, validated,
  validate_reached, validate,
}
use sentinelops_ai.Rca.Graph.{route, recursion_limit, run_node, follow_edge, run_graph}
use sentinelops_ai.Rca.Repository.{
  find_active, get_active_investigation, begun, begin_unless, begin_investigation, count_tool_calls,
  with_completion, complete_found, complete_investigation, get_investigation, latest_of,
  get_latest_investigation, get_steps, get_evidence, get_report,
}
use sentinelops_ai.Rca.Service.{
  Setup, deps_for, fresh_meters, initial_state, settled, completion_of, run_engine, outcome_with,
  stored_outcome, run_to_completion, begin_or_running, begin, run_begun, investigate,
  get_existing_investigation,
}
use sentinelops_ai.Rca.Validation.{
  cited_by_findings, cited_by_hypotheses, cited_by_timeline, cited_by_root_cause,
  referenced_evidence_ids, validate_evidence_references, root_cause_issues, unbacked_findings,
  mistyped_factors, validate_consistency, validate_report,
}
use sentinelops_ai.Rca.Limits.{elapsed, check_limits}
use sentinelops_ai.Rca.StateMachine.{allowed_transitions, can_transition, validate_transition}
use sentinelops_ai.Prelude.{◌≡◌, refl, strip, lstrip, rstrip, is_space}
use sentinelops_ai.Prelude.Dict.{lookup, insert, has_key}
use sentinelops_ai.Prelude.Names.{text_before, insert_name, sorted_names}

-- What the tests look at
record Seen : Type 0 where
  status : InvestigationStatus
  confidence : Confidence
  tool_calls : ℕ
  evidence : ℕ
  has_report : Bool

seen : InvestigationOutcome → Seen
seen o = record {
  status = o.investigation.status;
  confidence = o.investigation.overall_confidence;
  tool_calls = o.investigation.tool_call_count;
  evidence = o.investigation.evidence_count;
  has_report = elim o.report [ none ↦ false | some r ↦ true ];
}

outcome_of : Result RepositoryError (InvestigationOutcome × InvestigationStore) → Option Seen
unfolding seen
outcome_of (ok (o, store)) = some (seen o)
outcome_of (err e) = none

run_with : Setup → Option Seen
unfolding failure caught run_valid run_tool check_tools entry make_registry tool_named
    unavailable_tools specs check_arguments check_named check_call validate_calls validate_plan
    finding add_factor add_finding sort_findings add_factors unavailable_sources build_metadata
    backed_cause reported_cause clamped recommended timeline_of services_of build_rca_report
    fallback_summary build_fallback_report step run_permitted run_validated_call llm_terminal
    degraded stopped guarded incident_loaded incident_asked initialize planned replanned
    first_planned plan_asked plan stop_collecting collected collect_queue collect drain_call drain
    analyzed analyze_drained analyze verdict_at default_verdict assess assess_all verified verify
    synthesized synthesize unreached validate_unreached fallen_back fall_back repair validated
    validate_reached validate route recursion_limit run_node follow_edge run_graph find_active
    get_active_investigation begun begin_unless begin_investigation count_tool_calls with_completion
    complete_found complete_investigation get_investigation latest_of get_latest_investigation
    get_steps get_evidence get_report deps_for fresh_meters initial_state settled completion_of
    run_engine outcome_with stored_outcome run_to_completion begin_or_running begin run_begun
    investigate get_existing_investigation cited_by_findings cited_by_hypotheses cited_by_timeline
    cited_by_root_cause referenced_evidence_ids validate_evidence_references root_cause_issues
    unbacked_findings mistyped_factors validate_consistency validate_report elapsed check_limits
    is_terminal active_statuses allowed_transitions can_transition validate_transition lookup insert
    has_key sorted_names insert_name text_before strip lstrip rstrip is_space outcome_of seen
run_with c = outcome_of (investigate c "rca_1" "inc_1" manual 0 9 empty_store)

-- A model that states its uncertainty: the investigation completes, with the confidence clamped to
-- that of the root cause.
completes :
    run_with (setup "low sample count")
    ≡ some (record {
      status = completed;
      confidence = medium;
      tool_calls = 2;
      evidence = 2;
      has_report = true;
    })
unfolding run_with
completes = refl

-- A blank uncertainty fails validation, and the model fails in the repair: the investigation ends
-- as FAILED, and the report that did not pass validation is returned and stored.
keeps_rejected_report :
    run_with (setup " ")
    ≡ some (record {
      status = failed;
      confidence = medium;
      tool_calls = 2;
      evidence = 2;
      has_report = true;
    })
unfolding run_with
keeps_rejected_report = refl

-- An exception that no node catches: the investigation is stored as FAILED, without evidence.
keeps_crash :
    run_with (record (setup "low sample count") { crashes = λ i now. true })
    ≡ some (record {
      status = failed;
      confidence = unknown;
      tool_calls = 0;
      evidence = 0;
      has_report = false;
    })
unfolding run_with
keeps_crash = refl
