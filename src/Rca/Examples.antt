-- ===== src/Rca/Examples.antt =====
-- The theorems about the investigation at concrete inputs.
use mathlib.Core.List.{Memᴰ}
use sentinelops_ai.Prelude.{◌≡◌, refl, ◌↔◌, true, false, none, [], ◌∷◌, arith, ok, strip, no_text}
use sentinelops_ai.Prelude.Dict.{count_where}
use sentinelops_ai.Rca.Domain.{manual, pending, unknown}
use sentinelops_ai.Rca.Schemas.{Investigation, RcaReport}
use sentinelops_ai.Rca.Tools.{
  get_incident, get_traces, get_service_metrics, ToolRegistry, make_registry, check_tools, entry,
  ToolContext, run_tool,
}
use sentinelops_ai.Rca.Tools.Registry.{make_registry_complete, IsCalled, run_tool_serves}
use sentinelops_ai.Rca.Plan.{validate_plan}
use sentinelops_ai.Rca.Plan.Accepted.{IsPlan, validate_plan-IsPlan}
use sentinelops_ai.Rca.Validation.{validate_report}
use sentinelops_ai.Rca.Validation.Accepted.{validate_report_iff}
use sentinelops_ai.Rca.Validation.Grounded.{IsGrounded}
use sentinelops_ai.Rca.Synthesis.{build_rca_report}
use sentinelops_ai.Rca.Synthesis.Valid.{stated, build_rca_report_valid}
use sentinelops_ai.Rca.Engine.{GraphDeps, Meters, InvestigationState, initialize_node}
use sentinelops_ai.Rca.Nodes.Reasoning.{analyze, verify}
use sentinelops_ai.Rca.Validation.Grounded.{KnownHypothesis}
use sentinelops_ai.Rca.Engine.{ids_of}
use sentinelops_ai.Prelude.{Every}
use sentinelops_ai.Rca.Graph.{run_node}
use sentinelops_ai.Rca.Graph.Ready.{Lawful}
use sentinelops_ai.Rca.Graph.Run.{IsEnded, run_node-Lawful}
use sentinelops_ai.Rca.Graph.Followup.{analyze_forgets}
use sentinelops_ai.Rca.Service.{deps_for, initial_state, run_engine, investigate}
use sentinelops_ai.Rca.Repository.{get_investigation}
use sentinelops_ai.Rca.Service.Concludes.{
  IsInvestigated, investigate-IsInvestigated, run_engine-IsEnded,
}
use sentinelops_ai.Rca.Scenario.{
  setup, empty_store, tools, tool_for, registry, metrics_calls, evidence_of, a_finding,
  synthesis_with, limits,
}

abbrev an_investigation : Investigation
an_investigation = record {
  id = "rca_1";
  incident_id = "inc_1";
  status = pending;
  trigger = manual;
  mode = "mock";
  model = none;
  termination_reason = none;
  tool_call_count = 0;
  step_count = 0;
  evidence_count = 0;
  overall_confidence = unknown;
  started_at = none;
  completed_at = none;
  created_at = 0;
  updated_at = 0;
}

abbrev deps : GraphDeps
deps = record {
  incident_id = "inc_1";
  investigation_id = "rca_1";
  mode = "mock";
  registry = registry;
  llm = (setup "few samples").llm;
  limits = limits;
  clock = λ n. n;
  max_repair_attempts = 1;
}

abbrev meters : Meters
meters = record {
  seq = 0;
  usage = record { tool_calls = 0; steps = 0; evidence_items = 0; started_at = 0 };
  tool_context = record { max_evidence_items = 40; issued = 0 };
  readings = 0;
  questions = 0;
}

abbrev report : RcaReport
report =
    (build_rca_report deps [] (evidence_of get_service_metrics 2 ∷ []) (a_finding ∷ []) []
      (synthesis_with "few samples") meters).0

validate_report_iff_example :
    (validate_report report ("ev_002" ∷ []) ≡ ok tt) ↔ IsGrounded ("ev_002" ∷ []) report
validate_report_iff_example = validate_report_iff report ("ev_002" ∷ [])

build_rca_report_valid_example :
    (validate_report report ("ev_002" ∷ []) ≡ ok tt)
    ↔ (no_text (strip (stated "few samples")) ≡ false)
build_rca_report_valid_example =
    build_rca_report_valid deps [] (evidence_of get_service_metrics 2 ∷ []) [] meters tt
      (a_finding ∷ []) (synthesis_with "few samples")

validate_plan-IsPlan_example : IsPlan registry 3 (validate_plan metrics_calls registry 3).accepted
validate_plan-IsPlan_example = validate_plan-IsPlan metrics_calls registry 3

abbrev built : ToolRegistry
built = record { get = λ n. entry (tool_for get_incident) n tools }

make_registry_complete_example :
    ((built.get get_traces).name ≡ get_traces)
    × ((built.get get_traces).is_read_only ≡ true)
    × Memᴰ (built.get get_traces) tools
unfolding make_registry check_tools
make_registry_complete_example = make_registry_complete tools built refl get_traces

abbrev context : ToolContext
context = record { max_evidence_items = 40; issued = 0 }

run_tool_serves_example :
    IsCalled (tool_for get_traces) 1 [] context (run_tool (tool_for get_traces) 1 [] context)
run_tool_serves_example =
    run_tool_serves (tool_for get_traces) 1 [] context (λ request code e. ground arith)

investigate-IsInvestigated_example :
    IsInvestigated "rca_1" "inc_1" empty_store
      (investigate (setup "few samples") "rca_1" "inc_1" manual 0 9 empty_store)
unfolding get_investigation count_where
investigate-IsInvestigated_example =
    investigate-IsInvestigated (setup "few samples") "rca_1" "inc_1" manual 0 9 empty_store
      (omega arith) refl (λ i. omega arith)

run_engine-IsEnded_example :
    IsEnded
      (deps_for (setup "few samples") an_investigation)
      (run_engine (setup "few samples") an_investigation 0)
run_engine-IsEnded_example =
    run_engine-IsEnded (setup "few samples") an_investigation 0 (omega arith)

run_node-Lawful_example :
    Lawful pending (run_node deps initialize_node initial_state meters).0.status
unfolding initial_state
run_node-Lawful_example =
    run_node-Lawful deps initialize_node initial_state meters
      (record { status = refl; grown = (refl, refl); calls = omega arith })

-- A state whose queue holds a follow-up call
abbrev following_up : InvestigationState
unfolding initial_state
following_up = record initial_state {
  queue = record { tool_name = get_traces; arguments = [] } ∷ [];
}

analyze_forgets_example :
    let (analyzed_state, later) = analyze deps following_up meters in
    let verified_state = (verify deps analyzed_state later).0 in
    (analyzed_state.evidence ≡ [])
    × (verified_state.evidence ≡ [])
    × Every (KnownHypothesis (ids_of [])) verified_state.hypotheses
unfolding initial_state
analyze_forgets_example = analyze_forgets deps following_up meters tt
