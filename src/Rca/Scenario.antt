-- ===== src/Rca/Scenario.antt =====
-- One investigation: its tools, what the model answers, and a store.
use sentinelops_ai.Prelude.{
  ℕ, String, true, false, none, some, List, [], ◌∷◌, map, nat_eq, ◌==◌, if◌then◌else◌, Result, ok,
  err,
}
use sentinelops_ai.Rca.Domain.{
  medium, high, incident, trusted_system, observation, supported, restart_service,
}
use sentinelops_ai.Rca.Errors.{LlmError, llm_provider_error}
use sentinelops_ai.Rca.Schemas.{ResourceLimits, Evidence}
use sentinelops_ai.Rca.Tools.{
  ToolName, tool_names, tool_text, EvidenceTool, ToolRegistry, ToolContext, Arguments, available,
  ok_status, Fetched, fetched, next_evidence_id,
}
use sentinelops_ai.Rca.Reasoner.{
  LlmClient, PlannedCall, SynthesisResult, ProposedHypothesis, ProposedFinding, concluded_completed,
}
use sentinelops_ai.Rca.Repository.{InvestigationStore}
use sentinelops_ai.Rca.Service.{Setup}

-- The text of the id with a number below four
abbrev evidence_id : ℕ → String
evidence_id n = if n == 1 then "ev_001" else if n == 2 then "ev_002" else "ev_003"

abbrev pub evidence_of : ToolName → ℕ → Evidence
evidence_of n k = record {
  id = evidence_id k;
  source_type = incident;
  source_reference = "incident-api";
  trust_level = trusted_system;
  tool_name = tool_text n;
  service = some "orders-service";
  summary = "";
  content = ("service", "orders-service") ∷ ("severity", "HIGH") ∷ [];
  observed_at = none;
  collected_at = 0;
}

-- A tool that answers with one item
abbrev fetch_one : ToolName → ℕ → Arguments → ToolContext → Fetched × ToolContext
fetch_one n call request ctx =
    let (k, after) = next_evidence_id ctx in
    (
      fetched (record {
        tool_name = n;
        status = ok_status;
        evidence = evidence_of n k ∷ [];
        error = none;
        query = request;
      }),
      after,
    )

abbrev pub tool_for : ToolName → EvidenceTool
tool_for n = record {
  name = n;
  description = "";
  availability = available;
  is_read_only = true;
  validated = ok;
  fetch = fetch_one n;
}

abbrev pub tools : List EvidenceTool
tools = map tool_for tool_names

abbrev pub registry : ToolRegistry
registry = record { get = tool_for }

abbrev planned_call : String → PlannedCall
planned_call tool = record { tool = tool; arguments = [] }

abbrev pub metrics_calls : List PlannedCall
metrics_calls =
    planned_call "get_service_metrics" ∷ planned_call "rm" ∷ planned_call "get_service_metrics" ∷ []

abbrev a_hypothesis : ProposedHypothesis
a_hypothesis = record {
  statement = "the pool is exhausted";
  supporting_evidence_ids = "ev_001" ∷ "ev_002" ∷ "ev_999" ∷ [];
  contradicting_evidence_ids = [];
  assessment = "";
}

abbrev pub a_finding : ProposedFinding
a_finding = record {
  statement = "errors rose";
  type = observation;
  evidence_ids = "ev_002" ∷ [];
  confidence = medium;
}

abbrev pub synthesis_with : String → SynthesisResult
synthesis_with uncertainty = record {
  conclusion = concluded_completed;
  summary = "";
  root_cause = some (record {
    statement = "pool exhausted";
    confidence = medium;
    evidence_ids = "ev_002" ∷ "ev_999" ∷ [];
    reasoning_summary = "";
  });
  contributing_factors = [];
  recommended_action = record {
    action_type = restart_service;
    target_service = some "orders-service";
    description = "";
    rationale = "";
    evidence_ids = "ev_002" ∷ [];
  };
  overall_confidence = high;
  uncertainty = uncertainty;
  timeline = [];
}

-- The first synthesis has this uncertainty; later questions fail if `later` says so.
abbrev synthesis_answer : ℕ → String → Result LlmError SynthesisResult
synthesis_answer n uncertainty =
    if n == 3 then ok (synthesis_with uncertainty) else err llm_provider_error

abbrev pub model : String → LlmClient
model uncertainty = record {
  provider = "mock";
  model = none;
  plan = λ n request. ok (record { calls = metrics_calls; rationale = "" });
  analyze = λ n request. ok (record { findings = a_finding ∷ []; hypotheses = a_hypothesis ∷ [] });
  verify = λ n request. ok (record {
    verdicts = record { index = 0; verdict = supported; assessment = "" } ∷ [];
    needs_more_evidence = false;
    additional_calls = [];
  });
  synthesize = λ n request. synthesis_answer n uncertainty;
}

abbrev pub limits : ResourceLimits
limits = record {
  max_tool_calls = 12;
  max_steps = 25;
  max_evidence_items = 40;
  timeout = 120000000;
  max_hypotheses = 5;
}

abbrev pub setup : String → Setup
setup uncertainty = record {
  registry = registry;
  llm = model uncertainty;
  mode = "mock";
  limits = limits;
  clock = λ n. n;
  crashes = λ i now. false;
}

abbrev pub empty_store : InvestigationStore
empty_store = record { investigations = []; steps = []; evidence = []; reports = []; order = [] }
