-- ===== src/Rca/Tools.antt =====
-- tools/names.py, context.py, results.py, base.py and registry.py: the fixed registry of read-only
-- evidence tools and the wrapper around each call. What a tool's `_run` fetches over HTTP is the
-- field `fetch`, which also sees the number of the call, so that it may answer differently.
pub mod Registry
use sentinelops_ai.Prelude.{
  ℕ, suc, ◌-◌, ◌≡◌, ◌↔◌, String, Bool, true, false, Option, none, some, List, [], ◌∷◌, map, arith,
  Eq, nat_eq, string_eq, ◌==◌, elem, any_of, is_empty, keep_if, not, if◌then◌else◌, Result, ok, err,
  ◌>>=◌, ◌>>◌, raise_if,
}
use sentinelops_ai.Prelude.Dict.{Dict}
use sentinelops_ai.Rca.Schemas.{Evidence}

pub data ToolName : Type 0 where
  get_incident get_incident_timeline get_anomaly_evidence get_related_incidents : ToolName
  get_service_metrics get_service_health : ToolName
  get_recent_logs get_traces get_recent_deployments get_service_dependencies : ToolName

-- The place of a name in the class body
abbrev tool_place : ToolName → ℕ
tool_place get_incident = 0
tool_place get_incident_timeline = 1
tool_place get_anomaly_evidence = 2
tool_place get_related_incidents = 3
tool_place get_service_metrics = 4
tool_place get_service_health = 5
tool_place get_recent_logs = 6
tool_place get_traces = 7
tool_place get_recent_deployments = 8
tool_place get_service_dependencies = 9

abbrev same_tool : ToolName → ToolName → Bool
same_tool a b = tool_place a == tool_place b

pub same_tool_iff : (a b : ToolName) → (same_tool a b ≡ true) ↔ (a ≡ b)
same_tool_iff a b = ground arith

instance abbrev pub tool_eq : Eq ToolName
tool_eq = record { test = same_tool; test_iff = same_tool_iff }

-- `str(name)`
abbrev pub tool_text : ToolName → String
tool_text get_incident = "get_incident"
tool_text get_incident_timeline = "get_incident_timeline"
tool_text get_anomaly_evidence = "get_anomaly_evidence"
tool_text get_related_incidents = "get_related_incidents"
tool_text get_service_metrics = "get_service_metrics"
tool_text get_service_health = "get_service_health"
tool_text get_recent_logs = "get_recent_logs"
tool_text get_traces = "get_traces"
tool_text get_recent_deployments = "get_recent_deployments"
tool_text get_service_dependencies = "get_service_dependencies"

-- `tuple(ToolName)`
abbrev pub tool_names : List ToolName
tool_names =
    get_incident ∷ get_incident_timeline ∷ get_anomaly_evidence ∷ get_related_incidents
    ∷ get_service_metrics ∷ get_service_health ∷ get_recent_logs ∷ get_traces
    ∷ get_recent_deployments ∷ get_service_dependencies ∷ []

pub data ToolAvailability : Type 0 where
  available unavailable : ToolAvailability

abbrev pub is_available : ToolAvailability → Bool
is_available available = true
is_available unavailable = false

-- `ToolContext`: ids are given out up to the evidence budget.
pub record ToolContext : Type 0 where
  pub max_evidence_items : ℕ
  pub issued : ℕ

-- `next_evidence_id`: the number in the id, and the context afterwards
abbrev pub next_evidence_id : ToolContext → ℕ × ToolContext
next_evidence_id c = (suc c.issued, record c { issued = suc c.issued })

abbrev pub remaining_evidence : ToolContext → ℕ
remaining_evidence c = c.max_evidence_items - c.issued

pub data ToolResultStatus : Type 0 where
  ok_status invalid_input unsupported_service source_unavailable not_found : ToolResultStatus
  upstream_timeout upstream_unavailable malformed_response limit_exceeded : ToolResultStatus

-- `code in _RETRIABLE`
abbrev pub is_retriable : ToolResultStatus → Bool
is_retriable upstream_timeout = true
is_retriable upstream_unavailable = true
is_retriable _ = false

pub record ToolError : Type 0 where
  pub code : ToolResultStatus
  pub retriable : Bool

-- A request's fields, each as the JSON text of its value
abbrev pub Arguments : Type 0
Arguments = Dict String

pub record ToolResult : Type 0 where
  pub tool_name : ToolName
  pub status : ToolResultStatus
  pub evidence : List Evidence
  pub error : Option ToolError
  pub query : Arguments

-- `ToolResult.ok`
abbrev pub is_ok : ToolResultStatus → Bool
is_ok ok_status = true
is_ok _ = false

-- `ToolResult.failure`
unfoldable pub failure : ToolName → ToolResultStatus → Arguments → ToolResult
failure name code query = record {
  tool_name = name;
  status = code;
  evidence = [];
  error = some (record { code = code; retriable = is_retriable code });
  query = query;
}

-- What `_run` does: return, raise a `ToolExecutionError`, or raise something else.
pub data Fetched : Type 0 where
  fetched : ToolResult → Fetched
  tool_error : ToolResultStatus → Fetched
  other_exception : Fetched

-- `validated` is `request_model.model_validate` with the dump of its result.
pub record EvidenceTool : Type 0 where
  pub name : ToolName
  pub description : String
  pub availability : ToolAvailability
  pub is_read_only : Bool
  pub validated : Arguments → Result String Arguments
  pub fetch : ℕ → Arguments → ToolContext → Fetched × ToolContext

-- The `except` clauses of `EvidenceTool.run`
unfoldable pub caught : ToolName → Arguments → Fetched → ToolResult
unfolding failure
caught name request (fetched r) = r
caught name request (tool_error code) = failure name code request
caught name request other_exception = record {
  tool_name = name;
  status = upstream_unavailable;
  evidence = [];
  error = some (record { code = upstream_unavailable; retriable = true });
  query = request;
}

unfoldable pub run_valid :
    EvidenceTool → ℕ → Arguments → ToolContext → Result String Arguments → ToolResult × ToolContext
unfolding caught
run_valid t call raw ctx (err message) = (failure t.name invalid_input raw, ctx)
run_valid t call raw ctx (ok request) =
    let (outcome, after) = t.fetch call request ctx in (caught t.name request outcome, after)

-- `EvidenceTool.run`
unfoldable pub run_tool : EvidenceTool → ℕ → Arguments → ToolContext → ToolResult × ToolContext
unfolding run_valid
run_tool t call raw ctx = elim t.availability [
  | unavailable ↦ (failure t.name source_unavailable raw, ctx)
  | available ↦ run_valid t call raw ctx (t.validated raw)
]

pub data RegistryError : Type 0 where
  duplicate_tool not_read_only missing_tools : RegistryError

-- `_by_name`, which has a tool for every name once it is built
pub record ToolRegistry : Type 0 where
  pub get : ToolName → EvidenceTool

-- The checks of the loop in `ToolRegistry.__init__`; `seen` is `by_name`.
unfoldable pub check_tools :
    List ToolName → List EvidenceTool → Result RegistryError (List ToolName)
check_tools seen [] = ok seen
check_tools seen (t ∷ ts) = do
  raise_if (elem t.name seen) duplicate_tool
  raise_if (not t.is_read_only) not_read_only
  check_tools (t.name ∷ seen) ts

-- `by_name[name]`; the first argument stands for a missing entry.
unfoldable pub entry : EvidenceTool → ToolName → List EvidenceTool → EvidenceTool
entry d n [] = d
entry d n (t ∷ ts) = let rest = entry d n ts in if t.name == n then t else rest

-- `ToolRegistry.__init__`
unfoldable pub make_registry : List EvidenceTool → Result RegistryError ToolRegistry
unfolding check_tools entry
make_registry [] = err missing_tools
make_registry (t ∷ ts) = do
  seen ← check_tools [] (t ∷ ts)
  raise_if (not (is_empty (keep_if (λ n. not (elem n seen)) tool_names))) missing_tools
  ok (record { get = λ n. entry t n (t ∷ ts) })

-- `ToolName(text)` for a text that is one
abbrev pub named_in : String → List ToolName → Option ToolName
named_in text [] = none
named_in text (n ∷ ns) = if tool_text n == text then some n else named_in text ns

unfoldable pub tool_named : String → Option ToolName
tool_named text = named_in text tool_names

abbrev entries : ToolRegistry → List EvidenceTool
entries r = map (λ n. r.get n) tool_names

-- `ToolRegistry.unavailable`
unfoldable pub unavailable_tools : ToolRegistry → List EvidenceTool
unavailable_tools r = keep_if (λ (t : EvidenceTool). not (is_available t.availability)) (entries r)

-- `ToolSpec`, with the input schema left out
pub record ToolSpec : Type 0 where
  pub name : ToolName
  pub description : String
  pub availability : ToolAvailability
  pub read_only : Bool

unfoldable pub specs : ToolRegistry → List ToolSpec
specs r =
    map
      (λ (t : EvidenceTool). record {
        name = t.name;
        description = t.description;
        availability = t.availability;
        read_only = t.is_read_only;
      })
      (entries r)
