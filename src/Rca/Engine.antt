-- ===== src/Rca/Engine.antt =====
-- engine/deps.py, steps.py, tooling.py and state.py: what the nodes of the investigation share. The
-- mutable parts of `GraphDeps` are `Meters`, which every operation takes and gives back; the n-th
-- reading of the clock is `clock n`, and the n-th question to the model is counted likewise.
use sentinelops_ai.Prelude.{ℕ, suc, ◌+◌, String, Option, List, [], ◌∷◌, length, Result, ok, err}
use sentinelops_ai.Prelude.Dict.{Dict}
use sentinelops_ai.Rca.Domain.{InvestigationStatus, StepKind}
use sentinelops_ai.Rca.Errors.{LimitKind, TerminalReason, ValidationIssue}
use sentinelops_ai.Rca.Schemas.{ResourceLimits, Evidence, Hypothesis, InvestigationStep, RcaReport}
use sentinelops_ai.Rca.Limits.{ResourceUsage, check_limits}
use sentinelops_ai.Rca.Tools.{ToolRegistry, ToolContext, ToolResult, run_tool}
use sentinelops_ai.Rca.Reasoner.{LlmClient, ProposedFinding, ProposedHypothesis, SynthesisResult}
use sentinelops_ai.Rca.Plan.{ValidatedCall}

-- The parts of `GraphDeps` that do not change
pub record GraphDeps : Type 0 where
  pub incident_id : String
  pub investigation_id : String
  pub mode : String
  pub registry : ToolRegistry
  pub llm : LlmClient
  pub limits : ResourceLimits
  pub clock : ℕ → ℕ
  pub max_repair_attempts : ℕ

pub record Meters : Type 0 where
  pub seq : ℕ
  pub usage : ResourceUsage
  pub tool_context : ToolContext
  pub readings : ℕ
  pub questions : ℕ

-- The nodes' names; `END` is the missing successor.
pub data Node : Type 0 where
  initialize_node plan_node collect_node analyze_node : Node
  verify_node synthesize_node validate_node : Node

pub record InvestigationState : Type 0 where
  pub status : InvestigationStatus
  pub terminal_reason : Option TerminalReason
  pub next : Option Node
  pub incident : Dict String
  pub plan_rationale : String
  pub queue : List ValidatedCall
  pub reanalysis_count : ℕ
  pub repair_count : ℕ
  pub repair_errors : List ValidationIssue
  pub evidence : List Evidence
  pub steps : List InvestigationStep
  pub proposed_findings : List ProposedFinding
  pub proposed_hypotheses : List ProposedHypothesis
  pub hypotheses : List Hypothesis
  pub synthesis : Option SynthesisResult
  pub rca : Option RcaReport

-- `deps.now()`
abbrev pub now : GraphDeps → Meters → ℕ × Meters
now d m = (d.clock m.readings, record m { readings = suc m.readings })

-- A question has been put to the model.
abbrev pub asked : Meters → Meters
asked m = record m { questions = suc m.questions }

-- `{e.id for e in evidence}`
abbrev pub ids_of : List Evidence → List String
ids_of [] = []
ids_of (e ∷ es) = e.id ∷ ids_of es

-- `step`: the next entry of the trace
unfoldable pub step :
    GraphDeps
    → StepKind
    → InvestigationStatus
    → Option String
    → List String
    → Meters
    → InvestigationStep × Meters
step d kind phase tool_name evidence_ids m =
    let seq = suc m.seq in
    let usage : ResourceUsage = record m.usage { steps = seq } in
    let (at, after) = now d (record m { seq = seq; usage = usage }) in
    (
      record {
        seq = seq;
        kind = kind;
        phase = phase;
        tool_name = tool_name;
        evidence_ids = evidence_ids;
        at = at;
      },
      after,
    )

-- `deps.usage.tool_calls += 1`
abbrev count_call : Meters → Meters
count_call m = record m { usage = record m.usage { tool_calls = suc m.usage.tool_calls } }

-- `run_validated_call` after `check_limits` has passed or raised
unfoldable pub run_permitted :
    GraphDeps
    → ValidatedCall
    → Meters
    → Result LimitKind (Unit {0})
    → Result LimitKind ToolResult × Meters
unfolding run_tool
run_permitted d call m (err kind) = (err kind, m)
run_permitted d call m (ok _) =
    let counted = count_call m in
    let (result, context) =
      run_tool (d.registry.get call.tool_name) counted.usage.tool_calls call.arguments
        counted.tool_context in
    let items = counted.usage.evidence_items + length result.evidence in
    (
      ok result,
      record counted {
        usage = record counted.usage { evidence_items = items };
        tool_context = context;
      },
    )

unfoldable pub run_validated_call :
    GraphDeps → ValidatedCall → Meters → Result LimitKind ToolResult × Meters
unfolding run_permitted check_limits
run_validated_call d call m =
    let (at, after) = now d m in run_permitted d call after (check_limits after.usage d.limits at)
