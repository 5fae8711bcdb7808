-- ===== src/Rca/Nodes.antt =====
-- engine/nodes.py: what the nodes share, and the guard at the top of a node. A node takes the state
-- and the meters and gives back the state with its update merged in, and the meters.
pub mod Gathering
pub mod Reasoning
pub mod Report
use sentinelops_ai.Prelude.{
  ℕ, ◌-◌, String, Bool, true, not, ◌&&◌, Option, none, some, List, [], ◌∷◌, ◌++◌, ltb, is_empty,
  if◌then◌else◌, Result, ok, err,
}
use sentinelops_ai.Prelude.Dict.{Dict}
use sentinelops_ai.Rca.Domain.{
  InvestigationStatus, pending, planning, collecting_evidence, analyzing, verifying,
  insufficient_evidence, failed, timed_out, plan_step, tool_call_step, limit_step,
}
use sentinelops_ai.Rca.Errors.{
  LimitKind, out_of_time, LlmError, llm_timeout, TerminalReason, model_timed_out, model_failed,
  investigation_timed_out, limit_reached, limit_before_incident, incident_not_loaded, no_valid_plan,
  timed_out_while_collecting,
}
use sentinelops_ai.Rca.Schemas.{Evidence, InvestigationStep}
use sentinelops_ai.Rca.Limits.{check_limits}
use sentinelops_ai.Rca.Tools.{ToolResult, is_ok, get_incident, tool_text, remaining_evidence, specs}
use sentinelops_ai.Rca.Reasoner.{PlanRequest, PlanResult, Rejection, no_usable_calls}
use sentinelops_ai.Rca.Plan.{ValidatedCall, PlanValidation, validate_plan}
use sentinelops_ai.Rca.Engine.{
  GraphDeps, Meters, InvestigationState, Node, initialize_node, plan_node, collect_node,
  analyze_node, verify_node, synthesize_node, validate_node, now, asked, ids_of, step,
  run_validated_call,
}

-- `_terminal`, with the update of the steps merged in by the caller
abbrev pub terminal : InvestigationStatus → TerminalReason → InvestigationState → InvestigationState
terminal status reason s = record s { status = status; terminal_reason = some reason; next = none }

-- The reducer of `steps`
abbrev pub with_step : InvestigationStep → InvestigationState → InvestigationState
with_step entry s = record s { steps = s.steps ++ entry ∷ [] }

-- `_llm_terminal`
unfoldable pub llm_terminal : LlmError → InvestigationState → InvestigationState
llm_terminal llm_timeout s = terminal timed_out model_timed_out s
llm_terminal e s = terminal failed (model_failed e) s

-- `_DEGRADE_NEXT`
abbrev pub degrade_next : Node → Option (Node × InvestigationStatus)
degrade_next plan_node = some (synthesize_node, verifying)
degrade_next collect_node = some (analyze_node, analyzing)
degrade_next analyze_node = some (synthesize_node, verifying)
degrade_next verify_node = some (synthesize_node, verifying)
degrade_next synthesize_node = some (validate_node, verifying)
degrade_next _ = none

unfoldable pub degraded :
    GraphDeps
    → InvestigationStatus
    → LimitKind
    → Option (Node × InvestigationStatus)
    → InvestigationState
    → Meters
    → InvestigationState × Meters
unfolding step
degraded d phase kind none s m = (terminal insufficient_evidence (limit_reached kind) s, m)
degraded d phase kind (some (node, status)) s m =
    let (note, after) = step d limit_step phase none [] m in
    (record (with_step note s) { status = status; next = some node; queue = [] }, after)

-- What `_guard` returns after a `LimitExceeded`
unfoldable pub stopped :
    GraphDeps
    → Node
    → InvestigationStatus
    → LimitKind
    → InvestigationState
    → Meters
    → InvestigationState × Meters
unfolding degraded
stopped d node phase out_of_time s m = (terminal timed_out investigation_timed_out s, m)
stopped d node phase kind s m = degraded d phase kind (degrade_next node) s m

-- `_guard`: the body runs if no limit is exceeded.
unfoldable pub guarded :
    GraphDeps
    → Node
    → InvestigationStatus
    → (InvestigationState → Meters → InvestigationState × Meters)
    → InvestigationState
    → Meters
    → InvestigationState × Meters
unfolding check_limits stopped
guarded d node phase body s m =
    let (at, after) = now d m in
    elim (check_limits after.usage d.limits at) [
      | ok _ ↦ body s after
      | err kind ↦ stopped d node phase kind s after
    ]

abbrev pub remaining_calls : GraphDeps → Meters → ℕ
remaining_calls d m = d.limits.max_tool_calls - m.usage.tool_calls
