-- ===== src/Rca/Graph.antt =====
-- engine/graph.py: the graph of nodes and its run. Every edge goes through `route`; the recursion
-- limit is the number of nodes that LangGraph runs before it gives up.
pub mod Ready
pub mod Guarded
pub mod Gathered
pub mod Reasoned
pub mod Reported
pub mod Followup
pub mod Run
use sentinelops_ai.Prelude.{ℕ, zero, suc, ◌+◌, ◌*◌, Option, none, some, if◌then◌else◌}
use sentinelops_ai.Rca.Domain.{is_terminal}
use sentinelops_ai.Rca.Engine.{
  GraphDeps, Meters, InvestigationState, Node, initialize_node, plan_node, collect_node,
  analyze_node, verify_node, synthesize_node, validate_node,
}
use sentinelops_ai.Rca.Nodes.Gathering.{initialize, plan, collect}
use sentinelops_ai.Rca.Nodes.Reasoning.{analyze, verify}
use sentinelops_ai.Rca.Nodes.Report.{synthesize, validate}

-- `_route`
unfoldable pub route : InvestigationState → Option Node
unfolding is_terminal
route s = if is_terminal s.status then none else s.next

unfoldable pub recursion_limit : GraphDeps → ℕ
recursion_limit d = 3 * (d.limits.max_tool_calls + d.limits.max_steps) + 25

-- The nodes as `build_graph` adds them
unfoldable pub run_node :
    GraphDeps → Node → InvestigationState → Meters → InvestigationState × Meters
unfolding initialize plan collect analyze verify synthesize validate
run_node d initialize_node = initialize d
run_node d plan_node = plan d
run_node d collect_node = collect d
run_node d analyze_node = analyze d
run_node d verify_node = verify d
run_node d synthesize_node = synthesize d
run_node d validate_node = validate d

pub data GraphOutcome : Type 0 where
  finished : InvestigationState → Meters → GraphOutcome
  recursion_error : GraphOutcome

-- The conditional edge after a node; `run` is the run of its target.
unfoldable pub follow_edge :
    (Node → InvestigationState → Meters → GraphOutcome)
    → InvestigationState
    → Meters
    → Option Node
    → GraphOutcome
follow_edge run s m none = finished s m
follow_edge run s m (some next) = run next s m

-- The run from a node, with the number of nodes that may still run
unfoldable pub run_graph : GraphDeps → ℕ → Node → InvestigationState → Meters → GraphOutcome
unfolding run_node route follow_edge
run_graph d zero n s m = recursion_error
run_graph d (suc left) n s m =
    let (after, meters) = run_node d n s m in
    follow_edge (run_graph d left) after meters (route after)
