-- ===== src/Rca/Graph/Run.antt =====
-- engine/graph.py: whole runs of the graph, and the statuses that a run goes through.
use sentinelops_ai.Prelude.{ℕ, zero, suc, ◌≤◌, ◌≡◌, refl, sym, ap, subst, true, none, some, arith}
use sentinelops_ai.Rca.Domain.{is_terminal}
use sentinelops_ai.Rca.Engine.{
  GraphDeps, Meters, InvestigationState, Node, initialize_node, plan_node, collect_node,
  analyze_node, verify_node, synthesize_node, validate_node,
}
use sentinelops_ai.Rca.Graph.{route, run_node, GraphOutcome, finished, follow_edge, run_graph}
use sentinelops_ai.Rca.Graph.Ready.{
  entry_status-not-terminal, cost, IsReady, IsConcluded, Lawful, Follows, ends, goes_on,
}
use sentinelops_ai.Rca.Graph.Gathered.{initialize-Follows, plan-Follows, collect-Follows}
use sentinelops_ai.Rca.Graph.Reasoned.{analyze-Follows, verify-Follows}
use sentinelops_ai.Rca.Graph.Reported.{synthesize-Follows, validate-Follows}

pub run_node-Follows :
    (d : GraphDeps) (n : Node) (s : InvestigationState) (m : Meters)
    → IsReady d n s m
    → Follows d n s (run_node d n s m)
unfolding run_node
run_node-Follows d initialize_node s m r = initialize-Follows d s m r
run_node-Follows d plan_node s m r = plan-Follows d s m r
run_node-Follows d collect_node s m r = collect-Follows d s m r
run_node-Follows d analyze_node s m r = analyze-Follows d s m r
run_node-Follows d verify_node s m r = verify-Follows d s m r
run_node-Follows d synthesize_node s m r = synthesize-Follows d s m r
run_node-Follows d validate_node s m r = validate-Follows d s m r

-- The change of status that a node makes is one that the state machine allows, or none, with two
-- exceptions: a limit before the incident is loaded takes a pending investigation to TIMED_OUT,
-- and a limit before the plan takes a planning one to VERIFYING.
pub run_node-Lawful :
    (d : GraphDeps) (n : Node) (s : InvestigationState) (m : Meters)
    → IsReady d n s m
    → Lawful s.status (run_node d n s m).0.status
run_node-Lawful d n s m r =
    let after = (run_node d n s m).0.status in
    elim (run_node-Follows d n s m r) [
      | ends _ _ _ lawful ↦ subst (λ x. Lawful x after) (sym r.status) lawful
      | goes_on _ _ _ _ lawful ↦ subst (λ x. Lawful x after) (sym r.status) lawful
    ]

-- How a run ends
pub record IsEnded (d : GraphDeps) (o : GraphOutcome) : Type 0 where
  pub state : InvestigationState
  pub meters : Meters
  pub returned : o ≡ finished state meters
  pub terminal : is_terminal state.status ≡ true
  pub concluded : IsConcluded state
  pub calls : meters.usage.tool_calls ≤ d.limits.max_tool_calls

route_end : (s : InvestigationState) → is_terminal s.status ≡ true → route s ≡ none
unfolding route
route_end s e = rw e refl

route_next :
    (d : GraphDeps) (next : Node) (s : InvestigationState) (m : Meters)
    → s.next ≡ some next
    → IsReady d next s m
    → route s ≡ some next
unfolding route
route_next d next s m way r =
    let running = entry_status-not-terminal next in rw (ap is_terminal r.status, running) way

cost-pos : (d : GraphDeps) (n : Node) (s : InvestigationState) → 1 ≤ cost d n s
cost-pos d initialize_node s = omega arith
cost-pos d plan_node s = omega arith
cost-pos d collect_node s = omega arith
cost-pos d analyze_node s = omega arith
cost-pos d verify_node s = omega arith
cost-pos d synthesize_node s = omega arith
cost-pos d validate_node s = omega arith

-- From a node that is ready, a run with room for the node's cost ends: not by the recursion limit
-- but in a terminal status, within the limit on tool calls, and concluded.
pub run_graph-IsEnded :
    (d : GraphDeps) (left : ℕ) (n : Node) (s : InvestigationState) (m : Meters)
    → IsReady d n s m
    → cost d n s ≤ left
    → IsEnded d (run_graph d left n s m)
unfolding run_graph follow_edge
run_graph-IsEnded d zero n s m r room = absurd (omega (arith, cost-pos d n s))
run_graph-IsEnded d (suc left) n s m r room =
    let after = (run_node d n s m).0 in
    let meters = (run_node d n s m).1 in
    elim (run_node-Follows d n s m r) [
      | ends last concluded calls lawful ↦ rw (route_end after last) (record {
        state = after;
        meters = meters;
        returned = refl;
        terminal = last;
        concluded = concluded;
        calls = calls;
      })
      | goes_on next way less ready lawful ↦
          rw (route_next d next after meters way ready)
            (run_graph-IsEnded d left next after meters ready (omega arith))
    ]
