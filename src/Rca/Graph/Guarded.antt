-- ===== src/Rca/Graph/Guarded.antt =====
-- engine/nodes.py and engine/graph.py: calls of tools, and what follows after the guard.
use sentinelops_ai.Prelude.{suc, ◌≤◌, refl, arith, Result, ok, err}
use sentinelops_ai.Rca.Domain.{InvestigationStatus}
use sentinelops_ai.Rca.StateMachine.{can_transition}
use sentinelops_ai.Rca.Errors.{
  LimitKind, too_many_tool_calls, too_many_steps, too_much_evidence, out_of_time,
  investigation_timed_out,
}
use sentinelops_ai.Rca.Limits.{check_limits}
use sentinelops_ai.Rca.Plan.{ValidatedCall}
use sentinelops_ai.Rca.Engine.{
  GraphDeps, Meters, InvestigationState, Node, initialize_node, plan_node, collect_node,
  analyze_node, verify_node, synthesize_node, validate_node, now, step, run_permitted,
  run_validated_call,
}
use sentinelops_ai.Rca.Nodes.{degraded, degrade_next, stopped, guarded}
use sentinelops_ai.Rca.Graph.Ready.{
  entry_status, Grown, IsReady, allowed, unchanged, unplanned, Follows, goes_on, times_out,
}

run_permitted-calls :
    (d : GraphDeps) (call : ValidatedCall) (m : Meters) (v : Result LimitKind (Unit {0}))
    → (run_permitted d call m v).1.usage.tool_calls ≤ suc m.usage.tool_calls
unfolding run_permitted
run_permitted-calls d call m (err kind) = omega arith
run_permitted-calls d call m (ok _) = omega arith

pub run_validated_call-calls :
    (d : GraphDeps) (call : ValidatedCall) (m : Meters)
    → (run_validated_call d call m).1.usage.tool_calls ≤ suc m.usage.tool_calls
unfolding run_validated_call
run_validated_call-calls d call m =
    run_permitted-calls d call (now d m).1 (check_limits m.usage d.limits (now d m).0)

-- Nodes that are guarded
abbrev pub IsGuarded : Node → Type 0
IsGuarded initialize_node = ⊥
IsGuarded validate_node = ⊥
IsGuarded _ = Unit {0}

pub nothing_yet : (s : InvestigationState) → Grown collect_node s → Grown analyze_node s
nothing_yet s (report, hypotheses) = (rw hypotheses tt, rw report tt)

module _ (d : GraphDeps) (kind : LimitKind) (s : InvestigationState) (m : Meters) where
  -- What `_guard` does after a limit other than the time
  abbrev on_limit : Node → InvestigationState × Meters
  on_limit n = degraded d (entry_status n) kind (degrade_next n) s m

  degraded-Follows : (n : Node) → IsGuarded n → IsReady d n s m → Follows d n s (on_limit n)
  unfolding degraded step can_transition
  degraded-Follows initialize_node g r = absurd g
  degraded-Follows validate_node g r = absurd g
  degraded-Follows plan_node g r =
      goes_on synthesize_node refl (omega arith)
        (record { status = refl; grown = nothing_yet s r.grown; calls = omega arith })
        (unplanned refl refl)
  degraded-Follows collect_node g r =
      goes_on analyze_node refl (omega arith)
        (record { status = refl; grown = nothing_yet s r.grown; calls = omega arith })
        (allowed refl)
  degraded-Follows analyze_node g r =
      goes_on synthesize_node refl (omega arith)
        (record { status = refl; grown = r.grown; calls = omega arith }) (allowed refl)
  degraded-Follows verify_node g r =
      goes_on synthesize_node refl (omega arith)
        (record { status = refl; grown = r.grown; calls = omega arith }) (unchanged refl)
  degraded-Follows synthesize_node g r =
      goes_on validate_node refl (omega arith)
        (record { status = refl; grown = r.grown; calls = omega arith }) (unchanged refl)

-- A node that a limit stops goes on to the next stage that needs no more evidence, or ends.
pub stopped-Follows :
    (d : GraphDeps) (n : Node) (kind : LimitKind) (s : InvestigationState) (m : Meters)
    → IsGuarded n
    → IsReady d n s m
    → Follows d n s (stopped d n (entry_status n) kind s m)
unfolding stopped
stopped-Follows d n too_many_tool_calls s m g r = degraded-Follows d too_many_tool_calls s m n g r
stopped-Follows d n too_many_steps s m g r = degraded-Follows d too_many_steps s m n g r
stopped-Follows d n too_much_evidence s m g r = degraded-Follows d too_much_evidence s m n g r
stopped-Follows d n out_of_time s m g r =
    times_out d n s s m investigation_timed_out (λ i. cc) (omega arith)

-- A guarded node is its body, on meters where the clock has been read, or stopped.
pub guarded_either :
    (P : InvestigationState × Meters → Type 0) (d : GraphDeps) (n : Node)
    (phase : InvestigationStatus) (body : InvestigationState → Meters → InvestigationState × Meters)
    (s : InvestigationState) (m : Meters)
    → P (body s (now d m).1)
    → ((kind : LimitKind) → P (stopped d n phase kind s (now d m).1))
    → P (guarded d n phase body s m)
unfolding guarded
guarded_either P d n phase body s m runs stops =
    let later = (now d m).1 in
    elim (check_limits later.usage d.limits (now d m).0)
      as (λ v. P (elim v [ ok _ ↦ body s later | err kind ↦ stopped d n phase kind s later ])) [
        | ok _ ↦ runs
        | err kind ↦ stops kind
      ]

pub guarded-Follows :
    (d : GraphDeps) (n : Node) (body : InvestigationState → Meters → InvestigationState × Meters)
    (s : InvestigationState) (m : Meters)
    → IsGuarded n
    → IsReady d n s m
    → ((later : Meters) → IsReady d n s later → Follows d n s (body s later))
    → Follows d n s (guarded d n (entry_status n) body s m)
guarded-Follows d n body s m g r f =
    let later = (now d m).1 in
    let ready : IsReady d n s later = record {
      status = r.status;
      grown = r.grown;
      calls = r.calls;
    } in
    guarded_either (Follows d n s) d n (entry_status n) body s m (f later ready)
      (λ kind. stopped-Follows d n kind s later g ready)
