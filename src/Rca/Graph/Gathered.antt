-- ===== src/Rca/Graph/Gathered.antt =====
-- engine/nodes.py and engine/graph.py: what follows after initialize, plan and collect.
use sentinelops_ai.Prelude.{
  suc, ◌≤◌, ◌≡◌, refl, sym, ap, inl, inr, Bool, true, false, not, ◌&&◌, none, List, [], ◌∷◌, arith,
  ltb, is_empty, length, Bool-cases, if_either, Result, ok, err,
}
use sentinelops_ai.Rca.Domain.{plan_step, pending, is_terminal}
use sentinelops_ai.Rca.StateMachine.{can_transition}
use sentinelops_ai.Rca.Errors.{
  LimitKind, too_many_tool_calls, too_many_steps, too_much_evidence, out_of_time, LlmError,
  limit_before_incident, incident_not_loaded, timed_out_while_collecting,
}
use sentinelops_ai.Rca.Schemas.{Evidence, InvestigationStep}
use sentinelops_ai.Rca.Tools.{ToolResult, is_ok, remaining_evidence}
use sentinelops_ai.Rca.Reasoner.{PlanResult}
use sentinelops_ai.Rca.Plan.{ValidatedCall, PlanValidation, validate_plan}
use sentinelops_ai.Rca.Plan.Accepted.{validate_plan-IsPlan}
use sentinelops_ai.Rca.Engine.{
  GraphDeps, Meters, InvestigationState, Node, initialize_node, plan_node, collect_node,
  analyze_node, step, asked, run_validated_call,
}
use sentinelops_ai.Rca.Nodes.{with_step, remaining_calls}
use sentinelops_ai.Rca.Nodes.Gathering.{
  incident_loaded, incident_asked, incident_request, initialize, planned, replanned, first_planned,
  plan_request, repair_hints, stop_collecting, plan_body, collect_body, plan_asked, plan, collected,
  collect_queue, collect,
}
use sentinelops_ai.Rca.Graph.Ready.{
  Grown, IsReady, allowed, unchanged, Follows, ends, goes_on, fails, times_out, model_fails,
}
use sentinelops_ai.Rca.Graph.Guarded.{run_validated_call-calls, nothing_yet, guarded-Follows}

incident_loaded-Follows :
    (d : GraphDeps) (entry : InvestigationStep) (success : Bool) (es : List Evidence)
    (s : InvestigationState) (m : Meters)
    → (s.rca ≡ none) × (s.hypotheses ≡ [])
    → m.usage.tool_calls ≤ d.limits.max_tool_calls
    → Follows d initialize_node s (incident_loaded d entry success es s m)
unfolding incident_loaded step can_transition
incident_loaded-Follows d entry true (e ∷ es) s m grown calls =
    goes_on plan_node refl (omega arith)
      (record { status = refl; grown = grown; calls = omega arith }) (allowed refl)
incident_loaded-Follows d entry true [] s m grown calls =
    fails d initialize_node s (with_step entry s) m incident_not_loaded (λ i. cc) calls
incident_loaded-Follows d entry false es s m grown calls =
    fails d initialize_node s (with_step entry s) m incident_not_loaded (λ i. cc) calls

incident_asked-Follows :
    (d : GraphDeps) (entry : InvestigationStep) (v : Result LimitKind ToolResult)
    (s : InvestigationState) (m : Meters)
    → (s.rca ≡ none) × (s.hypotheses ≡ [])
    → m.usage.tool_calls ≤ d.limits.max_tool_calls
    → Follows d initialize_node s (incident_asked d entry v s m)
unfolding incident_asked
incident_asked-Follows d entry (err kind) s m grown calls =
    times_out d initialize_node s (with_step entry s) m (limit_before_incident kind) (λ i. cc) calls
incident_asked-Follows d entry (ok r) s m grown calls =
    incident_loaded-Follows d entry (is_ok r.status) r.evidence s m grown calls

pub initialize-Follows :
    (d : GraphDeps) (s : InvestigationState) (m : Meters)
    → IsReady d initialize_node s m
    → Follows d initialize_node s (initialize d s m)
unfolding initialize step
initialize-Follows d s m r =
    let (started, m1) = step d plan_step pending none [] m in
    let (outcome, m2) = run_validated_call d (incident_request d) m1 in
    incident_asked-Follows d started outcome s m2 r.grown
      (omega (arith, run_validated_call-calls d (incident_request d) m1))

module _ (d : GraphDeps) (s : InvestigationState) where
  planned-Follows :
      (result : PlanResult) (v : PlanValidation) (m : Meters)
      → IsReady d plan_node s m
      → length v.accepted ≤ remaining_calls d m
      → Follows d plan_node s (planned d result v s m)
  unfolding planned step can_transition is_terminal
  planned-Follows result v m r bound = elim (Bool-cases (is_empty v.accepted)) [
    | inl e ↦ rw e (
        ends refl
          (record {
            report_if_completed = λ h. ground arith;
            report_if_insufficient = λ h. inl r.grown.0;
            fallback = λ issues h. ground arith;
          })
          (omega arith) (allowed refl))
    | inr e ↦ rw e (
        goes_on collect_node refl (omega arith)
          (record { status = refl; grown = r.grown; calls = omega arith }) (allowed refl))
  ]

  asked-IsReady : (n : Node) (m : Meters) → IsReady d n s m → IsReady d n s (asked m)
  asked-IsReady n m r = record { status = r.status; grown = r.grown; calls = r.calls }

  replanned-Follows :
      (result : PlanResult) (answer : Result LlmError PlanResult) (m : Meters)
      → IsReady d plan_node s m
      → Follows d plan_node s (replanned d result answer s m)
  unfolding replanned
  replanned-Follows result (err e) m r = model_fails d plan_node s s m e (omega arith)
  replanned-Follows result (ok retry) m r =
      planned-Follows result (validate_plan retry.calls d.registry (remaining_calls d m)) m r
        (validate_plan-IsPlan retry.calls d.registry (remaining_calls d m)).bounded

  first_planned-Follows :
      (result : PlanResult) (v : PlanValidation) (m : Meters)
      → IsReady d plan_node s m
      → length v.accepted ≤ remaining_calls d m
      → Follows d plan_node s (first_planned d result v s m)
  unfolding first_planned
  first_planned-Follows result v m r bound =
      if_either (Follows d plan_node s) (is_empty v.accepted)
        (replanned-Follows result
          (d.llm.plan m.questions (plan_request d s (repair_hints v.rejected))) (asked m)
          (asked-IsReady plan_node m r))
        (planned-Follows result v m r bound)

  plan_asked-Follows :
      (answer : Result LlmError PlanResult) (m : Meters)
      → IsReady d plan_node s m
      → Follows d plan_node s (plan_asked d answer s m)
  unfolding plan_asked
  plan_asked-Follows (err e) m r = model_fails d plan_node s s m e (omega arith)
  plan_asked-Follows (ok result) m r =
      first_planned-Follows result (validate_plan result.calls d.registry (remaining_calls d m)) m r
        (validate_plan-IsPlan result.calls d.registry (remaining_calls d m)).bounded

  pub plan-Follows : (m : Meters) → IsReady d plan_node s m → Follows d plan_node s (plan d s m)
  unfolding plan
  plan-Follows m r = guarded-Follows d plan_node (plan_body d) s m tt r (λ later ready.
      plan_asked-Follows (d.llm.plan later.questions (plan_request d s [])) (asked later)
        (asked-IsReady plan_node later ready))

  stop_collecting-Follows :
      (m : Meters)
      → Grown collect_node s
      → m.usage.tool_calls ≤ d.limits.max_tool_calls
      → Follows d collect_node s (stop_collecting d s m)
  unfolding stop_collecting step can_transition
  stop_collecting-Follows m grown calls =
      goes_on analyze_node refl (omega arith)
        (record { status = refl; grown = nothing_yet s grown; calls = omega arith }) (allowed refl)

  -- `collect` after the call, of a queue with `rest` behind it
  collected-Follows :
      (call : ValidatedCall) (rest : List ValidatedCall) (v : Result LimitKind ToolResult)
      (m : Meters)
      → IsReady d collect_node s m
      → s.queue ≡ call ∷ rest
      → (after : Meters) → after.usage.tool_calls ≤ suc m.usage.tool_calls
      → Follows d collect_node s (collected d call rest v s after)
  unfolding collected step can_transition
  collected-Follows call rest (err out_of_time) m r q after calls =
      times_out d collect_node s s after timed_out_while_collecting (λ i. cc)
        (omega (arith, ap length q))
  collected-Follows call rest (err too_many_tool_calls) m r q after calls =
      stop_collecting-Follows after r.grown (omega (arith, ap length q))
  collected-Follows call rest (err too_many_steps) m r q after calls =
      stop_collecting-Follows after r.grown (omega (arith, ap length q))
  collected-Follows call rest (err too_much_evidence) m r q after calls =
      stop_collecting-Follows after r.grown (omega (arith, ap length q))
  collected-Follows call rest (ok result) m r q after calls =
      elim (Bool-cases (not (is_empty rest) && ltb 0 (remaining_evidence after.tool_context))) [
        | inl e ↦ rw e (
            goes_on collect_node refl (omega (arith, ap length q))
              (record { status = r.status; grown = r.grown; calls = omega (arith, ap length q) })
              (unchanged (sym r.status)))
        | inr e ↦ rw e (
            goes_on analyze_node refl (omega (arith, ap length q))
              (record {
                status = refl;
                grown = (rw r.grown.1 tt, rw r.grown.0 tt);
                calls = omega (arith, ap length q);
              })
              (allowed refl))
      ]

  collect_queue-Follows :
      (queue : List ValidatedCall) (m : Meters)
      → s.queue ≡ queue
      → IsReady d collect_node s m
      → Follows d collect_node s (collect_queue d queue s m)
  unfolding collect_queue can_transition
  collect_queue-Follows [] m q r =
      goes_on analyze_node refl (omega arith)
        (record { status = refl; grown = nothing_yet s r.grown; calls = omega arith })
        (allowed refl)
  collect_queue-Follows (call ∷ rest) m q r =
      collected-Follows call rest (run_validated_call d call m).0 m r q
        (run_validated_call d call m).1 (run_validated_call-calls d call m)

  pub collect-Follows :
      (m : Meters) → IsReady d collect_node s m → Follows d collect_node s (collect d s m)
  unfolding collect
  collect-Follows m r =
      guarded-Follows d collect_node (collect_body d) s m tt r
        (λ later ready. collect_queue-Follows s.queue later refl ready)
