-- ===== src/Rca/Graph/Reasoned.antt =====
-- engine/nodes.py and engine/graph.py: what follows after analyze and verify.
use sentinelops_ai.Prelude.{
  ℕ, suc, ◌+◌, ◌≤◌, ◌≡◌, refl, ◌⊎◌, String, inl, inr, true, not, ◌&&◌, List, [], ◌∷◌, arith, ltb,
  ltb→lt, is_empty, length, Every, Bool-cases, if_either, min, Result, ok, err,
}
use sentinelops_ai.Rca.StateMachine.{can_transition}
use sentinelops_ai.Rca.Errors.{LimitKind, LlmError}
use sentinelops_ai.Rca.Schemas.{InvestigationStep}
use sentinelops_ai.Rca.Tools.{ToolResult, remaining_evidence}
use sentinelops_ai.Rca.Reasoner.{
  ProposedHypothesis, HypothesisVerdictItem, AnalysisResult, VerificationResult,
}
use sentinelops_ai.Rca.Plan.{ValidatedCall}
use sentinelops_ai.Rca.Plan.Accepted.{validate_plan-IsPlan}
use sentinelops_ai.Rca.Validation.Grounded.{KnownHypothesis}
use sentinelops_ai.Rca.Synthesis.Valid.{keep_ids-Known}
use sentinelops_ai.Rca.Engine.{
  GraphDeps, Meters, InvestigationState, analyze_node, verify_node, synthesize_node, step, asked,
  ids_of, run_validated_call,
}
use sentinelops_ai.Rca.Nodes.{remaining_calls}
use sentinelops_ai.Rca.Nodes.Reasoning.{
  Drained, drain_call, drain, analyzed, analyze_drained, analyze_body, analyze, assess, assess_all,
  reanalysis_allowed, extra_calls, verified, verify_request, verify_body, verify,
}
use sentinelops_ai.Rca.Graph.Ready.{
  Grown, IsReady, Follows, goes_on, allowed, unchanged, model_fails,
}
use sentinelops_ai.Rca.Graph.Guarded.{run_validated_call-calls, guarded-Follows}

drain_call-calls :
    (d : GraphDeps) (call : ValidatedCall) (v : Result LimitKind ToolResult)
    (continue : Meters → Drained) (m : Meters) (n : ℕ)
    → ((later : Meters) → (continue later).meters.usage.tool_calls ≤ later.usage.tool_calls + n)
    → (drain_call d call v continue m).meters.usage.tool_calls ≤ m.usage.tool_calls + n
unfolding drain_call step
drain_call-calls d call (err kind) continue m n f = omega arith
drain_call-calls d call (ok r) continue m n f = f _

-- Draining makes at most one call for each item of the queue.
drain-calls :
    (d : GraphDeps) (queue : List ValidatedCall) (m : Meters)
    → (drain d queue m).meters.usage.tool_calls ≤ m.usage.tool_calls + length queue
unfolding drain
drain-calls d [] m = omega arith
drain-calls d (call ∷ calls) m =
    let (outcome, after) = run_validated_call d call m in
    let made = run_validated_call-calls d call m in
    if_either (λ (x : Drained). x.meters.usage.tool_calls ≤ m.usage.tool_calls + suc (length calls))
      (ltb 0 (remaining_evidence m.tool_context))
      (omega (
        arith,
        made,
        drain_call-calls d call outcome (drain d calls) after (length calls) (drain-calls d calls),
      ))
      (omega arith)

module _ (d : GraphDeps) (s : InvestigationState) where
  analyzed-Follows :
      (taken : List InvestigationStep) (v : Result LlmError AnalysisResult) (m : Meters)
      → Grown analyze_node s
      → m.usage.tool_calls ≤ d.limits.max_tool_calls
      → Follows d analyze_node s (analyzed d taken v s m)
  unfolding analyzed step can_transition
  analyzed-Follows taken (err e) m grown calls = model_fails d analyze_node s s m e calls
  analyzed-Follows taken (ok result) m grown calls =
      goes_on verify_node refl (omega arith)
        (record { status = refl; grown = grown; calls = omega arith }) (allowed refl)

  pub analyze-Follows :
      (m : Meters) → IsReady d analyze_node s m → Follows d analyze_node s (analyze d s m)
  unfolding analyze analyze_drained
  analyze-Follows m r = guarded-Follows d analyze_node (analyze_body d) s m tt r (λ later ready.
      analyzed-Follows (drain d s.queue later).steps _ (asked (drain d s.queue later).meters)
        r.grown (omega (arith, drain-calls d s.queue later, ready.calls)))

  pub assess_all-Known :
      (known : List String) (vs : List HypothesisVerdictItem) (i : ℕ) (ps : List ProposedHypothesis)
      → Every (KnownHypothesis known) (assess_all known vs i ps)
  unfolding assess_all assess
  assess_all-Known known vs i [] = tt
  assess_all-Known known vs i (p ∷ ps) = (
    (
      keep_ids-Known p.supporting_evidence_ids known,
      keep_ids-Known p.contradicting_evidence_ids known,
    ),
    assess_all-Known known vs (suc i) ps,
  )

  -- There are extra calls only if a reanalysis is allowed, and they fit the limit.
  extra_calls-fit :
      (result : VerificationResult) (m : Meters)
      → (extra_calls d result s m ≡ [])
        ⊎ ((reanalysis_allowed s ≡ true)
            × (length (extra_calls d result s m) ≤ remaining_calls d m))
  extra_calls-fit result m =
      let more = not (is_empty result.additional_calls) in
      let plan =
        validate_plan-IsPlan result.additional_calls d.registry (min (remaining_calls d m) 3) in
      elim (Bool-cases (reanalysis_allowed s)) [
        | inr e ↦ inl (ground arith)
        | inl e ↦ elim (Bool-cases (result.needs_more_evidence && true && more)) [
          | inr f ↦ inl (rw (e, f) refl)
          | inl f ↦ inr (e, rw (e, f) (omega (arith, plan.bounded)))
        ]
      ]

  verified-Follows :
      (v : Result LlmError VerificationResult) (m : Meters)
      → IsReady d verify_node s m
      → Follows d verify_node s (verified d v s m)
  unfolding verified step can_transition
  verified-Follows (err e) m r = model_fails d verify_node s s m e (omega arith)
  verified-Follows (ok result) m r =
      let extra = extra_calls d result s m in
      let known = assess_all-Known (ids_of s.evidence) result.verdicts 0 s.proposed_hypotheses in
      elim (Bool-cases (is_empty extra)) [
        | inl e ↦ rw e (
            goes_on synthesize_node refl (omega arith)
              (record { status = refl; grown = (known, r.grown.1); calls = omega arith })
              (unchanged refl))
        | inr e ↦ elim (extra_calls-fit result m) [
          | inl none_left ↦ ground arith
          | inr (once, fits) ↦ rw e (
              goes_on analyze_node refl (omega (arith, ltb→lt s.reanalysis_count 1 once))
                (record { status = refl; grown = (known, r.grown.1); calls = omega (arith, fits) })
                (allowed refl))
        ]
      ]

  pub verify-Follows :
      (m : Meters) → IsReady d verify_node s m → Follows d verify_node s (verify d s m)
  unfolding verify
  verify-Follows m r = guarded-Follows d verify_node (verify_body d) s m tt r (λ later ready.
      verified-Follows (d.llm.verify later.questions (verify_request s)) (asked later)
        (record { status = ready.status; grown = ready.grown; calls = ready.calls }))
