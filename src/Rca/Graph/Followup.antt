-- ===== src/Rca/Graph/Followup.antt =====
-- engine/nodes.py: the evidence of follow-up calls, and what the hypotheses may cite.
use sentinelops_ai.Prelude.{
  ◌≡◌, refl, sym, ◌∙◌, subst, List, Every, is_empty, if_either, Result, ok, err,
}
use sentinelops_ai.Rca.Domain.{analyzing, verifying}
use sentinelops_ai.Rca.Errors.{
  LimitKind, too_many_tool_calls, too_many_steps, too_much_evidence, out_of_time, LlmError,
  llm_timeout, llm_provider_error, llm_malformed_output, live_llm_not_available,
  llm_configuration_error,
}
use sentinelops_ai.Rca.Schemas.{InvestigationStep, Evidence}
use sentinelops_ai.Rca.Reasoner.{AnalysisResult, VerificationResult}
use sentinelops_ai.Rca.Engine.{
  GraphDeps, Meters, InvestigationState, ids_of, verify_node, analyze_node, now, asked, step,
}
use sentinelops_ai.Rca.Graph.Guarded.{guarded_either}
use sentinelops_ai.Rca.Validation.Grounded.{KnownHypothesis}
use sentinelops_ai.Rca.Graph.Reasoned.{assess_all-Known}
use sentinelops_ai.Rca.Nodes.{llm_terminal, degraded, stopped}
use sentinelops_ai.Rca.Nodes.Reasoning.{
  analyzed, analyze_drained, analyze_body, analyze, drain, extra_calls, verified, verify_body,
  verify,
}

-- The state has the evidence and the hypotheses of the other.
abbrev Keeps : InvestigationState → InvestigationState → Type 0
Keeps s x = (x.evidence ≡ s.evidence) × (x.hypotheses ≡ s.hypotheses)

llm_terminal-Keeps : (e : LlmError) (s : InvestigationState) → Keeps s (llm_terminal e s)
unfolding llm_terminal
llm_terminal-Keeps llm_timeout s = (refl, refl)
llm_terminal-Keeps llm_provider_error s = (refl, refl)
llm_terminal-Keeps llm_malformed_output s = (refl, refl)
llm_terminal-Keeps live_llm_not_available s = (refl, refl)
llm_terminal-Keeps llm_configuration_error s = (refl, refl)

analyzed-Keeps :
    (d : GraphDeps) (taken : List InvestigationStep) (v : Result LlmError AnalysisResult)
    (s : InvestigationState) (m : Meters)
    → Keeps s (analyzed d taken v s m).0
unfolding analyzed step
analyzed-Keeps d taken (err e) s m = llm_terminal-Keeps e s
analyzed-Keeps d taken (ok r) s m = (refl, refl)

stopped_analyze-Keeps :
    (d : GraphDeps) (kind : LimitKind) (s : InvestigationState) (m : Meters)
    → Keeps s (stopped d analyze_node analyzing kind s m).0
unfolding stopped degraded step
stopped_analyze-Keeps d too_many_tool_calls s m = (refl, refl)
stopped_analyze-Keeps d too_many_steps s m = (refl, refl)
stopped_analyze-Keeps d too_much_evidence s m = (refl, refl)
stopped_analyze-Keeps d out_of_time s m = (refl, refl)

stopped_verify-Keeps :
    (d : GraphDeps) (kind : LimitKind) (s : InvestigationState) (m : Meters)
    → Keeps s (stopped d verify_node verifying kind s m).0
unfolding stopped degraded step
stopped_verify-Keeps d too_many_tool_calls s m = (refl, refl)
stopped_verify-Keeps d too_many_steps s m = (refl, refl)
stopped_verify-Keeps d too_much_evidence s m = (refl, refl)
stopped_verify-Keeps d out_of_time s m = (refl, refl)

analyze-Keeps : (d : GraphDeps) (s : InvestigationState) (m : Meters) → Keeps s (analyze d s m).0
unfolding analyze analyze_drained
analyze-Keeps d s m =
    let later = (now d m).1 in
    guarded_either (λ x. Keeps s x.0) d analyze_node analyzing (analyze_body d) s m
      (analyzed-Keeps d (drain d s.queue later).steps _ s (asked (drain d s.queue later).meters))
      (λ kind. stopped_analyze-Keeps d kind s later)

-- The state has this evidence, and its hypotheses cite nothing else.
abbrev Cites : List Evidence → InvestigationState → Type 0
Cites es x = (x.evidence ≡ es) × Every (KnownHypothesis (ids_of es)) x.hypotheses

Keeps-Cites : (es : List Evidence) (s x : InvestigationState) → Keeps s x → Cites es s → Cites es x
Keeps-Cites es s x (e, h) (f, k) =
    (e ∙ f, subst (λ hs. Every (KnownHypothesis (ids_of es)) hs) (sym h) k)

verified-Cites :
    (d : GraphDeps) (v : Result LlmError VerificationResult) (s : InvestigationState) (m : Meters)
    → Cites s.evidence s
    → Cites s.evidence (verified d v s m).0
unfolding verified step
verified-Cites d (err e) s m c =
    Keeps-Cites s.evidence s (llm_terminal e s) (llm_terminal-Keeps e s) c
verified-Cites d (ok result) s m c =
    let known = assess_all-Known d s (ids_of s.evidence) result.verdicts 0 s.proposed_hypotheses in
    if_either (λ (x : InvestigationState × Meters). Cites s.evidence x.0)
      (is_empty (extra_calls d result s m)) (refl, known) (refl, known)

verify-Cites :
    (d : GraphDeps) (s : InvestigationState) (m : Meters)
    → Cites s.evidence s
    → Cites s.evidence (verify d s m).0
unfolding verify
verify-Cites d s m c =
    let later = (now d m).1 in
    guarded_either (λ x. Cites s.evidence x.0) d verify_node verifying (verify_body d) s m
      (verified-Cites d _ s (asked later) c)
      (λ kind.
        Keeps-Cites s.evidence s (stopped d verify_node verifying kind s later).0
          (stopped_verify-Keeps d kind s later) c)

-- Whatever calls are in the queue and whatever evidence they return, `analyze` leaves the evidence
-- of the state as it was, and so does the `verify` that follows it; where the hypotheses before cite
-- only that evidence, so do those that `verify` leaves, whatever the model has proposed: none of them
-- cites what the follow-up calls returned, unless an item of the old evidence has the same id.
pub analyze_forgets :
    (d : GraphDeps) (s : InvestigationState) (m : Meters)
    → Every (KnownHypothesis (ids_of s.evidence)) s.hypotheses
    → let (analyzed_state, later) = analyze d s m in
      let verified_state = (verify d analyzed_state later).0 in
      (analyzed_state.evidence ≡ s.evidence)
      × (verified_state.evidence ≡ s.evidence)
      × Every (KnownHypothesis (ids_of s.evidence)) verified_state.hypotheses
analyze_forgets d s m known =
    let s1 = (analyze d s m).0 in
    let kept = analyze-Keeps d s m in
    let (e, c) = Keeps-Cites s.evidence s s1 kept (refl, known) in
    let old : Cites s1.evidence s1 =
      (refl, subst (λ es. Every (KnownHypothesis (ids_of es)) s1.hypotheses) (sym e) c) in
    let (f, cited) = verify-Cites d s1 (analyze d s m).1 old in
    (
      e,
      f ∙ e,
      subst (λ es. Every (KnownHypothesis (ids_of es)) (verify d s1 (analyze d s m).1).0.hypotheses)
          e cited,
    )
