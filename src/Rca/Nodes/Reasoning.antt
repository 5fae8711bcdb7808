-- ===== src/Rca/Nodes/Reasoning.antt =====
-- engine/nodes.py: the nodes that let the model analyze the evidence and verify its hypotheses.
use sentinelops_ai.Prelude.{
  ℕ, suc, ◌+◌, String, Bool, not, ◌&&◌, Option, none, some, List, [], ◌∷◌, ◌++◌, ltb, leb, nat_eq,
  ◌==◌, is_empty, length, take, min, if◌then◌else◌, Result, ok, err,
}
use sentinelops_ai.Rca.Domain.{
  analyzing, verifying, HypothesisVerdict, supported, refuted, unverified, conflicting,
  tool_call_step, analysis_step, verification_step,
}
use sentinelops_ai.Rca.Errors.{LimitKind, LlmError}
use sentinelops_ai.Rca.Schemas.{Evidence, Hypothesis, InvestigationStep}
use sentinelops_ai.Rca.Tools.{ToolResult, tool_text, remaining_evidence}
use sentinelops_ai.Rca.Reasoner.{
  ProposedHypothesis, HypothesisVerdictItem, AnalysisResult, VerificationResult, VerifyRequest,
}
use sentinelops_ai.Rca.Plan.{ValidatedCall, validate_plan}
use sentinelops_ai.Rca.Synthesis.{keep_ids, or_text}
use sentinelops_ai.Rca.Engine.{
  GraphDeps, Meters, InvestigationState, analyze_node, verify_node, synthesize_node, asked, ids_of,
  step, run_validated_call,
}
use sentinelops_ai.Rca.Nodes.{with_step, llm_terminal, guarded, remaining_calls}

-- What `_drain_extra_queue` has gathered, and the meters
pub record Drained : Type 0 where
  pub steps : List InvestigationStep
  pub evidence : List Evidence
  pub meters : Meters

abbrev drained_none : Meters → Drained
drained_none m = record { steps = []; evidence = []; meters = m }

abbrev drained_one : InvestigationStep → List Evidence → Drained → Drained
drained_one entry es rest = record rest {
  steps = entry ∷ rest.steps;
  evidence = es ++ rest.evidence;
}

-- The body of the loop after the call; `continue` is the rest of the loop.
unfoldable pub drain_call :
    GraphDeps → ValidatedCall → Result LimitKind ToolResult → (Meters → Drained) → Meters → Drained
unfolding step
drain_call d call (err kind) continue m = drained_none m
drain_call d call (ok r) continue m =
    let (entry, after) =
      step d tool_call_step analyzing (some (tool_text call.tool_name)) (ids_of r.evidence) m in
    drained_one entry r.evidence (continue after)

-- `_drain_extra_queue`
unfoldable pub drain : GraphDeps → List ValidatedCall → Meters → Drained
unfolding run_validated_call drain_call
drain d [] m = drained_none m
drain d (call ∷ calls) m =
    let (outcome, after) = run_validated_call d call m in
    if ltb 0 (remaining_evidence m.tool_context)
    then drain_call d call outcome (drain d calls) after
    else drained_none m

-- `analyze` with the model's answer
unfoldable pub analyzed :
    GraphDeps
    → List InvestigationStep
    → Result LlmError AnalysisResult
    → InvestigationState
    → Meters
    → InvestigationState × Meters
unfolding llm_terminal step
analyzed d drained_steps (err e) s m = (llm_terminal e s, m)
analyzed d drained_steps (ok result) s m =
    let (entry, after) = step d analysis_step analyzing none [] m in
    (
      record s {
        status = verifying;
        proposed_findings = result.findings;
        proposed_hypotheses = take d.limits.max_hypotheses result.hypotheses;
        steps = s.steps ++ drained_steps ++ entry ∷ [];
        next = some verify_node;
      },
      after,
    )

-- The state after the guard, with the queue drained
unfoldable pub analyze_drained :
    GraphDeps → Drained → InvestigationState → InvestigationState × Meters
unfolding analyzed
analyze_drained d gathered s =
    analyzed d gathered.steps
      (d.llm.analyze gathered.meters.questions
        (record { incident = s.incident; evidence = s.evidence ++ gathered.evidence }))
      s (asked gathered.meters)

abbrev pub analyze_body : GraphDeps → InvestigationState → Meters → InvestigationState × Meters
analyze_body d s m = analyze_drained d (drain d s.queue m) s

unfoldable pub analyze : GraphDeps → InvestigationState → Meters → InvestigationState × Meters
unfolding guarded drain analyze_drained
analyze d = guarded d analyze_node analyzing (analyze_body d)

-- `{v.index: v for v in result.verdicts}.get(i)`
unfoldable pub verdict_at : ℕ → List HypothesisVerdictItem → Option HypothesisVerdictItem
verdict_at i [] = none
verdict_at i (v ∷ vs) = elim (verdict_at i vs) [
  | some w ↦ some w
  | none ↦ if v.index == i then some v else none
]

-- `_default_verdict`, of the numbers of supporting and contradicting evidence
unfoldable pub default_verdict : ℕ → ℕ → HypothesisVerdict
default_verdict s c =
    if ltb s c
    then refuted
    else if leb 1 s && leb 1 c
    then conflicting
    else if leb 2 s
    then supported
    else unverified

unfoldable pub assess :
    List String → ℕ → Option HypothesisVerdictItem → ProposedHypothesis → Hypothesis
unfolding default_verdict
assess known i v p =
    let supporting = keep_ids p.supporting_evidence_ids known in
    let contradicting = keep_ids p.contradicting_evidence_ids known in
    record {
      number = i + 1;
      statement = p.statement;
      supporting_evidence_ids = supporting;
      contradicting_evidence_ids = contradicting;
      assessment = elim v [ none ↦ "not assessed" | some w ↦ or_text w.assessment "not assessed" ];
      verdict = elim v [
        | none ↦ default_verdict (length supporting) (length contradicting)
        | some w ↦ w.verdict
      ];
    }

-- The loop over the proposed hypotheses, from index `i`
unfoldable pub assess_all :
    List String → List HypothesisVerdictItem → ℕ → List ProposedHypothesis → List Hypothesis
unfolding assess verdict_at
assess_all known vs i [] = []
assess_all known vs i (p ∷ ps) = assess known i (verdict_at i vs) p ∷ assess_all known vs (suc i) ps

abbrev pub conclude :
    GraphDeps → List Hypothesis → InvestigationState → Meters → InvestigationState × Meters
conclude d hypotheses s m =
    let (entry, after) = step d verification_step verifying none [] m in
    (
      record (with_step entry s) {
        status = verifying;
        hypotheses = hypotheses;
        next = some synthesize_node;
      },
      after,
    )

abbrev pub reanalyze :
    GraphDeps
    → List Hypothesis
    → List ValidatedCall
    → InvestigationState
    → Meters
    → InvestigationState × Meters
reanalyze d hypotheses extra s m =
    let (entry, after) = step d verification_step verifying none [] m in
    (
      record (with_step entry s) {
        status = analyzing;
        hypotheses = hypotheses;
        queue = extra;
        reanalysis_count = s.reanalysis_count + 1;
        next = some analyze_node;
      },
      after,
    )

abbrev pub reanalysis_allowed : InvestigationState → Bool
reanalysis_allowed s = ltb s.reanalysis_count 1

-- The calls that a reanalysis would make; none unless it is wanted
abbrev pub extra_calls :
    GraphDeps → VerificationResult → InvestigationState → Meters → List ValidatedCall
extra_calls d result s m =
    if result.needs_more_evidence && reanalysis_allowed s && not (is_empty result.additional_calls)
    then (validate_plan result.additional_calls d.registry (min (remaining_calls d m) 3)).accepted
    else []

unfoldable pub verified :
    GraphDeps
    → Result LlmError VerificationResult
    → InvestigationState
    → Meters
    → InvestigationState × Meters
unfolding llm_terminal assess_all step validate_plan
verified d (err e) s m = (llm_terminal e s, m)
verified d (ok result) s m =
    let hypotheses = assess_all (ids_of s.evidence) result.verdicts 0 s.proposed_hypotheses in
    let extra = extra_calls d result s m in
    if is_empty extra then conclude d hypotheses s m else reanalyze d hypotheses extra s m

abbrev pub verify_request : InvestigationState → VerifyRequest
verify_request s = record {
  incident = s.incident;
  evidence = s.evidence;
  findings = s.proposed_findings;
  hypotheses = s.proposed_hypotheses;
  reanalysis_allowed = reanalysis_allowed s;
}

abbrev pub verify_body : GraphDeps → InvestigationState → Meters → InvestigationState × Meters
verify_body d s m = verified d (d.llm.verify m.questions (verify_request s)) s (asked m)

unfoldable pub verify : GraphDeps → InvestigationState → Meters → InvestigationState × Meters
unfolding guarded verified
verify d = guarded d verify_node verifying (verify_body d)
