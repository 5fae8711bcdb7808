-- ===== src/Rca/Graph/Reported.antt =====
-- engine/nodes.py and engine/graph.py: what follows after synthesize and validate.
use sentinelops_ai.Prelude.{
  ◌≤◌, ◌≡◌, refl, ◌⊎◌, ◌≢◌, inl, inr, true, Option, none, some, List, [], arith, ltb, ltb→lt,
  Bool-cases, Result, ok, err,
}
use sentinelops_ai.Rca.Domain.{insufficient_evidence, completed, is_terminal, validation_step}
use sentinelops_ai.Rca.StateMachine.{can_transition}
use sentinelops_ai.Rca.Errors.{
  LlmError, ValidationIssue, TerminalReason, fallback_invalid, synthesis_not_reached,
  rca_validation_failed, analysis_complete,
}
use sentinelops_ai.Rca.Schemas.{RcaReport}
use sentinelops_ai.Rca.Reasoner.{
  SynthesisResult, Conclusion, concluded_completed, concluded_insufficient,
}
use sentinelops_ai.Rca.Validation.{validate_report}
use sentinelops_ai.Rca.Validation.Accepted.{validate_report_iff}
use sentinelops_ai.Rca.Validation.Grounded.{IsGrounded}
use sentinelops_ai.Rca.Synthesis.{
  concluded_status, build_rca_report, build_fallback_report, build_metadata,
}
use sentinelops_ai.Rca.Synthesis.Valid.{build_fallback_report-IsGrounded}
use sentinelops_ai.Rca.Engine.{
  GraphDeps, Meters, InvestigationState, synthesize_node, validate_node, step, asked, ids_of,
}
use sentinelops_ai.Rca.Nodes.{terminal, with_step}
use sentinelops_ai.Rca.Nodes.Report.{
  synthesized, synthesize_request, synthesize_body, synthesize, unreached, validate_unreached,
  fallen_back, fall_back, repair, validated, validate_reached, validate,
}
use sentinelops_ai.Rca.Graph.Ready.{
  Grown, IsReady, Follows, ends, goes_on, allowed, unchanged, model_fails,
}
use sentinelops_ai.Rca.Graph.Guarded.{guarded-Follows}

concluded_status_lem :
    (c : Conclusion)
    → (concluded_status c ≡ completed) ⊎ (concluded_status c ≡ insufficient_evidence)
concluded_status_lem concluded_completed = inl refl
concluded_status_lem concluded_insufficient = inr refl

module _ (d : GraphDeps) (s : InvestigationState) where
  synthesized-Follows :
      (v : Result LlmError SynthesisResult) (m : Meters)
      → IsReady d synthesize_node s m
      → Follows d synthesize_node s (synthesized d v s m)
  unfolding synthesized build_rca_report build_metadata step
  synthesized-Follows (err e) m r = model_fails d synthesize_node s s m e (omega arith)
  synthesized-Follows (ok result) m r =
      goes_on validate_node refl (omega arith)
        (record {
          status = refl;
          grown = (r.grown.0, concluded_status_lem result.conclusion);
          calls = omega arith;
        })
        (unchanged refl)

  pub synthesize-Follows :
      (m : Meters) → IsReady d synthesize_node s m → Follows d synthesize_node s (synthesize d s m)
  unfolding synthesize
  synthesize-Follows m r =
      guarded-Follows d synthesize_node (synthesize_body d) s m tt r (λ later ready.
        synthesized-Follows (d.llm.synthesize later.questions (synthesize_request d s))
          (asked later)
          (record { status = ready.status; grown = ready.grown; calls = ready.calls }))

  -- The fallback passes validation whenever it is built, so its failure is never reached.
  fallback_valid :
      (m : Meters)
      → Grown validate_node s
      → validate_report
          (build_fallback_report d s.incident s.evidence s.hypotheses m).0
          (ids_of s.evidence)
        ≡ ok tt
  fallback_valid m grown =
      (validate_report_iff (build_fallback_report d s.incident s.evidence s.hypotheses m).0
          (ids_of s.evidence)).1
        (build_fallback_report-IsGrounded d s.incident s.evidence s.hypotheses m grown.0)

  -- The ends with a report of an analysis
  reported-Follows :
      (report : RcaReport) (reason : TerminalReason) (t : InvestigationState) (m : Meters)
      → t.rca ≡ some report
      → (report.status ≡ completed) ⊎ (report.status ≡ insufficient_evidence)
      → IsGrounded (ids_of t.evidence) report
      → ((issues : List ValidationIssue) → reason ≢ fallback_invalid issues)
      → m.usage.tool_calls ≤ d.limits.max_tool_calls
      → Follows d validate_node s (terminal report.status reason t, m)
  unfolding is_terminal can_transition
  reported-Follows report reason t m stored (inl e) grounded other calls =
      ends (rw e refl)
        (record {
          report_if_completed = λ h. (report, stored, refl, grounded);
          report_if_insufficient = λ h. inr (report, stored, refl, grounded);
          fallback = λ issues h. ground (arith, other issues);
        })
        calls (allowed (rw e refl))
  reported-Follows report reason t m stored (inr e) grounded other calls =
      ends (rw e refl)
        (record {
          report_if_completed = λ h. (report, stored, refl, grounded);
          report_if_insufficient = λ h. inr (report, stored, refl, grounded);
          fallback = λ issues h. ground (arith, other issues);
        })
        calls (allowed (rw e refl))

  validate_unreached-Follows :
      (m : Meters)
      → IsReady d validate_node s m
      → Follows d validate_node s (validate_unreached d s m)
  unfolding validate_unreached unreached build_fallback_report build_metadata step
  validate_unreached-Follows m r =
      let (report, m1) = build_fallback_report d s.incident s.evidence s.hypotheses m in
      let (entry, m2) = step d validation_step insufficient_evidence none [] m1 in
      rw (fallback_valid m r.grown) (
        reported-Follows report synthesis_not_reached
          (record (with_step entry s) { rca = some report }) m2 refl (inr refl)
          (build_fallback_report-IsGrounded d s.incident s.evidence s.hypotheses m r.grown.0)
          (λ i. cc) (omega arith))

  fall_back-Follows :
      (m : Meters) → IsReady d validate_node s m → Follows d validate_node s (fall_back d s m)
  unfolding fall_back fallen_back build_fallback_report build_metadata step
  fall_back-Follows m r =
      let (report, m1) = build_fallback_report d s.incident s.evidence s.hypotheses m in
      let (entry, m2) = step d validation_step insufficient_evidence none [] m1 in
      rw (fallback_valid m r.grown) (
        reported-Follows report rca_validation_failed
          (record (with_step entry s) { rca = some report }) m2 refl (inr refl)
          (build_fallback_report-IsGrounded d s.incident s.evidence s.hypotheses m r.grown.0)
          (λ i. cc) (omega arith))

  repair-Follows :
      (issues : List ValidationIssue) (m : Meters)
      → IsReady d validate_node s m
      → ltb s.repair_count d.max_repair_attempts ≡ true
      → Follows d validate_node s (repair d issues s m)
  unfolding repair step
  repair-Follows issues m r left =
      goes_on synthesize_node refl (omega (arith, ltb→lt s.repair_count d.max_repair_attempts left))
        (record { status = refl; grown = r.grown; calls = omega arith }) (unchanged refl)

  validated-Follows :
      (report : RcaReport) (v : Result (List ValidationIssue) (Unit {0})) (m : Meters)
      → IsReady d validate_node s m
      → s.rca ≡ some report
      → validate_report report (ids_of s.evidence) ≡ v
      → Follows d validate_node s (validated d report v s m)
  unfolding validated step
  validated-Follows report (err issues) m r stored e =
      elim (Bool-cases (ltb s.repair_count d.max_repair_attempts)) [
        | inl left ↦ rw left (repair-Follows issues m r left)
        | inr over ↦ rw over (fall_back-Follows m r)
      ]
  validated-Follows report (ok _) m r stored e =
      let (entry, after) = step d validation_step report.status none [] m in
      reported-Follows report analysis_complete (with_step entry s) after stored
        (rw stored at r.grown.1) ((validate_report_iff report (ids_of s.evidence)).0 e) (λ i. cc)
        (omega arith)

  validate_reached-Follows :
      (report : Option RcaReport) (m : Meters)
      → IsReady d validate_node s m
      → s.rca ≡ report
      → Follows d validate_node s (validate_reached d report s m)
  unfolding validate_reached
  validate_reached-Follows none m r stored = validate_unreached-Follows m r
  validate_reached-Follows (some report) m r stored =
      validated-Follows report (validate_report report (ids_of s.evidence)) m r stored refl

  pub validate-Follows :
      (m : Meters) → IsReady d validate_node s m → Follows d validate_node s (validate d s m)
  unfolding validate
  validate-Follows m r = validate_reached-Follows s.rca m r refl
