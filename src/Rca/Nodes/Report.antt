-- ===== src/Rca/Nodes/Report.antt =====
-- engine/nodes.py: the nodes that synthesize a report and validate it.
use sentinelops_ai.Prelude.{◌+◌, Option, none, some, List, [], ltb, if◌then◌else◌, Result, ok, err}
use sentinelops_ai.Rca.Domain.{verifying, insufficient_evidence, failed, rca_step, validation_step}
use sentinelops_ai.Rca.Errors.{
  LlmError, ValidationIssue, fallback_invalid, synthesis_not_reached, rca_validation_failed,
  analysis_complete,
}
use sentinelops_ai.Rca.Schemas.{RcaReport, InvestigationStep}
use sentinelops_ai.Rca.Validation.{validate_report}
use sentinelops_ai.Rca.Reasoner.{SynthesisResult, SynthesizeRequest}
use sentinelops_ai.Rca.Synthesis.{build_rca_report, build_fallback_report}
use sentinelops_ai.Rca.Engine.{
  GraphDeps, Meters, InvestigationState, synthesize_node, validate_node, asked, ids_of, step,
}
use sentinelops_ai.Rca.Nodes.{terminal, with_step, llm_terminal, guarded}

unfoldable pub synthesized :
    GraphDeps
    → Result LlmError SynthesisResult
    → InvestigationState
    → Meters
    → InvestigationState × Meters
unfolding llm_terminal build_rca_report step
synthesized d (err e) s m = (llm_terminal e s, m)
synthesized d (ok synthesis) s m =
    let (report, m1) =
      build_rca_report d s.incident s.evidence s.proposed_findings s.hypotheses synthesis m in
    let (entry, m2) = step d rca_step verifying none [] m1 in
    (
      record (with_step entry s) {
        status = verifying;
        synthesis = some synthesis;
        rca = some report;
        next = some validate_node;
      },
      m2,
    )

abbrev pub synthesize_request : GraphDeps → InvestigationState → SynthesizeRequest
synthesize_request d s = record {
  incident = s.incident;
  investigation_id = d.investigation_id;
  evidence = s.evidence;
  findings = s.proposed_findings;
  hypotheses = s.hypotheses;
  repair_errors = s.repair_errors;
}

abbrev pub synthesize_body : GraphDeps → InvestigationState → Meters → InvestigationState × Meters
synthesize_body d s m =
    synthesized d (d.llm.synthesize m.questions (synthesize_request d s)) s (asked m)

unfoldable pub synthesize : GraphDeps → InvestigationState → Meters → InvestigationState × Meters
unfolding guarded synthesized
synthesize d = guarded d synthesize_node verifying (synthesize_body d)

-- The branch without a report: the fallback, once it has been validated
unfoldable pub unreached :
    RcaReport
    → InvestigationStep
    → Result (List ValidationIssue) (Unit {0})
    → InvestigationState
    → InvestigationState
unreached report entry (ok _) s =
    terminal insufficient_evidence synthesis_not_reached
      (record (with_step entry s) { rca = some report })
unreached report entry (err errors) s =
    terminal failed (fallback_invalid errors) (with_step entry s)

unfoldable pub validate_unreached :
    GraphDeps → InvestigationState → Meters → InvestigationState × Meters
unfolding build_fallback_report step unreached validate_report
validate_unreached d s m =
    let (report, m1) = build_fallback_report d s.incident s.evidence s.hypotheses m in
    let (entry, m2) = step d validation_step insufficient_evidence none [] m1 in
    (unreached report entry (validate_report report (ids_of s.evidence)) s, m2)

-- The last resort after a failed repair
unfoldable pub fallen_back :
    GraphDeps
    → RcaReport
    → Result (List ValidationIssue) (Unit {0})
    → InvestigationState
    → Meters
    → InvestigationState × Meters
unfolding step
fallen_back d report (err errors) s m = (terminal failed (fallback_invalid errors) s, m)
fallen_back d report (ok _) s m =
    let (entry, after) = step d validation_step insufficient_evidence none [] m in
    (
      terminal insufficient_evidence rca_validation_failed
          (record (with_step entry s) { rca = some report }),
      after,
    )

unfoldable pub fall_back : GraphDeps → InvestigationState → Meters → InvestigationState × Meters
unfolding build_fallback_report fallen_back validate_report
fall_back d s m =
    let (report, after) = build_fallback_report d s.incident s.evidence s.hypotheses m in
    fallen_back d report (validate_report report (ids_of s.evidence)) s after

unfoldable pub repair :
    GraphDeps → List ValidationIssue → InvestigationState → Meters → InvestigationState × Meters
unfolding step
repair d errors s m =
    let (entry, after) = step d validation_step verifying none [] m in
    (
      record (with_step entry s) {
        status = verifying;
        repair_count = s.repair_count + 1;
        repair_errors = errors;
        next = some synthesize_node;
      },
      after,
    )

unfoldable pub validated :
    GraphDeps
    → RcaReport
    → Result (List ValidationIssue) (Unit {0})
    → InvestigationState
    → Meters
    → InvestigationState × Meters
unfolding repair fall_back step
validated d report (err errors) s m =
    if ltb s.repair_count d.max_repair_attempts then repair d errors s m else fall_back d s m
validated d report (ok _) s m =
    let (entry, after) = step d validation_step report.status none [] m in
    (terminal report.status analysis_complete (with_step entry s), after)

unfoldable pub validate_reached :
    GraphDeps → Option RcaReport → InvestigationState → Meters → InvestigationState × Meters
unfolding validate_unreached validated validate_report
validate_reached d none s m = validate_unreached d s m
validate_reached d (some report) s m =
    validated d report (validate_report report (ids_of s.evidence)) s m

unfoldable pub validate : GraphDeps → InvestigationState → Meters → InvestigationState × Meters
unfolding validate_reached
validate d s m = validate_reached d s.rca s m
