-- ===== src/Rca/Synthesis.antt =====
-- engine/synthesis.py: the assembly of a report from what the model proposed, and the fallback.
pub mod Valid
use sentinelops_ai.Prelude.{
  ℕ, suc, ◌+◌, ◌-◌, String, Bool, true, false, not, ◌&&◌, Option, none, some, List, [], ◌∷◌, ◌++◌,
  map, ltb, string_eq, ◌==◌, elem, keep_if, is_empty, length, no_text, append_text, if◌then◌else◌,
}
use sentinelops_ai.Prelude.Dict.{Dict, lookup}
use sentinelops_ai.Prelude.Names.{sorted_names}
use sentinelops_ai.Rca.Domain.{
  InvestigationStatus, completed, insufficient_evidence, Confidence, unknown, low, rank,
  FindingType, contributing_factor, is_contributing, investigate_further,
}
use sentinelops_ai.Rca.Errors.{ValidationIssue}
use sentinelops_ai.Rca.Schemas.{
  Evidence, Finding, Hypothesis, RootCause, RecommendedAction, TimelineEntry, InvestigationMetadata,
  RcaReport,
}
use sentinelops_ai.Rca.Tools.{EvidenceTool, tool_text, unavailable_tools}
use sentinelops_ai.Rca.Reasoner.{
  ProposedFinding, ProposedRootCause, ProposedAction, ProposedTimelineEntry, SynthesisResult,
  Conclusion, concluded_completed, concluded_insufficient,
}
use sentinelops_ai.Rca.Engine.{GraphDeps, Meters, now, ids_of}

-- `text or default`
abbrev pub or_text : String → String → String
or_text text default = if no_text text then default else text

-- `_keep_ids`
abbrev pub keep_ids : List String → List String → List String
keep_ids ids known = keep_if (λ i. elem i known) ids

-- The type that `_finding` gives: `force_type or pf.type`
abbrev pub forced : FindingType → Option FindingType → FindingType
forced own none = own
forced own (some t) = t

-- `_finding`
unfoldable pub finding : ℕ → ProposedFinding → List String → Option FindingType → Finding
finding seq p known force_type =
    let kept = keep_ids p.evidence_ids known in
    record {
      number = seq;
      type = forced p.type force_type;
      statement = p.statement;
      evidence_ids = kept;
      confidence = if is_empty kept then unknown else p.confidence;
    }

-- The findings and the contributing factors so far
pub record Sorted : Type 0 where
  pub findings : List Finding
  pub contributing : List Finding

abbrev next_number : Sorted → ℕ
next_number s = length s.findings + length s.contributing + 1

unfoldable pub add_factor : List String → Sorted → ProposedFinding → Sorted
unfolding finding
add_factor known s p = record s {
  contributing = s.contributing ++ finding (next_number s) p known (some contributing_factor) ∷ [];
}

unfoldable pub add_finding : List String → Sorted → ProposedFinding → Sorted
unfolding finding add_factor
add_finding known s p =
    if is_contributing p.type
    then add_factor known s p
    else record s { findings = s.findings ++ finding (next_number s) p known none ∷ [] }

-- The loop over the proposed findings
unfoldable pub sort_findings : List String → Sorted → List ProposedFinding → Sorted
unfolding add_finding
sort_findings known s [] = s
sort_findings known s (p ∷ ps) = sort_findings known (add_finding known s p) ps

-- The loop over the synthesis' contributing factors
unfoldable pub add_factors : List String → Sorted → List ProposedFinding → Sorted
unfolding add_factor
add_factors known s [] = s
add_factors known s (p ∷ ps) = add_factors known (add_factor known s p) ps

abbrev described : EvidenceTool → String
described t = append_text (tool_text t.name) (append_text ": " t.description)

unfoldable pub unavailable_sources : GraphDeps → List String
unfolding unavailable_tools
unavailable_sources d = map described (unavailable_tools d.registry)

unfoldable pub build_metadata : GraphDeps → ℕ → ℕ → String → Meters → InvestigationMetadata × Meters
build_metadata d started_at evidence_count reason m =
    let (at, after) = now d m in
    (
      record {
        mode = if d.mode == "mock" then "mock" else "live";
        llm_provider = d.llm.provider;
        model = d.llm.model;
        started_at = started_at;
        completed_at = at;
        duration = at - started_at;
        tool_call_count = m.usage.tool_calls;
        step_count = m.usage.steps;
        evidence_count = evidence_count;
        termination_reason = reason;
        limits = d.limits;
      },
      after,
    )

abbrev pub concluded_status : Conclusion → InvestigationStatus
concluded_status concluded_completed = completed
concluded_status concluded_insufficient = insufficient_evidence

-- The root cause with the evidence that is known; without any it is dropped.
unfoldable pub backed_cause : ProposedRootCause → List String → Option RootCause
backed_cause c kept =
    if is_empty kept
    then none
    else some (record {
      statement = c.statement;
      confidence = c.confidence;
      evidence_ids = kept;
      reasoning_summary = or_text c.reasoning_summary "See findings.";
    })

unfoldable pub reported_cause :
    Conclusion → List String → Option ProposedRootCause → Option RootCause
unfolding backed_cause
reported_cause concluded_insufficient known c = none
reported_cause concluded_completed known none = none
reported_cause concluded_completed known (some c) = backed_cause c (keep_ids c.evidence_ids known)

-- `overall` after both clamps
unfoldable pub clamped : Confidence → Option RootCause → Confidence
clamped overall (some c) = if ltb (rank c.confidence) (rank overall) then c.confidence else overall
clamped overall none = if ltb (rank low) (rank overall) then low else overall

unfoldable pub recommended : List String → ProposedAction → RecommendedAction
recommended known a = record {
  action_type = a.action_type;
  target_service = a.target_service;
  description = or_text a.description "Refer this incident to the service owner for review.";
  rationale = or_text a.rationale "Based on the collected evidence.";
  evidence_ids = keep_ids a.evidence_ids known;
  requires_human_approval = true;
}

unfoldable pub timeline_of : List String → List ProposedTimelineEntry → List TimelineEntry
timeline_of known [] = []
timeline_of known (t ∷ ts) =
    record { at = t.at; description = t.description; evidence_ids = keep_ids t.evidence_ids known }
    ∷ timeline_of known ts

-- A service that is named, as a list
abbrev named : Option String → List String
named none = []
named (some s) = if no_text s then [] else s ∷ []

unfoldable pub services_of : List Evidence → List String
services_of [] = []
services_of (e ∷ es) = named e.service ++ services_of es

abbrev incident_services : Dict String → List String
incident_services incident = named (lookup "service" incident)

abbrev completion_text : Conclusion → String
completion_text concluded_completed = "analysis_complete"
completion_text concluded_insufficient = "insufficient_evidence"

unfoldable pub build_rca_report :
    GraphDeps
    → Dict String
    → List Evidence
    → List ProposedFinding
    → List Hypothesis
    → SynthesisResult
    → Meters
    → RcaReport × Meters
unfolding sort_findings add_factors reported_cause clamped recommended timeline_of services_of
    sorted_names unavailable_sources build_metadata lookup
build_rca_report d incident evidence proposed hypotheses synthesis m =
    let known = ids_of evidence in
    let sorted =
      add_factors known (sort_findings known (record { findings = []; contributing = [] }) proposed)
        synthesis.contributing_factors in
    let cause = reported_cause synthesis.conclusion known synthesis.root_cause in
    let (metadata, after) =
      build_metadata d m.usage.started_at (length evidence) (completion_text synthesis.conclusion)
        m in
    (
      record {
        incident_id = d.incident_id;
        investigation_id = d.investigation_id;
        status = concluded_status synthesis.conclusion;
        summary = or_text synthesis.summary "Investigation summary unavailable.";
        severity = lookup "severity" incident;
        affected_services = sorted_names (services_of evidence ++ incident_services incident);
        timeline = timeline_of known synthesis.timeline;
        findings = sorted.findings;
        hypotheses = hypotheses;
        root_cause = cause;
        contributing_factors = sorted.contributing;
        recommended_action = recommended known synthesis.recommended_action;
        evidence = evidence;
        overall_confidence = clamped synthesis.overall_confidence cause;
        uncertainty = or_text synthesis.uncertainty "Uncertainty was not characterized.";
        unavailable_evidence_sources = unavailable_sources d;
        investigation_metadata = metadata;
      },
      after,
    )

-- `[evidence[0].id] if evidence else []`
abbrev pub anchor : List Evidence → List String
anchor [] = []
anchor (e ∷ es) = e.id ∷ []

abbrev service_or_unknown : Option String → String
service_or_unknown none = "unknown-service"
service_or_unknown (some s) = or_text s "unknown-service"

unfoldable pub fallback_summary : String → String
fallback_summary service =
    append_text "Automated investigation of the "
      (append_text service " incident did not produce a validated root-cause analysis.")

-- `uncertainty` ends in the first five errors, which are left out.
unfoldable pub build_fallback_report :
    GraphDeps → Dict String → List Evidence → List Hypothesis → Meters → RcaReport × Meters
unfolding unavailable_sources build_metadata lookup fallback_summary
build_fallback_report d incident evidence hypotheses m =
    let service = service_or_unknown (lookup "service" incident) in
    let (metadata, after) =
      build_metadata d m.usage.started_at (length evidence) "rca_validation_failed" m in
    (
      record {
        incident_id = d.incident_id;
        investigation_id = d.investigation_id;
        status = insufficient_evidence;
        summary = fallback_summary service;
        severity = lookup "severity" incident;
        affected_services = incident_services incident;
        timeline = [];
        findings = [];
        hypotheses = hypotheses;
        root_cause = none;
        contributing_factors = [];
        recommended_action = record {
          action_type = investigate_further;
          target_service = some service;
          description = "A human should review this incident manually.";
          rationale = "The automated analysis could not be validated.";
          evidence_ids = anchor evidence;
          requires_human_approval = true;
        };
        evidence = evidence;
        overall_confidence = low;
        uncertainty = "The automated analysis failed internal validation and was discarded: ";
        unavailable_evidence_sources = unavailable_sources d;
        investigation_metadata = metadata;
      },
      after,
    )
