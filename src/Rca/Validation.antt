-- ===== src/Rca/Validation.antt =====
-- validation.py: the deterministic checks of a report before it is stored or returned.
pub mod Grounded
pub mod References
pub mod Accepted
use sentinelops_ai.Prelude.{
  String, Bool, true, false, not, ◌&&◌, Option, none, some, List, [], ◌∷◌, ◌++◌, map, ltb, leb,
  string_eq, ◌==◌, elem, keep_if, is_empty, strip, no_text, if◌then◌else◌, Result, ok, err,
}
use sentinelops_ai.Prelude.Names.{sorted_names}
use sentinelops_ai.Rca.Domain.{
  completed, insufficient_evidence, status_eq, low, rank, is_contributing,
}
use sentinelops_ai.Rca.Errors.{
  ValidationIssue, evidence_not_collected, root_cause_on_insufficient, root_cause_without_evidence,
  root_cause_not_completed, overall_exceeds_root_cause, confidence_without_evidence,
  wrong_factor_type, uncertainty_not_stated, approval_not_required,
}
use sentinelops_ai.Rca.Schemas.{Finding, Hypothesis, TimelineEntry, RootCause, RcaReport}

unfoldable pub cited_by_findings : List Finding → List String
cited_by_findings [] = []
cited_by_findings (f ∷ fs) = f.evidence_ids ++ cited_by_findings fs

unfoldable pub cited_by_hypotheses : List Hypothesis → List String
cited_by_hypotheses [] = []
cited_by_hypotheses (h ∷ hs) =
    h.supporting_evidence_ids ++ h.contradicting_evidence_ids ++ cited_by_hypotheses hs

unfoldable pub cited_by_timeline : List TimelineEntry → List String
cited_by_timeline [] = []
cited_by_timeline (t ∷ ts) = t.evidence_ids ++ cited_by_timeline ts

unfoldable pub cited_by_root_cause : Option RootCause → List String
cited_by_root_cause none = []
cited_by_root_cause (some c) = c.evidence_ids

-- The set of `referenced_evidence_ids` as a list
unfoldable pub referenced_evidence_ids : RcaReport → List String
unfolding cited_by_findings cited_by_hypotheses cited_by_timeline cited_by_root_cause
referenced_evidence_ids r =
    cited_by_findings r.findings
    ++ cited_by_findings r.contributing_factors
    ++ cited_by_hypotheses r.hypotheses
    ++ cited_by_timeline r.timeline
    ++ r.recommended_action.evidence_ids
    ++ cited_by_root_cause r.root_cause

unfoldable pub validate_evidence_references : RcaReport → List String → List ValidationIssue
unfolding referenced_evidence_ids sorted_names
validate_evidence_references r known =
    map evidence_not_collected
      (sorted_names (keep_if (λ i. not (elem i known)) (referenced_evidence_ids r)))

abbrev pub issue_if : Bool → ValidationIssue → List ValidationIssue
issue_if b i = if b then i ∷ [] else []

-- The three checks of a root cause
unfoldable pub root_cause_issues : RcaReport → Option RootCause → List ValidationIssue
root_cause_issues r none = []
root_cause_issues r (some c) =
    issue_if (is_empty c.evidence_ids) root_cause_without_evidence
    ++ issue_if (not (r.status == completed)) root_cause_not_completed
    ++ issue_if (ltb (rank c.confidence) (rank r.overall_confidence)) overall_exceeds_root_cause

abbrev pub has_cause : Option RootCause → Bool
has_cause none = false
has_cause (some c) = true

unfoldable pub unbacked_findings : List Finding → List ValidationIssue
unbacked_findings [] = []
unbacked_findings (f ∷ fs) =
    issue_if (leb (rank low) (rank f.confidence) && is_empty f.evidence_ids)
      confidence_without_evidence
    ++ unbacked_findings fs

unfoldable pub mistyped_factors : List Finding → List ValidationIssue
mistyped_factors [] = []
mistyped_factors (f ∷ fs) =
    issue_if (not (is_contributing f.type)) wrong_factor_type ++ mistyped_factors fs

unfoldable pub validate_consistency : RcaReport → List ValidationIssue
unfolding root_cause_issues unbacked_findings mistyped_factors strip
validate_consistency r =
    issue_if (r.status == insufficient_evidence && has_cause r.root_cause)
      root_cause_on_insufficient
    ++ root_cause_issues r r.root_cause
    ++ unbacked_findings (r.findings ++ r.contributing_factors)
    ++ mistyped_factors r.contributing_factors
    ++ issue_if (no_text (strip r.uncertainty)) uncertainty_not_stated
    ++ issue_if (not r.recommended_action.requires_human_approval) approval_not_required

-- `if errors: raise RcaValidationError(errors)`
abbrev pub raise_all : List ValidationIssue → Result (List ValidationIssue) (Unit {0})
raise_all [] = ok tt
raise_all (e ∷ es) = err (e ∷ es)

unfoldable pub validate_report : RcaReport → List String → Result (List ValidationIssue) (Unit {0})
unfolding validate_evidence_references validate_consistency
validate_report r known = raise_all (validate_evidence_references r known ++ validate_consistency r)
