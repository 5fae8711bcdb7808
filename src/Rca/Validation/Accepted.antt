-- ===== src/Rca/Validation/Accepted.antt =====
-- validation.py: the checks of consistency, and the reports that pass all checks.
use sentinelops_ai.Prelude.{
  String, ◌≡◌, refl, ◌↔◌, ◌≢◌, Bool, true, false, not, ◌&&◌, Option, none, some, List, [], ◌∷◌,
  ◌++◌, arith, string_eq, Every, ++-eq-[], is_empty, strip, no_text, ok, leb, ltb, ltb-false, ◌==◌,
}
use sentinelops_ai.Rca.Domain.{
  insufficient_evidence, low, medium, high, Confidence, FindingType, completed, rank, unknown,
  contributing_factor, status_eq, same_status_iff, is_contributing,
}
use sentinelops_ai.Rca.Errors.{
  ValidationIssue, root_cause_on_insufficient, root_cause_without_evidence,
  root_cause_not_completed, overall_exceeds_root_cause, confidence_without_evidence,
  wrong_factor_type, uncertainty_not_stated, approval_not_required,
}
use sentinelops_ai.Rca.Schemas.{Finding, RootCause, RcaReport}
use sentinelops_ai.Rca.Validation.{
  validate_evidence_references, issue_if, root_cause_issues, has_cause, unbacked_findings,
  mistyped_factors, validate_consistency, validate_report, raise_all,
}
use sentinelops_ai.Rca.Validation.Grounded.{IsBacked, IsCause, IsGrounded}
use sentinelops_ai.Rca.Validation.References.{not-not, references_none, referenced-Known}

issue_none : (b : Bool) (i : ValidationIssue) → (issue_if b i ≡ []) ↔ (b ≡ false)
issue_none true i = (λ h. ground arith, λ h. ground arith)
issue_none false i = (λ h. refl, λ h. refl)

both_none : (xs ys : List ValidationIssue) → (xs ++ ys ≡ []) ↔ ((xs ≡ []) × (ys ≡ []))
both_none xs ys = (++-eq-[] xs ys, λ h. rw (h.0, h.1) refl)

unbacked_if :
    (ids : List String) (c : Confidence)
    → ((leb 1 (rank c) && is_empty ids) ≡ false) ↔ (ids ≡ [] → c ≡ unknown)
unbacked_if (x ∷ xs) c = (λ h e. ground arith, λ h. ground arith)
unbacked_if [] unknown = (λ h e. refl, λ h. refl)
unbacked_if [] low = (λ h. ground arith, λ h. ground (arith, h refl))
unbacked_if [] medium = (λ h. ground arith, λ h. ground (arith, h refl))
unbacked_if [] high = (λ h. ground arith, λ h. ground (arith, h refl))

unbacked_none : (fs : List Finding) → (unbacked_findings fs ≡ []) ↔ Every IsBacked fs
unfolding unbacked_findings
unbacked_none [] = (λ h. tt, λ h. refl)
unbacked_none (f ∷ fs) =
    let split =
      both_none
        (issue_if (leb 1 (rank f.confidence) && is_empty f.evidence_ids)
          confidence_without_evidence)
        (unbacked_findings fs) in
    let head =
      issue_none (leb 1 (rank f.confidence) && is_empty f.evidence_ids)
        confidence_without_evidence in
    (
      λ h. (
        (unbacked_if f.evidence_ids f.confidence).0 (head.0 (split.0 h).0),
        (unbacked_none fs).0 (split.0 h).1,
      ),
      λ h.
          split.1
            (head.1 ((unbacked_if f.evidence_ids f.confidence).1 h.0), (unbacked_none fs).1 h.1),
    )

typed_if : (t : FindingType) → (not (is_contributing t) ≡ false) ↔ (t ≡ contributing_factor)
typed_if t = ground arith

mistyped_none :
    (fs : List Finding)
    → (mistyped_factors fs ≡ []) ↔ Every (λ (f : Finding). f.type ≡ contributing_factor) fs
unfolding mistyped_factors
mistyped_none [] = (λ h. tt, λ h. refl)
mistyped_none (f ∷ fs) =
    let split =
      both_none (issue_if (not (is_contributing f.type)) wrong_factor_type) (mistyped_factors fs) in
    let head = issue_none (not (is_contributing f.type)) wrong_factor_type in
    (
      λ h. ((typed_if f.type).0 (head.0 (split.0 h).0), (mistyped_none fs).0 (split.0 h).1),
      λ h. split.1 (head.1 ((typed_if f.type).1 h.0), (mistyped_none fs).1 h.1),
    )

empty_if : (xs : List String) → (is_empty xs ≡ false) ↔ (xs ≢ [])
empty_if [] = (λ h. ground arith, λ h. absurd (h refl))
empty_if (x ∷ xs) = (λ h e. ground arith, λ h. refl)

causes_none : (r : RcaReport) (c : Option RootCause) → (root_cause_issues r c ≡ []) ↔ IsCause r c
unfolding root_cause_issues
causes_none r none = (λ h. tt, λ h. refl)
causes_none r (some c) =
    let bare = issue_if (is_empty c.evidence_ids) root_cause_without_evidence in
    let open_report = issue_if (not (r.status == completed)) root_cause_not_completed in
    let surer = ltb (rank c.confidence) (rank r.overall_confidence) in
    let last = both_none (bare ++ open_report) (issue_if surer overall_exceeds_root_cause) in
    let first = both_none bare open_report in
    let one = issue_none (is_empty c.evidence_ids) root_cause_without_evidence in
    let two = issue_none (not (r.status == completed)) root_cause_not_completed in
    let three = issue_none surer overall_exceeds_root_cause in
    (
      λ h.
          let (p, q) = last.0 h in
          let (p1, p2) = first.0 p in
          (
            (empty_if c.evidence_ids).0 (one.0 p1),
            (same_status_iff r.status completed).0 ((not-not (r.status == completed)).0 (two.0 p2)),
            (ltb-false (rank c.confidence) (rank r.overall_confidence)).0 (three.0 q),
          ),
      λ h. last.1 (
        first.1 (
          one.1 ((empty_if c.evidence_ids).1 h.0),
          two.1 ((not-not (r.status == completed)).1 ((same_status_iff r.status completed).1 h.1)),
        ),
        three.1 ((ltb-false (rank c.confidence) (rank r.overall_confidence)).1 h.2),
      ),
    )

-- A completed report is not an insufficient one, so the first check adds nothing to the others.
cause_excludes :
    (r : RcaReport) (c : Option RootCause)
    → IsCause r c
    → (r.status == insufficient_evidence && has_cause c) ≡ false
cause_excludes r none h = ground arith
cause_excludes r (some c) h = rw h.1 refl

consistency_none :
    (r : RcaReport)
    → (validate_consistency r ≡ []) ↔ (
        IsCause r r.root_cause
        × Every IsBacked (r.findings ++ r.contributing_factors)
        × Every (λ (f : Finding). f.type ≡ contributing_factor) r.contributing_factors
        × (no_text (strip r.uncertainty) ≡ false)
        × (r.recommended_action.requires_human_approval ≡ true))
unfolding validate_consistency
consistency_none r =
    let a =
      issue_if (r.status == insufficient_evidence && has_cause r.root_cause)
        root_cause_on_insufficient in
    let b = root_cause_issues r r.root_cause in
    let c = unbacked_findings (r.findings ++ r.contributing_factors) in
    let d = mistyped_factors r.contributing_factors in
    let e = issue_if (no_text (strip r.uncertainty)) uncertainty_not_stated in
    let f = issue_if (not r.recommended_action.requires_human_approval) approval_not_required in
    let approval = not-not r.recommended_action.requires_human_approval in
    (
      λ h.
          let (h5, hf) = (both_none (a ++ b ++ c ++ d ++ e) f).0 h in
          let (h4, he) = (both_none (a ++ b ++ c ++ d) e).0 h5 in
          let (h3, hd) = (both_none (a ++ b ++ c) d).0 h4 in
          let (h2, hc) = (both_none (a ++ b) c).0 h3 in
          let (ha, hb) = (both_none a b).0 h2 in
          (
            (causes_none r r.root_cause).0 hb,
            (unbacked_none (r.findings ++ r.contributing_factors)).0 hc,
            (mistyped_none r.contributing_factors).0 hd,
            (issue_none _ uncertainty_not_stated).0 he,
            approval.0 ((issue_none _ approval_not_required).0 hf),
          ),
      λ h. (both_none (a ++ b ++ c ++ d ++ e) f).1 (
        (both_none (a ++ b ++ c ++ d) e).1 (
          (both_none (a ++ b ++ c) d).1 (
            (both_none (a ++ b) c).1 (
              (both_none a b).1 (
                (issue_none _ root_cause_on_insufficient).1 (cause_excludes r r.root_cause h.0),
                (causes_none r r.root_cause).1 h.0,
              ),
              (unbacked_none (r.findings ++ r.contributing_factors)).1 h.1,
            ),
            (mistyped_none r.contributing_factors).1 h.2,
          ),
          (issue_none _ uncertainty_not_stated).1 h.3,
        ),
        (issue_none _ approval_not_required).1 (approval.1 h.4),
      ),
    )

checked_ok : (xs : List ValidationIssue) → (raise_all xs ≡ ok tt) ↔ (xs ≡ [])
checked_ok [] = (λ h. refl, λ h. refl)
checked_ok (x ∷ xs) = (λ h. ground arith, λ h. ground arith)

-- A report passes validation exactly when it is grounded: every evidence id that it cites in any
-- section was collected, a root cause stands on a completed report, has evidence and is at least
-- as sure as the report, a finding without evidence claims no confidence, a contributing factor
-- has its type, uncertainty is stated, and the recommended action requires a human's approval.
pub validate_report_iff :
    (r : RcaReport) (known : List String) → (validate_report r known ≡ ok tt) ↔ IsGrounded known r
unfolding validate_report
validate_report_iff r known =
    let refs = validate_evidence_references r known in
    let rest = validate_consistency r in
    let checked = checked_ok (refs ++ rest) in
    (
      λ h.
          let (p, q) = (both_none refs rest).0 (checked.0 h) in
          let known_ids = (referenced-Known r known).0 ((references_none r known).0 p) in
          let claims = (consistency_none r).0 q in
          record {
            findings = known_ids.findings;
            factors = known_ids.factors;
            hypotheses = known_ids.hypotheses;
            timeline = known_ids.timeline;
            action = known_ids.action;
            cause_known = known_ids.cause;
            cause = claims.0;
            findings_backed = claims.1;
            factors_typed = claims.2;
            uncertainty = claims.3;
            approval = claims.4;
          },
      λ g. checked.1 (
          (both_none refs rest).1 (
            (references_none r known).1 (
                (referenced-Known r known).1 (record {
                  findings = g.findings;
                  factors = g.factors;
                  hypotheses = g.hypotheses;
                  timeline = g.timeline;
                  action = g.action;
                  cause = g.cause_known;
                })),
            (consistency_none r).1
                (g.cause, g.findings_backed, g.factors_typed, g.uncertainty, g.approval),
          )),
    )
