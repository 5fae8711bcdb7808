-- ===== src/Rca/Validation/Grounded.antt =====
-- validation.py: what a report must be to pass the checks.
use sentinelops_ai.Prelude.{
  ◌≤◌, String, ◌≡◌, ◌≢◌, true, false, Option, none, some, List, [], ◌++◌, elem, string_eq, Every,
  strip, no_text,
}
use sentinelops_ai.Rca.Domain.{completed, rank, unknown, contributing_factor, status_eq}
use sentinelops_ai.Rca.Schemas.{Finding, Hypothesis, TimelineEntry, RootCause, RcaReport}

-- All ids are among the collected ones.
abbrev pub Known : List String → List String → Type 0
Known known ids = Every (λ i. elem i known ≡ true) ids

abbrev pub IsBacked : Finding → Type 0
IsBacked f = f.evidence_ids ≡ [] → f.confidence ≡ unknown

abbrev pub KnownFinding : List String → Finding → Type 0
KnownFinding known f = Known known f.evidence_ids

abbrev pub KnownHypothesis : List String → Hypothesis → Type 0
KnownHypothesis known h =
    Known known h.supporting_evidence_ids × Known known h.contradicting_evidence_ids

abbrev pub KnownEntry : List String → TimelineEntry → Type 0
KnownEntry known t = Known known t.evidence_ids

abbrev pub KnownCause : List String → Option RootCause → Type 0
KnownCause known none = Unit {0}
KnownCause known (some c) = Known known c.evidence_ids

-- A root cause stands on a completed report, has evidence, and is at least as sure as the report.
abbrev pub IsCause : RcaReport → Option RootCause → Type 0
IsCause r none = Unit {0}
IsCause r (some c) =
    (c.evidence_ids ≢ []) × (r.status ≡ completed) × (rank r.overall_confidence ≤ rank c.confidence)

-- What the report cites was collected, and what it claims is cited for.
pub record IsGrounded (known : List String) (r : RcaReport) : Type 0 where
  pub findings : Every (KnownFinding known) r.findings
  pub factors : Every (KnownFinding known) r.contributing_factors
  pub hypotheses : Every (KnownHypothesis known) r.hypotheses
  pub timeline : Every (KnownEntry known) r.timeline
  pub action : Known known r.recommended_action.evidence_ids
  pub cause_known : KnownCause known r.root_cause
  pub cause : IsCause r r.root_cause
  pub findings_backed : Every IsBacked (r.findings ++ r.contributing_factors)
  pub factors_typed : Every (λ (f : Finding). f.type ≡ contributing_factor) r.contributing_factors
  pub uncertainty : no_text (strip r.uncertainty) ≡ false
  pub approval : r.recommended_action.requires_human_approval ≡ true
