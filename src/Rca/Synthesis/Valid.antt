-- ===== src/Rca/Synthesis/Valid.antt =====
-- engine/synthesis.py: when an assembled report passes validation.
use sentinelops_ai.Prelude.{
  ◌≤◌, ◌≡◌, refl, ◌↔◌, inl, inr, String, false, Option, none, some, List, [], ◌∷◌, arith, eq_iff,
  string_eq, elem, keep_if-Every, is_empty, Every, Every-append, no_text, strip, lstrip, rstrip,
  is_space, Bool-cases, ok, if◌then◌else◌,
}
use sentinelops_ai.Prelude.Dict.{Dict}
use sentinelops_ai.Rca.Domain.{
  Confidence, completed, unknown, rank, contributing_factor, is_contributing,
}
use sentinelops_ai.Rca.Schemas.{Evidence, Finding, Hypothesis, RootCause, RcaReport}
use sentinelops_ai.Rca.Validation.{validate_report}
use sentinelops_ai.Rca.Validation.Accepted.{validate_report_iff}
use sentinelops_ai.Rca.Validation.Grounded.{
  Known, IsBacked, KnownFinding, KnownHypothesis, KnownEntry, KnownCause, IsCause, IsGrounded,
}
use sentinelops_ai.Rca.Reasoner.{
  ProposedFinding, ProposedRootCause, ProposedTimelineEntry, SynthesisResult, Conclusion,
  concluded_completed, concluded_insufficient,
}
use sentinelops_ai.Rca.Engine.{GraphDeps, Meters, ids_of}
use sentinelops_ai.Rca.Synthesis.{
  or_text, keep_ids, Sorted, add_factor, add_finding, sort_findings, add_factors, reported_cause,
  backed_cause, clamped, recommended, timeline_of, concluded_status, build_rca_report, anchor,
  build_fallback_report,
}

pub keep_ids-Known : (ids known : List String) → Known known (keep_ids ids known)
keep_ids-Known ids known = keep_if-Every (λ i. elem i known) ids

-- The findings gathered so far cite known evidence, and claim nothing without it.
record IsSorted (known : List String) (s : Sorted) : Type 0 where
  findings : Every (KnownFinding known) s.findings
  findings_backed : Every IsBacked s.findings
  factors : Every (KnownFinding known) s.contributing
  factors_backed : Every IsBacked s.contributing
  factors_typed : Every (λ (f : Finding). f.type ≡ contributing_factor) s.contributing

unbacked_unknown :
    (p : ProposedFinding) (known : List String)
    → keep_ids p.evidence_ids known ≡ []
    → (if is_empty (keep_ids p.evidence_ids known) then unknown else p.confidence) ≡ unknown
unbacked_unknown p known e = rw e refl

module _ (known : List String) where
  add_factor-IsSorted :
      (s : Sorted) (p : ProposedFinding) → IsSorted known s → IsSorted known (add_factor known s p)
  unfolding add_factor
  add_factor-IsSorted s p h = record {
    findings = h.findings;
    findings_backed = h.findings_backed;
    factors =
        Every-append (KnownFinding known) s.contributing _ h.factors
          (keep_ids-Known p.evidence_ids known, tt);
    factors_backed =
        Every-append IsBacked s.contributing _ h.factors_backed (unbacked_unknown p known, tt);
    factors_typed =
        Every-append (λ (f : Finding). f.type ≡ contributing_factor) s.contributing _
          h.factors_typed (refl, tt);
  }

  add_finding-IsSorted :
      (s : Sorted) (p : ProposedFinding) → IsSorted known s → IsSorted known (add_finding known s p)
  unfolding add_finding
  add_finding-IsSorted s p h = elim (Bool-cases (is_contributing p.type)) [
    | inl e ↦ rw e (add_factor-IsSorted s p h)
    | inr e ↦ rw e (record {
      findings =
          Every-append (KnownFinding known) s.findings _ h.findings
            (keep_ids-Known p.evidence_ids known, tt);
      findings_backed =
          Every-append IsBacked s.findings _ h.findings_backed (unbacked_unknown p known, tt);
      factors = h.factors;
      factors_backed = h.factors_backed;
      factors_typed = h.factors_typed;
    })
  ]

  sort_findings-IsSorted :
      (ps : List ProposedFinding) (s : Sorted)
      → IsSorted known s
      → IsSorted known (sort_findings known s ps)
  unfolding sort_findings
  sort_findings-IsSorted [] s h = h
  sort_findings-IsSorted (p ∷ ps) s h =
      sort_findings-IsSorted ps (add_finding known s p) (add_finding-IsSorted s p h)

  add_factors-IsSorted :
      (ps : List ProposedFinding) (s : Sorted)
      → IsSorted known s
      → IsSorted known (add_factors known s ps)
  unfolding add_factors
  add_factors-IsSorted [] s h = h
  add_factors-IsSorted (p ∷ ps) s h =
      add_factors-IsSorted ps (add_factor known s p) (add_factor-IsSorted s p h)

  timeline_of-Known :
      (ts : List ProposedTimelineEntry) → Every (KnownEntry known) (timeline_of known ts)
  unfolding timeline_of
  timeline_of-Known [] = tt
  timeline_of-Known (t ∷ ts) = (keep_ids-Known t.evidence_ids known, timeline_of-Known ts)

reported_cause-Known :
    (c : Conclusion) (known : List String) (p : Option ProposedRootCause)
    → KnownCause known (reported_cause c known p)
unfolding reported_cause backed_cause
reported_cause-Known concluded_insufficient known p = tt
reported_cause-Known concluded_completed known none = tt
reported_cause-Known concluded_completed known (some p) =
    elim (Bool-cases (is_empty (keep_ids p.evidence_ids known))) [
      | inl e ↦ rw e tt
      | inr e ↦ rw e (keep_ids-Known p.evidence_ids known)
    ]

-- The clamps make the report no surer than its root cause.
clamped-le :
    (overall : Confidence) (c : RootCause) → rank (clamped overall (some c)) ≤ rank c.confidence
unfolding clamped
clamped-le overall c = ground arith

module _ (r : RcaReport) (overall : Confidence) where
  backed_cause-IsCause :
      (p : ProposedRootCause) (kept : List String)
      → r.status ≡ completed
      → r.overall_confidence ≡ clamped overall (backed_cause p kept)
      → IsCause r (backed_cause p kept)
  unfolding backed_cause
  backed_cause-IsCause p [] done e = tt
  backed_cause-IsCause p (x ∷ xs) done e = (
    λ h. ground arith,
    done,
    rw e (
        clamped-le overall (record {
          statement = p.statement;
          confidence = p.confidence;
          evidence_ids = x ∷ xs;
          reasoning_summary = or_text p.reasoning_summary "See findings.";
        })),
  )

  reported_cause-IsCause :
      (c : Conclusion) (known : List String) (p : Option ProposedRootCause)
      → r.status ≡ concluded_status c
      → r.overall_confidence ≡ clamped overall (reported_cause c known p)
      → IsCause r (reported_cause c known p)
  unfolding reported_cause
  reported_cause-IsCause concluded_insufficient known p done e = tt
  reported_cause-IsCause concluded_completed known none done e = tt
  reported_cause-IsCause concluded_completed known (some p) done e =
      backed_cause-IsCause p (keep_ids p.evidence_ids known) done e

-- The text that is stored: the model's, or a default for an empty one
abbrev pub stated : String → String
stated u = or_text u "Uncertainty was not characterized."

anchor-Known : (es : List Evidence) → Known (ids_of es) (anchor es)
anchor-Known [] = tt
anchor-Known (e ∷ es) = (rw ((eq_iff e.id e.id).1 refl) refl, tt)

module _ (d : GraphDeps) (incident : Dict String) (evidence : List Evidence)
    (hypotheses : List Hypothesis) (m : Meters)
    (cited : Every (KnownHypothesis (ids_of evidence)) hypotheses) where
  build_rca_report-IsGrounded :
      (proposed : List ProposedFinding) (synthesis : SynthesisResult)
      → no_text (strip (stated synthesis.uncertainty)) ≡ false
      → IsGrounded
          (ids_of evidence)
          (build_rca_report d incident evidence proposed hypotheses synthesis m).0
  unfolding build_rca_report recommended
  build_rca_report-IsGrounded proposed synthesis text =
      let known = ids_of evidence in
      let none_yet : IsSorted known (record { findings = []; contributing = [] }) = record {
        findings = tt;
        findings_backed = tt;
        factors = tt;
        factors_backed = tt;
        factors_typed = tt;
      } in
      let sorted =
        add_factors-IsSorted known synthesis.contributing_factors _
          (sort_findings-IsSorted known proposed _ none_yet) in
      record {
        findings = sorted.findings;
        factors = sorted.factors;
        hypotheses = cited;
        timeline = timeline_of-Known known synthesis.timeline;
        action = keep_ids-Known synthesis.recommended_action.evidence_ids known;
        cause_known = reported_cause-Known synthesis.conclusion known synthesis.root_cause;
        cause =
            reported_cause-IsCause
              (build_rca_report d incident evidence proposed hypotheses synthesis m).0
              synthesis.overall_confidence synthesis.conclusion known synthesis.root_cause refl
              refl;
        findings_backed = Every-append IsBacked _ _ sorted.findings_backed sorted.factors_backed;
        factors_typed = sorted.factors_typed;
        uncertainty = text;
        approval = refl;
      }

  -- A report that the code assembles from a model's synthesis, over hypotheses that cite collected
  -- evidence, passes validation exactly when the text that states the uncertainty is not blank;
  -- an empty text counts, since a default takes its place.
  pub build_rca_report_valid :
      (proposed : List ProposedFinding) (synthesis : SynthesisResult)
      → (validate_report
            (build_rca_report d incident evidence proposed hypotheses synthesis m).0
            (ids_of evidence)
          ≡ ok tt)
        ↔ (no_text (strip (stated synthesis.uncertainty)) ≡ false)
  unfolding build_rca_report
  build_rca_report_valid proposed synthesis =
      let report = (build_rca_report d incident evidence proposed hypotheses synthesis m).0 in
      let valid = validate_report_iff report (ids_of evidence) in
      (
        λ h. (valid.0 h).uncertainty,
        λ h. valid.1 (build_rca_report-IsGrounded proposed synthesis h),
      )

  pub build_fallback_report-IsGrounded :
      IsGrounded (ids_of evidence) (build_fallback_report d incident evidence hypotheses m).0
  unfolding build_fallback_report strip lstrip rstrip is_space
  build_fallback_report-IsGrounded = record {
    findings = tt;
    factors = tt;
    hypotheses = cited;
    timeline = tt;
    action = anchor-Known evidence;
    cause_known = tt;
    cause = tt;
    findings_backed = tt;
    factors_typed = tt;
    uncertainty = refl;
    approval = refl;
  }
