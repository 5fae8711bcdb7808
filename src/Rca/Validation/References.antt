-- ===== src/Rca/Validation/References.antt =====
-- validation.py: the check that what a report cites was collected.
use sentinelops_ai.Prelude.{
  String, ◌≡◌, refl, ◌↔◌, ◌≢◌, Bool, true, false, not, Option, none, some, List, [], ◌∷◌, ◌++◌, map,
  arith, elem, string_eq, keep_if, keep_if_none, Every, Every-append, append-Every, Every-map,
}
use sentinelops_ai.Prelude.Names.{sorted_names, insert_name}
use sentinelops_ai.Rca.Domain.{status_eq}
use sentinelops_ai.Rca.Errors.{evidence_not_collected}
use sentinelops_ai.Rca.Schemas.{Finding, Hypothesis, TimelineEntry, RootCause, RcaReport}
use sentinelops_ai.Rca.Validation.{
  cited_by_findings, cited_by_hypotheses, cited_by_timeline, cited_by_root_cause,
  referenced_evidence_ids, validate_evidence_references,
}
use sentinelops_ai.Rca.Validation.Grounded.{
  Known, KnownFinding, KnownHypothesis, KnownEntry, KnownCause,
}

insert_name-ne-[] : (n : String) (ms : List String) → insert_name n ms ≢ []
unfolding insert_name
insert_name-ne-[] n [] h = ground arith
insert_name-ne-[] n (m ∷ ms) h = ground arith

map_none : (xs : List String) → map evidence_not_collected xs ≡ [] → xs ≡ []
map_none [] h = refl
map_none (x ∷ xs) h = ground arith

sorted_none : (xs : List String) → (map evidence_not_collected (sorted_names xs) ≡ []) ↔ (xs ≡ [])
unfolding sorted_names
sorted_none [] = (λ h. refl, λ h. refl)
sorted_none (x ∷ xs) = (
  λ h.
      absurd (insert_name-ne-[] x (sorted_names xs) (map_none (insert_name x (sorted_names xs)) h)),
  λ h. ground arith,
)

pub not-not : (b : Bool) → (not b ≡ false) ↔ (b ≡ true)
not-not true = (λ h. refl, λ h. refl)
not-not false = (λ h. ground arith, λ h. ground arith)

pub references_none :
    (r : RcaReport) (known : List String)
    → (validate_evidence_references r known ≡ []) ↔ Known known (referenced_evidence_ids r)
unfolding validate_evidence_references
references_none r known =
    let ids = referenced_evidence_ids r in
    let missing = keep_if_none (λ (i : String). not (elem i known)) ids in
    let sorted = sorted_none (keep_if (λ (i : String). not (elem i known)) ids) in
    (
      λ h.
          Every-map (λ i. not (elem i known) ≡ false) (λ i. elem i known ≡ true) ids
            (λ i. (not-not (elem i known)).0) (missing.0 (sorted.0 h)),
      λ h. sorted.1 (
          missing.1 (
            Every-map (λ i. elem i known ≡ true) (λ i. not (elem i known) ≡ false) ids
              (λ i. (not-not (elem i known)).1) h)),
    )

-- A property of the ids that a section cites is one of each of its items.
module _ (P : String → Type 0) where
  cited_findings :
      (fs : List Finding)
      → Every P (cited_by_findings fs) ↔ Every (λ (f : Finding). Every P f.evidence_ids) fs
  unfolding cited_by_findings
  cited_findings [] = (λ h. h, λ h. h)
  cited_findings (f ∷ fs) = (
    λ h.
        let (a, b) = append-Every P f.evidence_ids (cited_by_findings fs) h in
        (a, (cited_findings fs).0 b),
    λ h. Every-append P f.evidence_ids (cited_by_findings fs) h.0 ((cited_findings fs).1 h.1),
  )

  cited_timeline :
      (ts : List TimelineEntry)
      → Every P (cited_by_timeline ts) ↔ Every (λ (t : TimelineEntry). Every P t.evidence_ids) ts
  unfolding cited_by_timeline
  cited_timeline [] = (λ h. h, λ h. h)
  cited_timeline (t ∷ ts) = (
    λ h.
        let (a, b) = append-Every P t.evidence_ids (cited_by_timeline ts) h in
        (a, (cited_timeline ts).0 b),
    λ h. Every-append P t.evidence_ids (cited_by_timeline ts) h.0 ((cited_timeline ts).1 h.1),
  )

  cited_hypotheses :
      (hs : List Hypothesis)
      → Every P (cited_by_hypotheses hs)
        ↔ Every
            (λ (h : Hypothesis).
              Every P h.supporting_evidence_ids × Every P h.contradicting_evidence_ids)
            hs
  unfolding cited_by_hypotheses
  cited_hypotheses [] = (λ h. h, λ h. h)
  cited_hypotheses (y ∷ ys) =
      let own = y.supporting_evidence_ids ++ y.contradicting_evidence_ids in
      (
        λ h.
            let (a, b) = append-Every P own (cited_by_hypotheses ys) h in
            (
              append-Every P y.supporting_evidence_ids y.contradicting_evidence_ids a,
              (cited_hypotheses ys).0 b,
            ),
        λ h.
            Every-append P own (cited_by_hypotheses ys)
              (Every-append P y.supporting_evidence_ids y.contradicting_evidence_ids h.0.0 h.0.1)
              ((cited_hypotheses ys).1 h.1),
      )

-- The sections of a report that cite evidence
pub record IsKnown (known : List String) (r : RcaReport) : Type 0 where
  pub findings : Every (KnownFinding known) r.findings
  pub factors : Every (KnownFinding known) r.contributing_factors
  pub hypotheses : Every (KnownHypothesis known) r.hypotheses
  pub timeline : Every (KnownEntry known) r.timeline
  pub action : Known known r.recommended_action.evidence_ids
  pub cause : KnownCause known r.root_cause

cause_cited :
    (known : List String) (c : Option RootCause)
    → Known known (cited_by_root_cause c) ↔ KnownCause known c
unfolding cited_by_root_cause
cause_cited known none = (λ h. h, λ h. h)
cause_cited known (some c) = (λ h. h, λ h. h)

pub referenced-Known :
    (r : RcaReport) (known : List String)
    → Known known (referenced_evidence_ids r) ↔ IsKnown known r
unfolding referenced_evidence_ids
referenced-Known r known =
    let P = λ (i : String). elem i known ≡ true in
    let a = cited_by_findings r.findings in
    let b = cited_by_findings r.contributing_factors in
    let c = cited_by_hypotheses r.hypotheses in
    let d = cited_by_timeline r.timeline in
    let e = r.recommended_action.evidence_ids in
    let f = cited_by_root_cause r.root_cause in
    (
      λ h.
          let (h5, hf) = append-Every P (a ++ b ++ c ++ d ++ e) f h in
          let (h4, he) = append-Every P (a ++ b ++ c ++ d) e h5 in
          let (h3, hd) = append-Every P (a ++ b ++ c) d h4 in
          let (h2, hc) = append-Every P (a ++ b) c h3 in
          let (ha, hb) = append-Every P a b h2 in
          record {
            findings = (cited_findings P r.findings).0 ha;
            factors = (cited_findings P r.contributing_factors).0 hb;
            hypotheses = (cited_hypotheses P r.hypotheses).0 hc;
            timeline = (cited_timeline P r.timeline).0 hd;
            action = he;
            cause = (cause_cited known r.root_cause).0 hf;
          },
      λ h.
          Every-append P (a ++ b ++ c ++ d ++ e) f
            (Every-append P (a ++ b ++ c ++ d) e
              (Every-append P (a ++ b ++ c) d
                (Every-append P (a ++ b) c
                  (Every-append P a b ((cited_findings P r.findings).1 h.findings)
                    ((cited_findings P r.contributing_factors).1 h.factors))
                  ((cited_hypotheses P r.hypotheses).1 h.hypotheses))
                ((cited_timeline P r.timeline).1 h.timeline))
              h.action)
            ((cause_cited known r.root_cause).1 h.cause),
    )
