-- ===== src/Remediation/Coherence/Writes/Records.antt =====
-- `record_decision` and `create`: what they have found and written where they succeed.
use sentinelops_ai.Prelude.{
  ◌+◌, String, ◌≡◌, sym, ap, ◌∙◌, subst, none, some, List, [], ◌∷◌, ◌++◌, string_eq, arith, ok,
  Option-cases, inl, inr,
}
use sentinelops_ai.Prelude.Dict.{lookup, insert, lookup-insert, has_key-lookup}
use sentinelops_ai.Remediation.Enums.{status_eq}
use sentinelops_ai.Remediation.Target.{RemediationApproval}
use sentinelops_ai.Remediation.Proposal.{RemediationProposal}
use sentinelops_ai.Remediation.Audit.{AuditEvent}
use sentinelops_ai.Remediation.Record.{RemediationRecord, status_of, with_proposal, with_approval}
use sentinelops_ai.Remediation.Repository.{Store, create, record_decision}
use sentinelops_ai.Remediation.Coherence.{runs, IsCoherent}
use sentinelops_ai.Remediation.Coherence.Updates.{
  Updated, Trailed, trail-append, start-append, unchanged_row,
}
use sentinelops_ai.Remediation.Coherence.Writes.{rows_kept}

module _ (rid : String) (s : Store) (u : RemediationRecord) (s' : Store) (h : IsCoherent s) where
  record_decision-inv :
      (p : RemediationProposal) (a : RemediationApproval) (events : List AuditEvent)
      → record_decision rid p a events s ≡ ok (u, s')
      → (c : RemediationRecord) × (lookup rid s.records ≡ some c)
        × (c.approval ≡ none)
        × (u ≡ with_approval a (with_proposal p c))
        × (s' ≡ record s { records = insert rid u s.records; audit = s.audit ++ events })
  unfolding record_decision with_proposal with_approval
  record_decision-inv p a events e = elim (Option-cases (lookup rid s.records)) [
    | inl n ↦ absurd ground arith
    | inr (r, l) ↦ (r, l, ground arith, ground arith, ground arith)
  ]

  pub record_decision-Wrote :
      (p : RemediationProposal) (a : RemediationApproval) (c : RemediationRecord)
      (events : List AuditEvent)
      → lookup rid s.records ≡ some c
      → Trailed rid p.status 0 events
      → record_decision rid p a events s ≡ ok (u, s')
      → (c.approval ≡ none) × (u ≡ with_approval a (with_proposal p c)) × Updated s rid u s'
  unfolding with_proposal with_approval
  record_decision-Wrote p a c events g t e =
      let (r, l, q, w, n) = record_decision-inv p a events e in
      let same : r ≡ c = cc (l, g) in
      (
        ap (λ x. x.approval) (sym same) ∙ q,
        w ∙ ap (λ x. with_approval a (with_proposal p x)) same,
        subst (Updated s rid u) (sym n) (
            rows_kept rid r u p.status 0 events s h l t (ap status_of w) (ground (arith, w)) ground
              arith ground arith),
      )

  create-inv :
      (r : RemediationRecord) (events : List AuditEvent)
      → r.proposal.remediation_id ≡ rid
      → create r events s ≡ ok (u, s')
      → (lookup rid s.records ≡ none)
        × (u ≡ r)
        × (s' ≡ record s {
          records = insert rid r s.records;
          order = s.order ++ rid ∷ [];
          audit = s.audit ++ events;
        })
  unfolding create
  create-inv r events q e = ground (arith, has_key-lookup rid s.records)

  pub create-Updated :
      (r : RemediationRecord) (events : List AuditEvent)
      → r.proposal.remediation_id ≡ rid
      → r.execution ≡ none
      → r.verification ≡ none
      → Trailed rid (status_of r) 0 events
      → create r events s ≡ ok (u, s')
      → (u ≡ r) × Updated s rid r s'
  create-Updated r events q x v t e =
      let (l, w, n) = create-inv r events q e in
      (
        w,
        subst (Updated s rid r) (sym n) (record {
          records = λ j. lookup-insert rid j r s.records;
          executions =
              unchanged_row rid r.execution s.executions ((h.absent rid l).execution ∙ sym x);
          verifications =
              unchanged_row rid r.verification s.verifications
                ((h.absent rid l).verification ∙ sym v);
          trail = trail-append rid (status_of r) s.audit events t.last;
          started =
              start-append rid 0 (runs r.execution) s.audit events t.start
                (ap (λ m. m + 0) (h.absent rid l).started ∙ ap runs (sym x));
        }),
      )
