-- ===== src/Remediation/Coherence/Proposing.antt =====
-- `propose` and the invariant.
use sentinelops_ai.Prelude.{
  ℕ, ◌≡◌, refl, sym, ap, subst, none, some, List, [], ◌∷◌, string_eq, arith, ok, >>=-eq-ok, ◌⊎◌,
  inl, inr,
}
use sentinelops_ai.Remediation.Enums.{pending_approval, blocked, status_eq}
use sentinelops_ai.Remediation.Proposal.{
  RemediationProposal, RcaRecommendedAction, MappingContext, mapped, unmapped, proposal_from_rca,
}
use sentinelops_ai.Remediation.Policy.{
  PolicyConfig, PolicyDecision, PolicyOutcome, allow, deny, evaluate,
}
use sentinelops_ai.Remediation.Policy.Lifecycle.{apply_policy_decision_lem}
use sentinelops_ai.Remediation.Audit.{
  AuditEvent, proposal_created_event, policy_evaluated_event, remediation_blocked_event,
}
use sentinelops_ai.Remediation.Record.{RemediationRecord, status_of}
use sentinelops_ai.Remediation.Repository.{Store, history_snapshot}
use sentinelops_ai.Remediation.Service.{decided_proposal, prepare_proposal, propose}
use sentinelops_ai.Remediation.Coherence.{Evidence, is_start, IsCoherent}
use sentinelops_ai.Remediation.Coherence.Updates.{Trailed, Updated-IsCoherent}
use sentinelops_ai.Remediation.Coherence.Writes.Records.{create-Updated}
use sentinelops_ai.Remediation.Coherence.Events.{trail_last, trail_more}

-- What a record that `create` gets satisfies
record Fresh (made : RemediationRecord × List AuditEvent) : Type 0 where
  evidence : Evidence (status_of made.0) made.0
  execution : made.0.execution ≡ none
  verification : made.0.verification ≡ none
  trail : Trailed made.0.proposal.remediation_id (status_of made.0) 0 made.1

fresh_record : RemediationProposal → PolicyDecision → RemediationRecord
fresh_record p d = record {
  proposal = p;
  policy_decision = d;
  approval = none;
  execution = none;
  verification = none;
}

allowed-Fresh :
    (p a : RemediationProposal) (d : PolicyDecision) (now : ℕ)
    → a.remediation_id ≡ p.remediation_id
    → a.status ≡ pending_approval
    → d.outcome ≡ allow
    → Fresh (
      fresh_record a d,
      proposal_created_event p now ∷ policy_evaluated_event a d a.status now ∷ [],
    )
unfolding fresh_record proposal_created_event policy_evaluated_event is_start
allowed-Fresh p a d now q st o = record {
  evidence = subst (λ s. Evidence s (fresh_record a d)) (sym st) (o, refl, (refl, refl));
  execution = refl;
  verification = refl;
  trail = trail_more _ _ _ _ _ (sym q) refl (trail_last _ _ _ _ refl refl refl);
}

denied-Fresh :
    (p a : RemediationProposal) (d : PolicyDecision) (now : ℕ)
    → a.remediation_id ≡ p.remediation_id
    → a.status ≡ blocked
    → d.outcome ≡ deny
    → Fresh (
      fresh_record a d,
      proposal_created_event p now
          ∷ policy_evaluated_event a d a.status now
          ∷ remediation_blocked_event a d now
          ∷ [],
    )
unfolding fresh_record proposal_created_event policy_evaluated_event remediation_blocked_event
    is_start
denied-Fresh p a d now q st o = record {
  evidence = subst (λ s. Evidence s (fresh_record a d)) (sym st) (o, refl, (refl, refl));
  execution = refl;
  verification = refl;
  trail =
      trail_more _ _ _ _ _ (sym q) refl
        (trail_more _ _ _ _ _ refl refl (trail_last _ _ _ _ refl (ap some (sym st)) refl));
}

outcome-cases : (o : PolicyOutcome) → (o ≡ allow) ⊎ (o ≡ deny)
outcome-cases o = ground arith

decided_proposal-Fresh :
    (p : RemediationProposal) (d : PolicyDecision) (now : ℕ)
    (made : RemediationRecord × List AuditEvent)
    → decided_proposal p d now ≡ ok made
    → Fresh made
unfolding decided_proposal fresh_record
decided_proposal-Fresh p d now made h = elim (outcome-cases d.outcome) [
  | inl o ↦
      subst Fresh ground (arith, apply_policy_decision_lem p d)
        (allowed-Fresh p (record p { status = pending_approval }) d now refl refl o)
  | inr o ↦
      subst Fresh ground (arith, apply_policy_decision_lem p d)
        (denied-Fresh p (record p { status = blocked }) d now refl refl o)
]

prepare_proposal-Fresh :
    (config : PolicyConfig) (r : RcaRecommendedAction) (c : MappingContext) (s : Store)
    (made : RemediationRecord × List AuditEvent)
    → prepare_proposal config r c s ≡ ok made
    → Fresh made
unfolding prepare_proposal
prepare_proposal-Fresh config r c s made h =
    elim (proposal_from_rca r c) as (λ m. (proposal_from_rca r c ≡ m) → Fresh made) [
      | unmapped b ↦ λ e. absurd (ground (arith, e, h))
      | mapped p ↦ λ e.
          decided_proposal-Fresh p
            (evaluate config p (record {
              now = c.now;
              incident_severity = c.incident_severity;
              history = history_snapshot c.incident_id p.action_type p.target s;
            }))
            c.now made (ground (arith, e, h))
    ]
      refl

pub propose-IsCoherent :
    (config : PolicyConfig) (r : RcaRecommendedAction) (c : MappingContext) (s : Store)
    (u : RemediationRecord) (s' : Store)
    → IsCoherent s
    → propose config r c s ≡ ok (u, s')
    → IsCoherent s'
unfolding propose
propose-IsCoherent config r c s u s' h e =
    let (made, q, e1) = >>=-eq-ok (prepare_proposal config r c s) _ e in
    let fresh = prepare_proposal-Fresh config r c s made q in
    let (w, n) =
      create-Updated _ s u s' h made.0 made.1 refl fresh.execution fresh.verification fresh.trail
        e1 in
    Updated-IsCoherent h n refl fresh.evidence
