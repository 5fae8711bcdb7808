-- ===== src/Remediation/Service/Spacing.antt =====
-- `propose` against what the store holds: duplicates and cooldowns.
use sentinelops_ai.Prelude.{
  ℕ, ◌+◌, ◌*◌, ◌≤◌, String, ◌≡◌, refl, sym, ap, ◌∙◌, subst, true, false, Option, none, some, List,
  arith, elem, string_eq, ok, >>=-eq-ok, inl, inr, Bool-cases,
}
use sentinelops_ai.Prelude.Dict.{lookup}
use sentinelops_ai.Remediation.Enums.{pending_approval, status_eq}
use sentinelops_ai.Remediation.Target.{RemediationApproval}
use sentinelops_ai.Remediation.Catalogue.{catalogue}
use sentinelops_ai.Remediation.Proposal.{
  RemediationProposal, RcaRecommendedAction, MappingContext, mapped, unmapped, proposal_from_rca,
}
use sentinelops_ai.Remediation.Policy.{PolicyConfig, PolicyContext, PolicyDecision, allow, evaluate}
use sentinelops_ai.Remediation.Policy.Eligible.{IsEligible, CooledDown, evaluate_iff}
use sentinelops_ai.Remediation.Policy.Lifecycle.{apply_policy_decision_lem}
use sentinelops_ai.Remediation.Audit.{AuditEvent}
use sentinelops_ai.Remediation.Record.{RemediationRecord, status_of}
use sentinelops_ai.Remediation.Repository.{
  Store, create, history_snapshot, same_kind, active_statuses, cooldown_anchor_statuses,
}
use sentinelops_ai.Remediation.Repository.Snapshot.{Seen, Reaches, history_snapshot-Seen}
use sentinelops_ai.Remediation.Service.{decided_proposal, prepare_proposal, propose}

abbrev pub context_of : MappingContext → Store → RemediationProposal → PolicyContext
context_of c s p = record {
  now = c.now;
  incident_severity = c.incident_severity;
  history = history_snapshot c.incident_id p.action_type p.target s;
}

-- A stored proposal that awaits approval was allowed.
decided_proposal-allowed :
    (p : RemediationProposal) (d : PolicyDecision) (now : ℕ)
    (made : RemediationRecord × List AuditEvent)
    → decided_proposal p d now ≡ ok made
    → status_of made.0 ≡ pending_approval
    → (d.outcome ≡ allow) × (made.0.proposal ≡ record p { status = pending_approval })
unfolding decided_proposal
decided_proposal-allowed p d now made h q =
    (ground (arith, apply_policy_decision_lem p d), ground (arith, apply_policy_decision_lem p d))

prepare_proposal-inv :
    (config : PolicyConfig) (r : RcaRecommendedAction) (c : MappingContext) (s : Store)
    (made : RemediationRecord × List AuditEvent)
    → prepare_proposal config r c s ≡ ok made
    → (p : RemediationProposal) × (decided_proposal p (evaluate config p (context_of c s p)) c.now
        ≡ ok made)
unfolding prepare_proposal
prepare_proposal-inv config r c s made h =
    elim (proposal_from_rca r c)
        as (λ m.
          (proposal_from_rca r c ≡ m)
          → (p : RemediationProposal) × (decided_proposal p (evaluate config p (context_of c s p))
                c.now
              ≡ ok made)) [
                | unmapped b ↦ λ e. absurd (ground (arith, e, h))
                | mapped p ↦ λ e. (p, ground (arith, e, h))
              ]
      refl

create-same :
    (r u : RemediationRecord) (events : List AuditEvent) (s s' : Store)
    → create r events s ≡ ok (u, s')
    → u ≡ r
unfolding create
create-same r u events s s' h = ground arith

-- How a stored remediation leaves room for another of its kind
pub record Spaced (now cooldown : ℕ) (x : RemediationRecord) : Type 0 where
  pub inactive : elem (status_of x) active_statuses ≡ false
  pub cooled :
      (a : RemediationApproval)
      → x.approval ≡ some a
      → elem (status_of x) cooldown_anchor_statuses ≡ true
      → a.decided_at + cooldown * 1000000 ≤ now

reached_cooled :
    (now cooldown t : ℕ) (last : Option ℕ)
    → CooledDown now cooldown last
    → Reaches t last
    → t + cooldown * 1000000 ≤ now
reached_cooled now cooldown t none c e = absurd e
reached_cooled now cooldown t (some u) c e = omega (arith, c, e)

Seen-Spaced :
    (config : PolicyConfig) (p : RemediationProposal) (c : MappingContext) (s : Store)
    (x : RemediationRecord)
    → IsEligible config p (context_of c s p)
    → Seen c.incident_id p.action_type p.target x
        (history_snapshot c.incident_id p.action_type p.target s)
    → Spaced c.now (catalogue p.action_type).cooldown_seconds x
Seen-Spaced config p c s x g k = record {
  inactive = elim (Bool-cases (elem (status_of x) active_statuses)) [
    | inl b ↦ absurd (cc (k.active b, g.alone))
    | inr b ↦ b
  ];
  cooled = λ a q e. reached_cooled c.now _ a.decided_at _ g.cooled (k.decided a q e);
}

-- A proposal that `propose` submits for approval has room: no stored remediation for the same
-- incident, action, service and environment is active, and since the decision on any that is
-- approved, executing, executed or failed in its execution, the action's cooldown has passed.
pub propose-Spaced :
    (config : PolicyConfig) (r : RcaRecommendedAction) (c : MappingContext) (s : Store)
    (u : RemediationRecord) (s' : Store)
    → propose config r c s ≡ ok (u, s')
    → status_of u ≡ pending_approval
    → (rid : String) (x : RemediationRecord) → lookup rid s.records ≡ some x
    → same_kind c.incident_id u.proposal.action_type u.proposal.target x.proposal ≡ true
    → Spaced c.now (catalogue u.proposal.action_type).cooldown_seconds x
unfolding propose
propose-Spaced config r c s u s' h q rid x l k =
    let (made, q1, e1) = >>=-eq-ok (prepare_proposal config r c s) _ h in
    let same = create-same made.0 u made.1 s s' e1 in
    let (p, e2) = prepare_proposal-inv config r c s made q1 in
    let (allowed, m) = decided_proposal-allowed p _ c.now made e2 (ap status_of (sym same) ∙ q) in
    let p≡ : u.proposal ≡ record p { status = pending_approval } = ap (λ y. y.proposal) same ∙ m in
    let eligible = (evaluate_iff config p (context_of c s p)).0 allowed in
    let seen =
      history_snapshot-Seen c.incident_id p.action_type p.target s rid x l
        (subst (λ y. same_kind c.incident_id y.action_type y.target x.proposal ≡ true) p≡ k) in
    subst (λ y. Spaced c.now (catalogue y.action_type).cooldown_seconds x) (sym p≡)
      (Seen-Spaced config p c s x eligible seen)
