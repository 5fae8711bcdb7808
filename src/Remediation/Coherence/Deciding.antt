-- ===== src/Remediation/Coherence/Deciding.antt =====
-- `decide` and the invariant.
use sentinelops_ai.Prelude.{
  ◌<◌, String, ◌≡◌, refl, sym, ap, ◌∙◌, subst, true, none, some, List, [], ◌∷◌, string_eq,
  if◌then◌else◌, arith, ok, >>=-eq-ok, Option-cases, ◌⊎◌, inl, inr,
}
use sentinelops_ai.Prelude.Dict.{lookup}
use sentinelops_ai.Remediation.Enums.{
  RemediationStatus, pending_approval, approved, rejected, status_eq, ApprovalDecision, approve,
  reject,
}
use sentinelops_ai.Remediation.StateMachine.{validate_transition}
use sentinelops_ai.Remediation.Target.{RemediationApproval, DecisionRequest, make_approval}
use sentinelops_ai.Remediation.Proposal.{RemediationProposal, is_approve}
use sentinelops_ai.Remediation.Policy.{allow}
use sentinelops_ai.Remediation.Authorization.{can_approve}
use sentinelops_ai.Remediation.Audit.{AuditEvent, decision_event}
use sentinelops_ai.Remediation.Record.{RemediationRecord, status_of, with_approval, with_proposal}
use sentinelops_ai.Remediation.Repository.{Store, get, record_decision}
use sentinelops_ai.Remediation.Service.{check_decidable, prepare_decision, decide}
use sentinelops_ai.Remediation.Coherence.{Evidence, is_start, IsCoherent, RecordOk}
use sentinelops_ai.Remediation.Coherence.Updates.{Trailed, Updated-IsCoherent}
use sentinelops_ai.Remediation.Coherence.Writes.Records.{record_decision-Wrote}
use sentinelops_ai.Remediation.Coherence.Events.{trail_last}

-- What `check_decidable` has tested
record Decidable (r : RemediationRecord) (q : DecisionRequest) : Type 0 where
  undecided : r.approval ≡ none
  status : status_of r ≡ pending_approval
  allowed : r.policy_decision.outcome ≡ allow
  in_time : q.decided_at < r.proposal.expires_at
  authorized : q.decision ≡ approve → can_approve q.approver_role r.proposal.action_type ≡ true

check_decidable-inv :
    (r : RemediationRecord) (q : DecisionRequest) {x : Unit {0}}
    → check_decidable r q.decision q.approver_role q.decided_at ≡ ok x
    → Decidable r q
unfolding check_decidable
check_decidable-inv r q h = record {
  undecided = ground arith;
  status = ground arith;
  allowed = ground arith;
  in_time = ground arith;
  authorized = λ a. ground arith;
}

target_of : DecisionRequest → RemediationStatus
target_of q = if is_approve q.decision then approved else rejected

prepare_decision-inv :
    (rid : String) (r : RemediationRecord) (q : DecisionRequest) (p : RemediationProposal)
    (a : RemediationApproval) (events : List AuditEvent)
    → prepare_decision rid r q ≡ ok (p, a, events)
    → Decidable r q
      × (make_approval rid q ≡ ok a)
      × (p ≡ record r.proposal { status = target_of q })
      × (events ≡ decision_event r.proposal a (status_of r) q.decided_at ∷ [])
unfolding prepare_decision target_of
prepare_decision-inv rid r q p a events h =
    let (x, c, h1) = >>=-eq-ok (check_decidable r q.decision q.approver_role q.decided_at) _ h in
    let (y, v, h2) = >>=-eq-ok (validate_transition (status_of r) (target_of q)) _ h1 in
    let (b, m, h3) = >>=-eq-ok (make_approval rid q) _ h2 in
    let made : RemediationProposal × RemediationApproval × List AuditEvent = (
      record r.proposal { status = target_of q },
      b,
      decision_event r.proposal b (status_of r) q.decided_at ∷ [],
    ) in
    let same : made ≡ (p, a, events) = cc h3 in
    let b≡a : b ≡ a = ap (λ t. t.1) same in
    (
      check_decidable-inv r q c,
      m ∙ ap ok b≡a,
      sym (ap (λ t. t.0) same),
      sym (ap (λ t. t.2) same)
          ∙ ap (λ x. decision_event r.proposal x (status_of r) q.decided_at ∷ []) b≡a,
    )

make_approval-inv :
    (rid : String) (q : DecisionRequest) (a : RemediationApproval)
    → make_approval rid q ≡ ok a
    → (a.remediation_id ≡ rid)
      × (a.decision ≡ q.decision)
      × (a.approver_role ≡ q.approver_role)
      × (a.decided_at ≡ q.decided_at)
unfolding make_approval
make_approval-inv rid q a h = (ground arith, ground arith, ground arith, ground arith)

-- The record that a decision writes
decided : RemediationRecord → DecisionRequest → RemediationApproval → RemediationRecord
unfolding with_approval with_proposal
decided r q a = with_approval a (with_proposal (record r.proposal { status = target_of q }) r)

decision-cases : (d : ApprovalDecision) → (d ≡ approve) ⊎ (d ≡ reject)
decision-cases d = ground arith

module _ {s : Store} {rid : String} {r : RemediationRecord} (q : DecisionRequest)
    (a : RemediationApproval) (k : RecordOk rid r s) (d : Decidable r q)
    (m : make_approval rid q ≡ ok a) where
  unrun : (r.execution ≡ none) × (r.verification ≡ none)
  unrun = (subst (λ x. Evidence x r) d.status k.evidence).2

  decided-Evidence : Evidence (target_of q) (decided r q a)
  unfolding target_of decided with_approval with_proposal
  decided-Evidence =
      let (own, same, role, time) = make_approval-inv rid q a m in
      elim (decision-cases q.decision) [
        | inl y ↦
            subst (λ x. Evidence x (decided r q a))
              (sym (ap (λ z. if is_approve z then approved else rejected) y))
              (
                (
                  a,
                  record {
                    recorded = refl;
                    own = own ∙ sym k.id;
                    affirmative = same ∙ y;
                    allowed = d.allowed;
                    authorized =
                        ap (λ x. can_approve x r.proposal.action_type) role ∙ d.authorized y;
                    in_time = ground (arith, d.in_time, time);
                  },
                ),
                unrun,
              )
        | inr n ↦
            subst (λ x. Evidence x (decided r q a))
              (sym (ap (λ z. if is_approve z then approved else rejected) n))
              ((a, refl, same ∙ n), unrun)
      ]

decide-IsCoherent_of :
    (rid : String) (q : DecisionRequest) (s : Store) (r u : RemediationRecord) (s' : Store)
    (p : RemediationProposal) (a : RemediationApproval) (events : List AuditEvent)
    → IsCoherent s
    → lookup rid s.records ≡ some r
    → prepare_decision rid r q ≡ ok (p, a, events)
    → record_decision rid p a events s ≡ ok (u, s')
    → IsCoherent s'
unfolding target_of decided with_approval with_proposal decision_event is_start
decide-IsCoherent_of rid q s r u s' p a events h l made e =
    let k = h.stored rid r l in
    let (d, m, p≡, events≡) = prepare_decision-inv rid r q p a events made in
    let trail : Trailed rid p.status 0 events =
      subst (λ x. Trailed rid x 0 events) (sym (ap (λ x. x.status) p≡))
        (subst (λ x. Trailed rid (target_of q) 0 x) (sym events≡)
          (trail_last _ _ _ _ k.id
            (ap (λ x. some (if is_approve x then approved else rejected))
              (make_approval-inv rid q a m).1)
            (ground arith))) in
    let (n, w, c) = record_decision-Wrote rid s u s' h p a r events l trail e in
    let u≡ : u ≡ decided r q a = w ∙ ap (λ x. with_approval a (with_proposal x r)) p≡ in
    Updated-IsCoherent h c (ap (λ x. x.proposal.remediation_id) u≡ ∙ k.id)
      (subst (λ x. Evidence (status_of x) x) (sym u≡) (decided-Evidence q a k d m))

pub decide-IsCoherent :
    (rid : String) (q : DecisionRequest) (s : Store) (u : RemediationRecord) (s' : Store)
    → IsCoherent s
    → decide rid q s ≡ ok (u, s')
    → IsCoherent s'
unfolding decide get
decide-IsCoherent rid q s u s' h e = elim (Option-cases (lookup rid s.records)) [
  | inl n ↦ absurd ground (arith, n, e)
  | inr (r, l) ↦
      let (made, q1, e1) =
        >>=-eq-ok (prepare_decision rid r q) (λ (p, a, events). record_decision rid p a events s)
          ground (arith, l, e) in
      decide-IsCoherent_of rid q s r u s' made.0 made.1 made.2 h l q1 e1
]
