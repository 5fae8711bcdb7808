-- ===== src/Remediation/StateMachine/Reach.antt =====
-- What follows from the lifecycle's edges for every path through them.
use sentinelops_ai.Prelude.{
  ℕ, Option, some, none, ap, sym, ◌∙◌, ◌+◌, ◌≤◌, ◌<◌, ◌≡◌, ◌↔◌, subst, refl, true, false, arith,
  List, [], ◌∷◌, length,
}
use sentinelops_ai.Remediation.Enums.{
  RemediationStatus, proposed, policy_evaluation, pending_approval, approved, executing, executed,
  verifying, blocked, rejected, expired, execution_failed, recovered, recovery_failed, status_eq,
  is_terminal,
}
use sentinelops_ai.Remediation.StateMachine.{can_transition}

-- A path of allowed transitions, with the statuses that it enters, the last one first.
pub data Trace (s : RemediationStatus) : RemediationStatus → List RemediationStatus → Type 0 where
  here : Trace s s []
  step :
      {t : RemediationStatus} {seen : List RemediationStatus} (u : RemediationStatus)
      → Trace s t seen
      → can_transition t u ≡ true
      → Trace s u (u ∷ seen)

-- How many transitions a remediation may still make.
abbrev left : RemediationStatus → ℕ
left proposed = 7
left policy_evaluation = 6
left pending_approval = 5
left approved = 4
left executing = 3
left executed = 2
left verifying = 1
left _ = 0

left-can_transition : (s t : RemediationStatus) → can_transition s t ≡ true → left t < left s
unfolding can_transition
left-can_transition s t h = ground arith

length-Trace :
    {s t : RemediationStatus} {seen : List RemediationStatus}
    → Trace s t seen
    → length seen + left t ≤ left s
length-Trace here = omega arith
length-Trace (step {t = t} u p h) = omega (arith, length-Trace p, left-can_transition t u h)

left_max : (s : RemediationStatus) → left s ≤ 7
left_max s = ground arith

abbrev pub HasNext : RemediationStatus → Type 0
HasNext t = (u : RemediationStatus) × (can_transition t u ≡ true)

not_terminal-HasNext : (t : RemediationStatus) → is_terminal t ≡ false → HasNext t
unfolding can_transition is_terminal
not_terminal-HasNext proposed e = (blocked, refl)
not_terminal-HasNext policy_evaluation e = (blocked, refl)
not_terminal-HasNext pending_approval e = (expired, refl)
not_terminal-HasNext approved e = (expired, refl)
not_terminal-HasNext executing e = (executed, refl)
not_terminal-HasNext executed e = (verifying, refl)
not_terminal-HasNext verifying e = (recovered, refl)
not_terminal-HasNext _ e = cc

pub terminal_stuck : (t u : RemediationStatus) → is_terminal t ≡ true → can_transition t u ≡ false
unfolding can_transition is_terminal
terminal_stuck t u e = ground arith

-- Every path of allowed transitions makes at most seven of them; where it ends in a status that is
-- not terminal another transition is allowed, and in a terminal status none is.
pub lifecycle_ends :
    (s t : RemediationStatus) (seen : List RemediationStatus)
    → Trace s t seen
    → (length seen ≤ 7)
      × (is_terminal t ≡ false → HasNext t)
      × (is_terminal t ≡ true → (u : RemediationStatus) → can_transition t u ≡ false)
lifecycle_ends s t seen p =
    (omega (arith, length-Trace p, left_max s), not_terminal-HasNext t, λ e u. terminal_stuck t u e)

-- The statuses entered on the way to a status, the last one first. `blocked` and `expired` have
-- two ways each.
abbrev pub way_to : RemediationStatus → Option (List RemediationStatus)
way_to proposed = some []
way_to policy_evaluation = some (policy_evaluation ∷ [])
way_to pending_approval = some (pending_approval ∷ policy_evaluation ∷ [])
way_to approved = some (approved ∷ pending_approval ∷ policy_evaluation ∷ [])
way_to rejected = some (rejected ∷ pending_approval ∷ policy_evaluation ∷ [])
way_to executing = some (executing ∷ approved ∷ pending_approval ∷ policy_evaluation ∷ [])
way_to executed = some (executed ∷ executing ∷ approved ∷ pending_approval ∷ policy_evaluation ∷ [])
way_to execution_failed =
    some (execution_failed ∷ executing ∷ approved ∷ pending_approval ∷ policy_evaluation ∷ [])
way_to verifying =
    some (verifying ∷ executed ∷ executing ∷ approved ∷ pending_approval ∷ policy_evaluation ∷ [])
way_to recovered = some (
    recovered ∷ verifying ∷ executed ∷ executing ∷ approved ∷ pending_approval ∷ policy_evaluation
    ∷ [])
way_to recovery_failed = some (
    recovery_failed ∷ verifying ∷ executed ∷ executing ∷ approved ∷ pending_approval
    ∷ policy_evaluation ∷ [])
way_to blocked = none
way_to expired = none

way_to-can_transition :
    (t u : RemediationStatus) (way : List RemediationStatus)
    → can_transition t u ≡ true
    → way_to u ≡ some way
    → (seen : List RemediationStatus) × (way_to t ≡ some seen) × (way ≡ u ∷ seen)
unfolding can_transition
way_to-can_transition t u way h w = ground arith

way_unique :
    (t : RemediationStatus) (seen way : List RemediationStatus)
    → Trace proposed t seen
    → way_to t ≡ some way
    → seen ≡ way
way_unique t seen way here w = cc
way_unique t seen way (step {t = s} {seen = before} u p h) w =
    let (old, e, f) = way_to-can_transition s u way h w in
    ap (λ l. u ∷ l) (way_unique s before old p e) ∙ sym f

some_inj : {A : Type 0} {x y : A} → ◌≡◌ {A = Option A} (some x) (some y) → x ≡ y
some_inj h = ground arith

along :
    {t : RemediationStatus} {seen way : List RemediationStatus}
    → ◌≡◌ {A = Option (List RemediationStatus)} (some seen) (some way)
    → Trace proposed t seen
    → Trace proposed t way
along {t = t} h p = subst (λ l. Trace proposed t l) (some_inj h) p

to_policy : Trace proposed policy_evaluation (policy_evaluation ∷ [])
unfolding can_transition
to_policy = step policy_evaluation here refl

to_gate : Trace proposed pending_approval (pending_approval ∷ policy_evaluation ∷ [])
unfolding can_transition
to_gate = step pending_approval to_policy refl

to_executing :
    Trace proposed executing (executing ∷ approved ∷ pending_approval ∷ policy_evaluation ∷ [])
unfolding can_transition
to_executing = step executing (step approved to_gate refl) refl

to_verifying :
    Trace proposed verifying
      (verifying ∷ executed ∷ executing ∷ approved ∷ pending_approval ∷ policy_evaluation ∷ [])
unfolding can_transition
to_verifying = step verifying (step executed to_executing refl) refl

way_exists :
    (t : RemediationStatus) (way : List RemediationStatus)
    → way_to t ≡ some way
    → Trace proposed t way
unfolding can_transition
way_exists proposed way w = along w here
way_exists policy_evaluation way w = along w to_policy
way_exists pending_approval way w = along w to_gate
way_exists approved way w = along w (step approved to_gate refl)
way_exists rejected way w = along w (step rejected to_gate refl)
way_exists executing way w = along w to_executing
way_exists executed way w = along w (step executed to_executing refl)
way_exists execution_failed way w = along w (step execution_failed to_executing refl)
way_exists verifying way w = along w to_verifying
way_exists recovered way w = along w (step recovered to_verifying refl)
way_exists recovery_failed way w = along w (step recovery_failed to_verifying refl)
way_exists _ way w = cc

-- Each status but `blocked` and `expired` is reached from `proposed`, and on exactly one path: in
-- particular `executing` comes only after `approved`, which comes only after policy evaluation and
-- the approval gate, and `recovered` only after a finished execution and a verification.
pub lifecycle_way :
    (t : RemediationStatus) (seen way : List RemediationStatus)
    → way_to t ≡ some way
    → Trace proposed t seen ↔ (seen ≡ way)
lifecycle_way t seen way w = (
  (λ p. way_unique t seen way p w),
  (λ e. subst (λ l. Trace proposed t l) (sym e) (way_exists t way w)),
)
