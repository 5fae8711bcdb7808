-- ===== src/Remediation/Policy/Lifecycle.antt =====
-- What a policy decision does to a proposal's lifecycle.
use sentinelops_ai.Prelude.{◌≡◌, arith, elem, if◌then◌else◌, ok, err}
use sentinelops_ai.Remediation.Enums.{pending_approval, blocked, status_eq}
use sentinelops_ai.Remediation.Errors.{policy_error}
use sentinelops_ai.Remediation.StateMachine.{validate_transition}
use sentinelops_ai.Remediation.Proposal.{RemediationProposal}
use sentinelops_ai.Remediation.Policy.{
  PolicyDecision, is_allow, apply_policy_decision, policy_input_states,
}

-- A decision moves a proposal that has not passed policy to the approval gate if it allows and to
-- `blocked` if it denies, and changes nothing else of the proposal; any other proposal is refused.
pub apply_policy_decision_lem :
    (p : RemediationProposal) (d : PolicyDecision)
    → apply_policy_decision p d ≡ (
        if elem p.status policy_input_states
        then ok (record p { status = if is_allow d.outcome then pending_approval else blocked })
        else err policy_error)
unfolding apply_policy_decision validate_transition
apply_policy_decision_lem p d = ground arith
