-- ===== src/Remediation/StateMachine.antt =====
-- domain/state_machine.py: the remediation lifecycle.
pub mod Reach
use sentinelops_ai.Prelude.{
  Bool, List, [], ◌∷◌, elem, if◌then◌else◌, not, Result, ok, err, raise_if,
}
use sentinelops_ai.Remediation.Enums.{
  RemediationStatus, proposed, policy_evaluation, pending_approval, approved, executing, executed,
  verifying, blocked, rejected, expired, execution_failed, recovered, recovery_failed, status_eq,
}
use sentinelops_ai.Remediation.Errors.{Error, invalid_transition}

-- `_ALLOWED`
unfoldable pub allowed_transitions : RemediationStatus → List RemediationStatus
allowed_transitions proposed = policy_evaluation ∷ blocked ∷ []
allowed_transitions policy_evaluation = pending_approval ∷ blocked ∷ []
allowed_transitions pending_approval = approved ∷ rejected ∷ expired ∷ []
allowed_transitions approved = executing ∷ expired ∷ []
allowed_transitions executing = executed ∷ execution_failed ∷ []
allowed_transitions executed = verifying ∷ []
allowed_transitions verifying = recovered ∷ recovery_failed ∷ []
allowed_transitions blocked = []
allowed_transitions rejected = []
allowed_transitions expired = []
allowed_transitions execution_failed = []
allowed_transitions recovered = []
allowed_transitions recovery_failed = []

unfoldable pub can_transition : RemediationStatus → RemediationStatus → Bool
unfolding allowed_transitions
can_transition current target = elem target (allowed_transitions current)

unfoldable pub validate_transition : RemediationStatus → RemediationStatus → Result Error (Unit {0})
unfolding can_transition
validate_transition current target =
    raise_if (not (can_transition current target)) invalid_transition
