-- ===== src/Rca/StateMachine.antt =====
-- state_machine.py: the lifecycle of an investigation.
use sentinelops_ai.Prelude.{Bool, not, List, [], ◌∷◌, elem, Result, raise_if}
use sentinelops_ai.Rca.Domain.{
  InvestigationStatus, pending, planning, collecting_evidence, analyzing, verifying, completed,
  insufficient_evidence, failed, timed_out, status_eq,
}

-- `InvalidInvestigationTransition`
pub data TransitionError : Type 0 where
  invalid_transition : InvestigationStatus → InvestigationStatus → TransitionError

-- `_ALLOWED`
unfoldable pub allowed_transitions : InvestigationStatus → List InvestigationStatus
allowed_transitions pending = planning ∷ failed ∷ []
allowed_transitions planning = collecting_evidence ∷ insufficient_evidence ∷ failed ∷ timed_out ∷ []
allowed_transitions collecting_evidence =
    collecting_evidence ∷ analyzing ∷ insufficient_evidence ∷ failed ∷ timed_out ∷ []
allowed_transitions analyzing =
    analyzing ∷ verifying ∷ insufficient_evidence ∷ failed ∷ timed_out ∷ []
allowed_transitions verifying =
    analyzing ∷ completed ∷ insufficient_evidence ∷ failed ∷ timed_out ∷ []
allowed_transitions completed = []
allowed_transitions insufficient_evidence = []
allowed_transitions failed = []
allowed_transitions timed_out = []

unfoldable pub can_transition : InvestigationStatus → InvestigationStatus → Bool
unfolding allowed_transitions
can_transition current target = elem target (allowed_transitions current)

unfoldable pub validate_transition :
    InvestigationStatus → InvestigationStatus → Result TransitionError (Unit {0})
unfolding can_transition
validate_transition current target =
    raise_if (not (can_transition current target)) (invalid_transition current target)
