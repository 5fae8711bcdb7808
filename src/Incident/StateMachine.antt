-- ===== src/Incident/StateMachine.antt =====
-- state_machine.py: the lifecycle of an incident.
use sentinelops_ai.Prelude.{
  ◌<◌, String, ◌≡◌, ◌↔◌, Bool, true, ◌&&◌, List, [], ◌∷◌, arith, elem, string_eq, ◌==◌,
  if◌then◌else◌,
}
use sentinelops_ai.Incident.Domain.{
  IncidentStatus, opened, acknowledged, investigating, mitigating, resolved, incident_status_eq,
  is_active, place,
}

-- `_ALLOWED`
unfoldable pub allowed_transitions : IncidentStatus → List IncidentStatus
allowed_transitions opened = acknowledged ∷ investigating ∷ resolved ∷ []
allowed_transitions acknowledged = investigating ∷ resolved ∷ []
allowed_transitions investigating = mitigating ∷ resolved ∷ []
allowed_transitions mitigating = resolved ∷ []
allowed_transitions resolved = []

unfoldable pub can_transition : IncidentStatus → IncidentStatus → String → Bool
unfolding allowed_transitions is_active
can_transition current target actor =
    if actor == "system" && target == resolved && is_active current
    then true
    else elem target (allowed_transitions current)

-- Whoever acts, a status changes only forwards in the order of the lifecycle, and an incident can be
-- resolved exactly if it is active.
pub can_transition_forward :
    (s t : IncidentStatus) (actor : String)
    → (can_transition s t actor ≡ true → place s < place t)
      × ((can_transition s resolved actor ≡ true) ↔ (is_active s ≡ true))
unfolding can_transition is_active
can_transition_forward s t actor = (λ h. ground arith, (λ h. ground arith, λ h. ground arith))
