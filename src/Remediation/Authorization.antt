-- ===== src/Remediation/Authorization.antt =====
-- authorization.py: which role may approve which action, by the catalogue's risk.
use sentinelops_ai.Prelude.{Bool, List, [], ◌∷◌, elem}
use sentinelops_ai.Remediation.Enums.{
  ApproverRole, operator, incident_responder, administrator, RemediationActionType, RiskLevel, low,
  medium, high, risk_eq,
}
use sentinelops_ai.Remediation.Catalogue.{require_action_definition}

-- `_MATRIX`
unfoldable pub max_approvable_risk : ApproverRole → List RiskLevel
max_approvable_risk operator = low ∷ []
max_approvable_risk incident_responder = low ∷ medium ∷ []
max_approvable_risk administrator = low ∷ medium ∷ high ∷ []

unfoldable pub can_approve : ApproverRole → RemediationActionType → Bool
unfolding max_approvable_risk
can_approve role action =
    elem (require_action_definition action).risk_level (max_approvable_risk role)
