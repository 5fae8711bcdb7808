-- ===== src/Remediation/Enums.antt =====
-- domain/enums.py: the closed vocabularies.
use sentinelops_ai.Prelude.{
  ℕ, ◌≡◌, ◌↔◌, Bool, true, false, List, [], ◌∷◌, arith, Eq, nat_eq, ◌==◌, elem,
}

pub data RemediationActionType : Type 0 where
  restart_service scale_service roll_back_deployment disable_feature_flag : RemediationActionType

pub data RemediationStatus : Type 0 where
  proposed policy_evaluation pending_approval approved executing executed verifying :
      RemediationStatus
  blocked rejected expired execution_failed recovered recovery_failed : RemediationStatus

pub data RiskLevel : Type 0 where
  low medium high : RiskLevel

pub data ExecutorType : Type 0 where
  local_simulation : ExecutorType

pub data ExecutionStatus : Type 0 where
  started succeeded failed : ExecutionStatus

pub data TargetType : Type 0 where
  service : TargetType

pub data RemediationTrigger : Type 0 where
  rca_recommendation manual : RemediationTrigger

pub data ApprovalDecision : Type 0 where
  approve reject : ApprovalDecision

pub data ApproverRole : Type 0 where
  operator incident_responder administrator : ApproverRole

abbrev same_action : RemediationActionType → RemediationActionType → Bool
same_action restart_service restart_service = true
same_action scale_service scale_service = true
same_action roll_back_deployment roll_back_deployment = true
same_action disable_feature_flag disable_feature_flag = true
same_action _ _ = false

pub same_action_iff : (a b : RemediationActionType) → (same_action a b ≡ true) ↔ (a ≡ b)
same_action_iff a b = ground arith

instance abbrev pub action_eq : Eq RemediationActionType
action_eq = record { test = same_action; test_iff = same_action_iff }

-- `_RISK_ORDER.index(self)`
abbrev pub rank : RiskLevel → ℕ
rank low = 0
rank medium = 1
rank high = 2

pub risk_beq_iff : (a b : RiskLevel) → ((rank a == rank b) ≡ true) ↔ (a ≡ b)
risk_beq_iff a b = ground arith

instance abbrev pub risk_eq : Eq RiskLevel
risk_eq = record { test = λ a b. rank a == rank b; test_iff = risk_beq_iff }

-- The place of a status in the class body.
abbrev pub place : RemediationStatus → ℕ
place proposed = 0
place policy_evaluation = 1
place pending_approval = 2
place approved = 3
place executing = 4
place executed = 5
place verifying = 6
place blocked = 7
place rejected = 8
place expired = 9
place execution_failed = 10
place recovered = 11
place recovery_failed = 12

abbrev same_status : RemediationStatus → RemediationStatus → Bool
same_status a b = place a == place b

pub same_status_iff : (a b : RemediationStatus) → (same_status a b ≡ true) ↔ (a ≡ b)
same_status_iff a b = ground arith

instance abbrev pub status_eq : Eq RemediationStatus
status_eq = record { test = same_status; test_iff = same_status_iff }

-- `_TERMINAL`
abbrev pub terminal_statuses : List RemediationStatus
terminal_statuses =
    blocked ∷ rejected ∷ expired ∷ execution_failed ∷ recovered ∷ recovery_failed ∷ []

-- `RemediationStatus.is_terminal`
unfoldable pub is_terminal : RemediationStatus → Bool
is_terminal s = elem s terminal_statuses
