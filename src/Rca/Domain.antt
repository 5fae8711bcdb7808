-- ===== src/Rca/Domain.antt =====
-- domain.py: the vocabulary of an investigation.
use sentinelops_ai.Prelude.{
  ℕ, ◌≡◌, ◌↔◌, Bool, true, false, List, [], ◌∷◌, arith, Eq, nat_eq, ◌==◌, elem, not, keep_if,
}

pub data InvestigationStatus : Type 0 where
  pending planning collecting_evidence analyzing verifying : InvestigationStatus
  completed insufficient_evidence failed timed_out : InvestigationStatus

-- The place of a status in the class body.
abbrev status_place : InvestigationStatus → ℕ
status_place pending = 0
status_place planning = 1
status_place collecting_evidence = 2
status_place analyzing = 3
status_place verifying = 4
status_place completed = 5
status_place insufficient_evidence = 6
status_place failed = 7
status_place timed_out = 8

abbrev same_status : InvestigationStatus → InvestigationStatus → Bool
same_status a b = status_place a == status_place b

pub same_status_iff : (a b : InvestigationStatus) → (same_status a b ≡ true) ↔ (a ≡ b)
same_status_iff a b = ground arith

instance abbrev pub status_eq : Eq InvestigationStatus
status_eq = record { test = same_status; test_iff = same_status_iff }

-- `_TERMINAL`
abbrev pub terminal_statuses : List InvestigationStatus
terminal_statuses = completed ∷ insufficient_evidence ∷ failed ∷ timed_out ∷ []

-- `InvestigationStatus.is_terminal`
unfoldable pub is_terminal : InvestigationStatus → Bool
is_terminal s = elem s terminal_statuses

abbrev all_statuses : List InvestigationStatus
all_statuses =
    pending ∷ planning ∷ collecting_evidence ∷ analyzing ∷ verifying ∷ completed
    ∷ insufficient_evidence ∷ failed ∷ timed_out ∷ []

-- `ACTIVE_STATUSES`
unfoldable pub active_statuses : List InvestigationStatus
unfolding is_terminal
active_statuses = keep_if (λ s. not (is_terminal s)) all_statuses

pub data InvestigationTrigger : Type 0 where
  event manual : InvestigationTrigger

pub data Confidence : Type 0 where
  unknown low medium high : Confidence

-- `Confidence.rank`
abbrev pub rank : Confidence → ℕ
rank unknown = 0
rank low = 1
rank medium = 2
rank high = 3

pub data EvidenceSourceType : Type 0 where
  incident anomaly metric service_health related_incident : EvidenceSourceType
  log trace deployment service_dependency : EvidenceSourceType

pub data TrustLevel : Type 0 where
  trusted_system untrusted_external : TrustLevel

pub data FindingType : Type 0 where
  observation correlation hypothesis root_cause contributing_factor : FindingType

-- `t is FindingType.CONTRIBUTING_FACTOR`
abbrev pub is_contributing : FindingType → Bool
is_contributing contributing_factor = true
is_contributing _ = false

pub data HypothesisVerdict : Type 0 where
  supported refuted unverified conflicting : HypothesisVerdict

pub data RecommendedActionType : Type 0 where
  investigate_further monitor restart_service roll_back_deployment : RecommendedActionType
  scale_service adjust_configuration failover_dependency : RecommendedActionType
  contact_service_owner no_action_needed manual_review_required : RecommendedActionType

pub data StepKind : Type 0 where
  plan_step tool_call_step tool_result_step analysis_step hypothesis_step : StepKind
  verification_step rca_step validation_step limit_step error_step : StepKind

-- `kind == "TOOL_CALL"`
abbrev pub is_tool_call : StepKind → Bool
is_tool_call tool_call_step = true
is_tool_call _ = false
