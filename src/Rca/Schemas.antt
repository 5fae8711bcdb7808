-- ===== src/Rca/Schemas.antt =====
-- schemas.py and the bounds of limits.py: the records that an investigation collects and reports.
-- The text of an id that the code numbers (`fi_001`, `hy_001`) is kept as its number. Bounds on the
-- lengths of texts are left out.
use sentinelops_ai.Prelude.{ℕ, String, Bool, Option, List}
use sentinelops_ai.Prelude.Dict.{Dict}
use sentinelops_ai.Rca.Domain.{
  InvestigationStatus, InvestigationTrigger, Confidence, EvidenceSourceType, TrustLevel,
  FindingType, HypothesisVerdict, RecommendedActionType, StepKind,
}
use sentinelops_ai.Rca.Errors.{TerminalReason}

-- `timeout_seconds` in microseconds
pub record ResourceLimits : Type 0 where
  pub max_tool_calls : ℕ
  pub max_steps : ℕ
  pub max_evidence_items : ℕ
  pub timeout : ℕ
  pub max_hypotheses : ℕ

-- `content` has the text of each value that is true in a test; a value that is not is left out.
pub record Evidence : Type 0 where
  pub id : String
  pub source_type : EvidenceSourceType
  pub source_reference : String
  pub trust_level : TrustLevel
  pub tool_name : String
  pub service : Option String
  pub summary : String
  pub content : Dict String
  pub observed_at : Option ℕ
  pub collected_at : ℕ

pub record Finding : Type 0 where
  pub number : ℕ
  pub type : FindingType
  pub statement : String
  pub evidence_ids : List String
  pub confidence : Confidence

pub record Hypothesis : Type 0 where
  pub number : ℕ
  pub statement : String
  pub supporting_evidence_ids : List String
  pub contradicting_evidence_ids : List String
  pub assessment : String
  pub verdict : HypothesisVerdict

pub record RootCause : Type 0 where
  pub statement : String
  pub confidence : Confidence
  pub evidence_ids : List String
  pub reasoning_summary : String

pub record RecommendedAction : Type 0 where
  pub action_type : RecommendedActionType
  pub target_service : Option String
  pub description : String
  pub rationale : String
  pub evidence_ids : List String
  pub requires_human_approval : Bool

pub record TimelineEntry : Type 0 where
  pub at : ℕ
  pub description : String
  pub evidence_ids : List String

-- `description` is text for human readers and left out.
pub record InvestigationStep : Type 0 where
  pub seq : ℕ
  pub kind : StepKind
  pub phase : InvestigationStatus
  pub tool_name : Option String
  pub evidence_ids : List String
  pub at : ℕ

pub record InvestigationMetadata : Type 0 where
  pub mode : String
  pub llm_provider : String
  pub model : Option String
  pub started_at : ℕ
  pub completed_at : ℕ
  pub duration : ℕ
  pub tool_call_count : ℕ
  pub step_count : ℕ
  pub evidence_count : ℕ
  pub termination_reason : String
  pub limits : ResourceLimits

pub record RcaReport : Type 0 where
  pub incident_id : String
  pub investigation_id : String
  pub status : InvestigationStatus
  pub summary : String
  pub severity : Option String
  pub affected_services : List String
  pub timeline : List TimelineEntry
  pub findings : List Finding
  pub hypotheses : List Hypothesis
  pub root_cause : Option RootCause
  pub contributing_factors : List Finding
  pub recommended_action : RecommendedAction
  pub evidence : List Evidence
  pub overall_confidence : Confidence
  pub uncertainty : String
  pub unavailable_evidence_sources : List String
  pub investigation_metadata : InvestigationMetadata

pub record Investigation : Type 0 where
  pub id : String
  pub incident_id : String
  pub status : InvestigationStatus
  pub trigger : InvestigationTrigger
  pub mode : String
  pub model : Option String
  pub termination_reason : Option TerminalReason
  pub tool_call_count : ℕ
  pub step_count : ℕ
  pub evidence_count : ℕ
  pub overall_confidence : Confidence
  pub started_at : Option ℕ
  pub completed_at : Option ℕ
  pub created_at : ℕ
  pub updated_at : ℕ
