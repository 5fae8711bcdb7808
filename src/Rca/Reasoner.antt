-- ===== src/Rca/Reasoner.antt =====
-- llm/base.py: what a language model is asked and what it may propose. The model is a parameter:
-- each of its methods also sees how many questions went before, so that it may answer differently.
use sentinelops_ai.Prelude.{ℕ, String, Bool, Option, List, Result}
use sentinelops_ai.Prelude.Dict.{Dict}
use sentinelops_ai.Rca.Domain.{Confidence, FindingType, HypothesisVerdict, RecommendedActionType}
use sentinelops_ai.Rca.Errors.{LlmError, ValidationIssue}
use sentinelops_ai.Rca.Schemas.{Evidence, Hypothesis}
use sentinelops_ai.Rca.Tools.{Arguments, ToolSpec}

pub record PlannedCall : Type 0 where
  pub tool : String
  pub arguments : Arguments

pub record ProposedFinding : Type 0 where
  pub statement : String
  pub type : FindingType
  pub evidence_ids : List String
  pub confidence : Confidence

pub record ProposedHypothesis : Type 0 where
  pub statement : String
  pub supporting_evidence_ids : List String
  pub contradicting_evidence_ids : List String
  pub assessment : String

pub record ProposedRootCause : Type 0 where
  pub statement : String
  pub confidence : Confidence
  pub evidence_ids : List String
  pub reasoning_summary : String

pub record ProposedAction : Type 0 where
  pub action_type : RecommendedActionType
  pub target_service : Option String
  pub description : String
  pub rationale : String
  pub evidence_ids : List String

pub record ProposedTimelineEntry : Type 0 where
  pub at : ℕ
  pub description : String
  pub evidence_ids : List String

pub record PlanResult : Type 0 where
  pub calls : List PlannedCall
  pub rationale : String

pub record AnalysisResult : Type 0 where
  pub findings : List ProposedFinding
  pub hypotheses : List ProposedHypothesis

pub record HypothesisVerdictItem : Type 0 where
  pub index : ℕ
  pub verdict : HypothesisVerdict
  pub assessment : String

pub record VerificationResult : Type 0 where
  pub verdicts : List HypothesisVerdictItem
  pub needs_more_evidence : Bool
  pub additional_calls : List PlannedCall

-- `SynthesisResult.conclusion`
pub data Conclusion : Type 0 where
  concluded_completed concluded_insufficient : Conclusion

pub record SynthesisResult : Type 0 where
  pub conclusion : Conclusion
  pub summary : String
  pub root_cause : Option ProposedRootCause
  pub contributing_factors : List ProposedFinding
  pub recommended_action : ProposedAction
  pub overall_confidence : Confidence
  pub uncertainty : String
  pub timeline : List ProposedTimelineEntry

-- What `validate_plan` says of a call that it drops
pub data Rejection : Type 0 where
  plan_full not_registered source_not_available invalid_arguments duplicate_call : Rejection
  no_usable_calls : Rejection

pub record PlanRequest : Type 0 where
  pub incident : Dict String
  pub evidence : List Evidence
  pub tool_specs : List ToolSpec
  pub repair_errors : List Rejection

pub record AnalyzeRequest : Type 0 where
  pub incident : Dict String
  pub evidence : List Evidence

pub record VerifyRequest : Type 0 where
  pub incident : Dict String
  pub evidence : List Evidence
  pub findings : List ProposedFinding
  pub hypotheses : List ProposedHypothesis
  pub reanalysis_allowed : Bool

pub record SynthesizeRequest : Type 0 where
  pub incident : Dict String
  pub investigation_id : String
  pub evidence : List Evidence
  pub findings : List ProposedFinding
  pub hypotheses : List Hypothesis
  pub repair_errors : List ValidationIssue

pub record LlmClient : Type 0 where
  pub provider : String
  pub model : Option String
  pub plan : ℕ → PlanRequest → Result LlmError PlanResult
  pub analyze : ℕ → AnalyzeRequest → Result LlmError AnalysisResult
  pub verify : ℕ → VerifyRequest → Result LlmError VerificationResult
  pub synthesize : ℕ → SynthesizeRequest → Result LlmError SynthesisResult
