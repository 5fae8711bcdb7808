-- ===== src/Rca/Errors.antt =====
-- The errors of an investigation and the reasons it ends with, one constructor for each message.
use sentinelops_ai.Prelude.{String, List}
use sentinelops_ai.Rca.Domain.{InvestigationStatus}

-- `LimitExceeded.kind`
pub data LimitKind : Type 0 where
  too_many_tool_calls too_many_steps too_much_evidence out_of_time : LimitKind

-- The subclasses of `LlmError`
pub data LlmError : Type 0 where
  llm_timeout llm_provider_error llm_malformed_output : LlmError
  live_llm_not_available llm_configuration_error : LlmError

-- A message of `validate_report`
pub data ValidationIssue : Type 0 where
  evidence_not_collected : String → ValidationIssue
  root_cause_on_insufficient root_cause_without_evidence root_cause_not_completed : ValidationIssue
  overall_exceeds_root_cause confidence_without_evidence wrong_factor_type : ValidationIssue
  uncertainty_not_stated approval_not_required : ValidationIssue
  synthesis_stage_not_reached : ValidationIssue

-- `terminal_reason`
pub data TerminalReason : Type 0 where
  model_timed_out : TerminalReason
  model_failed : LlmError → TerminalReason
  investigation_timed_out : TerminalReason
  limit_reached limit_before_incident : LimitKind → TerminalReason
  incident_not_loaded no_valid_plan : TerminalReason
  timed_out_while_collecting : TerminalReason
  fallback_invalid : List ValidationIssue → TerminalReason
  synthesis_not_reached rca_validation_failed analysis_complete : TerminalReason
  engine_did_not_complete recursion_limit_reached engine_error unknown_reason : TerminalReason
  non_terminal : InvestigationStatus → TerminalReason
