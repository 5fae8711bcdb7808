-- ===== src/Remediation/Record.antt =====
-- recovery/model.py (the persisted verification) and `RemediationRecord` of repository.py.
use sentinelops_ai.Prelude.{ℕ, String, Option, some, List}
use sentinelops_ai.Remediation.Enums.{RemediationStatus}
use sentinelops_ai.Remediation.Target.{RemediationApproval}
use sentinelops_ai.Remediation.Proposal.{RemediationProposal}
use sentinelops_ai.Remediation.Policy.{PolicyDecision}
use sentinelops_ai.Remediation.Executor.{ExecutionResult}
use sentinelops_ai.Remediation.Recovery.{VerificationStatus, RecoveryCheck}

-- The verifier's type and version are constants, and the metadata repeats what stands here.
pub record VerificationResult : Type 0 where
  pub verification_id : String
  pub remediation_id : String
  pub execution_id : String
  pub status : VerificationStatus
  pub attempts : ℕ
  pub checks : List RecoveryCheck
  pub failing : Option (List String)
  pub timeout_seconds : ℕ
  pub poll_interval : ℕ
  pub started_at : ℕ
  pub completed_at : Option ℕ

pub record RemediationRecord : Type 0 where
  pub proposal : RemediationProposal
  pub policy_decision : PolicyDecision
  pub approval : Option RemediationApproval
  pub execution : Option ExecutionResult
  pub verification : Option VerificationResult

-- `RemediationRecord.status`
abbrev pub status_of : RemediationRecord → RemediationStatus
status_of r = r.proposal.status

unfoldable pub with_status : RemediationStatus → RemediationRecord → RemediationRecord
with_status s r = record r { proposal = record r.proposal { status = s } }

unfoldable pub with_proposal : RemediationProposal → RemediationRecord → RemediationRecord
with_proposal p r = record r { proposal = p }

unfoldable pub with_approval : RemediationApproval → RemediationRecord → RemediationRecord
with_approval a r = record r { approval = some a }

unfoldable pub with_execution : ExecutionResult → RemediationRecord → RemediationRecord
with_execution e r = record r { execution = some e }

unfoldable pub with_verification : VerificationResult → RemediationRecord → RemediationRecord
with_verification v r = record r { verification = some v }
