-- ===== src/Remediation.antt =====
-- services/remediation-controller/remediation_controller: from an RCA recommendation to a verified
-- recovery.
pub mod Enums
pub mod Errors
pub mod StateMachine
pub mod Target
pub mod Catalogue
pub mod Proposal
pub mod Policy
pub mod Executor
pub mod Recovery
pub mod Audit
pub mod Record
pub mod Repository
pub mod Authorization
pub mod Service
pub mod Coherence
pub mod Scenario
pub mod Runs
pub mod Examples
pub mod ServiceExamples
