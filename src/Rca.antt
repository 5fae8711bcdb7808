-- ===== src/Rca.antt =====
-- services/rca-agent: the root-cause investigation of an incident.
pub mod Domain
pub mod Errors
pub mod StateMachine
pub mod Schemas
pub mod Limits
pub mod Validation
pub mod Tools
pub mod Reasoner
pub mod Plan
pub mod Engine
pub mod Synthesis
pub mod Nodes
pub mod Graph
pub mod Repository
pub mod Service
pub mod Scenario
mod Tests
mod Examples
