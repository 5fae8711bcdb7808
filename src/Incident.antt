-- ===== src/Incident.antt =====
-- services/incident-correlator/incident_correlator: from anomalies to incidents.
pub mod Domain
pub mod StateMachine
pub mod Severity
pub mod Correlation
pub mod Absorb
pub mod Processor
pub mod Topology
pub mod Tests
