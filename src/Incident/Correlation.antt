-- ===== src/Incident/Correlation.antt =====
-- correlation.py: what an anomaly does to the active incident of its key.
use sentinelops_ai.Prelude.{ℕ, ◌+◌, Option, none, some, leb, if◌then◌else◌}
use sentinelops_ai.Incident.Domain.{AnomalySignal, Incident}

pub data CorrelationAction : Type 0 where
  create append supersede : CorrelationAction

-- `decide`, without its text; the window is in microseconds. A gap is negative, and so within the
-- window, where the anomaly is older than the last evidence.
unfoldable pub decide : AnomalySignal → Option Incident → ℕ → CorrelationAction
decide anomaly none window = create
decide anomaly (some active) window =
    if leb anomaly.occurred_at (active.last_evidence_at + window) then append else supersede
