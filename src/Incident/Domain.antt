-- ===== src/Incident/Domain.antt =====
-- domain.py. Times and durations are microseconds, error rates and scores millionths, latencies
-- microseconds. Titles, texts for a human reader, and the rows of evidence are left out.
use sentinelops_ai.Prelude.{
  ℕ, ◌-◌, String, ◌≡◌, ◌↔◌, Bool, true, Option, List, arith, Eq, nat_eq, ◌==◌, length, append_text,
  not,
}
use sentinelops_ai.Prelude.Dict.{Dict}

pub data IncidentStatus : Type 0 where
  opened acknowledged investigating mitigating resolved : IncidentStatus

abbrev pub place : IncidentStatus → ℕ
place opened = 0
place acknowledged = 1
place investigating = 2
place mitigating = 3
place resolved = 4

pub place_iff : (a b : IncidentStatus) → ((place a == place b) ≡ true) ↔ (a ≡ b)
place_iff a b = ground arith

instance abbrev pub incident_status_eq : Eq IncidentStatus
incident_status_eq = record { test = λ a b. place a == place b; test_iff = place_iff }

-- `IncidentStatus.is_active`
unfoldable pub is_active : IncidentStatus → Bool
is_active s = not (s == resolved)

pub data Severity : Type 0 where
  info low medium high critical : Severity

-- `Severity.rank`
abbrev pub rank : Severity → ℕ
rank info = 0
rank low = 1
rank medium = 2
rank high = 3
rank critical = 4

pub rank_iff : (a b : Severity) → ((rank a == rank b) ≡ true) ↔ (a ≡ b)
rank_iff a b = ground arith

instance abbrev pub severity_eq : Eq Severity
severity_eq = record { test = λ a b. rank a == rank b; test_iff = rank_iff }

pub record AnomalySignal : Type 0 where
  pub event_id : String
  pub service : String
  pub environment : String
  pub window_start : ℕ
  pub window_end : ℕ
  pub anomaly_score : ℕ
  pub signals : Dict ℕ
  pub abnormal_signals : List String
  pub occurred_at : ℕ

-- `correlation_key`
unfoldable pub correlation_key : String → String → String
correlation_key service environment = append_text service (append_text ":" environment)

pub data SeverityReason : Type 0 where
  anomaly_seen sustained several_signals : SeverityReason
  error_rate_high latency_high duration_high : SeverityReason
  error_rate_critical sustained_degradation : SeverityReason

pub record Incident : Type 0 where
  pub id : String
  pub correlation_key : String
  pub service : String
  pub environment : String
  pub status : IncidentStatus
  pub severity : Severity
  pub severity_reasons : List SeverityReason
  pub anomaly_count : ℕ
  pub max_anomaly_score : ℕ
  pub max_error_rate : ℕ
  pub max_latency_p95 : ℕ
  pub started_at : ℕ
  pub last_evidence_at : ℕ
  pub created_at : ℕ
  pub updated_at : ℕ
  pub abnormal_signal_names : List String
  pub resolved_at : Option ℕ
  pub resolution : Option String

-- `Incident.distinct_abnormal_signals`
abbrev pub distinct_abnormal_signals : Incident → ℕ
distinct_abnormal_signals i = length i.abnormal_signal_names

-- `Incident.duration_seconds`, where the difference of the source stops at 0 too
abbrev pub duration : Incident → ℕ
duration i = i.last_evidence_at - i.started_at
