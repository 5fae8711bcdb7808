-- ===== src/Incident/Severity.antt =====
-- severity.py: the severity of an incident by rules on its aggregates.
pub mod Monotone
use sentinelops_ai.Prelude.{
  ℕ, ◌≤◌, ◌≡◌, refl, Bool, true, false, ◌&&◌, ◌||◌, List, [], ◌∷◌, ◌++◌, map, keep_if, arith, leb,
  ltb, if◌then◌else◌, ◌==◌,
}
use sentinelops_ai.Incident.Domain.{
  Severity, info, low, medium, high, critical, rank, severity_eq, SeverityReason, anomaly_seen,
  sustained, several_signals, error_rate_high, latency_high, duration_high, error_rate_critical,
  sustained_degradation,
}

-- A field `x` of the source is `x_at` here where a reason has its name.
pub record SeverityConfig : Type 0 where
  pub anomaly_count_medium : ℕ
  pub distinct_signals_medium : ℕ
  pub error_rate_high_at : ℕ
  pub latency_p95_high : ℕ
  pub duration_high_at : ℕ
  pub error_rate_critical_at : ℕ
  pub duration_critical : ℕ
  pub distinct_signals_critical : ℕ

-- `SeverityConfig()`
abbrev pub default_severity : SeverityConfig
default_severity = record {
  anomaly_count_medium = 3;
  distinct_signals_medium = 2;
  error_rate_high_at = 100000;
  latency_p95_high = 500000;
  duration_high_at = 120000000;
  error_rate_critical_at = 300000;
  duration_critical = 300000000;
  distinct_signals_critical = 2;
}

pub record SeverityInputs : Type 0 where
  pub anomaly_count : ℕ
  pub distinct_abnormal_signals : ℕ
  pub max_anomaly_score : ℕ
  pub max_error_rate : ℕ
  pub max_latency_p95 : ℕ
  pub duration : ℕ

pub record SeverityVerdict : Type 0 where
  pub level : Severity
  pub reasons : List SeverityReason

abbrev pub fires : Bool → Severity → SeverityReason → List (Severity × SeverityReason)
fires true level reason = (level, reason) ∷ []
fires false level reason = []

-- The list `fired`
unfoldable pub fired_rules : SeverityInputs → SeverityConfig → List (Severity × SeverityReason)
fired_rules x cfg =
    fires (leb 1 x.anomaly_count) low anomaly_seen
    ++ fires (leb cfg.anomaly_count_medium x.anomaly_count) medium sustained
    ++ fires (leb cfg.distinct_signals_medium x.distinct_abnormal_signals) medium several_signals
    ++ fires (leb cfg.error_rate_high_at x.max_error_rate) high error_rate_high
    ++ fires (leb cfg.latency_p95_high x.max_latency_p95) high latency_high
    ++ fires (leb cfg.duration_high_at x.duration) high duration_high
    ++ fires (leb cfg.error_rate_critical_at x.max_error_rate) critical error_rate_critical
    ++ fires
        (leb cfg.duration_critical x.duration
          && leb cfg.distinct_signals_critical x.distinct_abnormal_signals)
        critical sustained_degradation

-- `max(levels, key=rank)` of the levels so far and those that follow
unfoldable pub top_level : Severity → List (Severity × SeverityReason) → Severity
top_level best [] = best
top_level best ((level, _) ∷ fs) =
    top_level (if ltb (rank best) (rank level) then level else best) fs

unfoldable pub reasons_at : Severity → List (Severity × SeverityReason) → List SeverityReason
reasons_at top [] = []
reasons_at top ((level, reason) ∷ fs) =
    let rest = reasons_at top fs in if level == top then reason ∷ rest else rest

-- From the list of fired rules on; without any, the reason is the text that no rule fired.
unfoldable pub verdict_on : List (Severity × SeverityReason) → SeverityVerdict
unfolding top_level reasons_at
verdict_on [] = record { level = info; reasons = [] }
verdict_on ((level, reason) ∷ fs) =
    let top = top_level level fs in
    record { level = top; reasons = reasons_at top ((level, reason) ∷ fs) }

unfoldable pub evaluate_severity : SeverityInputs → SeverityConfig → SeverityVerdict
unfolding fired_rules verdict_on
evaluate_severity x cfg = verdict_on (fired_rules x cfg)
