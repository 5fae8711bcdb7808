-- ===== src/Incident/Severity/Monotone.antt =====
-- The level of an incident as a condition on its aggregates.
use sentinelops_ai.Prelude.{
  ℕ, ◌≤◌, ◌≡◌, sym, subst, Bool, true, ◌&&◌, ◌||◌, ◌++◌, arith, leb, if◌then◌else◌,
}
use sentinelops_ai.Incident.Domain.{
  Severity, info, low, medium, high, critical, rank, anomaly_seen, sustained, several_signals,
  error_rate_high, latency_high, duration_high, error_rate_critical, sustained_degradation,
}
use sentinelops_ai.Incident.Severity.{
  SeverityConfig, SeverityInputs, evaluate_severity, fired_rules, verdict_on, fires,
}

abbrev pub is_critical : SeverityInputs → SeverityConfig → Bool
is_critical x cfg =
    leb cfg.error_rate_critical_at x.max_error_rate
    || (leb cfg.duration_critical x.duration
        && leb cfg.distinct_signals_critical x.distinct_abnormal_signals)

abbrev pub is_high : SeverityInputs → SeverityConfig → Bool
is_high x cfg =
    leb cfg.error_rate_high_at x.max_error_rate
    || leb cfg.latency_p95_high x.max_latency_p95
    || leb cfg.duration_high_at x.duration

abbrev pub is_medium : SeverityInputs → SeverityConfig → Bool
is_medium x cfg =
    leb cfg.anomaly_count_medium x.anomaly_count
    || leb cfg.distinct_signals_medium x.distinct_abnormal_signals

-- The level by the outcomes of the eight tests
by_tests :
    (a b c d e f g h : Bool)
    → (verdict_on (
        fires a low anomaly_seen
        ++ fires b medium sustained
        ++ fires c medium several_signals
        ++ fires d high error_rate_high
        ++ fires e high latency_high
        ++ fires f high duration_high
        ++ fires g critical error_rate_critical
        ++ fires h critical sustained_degradation)).level
      ≡ (if g || h
          then critical
          else if d || e || f
          then high
          else if b || c
          then medium
          else if a
          then low
          else info)
unfolding verdict_on
by_tests a b c d e f g h = ground arith

-- The severity of an incident is `critical` if a critical rule holds, else `high` if a high one
-- does, else `medium` if a medium one does, else `low` with an anomaly and `info` without.
pub severity_level :
    (x : SeverityInputs) (cfg : SeverityConfig)
    → (evaluate_severity x cfg).level ≡ (
        if is_critical x cfg
        then critical
        else if is_high x cfg
        then high
        else if is_medium x cfg
        then medium
        else if leb 1 x.anomaly_count
        then low
        else info)
unfolding evaluate_severity fired_rules
severity_level x cfg =
    by_tests (leb 1 x.anomaly_count) (leb cfg.anomaly_count_medium x.anomaly_count)
      (leb cfg.distinct_signals_medium x.distinct_abnormal_signals)
      (leb cfg.error_rate_high_at x.max_error_rate) (leb cfg.latency_p95_high x.max_latency_p95)
      (leb cfg.duration_high_at x.duration) (leb cfg.error_rate_critical_at x.max_error_rate)
      (leb cfg.duration_critical x.duration
        && leb cfg.distinct_signals_critical x.distinct_abnormal_signals)

-- `x` is at most `y` in every aggregate that a rule reads.
pub record AtMost (x y : SeverityInputs) : Type 0 where
  pub count : x.anomaly_count ≤ y.anomaly_count
  pub distinct : x.distinct_abnormal_signals ≤ y.distinct_abnormal_signals
  pub error_rate : x.max_error_rate ≤ y.max_error_rate
  pub latency : x.max_latency_p95 ≤ y.max_latency_p95
  pub lasting : x.duration ≤ y.duration

abbrev ladder : Bool → Bool → Bool → Bool → Severity
ladder c h m l =
    if c then critical else if h then high else if m then medium else if l then low else info

ladder_monotone :
    (c h m l c' h' m' l' : Bool)
    → (c ≡ true → c' ≡ true)
    → (h ≡ true → h' ≡ true)
    → (m ≡ true → m' ≡ true)
    → (l ≡ true → l' ≡ true)
    → rank (ladder c h m l) ≤ rank (ladder c' h' m' l')
ladder_monotone c h m l c' h' m' l' p q r s = ground (arith, p, q, r, s)

leb_monotone : (t a b : ℕ) → a ≤ b → leb t a ≡ true → leb t b ≡ true
leb_monotone t a b h e = ground arith

or_monotone :
    (a b a' b' : Bool)
    → (a ≡ true → a' ≡ true)
    → (b ≡ true → b' ≡ true)
    → (a || b) ≡ true
    → (a' || b') ≡ true
or_monotone a b a' b' p q e = ground (arith, p, q)

and_monotone :
    (a b a' b' : Bool)
    → (a ≡ true → a' ≡ true)
    → (b ≡ true → b' ≡ true)
    → (a && b) ≡ true
    → (a' && b') ≡ true
and_monotone a b a' b' p q e = ground (arith, p, q)

-- Greater aggregates never lower the severity.
pub severity_monotone :
    (x y : SeverityInputs) (cfg : SeverityConfig)
    → AtMost x y
    → rank (evaluate_severity x cfg).level ≤ rank (evaluate_severity y cfg).level
severity_monotone x y cfg m =
    subst (λ k. rank k ≤ rank (evaluate_severity y cfg).level) (sym (severity_level x cfg))
      (subst
        (λ k.
          rank
            (ladder (is_critical x cfg) (is_high x cfg) (is_medium x cfg) (leb 1 x.anomaly_count))
          ≤ rank k)
        (sym (severity_level y cfg))
        (ladder_monotone (is_critical x cfg) (is_high x cfg) (is_medium x cfg)
          (leb 1 x.anomaly_count) (is_critical y cfg) (is_high y cfg) (is_medium y cfg)
          (leb 1 y.anomaly_count)
          (or_monotone _ _ _ _ (leb_monotone _ _ _ m.error_rate)
            (and_monotone _ _ _ _ (leb_monotone _ _ _ m.lasting) (leb_monotone _ _ _ m.distinct)))
          (or_monotone _ _ _ _
            (or_monotone _ _ _ _ (leb_monotone _ _ _ m.error_rate) (leb_monotone _ _ _ m.latency))
            (leb_monotone _ _ _ m.lasting))
          (or_monotone _ _ _ _ (leb_monotone _ _ _ m.count) (leb_monotone _ _ _ m.distinct))
          (leb_monotone _ _ _ m.count)))
