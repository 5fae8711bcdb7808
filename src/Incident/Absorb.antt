-- ===== src/Incident/Absorb.antt =====
-- processor.py: how an incident is opened, absorbs an anomaly, and is resolved when it went quiet.
use sentinelops_ai.Prelude.{
  ℕ, ◌+◌, ◌≤◌, max, min, String, ◌≡◌, refl, sym, ap, ◌∙◌, subst, Option, none, some, List, [], ◌∷◌,
  ◌++◌, arith, length, elem, any_of, Every, Every-map, elem-append, Bool, true, leb, inl, inr,
  Bool-cases, ◌||◌, string_eq, nat_eq, ◌==◌,
}
use sentinelops_ai.Prelude.Dict.{lookup}
use sentinelops_ai.Incident.Domain.{
  correlation_key, AnomalySignal, Incident, opened, resolved, info, rank, distinct_abnormal_signals,
  duration,
}
use sentinelops_ai.Prelude.Names.{
  sorted_names, elem-sorted_names, IsSorted, sorted_names-IsSorted, length-union,
}
use sentinelops_ai.Incident.Severity.{SeverityConfig, SeverityInputs, evaluate_severity}
use sentinelops_ai.Incident.Severity.Monotone.{AtMost, severity_monotone}

abbrev or_zero : Option ℕ → ℕ
or_zero none = 0
or_zero (some n) = n

-- The aggregates that the severity rules read
abbrev pub inputs_of : Incident → SeverityInputs
inputs_of i = record {
  anomaly_count = i.anomaly_count;
  distinct_abnormal_signals = distinct_abnormal_signals i;
  max_anomaly_score = i.max_anomaly_score;
  max_error_rate = i.max_error_rate;
  max_latency_p95 = i.max_latency_p95;
  duration = duration i;
}

-- `_absorb` up to the severity
unfoldable pub aggregate : Incident → AnomalySignal → ℕ → Incident
aggregate i s now = record i {
  anomaly_count = i.anomaly_count + 1;
  last_evidence_at = max i.last_evidence_at s.window_end;
  started_at = min i.started_at s.window_start;
  updated_at = now;
  max_anomaly_score = max i.max_anomaly_score s.anomaly_score;
  max_error_rate = max i.max_error_rate (or_zero (lookup "error_rate" s.signals));
  max_latency_p95 = max i.max_latency_p95 (or_zero (lookup "latency_p95_ms" s.signals));
  abnormal_signal_names = sorted_names (s.abnormal_signals ++ i.abnormal_signal_names);
}

-- `AnomalyProcessor._absorb`
unfoldable pub absorb : SeverityConfig → Incident → AnomalySignal → ℕ → Incident
unfolding aggregate
absorb cfg i s now =
    let folded = aggregate i s now in
    let verdict = evaluate_severity (inputs_of folded) cfg in
    record folded { severity = verdict.level; severity_reasons = verdict.reasons }

-- The incident of `_new_incident` before it absorbs its first anomaly
abbrev pub blank_incident : AnomalySignal → String → ℕ → Incident
blank_incident s fresh now = record {
  id = fresh;
  correlation_key = correlation_key s.service s.environment;
  service = s.service;
  environment = s.environment;
  status = opened;
  severity = info;
  severity_reasons = [];
  anomaly_count = 0;
  max_anomaly_score = 0;
  max_error_rate = 0;
  max_latency_p95 = 0;
  started_at = s.window_start;
  last_evidence_at = s.window_end;
  created_at = now;
  updated_at = now;
  abnormal_signal_names = [];
  resolved_at = none;
  resolution = none;
}

-- `_new_incident`, with a fresh id and the clock's reading
unfoldable pub new_incident : SeverityConfig → AnomalySignal → String → ℕ → Incident
unfolding absorb
new_incident cfg s fresh now = absorb cfg (blank_incident s fresh now) s now

-- `_auto_resolve`
unfoldable pub auto_resolve : Incident → ℕ → Incident
auto_resolve i now = record i {
  status = resolved;
  resolved_at = some i.last_evidence_at;
  resolution = some "auto:stale";
  updated_at = now;
}

-- The greatest value of a measure on a list
abbrev pub peak : {A : Type 0} → (A → ℕ) → List A → ℕ
peak f [] = 0
peak f (x ∷ xs) = max (f x) (peak f xs)

abbrev pub error_rate_of : AnomalySignal → ℕ
error_rate_of a = or_zero (lookup "error_rate" a.signals)

abbrev pub latency_of : AnomalySignal → ℕ
latency_of a = or_zero (lookup "latency_p95_ms" a.signals)

-- An incident that stands for the anomalies of `evidence`: its aggregates are theirs, the names of
-- its signals are a sorted set of theirs, and its severity is that of the rules on the aggregates.
pub record IsRated (cfg : SeverityConfig) (evidence : List AnomalySignal) (i : Incident)
    : Type 0 where
  pub count : i.anomaly_count ≡ length evidence
  pub score : i.max_anomaly_score ≡ peak (λ (a : AnomalySignal). a.anomaly_score) evidence
  pub error_rate : i.max_error_rate ≡ peak error_rate_of evidence
  pub latency : i.max_latency_p95 ≡ peak latency_of evidence
  pub last : i.last_evidence_at ≡ peak (λ (a : AnomalySignal). a.window_end) evidence
  pub first : Every (λ (a : AnomalySignal). i.started_at ≤ a.window_start) evidence
  pub attained : any_of (λ (a : AnomalySignal). a.window_start == i.started_at) evidence ≡ true
  pub named :
      (n : String)
      → elem n i.abnormal_signal_names
        ≡ any_of (λ (a : AnomalySignal). elem n a.abnormal_signals) evidence
  pub sorted : IsSorted i.abnormal_signal_names
  pub rated : i.severity ≡ (evaluate_severity (inputs_of i) cfg).level

aggregate-AtMost :
    (i : Incident) (s : AnomalySignal) (now : ℕ)
    → IsSorted i.abnormal_signal_names
    → AtMost (inputs_of i) (inputs_of (aggregate i s now))
unfolding aggregate
aggregate-AtMost i s now h = record {
  count = omega arith;
  distinct = length-union i.abnormal_signal_names s.abnormal_signals h;
  error_rate = omega arith;
  latency = omega arith;
  lasting = omega arith;
}

either_true : (b : Bool) {c : Bool} → c ≡ true → (b || c) ≡ true
either_true b h = ground arith

one_true : {b : Bool} (c : Bool) → b ≡ true → (b || c) ≡ true
one_true c h = ground arith

started_min :
    (s : AnomalySignal) (m : ℕ) (evidence : List AnomalySignal)
    → any_of (λ (a : AnomalySignal). a.window_start == m) evidence ≡ true
    → any_of (λ (a : AnomalySignal). a.window_start == min m s.window_start) (s ∷ evidence) ≡ true
started_min s m evidence h =
    let start = min m s.window_start in
    let starts : ℕ → Bool = λ k. any_of (λ (a : AnomalySignal). a.window_start == k) evidence in
    elim (Bool-cases (leb m s.window_start)) [
      | inl e ↦
          let same : m ≡ start = ground (arith, e) in
          let old = subst (λ k. starts k ≡ true) same h in either_true (s.window_start == start) old
      | inr e ↦
          let same : s.window_start ≡ start = ground (arith, e) in
          one_true (starts start) ((nat_eq.test_iff s.window_start start).1 same)
    ]

absorb-IsRated :
    (cfg : SeverityConfig) (evidence : List AnomalySignal) (i : Incident) (s : AnomalySignal)
    (now : ℕ)
    → IsRated cfg evidence i
    → IsRated cfg (s ∷ evidence) (absorb cfg i s now)
unfolding absorb aggregate
absorb-IsRated cfg evidence i s now h = record {
  count = omega (arith, h.count);
  score = omega (arith, h.score);
  error_rate = omega (arith, h.error_rate);
  latency = omega (arith, h.latency);
  last = omega (arith, h.last);
  first = (
    omega arith,
    Every-map (λ (a : AnomalySignal). i.started_at ≤ a.window_start)
        (λ (a : AnomalySignal). min i.started_at s.window_start ≤ a.window_start) evidence
        (λ a le. omega (arith, le)) h.first,
  );
  attained = started_min s i.started_at evidence h.attained;
  named = λ n.
      elem-sorted_names n (s.abnormal_signals ++ i.abnormal_signal_names)
      ∙ elem-append n s.abnormal_signals i.abnormal_signal_names
      ∙ ap (λ b. elem n s.abnormal_signals || b) (h.named n);
  sorted = sorted_names-IsSorted (s.abnormal_signals ++ i.abnormal_signal_names);
  rated = refl;
}

pub new_incident-IsRated :
    (cfg : SeverityConfig) (s : AnomalySignal) (fresh : String) (now : ℕ)
    → IsRated cfg (s ∷ []) (new_incident cfg s fresh now)
unfolding new_incident absorb aggregate
new_incident-IsRated cfg s fresh now = record {
  count = refl;
  score = omega arith;
  error_rate = omega arith;
  latency = omega arith;
  last = omega arith;
  first = (omega arith, tt);
  attained = ground arith;
  named = λ n. elem-sorted_names n (s.abnormal_signals ++ []) ∙ elem-append n s.abnormal_signals [];
  sorted = sorted_names-IsSorted (s.abnormal_signals ++ []);
  rated = refl;
}

pub absorb_escalates :
    (cfg : SeverityConfig) (evidence : List AnomalySignal) (i : Incident) (s : AnomalySignal)
    (fresh : String) (now : ℕ)
    → IsRated cfg evidence i
    → IsRated cfg (s ∷ evidence) (absorb cfg i s now)
      × (rank i.severity ≤ rank (absorb cfg i s now).severity)
      × IsRated cfg (s ∷ []) (new_incident cfg s fresh now)
unfolding absorb
absorb_escalates cfg evidence i s fresh now h = (
  absorb-IsRated cfg evidence i s now h,
  subst (λ k. rank k ≤ rank (absorb cfg i s now).severity) (sym h.rated)
      (severity_monotone (inputs_of i) (inputs_of (aggregate i s now)) cfg
        (aggregate-AtMost i s now h.sorted)),
  new_incident-IsRated cfg s fresh now,
)
