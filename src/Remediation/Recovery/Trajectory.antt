-- ===== src/Remediation/Recovery/Trajectory.antt =====
-- The verification loop over the simulated health probe: when a remediated service recovers.
use sentinelops_ai.Prelude.{
  ℕ, ◌+◌, ◌-◌, ◌*◌, ◌≤◌, ◌≡◌, sym, ◌∙◌, ◌↔◌, inl, inr, Bool, true, false, none, some, arith, leb,
  leb→le, not, ◌&&◌,
}
use sentinelops_ai.Prelude.Int.{pos, ltb_ℤ}
use sentinelops_ai.Remediation.Target.{ServiceTarget}
use sentinelops_ai.Remediation.Executor.{ServiceSimState, SimulationState, service_state}
use sentinelops_ai.Remediation.Recovery.{
  RecoveryConfig, RecoveryOutcome, recovered, recovery_failed, simulated_probe, observe_service,
  poll_checks, evaluate_snapshot, all_passed, observe, verify, max_attempts,
}
use sentinelops_ai.Remediation.Recovery.Verdict.{poll_time, passes, Judged, verify_verdict}

-- Whether the simulated service is healthy at a time: it runs with a replica, its fault is not
-- chronic, and it either never had a fault or was remediated its recovery delay ago.
abbrev pub is_healthy_at : ServiceSimState → ℕ → Bool
is_healthy_at s now =
    s.running
    && not (ltb_ℤ s.replicas (pos 1))
    && not s.chronic_fault
    && elim s.recovery_started_at [ none ↦ not s.faulted | some t ↦ leb s.recovery_delay (now - t) ]

-- Thresholds that a healthy service meets, and readiness required, as in the default.
pub record IsStrict (config : RecoveryConfig) : Type 0 where
  pub errors : 30 ≤ config.max_error_rate
  pub latency : 1350 ≤ config.max_latency_p95
  pub ready : config.require_ready ≡ true

healthy_passes :
    (st : SimulationState) (target : ServiceTarget) (config : RecoveryConfig) (start now : ℕ)
    → IsStrict config
    → all_passed (poll_checks (observe (simulated_probe st) target config start now) config)
      ≡ is_healthy_at (service_state target.service_name st) now
unfolding all_passed poll_checks observe simulated_probe observe_service evaluate_snapshot
healthy_passes st target config start now h = ground arith

-- A running service with a replica whose fault is not chronic, remediated at the time `t`.
pub record IsRemediated (s : ServiceSimState) (t : ℕ) : Type 0 where
  pub up : s.running ≡ true
  pub replicas : ltb_ℤ s.replicas (pos 1) ≡ false
  pub curable : s.chronic_fault ≡ false
  pub since : s.recovery_started_at ≡ some t

is_healthy_at-remediated :
    (s : ServiceSimState) (t now : ℕ)
    → IsRemediated s t
    → is_healthy_at s now ≡ leb s.recovery_delay (now - t)
is_healthy_at-remediated s t now r = ground arith

chronic_unhealthy :
    (s : ServiceSimState) (now : ℕ) → s.chronic_fault ≡ true → is_healthy_at s now ≡ false
chronic_unhealthy s now h = ground arith

times_mono : (k n p : ℕ) → k ≤ n → k * p ≤ n * p
times_mono k n p h = grind arith

module _ (st : SimulationState) (target : ServiceTarget) (config : RecoveryConfig) (start : ℕ)
    (strict : IsStrict config) where
  abbrev s : ServiceSimState
  s = service_state target.service_name st

  abbrev outcome : RecoveryOutcome
  outcome = verify (simulated_probe st) target config start

  abbrev time_of : ℕ → ℕ
  time_of = poll_time (simulated_probe st) target config start

  passes_lem :
      (k : ℕ) → passes (simulated_probe st) target config start k ≡ is_healthy_at s (time_of k)
  unfolding passes
  passes_lem k = healthy_passes st target config start (time_of k) strict

  recovers_when :
      (t : ℕ)
      → t ≤ start
      → IsRemediated s t
      → Judged (simulated_probe st) target config start 0 (max_attempts config - 1) outcome
      → (outcome.status ≡ recovered) ↔ (t + s.recovery_delay ≤ time_of (max_attempts config - 1))
  recovers_when t before r (inl (k, h)) =
      let e = sym h.healthy ∙ passes_lem k ∙ is_healthy_at-remediated s t (time_of k) r in
      (
        λ _. omega (
          arith,
          leb→le s.recovery_delay (time_of k - t) (sym e),
          times_mono k (max_attempts config - 1) config.poll_interval h.within,
        ),
        λ _. h.verdict,
      )
  recovers_when t before r (inr f) =
      let n : ℕ = max_attempts config - 1 in
      let e =
        sym (f.sick n (omega arith) (omega arith))
        ∙ passes_lem n
        ∙ is_healthy_at-remediated s t (time_of n) r in
      (λ h. cc f.verdict, λ h. absurd (too_early t before e h))
    where
      too_early :
          (t : ℕ)
          → t ≤ start
          → false ≡ leb s.recovery_delay (time_of (max_attempts config - 1) - t)
          → t + s.recovery_delay ≤ time_of (max_attempts config - 1)
          → ⊥
      too_early t b e h = ground arith

  never_when :
      s.chronic_fault ≡ true
      → Judged (simulated_probe st) target config start 0 (max_attempts config - 1) outcome
      → outcome.status ≡ recovery_failed
  never_when c (inl (k, h)) = cc (sym h.healthy ∙ passes_lem k ∙ chronic_unhealthy s (time_of k) c)
  never_when c (inr f) = f.verdict

-- With readiness required and thresholds that a healthy service meets, verification over the
-- simulation reports a remediated, running service whose fault is curable as recovered exactly if
-- its recovery delay has passed by the last poll.
pub verify_remediated :
    (st : SimulationState) (target : ServiceTarget) (config : RecoveryConfig) (start t : ℕ)
    → IsStrict config
    → t ≤ start
    → IsRemediated (service_state target.service_name st) t
    → ((verify (simulated_probe st) target config start).status ≡ recovered) ↔ (
        t + (service_state target.service_name st).recovery_delay
        ≤ start + (max_attempts config - 1) * config.poll_interval)
verify_remediated st target config start t strict before r =
    recovers_when st target config start strict t before r
      (verify_verdict (simulated_probe st) target config start)

-- With readiness required and thresholds that a healthy service meets, a service with a chronic
-- fault is never reported as recovered.
pub verify_chronic :
    (st : SimulationState) (target : ServiceTarget) (config : RecoveryConfig) (start : ℕ)
    → IsStrict config
    → (service_state target.service_name st).chronic_fault ≡ true
    → (verify (simulated_probe st) target config start).status ≡ recovery_failed
verify_chronic st target config start strict c =
    never_when st target config start strict c
      (verify_verdict (simulated_probe st) target config start)
