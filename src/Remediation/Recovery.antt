-- ===== src/Remediation/Recovery.antt =====
-- recovery: the health probe over the simulation, and the bounded verification loop.
pub mod Verdict
pub mod Trajectory
use sentinelops_ai.Prelude.{
  ℕ, zero, suc, ◌+◌, ◌-◌, ◌*◌, ◌/◌, max, String, Bool, true, false, not, ◌&&◌, ◌||◌, Option, none,
  some, List, [], ◌∷◌, ◌++◌, map, keep_if, all_of, if◌then◌else◌, leb, ltb, length,
}
use sentinelops_ai.Prelude.Int.{ℤ, pos, ltb_ℤ, pos_part}
use sentinelops_ai.Remediation.Target.{ServiceTarget}
use sentinelops_ai.Remediation.Executor.{ServiceSimState, SimulationState, service_state}

pub data VerificationStatus : Type 0 where
  started recovered recovery_failed : VerificationStatus

pub data HealthStatus : Type 0 where
  healthy degraded unhealthy : HealthStatus

-- Rates are in ten-thousandths and latencies in tenths of a millisecond: the probe rounds to
-- these. Times and intervals are in microseconds.
pub record HealthSnapshot : Type 0 where
  pub service : String
  pub environment : String
  pub status : HealthStatus
  pub ready : Bool
  pub running : Bool
  pub replicas_available : ℕ
  pub error_rate : ℕ
  pub success_rate : ℕ
  pub latency_p95 : ℕ
  pub observed_at : ℕ

pub record RecoveryConfig : Type 0 where
  pub timeout_seconds : ℕ
  pub poll_interval : ℕ
  pub max_error_rate : ℕ
  pub min_success_rate : ℕ
  pub max_latency_p95 : ℕ
  pub min_replicas : ℕ
  pub require_ready : Bool

-- `RecoveryVerificationConfig()`
abbrev pub default_recovery_config : RecoveryConfig
default_recovery_config = record {
  timeout_seconds = 30;
  poll_interval = 3000000;
  max_error_rate = 500;
  min_success_rate = 9500;
  max_latency_p95 = 7500;
  min_replicas = 1;
  require_ready = true;
}

unfoldable pub max_attempts : RecoveryConfig → ℕ
max_attempts config = max 1 (config.timeout_seconds * 1000000 / config.poll_interval + 1)

-- A `HealthProbe`: `none` is a probe that raised.
abbrev pub Probe : Type 0
Probe = String → String → ℕ → Option HealthSnapshot

-- `SimulatedHealthProbe._snap`
snap : String → String → ℕ → HealthStatus → Bool → Bool → ℤ → ℕ → ℕ → HealthSnapshot
snap service environment now status ready running replicas error_rate latency = record {
  service = service;
  environment = environment;
  status = status;
  ready = ready;
  running = running;
  replicas_available = pos_part replicas;
  error_rate = error_rate;
  success_rate = 10000 - error_rate;
  latency_p95 = latency;
  observed_at = now;
}

-- The share of `total` that is left after `elapsed`, times `scale`, to the nearest unit
unfoldable pub remaining_share : ℕ → ℕ → ℕ → ℕ
remaining_share scale elapsed total = (2 * (scale * (total - elapsed)) + total) / (2 * total)

-- What `probe` reports once a remediation was applied `elapsed` ago
converging : String → String → ℕ → ServiceSimState → ℕ → HealthSnapshot
unfolding snap remaining_share
converging service environment now s elapsed =
    if leb s.recovery_delay elapsed
    then snap service environment now healthy true true s.replicas 30 1350
    else snap service environment now degraded false true s.replicas
        (remaining_share 3000 elapsed s.recovery_delay + 100)
        (remaining_share 16000 elapsed s.recovery_delay + 1500)

-- `SimulatedHealthProbe.probe` on the state of the service
unfoldable pub observe_service : String → String → ℕ → ServiceSimState → HealthSnapshot
unfolding snap converging
observe_service service environment now s =
    if not s.running || ltb_ℤ s.replicas (pos 1)
    then snap service environment now unhealthy false s.running s.replicas 10000 80000
    else if s.chronic_fault
    then snap service environment now degraded false true s.replicas 3700 21000
    else elim s.recovery_started_at [
      | none ↦
          if s.faulted
          then snap service environment now degraded false true s.replicas 4200 26000
          else snap service environment now healthy true true s.replicas 20 1100
      | some t ↦ converging service environment now s (now - t)
    ]

unfoldable pub simulated_probe : SimulationState → Probe
simulated_probe st service environment now =
    some (observe_service service environment now (service_state service st))

-- A check with its name and its verdict; the texts for a human reader are left out.
pub record RecoveryCheck : Type 0 where
  pub name : String
  pub passed : Bool

-- `_evaluate`
unfoldable pub evaluate_snapshot : HealthSnapshot → RecoveryConfig → List RecoveryCheck
evaluate_snapshot s config =
    record { name = "service_running"; passed = s.running }
    ∷ record { name = "error_rate"; passed = leb s.error_rate config.max_error_rate }
    ∷ record { name = "latency_p95"; passed = leb s.latency_p95 config.max_latency_p95 }
    ∷ (if config.require_ready then record { name = "readiness"; passed = s.ready } ∷ [] else [])

-- What one poll yields: the checks, and the status that the probe claims
unfoldable pub poll_checks : Option HealthSnapshot → RecoveryConfig → List RecoveryCheck
poll_checks none config = record { name = "probe_error"; passed = false } ∷ []
poll_checks (some s) config = evaluate_snapshot s config

abbrev pub claimed_status : Option HealthSnapshot → HealthStatus
claimed_status none = unhealthy
claimed_status (some s) = s.status

unfoldable pub all_passed : List RecoveryCheck → Bool
all_passed cs = all_of (λ c. c.passed) cs

-- `failure_reason` is kept as the names of the failing checks.
pub record RecoveryOutcome : Type 0 where
  pub status : VerificationStatus
  pub checks : List RecoveryCheck
  pub attempts : ℕ
  pub first_healthy_at : Option ℕ
  pub failing : Option (List String)
  pub probe_status : HealthStatus
  pub started_at : ℕ
  pub completed_at : ℕ

-- `RecoveryOutcome.checks_passed`
unfoldable pub checks_passed : RecoveryOutcome → ℕ
checks_passed o = length (keep_if (λ c. c.passed) o.checks)

abbrev failed_names : List RecoveryCheck → List String
failed_names cs = map (λ c. c.name) (keep_if (λ c. not c.passed) cs)

-- The virtual clock advances only if another poll follows.
abbrev pub next_poll : ℕ → ℕ → ℕ → ℕ
next_poll zero step current = current
next_poll (suc n) step current = current + step

module _ (probe : Probe) (target : ServiceTarget) (config : RecoveryConfig) (started_at : ℕ) where
  unfoldable pub observe : ℕ → Option HealthSnapshot
  observe now = probe target.service_name target.environment now

  -- The loop of `verify`: polls left, number of this poll, virtual clock, and what the last poll
  -- left behind.
  unfoldable pub poll_loop : ℕ → ℕ → ℕ → List RecoveryCheck → HealthStatus → RecoveryOutcome
  poll_loop zero attempt current checks claimed = record {
    status = recovery_failed;
    checks = checks;
    attempts = max_attempts config;
    first_healthy_at = none;
    failing = some (failed_names checks);
    probe_status = claimed;
    started_at = started_at;
    completed_at = current;
  }
  poll_loop (suc n) attempt current _ _ =
      let seen = observe current in
      let checks = poll_checks seen config in
      let rest =
        poll_loop n (suc attempt) (next_poll n config.poll_interval current) checks
          (claimed_status seen) in
      if all_passed checks
      then record {
        status = recovered;
        checks = checks;
        attempts = attempt;
        first_healthy_at = some current;
        failing = none;
        probe_status = claimed_status seen;
        started_at = started_at;
        completed_at = current;
      }
      else rest

  -- `DeterministicRecoveryVerifier.verify`
  unfoldable pub verify : RecoveryOutcome
  unfolding poll_loop
  verify = poll_loop (max_attempts config) 1 started_at [] unhealthy
