-- ===== src/Remediation/Coherence/EndToEnd.antt =====
-- From an approval to a verified recovery, over the simulation.
use sentinelops_ai.Prelude.{
  ℕ, ◌+◌, ◌-◌, ◌*◌, ◌≤◌, String, ◌≡◌, sym, ap, ◌∙◌, subst, false, some, arith, ok, ◌↔◌,
}
use sentinelops_ai.Prelude.Int.{pos, ltb_ℤ}
use sentinelops_ai.Prelude.Dict.{Dict, lookup}
use sentinelops_ai.Remediation.Enums.{executing, recovered, restart_service}
use sentinelops_ai.Remediation.Catalogue.{Value}
use sentinelops_ai.Remediation.Executor.{
  ExecutionResult, ServiceSimState, SimulationState, service_state, local_executor,
}
use sentinelops_ai.Remediation.Executor.Simulated.{RanOn, Effected}
use sentinelops_ai.Remediation.Recovery.{RecoveryConfig, verify, max_attempts, simulated_probe}
use sentinelops_ai.Remediation.Recovery as Recovery
use sentinelops_ai.Remediation.Recovery.Trajectory.{IsStrict, IsRemediated, verify_remediated}
use sentinelops_ai.Remediation.Record.{RemediationRecord, status_of, with_status}
use sentinelops_ai.Remediation.Repository.{Store}
use sentinelops_ai.Remediation.Service.Execution.{World, execute}
use sentinelops_ai.Remediation.Service.Verification.{
  final_status, VerificationOutcome, verify_recovery,
}
use sentinelops_ai.Remediation.Coherence.{IsCoherent}
use sentinelops_ai.Remediation.Coherence.Executing.{execute-IsCoherent}
use sentinelops_ai.Remediation.Coherence.Progress.{Executable, Executed, execute_succeeds}
use sentinelops_ai.Remediation.Coherence.Recovers.{verify_recovery_succeeds}

-- A service that a restart can cure
pub record IsCurable (s : ServiceSimState) : Type 0 where
  pub curable : s.chronic_fault ≡ false
  pub replicas : ltb_ℤ s.replicas (pos 1) ≡ false

restarted-IsRemediated :
    (r : RemediationRecord) (v : Dict Value) (st st' : SimulationState) (now : ℕ)
    (result : ExecutionResult)
    → r.proposal.action_type ≡ restart_service
    → IsCurable (service_state r.proposal.target.service_name st)
    → RanOn st st' (with_status executing r).proposal v now result
    → IsRemediated (service_state r.proposal.target.service_name st') now
unfolding with_status
restarted-IsRemediated r v st st' now result a c ran =
    let before = service_state r.proposal.target.service_name st in
    let after = service_state r.proposal.target.service_name st' in
    let done = subst (λ k. Effected k v before after) a ran.effected in
    record {
      up = ap (λ (x : ServiceSimState). x.running) done;
      replicas = ap (λ (x : ServiceSimState). ltb_ℤ x.replicas (pos 1)) done ∙ c.replicas;
      curable = ran.chronic ∙ c.curable;
      since = ran.remediated;
    }

final_status_iff :
    (x : Recovery.VerificationStatus)
    → (final_status x ≡ recovered) ↔ (x ≡ Recovery.VerificationStatus.recovered)
final_status_iff x = ground arith

module _ (config : RecoveryConfig) (rid i j : String) (now failed_at later : ℕ)
    (w : World local_executor) (r : RemediationRecord) (v : Dict Value) where
  carried_out :
      (w' : World local_executor) (f : RemediationRecord) (result : ExecutionResult)
      → IsCoherent w'.store
      → Executed rid now r v w w' f result
      → f.proposal.target ≡ r.proposal.target
      → r.proposal.action_type ≡ restart_service
      → IsCurable (service_state r.proposal.target.service_name w.simulation)
      → IsStrict config
      → now ≤ later
      → (o : VerificationOutcome) × (s : Store) × (verify_recovery
            (simulated_probe w'.simulation)
            config
            rid
            j
            later
            w'.store
          ≡ (ok o, s))
        × (lookup rid s.records ≡ some o.record_after)
        × ((status_of o.record_after ≡ recovered) ↔ (
            now + (service_state r.proposal.target.service_name w.simulation).recovery_delay
            ≤ later + (max_attempts config - 1) * config.poll_interval))
  unfolding with_status
  carried_out w' f result h x t a c strict before =
      let probe = simulated_probe w'.simulation in
      let (o, s, run, fresh, d) =
        verify_recovery_succeeds probe config rid j later w'.store f h x.stored x.status in
      let name = r.proposal.target.service_name in
      let same =
        verify_remediated w'.simulation r.proposal.target config later now strict before
          (restarted-IsRemediated r v w.simulation w'.simulation now result a c x.ran) in
      let verdict : status_of o.record_after
          ≡ final_status (verify probe r.proposal.target config later).status =
        d.verdict ∙ ap (λ y. final_status (verify probe y config later).status) t in
      let delay = x.ran.delay in
      (
        o,
        s,
        run,
        d.stored,
        (
          λ e.
              subst (λ n. now + n ≤ later + (max_attempts config - 1) * config.poll_interval) delay
                (same.0 ((final_status_iff _).0 (sym verdict ∙ e))),
          λ e.
              verdict
              ∙ (final_status_iff _).1 (
                  same.1 (
                    subst (λ n. now + n ≤ later + (max_attempts config - 1) * config.poll_interval)
                      (sym delay) e)),
        ),
      )

-- An approved restart that may run is executed and then verified, over the simulation and a coherent
-- store, under a strict configuration of the recovery (one that asks for readiness and whose
-- thresholds a healthy service meets) and not before it was executed: of a service that has a replica
-- and no chronic fault, the stored outcome is `recovered` exactly if the service's recovery delay,
-- counted from the execution, has passed by the last poll.
pub approved_restart_recovers :
    (config : RecoveryConfig) (rid i j : String) (now failed_at later : ℕ)
    (w : World local_executor) (r : RemediationRecord) (v : Dict Value)
    → IsCoherent w.store
    → Executable w.store rid now r v
    → r.proposal.action_type ≡ restart_service
    → IsCurable (service_state r.proposal.target.service_name w.simulation)
    → IsStrict config
    → now ≤ later
    → let w' = (execute local_executor rid false i now failed_at w).1 in
      (o : VerificationOutcome) × (s : Store) × (verify_recovery
          (simulated_probe w'.simulation)
          config
          rid
          j
          later
          w'.store
        ≡ (ok o, s))
      × (lookup rid s.records ≡ some o.record_after)
      × ((status_of o.record_after ≡ recovered) ↔ (
          now + (service_state r.proposal.target.service_name w.simulation).recovery_delay
          ≤ later + (max_attempts config - 1) * config.poll_interval))
approved_restart_recovers config rid i j now failed_at later w r v h x a c strict before =
    let (f, result, w', run, d) = execute_succeeds rid i now failed_at w r v h x in
    let same : w' ≡ (execute local_executor rid false i now failed_at w).1 =
      sym (ap (λ y. y.1) run) in
    let coherent = execute-IsCoherent local_executor rid false i now failed_at w h in
    carried_out config rid i j now failed_at later w r v
      (execute local_executor rid false i now failed_at w).1 f result coherent
      (subst (λ y. Executed rid now r v w y f result) same d) d.target a c strict before
