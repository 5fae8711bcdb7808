-- ===== src/Remediation/ServiceExamples.antt =====
-- The theorems on the service and its store at the scenario.
use sentinelops_ai.Prelude.{◌≡◌, refl, some, [], ◌∷◌, true, false}
use sentinelops_ai.Remediation.Enums.{recovered}
use sentinelops_ai.Remediation.Policy.{default_config}
use sentinelops_ai.Remediation.Executor.{local_executor}
use sentinelops_ai.Remediation.Recovery.{default_recovery_config}
use sentinelops_ai.Remediation.Record.{RemediationRecord, status_of}
use sentinelops_ai.Remediation.Service.Execution.{World}
use sentinelops_ai.Prelude.Dict.{lookup}
use sentinelops_ai.Remediation.Target.{is_allowed_service}
use sentinelops_ai.Remediation.Catalogue.{catalogue, is_allowed_target}
use sentinelops_ai.Remediation.Executor.{service_state}
use sentinelops_ai.Remediation.Recovery.{max_attempts, simulated_probe}
use sentinelops_ai.Remediation.Service.Execution.{execute}
use sentinelops_ai.Remediation.Service.Verification.{verify_recovery}
use sentinelops_ai.Prelude.{◌≤◌}
use sentinelops_ai.Remediation.Enums.{pending_approval, restart_service, succeeded}
use sentinelops_ai.Remediation.Executor.{ExecutionResult}
use sentinelops_ai.Remediation.Service.Calls.{perform, propose_call, execute_call}
use sentinelops_ai.Remediation.Coherence.{IsCoherent, Approval, starts}
use sentinelops_ai.Remediation.Coherence.Calls.{perform-IsCoherent, reachable-IsCoherent}
use sentinelops_ai.Remediation.Coherence.Safety.{
  executions_approved, started_once, verifications_executed, expired_unreached,
}
use sentinelops_ai.Prelude.{◌-◌, ◌≢◌, ◌+◌, ◌*◌, ◌↔◌, ok, arith}
use sentinelops_ai.Remediation.Enums.{status_eq, expired}
use sentinelops_ai.Remediation.Policy.Codes.{code_eq}
use sentinelops_ai.Remediation.Coherence.{Execution}
use sentinelops_ai.Prelude.{subst, sym}
use sentinelops_ai.Remediation.Repository.{Store}
use sentinelops_ai.Remediation.Service.Verification.{VerificationOutcome}
use sentinelops_ai.Remediation.Coherence.Progress.{Executable, Executed, execute_succeeds}
use sentinelops_ai.Remediation.Coherence.Recovers.{Verified, verify_recovery_succeeds}
use sentinelops_ai.Remediation.Coherence.EndToEnd.{IsCurable, approved_restart_recovers}
use sentinelops_ai.Remediation.Service.Calls.{store_after}
use sentinelops_ai.Remediation.Service.Spacing.{Spaced, propose-Spaced}
use sentinelops_ai.Remediation.Scenario.{
  again, approved_calls, approved_record, awaiting, executed_calls, executed_record,
  faulted_simulation, mapping, orders, recovered_calls, recovered_record, restart_orders,
  restart_result, restart_verification, restarted_simulation, second_record, start_world,
}
use sentinelops_ai.Remediation.Runs.{
  after, executed_row, verified_row, proposed_row, approved_row, simulation_kept,
  executed_record_row, recovered_row, proposed_again, accepted_again, same_kind_again,
}
use sentinelops_ai.Remediation.Examples.{default_config-IsStrict, no_parameters_accepted}

executions_approved_example :
    (r : RemediationRecord) × (lookup "rem_1" (after executed_calls).store.records ≡ some r)
    × (r.execution ≡ some restart_result)
    × Approval r
executions_approved_example =
    executions_approved default_config default_recovery_config local_executor simulated_probe
      executed_calls start_world "rem_1" restart_result refl executed_row

started_once_example : starts "rem_1" (after executed_calls).store.audit ≤ 1
started_once_example =
    started_once default_config default_recovery_config local_executor simulated_probe
      executed_calls start_world "rem_1" refl

perform-IsCoherent_example :
    IsCoherent
      (perform default_config default_recovery_config local_executor simulated_probe
        (execute_call "rem_1" false "exec_1" 3000 3000)
        (after approved_calls)).store
perform-IsCoherent_example =
    perform-IsCoherent default_config default_recovery_config local_executor simulated_probe
      (execute_call "rem_1" false "exec_1" 3000 3000) (after approved_calls)
      (reachable-IsCoherent default_config default_recovery_config local_executor simulated_probe
        approved_calls start_world refl)

verifications_executed_example :
    (r : RemediationRecord) × (lookup "rem_1" (after recovered_calls).store.records ≡ some r)
    × (r.verification ≡ some restart_verification)
    × Approval r
    × Execution r succeeded
verifications_executed_example =
    verifications_executed default_config default_recovery_config local_executor simulated_probe
      recovered_calls start_world "rem_1" restart_verification refl verified_row

expired_unreached_example : pending_approval ≢ expired
expired_unreached_example =
    expired_unreached default_config default_recovery_config local_executor simulated_probe
      (propose_call restart_orders mapping ∷ []) start_world "rem_1" awaiting refl proposed_row

orders_allowed : is_allowed_target restart_service orders ≡ true
unfolding is_allowed_target is_allowed_service catalogue
orders_allowed = refl

approved-Executable : Executable (after approved_calls).store "rem_1" 3000 approved_record []
approved-Executable = record {
  stored = approved_row;
  status = refl;
  allowed = orders_allowed;
  parameters = no_parameters_accepted;
  in_time = omega arith;
}

approved_calls-IsCoherent : IsCoherent (after approved_calls).store
approved_calls-IsCoherent =
    reachable-IsCoherent default_config default_recovery_config local_executor simulated_probe
      approved_calls start_world refl

execute_succeeds_example :
    (f : RemediationRecord) × (result : ExecutionResult) × (w : World local_executor) × (execute
        local_executor "rem_1" false "exec_1" 3000 3000
        (after approved_calls)
      ≡ (ok (f, result), w))
    × Executed "rem_1" 3000 approved_record [] (after approved_calls) w f result
execute_succeeds_example =
    execute_succeeds "rem_1" "exec_1" 3000 3000 (after approved_calls) approved_record []
      approved_calls-IsCoherent approved-Executable

faulted-IsCurable : IsCurable (service_state "orders-service" faulted_simulation)
unfolding service_state lookup
faulted-IsCurable = record { curable = refl; replicas = refl }

approved_restart_recovers_example :
    let w = (execute local_executor "rem_1" false "exec_1" 3000 3000 (after approved_calls)).1 in
    (o : VerificationOutcome) × (s : Store) × (verify_recovery
        (simulated_probe w.simulation)
        default_recovery_config
        "rem_1"
        "ver_1"
        4000
        w.store
      ≡ (ok o, s))
    × (lookup "rem_1" s.records ≡ some o.record_after)
    × ((status_of o.record_after ≡ recovered) ↔ (
        3000 + (service_state "orders-service" (after approved_calls).simulation).recovery_delay
        ≤ 4000 + (max_attempts default_recovery_config - 1) * 3000000))
approved_restart_recovers_example =
    approved_restart_recovers default_recovery_config "rem_1" "exec_1" "ver_1" 3000 3000 4000
      (after approved_calls) approved_record [] approved_calls-IsCoherent approved-Executable refl
      (subst (λ st. IsCurable (service_state "orders-service" st)) (sym simulation_kept)
        faulted-IsCurable)
      default_config-IsStrict (omega arith)

verify_recovery_succeeds_example :
    (o : VerificationOutcome) × (s : Store) × (verify_recovery
        (simulated_probe restarted_simulation)
        default_recovery_config
        "rem_1"
        "ver_1"
        4000
        (after executed_calls).store
      ≡ (ok o, s))
    × (o.replayed ≡ false)
    × Verified
        (simulated_probe restarted_simulation)
        default_recovery_config
        "rem_1"
        4000
        executed_record
        s
        o.record_after
verify_recovery_succeeds_example =
    verify_recovery_succeeds (simulated_probe restarted_simulation) default_recovery_config "rem_1"
      "ver_1" 4000 (after executed_calls).store executed_record
      (reachable-IsCoherent default_config default_recovery_config local_executor simulated_probe
        executed_calls start_world refl)
      executed_record_row refl

propose-Spaced_example : Spaced 5000 (catalogue restart_service).cooldown_seconds recovered_record
propose-Spaced_example =
    propose-Spaced default_config restart_orders again (after recovered_calls).store second_record
      (store_after (after recovered_calls).store proposed_again) accepted_again refl "rem_1"
      recovered_record recovered_row same_kind_again
