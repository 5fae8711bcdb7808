-- ===== src/Remediation/Runs.antt =====
-- Runs of the service on the scenario, computed.
use sentinelops_ai.Prelude.{◌≡◌, refl, some, List, [], ◌∷◌, true}
use sentinelops_ai.Remediation.Policy.{default_config}
use sentinelops_ai.Remediation.Executor.{local_executor}
use sentinelops_ai.Remediation.Recovery.{default_recovery_config}
use sentinelops_ai.Remediation.Service.Execution.{World}
use sentinelops_ai.Remediation.Service.Calls.{Call}
use sentinelops_ai.Prelude.Dict.{lookup, insert, has_key}
use sentinelops_ai.Prelude.{is_space, strip, prefix}
use sentinelops_ai.Remediation.StateMachine.{validate_transition}
use sentinelops_ai.Remediation.Target.{
  service_name_matches, make_target, is_allowed_service, make_approval,
}
use sentinelops_ai.Remediation.Catalogue.{
  catalogue, get_action_definition, require_action_definition, required_parameter_names,
  is_allowed_target, validate_action_parameters,
}
use sentinelops_ai.Remediation.Proposal.{
  check_proposal, rca_action, safe_label, proposal_from_rca, authorize_execution,
}
use sentinelops_ai.Remediation.Policy.{
  state_rule, action_rule, target_rule, environment_rule, severity_rule, parameter_rule,
  effective_blast_radius, risk_rule, expiry_rule, cooldown_rule, rules, run_rules, evaluate,
  apply_policy_decision,
}
use sentinelops_ai.Remediation.Authorization.{can_approve}
use sentinelops_ai.Remediation.Executor.{
  service_state, mark_remediated, simulation_execute, apply_action,
}
use sentinelops_ai.Remediation.Recovery.{
  max_attempts, simulated_probe, observe_service, evaluate_snapshot, poll_checks, all_passed,
  observe, verify,
}
use sentinelops_ai.Remediation.Audit.{
  proposal_created_event, policy_evaluated_event, decision_event, execution_requested_event,
  execution_started_event, execution_finished_event, verification_started_event,
  verification_finished_event,
}
use sentinelops_ai.Remediation.Record.{
  with_status, with_proposal, with_approval, with_execution, with_verification,
}
use sentinelops_ai.Remediation.Repository.{
  create, get, record_decision, begin_execution, finish_execution, begin_verification,
  finish_verification, note_record, note_records, history_snapshot,
}
use sentinelops_ai.Remediation.Service.{propose, decide}
use sentinelops_ai.Remediation.Service.Execution.{check_executable, execute}
use sentinelops_ai.Remediation.Service.Verification.{check_verifiable, verify_recovery}
use sentinelops_ai.Remediation.Service.Calls.{perform_all}
use sentinelops_ai.Remediation.Enums.{restart_service}
use sentinelops_ai.Remediation.Service.Calls.{propose_call}
use sentinelops_ai.Prelude.{ok}
use sentinelops_ai.Remediation.Enums.{status_eq}
use sentinelops_ai.Remediation.Policy.Codes.{code_eq}
use sentinelops_ai.Remediation.Repository.{Written, same_kind}
use sentinelops_ai.Remediation.Service.Calls.{store_after}
use sentinelops_ai.Remediation.Scenario.{
  again, approved_calls, approved_record, awaiting, executed_calls, executed_record,
  faulted_simulation, mapping, orders, recovered_calls, recovered_record, restart_orders,
  restart_result, restart_verification, second_record, start_world,
}

abbrev pub after : List Call → World local_executor
after cs =
    perform_all default_config default_recovery_config local_executor simulated_probe cs start_world

pub executed_row : lookup "rem_1" (after executed_calls).store.executions ≡ some restart_result
unfolding lookup insert has_key is_space strip prefix validate_transition service_name_matches
    make_target is_allowed_service make_approval catalogue get_action_definition
    require_action_definition required_parameter_names is_allowed_target validate_action_parameters
    check_proposal rca_action safe_label proposal_from_rca authorize_execution state_rule
    action_rule target_rule environment_rule severity_rule parameter_rule effective_blast_radius
    risk_rule expiry_rule cooldown_rule rules run_rules evaluate apply_policy_decision can_approve
    service_state mark_remediated simulation_execute max_attempts simulated_probe evaluate_snapshot
    poll_checks all_passed observe verify proposal_created_event policy_evaluated_event
    decision_event execution_requested_event execution_started_event execution_finished_event
    verification_started_event verification_finished_event with_status with_proposal with_approval
    with_execution with_verification create get record_decision begin_execution finish_execution
    begin_verification finish_verification note_records history_snapshot propose decide
    check_executable execute check_verifiable verify_recovery perform_all apply_action
    observe_service
executed_row = refl

pub verified_row :
    lookup "rem_1" (after recovered_calls).store.verifications ≡ some restart_verification
unfolding lookup insert has_key is_space strip prefix validate_transition service_name_matches
    make_target is_allowed_service make_approval catalogue get_action_definition
    require_action_definition required_parameter_names is_allowed_target validate_action_parameters
    check_proposal rca_action safe_label proposal_from_rca authorize_execution state_rule
    action_rule target_rule environment_rule severity_rule parameter_rule effective_blast_radius
    risk_rule expiry_rule cooldown_rule rules run_rules evaluate apply_policy_decision can_approve
    service_state mark_remediated simulation_execute max_attempts simulated_probe evaluate_snapshot
    poll_checks all_passed observe verify proposal_created_event policy_evaluated_event
    decision_event execution_requested_event execution_started_event execution_finished_event
    verification_started_event verification_finished_event with_status with_proposal with_approval
    with_execution with_verification create get record_decision begin_execution finish_execution
    begin_verification finish_verification note_records history_snapshot propose decide
    check_executable execute check_verifiable verify_recovery perform_all apply_action
    observe_service
verified_row = refl

pub proposed_row :
    lookup "rem_1" (after (propose_call restart_orders mapping ∷ [])).store.records ≡ some awaiting
unfolding lookup insert has_key is_space strip prefix validate_transition service_name_matches
    make_target is_allowed_service make_approval catalogue get_action_definition
    require_action_definition required_parameter_names is_allowed_target validate_action_parameters
    check_proposal rca_action safe_label proposal_from_rca authorize_execution state_rule
    action_rule target_rule environment_rule severity_rule parameter_rule effective_blast_radius
    risk_rule expiry_rule cooldown_rule rules run_rules evaluate apply_policy_decision can_approve
    service_state mark_remediated simulation_execute max_attempts simulated_probe evaluate_snapshot
    poll_checks all_passed observe verify proposal_created_event policy_evaluated_event
    decision_event execution_requested_event execution_started_event execution_finished_event
    verification_started_event verification_finished_event with_status with_proposal with_approval
    with_execution with_verification create get record_decision begin_execution finish_execution
    begin_verification finish_verification note_records history_snapshot propose decide
    check_executable execute check_verifiable verify_recovery perform_all apply_action
    observe_service
proposed_row = refl

pub approved_row : lookup "rem_1" (after approved_calls).store.records ≡ some approved_record
unfolding lookup insert has_key is_space strip prefix validate_transition service_name_matches
    make_target is_allowed_service make_approval catalogue get_action_definition
    require_action_definition required_parameter_names is_allowed_target validate_action_parameters
    check_proposal rca_action safe_label proposal_from_rca authorize_execution state_rule
    action_rule target_rule environment_rule severity_rule parameter_rule effective_blast_radius
    risk_rule expiry_rule cooldown_rule rules run_rules evaluate apply_policy_decision can_approve
    service_state mark_remediated simulation_execute max_attempts simulated_probe evaluate_snapshot
    poll_checks all_passed observe verify proposal_created_event policy_evaluated_event
    decision_event execution_requested_event execution_started_event execution_finished_event
    verification_started_event verification_finished_event with_status with_proposal with_approval
    with_execution with_verification create get record_decision begin_execution finish_execution
    begin_verification finish_verification note_records history_snapshot propose decide
    check_executable execute check_verifiable verify_recovery perform_all apply_action
    observe_service
approved_row = refl

pub simulation_kept : (after approved_calls).simulation ≡ faulted_simulation
unfolding lookup insert has_key is_space strip prefix validate_transition service_name_matches
    make_target is_allowed_service make_approval catalogue get_action_definition
    require_action_definition required_parameter_names is_allowed_target validate_action_parameters
    check_proposal rca_action safe_label proposal_from_rca authorize_execution state_rule
    action_rule target_rule environment_rule severity_rule parameter_rule effective_blast_radius
    risk_rule expiry_rule cooldown_rule rules run_rules evaluate apply_policy_decision can_approve
    service_state mark_remediated simulation_execute max_attempts simulated_probe evaluate_snapshot
    poll_checks all_passed observe verify proposal_created_event policy_evaluated_event
    decision_event execution_requested_event execution_started_event execution_finished_event
    verification_started_event verification_finished_event with_status with_proposal with_approval
    with_execution with_verification create get record_decision begin_execution finish_execution
    begin_verification finish_verification note_records history_snapshot propose decide
    check_executable execute check_verifiable verify_recovery perform_all apply_action
    observe_service
simulation_kept = refl

pub executed_record_row : lookup "rem_1" (after executed_calls).store.records ≡ some executed_record
unfolding lookup insert has_key is_space strip prefix validate_transition service_name_matches
    make_target is_allowed_service make_approval catalogue get_action_definition
    require_action_definition required_parameter_names is_allowed_target validate_action_parameters
    check_proposal rca_action safe_label proposal_from_rca authorize_execution state_rule
    action_rule target_rule environment_rule severity_rule parameter_rule effective_blast_radius
    risk_rule expiry_rule cooldown_rule rules run_rules evaluate apply_policy_decision can_approve
    service_state mark_remediated simulation_execute max_attempts simulated_probe evaluate_snapshot
    poll_checks all_passed observe verify proposal_created_event policy_evaluated_event
    decision_event execution_requested_event execution_started_event execution_finished_event
    verification_started_event verification_finished_event with_status with_proposal with_approval
    with_execution with_verification create get record_decision begin_execution finish_execution
    begin_verification finish_verification note_records history_snapshot propose decide
    check_executable execute check_verifiable verify_recovery perform_all apply_action
    observe_service
executed_record_row = refl

abbrev pub proposed_again : Written
proposed_again = propose default_config restart_orders again (after recovered_calls).store

pub recovered_row : lookup "rem_1" (after recovered_calls).store.records ≡ some recovered_record
unfolding lookup insert has_key is_space strip prefix validate_transition service_name_matches
    make_target is_allowed_service make_approval catalogue get_action_definition
    require_action_definition required_parameter_names is_allowed_target validate_action_parameters
    check_proposal rca_action safe_label proposal_from_rca authorize_execution state_rule
    action_rule target_rule environment_rule severity_rule parameter_rule effective_blast_radius
    risk_rule expiry_rule cooldown_rule rules run_rules evaluate apply_policy_decision can_approve
    service_state mark_remediated simulation_execute max_attempts simulated_probe evaluate_snapshot
    poll_checks all_passed observe verify proposal_created_event policy_evaluated_event
    decision_event execution_requested_event execution_started_event execution_finished_event
    verification_started_event verification_finished_event with_status with_proposal with_approval
    with_execution with_verification create get record_decision begin_execution finish_execution
    begin_verification finish_verification note_records history_snapshot propose decide
    check_executable execute check_verifiable verify_recovery perform_all apply_action
    observe_service
recovered_row = refl

pub accepted_again :
    proposed_again ≡ ok (second_record, store_after (after recovered_calls).store proposed_again)
unfolding store_after lookup insert has_key is_space strip prefix validate_transition
    service_name_matches make_target is_allowed_service make_approval catalogue
    get_action_definition require_action_definition required_parameter_names is_allowed_target
    validate_action_parameters check_proposal rca_action safe_label proposal_from_rca
    authorize_execution state_rule action_rule target_rule environment_rule severity_rule
    parameter_rule effective_blast_radius risk_rule expiry_rule cooldown_rule rules run_rules
    evaluate apply_policy_decision can_approve service_state mark_remediated simulation_execute
    max_attempts simulated_probe evaluate_snapshot poll_checks all_passed observe verify
    proposal_created_event policy_evaluated_event decision_event execution_requested_event
    execution_started_event execution_finished_event verification_started_event
    verification_finished_event with_status with_proposal with_approval with_execution
    with_verification create get record_decision begin_execution finish_execution begin_verification
    finish_verification note_records history_snapshot propose decide check_executable execute
    check_verifiable verify_recovery perform_all apply_action observe_service note_record
accepted_again = refl

pub same_kind_again : same_kind "inc_1" restart_service orders recovered_record.proposal ≡ true
unfolding same_kind
same_kind_again = refl
