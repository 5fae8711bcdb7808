-- ===== src/Remediation/Examples.antt =====
-- Tests of the parts of the remediation controller, and their theorems at concrete inputs.
use sentinelops_ai.Prelude.{String, ◌≡◌, refl, none, some, [], ◌∷◌, true, false, map}
use sentinelops_ai.Remediation.Enums.{RemediationStatus}
use sentinelops_ai.Remediation.Policy.{default_config}
use sentinelops_ai.Remediation.Recovery.{default_recovery_config}
use sentinelops_ai.Prelude.Dict.{lookup, has_key}
use sentinelops_ai.Prelude.{is_space, strip, prefix}
use sentinelops_ai.Remediation.Target.{service_name_matches, make_target, is_allowed_service}
use sentinelops_ai.Remediation.Catalogue.{
  catalogue, get_action_definition, require_action_definition, required_parameter_names,
  is_allowed_target, validate_action_parameters, validate_one,
}
use sentinelops_ai.Remediation.Proposal.{
  check_proposal, rca_action, safe_label, proposal_from_rca, authorize_execution,
}
use sentinelops_ai.Remediation.Policy.{
  state_rule, action_rule, target_rule, environment_rule, severity_rule, parameter_rule,
  effective_blast_radius, risk_rule, expiry_rule, cooldown_rule, rules, run_rules, evaluate,
  apply_policy_decision,
}
use sentinelops_ai.Remediation.Executor.{service_state, simulation_execute}
use sentinelops_ai.Remediation.Recovery.{
  max_attempts, simulated_probe, observe_service, evaluate_snapshot, poll_checks, all_passed,
  observe, verify,
}
use sentinelops_ai.Prelude.{◌≤◌}
use sentinelops_ai.Remediation.Enums.{pending_approval, restart_service}
use sentinelops_ai.Remediation.Executor.{ExecutionResult}
use sentinelops_ai.Prelude.{◌-◌, ◌+◌, ◌*◌, ◌↔◌, ◌⊎◌, ok, err, is_empty, elem, if◌then◌else◌, arith}
use sentinelops_ai.Prelude.Int.{pos}
use sentinelops_ai.Remediation.Enums.{
  approved, proposed, policy_evaluation, blocked, RemediationActionType, scale_service, status_eq,
  is_terminal, approve,
}
use sentinelops_ai.Remediation.Errors.{parameter_validation, above_maximum, policy_error}
use sentinelops_ai.Remediation.StateMachine.{can_transition, allowed_transitions}
use sentinelops_ai.Remediation.StateMachine.Reach.{
  Trace, here, step, HasNext, lifecycle_way, lifecycle_ends,
}
use sentinelops_ai.Remediation.Target.{ServiceTarget, RemediationApproval}
use sentinelops_ai.Remediation.Catalogue.{int}
use sentinelops_ai.Remediation.Catalogue.Schema.{InSchema, validate_action_parameters_sound}
use sentinelops_ai.Remediation.Proposal.{mapped, derived_proposal}
use sentinelops_ai.Remediation.Proposal.Mapping.{
  IsMappable, proposal_from_rca_iff, authorize_execution_iff,
}
use sentinelops_ai.Remediation.Policy.{allow, deny, is_allow, policy_input_states}
use sentinelops_ai.Remediation.Policy.Codes.{
  PolicyReasonCode, code_eq, policy_ok, approval_required,
}
use sentinelops_ai.Remediation.Policy.Eligible.{IsEligible, evaluate_iff}
use sentinelops_ai.Remediation.Policy.Reasons.{IsSorted, evaluate_reasons}
use sentinelops_ai.Remediation.Policy.Lifecycle.{apply_policy_decision_lem}
use sentinelops_ai.Remediation.Executor.{SimulationState, returned}
use sentinelops_ai.Remediation.Executor.Simulated.{RanOn, simulation_execute_real}
use sentinelops_ai.Remediation.Recovery as Recovery
use sentinelops_ai.Remediation.Recovery.Verdict.{Judged, verify_verdict}
use sentinelops_ai.Remediation.Recovery.Trajectory.{
  IsStrict, IsRemediated, verify_remediated, verify_chronic,
}
use sentinelops_ai.Remediation.Scenario.{
  broken_simulation, faulted_simulation, high_incident, late_proposal, mapping, orders, proposal,
  restart_orders, restarted_simulation, three_replicas,
}

evaluate_iff_example :
    ((evaluate default_config proposal high_incident).outcome ≡ allow)
    ↔ IsEligible default_config proposal high_incident
evaluate_iff_example = evaluate_iff default_config proposal high_incident

evaluated : (evaluate default_config proposal high_incident).outcome ≡ allow
unfolding evaluate rules run_rules state_rule action_rule target_rule environment_rule severity_rule
    parameter_rule risk_rule effective_blast_radius expiry_rule cooldown_rule catalogue
    get_action_definition require_action_definition required_parameter_names
    validate_action_parameters is_allowed_service lookup has_key
evaluated = refl

proposal_from_rca_iff_example : (proposal_from_rca restart_orders mapping ≡ mapped proposal) ↔ (
    (a : RemediationActionType) × (t : ServiceTarget) × IsMappable restart_orders mapping a t
    × (proposal ≡ derived_proposal mapping restart_orders a t))
proposal_from_rca_iff_example = proposal_from_rca_iff restart_orders mapping proposal

restart_mapped : proposal_from_rca restart_orders mapping ≡ mapped proposal
unfolding proposal_from_rca rca_action safe_label strip is_space prefix make_target
    service_name_matches is_allowed_service is_allowed_target check_proposal
    validate_action_parameters catalogue require_action_definition required_parameter_names lookup
    has_key
restart_mapped = refl

verify_verdict_example :
    Judged
      (simulated_probe faulted_simulation)
      orders
      default_recovery_config
      4000
      0
      (max_attempts default_recovery_config - 1)
      (verify (simulated_probe faulted_simulation) orders default_recovery_config 4000)
verify_verdict_example =
    verify_verdict (simulated_probe faulted_simulation) orders default_recovery_config 4000

pub default_config-IsStrict : IsStrict default_recovery_config
default_config-IsStrict = record { errors = omega arith; latency = omega arith; ready = refl }

restarted-IsRemediated : IsRemediated (service_state "orders-service" restarted_simulation) 3000
unfolding service_state lookup
restarted-IsRemediated = record { up = refl; replicas = refl; curable = refl; since = refl }

verify_remediated_example :
    ((verify (simulated_probe restarted_simulation) orders default_recovery_config 4000).status
      ≡ Recovery.VerificationStatus.recovered)
    ↔ (3000 + (service_state "orders-service" restarted_simulation).recovery_delay
        ≤ 4000 + (max_attempts default_recovery_config - 1) * 3000000)
verify_remediated_example =
    verify_remediated restarted_simulation orders default_recovery_config 4000 3000
      default_config-IsStrict (omega arith) restarted-IsRemediated

broken_chronic : (service_state "orders-service" broken_simulation).chronic_fault ≡ true
unfolding service_state lookup
broken_chronic = refl

verify_chronic_example :
    (verify (simulated_probe broken_simulation) orders default_recovery_config 4000).status
    ≡ Recovery.VerificationStatus.recovery_failed
verify_chronic_example =
    verify_chronic broken_simulation orders default_recovery_config 4000 default_config-IsStrict
      broken_chronic

three_replicas_accepted :
    validate_action_parameters scale_service three_replicas ≡ ok three_replicas
unfolding validate_action_parameters validate_one catalogue require_action_definition
    required_parameter_names lookup has_key
three_replicas_accepted = refl

eleven_replicas_refused :
    validate_action_parameters scale_service (("replicas", int (pos 11)) ∷ [])
    ≡ err (parameter_validation above_maximum)
unfolding validate_action_parameters validate_one catalogue require_action_definition
    required_parameter_names lookup has_key
eleven_replicas_refused = refl

validate_action_parameters_sound_example :
    InSchema scale_service three_replicas
    × ((k : String) → lookup k three_replicas ≡ lookup k three_replicas)
    × (validate_action_parameters scale_service three_replicas ≡ ok three_replicas)
validate_action_parameters_sound_example =
    validate_action_parameters_sound scale_service three_replicas three_replicas
      three_replicas_accepted

pub no_parameters_accepted : validate_action_parameters restart_service [] ≡ ok []
unfolding validate_action_parameters validate_one catalogue require_action_definition
    required_parameter_names lookup has_key
no_parameters_accepted = refl

simulation_execute_real_example :
    (r : ExecutionResult) × (st : SimulationState) × (simulation_execute faulted_simulation proposal
        "exec_1" false 3000
      ≡ (returned r, st))
    × RanOn faulted_simulation st proposal [] 3000 r
simulation_execute_real_example =
    simulation_execute_real faulted_simulation proposal [] "exec_1" 3000 no_parameters_accepted

authorize_execution_iff_example :
    (authorize_execution (record proposal { status = approved }) none ≡ ok tt) ↔ (
      (approved ≡ approved)
      × ((a : RemediationApproval) × (none ≡ some a)
          × (a.remediation_id ≡ "rem_1")
          × (a.decision ≡ approve)))
authorize_execution_iff_example =
    authorize_execution_iff (record proposal { status = approved }) none

to_approval : Trace proposed pending_approval (pending_approval ∷ policy_evaluation ∷ [])
unfolding can_transition allowed_transitions
to_approval = step pending_approval (step policy_evaluation here refl) refl

lifecycle_way_example :
    Trace proposed pending_approval (pending_approval ∷ policy_evaluation ∷ [])
    ↔ (pending_approval ∷ policy_evaluation ∷ [] ≡ pending_approval ∷ policy_evaluation ∷ [])
lifecycle_way_example =
    lifecycle_way pending_approval (pending_approval ∷ policy_evaluation ∷ [])
      (pending_approval ∷ policy_evaluation ∷ []) refl

lifecycle_ends_example :
    (2 ≤ 7)
    × (is_terminal pending_approval ≡ false → HasNext pending_approval)
    × (is_terminal pending_approval ≡ true
        → (u : RemediationStatus) → can_transition pending_approval u ≡ false)
lifecycle_ends_example = lifecycle_ends proposed pending_approval _ to_approval

evaluate_reasons_example :
    let d = evaluate default_config late_proposal high_incident in
    ((d.outcome ≡ deny)
      × (is_empty d.violations ≡ false)
      × IsSorted d.reason_codes
      × ((c : PolicyReasonCode) → elem c d.reason_codes ≡ elem c (map (λ v. v.code) d.violations)))
    ⊎ ((d.outcome ≡ allow)
        × (is_empty d.violations ≡ true)
        × (d.reason_codes ≡ policy_ok ∷ approval_required ∷ []))
evaluate_reasons_example = evaluate_reasons default_config late_proposal high_incident

apply_policy_decision_lem_example :
    apply_policy_decision proposal (evaluate default_config proposal high_incident) ≡ (
      if elem proposed policy_input_states
      then ok (record proposal {
        status =
            if is_allow (evaluate default_config proposal high_incident).outcome
            then pending_approval
            else blocked;
      })
      else err policy_error)
apply_policy_decision_lem_example =
    apply_policy_decision_lem proposal (evaluate default_config proposal high_incident)
