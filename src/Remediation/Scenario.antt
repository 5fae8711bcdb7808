-- ===== src/Remediation/Scenario.antt =====
-- A recommendation, its approval and the calls that carry it out, as the end-to-end scenario makes
-- them: the data of the tests.
use sentinelops_ai.Prelude.{none, some, List, [], ◌∷◌, true, false}
use sentinelops_ai.Remediation.Enums.{
  approve, incident_responder, service, restart_service, rca_recommendation, proposed, medium,
}
use sentinelops_ai.Remediation.Target.{ServiceTarget, DecisionRequest}
use sentinelops_ai.Remediation.Proposal.{RemediationProposal, RcaRecommendedAction, MappingContext}
use sentinelops_ai.Remediation.Policy.{PolicyContext, null_history}
use sentinelops_ai.Remediation.Executor.{SimulationState, fresh_service, local_executor}
use sentinelops_ai.Remediation.Repository.{empty_store}
use sentinelops_ai.Remediation.Service.Execution.{World}
use sentinelops_ai.Remediation.Service.Calls.{
  Call, propose_call, decide_call, execute_call, verify_call,
}
use sentinelops_ai.Remediation.Enums.{recovered}
use sentinelops_ai.Remediation.Policy.{default_config}
use sentinelops_ai.Remediation.Recovery.{default_recovery_config}
use sentinelops_ai.Remediation.Record.{RemediationRecord}
use sentinelops_ai.Remediation.Policy.{evaluate}
use sentinelops_ai.Remediation.Recovery.{
  max_attempts, simulated_probe, observe_service, evaluate_snapshot, poll_checks, all_passed,
  observe, verify,
}
use sentinelops_ai.Remediation.Enums.{pending_approval, local_simulation, succeeded}
use sentinelops_ai.Remediation.Executor.{ExecutionResult, ServiceSimState, restarted}
use sentinelops_ai.Prelude.Int.{pos}
use sentinelops_ai.Prelude.Dict.{Dict}
use sentinelops_ai.Remediation.Enums.{approved, scale_service, status_eq}
use sentinelops_ai.Remediation.Catalogue.{Value, int}
use sentinelops_ai.Remediation.Policy.Codes.{code_eq}
use sentinelops_ai.Remediation.Recovery as Recovery
use sentinelops_ai.Remediation.Record.{VerificationResult}
use sentinelops_ai.Remediation.Enums.{executed}

abbrev pub orders : ServiceTarget
orders = record {
  target_type = service;
  service_name = "orders-service";
  environment = "development";
}

abbrev pub restart_orders : RcaRecommendedAction
restart_orders = record {
  action_type = "RESTART_SERVICE";
  target_service = some "orders-service";
  description = "Restart the service";
  rationale = "The connection pool is saturated";
  evidence_ids = "ev_1" ∷ [];
}

abbrev pub mapping : MappingContext
mapping = record {
  remediation_id = "rem_1";
  incident_id = "inc_1";
  investigation_id = none;
  incident_severity = some "HIGH";
  target_environment = "development";
  proposed_by = "api";
  now = 1000;
  ttl = 3600000000;
}

-- The proposal that the recommendation becomes
abbrev pub proposal : RemediationProposal
proposal = record {
  remediation_id = "rem_1";
  incident_id = "inc_1";
  investigation_id = none;
  trigger = rca_recommendation;
  proposed_by = "api";
  action_type = restart_service;
  target = orders;
  parameters = [];
  risk_level = medium;
  source_recommendation = "RESTART_SERVICE";
  reason = "The connection pool is saturated";
  expected_effect =
      "Restart the target service's running instances to clear transient in-process state (saturated connection pools, stuck worker threads, corrupt in-memory caches).";
  evidence_references = "ev_1" ∷ [];
  status = proposed;
  created_at = 1000;
  expires_at = 3600001000;
}

abbrev pub high_incident : PolicyContext
high_incident = record { now = 1000; incident_severity = some "HIGH"; history = null_history }

abbrev pub approval_request : DecisionRequest
approval_request = record {
  approval_id = "apr_1";
  decision = approve;
  approver_identity = "responder@example.com";
  approver_role = incident_responder;
  reason = "";
  decided_at = 2000;
}

-- The service fails, and recovers six seconds after a remediation.
abbrev pub faulted_simulation : SimulationState
faulted_simulation =
    ("orders-service", record fresh_service { faulted = true; recovery_delay = 6000000 }) ∷ []

abbrev pub start_world : World local_executor
start_world = record { store = empty_store; simulation = faulted_simulation }

abbrev pub approved_calls : List Call
approved_calls = propose_call restart_orders mapping ∷ decide_call "rem_1" approval_request ∷ []

abbrev pub executed_calls : List Call
executed_calls =
    propose_call restart_orders mapping
    ∷ decide_call "rem_1" approval_request
    ∷ execute_call "rem_1" false "exec_1" 3000 3000
    ∷ []

abbrev pub recovered_calls : List Call
recovered_calls =
    propose_call restart_orders mapping
    ∷ decide_call "rem_1" approval_request
    ∷ execute_call "rem_1" false "exec_1" 3000 3000
    ∷ verify_call "rem_1" "ver_1" 4000
    ∷ []

-- The restart of the scenario
abbrev pub restarted_orders : ServiceSimState
restarted_orders = record fresh_service {
  faulted = true;
  recovery_delay = 6000000;
  restart_count = 1;
  recovery_started_at = some 3000;
}

abbrev pub restarted_simulation : SimulationState
restarted_simulation = ("orders-service", restarted_orders) ∷ []

abbrev pub restart_result : ExecutionResult
restart_result = record {
  execution_id = "exec_1";
  remediation_id = "rem_1";
  action_type = restart_service;
  target_service = "orders-service";
  target_environment = "development";
  executor_type = local_simulation;
  status = succeeded;
  dry_run = false;
  started_at = 3000;
  completed_at = some 3000;
  simulated_effect = restarted 1;
  metadata = some restarted_orders;
  error = none;
}

-- The verification of the scenario: the third poll, 6 seconds after the start, finds the service
-- recovered.
abbrev pub restart_verification : VerificationResult
restart_verification = record {
  verification_id = "ver_1";
  remediation_id = "rem_1";
  execution_id = "exec_1";
  status = Recovery.VerificationStatus.recovered;
  attempts = 3;
  checks =
      poll_checks
        (observe (simulated_probe restarted_simulation) orders default_recovery_config 4000 6004000)
        default_recovery_config;
  failing = none;
  timeout_seconds = 30;
  poll_interval = 3000000;
  started_at = 4000;
  completed_at = some 6004000;
}

abbrev pub awaiting : RemediationRecord
awaiting = record {
  proposal = record proposal { status = pending_approval };
  policy_decision = evaluate default_config proposal high_incident;
  approval = none;
  execution = none;
  verification = none;
}

abbrev pub broken_simulation : SimulationState
broken_simulation = ("orders-service", record restarted_orders { chronic_fault = true }) ∷ []

abbrev pub three_replicas : Dict Value
three_replicas = ("replicas", int (pos 3)) ∷ []

abbrev pub late_proposal : RemediationProposal
late_proposal = record proposal { expires_at = 500; action_type = scale_service }

-- The record of the scenario after its approval
abbrev pub approved_record : RemediationRecord
approved_record = record {
  proposal = record proposal { status = approved };
  policy_decision = evaluate default_config proposal high_incident;
  approval = some (record {
    approval_id = "apr_1";
    remediation_id = "rem_1";
    decision = approve;
    approver_identity = "responder@example.com";
    approver_role = incident_responder;
    reason = "";
    decided_at = 2000;
  });
  execution = none;
  verification = none;
}

-- The record of the scenario after its execution
abbrev pub executed_record : RemediationRecord
executed_record = record approved_record {
  proposal = record proposal { status = executed };
  execution = some restart_result;
}

-- The same recommendation once more, three milliseconds after the decision on the first: the
-- recovered remediation is neither active nor an anchor of the cooldown.
abbrev pub again : MappingContext
again = record mapping { remediation_id = "rem_2"; now = 5000 }

abbrev pub second_proposal : RemediationProposal
second_proposal = record proposal {
  remediation_id = "rem_2";
  status = pending_approval;
  created_at = 5000;
  expires_at = 3600005000;
}

abbrev pub second_record : RemediationRecord
second_record = record awaiting {
  proposal = second_proposal;
  policy_decision = evaluate default_config proposal (record high_incident { now = 5000 });
}

abbrev pub recovered_record : RemediationRecord
recovered_record = record executed_record {
  proposal = record proposal { status = recovered };
  verification = some restart_verification;
}
