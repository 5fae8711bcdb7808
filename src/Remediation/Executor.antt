-- ===== src/Remediation/Executor.antt =====
-- executor/base.py, the boundary, and executor/simulation.py, the only executor.
pub mod Simulated
use sentinelops_ai.Prelude.{
  ℕ, ◌+◌, String, Bool, true, false, Option, none, some, List, [], ◌∷◌, append_text, no_text,
  Result, ok, err, if◌then◌else◌, ◌≡◌, refl, arith,
}
use sentinelops_ai.Prelude.Int.{ℤ, pos}
use sentinelops_ai.Prelude.Dict.{Dict, lookup, insert}
use sentinelops_ai.Remediation.Enums.{
  RemediationActionType, restart_service, scale_service, roll_back_deployment, disable_feature_flag,
  ExecutorType, local_simulation, ExecutionStatus, started, succeeded, failed,
}
use sentinelops_ai.Remediation.Errors.{Error}
use sentinelops_ai.Remediation.Catalogue.{Value, str, int, validate_action_parameters}
use sentinelops_ai.Remediation.Proposal.{RemediationProposal}

pub record ServiceSimState : Type 0 where
  pub running : Bool
  pub replicas : ℤ
  pub deployment_revision : String
  pub restart_count : ℕ
  pub rollback_count : ℕ
  pub feature_flags : Dict Bool
  pub faulted : Bool
  pub recovery_started_at : Option ℕ
  pub recovery_delay : ℕ
  pub chronic_fault : Bool

-- `ServiceSimState()`
abbrev pub fresh_service : ServiceSimState
fresh_service = record {
  running = true;
  replicas = pos 3;
  deployment_revision = "v1";
  restart_count = 0;
  rollback_count = 0;
  feature_flags = ("new_checkout_flow", true) ∷ ("recommendations_v2", true) ∷ [];
  faulted = false;
  recovery_started_at = none;
  recovery_delay = 0;
  chronic_fault = false;
}

-- `SimulationState._services`
abbrev pub SimulationState : Type 0
SimulationState = Dict ServiceSimState

abbrev pub or_fresh : Option ServiceSimState → ServiceSimState
or_fresh none = fresh_service
or_fresh (some s) = s

-- `SimulationState.service`. The entry that `setdefault` adds is the one that a missing name
-- reads as, so a read adds nothing here.
unfoldable pub service_state : String → SimulationState → ServiceSimState
service_state name st = or_fresh (lookup name st)

unfoldable pub inject_fault : String → Option ℕ → Bool → SimulationState → SimulationState
unfolding service_state
inject_fault name recover_after chronic st =
    let s = service_state name st in
    insert name
      (record s {
        faulted = true;
        running = true;
        chronic_fault = chronic;
        recovery_started_at = none;
        recovery_delay = elim recover_after [ none ↦ s.recovery_delay | some d ↦ d ];
      })
      st

unfoldable pub mark_remediated : String → ℕ → SimulationState → SimulationState
unfolding service_state
mark_remediated name now st =
    insert name (record (service_state name st) { recovery_started_at = some now }) st

-- The texts `effect` and `simulated_effect`, with the numbers and names that they show.
pub data Effect : Type 0 where
  no_effect : Effect
  restarted : ℕ → Effect
  scaled : ℤ → ℤ → Effect
  rolled_back : String → String → Effect
  flag_disabled : String → Bool → Effect
  execution_failed_with : String → Effect

abbrev flag_value : Option Bool → Bool
flag_value none = true
flag_value (some b) = b

scale_to : Option Value → ServiceSimState → Option (ServiceSimState × Effect)
scale_to (some (int n)) s = some (record s { replicas = n }, scaled s.replicas n)
scale_to _ s = none

revision_after : Option Value → String → Option String
revision_after none current = some (append_text current "-prev")
revision_after (some (str r)) current = some (if no_text r then append_text current "-prev" else r)
revision_after _ current = none

roll_back_to : Option String → ServiceSimState → Option (ServiceSimState × Effect)
roll_back_to none s = none
roll_back_to (some r) s = some (
  record s { deployment_revision = r; rollback_count = s.rollback_count + 1 },
  rolled_back s.deployment_revision r,
)

disable_flag : Option Value → ServiceSimState → Option (ServiceSimState × Effect)
disable_flag (some (str k)) s = some (
  record s { feature_flags = insert k false s.feature_flags },
  flag_disabled k (flag_value (lookup k s.feature_flags)),
)
disable_flag _ s = none

-- `LocalSimulationExecutor._apply` on the state of the target. `none` stands for the parameter
-- values that the catalogue's validation, which always runs first, has excluded.
unfoldable pub apply_action :
    RemediationActionType → Dict Value → ServiceSimState → Option (ServiceSimState × Effect)
unfolding scale_to revision_after roll_back_to disable_flag
apply_action restart_service params s = some (
  record s { restart_count = s.restart_count + 1; running = true },
  restarted (s.restart_count + 1),
)
apply_action scale_service params s = scale_to (lookup "replicas" params) s
apply_action roll_back_deployment params s =
    roll_back_to (revision_after (lookup "to_revision" params) s.deployment_revision) s
apply_action disable_feature_flag params s = disable_flag (lookup "flag_key" params) s

-- The metadata is what `resulting_state` shows.
pub record ExecutionResult : Type 0 where
  pub execution_id : String
  pub remediation_id : String
  pub action_type : RemediationActionType
  pub target_service : String
  pub target_environment : String
  pub executor_type : ExecutorType
  pub status : ExecutionStatus
  pub dry_run : Bool
  pub started_at : ℕ
  pub completed_at : Option ℕ
  pub simulated_effect : Effect
  pub metadata : Option ServiceSimState
  pub error : Option String

-- What a call of `Executor.execute` does: it returns, or raises `ExecutorError` or something else.
pub data Attempt : Type 0 where
  returned : ExecutionResult → Attempt
  executor_error : String → Attempt
  raised : Error → Attempt

-- The `Executor` protocol. A result that is returned reports success: a failure is raised.
pub record Executor : Type 1 where
  pub State : Type 0
  pub executor_type : ExecutorType
  pub execute : State → RemediationProposal → String → Bool → ℕ → Attempt × State
  pub returns_success :
      (s : State) (p : RemediationProposal) (i : String) (dry : Bool) (now : ℕ)
      (r : ExecutionResult)
      → (execute s p i dry now).0 ≡ returned r
      → r.status ≡ succeeded

simulated_result :
    RemediationProposal → String → Bool → ℕ → ServiceSimState → Effect → ExecutionResult
simulated_result p i dry now s effect = record {
  execution_id = i;
  remediation_id = p.remediation_id;
  action_type = p.action_type;
  target_service = p.target.service_name;
  target_environment = p.target.environment;
  executor_type = local_simulation;
  status = succeeded;
  dry_run = dry;
  started_at = now;
  completed_at = some now;
  simulated_effect = effect;
  metadata = some s;
  error = none;
}

-- After the validation: on a copy for a dry run, else on the state itself, which is then marked.
simulate :
    SimulationState
    → RemediationProposal
    → String
    → Bool
    → ℕ
    → Option (ServiceSimState × Effect)
    → Attempt × SimulationState
unfolding simulated_result
simulate st p i dry now none = (executor_error "cannot simulate action", st)
simulate st p i dry now (some (s, effect)) =
    let marked = mark_remediated p.target.service_name now (insert p.target.service_name s st) in
    if dry then (returned (simulated_result p i dry now s effect), st) else (
      returned (simulated_result p i dry now (service_state p.target.service_name marked) effect),
      marked,
    )

-- `LocalSimulationExecutor.execute`
unfoldable pub simulation_execute :
    SimulationState → RemediationProposal → String → Bool → ℕ → Attempt × SimulationState
unfolding simulate
simulation_execute st p i dry now = elim (validate_action_parameters p.action_type p.parameters) [
  | err e ↦ (raised e, st)
  | ok params ↦
      simulate st p i dry now
        (apply_action p.action_type params (service_state p.target.service_name st))
]

pub simulation_succeeds :
    (s : SimulationState) (p : RemediationProposal) (i : String) (dry : Bool) (now : ℕ)
    (r : ExecutionResult)
    → (simulation_execute s p i dry now).0 ≡ returned r
    → r.status ≡ succeeded
unfolding simulation_execute
simulation_succeeds s p i dry now r h = ground arith

-- `LocalSimulationExecutor`
abbrev pub local_executor : Executor
local_executor = record {
  State = SimulationState;
  executor_type = local_simulation;
  execute = simulation_execute;
  returns_success = simulation_succeeds;
}
