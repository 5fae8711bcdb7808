-- ===== src/Remediation/Service/Execution.antt =====
-- `execute` of service.py: the claim, the run and the terminal result.
use sentinelops_ai.Prelude.{
  ℕ, String, Bool, true, false, not, Option, none, some, [], ◌∷◌, ◌==◌, leb, Result, ok, err, ◌>>=◌,
  ◌>>◌, raise_if, prefix,
}
use sentinelops_ai.Remediation.Enums.{
  approved, executed, execution_failed, status_eq, started, failed,
}
use sentinelops_ai.Remediation.Errors.{
  Error, not_found, invalid_state, expired_error, unknown_target, executor_failure,
}
use sentinelops_ai.Remediation.Catalogue.{is_allowed_target, validate_action_parameters}
use sentinelops_ai.Remediation.Proposal.{RemediationProposal, authorize_execution}
use sentinelops_ai.Remediation.Executor.{
  Executor, ExecutionResult, Attempt, returned, executor_error, raised, no_effect,
  execution_failed_with,
}
use sentinelops_ai.Remediation.Audit.{
  execution_requested_event, execution_started_event, execution_finished_event,
}
use sentinelops_ai.Remediation.Record.{RemediationRecord, status_of}
use sentinelops_ai.Remediation.Repository.{Store, Written, get, begin_execution, finish_execution}

-- `_check_executable`
unfoldable pub check_executable : RemediationRecord → ℕ → Result Error (Unit {0})
check_executable r now = do
  raise_if (not (status_of r == approved)) invalid_state
  authorize_execution r.proposal r.approval
  raise_if (not (is_allowed_target r.proposal.action_type r.proposal.target)) unknown_target
  _ ← validate_action_parameters r.proposal.action_type r.proposal.parameters
  raise_if (leb r.proposal.expires_at now) expired_error

module _ (E : Executor) where
  pub record World : Type 0 where
    pub store : Store
    pub simulation : E.State

  -- What a method returns or raises, with the world after it
  abbrev pub Outcome : Type 0 → Type 0
  Outcome A = Result Error A × World

  -- The `STARTED` execution row
  abbrev pub pending_execution : RemediationProposal → String → ℕ → ExecutionResult
  pending_execution p i now = record {
    execution_id = i;
    remediation_id = p.remediation_id;
    action_type = p.action_type;
    target_service = p.target.service_name;
    target_environment = p.target.environment;
    executor_type = E.executor_type;
    status = started;
    dry_run = false;
    started_at = now;
    completed_at = none;
    simulated_effect = no_effect;
    metadata = none;
    error = none;
  }

  -- The result that is stored after an `ExecutorError`; the effect's text, cut at 2000 characters,
  -- has 18 of them before the message.
  abbrev pub failed_execution : ExecutionResult → String → ℕ → ExecutionResult
  failed_execution pending message completed = record pending {
    status = failed;
    error = some (prefix 2000 message);
    completed_at = some completed;
    simulated_effect = execution_failed_with (prefix 1982 message);
  }

  unfoldable pub with_store :
      {A : Type 0}
      → A
      → Result Error (RemediationRecord × Store)
      → World
      → Outcome (RemediationRecord × A)
  with_store a (ok (r, s)) w = (ok (r, a), record w { store = s })
  with_store a (err e) w = (err e, w)

  -- `execute` after the executor has run: the terminal result is written, but for an exception that
  -- is no `ExecutorError`, which leaves the method.
  unfoldable pub finish_run :
      String
      → ExecutionResult
      → RemediationProposal
      → ℕ
      → ℕ
      → Attempt
      → World
      → Outcome (RemediationRecord × ExecutionResult)
  unfolding with_store
  finish_run rid pending p now failed_at (returned result) w =
      with_store result
        (finish_execution rid result executed (execution_finished_event p result executed now ∷ [])
          w.store)
        w
  finish_run rid pending p now failed_at (executor_error message) w =
      let result = failed_execution pending message failed_at in
      with_store result
        (finish_execution rid result execution_failed
          (execution_finished_event p result execution_failed now ∷ []) w.store)
        w
  finish_run rid pending p now failed_at (raised e) w = (err e, w)

  -- `execute` from the claim on
  unfoldable pub run_claimed :
      String
      → String
      → ExecutionResult
      → ℕ
      → ℕ
      → Written
      → World
      → Outcome (RemediationRecord × ExecutionResult)
  unfolding finish_run
  run_claimed rid i pending now failed_at (err e) w = (err e, w)
  run_claimed rid i pending now failed_at (ok (begun, s)) w =
      let (attempt, simulation) = E.execute w.simulation begun.proposal i false now in
      finish_run rid pending begun.proposal now failed_at attempt
        (record { store = s; simulation = simulation })

  unfoldable pub preview :
      RemediationRecord → Attempt → Result Error (RemediationRecord × ExecutionResult)
  preview r (returned result) = ok (r, result)
  preview r (executor_error message) = err executor_failure
  preview r (raised e) = err e

  -- `execute` after `_check_executable`; `failed_at` is the clock at a failure
  unfoldable pub execute_checked :
      String
      → Bool
      → String
      → ℕ
      → ℕ
      → RemediationRecord
      → World
      → Result Error (Unit {0})
      → Outcome (RemediationRecord × ExecutionResult)
  unfolding run_claimed preview
  execute_checked rid dry i now failed_at r w (err e) = (err e, w)
  execute_checked rid true i now failed_at r w (ok _) =
      let (attempt, simulation) = E.execute w.simulation r.proposal i true now in
      (preview r attempt, record w { simulation = simulation })
  execute_checked rid false i now failed_at r w (ok _) =
      let p = r.proposal in
      let pending = pending_execution p i now in
      let claimed =
        begin_execution rid pending
          (execution_requested_event p i now ∷ execution_started_event p i now ∷ []) w.store in
      run_claimed rid i pending now failed_at claimed w

  unfoldable pub execute_found :
      String
      → Bool
      → String
      → ℕ
      → ℕ
      → World
      → Option RemediationRecord
      → Outcome (RemediationRecord × ExecutionResult)
  unfolding execute_checked
  execute_found rid dry i now failed_at w none = (err not_found, w)
  execute_found rid dry i now failed_at w (some r) =
      execute_checked rid dry i now failed_at r w (check_executable r now)

  -- `RemediationService.execute`
  unfoldable pub execute :
      String → Bool → String → ℕ → ℕ → World → Outcome (RemediationRecord × ExecutionResult)
  unfolding execute_found
  execute rid dry i now failed_at w = execute_found rid dry i now failed_at w (get rid w.store)
