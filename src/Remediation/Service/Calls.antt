-- ===== src/Remediation/Service/Calls.antt =====
-- service.py: the calls of `RemediationService` one after another, as its HTTP routes make them.
use sentinelops_ai.Prelude.{ℕ, String, Bool, List, [], ◌∷◌, ok, err}
use sentinelops_ai.Remediation.Target.{DecisionRequest}
use sentinelops_ai.Remediation.Proposal.{RcaRecommendedAction, MappingContext}
use sentinelops_ai.Remediation.Policy.{PolicyConfig}
use sentinelops_ai.Remediation.Executor.{Executor}
use sentinelops_ai.Remediation.Recovery.{RecoveryConfig, Probe}
use sentinelops_ai.Remediation.Repository.{Store, Written}
use sentinelops_ai.Remediation.Service.{propose, decide}
use sentinelops_ai.Remediation.Service.Execution.{World, execute}
use sentinelops_ai.Remediation.Service.Verification.{verify_recovery}

-- A request with the clock readings and fresh ids of its call
pub data Call : Type 0 where
  propose_call : RcaRecommendedAction → MappingContext → Call
  decide_call : String → DecisionRequest → Call
  execute_call : String → Bool → String → ℕ → ℕ → Call
  verify_call : String → String → ℕ → Call

-- The store after a call: one that raises has written nothing.
unfoldable pub store_after : Store → Written → Store
store_after s (ok (r, s')) = s'
store_after s (err e) = s

-- A service: its configurations, its executor, and the probe, which may read the executor's state
module _ (policy : PolicyConfig) (recovery : RecoveryConfig) (E : Executor)
    (probe : E.State → Probe) where
  unfoldable pub perform : Call → World E → World E
  unfolding store_after
  perform (propose_call r c) w = record w {
    store = store_after w.store (propose policy r c w.store);
  }
  perform (decide_call rid q) w = record w { store = store_after w.store (decide rid q w.store) }
  perform (execute_call rid dry i now failed_at) w = (execute E rid dry i now failed_at w).1
  perform (verify_call rid v now) w = record w {
    store = (verify_recovery (probe w.simulation) recovery rid v now w.store).1;
  }

  unfoldable pub perform_all : List Call → World E → World E
  unfolding perform
  perform_all [] w = w
  perform_all (c ∷ cs) w = perform_all cs (perform c w)
