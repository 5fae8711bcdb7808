-- ===== src/Remediation/Coherence/Calls.antt =====
-- The invariant along a sequence of calls of the service.
use sentinelops_ai.Prelude.{◌≡◌, refl, sym, subst, List, [], ◌∷◌, ok, err}
use sentinelops_ai.Prelude.Dict.{lookup}
use sentinelops_ai.Remediation.Enums.{status_eq}
use sentinelops_ai.Remediation.Policy.{PolicyConfig}
use sentinelops_ai.Remediation.Executor.{Executor}
use sentinelops_ai.Remediation.Recovery.{RecoveryConfig, Probe}
use sentinelops_ai.Remediation.Record.{RemediationRecord}
use sentinelops_ai.Remediation.Repository.{Store, Written, empty_store}
use sentinelops_ai.Remediation.Service.{propose, decide}
use sentinelops_ai.Remediation.Service.Execution.{World}
use sentinelops_ai.Remediation.Service.Calls.{
  Call, propose_call, decide_call, execute_call, verify_call, store_after, perform, perform_all,
}
use sentinelops_ai.Remediation.Coherence.{IsCoherent, starts}
use sentinelops_ai.Remediation.Coherence.Proposing.{propose-IsCoherent}
use sentinelops_ai.Remediation.Coherence.Deciding.{decide-IsCoherent}
use sentinelops_ai.Remediation.Coherence.Executing.{execute-IsCoherent}
use sentinelops_ai.Remediation.Coherence.Verifying.{verify_recovery-IsCoherent}

empty_store-IsCoherent : IsCoherent empty_store
unfolding lookup starts
empty_store-IsCoherent = record {
  stored = λ rid r l. absurd (cc l);
  absent = λ rid l. record { execution = refl; verification = refl; started = refl };
}

written-IsCoherent :
    (s : Store) (o : Written)
    → IsCoherent s
    → ((r : RemediationRecord) (s' : Store) → o ≡ ok (r, s') → IsCoherent s')
    → IsCoherent (store_after s o)
unfolding store_after
written-IsCoherent s (ok (r, s')) h k = k r s' refl
written-IsCoherent s (err e) h k = h

module _ (policy : PolicyConfig) (recovery : RecoveryConfig) (E : Executor)
    (probe : E.State → Probe) where
  -- Every call of the service on a coherent store, whether it returns or raises, leaves a coherent
  -- store: each stored record has the evidence that its status stands for, the execution and
  -- verification rows are the records' own, the audit trail of each record ends in its status, and
  -- it starts an execution once if there is an execution row and else never.
  pub perform-IsCoherent :
      (c : Call) (w : World E)
      → IsCoherent w.store
      → IsCoherent (perform policy recovery E probe c w).store
  unfolding perform
  perform-IsCoherent (propose_call r c) w h =
      written-IsCoherent w.store (propose policy r c w.store) h
        (λ u s e. propose-IsCoherent policy r c w.store u s h e)
  perform-IsCoherent (decide_call rid q) w h =
      written-IsCoherent w.store (decide rid q w.store) h
        (λ u s e. decide-IsCoherent rid q w.store u s h e)
  perform-IsCoherent (execute_call rid dry i now failed_at) w h =
      execute-IsCoherent E rid dry i now failed_at w h
  perform-IsCoherent (verify_call rid v now) w h =
      verify_recovery-IsCoherent (probe w.simulation) recovery rid v now w.store h

  perform_all-IsCoherent :
      (cs : List Call) (w : World E)
      → IsCoherent w.store
      → IsCoherent (perform_all policy recovery E probe cs w).store
  unfolding perform_all
  perform_all-IsCoherent [] w h = h
  perform_all-IsCoherent (c ∷ cs) w h =
      perform_all-IsCoherent cs (perform policy recovery E probe c w) (perform-IsCoherent c w h)

  -- From an empty store, no sequence of calls and no state of the executor leads to an incoherent
  -- store.
  pub reachable-IsCoherent :
      (cs : List Call) (w : World E)
      → w.store ≡ empty_store
      → IsCoherent (perform_all policy recovery E probe cs w).store
  reachable-IsCoherent cs w e =
      perform_all-IsCoherent cs w (subst IsCoherent (sym e) empty_store-IsCoherent)
