-- ===== src/Rca/Graph/Ready.antt =====
-- engine/graph.py: how the graph may go on after a node.
use sentinelops_ai.Prelude.{
  refl, arith, ℕ, suc, ◌+◌, ◌-◌, ◌*◌, ◌≤◌, ◌≡◌, ◌≢◌, ◌⊎◌, true, false, Option, none, some, List, [],
  Every, length,
}
use sentinelops_ai.Rca.Domain.{
  InvestigationStatus, pending, planning, collecting_evidence, analyzing, verifying, completed,
  failed, insufficient_evidence, timed_out, is_terminal,
}
use sentinelops_ai.Rca.StateMachine.{can_transition}
use sentinelops_ai.Rca.Errors.{
  ValidationIssue, TerminalReason, fallback_invalid, LlmError, llm_timeout, llm_provider_error,
  llm_malformed_output, live_llm_not_available, llm_configuration_error, model_timed_out,
  model_failed,
}
use sentinelops_ai.Rca.Schemas.{RcaReport}
use sentinelops_ai.Rca.Validation.Grounded.{IsGrounded, KnownHypothesis}
use sentinelops_ai.Rca.Engine.{
  GraphDeps, Meters, InvestigationState, Node, initialize_node, plan_node, collect_node,
  analyze_node, verify_node, synthesize_node, validate_node, ids_of,
}
use sentinelops_ai.Rca.Nodes.{terminal, llm_terminal}

-- The status at the entry of a node
abbrev pub entry_status : Node → InvestigationStatus
entry_status initialize_node = pending
entry_status plan_node = planning
entry_status collect_node = collecting_evidence
entry_status analyze_node = analyzing
entry_status verify_node = verifying
entry_status synthesize_node = verifying
entry_status validate_node = verifying

-- A bound on the nodes that run from a node on: two for each repair that is left, two for a
-- reanalysis, one for each call in the queue.
abbrev repairs : GraphDeps → InvestigationState → ℕ
repairs d s = 2 * (d.max_repair_attempts - s.repair_count)

abbrev reanalyses : InvestigationState → ℕ
reanalyses s = 2 * (1 - s.reanalysis_count)

abbrev pub cost : GraphDeps → Node → InvestigationState → ℕ
cost d initialize_node s = 9 + 2 * d.max_repair_attempts + d.limits.max_tool_calls
cost d plan_node s = 6 + repairs d s + reanalyses s + d.limits.max_tool_calls
cost d collect_node s = 5 + repairs d s + reanalyses s + length s.queue
cost d analyze_node s = 4 + repairs d s + reanalyses s
cost d verify_node s = 3 + repairs d s + reanalyses s
cost d synthesize_node s = 2 + repairs d s
cost d validate_node s = 1 + repairs d s

-- The calls that may still be made before the next plan
abbrev pub pending_calls : Node → InvestigationState → ℕ
pending_calls initialize_node s = 1
pending_calls collect_node s = length s.queue
pending_calls analyze_node s = length s.queue
pending_calls _ s = 0

-- A report is about an analysis: completed or insufficient.
abbrev pub IsAnalysis : Option RcaReport → Type 0
IsAnalysis none = Unit {0}
IsAnalysis (some r) = (r.status ≡ completed) ⊎ (r.status ≡ insufficient_evidence)

-- Nothing is concluded before the collection has ended; then hypotheses cite what was collected.
abbrev pub Grown : Node → InvestigationState → Type 0
Grown initialize_node s = (s.rca ≡ none) × (s.hypotheses ≡ [])
Grown plan_node s = (s.rca ≡ none) × (s.hypotheses ≡ [])
Grown collect_node s = (s.rca ≡ none) × (s.hypotheses ≡ [])
Grown _ s = Every (KnownHypothesis (ids_of s.evidence)) s.hypotheses × IsAnalysis s.rca

-- What holds when a node is entered
pub record IsReady (d : GraphDeps) (n : Node) (s : InvestigationState) (m : Meters) : Type 0 where
  pub status : s.status ≡ entry_status n
  pub grown : Grown n s
  pub calls : m.usage.tool_calls + pending_calls n s ≤ d.limits.max_tool_calls

-- The report that an analysis ends with has passed validation against the evidence collected.
abbrev pub HasReport : InvestigationState → Type 0
HasReport s =
    (r : RcaReport) × (s.rca ≡ some r) × (r.status ≡ s.status) × IsGrounded (ids_of s.evidence) r

-- What holds when an investigation ends: a completed one has its report, an insufficient one has
-- its report or none, and the fallback was never found invalid.
pub record IsConcluded (s : InvestigationState) : Type 0 where
  pub report_if_completed : s.status ≡ completed → HasReport s
  pub report_if_insufficient : s.status ≡ insufficient_evidence → (s.rca ≡ none) ⊎ HasReport s
  pub fallback :
      (issues : List ValidationIssue) → s.terminal_reason ≢ some (fallback_invalid issues)

-- Allowed by the state machine, the same status, or one of the engine's two shortcuts
pub data Lawful (a b : InvestigationStatus) : Type 0 where
  allowed : can_transition a b ≡ true → Lawful a b
  unchanged : a ≡ b → Lawful a b
  unloaded : a ≡ pending → b ≡ timed_out → Lawful a b
  unplanned : a ≡ planning → b ≡ verifying → Lawful a b

-- After a node the graph ends, or goes on to a node that is ready with less to do.
pub data Follows (d : GraphDeps) (n : Node) (s : InvestigationState)
    (x : InvestigationState × Meters) : Type 0 where
  ends :
      is_terminal x.0.status ≡ true
      → IsConcluded x.0
      → x.1.usage.tool_calls ≤ d.limits.max_tool_calls
      → Lawful (entry_status n) x.0.status
      → Follows d n s x
  goes_on :
      (next : Node)
      → x.0.next ≡ some next
      → suc (cost d next x.0) ≤ cost d n s
      → IsReady d next x.0 x.1
      → Lawful (entry_status n) x.0.status
      → Follows d n s x

pub entry_status-not-terminal : (n : Node) → is_terminal (entry_status n) ≡ false
unfolding is_terminal
entry_status-not-terminal initialize_node = refl
entry_status-not-terminal plan_node = refl
entry_status-not-terminal collect_node = refl
entry_status-not-terminal analyze_node = refl
entry_status-not-terminal verify_node = refl
entry_status-not-terminal synthesize_node = refl
entry_status-not-terminal validate_node = refl

Lawful-failed : (n : Node) → Lawful (entry_status n) failed
unfolding can_transition
Lawful-failed initialize_node = allowed refl
Lawful-failed plan_node = allowed refl
Lawful-failed collect_node = allowed refl
Lawful-failed analyze_node = allowed refl
Lawful-failed verify_node = allowed refl
Lawful-failed synthesize_node = allowed refl
Lawful-failed validate_node = allowed refl

Lawful-timed_out : (n : Node) → Lawful (entry_status n) timed_out
unfolding can_transition
Lawful-timed_out initialize_node = unloaded refl refl
Lawful-timed_out plan_node = allowed refl
Lawful-timed_out collect_node = allowed refl
Lawful-timed_out analyze_node = allowed refl
Lawful-timed_out verify_node = allowed refl
Lawful-timed_out synthesize_node = allowed refl
Lawful-timed_out validate_node = allowed refl

module _ (d : GraphDeps) (n : Node) (s t : InvestigationState) (m : Meters) where
  pub fails :
      (reason : TerminalReason)
      → ((issues : List ValidationIssue) → reason ≢ fallback_invalid issues)
      → m.usage.tool_calls ≤ d.limits.max_tool_calls
      → Follows d n s (terminal failed reason t, m)
  unfolding is_terminal
  fails reason other calls =
      ends refl
        (record {
          report_if_completed = λ e. ground arith;
          report_if_insufficient = λ e. ground arith;
          fallback = λ issues e. ground (arith, other issues);
        })
        calls (Lawful-failed n)

  pub times_out :
      (reason : TerminalReason)
      → ((issues : List ValidationIssue) → reason ≢ fallback_invalid issues)
      → m.usage.tool_calls ≤ d.limits.max_tool_calls
      → Follows d n s (terminal timed_out reason t, m)
  unfolding is_terminal
  times_out reason other calls =
      ends refl
        (record {
          report_if_completed = λ e. ground arith;
          report_if_insufficient = λ e. ground arith;
          fallback = λ issues e. ground (arith, other issues);
        })
        calls (Lawful-timed_out n)

  pub model_fails :
      (e : LlmError)
      → m.usage.tool_calls ≤ d.limits.max_tool_calls
      → Follows d n s (llm_terminal e t, m)
  unfolding llm_terminal
  model_fails llm_timeout calls = times_out model_timed_out (λ i. cc) calls
  model_fails llm_provider_error calls = fails (model_failed llm_provider_error) (λ i. cc) calls
  model_fails llm_malformed_output calls = fails (model_failed llm_malformed_output) (λ i. cc) calls
  model_fails live_llm_not_available calls =
      fails (model_failed live_llm_not_available) (λ i. cc) calls
  model_fails llm_configuration_error calls =
      fails (model_failed llm_configuration_error) (λ i. cc) calls
