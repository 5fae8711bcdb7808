-- ===== src/Rca/Limits.antt =====
-- limits.py: the hard bounds of an investigation and the guard that enforces them.
use sentinelops_ai.Prelude.{ℕ, ◌-◌, ltb, Result, ◌>>◌, raise_if}
use sentinelops_ai.Rca.Errors.{
  LimitKind, too_many_tool_calls, too_many_steps, too_much_evidence, out_of_time,
}
use sentinelops_ai.Rca.Schemas.{ResourceLimits}

-- `ResourceUsage`; `steps` follows the trace's sequence numbers.
pub record ResourceUsage : Type 0 where
  pub tool_calls : ℕ
  pub steps : ℕ
  pub evidence_items : ℕ
  pub started_at : ℕ

-- Microseconds since the start; a clock that went back has no time elapsed, which exceeds no limit.
unfoldable pub elapsed : ResourceUsage → ℕ → ℕ
elapsed u now = now - u.started_at

unfoldable pub check_limits : ResourceUsage → ResourceLimits → ℕ → Result LimitKind (Unit {0})
unfolding elapsed
check_limits u l now = do
  raise_if (ltb l.max_tool_calls u.tool_calls) too_many_tool_calls
  raise_if (ltb l.max_steps u.steps) too_many_steps
  raise_if (ltb l.max_evidence_items u.evidence_items) too_much_evidence
  raise_if (ltb l.timeout (elapsed u now)) out_of_time
