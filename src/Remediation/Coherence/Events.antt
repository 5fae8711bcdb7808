-- ===== src/Remediation/Coherence/Events.antt =====
-- The trails of the events that the service hands over with each write.
use sentinelops_ai.Prelude.{
  ℕ, String, ◌≡◌, false, some, List, [], ◌∷◌, string_eq, if◌then◌else◌, arith,
}
use sentinelops_ai.Remediation.Enums.{RemediationStatus}
use sentinelops_ai.Remediation.Audit.{AuditEvent}
use sentinelops_ai.Remediation.Coherence.{last_state, starts, is_start}
use sentinelops_ai.Remediation.Coherence.Updates.{Trailed}

pub trail_last :
    (e : AuditEvent) (rid : String) (st : RemediationStatus) (n : ℕ)
    → e.remediation_id ≡ rid
    → e.new_state ≡ some st
    → (if is_start e.event_type then 1 else 0) ≡ n
    → Trailed rid st n (e ∷ [])
unfolding last_state starts
trail_last e rid st n q w k = record { last = λ j. rw (q, w); start = λ j. ground (arith, q, k) }

pub trail_more :
    (e : AuditEvent) (rid : String) (st : RemediationStatus) (n : ℕ) (es : List AuditEvent)
    → e.remediation_id ≡ rid
    → is_start e.event_type ≡ false
    → Trailed rid st n es
    → Trailed rid st n (e ∷ es)
unfolding last_state starts
trail_more e rid st n es q k t = record {
  last = λ j. ground (arith, t.last j);
  start = λ j. ground (arith, q, k, t.start j);
}
