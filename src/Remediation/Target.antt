-- ===== src/Remediation/Target.antt =====
-- domain/models.py: the structural target, its allow-lists, and the approval record.
use sentinelops_ai.Prelude.{
  ℕ, String, Bool, false, ◌&&◌, ◌||◌, Option, none, some, List, [], ◌∷◌, string_eq, elem, codes,
  class_run, is_lower, is_digit, before_newline, in_range, length, if◌then◌else◌, ◌==◌, nat_eq,
  Result, ok, err, raise_if, ◌>>◌, ltb, strip, no_text,
}
use sentinelops_ai.Remediation.Enums.{TargetType, service, ApprovalDecision, ApproverRole}
use sentinelops_ai.Remediation.Errors.{Error, unknown_target, invalid_approval}

abbrev pub allowed_target_services : List String
allowed_target_services = "orders-service" ∷ []

abbrev pub allowed_environments : List String
allowed_environments = "development" ∷ "staging" ∷ "production" ∷ []

pub record ServiceTarget : Type 0 where
  pub target_type : TargetType
  pub service_name : String
  pub environment : String

-- `[a-z0-9-]`
is_slug_char : ℕ → Bool
is_slug_char c = is_lower c || is_digit c || c == b'-'

-- `[a-z][a-z0-9-]{1,62}`
is_slug : List ℕ → Bool
unfolding is_slug_char
is_slug [] = false
is_slug (c ∷ s) = is_lower c && class_run is_slug_char 1 62 s

-- `_SERVICE_NAME_RE.match`: `$` also stands before a final newline
unfoldable pub service_name_matches : String → Bool
unfolding is_slug before_newline
service_name_matches s = is_slug (codes s) || is_slug (before_newline (codes s))

-- `ServiceTarget(service_name=…, environment=…)`; `none` is a `ValueError`
unfoldable pub make_target : String → String → Option ServiceTarget
make_target name env =
    if in_range 2 63 (length (codes name))
      && service_name_matches name
      && elem env allowed_environments
    then some (record { target_type = service; service_name = name; environment = env })
    else none

unfoldable pub is_allowed_service : String → Bool
is_allowed_service name = elem name allowed_target_services

unfoldable pub resolve_target : ServiceTarget → Result Error ServiceTarget
resolve_target t = if is_allowed_service t.service_name then ok t else err unknown_target

-- A time is a number of microseconds since the epoch.
pub record RemediationApproval : Type 0 where
  pub approval_id : String
  pub remediation_id : String
  pub decision : ApprovalDecision
  pub approver_identity : String
  pub approver_role : ApproverRole
  pub reason : String
  pub decided_at : ℕ

-- What a call of `decide` passes on to the approval, with the fresh id and the clock's reading
pub record DecisionRequest : Type 0 where
  pub approval_id : String
  pub decision : ApprovalDecision
  pub approver_identity : String
  pub approver_role : ApproverRole
  pub reason : String
  pub decided_at : ℕ

-- The construction of a `RemediationApproval`, whose fields' bounds and validator may refuse
unfoldable pub make_approval : String → DecisionRequest → Result Error RemediationApproval
make_approval rid q = do
  raise_if (ltb 128 (length (codes q.approver_identity))) invalid_approval
  raise_if (no_text (strip q.approver_identity)) invalid_approval
  raise_if (ltb 1000 (length (codes q.reason))) invalid_approval
  ok (record {
    approval_id = q.approval_id;
    remediation_id = rid;
    decision = q.decision;
    approver_identity = q.approver_identity;
    approver_role = q.approver_role;
    reason = q.reason;
    decided_at = q.decided_at;
  })
