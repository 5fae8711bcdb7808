-- ===== src/Rca/Repository.antt =====
-- repository.py: the in-memory repository of investigations. The fresh id and the time are
-- arguments; `order` keeps the ids in the order of their begin.
pub mod Single
use sentinelops_ai.Prelude.{
  ℕ, suc, String, Bool, true, false, ◌&&◌, Option, none, some, List, [], ◌∷◌, ◌++◌, string_eq, ◌==◌,
  elem, length, if◌then◌else◌, Result, ok, err,
}
use sentinelops_ai.Prelude.Dict.{Dict, lookup, insert, has_key}
use sentinelops_ai.Rca.Domain.{
  InvestigationStatus, pending, status_eq, InvestigationTrigger, Confidence, unknown,
  active_statuses, is_tool_call,
}
use sentinelops_ai.Rca.Errors.{TerminalReason}
use sentinelops_ai.Rca.Schemas.{Evidence, Investigation, InvestigationStep, RcaReport}

-- `DuplicateActiveInvestigationError`, and the KeyError of an id that is not stored
pub data RepositoryError : Type 0 where
  duplicate_active unknown_investigation : RepositoryError

pub record InvestigationStore : Type 0 where
  pub investigations : Dict Investigation
  pub steps : Dict (List InvestigationStep)
  pub evidence : Dict (List Evidence)
  pub reports : Dict RcaReport
  pub order : List String

abbrev pub is_active_for : String → Investigation → Bool
is_active_for incident_id i = i.incident_id == incident_id && elem i.status active_statuses

-- The first active investigation of an incident among the stored ones
unfoldable pub find_active : String → Dict Investigation → Option Investigation
unfolding active_statuses
find_active incident_id [] = none
find_active incident_id ((k, i) ∷ rest) =
    let later = find_active incident_id rest in
    if is_active_for incident_id i then some i else later

-- `get_active_investigation`
unfoldable pub get_active_investigation : String → InvestigationStore → Option Investigation
unfolding find_active
get_active_investigation incident_id store = find_active incident_id store.investigations

unfoldable pub begun : String → String → InvestigationTrigger → String → ℕ → Investigation
begun id incident_id trigger mode now = record {
  id = id;
  incident_id = incident_id;
  status = pending;
  trigger = trigger;
  mode = mode;
  model = none;
  termination_reason = none;
  tool_call_count = 0;
  step_count = 0;
  evidence_count = 0;
  overall_confidence = unknown;
  started_at = some now;
  completed_at = none;
  created_at = now;
  updated_at = now;
}

unfoldable pub begin_unless :
    Option Investigation
    → Investigation
    → InvestigationStore
    → Result RepositoryError (Investigation × InvestigationStore)
unfolding insert
begin_unless (some active) i store = err duplicate_active
begin_unless none i store = ok (
  i,
  record store {
    investigations = insert i.id i store.investigations;
    order = store.order ++ i.id ∷ [];
  },
)

unfoldable pub begin_investigation :
    String
    → String
    → InvestigationTrigger
    → String
    → ℕ
    → InvestigationStore
    → Result RepositoryError (Investigation × InvestigationStore)
unfolding begun begin_unless get_active_investigation
begin_investigation id incident_id trigger mode now store =
    begin_unless (get_active_investigation incident_id store)
      (begun id incident_id trigger mode now) store

-- `sum(1 for s in steps if s.kind == "TOOL_CALL")`
unfoldable pub count_tool_calls : List InvestigationStep → ℕ
count_tool_calls [] = 0
count_tool_calls (s ∷ ss) =
    let rest = count_tool_calls ss in if is_tool_call s.kind then suc rest else rest

-- The arguments of `complete_investigation` but for the id
pub record Completion : Type 0 where
  pub status : InvestigationStatus
  pub termination_reason : TerminalReason
  pub overall_confidence : Confidence
  pub model : Option String
  pub steps : List InvestigationStep
  pub evidence : List Evidence
  pub report : Option RcaReport

-- `prior.model_copy(update=…)`
unfoldable pub with_completion : Completion → ℕ → Investigation → Investigation
unfolding count_tool_calls
with_completion c now i = record i {
  status = c.status;
  termination_reason = some c.termination_reason;
  overall_confidence = c.overall_confidence;
  model = c.model;
  tool_call_count = count_tool_calls c.steps;
  step_count = length c.steps;
  evidence_count = length c.evidence;
  completed_at = some now;
  updated_at = now;
}

abbrev pub store_report : String → Option RcaReport → Dict RcaReport → Dict RcaReport
store_report id none reports = reports
store_report id (some r) reports = insert id r reports

unfoldable pub complete_found :
    String
    → Option Investigation
    → Completion
    → ℕ
    → InvestigationStore
    → Result RepositoryError (Investigation × InvestigationStore)
unfolding insert with_completion
complete_found id none c now store = err unknown_investigation
complete_found id (some prior) c now store =
    let updated = with_completion c now prior in
    ok (
      updated,
      record store {
        investigations = insert id updated store.investigations;
        steps = insert id c.steps store.steps;
        evidence = insert id c.evidence store.evidence;
        reports = store_report id c.report store.reports;
      },
    )

unfoldable pub complete_investigation :
    String
    → Completion
    → ℕ
    → InvestigationStore
    → Result RepositoryError (Investigation × InvestigationStore)
unfolding complete_found lookup
complete_investigation id c now store =
    complete_found id (lookup id store.investigations) c now store

-- `get_investigation`
unfoldable pub get_investigation : String → InvestigationStore → Option Investigation
unfolding lookup
get_investigation id store = lookup id store.investigations

-- The last id of the order whose investigation is of the incident
unfoldable pub latest_of : String → Dict Investigation → List String → Option Investigation
unfolding lookup
latest_of incident_id stored [] = none
latest_of incident_id stored (id ∷ ids) = elim (latest_of incident_id stored ids) [
  | some i ↦ some i
  | none ↦ elim (lookup id stored) [
    | none ↦ none
    | some i ↦ if i.incident_id == incident_id then some i else none
  ]
]

-- `get_latest_investigation`
unfoldable pub get_latest_investigation : String → InvestigationStore → Option Investigation
unfolding latest_of
get_latest_investigation incident_id store = latest_of incident_id store.investigations store.order

-- `get_steps` and `get_evidence`: nothing for an unknown id, an empty list for a running one
abbrev pub stored_list :
    {A : Type 0} → String → Dict Investigation → Dict (List A) → Option (List A)
stored_list id investigations lists =
    if has_key id investigations
    then elim (lookup id lists) [ none ↦ some [] | some xs ↦ some xs ]
    else none

unfoldable pub get_steps : String → InvestigationStore → Option (List InvestigationStep)
unfolding has_key lookup
get_steps id store = stored_list id store.investigations store.steps

unfoldable pub get_evidence : String → InvestigationStore → Option (List Evidence)
unfolding has_key lookup
get_evidence id store = stored_list id store.investigations store.evidence

unfoldable pub get_report : String → InvestigationStore → Option RcaReport
unfolding lookup
get_report id store = lookup id store.reports
