-- ===== src/Incident/Processor.antt =====
-- `_process_once` of processor.py over the in-memory repository of repository.py: the incidents, and
-- the ids of the events that are evidence. The operations that a unit of work has staged are applied
-- in their order at its end. The links between incidents and the rows of evidence and history are
-- left out, as is the publication that follows.
pub mod Single
pub mod Once
use sentinelops_ai.Prelude.{
  ℕ, zero, String, Bool, true, false, ◌&&◌, Option, none, some, List, [], ◌∷◌, ◌++◌, string_eq,
  ◌==◌, elem, if◌then◌else◌, Result, ok, err,
}
use sentinelops_ai.Prelude.Dict.{Dict, insert}
use sentinelops_ai.Incident.Domain.{AnomalySignal, Incident, is_active, correlation_key}
use sentinelops_ai.Incident.Severity.{SeverityConfig}
use sentinelops_ai.Incident.Correlation.{CorrelationAction, create, append, supersede, decide}
use sentinelops_ai.Incident.Absorb.{absorb, new_incident, auto_resolve}

pub data ProcessResult : Type 0 where
  created appended superseded duplicate : ProcessResult

pub data IncidentError : Type 0 where
  duplicate_active : IncidentError

pub record IncidentStore : Type 0 where
  pub incidents : Dict Incident
  pub evidence_ids : List String

-- An incident that `lock_active_incident` looks for
unfoldable pub holds : String → Incident → Bool
holds key i = i.correlation_key == key && is_active i.status

-- `lock_active_incident`
unfoldable pub lock_active : String → Dict Incident → Option Incident
lock_active key [] = none
lock_active key ((j, i) ∷ d) = if holds key i then some i else lock_active key d

-- `insert_incident` when it is applied
unfoldable pub insert_incident : Incident → Dict Incident → Result IncidentError (Dict Incident)
insert_incident i d = elim (lock_active i.correlation_key d) [
  | none ↦ ok (insert i.id i d)
  | some _ ↦ err duplicate_active
]

-- `update_incident` when it is applied
unfoldable pub update_incident : Incident → Dict Incident → Dict Incident
update_incident i d = insert i.id i d

-- What is left of a unit of work after the incident that it inserts: the event becomes evidence.
unfoldable pub opened_with :
    ProcessResult
    → String
    → String
    → IncidentStore
    → Result IncidentError (Dict Incident)
    → Result IncidentError (ProcessResult × Option String) × IncidentStore
opened_with result event fresh s (err e) = (err e, s)
opened_with result event fresh s (ok d) =
    (ok (result, some fresh), record { incidents = d; evidence_ids = event ∷ s.evidence_ids })

-- The three branches, on the active incident of the key
unfoldable pub act :
    SeverityConfig
    → AnomalySignal
    → String
    → ℕ
    → IncidentStore
    → CorrelationAction
    → Option Incident
    → Result IncidentError (ProcessResult × Option String) × IncidentStore
unfolding opened_with
act cfg a fresh now s supersede (some i) =
    let quiet = update_incident (auto_resolve i now) s.incidents in
    opened_with superseded a.event_id fresh (record s { incidents = quiet })
      (insert_incident (new_incident cfg a fresh now) quiet)
act cfg a fresh now s append (some i) = (
  ok (appended, some i.id),
  record {
    incidents = update_incident (absorb cfg i a now) s.incidents;
    evidence_ids = a.event_id ∷ s.evidence_ids;
  },
)
act cfg a fresh now s _ _ =
    opened_with created a.event_id fresh s
      (insert_incident (new_incident cfg a fresh now) s.incidents)

-- `_process_once`, with a fresh id and the clock's reading
unfoldable pub process_once :
    SeverityConfig
    → ℕ
    → AnomalySignal
    → String
    → ℕ
    → IncidentStore
    → Result IncidentError (ProcessResult × Option String) × IncidentStore
unfolding act
process_once cfg window a fresh now s =
    let active = lock_active (correlation_key a.service a.environment) s.incidents in
    if elem a.event_id s.evidence_ids
    then (ok (duplicate, none), s)
    else act cfg a fresh now s (decide a active window) active
