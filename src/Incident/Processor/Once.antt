-- ===== src/Incident/Processor/Once.antt =====
-- What one anomaly does to the store.
use sentinelops_ai.Prelude.{
  ℕ, ◌+◌, String, ◌≡◌, refl, ap, ◌∙◌, Bool, true, false, Option, none, some, List, [], ◌∷◌,
  string_eq, elem, each, each-keeps, leb, err, if◌then◌else◌, arith, Result, ok, eq_iff, Bool-cases,
  inl, inr,
}
use sentinelops_ai.Prelude.Dict.{one_if, Dict, lookup, insert, lookup-insert}
use sentinelops_ai.Incident.Domain.{AnomalySignal, Incident, correlation_key}
use sentinelops_ai.Incident.Severity.{SeverityConfig}
use sentinelops_ai.Incident.Correlation.{CorrelationAction, create, append, supersede, decide}
use sentinelops_ai.Incident.Absorb.{absorb, aggregate, new_incident, auto_resolve}
use sentinelops_ai.Incident.Processor.{
  ProcessResult, created, appended, superseded, duplicate, IncidentError, IncidentStore,
  lock_active, insert_incident, update_incident, opened_with, act, process_once,
}
use sentinelops_ai.Incident.Processor.Single.{
  IsSingle, active_under, lock_active-none, lock_active-some, quiet_count, extended-IsSingle,
  quiet-IsSingle, opened-IsSingle,
}

none-lock_active :
    (key : String) (d : Dict Incident) → active_under key d ≡ 0 → lock_active key d ≡ none
unfolding lock_active active_under
none-lock_active key [] h = refl
none-lock_active key ((j, i) ∷ d) h = ground (arith, h, none-lock_active key d)

abbrev Outcome : Type 0
Outcome = Result IncidentError (ProcessResult × Option String) × IncidentStore

-- The call has returned, the store has at most one active incident for each key, and the event is
-- evidence.
pub record Processed (a : AnomalySignal) (out : Outcome) : Type 0 where
  pub returned : (r : ProcessResult × Option String) × (out.0 ≡ ok r)
  pub single : IsSingle out.1.incidents
  pub evidence : elem a.event_id out.1.evidence_ids ≡ true

insert_incident-ok :
    (i : Incident) (d : Dict Incident)
    → lock_active i.correlation_key d ≡ none
    → insert_incident i d ≡ ok (insert i.id i d)
unfolding insert_incident
insert_incident-ok i d h = rw (h, insert_incident) refl

first_elem : (e : String) (es : List String) → elem e (e ∷ es) ≡ true
first_elem e es = rw ((eq_iff e e).1 refl)

module _ (cfg : SeverityConfig) (a : AnomalySignal) (fresh : String) (now : ℕ) where
  inserted :
      (result : ProcessResult) (s : IncidentStore)
      → IsSingle s.incidents
      → active_under (correlation_key a.service a.environment) s.incidents ≡ 0
      → lookup fresh s.incidents ≡ none
      → Processed a (
          opened_with result a.event_id fresh s
            (insert_incident (new_incident cfg a fresh now) s.incidents))
  unfolding opened_with new_incident absorb aggregate
  inserted result s h z l =
      rw
        (insert_incident-ok (new_incident cfg a fresh now) s.incidents
          (none-lock_active (correlation_key a.service a.environment) s.incidents z))
        (record {
          returned = ((result, some fresh), refl);
          single = opened-IsSingle cfg a fresh now s.incidents h z l;
          evidence = first_elem a.event_id s.evidence_ids;
        })

  module _ (s : IncidentStore) (h : IsSingle s.incidents)
      (l : lookup fresh s.incidents ≡ none) where
    on_active :
        (i : Incident) (soon : Bool)
        → lock_active (correlation_key a.service a.environment) s.incidents ≡ some i
        → Processed a (act cfg a fresh now s (if soon then append else supersede) (some i))
    unfolding act update_incident auto_resolve insert lookup
    on_active i true e =
        let (there, held) = lock_active-some _ s.incidents i h.keyed e in
        record {
          returned = ((appended, some i.id), refl);
          single = extended-IsSingle cfg a fresh now s.incidents i h there;
          evidence = first_elem a.event_id s.evidence_ids;
        }
    on_active i false e =
        let key = correlation_key a.service a.environment in
        let (there, held) = lock_active-some key s.incidents i h.keyed e in
        let quiet = update_incident (auto_resolve i now) s.incidents in
        let left = quiet_count s.incidents i now key there in
        let one = ap one_if held in
        inserted superseded (record s { incidents = quiet })
          (quiet-IsSingle cfg a fresh now s.incidents i h there)
          (omega (arith, left, one, h.single key))
          (lookup-insert i.id fresh (auto_resolve i now) s.incidents
            ∙ ground (arith, l, there, eq_iff i.id fresh))

    on_lock :
        (window : ℕ) (o : Option Incident)
        → lock_active (correlation_key a.service a.environment) s.incidents ≡ o
        → Processed a (act cfg a fresh now s (decide a o window) o)
    unfolding act decide
    on_lock window none e = inserted created s h (lock_active-none _ s.incidents e) l
    on_lock window (some i) e = on_active i (leb a.occurred_at (i.last_evidence_at + window)) e

    -- Over a store with at most one active incident for each correlation key and a fresh id, the
    -- processing of an anomaly returns, never as a lost race, keeps at most one active incident for
    -- each key, and leaves the event as evidence.
    pub process_once-Processed : (window : ℕ) → Processed a (process_once cfg window a fresh now s)
    unfolding process_once
    process_once-Processed window = elim (Bool-cases (elem a.event_id s.evidence_ids)) [
      | inl b ↦ rw b (record { returned = ((duplicate, none), refl); single = h; evidence = b })
      | inr b ↦
          rw b (
            on_lock window (lock_active (correlation_key a.service a.environment) s.incidents) refl)
    ]

-- An anomaly that is processed, with the fresh id and the clock's reading of its call
pub record Delivery : Type 0 where
  pub anomaly : AnomalySignal
  pub fresh : String
  pub now : ℕ

-- The store after further calls
abbrev pub process_all : SeverityConfig → ℕ → List Delivery → IncidentStore → IncidentStore
process_all cfg window ds s =
    each (λ t d. (process_once cfg window d.anomaly d.fresh d.now t).1) s ds

-- An event that is evidence
abbrev Known : String → IncidentStore → Type 0
Known e s = elem e s.evidence_ids ≡ true

opened_with-Known :
    (e : String) (result : ProcessResult) (event fresh : String) (s : IncidentStore)
    (v : Result IncidentError (Dict Incident))
    → Known e s
    → Known e (opened_with result event fresh s v).1
unfolding opened_with
opened_with-Known e result event fresh s (ok d) h = ground (arith, h)
opened_with-Known e result event fresh s (err x) h = h

opened_with-returned :
    (result : ProcessResult) (event fresh : String) (s : IncidentStore)
    (v : Result IncidentError (Dict Incident)) (r : ProcessResult × Option String)
    → (opened_with result event fresh s v).0 ≡ ok r
    → Known event (opened_with result event fresh s v).1
unfolding opened_with
opened_with-returned result event fresh s (ok d) r h = first_elem event s.evidence_ids
opened_with-returned result event fresh s (err x) r h = ground arith

module _ (cfg : SeverityConfig) (a : AnomalySignal) (fresh : String) (now : ℕ) where
  act-Known :
      (e : String) (s : IncidentStore) (action : CorrelationAction) (o : Option Incident)
      → Known e s
      → Known e (act cfg a fresh now s action o).1
  unfolding act
  act-Known e s supersede (some i) h = opened_with-Known e superseded a.event_id fresh _ _ h
  act-Known e s append (some i) h = ground (arith, h)
  act-Known e s create (some i) h = opened_with-Known e created a.event_id fresh s _ h
  act-Known e s create none h = opened_with-Known e created a.event_id fresh s _ h
  act-Known e s append none h = opened_with-Known e created a.event_id fresh s _ h
  act-Known e s supersede none h = opened_with-Known e created a.event_id fresh s _ h

  act-returned :
      (s : IncidentStore) (action : CorrelationAction) (o : Option Incident)
      (r : ProcessResult × Option String)
      → (act cfg a fresh now s action o).0 ≡ ok r
      → Known a.event_id (act cfg a fresh now s action o).1
  unfolding act
  act-returned s supersede (some i) r h = opened_with-returned superseded a.event_id fresh _ _ r h
  act-returned s append (some i) r h = first_elem a.event_id s.evidence_ids
  act-returned s create (some i) r h = opened_with-returned created a.event_id fresh s _ r h
  act-returned s create none r h = opened_with-returned created a.event_id fresh s _ r h
  act-returned s append none r h = opened_with-returned created a.event_id fresh s _ r h
  act-returned s supersede none r h = opened_with-returned created a.event_id fresh s _ r h

process_once-Known :
    (cfg : SeverityConfig) (window : ℕ) (e : String) (a : AnomalySignal) (fresh : String) (now : ℕ)
    (s : IncidentStore)
    → Known e s
    → Known e (process_once cfg window a fresh now s).1
unfolding process_once
process_once-Known cfg window e a fresh now s h =
    let active = lock_active (correlation_key a.service a.environment) s.incidents in
    elim (Bool-cases (elem a.event_id s.evidence_ids)) [
      | inl b ↦ rw b h
      | inr b ↦ rw b (act-Known cfg a fresh now e s (decide a active window) active h)
    ]

process_once-returned :
    (cfg : SeverityConfig) (window : ℕ) (a : AnomalySignal) (fresh : String) (now : ℕ)
    (s : IncidentStore) (r : ProcessResult × Option String)
    → (process_once cfg window a fresh now s).0 ≡ ok r
    → Known a.event_id (process_once cfg window a fresh now s).1
unfolding process_once
process_once-returned cfg window a fresh now s r h =
    let active = lock_active (correlation_key a.service a.environment) s.incidents in
    elim (Bool-cases (elem a.event_id s.evidence_ids)) [
      | inl b ↦ rw b b
      | inr b ↦ rw b (act-returned cfg a fresh now s (decide a active window) active r (rw b at h))
    ]

redelivered :
    (cfg : SeverityConfig) (window : ℕ) (a : AnomalySignal) (fresh : String) (now : ℕ)
    (s : IncidentStore)
    → Known a.event_id s
    → process_once cfg window a fresh now s ≡ (ok (duplicate, none), s)
unfolding process_once
redelivered cfg window a fresh now s h = rw h refl

-- An event whose processing has returned is a duplicate when it is delivered again, whatever other
-- anomalies have been processed in between and at whatever time, and changes nothing.
pub process_once_again :
    (cfg : SeverityConfig) (window : ℕ) (a : AnomalySignal) (fresh again : String) (now later : ℕ)
    (s : IncidentStore) (r : ProcessResult × Option String) (ds : List Delivery)
    → (process_once cfg window a fresh now s).0 ≡ ok r
    → let t = process_all cfg window ds (process_once cfg window a fresh now s).1 in
      process_once cfg window a again later t ≡ (ok (duplicate, none), t)
process_once_again cfg window a fresh again now later s r ds h =
    let first = (process_once cfg window a fresh now s).1 in
    let known =
      each-keeps (Known a.event_id) (λ t d. (process_once cfg window d.anomaly d.fresh d.now t).1)
        ds first (λ t d m. process_once-Known cfg window a.event_id d.anomaly d.fresh d.now t)
        (process_once-returned cfg window a fresh now s r h) in
    redelivered cfg window a again later (process_all cfg window ds first) known
