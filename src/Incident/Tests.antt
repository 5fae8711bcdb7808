-- ===== src/Incident/Tests.antt =====
-- Tests of the incident correlator, and its theorems at concrete inputs.
use sentinelops_ai.Prelude.{ℕ, ◌≤◌, ◌<◌, ◌≡◌, ◌↔◌, refl, true, some, [], ◌∷◌, leb, if◌then◌else◌}
use mathlib.Core.List.Memᴰ
use sentinelops_ai.Prelude.Dict.{lookup, insert}
use sentinelops_ai.Incident.Domain.{
  AnomalySignal, Incident, opened, resolved, mitigating, place, rank, is_active, info, low, medium,
  high, critical,
}
use sentinelops_ai.Incident.StateMachine.{can_transition, can_transition_forward}
use sentinelops_ai.Prelude.Names.{insert_name, sorted_names, text_before}
use sentinelops_ai.Incident.Severity.{
  SeverityInputs, default_severity, evaluate_severity, fired_rules, verdict_on, top_level,
  reasons_at,
}
use sentinelops_ai.Incident.Severity.Monotone.{severity_level, is_critical, is_high, is_medium}
use sentinelops_ai.Incident.Correlation.{append, decide}
use sentinelops_ai.Incident.Absorb.{
  IsRated, absorb, aggregate, new_incident, absorb_escalates, new_incident-IsRated,
}
use sentinelops_ai.Prelude.{arith, ok, none, String, List}
use sentinelops_ai.Incident.Processor.{
  IncidentStore, created, duplicate, process_once, act, opened_with, insert_incident, lock_active,
}
use sentinelops_ai.Incident.Processor.Single.{IsSingle, active_under}
use sentinelops_ai.Incident.Processor.Once.{
  Processed, process_once-Processed, Delivery, process_all, process_once_again,
}
use sentinelops_ai.Incident.Topology.{
  default_graph, dependencies_of, callers, dependents_of, is_related, incidents_overlap,
  is_concurrent, find_related_incidents, order_edge, group_one, by_service, group_of, all_incidents,
  add_link, consider, link_service, link_incident, insert_link, sort_links, correlate_incidents,
}
use sentinelops_ai.Incident.Topology.Links.{HasLink}
use sentinelops_ai.Incident.Topology.Correlated.{IsBlast, HasCause, correlate_incidents_iff}

abbrev slow_orders : AnomalySignal
slow_orders = record {
  event_id = "evt_1";
  service = "orders-service";
  environment = "development";
  window_start = 1000;
  window_end = 10001000;
  anomaly_score = 700000;
  signals = ("latency_p95_ms", 620000) ∷ ("error_rate", 20000) ∷ [];
  abnormal_signals = "latency_p95_ms" ∷ [];
  occurred_at = 10001000;
}

abbrev failing_orders : AnomalySignal
failing_orders = record slow_orders {
  event_id = "evt_2";
  window_end = 20001000;
  signals = ("error_rate", 400000) ∷ [];
  abnormal_signals = "error_rate" ∷ "latency_p95_ms" ∷ [];
  occurred_at = 20001000;
}

abbrev first_incident : Incident
first_incident = new_incident default_severity slow_orders "inc_1" 10002000

first_is_high : first_incident.severity ≡ high
unfolding new_incident absorb aggregate evaluate_severity fired_rules verdict_on top_level
    reasons_at lookup sorted_names insert_name
first_is_high = refl

failing_is_critical :
    (absorb default_severity first_incident failing_orders 20002000).severity ≡ critical
unfolding new_incident absorb aggregate evaluate_severity fired_rules verdict_on top_level
    reasons_at lookup sorted_names insert_name text_before
failing_is_critical = refl

names_sorted :
    (absorb default_severity first_incident failing_orders 20002000).abnormal_signal_names
    ≡ "error_rate" ∷ "latency_p95_ms" ∷ []
unfolding new_incident absorb aggregate evaluate_severity fired_rules verdict_on top_level
    reasons_at lookup sorted_names insert_name text_before
names_sorted = refl

same_episode : decide failing_orders (some first_incident) 300000000 ≡ append
unfolding decide new_incident absorb aggregate
same_episode = refl

first_incident-IsRated : IsRated default_severity (slow_orders ∷ []) first_incident
first_incident-IsRated = new_incident-IsRated default_severity slow_orders "inc_1" 10002000

absorb_escalates_example :
    IsRated default_severity
      (failing_orders ∷ slow_orders ∷ [])
      (absorb default_severity first_incident failing_orders 20002000)
    × (rank first_incident.severity
        ≤ rank (absorb default_severity first_incident failing_orders 20002000).severity)
    × IsRated default_severity
        (failing_orders ∷ [])
        (new_incident default_severity failing_orders "inc_2" 20002000)
absorb_escalates_example =
    absorb_escalates default_severity (slow_orders ∷ []) first_incident failing_orders "inc_2"
      20002000 first_incident-IsRated

abbrev mild : SeverityInputs
mild = record {
  anomaly_count = 3;
  distinct_abnormal_signals = 1;
  max_anomaly_score = 600000;
  max_error_rate = 20000;
  max_latency_p95 = 120000;
  duration = 30000000;
}

severity_level_example : (evaluate_severity mild default_severity).level ≡ (
    if is_critical mild default_severity
    then critical
    else if is_high mild default_severity
    then high
    else if is_medium mild default_severity
    then medium
    else if leb 1 3
    then low
    else info)
severity_level_example = severity_level mild default_severity

can_transition_forward_example :
    (can_transition mitigating opened "operator" ≡ true → place mitigating < place opened)
    × ((can_transition mitigating resolved "operator" ≡ true) ↔ (is_active mitigating ≡ true))
can_transition_forward_example = can_transition_forward mitigating opened "operator"

abbrev empty_incidents : IncidentStore
empty_incidents = record { incidents = []; evidence_ids = [] }

empty_incidents-IsSingle : IsSingle empty_incidents.incidents
unfolding active_under
empty_incidents-IsSingle = record { keyed = tt; single = λ key. omega arith }

no_incident : (fresh : String) → lookup fresh empty_incidents.incidents ≡ none
unfolding lookup
no_incident fresh = refl

process_once-Processed_example :
    Processed slow_orders
      (process_once default_severity 300000000 slow_orders "inc_1" 10002000 empty_incidents)
process_once-Processed_example =
    process_once-Processed default_severity slow_orders "inc_1" 10002000 empty_incidents
      empty_incidents-IsSingle (no_incident "inc_1") 300000000

abbrev between : List Delivery
between = record { anomaly = failing_orders; fresh = "inc_3"; now = 20002000 } ∷ []

abbrev once_processed : IncidentStore
once_processed =
    (process_once default_severity 300000000 slow_orders "inc_1" 10002000 empty_incidents).1

process_once_again_example :
    process_once default_severity 300000000 slow_orders "inc_2" 30002000
      (process_all default_severity 300000000 between once_processed)
    ≡ (ok (duplicate, none), process_all default_severity 300000000 between once_processed)
unfolding process_once act opened_with insert_incident lock_active decide
process_once_again_example =
    process_once_again default_severity 300000000 slow_orders "inc_1" "inc_2" 10002000 30002000
      empty_incidents (created, some "inc_1") between refl

abbrev slow_payments : AnomalySignal
slow_payments = record slow_orders {
  event_id = "evt_3";
  service = "payments-service";
  window_end = 30001000;
  occurred_at = 30001000;
}

abbrev payments_incident : Incident
payments_incident = new_incident default_severity slow_payments "inc_2" 30002000

-- Ten minutes
abbrev linking_window : ℕ
linking_window = 600000000

blast : IsBlast default_graph linking_window first_incident payments_incident
unfolding new_incident absorb aggregate dependencies_of lookup incidents_overlap
blast = record { depends = refl; environment = refl; overlap = refl }

correlate_incidents_iff_example :
    HasLink "inc_1" "inc_2"
      (correlate_incidents (payments_incident ∷ first_incident ∷ []) linking_window default_graph)
    ↔ HasCause default_graph linking_window
        (payments_incident ∷ first_incident ∷ [])
        "inc_1"
        "inc_2"
correlate_incidents_iff_example =
    correlate_incidents_iff default_graph linking_window (payments_incident ∷ first_incident ∷ [])
      "inc_1" "inc_2"

orders_linked :
    HasLink "inc_1" "inc_2"
      (correlate_incidents (payments_incident ∷ first_incident ∷ []) linking_window default_graph)
unfolding new_incident
orders_linked = correlate_incidents_iff_example.1 (
  first_incident,
  payments_incident,
  Memᴰ.tail (Memᴰ.head refl),
  Memᴰ.head refl,
  refl,
  refl,
  blast,
)

link_listed :
    correlate_incidents (payments_incident ∷ first_incident ∷ []) linking_window default_graph
    ≡ record { incident_id = "inc_1"; related_incident_id = "inc_2"; relation_type = "dependency" }
      ∷ []
unfolding new_incident absorb aggregate correlate_incidents by_service group_one all_incidents
    link_incident link_service group_of consider order_edge add_link sort_links insert_link insert
    dependencies_of lookup incidents_overlap
link_listed = refl

related_both_ways :
    find_related_incidents payments_incident
      (payments_incident ∷ first_incident ∷ [])
      linking_window
      default_graph
    ≡ "inc_1" ∷ []
unfolding new_incident absorb aggregate find_related_incidents is_concurrent is_related
    dependencies_of dependents_of callers sorted_names insert_name lookup incidents_overlap
related_both_ways = refl
