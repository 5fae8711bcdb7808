-- ===== src/Incident/Topology.antt =====
-- topology.py: the static graph of service dependencies, and the links between incidents of
-- adjacent services. A graph is a dict from a service to the services it depends on; the text of a
-- link's reason is left out. A window is a number of microseconds.
pub mod Grouped
pub mod Links
pub mod Correlated
use sentinelops_ai.Prelude.{
  ℕ, ◌+◌, String, Bool, true, false, not, ◌&&◌, ◌||◌, Option, none, some, List, [], ◌∷◌, ◌++◌, leb,
  string_eq, ◌==◌, elem, any_of, each, keep_if, if◌then◌else◌,
}
use sentinelops_ai.Prelude.Dict.{Dict, lookup, insert}
use sentinelops_ai.Prelude.Names.{text_before, sorted_names}
use sentinelops_ai.Incident.Domain.{Incident}

-- `SERVICE_DEPENDENCY_GRAPH`
abbrev pub default_graph : Dict (List String)
default_graph = ("orders-service", "payments-service" ∷ "inventory-service" ∷ []) ∷ []

-- `_graph`
abbrev pub graph_or_default : Option (Dict (List String)) → Dict (List String)
graph_or_default none = default_graph
graph_or_default (some g) = g

abbrev items_or_none : {A : Type 0} → Option (List A) → List A
items_or_none none = []
items_or_none (some xs) = xs

unfoldable pub dependencies_of : String → Dict (List String) → List String
unfolding lookup
dependencies_of service graph = items_or_none (lookup service graph)

unfoldable pub callers : String → Dict (List String) → List String
callers service [] = []
callers service ((s, deps) ∷ rest) =
    let others = callers service rest in if elem service deps then s ∷ others else others

unfoldable pub dependents_of : String → Dict (List String) → List String
unfolding callers sorted_names
dependents_of service graph = sorted_names (callers service graph)

-- The set of `related_services`, as a test
unfoldable pub is_related : String → Dict (List String) → String → Bool
unfolding dependencies_of dependents_of
is_related service graph other =
    elem other (dependencies_of service graph) || elem other (dependents_of service graph)

unfoldable pub incidents_overlap : Incident → Incident → ℕ → Bool
incidents_overlap a b window =
    leb a.started_at (b.last_evidence_at + window) && leb b.started_at (a.last_evidence_at + window)

unfoldable pub is_concurrent : Incident → Dict (List String) → ℕ → Incident → Bool
unfolding is_related incidents_overlap
is_concurrent i graph window other =
    not (other.id == i.id)
    && is_related i.service graph other.service
    && other.environment == i.environment
    && incidents_overlap i other window

abbrev ids : List Incident → List String
ids [] = []
ids (i ∷ is) = i.id ∷ ids is

unfoldable pub find_related_incidents :
    Incident → List Incident → ℕ → Dict (List String) → List String
unfolding is_concurrent
find_related_incidents i incidents window graph =
    ids (keep_if (is_concurrent i graph window) incidents)

-- `relation_type` is always "dependency".
pub record IncidentCorrelation : Type 0 where
  pub incident_id : String
  pub related_incident_id : String
  pub relation_type : String

-- `_order_edge`
unfoldable pub order_edge : Dict (List String) → Incident → Incident → Incident × Incident
unfolding dependencies_of
order_edge graph i other =
    if elem other.service (dependencies_of i.service graph) then (i, other) else (other, i)

-- `by_service.setdefault(inc.service, []).append(inc)`
unfoldable pub group_one : Dict (List Incident) → Incident → Dict (List Incident)
unfolding lookup insert
group_one d i = insert i.service (items_or_none (lookup i.service d) ++ i ∷ []) d

unfoldable pub by_service : List Incident → Dict (List Incident)
unfolding group_one
by_service incidents = each group_one [] incidents

-- `by_service.get(service, [])`
unfoldable pub group_of : String → Dict (List Incident) → List Incident
unfolding lookup
group_of service d = items_or_none (lookup service d)

-- The incidents of all groups
unfoldable pub all_incidents : Dict (List Incident) → List Incident
all_incidents [] = []
all_incidents ((s, group) ∷ rest) = group ++ all_incidents rest

-- Whether the key of a pair is in `seen`, which holds the keys of the links so far
abbrev pub joins : Incident → Incident → IncidentCorrelation → Bool
joins a b l = l.incident_id == a.id && l.related_incident_id == b.id

unfoldable pub add_link : List IncidentCorrelation → Incident × Incident → List IncidentCorrelation
add_link links (dependent, dependency) =
    if any_of (joins dependent dependency) links
    then links
    else links
      ++ record {
        incident_id = dependent.id;
        related_incident_id = dependency.id;
        relation_type = "dependency";
      }
        ∷ []

-- The body of the innermost loop
unfoldable pub consider :
    Dict (List String)
    → ℕ
    → Incident
    → List IncidentCorrelation
    → Incident
    → List IncidentCorrelation
unfolding incidents_overlap add_link order_edge
consider graph window i links other =
    if not (other.environment == i.environment)
    then links
    else if not (incidents_overlap i other window)
    then links
    else add_link links (order_edge graph i other)

module _ (graph : Dict (List String)) (window : ℕ) (groups : Dict (List Incident)) where
  unfoldable pub link_service :
      Incident → List IncidentCorrelation → String → List IncidentCorrelation
  unfolding consider group_of
  link_service i links service = each (consider graph window i) links (group_of service groups)

  unfoldable pub link_incident : List IncidentCorrelation → Incident → List IncidentCorrelation
  unfolding link_service dependencies_of
  link_incident links i = each (link_service i) links (dependencies_of i.service graph)

-- The order of the sort
abbrev pub link_before : IncidentCorrelation → IncidentCorrelation → Bool
link_before a b =
    text_before a.incident_id b.incident_id
    || a.incident_id == b.incident_id && text_before a.related_incident_id b.related_incident_id

unfoldable pub insert_link :
    IncidentCorrelation → List IncidentCorrelation → List IncidentCorrelation
unfolding text_before
insert_link l [] = l ∷ []
insert_link l (m ∷ ms) =
    let rest = insert_link l ms in if link_before m l then m ∷ rest else l ∷ m ∷ ms

unfoldable pub sort_links : List IncidentCorrelation → List IncidentCorrelation
unfolding insert_link
sort_links [] = []
sort_links (l ∷ ls) = insert_link l (sort_links ls)

unfoldable pub correlate_incidents :
    List Incident → ℕ → Dict (List String) → List IncidentCorrelation
unfolding by_service all_incidents link_incident sort_links
correlate_incidents incidents window graph =
    let groups = by_service incidents in
    sort_links (each (link_incident graph window groups) [] (all_incidents groups))
