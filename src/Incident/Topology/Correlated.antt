-- ===== src/Incident/Topology/Correlated.antt =====
-- topology.py: `correlate_incidents` links the incidents that have a common cause.
use mathlib.Core.List.{Memᴰ}
use mathlib.Core.List.Memᴰ
use sentinelops_ai.Prelude.{
  ℕ, String, ◌≡◌, sym, subst, ◌∙◌, elem_iff, ◌↔◌, inl, inr, true, List, [], eq_iff, string_eq, ◌==◌,
  elem, each, each-keeps, each-reaches, Bool-cases,
}
use sentinelops_ai.Prelude.Dict.{Dict}
use sentinelops_ai.Incident.Domain.{Incident}
use sentinelops_ai.Incident.Topology.{
  dependencies_of, incidents_overlap, IncidentCorrelation, order_edge, by_service, group_of,
  all_incidents, consider, link_service, link_incident, correlate_incidents,
}
use sentinelops_ai.Incident.Topology.Grouped.{
  group_of_sound, group_of-complete, all_incidents_sound, all_incidents-complete,
}
use sentinelops_ai.Incident.Topology.Links.{
  HasLink, add_link-keeps, add_link-hit, add_link-from, sort_links_iff,
}

-- A service and one of those it depends on, in one environment, in trouble at the same time
pub record IsBlast (graph : Dict (List String)) (window : ℕ) (a b : Incident) : Type 0 where
  pub depends : elem b.service (dependencies_of a.service graph) ≡ true
  pub environment : a.environment ≡ b.environment
  pub overlap : incidents_overlap a b window ≡ true

-- The link comes from two incidents of the list.
abbrev pub HasCause : Dict (List String) → ℕ → List Incident → String → String → Type 0
HasCause graph window incidents x y =
    (a : Incident) × (b : Incident) × Memᴰ a incidents
    × Memᴰ b incidents
    × (a.id ≡ x)
    × (b.id ≡ y)
    × IsBlast graph window a b

module _ (graph : Dict (List String)) (window : ℕ) where
  consider-keeps :
      (x y : String) (i other : Incident) (links : List IncidentCorrelation)
      → HasLink x y links
      → HasLink x y (consider graph window i links other)
  unfolding consider order_edge
  consider-keeps x y i other links h = elim (Bool-cases (other.environment == i.environment)) [
    | inr e ↦ rw e h
    | inl e ↦ elim (Bool-cases (incidents_overlap i other window)) [
      | inr o ↦ rw (e, o) h
      | inl o ↦ elim (Bool-cases (elem other.service (dependencies_of i.service graph))) [
        | inl d ↦ rw (e, o, d) (add_link-keeps x y links i other h)
        | inr d ↦ rw (e, o, d) (add_link-keeps x y links other i h)
      ]
    ]
  ]

  consider-hit :
      (i other : Incident) (links : List IncidentCorrelation)
      → IsBlast graph window i other
      → HasLink i.id other.id (consider graph window i links other)
  unfolding consider order_edge
  consider-hit i other links c =
      let e = (eq_iff other.environment i.environment).1 (sym c.environment) in
      rw (e, c.overlap, c.depends) (add_link-hit links i other)

  -- Every link is that of two incidents of the list.
  abbrev Caused : List Incident → List IncidentCorrelation → Type 0
  Caused incidents links =
      (l : IncidentCorrelation)
      → Memᴰ l links
      → HasCause graph window incidents l.incident_id l.related_incident_id

  consider-Caused :
      (incidents : List Incident) (i other : Incident) (links : List IncidentCorrelation)
      → Memᴰ i incidents
      → Memᴰ other incidents
      → elem other.service (dependencies_of i.service graph) ≡ true
      → Caused incidents links
      → Caused incidents (consider graph window i links other)
  unfolding consider order_edge
  consider-Caused incidents i other links mi mo d h l m =
      elim (Bool-cases (other.environment == i.environment)) [
        | inr e ↦ h l (rw e at m)
        | inl e ↦ elim (Bool-cases (incidents_overlap i other window)) [
          | inr o ↦ h l (rw (e, o) at m)
          | inl o ↦ elim (add_link-from links i other l (rw (e, o, d) at m)) [
            | inl old ↦ h l old
            | inr (p, q) ↦ (
              i,
              other,
              mi,
              mo,
              sym p,
              sym q,
              record {
                depends = d;
                environment = sym ((eq_iff other.environment i.environment).0 e);
                overlap = o;
              },
            )
          ]
        ]
      ]

  -- The incidents, grouped by service
  abbrev links_of : List Incident → List Incident → List IncidentCorrelation
  links_of incidents sources = each (link_incident graph window (by_service incidents)) [] sources

  link_service-keeps :
      (incidents : List Incident) (x y : String) (i : Incident) (links : List IncidentCorrelation)
      (service : String)
      → HasLink x y links
      → HasLink x y (link_service graph window (by_service incidents) i links service)
  unfolding link_service
  link_service-keeps incidents x y i links service =
      each-keeps (HasLink x y) (consider graph window i) (group_of service (by_service incidents))
        links (λ s other m. consider-keeps x y i other s)

  link_service-hit :
      (incidents : List Incident) (i other : Incident) (links : List IncidentCorrelation)
      → Memᴰ other incidents
      → IsBlast graph window i other
      → HasLink i.id other.id
          (link_service graph window (by_service incidents) i links other.service)
  unfolding link_service
  link_service-hit incidents i other links m c =
      each-reaches (HasLink i.id other.id) (consider graph window i)
        (group_of other.service (by_service incidents)) links other
        (λ s o. consider-keeps i.id other.id i o s) (λ s. consider-hit i other s c)
        (group_of-complete incidents other m)

  link_incident-keeps :
      (incidents : List Incident) (x y : String) (links : List IncidentCorrelation) (i : Incident)
      → HasLink x y links
      → HasLink x y (link_incident graph window (by_service incidents) links i)
  unfolding link_incident
  link_incident-keeps incidents x y links i =
      each-keeps (HasLink x y) (link_service graph window (by_service incidents) i)
        (dependencies_of i.service graph) links
        (λ s service m. link_service-keeps incidents x y i s service)

  link_incident-hit :
      (incidents : List Incident) (i other : Incident) (links : List IncidentCorrelation)
      → Memᴰ other incidents
      → IsBlast graph window i other
      → HasLink i.id other.id (link_incident graph window (by_service incidents) links i)
  unfolding link_incident
  link_incident-hit incidents i other links m c =
      each-reaches (HasLink i.id other.id) (link_service graph window (by_service incidents) i)
        (dependencies_of i.service graph) links other.service
        (λ s service. link_service-keeps incidents i.id other.id i s service)
        (λ s. link_service-hit incidents i other s m c)
        ((elem_iff other.service (dependencies_of i.service graph)).0 c.depends)

  link_incident-Caused :
      (incidents : List Incident) (i : Incident) (links : List IncidentCorrelation)
      → Memᴰ i incidents
      → Caused incidents links
      → Caused incidents (link_incident graph window (by_service incidents) links i)
  unfolding link_incident link_service
  link_incident-Caused incidents i links mi =
      each-keeps (Caused incidents) (link_service graph window (by_service incidents) i)
        (dependencies_of i.service graph) links
        (λ s service ms.
          each-keeps (Caused incidents) (consider graph window i)
            (group_of service (by_service incidents)) s
            (λ t other mo.
              let (here, same) = group_of_sound incidents service other mo in
              consider-Caused incidents i other t mi here (
                subst (λ w. elem w (dependencies_of i.service graph) ≡ true) (sym same)
                  ((elem_iff service (dependencies_of i.service graph)).1 ms))))

  recaused :
      (incidents : List Incident) {x y u v : String}
      → u ≡ x
      → v ≡ y
      → HasCause graph window incidents u v
      → HasCause graph window incidents x y
  recaused incidents p q (a, b, ma, mb, s, t, c) = (a, b, ma, mb, s ∙ p, t ∙ q, c)

  -- Two ids are linked exactly when two incidents of the list have them, the first one's service
  -- depends on the second one's, they are of one environment, and they were active within the
  -- window of each other.
  pub correlate_incidents_iff :
      (incidents : List Incident) (x y : String)
      → HasLink x y (correlate_incidents incidents window graph)
        ↔ HasCause graph window incidents x y
  unfolding correlate_incidents
  correlate_incidents_iff incidents x y =
      let groups = by_service incidents in
      (
        (λ (l, m, p, q). recaused incidents p q (
            each-keeps (Caused incidents) (link_incident graph window groups) (all_incidents groups)
              [] (λ s i mi. link_incident-Caused incidents i s (all_incidents_sound incidents i mi))
              (λ k n. absurd (Memᴰ.not-nil n)) l
              ((sort_links_iff l (links_of incidents (all_incidents groups))).0 m))),
        (λ (a, b, ma, mb, p, q, c).
            let (l, m, u, v) =
              each-reaches (HasLink a.id b.id) (link_incident graph window groups)
                (all_incidents groups) [] a (λ s i. link_incident-keeps incidents a.id b.id s i)
                (λ s. link_incident-hit incidents a b s mb c)
                (all_incidents-complete incidents a ma) in
            (l, (sort_links_iff l (links_of incidents (all_incidents groups))).1 m, u ∙ p, v ∙ q)),
      )
