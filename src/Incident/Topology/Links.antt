-- ===== src/Incident/Topology/Links.antt =====
-- topology.py: which links the correlation of incidents finds.
use mathlib.Core.List.{Memᴰ}
use mathlib.Core.List.Memᴰ
use sentinelops_ai.Prelude.{
  String, ◌≡◌, refl, ap, ◌↔◌, ◌⊎◌, inl, inr, true, List, [], ◌∷◌, arith, eq_iff, string_eq, any_of,
  Bool-cases,
}
use sentinelops_ai.Incident.Domain.{Incident}
use sentinelops_ai.Incident.Topology.{
  IncidentCorrelation, joins, add_link, link_before, insert_link, sort_links,
}

-- A link of two ids is in the list.
abbrev pub HasLink : String → String → List IncidentCorrelation → Type 0
HasLink x y links =
    (l : IncidentCorrelation) × Memᴰ l links × (l.incident_id ≡ x) × (l.related_incident_id ≡ y)

pub joins-HasLink :
    (a b : Incident) (links : List IncidentCorrelation)
    → any_of (joins a b) links ≡ true
    → HasLink a.id b.id links
joins-HasLink a b [] h = ground arith
joins-HasLink a b (l ∷ ls) h = elim (Bool-cases (joins a b l)) [
  | inl e ↦ (
    l,
    Memᴰ.head refl,
    ground (arith, e, eq_iff l.incident_id a.id),
    ground (arith, e, eq_iff l.related_incident_id b.id),
  )
  | inr e ↦ let (k, m, p, q) = joins-HasLink a b ls (ground (arith, h, e)) in (k, Memᴰ.tail m, p, q)
]

pub add_link-keeps :
    (x y : String) (links : List IncidentCorrelation) (a b : Incident)
    → HasLink x y links
    → HasLink x y (add_link links (a, b))
unfolding add_link
add_link-keeps x y links a b (l, m, p, q) = elim (Bool-cases (any_of (joins a b) links)) [
  | inl e ↦ rw e (l, m, p, q)
  | inr e ↦ rw e (l, Memᴰ.append_left _ m, p, q)
]

pub add_link-hit :
    (links : List IncidentCorrelation) (a b : Incident) → HasLink a.id b.id (add_link links (a, b))
unfolding add_link
add_link-hit links a b = elim (Bool-cases (any_of (joins a b) links)) [
  | inl e ↦ rw e (joins-HasLink a b links e)
  | inr e ↦ rw e (
    record { incident_id = a.id; related_incident_id = b.id; relation_type = "dependency" },
    Memᴰ.append_right links (Memᴰ.head refl),
    refl,
    refl,
  )
]

pub add_link-from :
    (links : List IncidentCorrelation) (a b : Incident) (l : IncidentCorrelation)
    → Memᴰ l (add_link links (a, b))
    → Memᴰ l links ⊎ ((l.incident_id ≡ a.id) × (l.related_incident_id ≡ b.id))
unfolding add_link
add_link-from links a b l m = elim (Bool-cases (any_of (joins a b) links)) [
  | inl e ↦ inl (rw e at m)
  | inr e ↦ elim (Memᴰ.append_cases links (rw e at m)) [
    | inl old ↦ inl old
    | inr new ↦
        let is = Memᴰ.eq_of_singleton new in
        inr (ap (λ k. k.incident_id) is, ap (λ k. k.related_incident_id) is)
  ]
]

-- Adding links to a list and sorting it
insert_link_iff :
    (l m : IncidentCorrelation) (ms : List IncidentCorrelation)
    → Memᴰ l (insert_link m ms) ↔ Memᴰ l (m ∷ ms)
unfolding insert_link
insert_link_iff l m [] = (λ h. h, λ h. h)
insert_link_iff l m (k ∷ ks) = elim (Bool-cases (link_before k m)) [
  | inr e ↦ (λ h. rw e at h, λ h. rw e h)
  | inl e ↦
      let (from, into) = insert_link_iff l m ks in
      (
        (λ h. elim (Memᴰ.cases_cons (rw e at h)) [
          | inl is ↦ Memᴰ.tail (Memᴰ.head is)
          | inr rest ↦ elim (Memᴰ.cases_cons (from rest)) [
            | inl is ↦ Memᴰ.head is
            | inr old ↦ Memᴰ.tail (Memᴰ.tail old)
          ]
        ]),
        (λ h. rw e (elim (Memᴰ.cases_cons h) [
          | inl is ↦ Memᴰ.tail (into (Memᴰ.head is))
          | inr rest ↦ elim (Memᴰ.cases_cons rest) [
            | inl is ↦ Memᴰ.head is
            | inr old ↦ Memᴰ.tail (into (Memᴰ.tail old))
          ]
        ])),
      )
]

pub sort_links_iff :
    (l : IncidentCorrelation) (ls : List IncidentCorrelation) → Memᴰ l (sort_links ls) ↔ Memᴰ l ls
unfolding sort_links
sort_links_iff l [] = (λ h. h, λ h. h)
sort_links_iff l (k ∷ ks) =
    let (from, into) = sort_links_iff l ks in
    let (out, back) = insert_link_iff l k (sort_links ks) in
    (
      (λ h. elim (Memᴰ.cases_cons (out h)) [
        | inl is ↦ Memᴰ.head is
        | inr rest ↦ Memᴰ.tail (from rest)
      ]),
      (λ h. elim (Memᴰ.cases_cons h) [
        | inl is ↦ back (Memᴰ.head is)
        | inr rest ↦ back (Memᴰ.tail (into rest))
      ]),
    )
