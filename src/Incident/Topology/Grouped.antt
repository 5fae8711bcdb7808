-- ===== src/Incident/Topology/Grouped.antt =====
-- topology.py: the groups of incidents by service hold the incidents, each in its service's group.
use mathlib.Core.List.{Memᴰ}
use mathlib.Core.List.Memᴰ
use sentinelops_ai.Prelude.{
  String, ◌≡◌, refl, sym, ap, subst, ◌∙◌, ◌⊎◌, inl, inr, Bool, true, false, some, List, [], ◌∷◌,
  ◌++◌, eq_iff, string_eq, ◌==◌, if◌then◌else◌, each-keeps, each-reaches, Bool-cases,
}
use sentinelops_ai.Prelude.Dict.{Dict, lookup, insert, lookup-insert}
use sentinelops_ai.Incident.Domain.{Incident}
use sentinelops_ai.Incident.Topology.{group_one, by_service, group_of, all_incidents, items_or_none}

group_of-group_one :
    (service : String) (d : Dict (List Incident)) (i : Incident)
    → group_of service (group_one d i)
      ≡ (if i.service == service then group_of i.service d ++ i ∷ [] else group_of service d)
unfolding group_of group_one
group_of-group_one service d i =
    ap items_or_none
      (lookup-insert i.service service (items_or_none (lookup i.service d) ++ i ∷ []) d)
    ∙ chosen (i.service == service)
  where
    chosen :
        (b : Bool)
        → items_or_none
            (if b then some (items_or_none (lookup i.service d) ++ i ∷ []) else lookup service d)
          ≡ (if b
              then items_or_none (lookup i.service d) ++ i ∷ []
              else items_or_none (lookup service d))
    chosen true = refl
    chosen false = refl

-- An incident of a group is one of the list, and the group is that of its service.
abbrev GroupSound : List Incident → Dict (List Incident) → Type 0
GroupSound incidents d =
    (service : String) (x : Incident)
    → Memᴰ x (group_of service d)
    → Memᴰ x incidents × (x.service ≡ service)

group_one_sound :
    (incidents : List Incident) (d : Dict (List Incident)) (i : Incident)
    → Memᴰ i incidents
    → GroupSound incidents d
    → GroupSound incidents (group_one d i)
group_one_sound incidents d i here sound service x m =
    let split = subst (λ g. Memᴰ x g) (group_of-group_one service d i) m in
    elim (Bool-cases (i.service == service)) [
      | inr e ↦ sound service x (rw e at split)
      | inl e ↦
          let same = (eq_iff i.service service).0 e in
          elim (Memᴰ.append_cases (group_of i.service d) (rw e at split)) [
            | inl old ↦ let (a, b) = sound i.service x old in (a, b ∙ same)
            | inr new ↦
                let x_is = Memᴰ.eq_of_singleton new in
                (subst (λ y. Memᴰ y incidents) (sym x_is) here, ap (λ y. y.service) x_is ∙ same)
          ]
    ]

group_one-keeps :
    (d : Dict (List Incident)) (i x : Incident)
    → Memᴰ x (group_of x.service d)
    → Memᴰ x (group_of x.service (group_one d i))
group_one-keeps d i x m =
    subst (λ g. Memᴰ x g) (sym (group_of-group_one x.service d i))
      (elim (Bool-cases (i.service == x.service)) [
        | inl e ↦ rw e (
            Memᴰ.append_left (i ∷ [])
              (subst (λ s. Memᴰ x (group_of s d)) (sym ((eq_iff i.service x.service).0 e)) m))
        | inr e ↦ rw e m
      ])

group_one-hit :
    (d : Dict (List Incident)) (x : Incident) → Memᴰ x (group_of x.service (group_one d x))
group_one-hit d x =
    subst (λ g. Memᴰ x g) (sym (group_of-group_one x.service d x))
      (rw ((eq_iff x.service x.service).1 refl)
        (Memᴰ.append_right (group_of x.service d) (Memᴰ.head refl)))

pub group_of_sound : (incidents : List Incident) → GroupSound incidents (by_service incidents)
unfolding by_service group_of
group_of_sound incidents =
    each-keeps (GroupSound incidents) group_one incidents [] (group_one_sound incidents)
      (λ service x m. absurd (Memᴰ.not-nil m))

pub group_of-complete :
    (incidents : List Incident) (x : Incident)
    → Memᴰ x incidents
    → Memᴰ x (group_of x.service (by_service incidents))
unfolding by_service
group_of-complete incidents x m =
    each-reaches (λ d. Memᴰ x (group_of x.service d)) group_one incidents [] x
      (λ d i. group_one-keeps d i x) (λ d. group_one-hit d x) m

all_incidents-insert :
    (x : Incident) (s : String) (group : List Incident) (d : Dict (List Incident))
    → Memᴰ x (all_incidents (insert s group d))
    → Memᴰ x group ⊎ Memᴰ x (all_incidents d)
unfolding all_incidents insert
all_incidents-insert x s group [] m = elim (Memᴰ.append_cases group m) [
  | inl a ↦ inl a
  | inr b ↦ inr b
]
all_incidents-insert x s group ((j, g) ∷ d) m = elim (Bool-cases (j == s)) [
  | inl e ↦ elim (Memᴰ.append_cases group (rw e at m)) [
    | inl a ↦ inl a
    | inr b ↦ inr (Memᴰ.append_right g b)
  ]
  | inr e ↦ elim (Memᴰ.append_cases g (rw e at m)) [
    | inl a ↦ inr (Memᴰ.append_left (all_incidents d) a)
    | inr b ↦ elim (all_incidents-insert x s group d b) [
      | inl a ↦ inl a
      | inr c ↦ inr (Memᴰ.append_right g c)
    ]
  ]
]

all_incidents-group :
    (x : Incident) (s : String) (d : Dict (List Incident))
    → Memᴰ x (group_of s d)
    → Memᴰ x (all_incidents d)
unfolding all_incidents group_of lookup
all_incidents-group x s [] m = absurd (Memᴰ.not-nil m)
all_incidents-group x s ((j, g) ∷ d) m = elim (Bool-cases (j == s)) [
  | inl e ↦ Memᴰ.append_left (all_incidents d) (rw e at m)
  | inr e ↦ Memᴰ.append_right g (all_incidents-group x s d (rw e at m))
]

abbrev AllSound : List Incident → Dict (List Incident) → Type 0
AllSound incidents d = (x : Incident) → Memᴰ x (all_incidents d) → Memᴰ x incidents

pub all_incidents_sound : (incidents : List Incident) → AllSound incidents (by_service incidents)
unfolding by_service group_one all_incidents group_of
all_incidents_sound incidents =
    each-keeps (AllSound incidents) group_one incidents []
      (λ d i here sound x m.
        let group = group_of i.service d ++ i ∷ [] in
        elim (all_incidents-insert x i.service group d m) [
          | inr old ↦ sound x old
          | inl own ↦ elim (Memᴰ.append_cases (group_of i.service d) own) [
            | inl old ↦ sound x (all_incidents-group x i.service d old)
            | inr new ↦ subst (λ y. Memᴰ y incidents) (sym (Memᴰ.eq_of_singleton new)) here
          ]
        ])
      (λ x m. absurd (Memᴰ.not-nil m))

pub all_incidents-complete :
    (incidents : List Incident) (x : Incident)
    → Memᴰ x incidents
    → Memᴰ x (all_incidents (by_service incidents))
all_incidents-complete incidents x m =
    all_incidents-group x x.service (by_service incidents) (group_of-complete incidents x m)
