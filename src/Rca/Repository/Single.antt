-- ===== src/Rca/Repository/Single.antt =====
-- repository.py: the active investigations of an incident, counted, against the operations.
use sentinelops_ai.Prelude.{
  ℕ, ◌+◌, ◌≤◌, String, ◌≡◌, refl, ap, subst, Bool, true, false, ◌&&◌, none, some, [], ◌∷◌,
  string_eq, ◌==◌, elem, arith, eq_iff, Bool-cases, inl, inr,
}
use sentinelops_ai.Prelude.Dict.{
  Dict, lookup, insert, one_if, count_where, old_count, count_where-insert,
}
use sentinelops_ai.Rca.Domain.{InvestigationStatus, is_terminal, active_statuses, status_eq}
use sentinelops_ai.Rca.Schemas.{Investigation}
use sentinelops_ai.Rca.Repository.{InvestigationStore, is_active_for, find_active}

-- How many investigations of an incident are active
abbrev pub active_count : String → InvestigationStore → ℕ
active_count incident_id store = count_where (is_active_for incident_id) store.investigations

-- The partial unique index of the database: at most one for each incident
abbrev pub IsSingle : InvestigationStore → Type 0
IsSingle store = (incident_id : String) → active_count incident_id store ≤ 1

pub find_active-none :
    (incident_id : String) (d : Dict Investigation)
    → find_active incident_id d ≡ none
    → count_where (is_active_for incident_id) d ≡ 0
unfolding find_active count_where
find_active-none incident_id [] h = refl
find_active-none incident_id ((k, i) ∷ d) h = elim (Bool-cases (is_active_for incident_id i)) [
  | inl b ↦ let none_left = (rw b at h) in ground arith
  | inr b ↦ rw b (omega (arith, find_active-none incident_id d (rw b at h)))
]

terminal-inactive :
    (s : InvestigationStatus) → is_terminal s ≡ true → elem s active_statuses ≡ false
unfolding is_terminal active_statuses
terminal-inactive s h = ground arith

never : (b : Bool) → one_if (b && false) ≡ 0
never true = refl
never false = refl

at_most_one : (b : Bool) → one_if b ≤ 1
at_most_one true = omega arith
at_most_one false = omega arith

-- An entry under a fresh id keeps one active investigation for each incident, if its own has none.
pub insert-IsSingle :
    (i : Investigation) (d : Dict Investigation)
    → ((incident_id : String) → count_where (is_active_for incident_id) d ≤ 1)
    → lookup i.id d ≡ none
    → count_where (is_active_for i.incident_id) d ≡ 0
    → (incident_id : String) → count_where (is_active_for incident_id) (insert i.id i d) ≤ 1
insert-IsSingle i d single fresh idle incident_id =
    let p = is_active_for incident_id in
    let write = count_where-insert p i.id i d in
    let count = ap (λ o. count_where p (insert i.id i d) + old_count p o) fresh in
    elim (Bool-cases (i.incident_id == incident_id)) [
      | inl b ↦
          let own =
            subst (λ x. count_where (is_active_for x) d ≡ 0) ((eq_iff _ incident_id).0 b) idle in
          omega (arith, write, count, own, at_most_one (p i))
      | inr b ↦
          let other = ap (λ c. one_if (c && elem i.status active_statuses)) b in
          omega (arith, write, count, other, single incident_id)
    ]

-- An entry that replaces another with a terminal status adds no active investigation.
pub replace-IsSingle :
    (id : String) (i old : Investigation) (d : Dict Investigation)
    → ((incident_id : String) → count_where (is_active_for incident_id) d ≤ 1)
    → lookup id d ≡ some old
    → is_terminal i.status ≡ true
    → (incident_id : String) → count_where (is_active_for incident_id) (insert id i d) ≤ 1
replace-IsSingle id i old d single stored last incident_id =
    let p = is_active_for incident_id in
    let write = count_where-insert p id i d in
    let count = ap (λ o. count_where p (insert id i d) + old_count p o) stored in
    let over =
      ap (λ c. one_if ((i.incident_id == incident_id) && c)) (terminal-inactive i.status last) in
    omega (arith, write, count, over, never (i.incident_id == incident_id), single incident_id)
