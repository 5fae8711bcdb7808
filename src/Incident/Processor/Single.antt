-- ===== src/Incident/Processor/Single.antt =====
-- The active incidents of a correlation key, counted, against the writes of the processor.
use sentinelops_ai.Prelude.{
  ℕ, ◌+◌, ◌≤◌, String, ◌≡◌, refl, sym, ap, ◌∙◌, subst, Bool, true, false, ◌&&◌, none, some, [], ◌∷◌,
  string_eq, ◌==◌, arith, eq_iff, Bool-cases, inl, inr,
}
use sentinelops_ai.Prelude.Dict.{
  Dict, lookup, insert, lookup-insert, one_if, count_where, old_count, count_where-insert,
}
use sentinelops_ai.Incident.Domain.{
  AnomalySignal, Incident, is_active, correlation_key, incident_status_eq,
}
use sentinelops_ai.Incident.Severity.{SeverityConfig}
use sentinelops_ai.Incident.Absorb.{absorb, aggregate, new_incident, auto_resolve}
use sentinelops_ai.Incident.Processor.{holds, lock_active, update_incident}

-- How many incidents are active under a key
unfoldable pub active_under : String → Dict Incident → ℕ
unfolding count_where
active_under key d = count_where (holds key) d

-- Every incident stands under its own id, once.
abbrev pub Keyed : Dict Incident → Type 0
Keyed [] = Unit {0}
Keyed ((j, i) ∷ d) = (i.id ≡ j) × (lookup j d ≡ none) × Keyed d

active_under-insert :
    (key j : String) (i : Incident) (d : Dict Incident)
    → active_under key (insert j i d) + old_count (holds key) (lookup j d)
      ≡ active_under key d + one_if (holds key i)
unfolding active_under
active_under-insert key j i d = count_where-insert (holds key) j i d

insert-Keyed :
    (j : String) (i : Incident) (d : Dict Incident) → i.id ≡ j → Keyed d → Keyed (insert j i d)
unfolding insert lookup
insert-Keyed j i [] q k = (q, refl, tt)
insert-Keyed j i ((m, o) ∷ d) q (own, once, rest) = elim (Bool-cases (m == j)) [
  | inl b ↦ rw b (q, ap (λ x. lookup x d) (sym ((eq_iff m j).0 b)) ∙ once, rest)
  | inr b ↦ rw b (
    own,
    lookup-insert j m i d ∙ ground (arith, once, eq_iff j m, eq_iff m j, b),
    insert-Keyed j i d q rest,
  )
]

pub lock_active-none :
    (key : String) (d : Dict Incident) → lock_active key d ≡ none → active_under key d ≡ 0
unfolding lock_active active_under count_where
lock_active-none key [] h = refl
lock_active-none key ((j, i) ∷ d) h = ground (arith, h, lock_active-none key d)

pub lock_active-some :
    (key : String) (d : Dict Incident) (i : Incident)
    → Keyed d
    → lock_active key d ≡ some i
    → (lookup i.id d ≡ some i) × (holds key i ≡ true)
unfolding lock_active lookup
lock_active-some key [] i k h = absurd (cc h)
lock_active-some key ((j, o) ∷ d) i (own, once, rest) h = elim (Bool-cases (holds key o)) [
  | inl b ↦
      let same : o ≡ i = ground (arith, h, b) in
      subst (λ x. (lookup x.id ((j, o) ∷ d) ≡ some x) × (holds key x ≡ true)) same
        (ground (arith, own, eq_iff j o.id), b)
  | inr b ↦
      let (l, e) = lock_active-some key d i rest (ground (arith, h, b)) in
      (ground (arith, l, once, eq_iff j i.id), e)
]

pub record IsSingle (d : Dict Incident) : Type 0 where
  pub keyed : Keyed d
  pub single : (key : String) → active_under key d ≤ 1

never : (b : Bool) → one_if (b && false) ≡ 0
never true = refl
never false = refl

-- A resolution takes one from the key of what was active, and nothing from the others.
pub quiet_count :
    (d : Dict Incident) (i : Incident) (now : ℕ) (key : String)
    → lookup i.id d ≡ some i
    → active_under key (update_incident (auto_resolve i now) d) + one_if (holds key i)
      ≡ active_under key d
unfolding update_incident auto_resolve holds is_active
quiet_count d i now key l =
    let new = auto_resolve i now in
    let count = ap (λ o. active_under key (insert i.id new d) + old_count (holds key) o) l in
    omega (arith, active_under-insert key i.id new d, count, never (i.correlation_key == key))

module _ (cfg : SeverityConfig) (a : AnomalySignal) (fresh : String) (now : ℕ) where
  -- An incident that is extended stays under its key, and one that is resolved leaves it.
  pub extended-IsSingle :
      (d : Dict Incident) (i : Incident)
      → IsSingle d
      → lookup i.id d ≡ some i
      → IsSingle (update_incident (absorb cfg i a now) d)
  unfolding update_incident absorb aggregate holds
  extended-IsSingle d i s l =
      let new = absorb cfg i a now in
      record {
        keyed = insert-Keyed i.id new d refl s.keyed;
        single = λ key.
            let before = active_under-insert key i.id new d in
            let count =
              ap (λ o. active_under key (insert i.id new d) + old_count (holds key) o) l in
            omega (arith, before, count, s.single key);
      }

  -- What the key of the anomaly, and the others, hold after the resolution
  pub quiet-IsSingle :
      (d : Dict Incident) (i : Incident)
      → IsSingle d
      → lookup i.id d ≡ some i
      → IsSingle (update_incident (auto_resolve i now) d)
  unfolding update_incident auto_resolve holds is_active
  quiet-IsSingle d i s l = record {
    keyed = insert-Keyed i.id (auto_resolve i now) d refl s.keyed;
    single = λ key. omega (arith, quiet_count d i now key l, s.single key);
  }

  pub opened-IsSingle :
      (d : Dict Incident)
      → IsSingle d
      → active_under (correlation_key a.service a.environment) d ≡ 0
      → lookup fresh d ≡ none
      → IsSingle (insert fresh (new_incident cfg a fresh now) d)
  unfolding new_incident absorb aggregate holds is_active
  opened-IsSingle d s z l =
      let new = new_incident cfg a fresh now in
      record {
        keyed = insert-Keyed fresh new d refl s.keyed;
        single = λ key.
            let before = active_under-insert key fresh new d in
            let count =
              ap (λ o. active_under key (insert fresh new d) + old_count (holds key) o) l in
            elim (Bool-cases (correlation_key a.service a.environment == key)) [
              | inl b ↦
                  let none_yet = subst (λ k. active_under k d ≡ 0) ((eq_iff _ key).0 b) z in
                  let new_one = ap (λ c. one_if (c && true)) b in
                  omega (arith, before, count, none_yet, new_one)
              | inr b ↦
                  let no_new = ap (λ c. one_if (c && true)) b in
                  omega (arith, before, count, no_new, s.single key)
            ];
      }
