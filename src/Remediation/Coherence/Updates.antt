-- ===== src/Remediation/Coherence/Updates.antt =====
-- A write of one record, against the invariant.
use sentinelops_ai.Prelude.{
  ℕ, ◌+◌, String, ◌≡◌, refl, sym, ◌∙◌, ap, subst, Bool, true, false, Option, none, some, List, [],
  ◌∷◌, ◌++◌, string_eq, ◌==◌, if◌then◌else◌, arith, eq_iff, Bool-cases, inl, inr,
}
use sentinelops_ai.Prelude.Dict.{Dict, lookup}
use sentinelops_ai.Remediation.Enums.{RemediationStatus}
use sentinelops_ai.Remediation.Audit.{AuditEvent}
use sentinelops_ai.Remediation.Record.{RemediationRecord, status_of}
use sentinelops_ai.Remediation.Repository.{Store}
use sentinelops_ai.Remediation.Coherence.{
  Evidence, last_state, starts, runs, NoRecord, RecordOk, IsCoherent,
}

abbrev pub or_else : Option RemediationStatus → Option RemediationStatus → Option RemediationStatus
or_else (some s) o = some s
or_else none o = o

pub last_state-append :
    (rid : String) (xs ys : List AuditEvent)
    → last_state rid (xs ++ ys) ≡ or_else (last_state rid ys) (last_state rid xs)
unfolding last_state
last_state-append rid [] ys = ground arith
last_state-append rid (e ∷ xs) ys = ground (arith, last_state-append rid xs ys)

starts-append :
    (rid : String) (xs ys : List AuditEvent) → starts rid (xs ++ ys) ≡ starts rid xs + starts rid ys
unfolding starts
starts-append rid [] ys = ground arith
starts-append rid (e ∷ xs) ys = ground (arith, starts-append rid xs ys)

-- `s'` is `s` with the record `u`, its rows and its trail in the place of those of `rid`.
pub record Updated (s : Store) (rid : String) (u : RemediationRecord) (s' : Store) : Type 0 where
  pub records :
      (j : String) → lookup j s'.records ≡ (if rid == j then some u else lookup j s.records)
  pub executions :
      (j : String)
      → lookup j s'.executions ≡ (if rid == j then u.execution else lookup j s.executions)
  pub verifications :
      (j : String)
      → lookup j s'.verifications ≡ (if rid == j then u.verification else lookup j s.verifications)
  pub trail :
      (j : String)
      → last_state j s'.audit ≡ (if rid == j then some (status_of u) else last_state j s.audit)
  pub started :
      (j : String) → starts j s'.audit ≡ (if rid == j then runs u.execution else starts j s.audit)

-- Of the four equations of an update, the part that holds for the record itself, and for another.
module _ {ℓ} {A : Type ℓ} (x y : A) {o : A} {b : Bool} where
  chosen : o ≡ (if b then x else y) → b ≡ true → o ≡ x
  chosen h t = h ∙ ap (λ c. if c then x else y) t

  passed_over : o ≡ (if b then x else y) → b ≡ false → o ≡ y
  passed_over h t = h ∙ ap (λ c. if c then x else y) t

module _ {s s' : Store} {rid : String} {u : RemediationRecord} (h : IsCoherent s)
    (c : Updated s rid u s') where
  stored_after :
      u.proposal.remediation_id ≡ rid
      → Evidence (status_of u) u
      → (j : String) (r : RemediationRecord) → lookup j s'.records ≡ some r
      → RecordOk j r s'
  stored_after id e j r l = elim (Bool-cases (rid == j)) [
    | inl t ↦
        let is_u : u ≡ r = cc (chosen _ _ (c.records j) t, l) in
        subst (λ x. RecordOk j x s') is_u
          (record {
            id = id ∙ (eq_iff rid j).0 t;
            evidence = e;
            execution = chosen _ _ (c.executions j) t;
            verification = chosen _ _ (c.verifications j) t;
            trail = chosen _ _ (c.trail j) t;
            started = chosen _ _ (c.started j) t;
          })
    | inr f ↦
        let before = h.stored j r (sym (passed_over _ _ (c.records j) f) ∙ l) in
        record {
          id = before.id;
          evidence = before.evidence;
          execution = passed_over _ _ (c.executions j) f ∙ before.execution;
          verification = passed_over _ _ (c.verifications j) f ∙ before.verification;
          trail = passed_over _ _ (c.trail j) f ∙ before.trail;
          started = passed_over _ _ (c.started j) f ∙ before.started;
        }
  ]

  absent_after : (j : String) → lookup j s'.records ≡ none → NoRecord j s'
  absent_after j l = elim (Bool-cases (rid == j)) [
    | inl t ↦ absurd (cc (chosen _ _ (c.records j) t, l))
    | inr f ↦
        let before = h.absent j (sym (passed_over _ _ (c.records j) f) ∙ l) in
        record {
          execution = passed_over _ _ (c.executions j) f ∙ before.execution;
          verification = passed_over _ _ (c.verifications j) f ∙ before.verification;
          started = passed_over _ _ (c.started j) f ∙ before.started;
        }
  ]

  pub Updated-IsCoherent :
      u.proposal.remediation_id ≡ rid → Evidence (status_of u) u → IsCoherent s'
  Updated-IsCoherent id e = record { stored = stored_after id e; absent = absent_after }

-- The events `es` are of the remediation `rid` alone, end in `st` and start `n` executions.
pub record Trailed (rid : String) (st : RemediationStatus) (n : ℕ) (es : List AuditEvent)
    : Type 0 where
  pub last : (j : String) → last_state j es ≡ (if rid == j then some st else none)
  pub start : (j : String) → starts j es ≡ (if rid == j then n else 0)

either_way :
    (b : Bool) (x : Option RemediationStatus) (st : RemediationStatus)
    → or_else (if b then some st else none) x ≡ (if b then some st else x)
either_way true x st = refl
either_way false x st = refl

pub trail-append :
    (rid : String) (st : RemediationStatus) (audit es : List AuditEvent)
    → ((j : String) → last_state j es ≡ (if rid == j then some st else none))
    → (j : String) → last_state j (audit ++ es) ≡ (if rid == j then some st else last_state j audit)
trail-append rid st audit es t j =
    last_state-append j audit es
    ∙ ap (λ o. or_else o (last_state j audit)) (t j)
    ∙ either_way (rid == j) (last_state j audit) st

pub start-append :
    (rid : String) (n m : ℕ) (audit es : List AuditEvent)
    → ((j : String) → starts j es ≡ (if rid == j then n else 0))
    → starts rid audit + n ≡ m
    → (j : String) → starts j (audit ++ es) ≡ (if rid == j then m else starts j audit)
start-append rid n m audit es t q j = ground (arith, starts-append j audit es, t j, q, eq_iff rid j)

pub unchanged_row {ℓ} :
    {A : Type ℓ} (rid : String) (o : Option A) (d : Dict A)
    → lookup rid d ≡ o
    → (j : String) → lookup j d ≡ (if rid == j then o else lookup j d)
unchanged_row rid o d h j = elim (Bool-cases (rid == j)) [
  | inl t ↦
      ap (λ k. lookup k d) (sym ((eq_iff rid j).0 t))
      ∙ h
      ∙ ap (λ c. if c then o else lookup j d) (sym t)
  | inr f ↦ ap (λ c. if c then o else lookup j d) (sym f)
]
