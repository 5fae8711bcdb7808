-- ===== src/Remediation/Repository/Snapshot.antt =====
-- What `history_snapshot` sees of the stored remediations of the same kind.
use sentinelops_ai.Prelude.{
  ℕ, ◌≤◌, String, ◌≡◌, refl, true, Option, none, some, List, [], ◌∷◌, arith, elem, string_eq, ◌==◌,
  ltb, if◌then◌else◌, Bool-cases, Option-cases, ltb→lt, subst, sym, ap, ◌∙◌, inl, inr,
}
use sentinelops_ai.Prelude.Dict.{Dict, lookup, values}
use sentinelops_ai.Remediation.Enums.{RemediationActionType, status_eq}
use sentinelops_ai.Remediation.Target.{ServiceTarget, RemediationApproval}
use sentinelops_ai.Remediation.Policy.{History}
use sentinelops_ai.Remediation.Record.{RemediationRecord, status_of}
use sentinelops_ai.Remediation.Repository.{
  Store, active_statuses, cooldown_anchor_statuses, same_kind, note_record, note_records,
  history_snapshot, anchor, latest,
}

abbrev pub Reaches : ℕ → Option ℕ → Type 0
Reaches t none = ⊥
Reaches t (some u) = t ≤ u

latest_stays : (last : Option ℕ) (v u : ℕ) → Reaches u last → Reaches u (latest last v)
latest_stays none v u e = absurd e
latest_stays (some x) v u e = elim (Bool-cases (ltb x v)) [
  | inl b ↦ rw b (omega (arith, ltb→lt x v b))
  | inr b ↦ rw b e
]

latest_reaches : (last : Option ℕ) (v : ℕ) → Reaches v (latest last v)
latest_reaches none v = omega arith
latest_reaches (some x) v = elim (Bool-cases (ltb x v)) [
  | inl b ↦ rw b (omega arith)
  | inr b ↦ rw b (ground (arith, b))
]

anchor_stays :
    (r : RemediationRecord) (last : Option ℕ) (u : ℕ) → Reaches u last → Reaches u (anchor r last)
unfolding anchor
anchor_stays r last u e = elim (Option-cases r.approval) [
  | inl n ↦ rw n e
  | inr (a, q) ↦ rw q (elim (Bool-cases (elem (status_of r) cooldown_anchor_statuses)) [
    | inl b ↦ rw b (latest_stays last a.decided_at u e)
    | inr b ↦ rw b e
  ])
]

anchor_reaches :
    (r : RemediationRecord) (last : Option ℕ) (a : RemediationApproval)
    → r.approval ≡ some a
    → elem (status_of r) cooldown_anchor_statuses ≡ true
    → Reaches a.decided_at (anchor r last)
unfolding anchor
anchor_reaches r last a q b = rw q (rw b (latest_reaches last a.decided_at))

module _ (incident : String) (action : RemediationActionType) (t : ServiceTarget) where
  active_round :
      (h : History) (r : RemediationRecord)
      → h.active_exists ≡ true
      → (note_record incident action t h r).active_exists ≡ true
  unfolding note_record
  active_round h r e = ground (arith, e)

  active_stays :
      (h : History) (rs : List RemediationRecord)
      → h.active_exists ≡ true
      → (note_records incident action t h rs).active_exists ≡ true
  unfolding note_records
  active_stays h [] e = e
  active_stays h (r ∷ rs) e =
      active_stays (note_record incident action t h r) rs (active_round h r e)

  last_round :
      (h : History) (r : RemediationRecord) (u : ℕ)
      → Reaches u h.last_completed
      → Reaches u (note_record incident action t h r).last_completed
  unfolding note_record
  last_round h r u e = elim (Bool-cases (same_kind incident action t r.proposal)) [
    | inl b ↦ rw b (anchor_stays r h.last_completed u e)
    | inr b ↦ rw b e
  ]

  last_stays :
      (h : History) (rs : List RemediationRecord) (u : ℕ)
      → Reaches u h.last_completed
      → Reaches u (note_records incident action t h rs).last_completed
  unfolding note_records
  last_stays h [] u e = e
  last_stays h (r ∷ rs) u e =
      last_stays (note_record incident action t h r) rs u (last_round h r u e)

  -- What the snapshot has seen of a record of the same kind
  pub record Seen (r : RemediationRecord) (h : History) : Type 0 where
    pub active : elem (status_of r) active_statuses ≡ true → h.active_exists ≡ true
    pub decided :
        (a : RemediationApproval)
        → r.approval ≡ some a
        → elem (status_of r) cooldown_anchor_statuses ≡ true
        → Reaches a.decided_at h.last_completed

  round_sees :
      (h : History) (r : RemediationRecord)
      → same_kind incident action t r.proposal ≡ true
      → Seen r (note_record incident action t h r)
  unfolding note_record
  round_sees h r b = record {
    active = λ e. rw b (rw e refl);
    decided = λ a q e. rw b (anchor_reaches r h.last_completed a q e);
  }

  records-Seen :
      (h : History) (d : Dict RemediationRecord) (rid : String) (r : RemediationRecord)
      → lookup rid d ≡ some r
      → same_kind incident action t r.proposal ≡ true
      → Seen r (note_records incident action t h (values d))
  unfolding note_records lookup
  records-Seen h [] rid r l k = absurd (cc l)
  records-Seen h ((j, x) ∷ d) rid r l k = elim (Bool-cases (j == rid)) [
    | inl b ↦
        let same : x ≡ r = cc l in
        let now =
          subst (λ y. Seen y (note_record incident action t h x)) same
            (round_sees h x
              (subst (λ y. same_kind incident action t y.proposal ≡ true) (sym same) k)) in
        record {
          active = λ e. active_stays (note_record incident action t h x) (values d) (now.active e);
          decided = λ a q e.
              last_stays (note_record incident action t h x) (values d) a.decided_at
                (now.decided a q e);
        }
    | inr b ↦
        records-Seen (note_record incident action t h x) d rid r
          (sym (ap (λ c. if c then some x else lookup rid d) b) ∙ l) k
  ]

  pub history_snapshot-Seen :
      (s : Store) (rid : String) (r : RemediationRecord)
      → lookup rid s.records ≡ some r
      → same_kind incident action t r.proposal ≡ true
      → Seen r (history_snapshot incident action t s)
  unfolding history_snapshot
  history_snapshot-Seen s rid r l k = records-Seen _ s.records rid r l k
