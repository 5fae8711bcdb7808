-- ===== src/Remediation/Policy/Reasons.antt =====
-- The reason codes of a decision.
use sentinelops_ai.Prelude.{
  ◌<◌, ◌≡◌, refl, ◌⊎◌, inl, inr, Bool, true, false, ◌||◌, List, [], ◌∷◌, map, nat_eq, ◌==◌, elem,
  arith, Bool-cases, is_empty, sym, ltb, ◌∙◌, ap,
}
use sentinelops_ai.Remediation.Proposal.{RemediationProposal}
use sentinelops_ai.Remediation.Policy.Codes.{
  PolicyReasonCode, code_rank, code_eq, insert_code, sorted_codes, approval_required, policy_ok,
  code_beq_iff,
}
use sentinelops_ai.Remediation.Policy.{
  PolicyConfig, PolicyContext, PolicyViolation, allow, deny, decide_on, evaluate, run_rules, rules,
}

-- Every code of the list comes after `c`.
abbrev Above : PolicyReasonCode → List PolicyReasonCode → Type 0
Above c [] = Unit {0}
Above c (d ∷ ds) = (code_rank c < code_rank d) × Above c ds

-- The codes stand in the order of their value strings, each once.
abbrev pub IsSorted : List PolicyReasonCode → Type 0
IsSorted [] = Unit {0}
IsSorted (c ∷ cs) = Above c cs × IsSorted cs

or_again : (x y : Bool) → (x || (x || y)) ≡ (x || y)
or_again x y = ground arith

or_swap : (x y z : Bool) → (x || (y || z)) ≡ (y || (x || z))
or_swap x y z = ground arith

elem-insert_code :
    (a c : PolicyReasonCode) (cs : List PolicyReasonCode)
    → elem a (insert_code c cs) ≡ (a == c || elem a cs)
unfolding insert_code
elem-insert_code a c [] = refl
elem-insert_code a c (d ∷ ds) = elim (Bool-cases (ltb (code_rank c) (code_rank d))) [
  | inl below ↦ rw below
  | inr above ↦ elim (Bool-cases (c == d)) [
    | inl same ↦
        rw (above, same) (rw ((code_beq_iff c d).0 same) (sym (or_again (a == d) (elem a ds))))
    | inr differ ↦
        rw (above, differ) (rw (elem-insert_code a c ds) (or_swap (a == d) (a == c) (elem a ds)))
  ]
]

Above-trans :
    (a b : PolicyReasonCode) (cs : List PolicyReasonCode)
    → code_rank a < code_rank b
    → Above b cs
    → Above a cs
Above-trans a b [] h k = tt
Above-trans a b (c ∷ cs) h k = (omega arith, Above-trans a b cs h k.1)

Above-insert_code :
    (a c : PolicyReasonCode) (cs : List PolicyReasonCode)
    → code_rank a < code_rank c
    → Above a cs
    → Above a (insert_code c cs)
unfolding insert_code
Above-insert_code a c [] h k = (h, tt)
Above-insert_code a c (d ∷ ds) h k = ground (arith, Above-insert_code a c ds)

insert_code-IsSorted :
    (c : PolicyReasonCode) (cs : List PolicyReasonCode) → IsSorted cs → IsSorted (insert_code c cs)
unfolding insert_code
insert_code-IsSorted c [] s = (tt, tt)
insert_code-IsSorted c (d ∷ ds) s = ground (
  arith,
  insert_code-IsSorted c ds,
  Above-insert_code d c ds,
  Above-trans c d ds,
  code_beq_iff c d,
)

sorted_codes-IsSorted : (cs : List PolicyReasonCode) → IsSorted (sorted_codes cs)
unfolding sorted_codes
sorted_codes-IsSorted [] = tt
sorted_codes-IsSorted (c ∷ cs) = insert_code-IsSorted c (sorted_codes cs) (sorted_codes-IsSorted cs)

elem-sorted_codes :
    (a : PolicyReasonCode) (cs : List PolicyReasonCode) → elem a (sorted_codes cs) ≡ elem a cs
unfolding sorted_codes
elem-sorted_codes a [] = refl
elem-sorted_codes a (c ∷ cs) =
    elem-insert_code a c (sorted_codes cs) ∙ ap (λ b. a == c || b) (elem-sorted_codes a cs)

reasons_on :
    (vs : List PolicyViolation) (ctx : PolicyContext) (config : PolicyConfig)
    → let d = decide_on vs ctx config in
      ((d.outcome ≡ deny)
        × (is_empty d.violations ≡ false)
        × IsSorted d.reason_codes
        × ((c : PolicyReasonCode)
            → elem c d.reason_codes ≡ elem c (map (λ v. v.code) d.violations)))
      ⊎ ((d.outcome ≡ allow)
          × (is_empty d.violations ≡ true)
          × (d.reason_codes ≡ policy_ok ∷ approval_required ∷ []))
unfolding decide_on
reasons_on [] ctx config = inr (refl, refl, refl)
reasons_on (v ∷ vs) ctx config =
    let codes : List PolicyReasonCode = map (λ w. w.code) (v ∷ vs) in
    inl (refl, refl, sorted_codes-IsSorted codes, λ c. elem-sorted_codes c codes)

-- A denial's reason codes are exactly those of its violations, each once, in the order of their
-- value strings; there is at least one violation. An approval has no violation, and its codes name
-- the human approval that is still required.
pub evaluate_reasons :
    (config : PolicyConfig) (p : RemediationProposal) (ctx : PolicyContext)
    → let d = evaluate config p ctx in
      ((d.outcome ≡ deny)
        × (is_empty d.violations ≡ false)
        × IsSorted d.reason_codes
        × ((c : PolicyReasonCode)
            → elem c d.reason_codes ≡ elem c (map (λ v. v.code) d.violations)))
      ⊎ ((d.outcome ≡ allow)
          × (is_empty d.violations ≡ true)
          × (d.reason_codes ≡ policy_ok ∷ approval_required ∷ []))
unfolding evaluate
evaluate_reasons config p ctx = reasons_on (run_rules rules p ctx config) ctx config
