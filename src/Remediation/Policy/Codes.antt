-- ===== src/Remediation/Policy/Codes.antt =====
-- policy/codes.py: the reason codes, and `sorted({…}, key=value)` over them.
use sentinelops_ai.Prelude.{
  ℕ, ◌≡◌, ◌↔◌, true, List, [], ◌∷◌, nat_eq, Eq, ◌==◌, ltb, if◌then◌else◌, arith,
}

pub data PolicyReasonCode : Type 0 where
  policy_ok approval_required : PolicyReasonCode
  action_not_allowed target_not_allowed environment_not_allowed : PolicyReasonCode
  severity_not_allowed parameter_invalid risk_exceeded proposal_expired : PolicyReasonCode
  invalid_state cooldown_active duplicate_active : PolicyReasonCode

-- The place of a code in the order of the value strings
abbrev pub code_rank : PolicyReasonCode → ℕ
code_rank action_not_allowed = 0
code_rank approval_required = 1
code_rank cooldown_active = 2
code_rank duplicate_active = 3
code_rank environment_not_allowed = 4
code_rank invalid_state = 5
code_rank parameter_invalid = 6
code_rank policy_ok = 7
code_rank proposal_expired = 8
code_rank risk_exceeded = 9
code_rank severity_not_allowed = 10
code_rank target_not_allowed = 11

pub code_beq_iff : (a b : PolicyReasonCode) → ((code_rank a == code_rank b) ≡ true) ↔ (a ≡ b)
code_beq_iff a b = ground arith

instance abbrev pub code_eq : Eq PolicyReasonCode
code_eq = record { test = λ a b. code_rank a == code_rank b; test_iff = code_beq_iff }

unfoldable pub insert_code : PolicyReasonCode → List PolicyReasonCode → List PolicyReasonCode
insert_code c [] = c ∷ []
insert_code c (d ∷ ds) =
    let rest = insert_code c ds in
    if ltb (code_rank c) (code_rank d) then c ∷ d ∷ ds else if c == d then d ∷ ds else d ∷ rest

unfoldable pub sorted_codes : List PolicyReasonCode → List PolicyReasonCode
unfolding insert_code
sorted_codes [] = []
sorted_codes (c ∷ cs) = insert_code c (sorted_codes cs)
