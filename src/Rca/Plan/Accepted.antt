-- ===== src/Rca/Plan/Accepted.antt =====
-- engine/plan.py: what a validated plan consists of.
use sentinelops_ai.Prelude.{
  ℕ, ◌≤◌, ◌≡◌, refl, sym, ap, inl, inr, String, true, false, Option, none, some, List, [], ◌∷◌,
  ◌++◌, arith, leb, leb-false, length, length-append, Every, Every-append, Result, ok, err,
  Bool-cases,
}
use mathlib.Core.List.{append-nil, append_assoc}
use sentinelops_ai.Rca.Tools.{ToolName, Arguments, ToolRegistry, is_available, tool_named}
use sentinelops_ai.Rca.Reasoner.{PlannedCall}
use sentinelops_ai.Rca.Plan.{
  ValidatedCall, PlanValidation, is_planned, check_arguments, check_named, check_call, added,
  validate_calls, validate_plan,
}

-- A call of a tool that is there to be used, with arguments that passed the tool's own validation
abbrev pub IsUsable : ToolRegistry → ValidatedCall → Type 0
IsUsable registry c =
    (is_available (registry.get c.tool_name).availability ≡ true)
    × ((raw : Arguments) × ((registry.get c.tool_name).validated raw ≡ ok c.arguments))

-- No call has the name and the arguments of an earlier one.
abbrev pub IsDistinct : List ValidatedCall → List ValidatedCall → Type 0
IsDistinct before [] = Unit {0}
IsDistinct before (c ∷ cs) = (is_planned c before ≡ false) × IsDistinct (before ++ c ∷ []) cs

pub record IsPlan (registry : ToolRegistry) (max_calls : ℕ) (cs : List ValidatedCall) : Type 0 where
  pub bounded : length cs ≤ max_calls
  pub usable : Every (IsUsable registry) cs
  pub distinct : IsDistinct [] cs

ok_inj : {E A : Type 0} (a b : A) → ◌≡◌ {A = Result E A} (ok a) (ok b) → a ≡ b
ok_inj a b h = ground arith

module _ (registry : ToolRegistry) where
  check_arguments-Usable :
      (n : ToolName) (accepted : List ValidatedCall) (v : Result String Arguments)
      (c : ValidatedCall)
      → check_arguments n accepted v ≡ ok c
      → (c.tool_name ≡ n) × (v ≡ ok c.arguments) × (is_planned c accepted ≡ false)
  unfolding check_arguments
  check_arguments-Usable n accepted (err e) c h = ground arith
  check_arguments-Usable n accepted (ok request) c h =
      let call : ValidatedCall = record { tool_name = n; arguments = request } in
      elim (Bool-cases (is_planned call accepted)) [
        | inl e ↦ let none_left = (rw e at h) in ground arith
        | inr e ↦
            let same : call ≡ c = ok_inj call c (rw e at h) in
            (ap (λ x. x.tool_name) (sym same), ap (λ x. ok x.arguments) same, rw (← same) e)
      ]

  check_named-Usable :
      (accepted : List ValidatedCall) (raw : Arguments) (n : Option ToolName) (c : ValidatedCall)
      → check_named registry accepted raw n ≡ ok c
      → IsUsable registry c × (is_planned c accepted ≡ false)
  unfolding check_named
  check_named-Usable accepted raw none c h = ground arith
  check_named-Usable accepted raw (some n) c h =
      elim (Bool-cases (is_available (registry.get n).availability)) [
        | inr e ↦ let none_left = (rw e at h) in ground arith
        | inl e ↦
            let (name, args, new) =
              check_arguments-Usable n accepted ((registry.get n).validated raw) c (rw e at h) in
            ((rw name e, (raw, rw name args)), new)
      ]

  check_call-Usable :
      (max_calls : ℕ) (accepted : List ValidatedCall) (call : PlannedCall) (c : ValidatedCall)
      → check_call registry max_calls accepted call ≡ ok c
      → (leb max_calls (length accepted) ≡ false)
        × (IsUsable registry c × (is_planned c accepted ≡ false))
  unfolding check_call
  check_call-Usable max_calls accepted call c h =
      elim (Bool-cases (leb max_calls (length accepted))) [
        | inl e ↦ let none_left = (rw e at h) in ground arith
        | inr e ↦
            (e, check_named-Usable accepted call.arguments (tool_named call.tool) c (rw e at h))
      ]

  IsDistinct-add :
      (before cs : List ValidatedCall) (c : ValidatedCall)
      → IsDistinct before cs
      → is_planned c (before ++ cs) ≡ false
      → IsDistinct before (cs ++ c ∷ [])
  IsDistinct-add before [] c h e = (rw append-nil at e, tt)
  IsDistinct-add before (x ∷ xs) c (p, h) e =
      (p, IsDistinct-add (before ++ x ∷ []) xs c h (rw append_assoc e))

  added-IsPlan :
      (max_calls : ℕ) (v : PlanValidation) (call : PlannedCall)
      → IsPlan registry max_calls v.accepted
      → IsPlan registry max_calls (added v (check_call registry max_calls v.accepted call)).accepted
  added-IsPlan max_calls v call p =
      elim (check_call registry max_calls v.accepted call)
          as (λ r.
            (check_call registry max_calls v.accepted call ≡ r)
            → IsPlan registry max_calls (added v r).accepted) [
              | err why ↦ λ e. p
              | ok c ↦ λ e.
                  let (room, fits) = check_call-Usable max_calls v.accepted call c e in
                  record {
                    bounded = omega (
                      arith,
                      length-append v.accepted (c ∷ []),
                      leb-false max_calls (length v.accepted) room,
                    );
                    usable =
                        Every-append (IsUsable registry) v.accepted (c ∷ []) p.usable (fits.0, tt);
                    distinct = IsDistinct-add [] v.accepted c p.distinct fits.1;
                  }
            ]
        refl

  validate_calls-IsPlan :
      (max_calls : ℕ) (calls : List PlannedCall) (v : PlanValidation)
      → IsPlan registry max_calls v.accepted
      → IsPlan registry max_calls (validate_calls registry max_calls v calls).accepted
  unfolding validate_calls
  validate_calls-IsPlan max_calls [] v p = p
  validate_calls-IsPlan max_calls (call ∷ calls) v p =
      validate_calls-IsPlan max_calls calls
        (added v (check_call registry max_calls v.accepted call)) (added-IsPlan max_calls v call p)

-- Whatever the model proposes, the calls that are accepted are at most as many as allowed, each is
-- of an available tool with arguments that passed the tool's own validation, and no two have the
-- same tool and arguments.
pub validate_plan-IsPlan :
    (calls : List PlannedCall) (registry : ToolRegistry) (max_calls : ℕ)
    → IsPlan registry max_calls (validate_plan calls registry max_calls).accepted
unfolding validate_plan
validate_plan-IsPlan calls registry max_calls =
    validate_calls-IsPlan registry max_calls calls (record { accepted = []; rejected = [] })
      (record { bounded = omega arith; usable = tt; distinct = tt })
