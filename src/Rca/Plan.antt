-- ===== src/Rca/Plan.antt =====
-- engine/plan.py: the validation of a plan that the model proposed.
pub mod Accepted
use sentinelops_ai.Prelude.{
  ℕ, suc, ◌≡◌, ◌↔◌, String, Bool, true, false, ◌&&◌, Option, none, some, List, [], ◌∷◌, ◌++◌, arith,
  Eq, eq_iff, string_eq, ◌==◌, elem, leb, length, if◌then◌else◌, Result, ok, err,
}
use sentinelops_ai.Rca.Tools.{
  ToolName, tool_eq, same_tool_iff, Arguments, EvidenceTool, ToolRegistry, is_available, tool_named,
}
use sentinelops_ai.Rca.Reasoner.{
  PlannedCall, Rejection, plan_full, not_registered, source_not_available, invalid_arguments,
  duplicate_call,
}

pub record ValidatedCall : Type 0 where
  pub tool_name : ToolName
  pub arguments : Arguments

pub record PlanValidation : Type 0 where
  pub accepted : List ValidatedCall
  pub rejected : List Rejection

abbrev same_arguments : Arguments → Arguments → Bool
same_arguments [] [] = true
same_arguments [] (b ∷ rest_b) = false
same_arguments (a ∷ rest_a) [] = false
same_arguments ((k, v) ∷ rest_a) ((j, w) ∷ rest_b) =
    let rest = same_arguments rest_a rest_b in k == j && v == w && rest

-- Whether `key` is in `seen`: the keys of the accepted calls, which are name and arguments.
abbrev pub same_call : ValidatedCall → ValidatedCall → Bool
same_call a b = a.tool_name == b.tool_name && same_arguments a.arguments b.arguments

abbrev pub is_planned : ValidatedCall → List ValidatedCall → Bool
is_planned c [] = false
is_planned c (a ∷ others) = let rest = is_planned c others in if same_call a c then true else rest

-- The body of the loop for one call, up to the append: a call to accept or the reason to drop it
unfoldable pub check_arguments :
    ToolName → List ValidatedCall → Result String Arguments → Result Rejection ValidatedCall
check_arguments n accepted (err message) = err invalid_arguments
check_arguments n accepted (ok request) =
    let call : ValidatedCall = record { tool_name = n; arguments = request } in
    if is_planned call accepted then err duplicate_call else ok call

unfoldable pub check_named :
    ToolRegistry → List ValidatedCall → Arguments → Option ToolName → Result Rejection ValidatedCall
unfolding check_arguments
check_named registry accepted arguments none = err not_registered
check_named registry accepted arguments (some n) =
    if is_available (registry.get n).availability
    then check_arguments n accepted ((registry.get n).validated arguments)
    else err source_not_available

unfoldable pub check_call :
    ToolRegistry → ℕ → List ValidatedCall → PlannedCall → Result Rejection ValidatedCall
unfolding check_named tool_named
check_call registry max_calls accepted call =
    if leb max_calls (length accepted)
    then err plan_full
    else check_named registry accepted call.arguments (tool_named call.tool)

abbrev added : PlanValidation → Result Rejection ValidatedCall → PlanValidation
added v (ok call) = record v { accepted = v.accepted ++ call ∷ [] }
added v (err why) = record v { rejected = v.rejected ++ why ∷ [] }

-- The loop of `validate_plan` from the calls that are left
unfoldable pub validate_calls :
    ToolRegistry → ℕ → PlanValidation → List PlannedCall → PlanValidation
unfolding check_call
validate_calls registry max_calls v [] = v
validate_calls registry max_calls v (call ∷ calls) =
    validate_calls registry max_calls (added v (check_call registry max_calls v.accepted call))
      calls

unfoldable pub validate_plan : List PlannedCall → ToolRegistry → ℕ → PlanValidation
unfolding validate_calls
validate_plan calls registry max_calls =
    validate_calls registry max_calls (record { accepted = []; rejected = [] }) calls
