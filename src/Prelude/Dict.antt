-- ===== src/Prelude/Dict.antt =====
-- Python's `dict` with string keys, as an association list in insertion order.
use Prim.Native.Nat.{ℕ, ◌+◌}
use Prim.Native.String.{String}
use mathlib.Core.Logic.{inl, inr}
use mathlib.Core.Path.{◌≡◌, refl}
use mathlib.Core.Bool.{Bool, true, false}
use mathlib.Core.Option.{Option, none, some}
use mathlib.Core.List.{List, [], ◌∷◌}
use native.Mathlib.Omega.{arith}
use text.Mathlib.TextEquality.{eq_iff}
use sentinelops_ai.Prelude.Tests.{string_eq, ◌==◌, if◌then◌else◌, Bool-cases}

abbrev pub Dict {ℓ} : Type ℓ → Type ℓ
Dict V = List (String × V)

abbrev pub one_if : Bool → ℕ
one_if true = 1
one_if false = 0

module _ {ℓ} {V : Type ℓ} where
  -- `d.get(k)`
  unfoldable pub lookup : String → Dict V → Option V
  lookup k [] = none
  lookup k ((j, v) ∷ d) = if j == k then some v else lookup k d

  -- `d[k] = v`: a key that is there keeps its place.
  unfoldable pub insert : String → V → Dict V → Dict V
  insert k v [] = (k, v) ∷ []
  insert k v ((j, w) ∷ d) = if j == k then (k, v) ∷ d else (j, w) ∷ insert k v d

  unfoldable pub has_key : String → Dict V → Bool
  has_key k [] = false
  has_key k ((j, v) ∷ d) = if j == k then true else has_key k d

  -- `d.values()`
  abbrev pub values : Dict V → List V
  values [] = []
  values ((j, v) ∷ d) = v ∷ values d

  abbrev pub keys : Dict V → List String
  keys [] = []
  keys ((j, v) ∷ d) = j ∷ keys d

  pub lookup-insert :
      (k j : String) (v : V) (d : Dict V)
      → lookup j (insert k v d) ≡ (if k == j then some v else lookup j d)
  unfolding lookup insert
  lookup-insert k j v [] = refl
  lookup-insert k j v ((i, w) ∷ d) =
      ground (arith, eq_iff k j, eq_iff i k, eq_iff i j, lookup-insert k j v d)

  pub has_key-lookup :
      (k : String) (d : Dict V) → has_key k d ≡ elim (lookup k d) [ none ↦ false | some v ↦ true ]
  unfolding has_key lookup
  has_key-lookup k [] = refl
  has_key-lookup k ((j, v) ∷ d) = ground (arith, has_key-lookup k d)

  -- How many entries pass a test
  unfoldable pub count_where : (V → Bool) → Dict V → ℕ
  count_where p [] = 0
  count_where p ((j, v) ∷ d) = one_if (p v) + count_where p d

  abbrev pub old_count : (V → Bool) → Option V → ℕ
  old_count p none = 0
  old_count p (some v) = one_if (p v)

  -- A write replaces what was counted under its key.
  pub count_where-insert :
      (p : V → Bool) (k : String) (v : V) (d : Dict V)
      → count_where p (insert k v d) + old_count p (lookup k d) ≡ count_where p d + one_if (p v)
  unfolding count_where insert lookup
  count_where-insert p k v [] = ground arith
  count_where-insert p k v ((j, w) ∷ d) = elim (Bool-cases (j == k)) [
    | inl b ↦ rw b (omega arith)
    | inr b ↦ rw b (omega (arith, count_where-insert p k v d))
  ]
