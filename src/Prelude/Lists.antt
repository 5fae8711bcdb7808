-- ===== src/Prelude/Lists.antt =====
-- Lists over the native numbers, membership as a Boolean test, and predicates on all items.
use Prim.Native.Nat.{ℕ, zero, suc, ◌+◌}
use mathlib.Core.Path.{◌≡◌, refl, subst}
use mathlib.Core.Bool.{Bool, true, false, ◌&&◌, ◌||◌}
use mathlib.Core.List.{List, [], ◌∷◌, ◌++◌, Memᴰ}
use mathlib.Core.List.Memᴰ
use native.Mathlib.Omega.{arith}
use mathlib.Core.Logic.{◌↔◌, inl, inr}
use sentinelops_ai.Prelude.Tests.{Eq, ◌==◌, if◌then◌else◌, Bool-cases}

module _ {ℓ} {A : Type ℓ} where
  abbrev pub length : List A → ℕ
  length [] = 0
  length (x ∷ xs) = suc (length xs)

  abbrev pub take : ℕ → List A → List A
  take zero xs = []
  take (suc n) [] = []
  take (suc n) (x ∷ xs) = x ∷ take n xs

  abbrev pub drop : ℕ → List A → List A
  drop zero xs = xs
  drop (suc n) [] = []
  drop (suc n) (x ∷ xs) = drop n xs

  -- Whether a test holds of all items, or of some item.
  abbrev pub all_of : (A → Bool) → List A → Bool
  all_of p [] = true
  all_of p (x ∷ xs) = p x && all_of p xs

  abbrev pub any_of : (A → Bool) → List A → Bool
  any_of p [] = false
  any_of p (x ∷ xs) = p x || any_of p xs

  -- The items that pass a test, in order.
  abbrev pub keep_if : (A → Bool) → List A → List A
  keep_if p [] = []
  keep_if p (x ∷ xs) = let rest = keep_if p xs in if p x then x ∷ rest else rest

  abbrev pub is_empty : List A → Bool
  is_empty [] = true
  is_empty (x ∷ xs) = false

  pub ++-eq-[] : (xs ys : List A) → xs ++ ys ≡ [] → (xs ≡ []) × (ys ≡ [])
  ++-eq-[] [] ys h = (refl, h)
  ++-eq-[] (x ∷ xs) ys h = ground arith

  pub length-append : (xs ys : List A) → length (xs ++ ys) ≡ length xs + length ys
  length-append [] ys = omega arith
  length-append (x ∷ xs) ys = omega (arith, length-append xs ys)

module _ {ℓ} {A : Type ℓ} ⦃e : Eq A⦄ where
  -- Python's `a in xs`.
  abbrev pub elem : A → List A → Bool
  elem a [] = false
  elem a (x ∷ xs) = a == x || elem a xs

  pub elem-append : (a : A) (xs ys : List A) → elem a (xs ++ ys) ≡ (elem a xs || elem a ys)
  elem-append a [] ys = refl
  elem-append a (x ∷ xs) ys = ground (arith, elem-append a xs ys)

  pub elem_iff : (a : A) (xs : List A) → (elem a xs ≡ true) ↔ Memᴰ a xs
  elem_iff a [] = (λ h. ground arith, λ m. absurd (Memᴰ.not-nil m))
  elem_iff a (x ∷ xs) = elim (Bool-cases (a == x)) [
    | inl t ↦ (λ h. Memᴰ.head ((e.test_iff a x).0 t), λ m. rw t refl)
    | inr f ↦ (
      (λ h. Memᴰ.tail ((elem_iff a xs).0 (rw f at h))),
      (λ m. elim (Memᴰ.cases_cons m) [
        | inl is ↦ ground (arith, f, is, (e.test_iff a x).1)
        | inr rest ↦ rw f ((elem_iff a xs).1 rest)
      ]),
    )
  ]

-- A predicate that holds of all items.
abbrev pub Every {ℓ κ} : {A : Type ℓ} → (A → Type κ) → List A → Type κ
Every P [] = Unit
Every P (x ∷ xs) = P x × Every P xs

pub Every-append {ℓ κ} :
    {A : Type ℓ} (P : A → Type κ) (xs ys : List A) → Every P xs → Every P ys → Every P (xs ++ ys)
Every-append P [] ys h k = k
Every-append P (x ∷ xs) ys (p, h) k = (p, Every-append P xs ys h k)

pub append-Every {ℓ κ} :
    {A : Type ℓ} (P : A → Type κ) (xs ys : List A) → Every P (xs ++ ys) → Every P xs × Every P ys
append-Every P [] ys h = (tt, h)
append-Every P (x ∷ xs) ys (p, h) = let (l, r) = append-Every P xs ys h in ((p, l), r)

pub Every-map {ℓ κ μ} :
    {A : Type ℓ} (P : A → Type κ) (Q : A → Type μ) (xs : List A)
    → ((x : A) → P x → Q x)
    → Every P xs
    → Every Q xs
Every-map P Q [] f h = tt
Every-map P Q (x ∷ xs) f (p, h) = (f x p, Every-map P Q xs f h)

-- No item fails the test.
pub keep_if_none {ℓ} :
    {A : Type ℓ} (p : A → Bool) (xs : List A) → (keep_if p xs ≡ []) ↔ Every (λ x. p x ≡ false) xs
keep_if_none p [] = (λ h. tt, λ h. refl)
keep_if_none p (x ∷ xs) = elim (Bool-cases (p x)) [
  | inl e ↦ (λ h. ground arith, λ h. ground arith)
  | inr e ↦ (λ h. (e, (keep_if_none p xs).0 (rw e at h)), λ h. rw e ((keep_if_none p xs).1 h.1))
]

pub keep_if-Every {ℓ} :
    {A : Type ℓ} (p : A → Bool) (xs : List A) → Every (λ x. p x ≡ true) (keep_if p xs)
keep_if-Every p [] = tt
keep_if-Every p (x ∷ xs) = elim (Bool-cases (p x)) [
  | inl e ↦ rw e (e, keep_if-Every p xs)
  | inr e ↦ rw e (keep_if-Every p xs)
]

-- `for x in xs: s = f(s, x)`
abbrev pub each {ℓ κ} : {A : Type ℓ} {S : Type κ} → (S → A → S) → S → List A → S
each f s [] = s
each f s (x ∷ xs) = each f (f s x) xs

-- What every round keeps, the loop keeps; what one round establishes as well, the loop reaches.
pub each-keeps {ℓ κ μ} :
    {A : Type ℓ} {S : Type κ} (P : S → Type μ) (f : S → A → S) (xs : List A) (s : S)
    → ((s : S) (x : A) → Memᴰ x xs → P s → P (f s x))
    → P s
    → P (each f s xs)
each-keeps P f [] s keep p = p
each-keeps P f (x ∷ xs) s keep p =
    each-keeps P f xs (f s x) (λ s y m. keep s y (Memᴰ.tail m)) (keep s x (Memᴰ.head refl) p)

pub each-reaches {ℓ κ μ} :
    {A : Type ℓ} {S : Type κ} (P : S → Type μ) (f : S → A → S) (xs : List A) (s : S) (a : A)
    → ((s : S) (x : A) → P s → P (f s x))
    → ((s : S) → P (f s a))
    → Memᴰ a xs
    → P (each f s xs)
each-reaches P f [] s a keep hit m = absurd (Memᴰ.not-nil m)
each-reaches P f (x ∷ xs) s a keep hit m = elim (Memᴰ.cases_cons m) [
  | inl e ↦ each-keeps P f xs (f s x) (λ s y m. keep s y) (subst (λ y. P (f s y)) e (hit s))
  | inr rest ↦ each-reaches P f xs (f s x) a keep hit rest
]
