-- ===== src/Prelude/Names.antt =====
-- `sorted` of a set of texts.
use Prim.Native.Char.{code}
use text.Mathlib.TextEquality.{Char-path}
use sentinelops_ai.Prelude.{
  ℕ, ◌≤◌, String, ◌≡◌, refl, ap, ◌∙◌, subst, Bool, true, false, List, [], ◌∷◌, ◌++◌, arith, length,
  ltb, if◌then◌else◌, elem, ◌==◌, string_eq, ◌||◌, Bool-cases, inl, inr,
}

-- `a < b` on strings, by code points
unfoldable pub text_before : String → String → Bool
text_before a String.[] = false
text_before String.[] (String.◌∷◌ d b) = true
text_before (String.◌∷◌ c a) (String.◌∷◌ d b) =
    let rest = text_before a b in
    if ltb (code c) (code d) then true else if ltb (code d) (code c) then false else rest

-- A name into its place in a sorted list, unless it is there
unfoldable pub insert_name : String → List String → List String
insert_name n [] = n ∷ []
insert_name n (m ∷ ms) =
    let rest = insert_name n ms in
    if text_before n m then n ∷ m ∷ ms else if text_before m n then m ∷ rest else m ∷ ms

unfoldable pub sorted_names : List String → List String
unfolding insert_name
sorted_names [] = []
sorted_names (n ∷ ns) = insert_name n (sorted_names ns)

abbrev pub Above : String → List String → Type 0
Above n [] = Unit {0}
Above n (m ∷ ms) = text_before n m ≡ true

abbrev pub IsSorted : List String → Type 0
IsSorted [] = Unit {0}
IsSorted (n ∷ ns) = Above n ns × IsSorted ns

insert_name-Above :
    (m n : String) (ms : List String)
    → text_before m n ≡ true
    → Above m ms
    → Above m (insert_name n ms)
unfolding insert_name
insert_name-Above m n [] b a = b
insert_name-Above m n (k ∷ ks) b a = elim (Bool-cases (text_before n k)) [
  | inl c ↦ rw c b
  | inr c ↦ elim (Bool-cases (text_before k n)) [ inl d ↦ rw (c, d) a | inr d ↦ rw (c, d) a ]
]

insert_name-IsSorted : (n : String) (ms : List String) → IsSorted ms → IsSorted (insert_name n ms)
unfolding insert_name
insert_name-IsSorted n [] s = (tt, tt)
insert_name-IsSorted n (m ∷ ms) (a, s) = elim (Bool-cases (text_before n m)) [
  | inl c ↦ rw c (c, (a, s))
  | inr c ↦ elim (Bool-cases (text_before m n)) [
    | inl d ↦ rw (c, d) (insert_name-Above m n ms d a, insert_name-IsSorted n ms s)
    | inr d ↦ rw (c, d) (a, s)
  ]
]

pub sorted_names-IsSorted : (ns : List String) → IsSorted (sorted_names ns)
unfolding sorted_names
sorted_names-IsSorted [] = tt
sorted_names-IsSorted (n ∷ ns) = insert_name-IsSorted n (sorted_names ns) (sorted_names-IsSorted ns)

insert_name-first : (n : String) (ms : List String) → Above n ms → insert_name n ms ≡ n ∷ ms
unfolding insert_name
insert_name-first n [] a = refl
insert_name-first n (m ∷ ms) a = rw a refl

-- A sorted list is its own set of names.
sorted_names_fixed : (ns : List String) → IsSorted ns → sorted_names ns ≡ ns
unfolding sorted_names
sorted_names_fixed [] s = refl
sorted_names_fixed (n ∷ ns) (a, s) =
    ap (λ l. insert_name n l) (sorted_names_fixed ns s) ∙ insert_name-first n ns a

length-insert_name : (n : String) (ms : List String) → length ms ≤ length (insert_name n ms)
unfolding insert_name
length-insert_name n [] = omega arith
length-insert_name n (m ∷ ms) = ground (arith, length-insert_name n ms)

length-sorted_names-++ :
    (ns ms : List String) → length (sorted_names ms) ≤ length (sorted_names (ns ++ ms))
unfolding sorted_names
length-sorted_names-++ [] ms = omega arith
length-sorted_names-++ (n ∷ ns) ms =
    omega (arith, length-sorted_names-++ ns ms, length-insert_name n (sorted_names (ns ++ ms)))

-- A union has no fewer names than a sorted list that goes into it.
pub length-union :
    (old new : List String) → IsSorted old → length old ≤ length (sorted_names (new ++ old))
length-union old new s =
    subst (λ l. length l ≤ length (sorted_names (new ++ old))) (sorted_names_fixed old s)
      (length-sorted_names-++ new old)

neither_first :
    (p q r t : Bool)
    → (if p then true else if q then false else r) ≡ false
    → (if q then true else if p then false else t) ≡ false
    → (p ≡ false) × (q ≡ false) × (r ≡ false) × (t ≡ false)
neither_first p q r t h k = ground arith

same_number : (m n : ℕ) → ltb m n ≡ false → ltb n m ≡ false → m ≡ n
same_number m n h k = ground arith

-- Texts of which none is before the other are the same.
same_text : (a b : String) → text_before a b ≡ false → text_before b a ≡ false → a ≡ b
unfolding text_before
same_text String.[] String.[] h k = refl
same_text String.[] (String.◌∷◌ d b) h k = ground arith
same_text (String.◌∷◌ c a) String.[] h k = ground arith
same_text (String.◌∷◌ c a) (String.◌∷◌ d b) h k =
    let (p, q, r, t) =
      neither_first (ltb (code c) (code d)) (ltb (code d) (code c)) (text_before a b)
        (text_before b a) h k in
    let first = Char-path c d (same_number (code c) (code d) p q) in
    subst (λ x. String.◌∷◌ c a ≡ String.◌∷◌ x b) first
      (ap (λ y. String.◌∷◌ c y) (same_text a b r t))

elem-insert_name :
    (x n : String) (ms : List String) → elem x (insert_name n ms) ≡ (x == n || elem x ms)
unfolding insert_name
elem-insert_name x n [] = refl
elem-insert_name x n (m ∷ ms) =
    let same : text_before n m ≡ false → text_before m n ≡ false → n ≡ m = same_text n m in
    elim (Bool-cases (text_before n m)) [
      | inl c ↦ rw c refl
      | inr c ↦ elim (Bool-cases (text_before m n)) [
        | inl d ↦ rw (c, d) (ground (arith, elem-insert_name x n ms))
        | inr d ↦ rw (c, d) (rw (same c d) (ground arith))
      ]
    ]

-- A sorted set has the names that went into it.
pub elem-sorted_names : (x : String) (ns : List String) → elem x (sorted_names ns) ≡ elem x ns
unfolding sorted_names
elem-sorted_names x [] = refl
elem-sorted_names x (n ∷ ns) =
    elem-insert_name x n (sorted_names ns) ∙ ap (λ b. x == n || b) (elem-sorted_names x ns)
