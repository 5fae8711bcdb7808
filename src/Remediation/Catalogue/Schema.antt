-- ===== src/Remediation/Catalogue/Schema.antt =====
-- What `validate_action_parameters` accepts.
use sentinelops_ai.Prelude.{
  ℕ, ◌≤◌, ◌≡◌, refl, ◌≢◌, subst, ◌∙◌, ap, true, false, not, none, some, List, [], ◌∷◌, map,
  string_eq, elem, keep_if, is_empty, if◌then◌else◌, arith, eq_iff, String, ok, ◌>>=◌, ◌⊎◌, inl,
  inr, Option-cases, >>=-eq-ok,
}
use sentinelops_ai.Prelude.Int.{pos}
use sentinelops_ai.Prelude.Dict.{Dict, lookup, has_key, keys, has_key-lookup}
use sentinelops_ai.Remediation.Enums.{
  RemediationActionType, restart_service, scale_service, roll_back_deployment, disable_feature_flag,
}
use sentinelops_ai.Remediation.Catalogue.{
  Value, str, int, ActionParameter, replicas_parameter, flag_key_parameter, to_revision_parameter,
  flag_pattern, revision_pattern, fullmatch, validate_one, normalize, validate_action_parameters,
  catalogue, string_type, required_parameter_names, require_action_definition,
}

validate_one-eq : (spec : ActionParameter) (x y : Value) → validate_one spec x ≡ ok y → y ≡ x
unfolding validate_one
validate_one-eq spec x y h = ground arith

replicas_ok :
    (x y : Value)
    → validate_one replicas_parameter x ≡ ok y
    → (n : ℕ) × (x ≡ int (pos n)) × (y ≡ int (pos n)) × (1 ≤ n) × (n ≤ 10)
unfolding validate_one
replicas_ok x y h = ground arith

text_ok :
    (spec : ActionParameter) (x y : Value)
    → spec.value_type ≡ string_type
    → validate_one spec x ≡ ok y
    → (s : String) × (x ≡ str s) × (y ≡ str s)
unfolding validate_one
text_ok spec x y e h = ground arith

flag_ok :
    (s : String)
    → validate_one flag_key_parameter (str s) ≡ ok (str s)
    → fullmatch flag_pattern s ≡ true
unfolding validate_one
flag_ok s h = ground arith

revision_ok :
    (s : String)
    → validate_one to_revision_parameter (str s) ≡ ok (str s)
    → fullmatch revision_pattern s ≡ true
unfolding validate_one
revision_ok s h = ground arith

-- A key that no specification names is not there, once the check for unknown keys has passed.
known_keys :
    (k : String) (names : List String) (d : Dict Value)
    → is_empty (keep_if (λ j. not (elem j names)) (keys d)) ≡ true
    → elem k names ≡ false
    → lookup k d ≡ none
unfolding lookup
known_keys k names [] h e = refl
known_keys k names ((j, v) ∷ d) h e = ground (arith, eq_iff j k, known_keys k names d)

abbrev names_of : List ActionParameter → List String
names_of specs = map (λ p. p.name) specs

-- One round of the loop that returns.
normalize_round :
    (spec : ActionParameter) (specs : List ActionParameter) (d v : Dict Value)
    → normalize (spec ∷ specs) d ≡ ok v
    → ((lookup spec.name d ≡ none) × (normalize specs d ≡ ok v))
      ⊎ ((x : Value) × (vs : Dict Value) × (lookup spec.name d ≡ some x)
          × (validate_one spec x ≡ ok x)
          × (normalize specs d ≡ ok vs)
          × (v ≡ (spec.name, x) ∷ vs))
unfolding normalize
normalize_round spec specs d v h = elim (Option-cases (lookup spec.name d)) [
  | inl e ↦ inl (e, rw (e, normalize) at h)
  | inr (x, e) ↦ inr (took x e (rw (e, normalize) at h))
]
  where
    took :
        (x : Value)
        → lookup spec.name d ≡ some x
        → (validate_one spec x >>= λ y. normalize specs d >>= λ vs. ok ((spec.name, y) ∷ vs)) ≡ ok v
        → (x : Value) × (vs : Dict Value) × (lookup spec.name d ≡ some x)
          × (validate_one spec x ≡ ok x)
          × (normalize specs d ≡ ok vs)
          × (v ≡ (spec.name, x) ∷ vs)
    took x e g =
        let (y, p, q) = >>=-eq-ok (validate_one spec x) _ g in
        let (vs, r, s) = >>=-eq-ok (normalize specs d) _ q in
        let same = validate_one-eq spec x y p in
        (x, vs, e, p ∙ ap ok same, r, ground (arith, s, same))

lookup-normalize :
    (k : String) (specs : List ActionParameter) (d v : Dict Value)
    → normalize specs d ≡ ok v
    → lookup k v ≡ (if elem k (names_of specs) then lookup k d else none)
unfolding normalize lookup
lookup-normalize k [] d v h = ground arith
lookup-normalize k (spec ∷ specs) d v h = elim (normalize_round spec specs d v h) [
  | inl (e, g) ↦ ground (arith, eq_iff k spec.name, lookup-normalize k specs d v g)
  | inr (x, vs, e, p, g, f) ↦
      rw f (ground (arith, eq_iff k spec.name, eq_iff spec.name k, lookup-normalize k specs d vs g))
]

-- What the checks of `validate_action_parameters` have established when it returns.
record Checked (a : RemediationActionType) (d v : Dict Value) : Type 0 where
  known : is_empty (keep_if (λ j. not (elem j (names_of (catalogue a).parameters))) (keys d)) ≡ true
  complete :
      is_empty (keep_if (λ k. not (has_key k d)) (required_parameter_names (catalogue a))) ≡ true
  normal : normalize (catalogue a).parameters d ≡ ok v

validate-Checked :
    (a : RemediationActionType) (d v : Dict Value)
    → validate_action_parameters a d ≡ ok v
    → Checked a d v
unfolding validate_action_parameters require_action_definition
validate-Checked a d v h = ground arith

normalize_none : (d v : Dict Value) → normalize [] d ≡ ok v → v ≡ []
unfolding normalize
normalize_none d v h = ground arith

-- The bounded schema of each action, on a normalized dictionary.
abbrev pub InSchema : RemediationActionType → Dict Value → Type 0
InSchema restart_service v = v ≡ []
InSchema scale_service v = (n : ℕ) × (v ≡ ("replicas", int (pos n)) ∷ []) × (1 ≤ n) × (n ≤ 10)
InSchema roll_back_deployment v =
    (v ≡ [])
    ⊎ ((s : String) × (v ≡ ("to_revision", str s) ∷ []) × (fullmatch revision_pattern s ≡ true))
InSchema disable_feature_flag v =
    (s : String) × (v ≡ ("flag_key", str s) ∷ []) × (fullmatch flag_pattern s ≡ true)

-- A required parameter is there.
required_there :
    (name : String) (d : Dict Value)
    → is_empty (keep_if (λ k. not (has_key k d)) (name ∷ [])) ≡ true
    → lookup name d ≢ none
required_there name d h e = ground (arith, has_key-lookup name d)

Checked-InSchema : (a : RemediationActionType) (d v : Dict Value) → Checked a d v → InSchema a v
unfolding catalogue required_parameter_names
Checked-InSchema restart_service d v c = normalize_none d v c.normal
Checked-InSchema scale_service d v c = elim (normalize_round replicas_parameter [] d v c.normal) [
  | inl (e, g) ↦ absurd (required_there "replicas" d c.complete e)
  | inr (x, vs, e, p, g, f) ↦
      let (n, q, _, lo, hi) = replicas_ok x x p in
      (n, ground (arith, f, q, normalize_none d vs g), lo, hi)
]
Checked-InSchema roll_back_deployment d v c =
    elim (normalize_round to_revision_parameter [] d v c.normal) [
      | inl (e, g) ↦ inl (normalize_none d v g)
      | inr (x, vs, e, p, g, f) ↦
          let (s, q, _) = text_ok to_revision_parameter x x refl p in
          inr (
            s,
            ground (arith, f, q, normalize_none d vs g),
            revision_ok s (subst (λ y. validate_one to_revision_parameter y ≡ ok y) q p),
          )
    ]
Checked-InSchema disable_feature_flag d v c =
    elim (normalize_round flag_key_parameter [] d v c.normal) [
      | inl (e, g) ↦ absurd (required_there "flag_key" d c.complete e)
      | inr (x, vs, e, p, g, f) ↦
          let (s, q, _) = text_ok flag_key_parameter x x refl p in
          (
            s,
            ground (arith, f, q, normalize_none d vs g),
            flag_ok s (subst (λ y. validate_one flag_key_parameter y ≡ ok y) q p),
          )
    ]

flag_valid :
    (s : String)
    → fullmatch flag_pattern s ≡ true
    → validate_one flag_key_parameter (str s) ≡ ok (str s)
unfolding validate_one
flag_valid s h = ground arith

revision_valid :
    (s : String)
    → fullmatch revision_pattern s ≡ true
    → validate_one to_revision_parameter (str s) ≡ ok (str s)
unfolding validate_one
revision_valid s h = ground arith

replicas_valid :
    (n : ℕ) → 1 ≤ n → n ≤ 10 → validate_one replicas_parameter (int (pos n)) ≡ ok (int (pos n))
unfolding validate_one
replicas_valid n lo hi = ground arith

-- A dictionary in the schema is accepted, and comes back as it is.
pub InSchema-accepted :
    (a : RemediationActionType) (v : Dict Value)
    → InSchema a v
    → validate_action_parameters a v ≡ ok v
unfolding validate_action_parameters catalogue require_action_definition lookup has_key
InSchema-accepted restart_service v h = rw h
InSchema-accepted scale_service v (n, e, lo, hi) = rw e (rw (replicas_valid n lo hi))
InSchema-accepted roll_back_deployment v (inl e) = rw e
InSchema-accepted roll_back_deployment v (inr (s, e, m)) = rw e (rw (revision_valid s m))
InSchema-accepted disable_feature_flag v (s, e, m) = rw e (rw (flag_valid s m))

known-lookup :
    (a : RemediationActionType) (d v : Dict Value) (k : String)
    → Checked a d v
    → lookup k v ≡ lookup k d
known-lookup a d v k c = ground (
  arith,
  lookup-normalize k (catalogue a).parameters d v c.normal,
  known_keys k (names_of (catalogue a).parameters) d c.known,
)

-- Parameters that are accepted come back with the same value at every key, in the bounded schema
-- of their action: none for a restart, 1 to 10 replicas for a scaling, at most a revision of safe
-- characters for a rollback, a flag key of safe characters for a flag. Validated once more, as the
-- executor does, they are accepted unchanged.
pub validate_action_parameters_sound :
    (a : RemediationActionType) (d v : Dict Value)
    → validate_action_parameters a d ≡ ok v
    → InSchema a v
      × ((k : String) → lookup k v ≡ lookup k d)
      × (validate_action_parameters a v ≡ ok v)
validate_action_parameters_sound a d v h =
    let c = validate-Checked a d v h in
    let s = Checked-InSchema a d v c in (s, λ k. known-lookup a d v k c, InSchema-accepted a v s)
