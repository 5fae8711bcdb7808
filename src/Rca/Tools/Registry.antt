-- ===== src/Rca/Tools/Registry.antt =====
-- tools/registry.py and tools/base.py: what a registry that could be built holds, and what a call of a
-- tool gives.
use mathlib.Core.List.{Memᴰ}
use sentinelops_ai.Prelude.{
  ℕ, ◌≡◌, refl, sym, ◌∙◌, ap, subst, ◌∙◌, ◌⊎◌, inl, inr, String, Bool, true, false, not, ◌||◌, some,
  List, [], ◌∷◌, arith, elem, any_of, Every, keep_if, keep_if_none, is_empty, Result, ok, err,
  >>=-eq-ok, string_eq, Bool-cases, ◌==◌,
}
use sentinelops_ai.Rca.Tools.{
  ToolName, get_incident, get_incident_timeline, get_anomaly_evidence, get_related_incidents,
  get_service_metrics, get_service_health, get_recent_logs, get_traces, get_recent_deployments,
  get_service_dependencies, ToolResultStatus, is_ok, source_unavailable, invalid_input, tool_names,
  tool_eq, same_tool_iff, EvidenceTool, ToolRegistry, check_tools, entry, make_registry,
  ToolContext, Arguments, run_tool, run_valid, failure, caught, Fetched, fetched, tool_error,
  other_exception, ToolError, ToolResult, is_retriable, upstream_unavailable, ToolAvailability,
  available, unavailable,
}

ok_inj : {E A : Type 0} (a b : A) → ◌≡◌ {A = Result E A} (ok a) (ok b) → a ≡ b
ok_inj a b h = ground arith

-- Whether a tool of that name is in the list
abbrev names_tool : ToolName → List EvidenceTool → Bool
names_tool n ts = any_of (λ (t : EvidenceTool). n == t.name) ts

check_tools-read_only :
    (seen out : List ToolName) (ts : List EvidenceTool)
    → check_tools seen ts ≡ ok out
    → Every (λ (t : EvidenceTool). t.is_read_only ≡ true) ts
unfolding check_tools
check_tools-read_only seen out [] h = tt
check_tools-read_only seen out (t ∷ ts) h = elim (Bool-cases (elem t.name seen)) [
  | inl e ↦ let none_left = (rw e at h) in ground arith
  | inr e ↦ elim (Bool-cases t.is_read_only) [
    | inl f ↦ (f, check_tools-read_only (t.name ∷ seen) out ts (rw (e, f) at h))
    | inr f ↦ let none_left = (rw (e, f) at h) in ground arith
  ]
]

check_tools-elem :
    (n : ToolName) (seen out : List ToolName) (ts : List EvidenceTool)
    → check_tools seen ts ≡ ok out
    → elem n out ≡ true
    → (elem n seen || names_tool n ts) ≡ true
unfolding check_tools
check_tools-elem n seen out [] h m =
    ground (arith, subst (λ x. elem n x ≡ true) (sym (ok_inj seen out h)) m)
check_tools-elem n seen out (t ∷ ts) h m = elim (Bool-cases (elem t.name seen)) [
  | inl e ↦ let none_left = (rw e at h) in ground arith
  | inr e ↦ elim (Bool-cases t.is_read_only) [
    | inl f ↦
        let rest = check_tools-elem n (t.name ∷ seen) out ts (rw (e, f) at h) m in
        ground (arith, rest)
    | inr f ↦ let none_left = (rw (e, f) at h) in ground arith
  ]
]

entry-found :
    (d : EvidenceTool) (n : ToolName) (ts : List EvidenceTool)
    → names_tool n ts ≡ true
    → Every (λ (t : EvidenceTool). t.is_read_only ≡ true) ts
    → ((entry d n ts).name ≡ n) × ((entry d n ts).is_read_only ≡ true) × Memᴰ (entry d n ts) ts
unfolding entry
entry-found d n [] h r = ground arith
entry-found d n (t ∷ ts) h r = elim (Bool-cases (t.name == n)) [
  | inl e ↦ rw e ((same_tool_iff t.name n).0 e, r.0, Memᴰ.head refl)
  | inr e ↦
      let (a, b, c) = entry-found d n ts (ground (arith, h, e)) r.1 in rw e (a, b, Memᴰ.tail c)
]

is_empty_is : {A : Type 0} (xs : List A) → is_empty xs ≡ true → xs ≡ []
is_empty_is [] h = refl
is_empty_is (x ∷ xs) h = ground arith

not-false : {b : Bool} → not b ≡ false → b ≡ true
not-false h = ground arith

every_name : (P : ToolName → Type 0) → Every P tool_names → (n : ToolName) → P n
every_name P h get_incident = h.0
every_name P h get_incident_timeline = h.1.0
every_name P h get_anomaly_evidence = h.1.1.0
every_name P h get_related_incidents = h.1.1.1.0
every_name P h get_service_metrics = h.1.1.1.1.0
every_name P h get_service_health = h.1.1.1.1.1.0
every_name P h get_recent_logs = h.1.1.1.1.1.1.0
every_name P h get_traces = h.1.1.1.1.1.1.1.0
every_name P h get_recent_deployments = h.1.1.1.1.1.1.1.1.0
every_name P h get_service_dependencies = h.1.1.1.1.1.1.1.1.1.0

-- Whichever tools it is built from, a registry that can be built has for every tool name one of
-- them that bears this name, and that tool is read-only.
pub make_registry_complete :
    (ts : List EvidenceTool) (r : ToolRegistry)
    → make_registry ts ≡ ok r
    → (n : ToolName) → ((r.get n).name ≡ n) × ((r.get n).is_read_only ≡ true) × Memᴰ (r.get n) ts
unfolding make_registry
make_registry_complete [] r h n = ground arith
make_registry_complete (t ∷ ts) r h n =
    let (seen, e, rest) = >>=-eq-ok (check_tools [] (t ∷ ts)) _ h in
    let missing = keep_if (λ n. not (elem n seen)) tool_names in
    elim (Bool-cases (is_empty missing)) [
      | inr f ↦ let none_left = (rw f at rest) in ground arith
      | inl f ↦
          let all = (keep_if_none (λ n. not (elem n seen)) tool_names).0 (is_empty_is missing f) in
          let there = every_name (λ n. not (elem n seen) ≡ false) all n in
          let built : record { get = λ n. entry t n (t ∷ ts) } ≡ r = ok_inj _ r (rw f at rest) in
          let named = check_tools-elem n [] seen (t ∷ ts) e (not-false there) in
          subst
            (λ (x : ToolRegistry).
              ((x.get n).name ≡ n) × ((x.get n).is_read_only ≡ true) × Memᴰ (x.get n) (t ∷ ts))
            built (entry-found t n (t ∷ ts) named (check_tools-read_only [] seen (t ∷ ts) e))
    ]

availability_cases : (a : ToolAvailability) → (a ≡ available) ⊎ (a ≡ unavailable)
availability_cases available = inl refl
availability_cases unavailable = inr refl

validated_cases :
    (v : Result String Arguments)
    → ((message : String) × (v ≡ err message)) ⊎ ((request : Arguments) × (v ≡ ok request))
validated_cases (err message) = inl (message, refl)
validated_cases (ok request) = inr (request, refl)

fetched_cases :
    (v : Fetched)
    → ((r : ToolResult) × (v ≡ fetched r))
      ⊎ ((code : ToolResultStatus) × (v ≡ tool_error code))
      ⊎ (v ≡ other_exception)
fetched_cases (fetched r) = inl (r, refl)
fetched_cases (tool_error code) = inr (inl (code, refl))
fetched_cases other_exception = inr (inr refl)

module _ (t : EvidenceTool) (call : ℕ) (raw : Arguments) (ctx : ToolContext) where
  -- The tool is available and accepts the request.
  abbrev pub Accepts : Arguments → Type 0
  Accepts request = (t.availability ≡ available) × (t.validated raw ≡ ok request)

  -- The tool fetches this result for the request that it was given.
  abbrev pub Serves : ToolResult → Type 0
  Serves r = (request : Arguments) × Accepts request × ((t.fetch call request ctx).0 ≡ fetched r)

  -- A result that reports a failure of the tool and holds no evidence
  pub record IsFailure (out : ToolResult) : Type 0 where
    pub name : out.tool_name ≡ t.name
    pub failed : is_ok out.status ≡ false
    pub evidence : out.evidence ≡ []
    pub error : (e : ToolError) × (out.error ≡ some e) × (e.code ≡ out.status)

  failure-IsFailure :
      (code : ToolResultStatus) (query : Arguments)
      → is_ok code ≡ false
      → IsFailure (failure t.name code query)
  unfolding failure
  failure-IsFailure code query h = record {
    name = refl;
    failed = h;
    evidence = refl;
    error = (record { code = code; retriable = is_retriable code }, refl, refl);
  }

  -- What a call comes to, with the context that it leaves
  pub record IsCalled (out : ToolResult × ToolContext) : Type 0 where
    pub served : (r : ToolResult) → Serves r → out.0 ≡ r
    pub unserved : ¬ ((r : ToolResult) × Serves r) → IsFailure out.0
    pub used : (request : Arguments) → Accepts request → out.1 ≡ (t.fetch call request ctx).1
    pub unused : ¬ ((request : Arguments) × Accepts request) → out.1 ≡ ctx

  -- `fetch` raises no error that says success.
  abbrev pub RaisesErrors : Type 0
  RaisesErrors =
      (request : Arguments) (code : ToolResultStatus)
      → (t.fetch call request ctx).0 ≡ tool_error code
      → is_ok code ≡ false

  refused-IsCalled :
      (code : ToolResultStatus)
      → is_ok code ≡ false
      → ((request : Arguments) → ¬ Accepts request)
      → IsCalled (failure t.name code raw, ctx)
  refused-IsCalled code h refused = record {
    served = λ r (request, ok_request, e). absurd (refused request ok_request);
    unserved = λ none. failure-IsFailure code raw h;
    used = λ request ok_request. absurd (refused request ok_request);
    unused = λ none. refl;
  }

  caught-IsCalled :
      (request : Arguments)
      → RaisesErrors
      → Accepts request
      → IsCalled (caught t.name request (t.fetch call request ctx).0, (t.fetch call request ctx).1)
  unfolding caught
  caught-IsCalled request errors accepted = record {
    served = λ r (other, (on, valid), e).
        let same = ok_inj other request (sym valid ∙ accepted.1) in
        ap (λ v. caught t.name request v) (subst (λ q. (t.fetch call q ctx).0 ≡ fetched r) same e);
    unserved = λ none. elim (fetched_cases (t.fetch call request ctx).0) [
      | inl (r, e) ↦ absurd (none (r, (request, accepted, e)))
      | inr (inl (code, e)) ↦ rw e (failure-IsFailure code request (errors request code e))
      | inr (inr e) ↦ rw e (record {
        name = refl;
        failed = refl;
        evidence = refl;
        error = (record { code = upstream_unavailable; retriable = true }, refl, refl);
      })
    ];
    used = λ other (on, valid).
        let same = ok_inj request other (sym accepted.1 ∙ valid) in
        ap (λ q. (t.fetch call q ctx).1) same;
    unused = λ none. absurd (none (request, accepted));
  }

  run_off :
      t.availability ≡ unavailable
      → run_tool t call raw ctx ≡ (failure t.name source_unavailable raw, ctx)
  unfolding run_tool
  run_off off = rw (off, run_tool) refl

  run_invalid :
      t.availability ≡ available
      → (message : String) → t.validated raw ≡ err message
      → run_tool t call raw ctx ≡ (failure t.name invalid_input raw, ctx)
  unfolding run_tool run_valid
  run_invalid on message e = rw (on, run_tool, e, run_valid) refl

  run_accepted :
      (request : Arguments)
      → Accepts request
      → run_tool t call raw ctx
        ≡ (caught t.name request (t.fetch call request ctx).0, (t.fetch call request ctx).1)
  unfolding run_tool run_valid
  run_accepted request (on, e) = rw (on, run_tool, e, run_valid) refl

  -- A call of a tool whose errors have codes of failure gives what the tool fetched, if it is
  -- available, accepts the request and its fetching returns. In every other case, an exception of any
  -- kind included, the call gives a failure in the tool's name, without evidence and with its error.
  -- The evidence ids used up are those that the fetching used, and none unless it was tried.
  pub run_tool_serves : RaisesErrors → IsCalled (run_tool t call raw ctx)
  run_tool_serves errors = elim (availability_cases t.availability) [
    | inr off ↦
        subst IsCalled (sym (run_off off)) (
          refused-IsCalled source_unavailable refl (λ request (on, valid). ground (arith, off, on)))
    | inl on ↦ elim (validated_cases (t.validated raw)) [
      | inl (message, e) ↦
          subst IsCalled (sym (run_invalid on message e))
            (refused-IsCalled invalid_input refl (λ request (up, valid). ground (arith, e, valid)))
      | inr (request, e) ↦
          subst IsCalled (sym (run_accepted request (on, e)))
            (caught-IsCalled request errors (on, e))
    ]
  ]
