-- ===== src/Remediation/Executor/Simulated.antt =====
-- What a run of the simulation executor does.
use sentinelops_ai.Prelude.{
  ℕ, ◌+◌, ◌≤◌, ◌≡◌, ◌≢◌, refl, subst, sym, ◌∙◌, ap, inl, inr, true, false, Option, none, some,
  String, arith, eq_iff, ok, string_eq, ◌==◌, append_text, no_text, if◌then◌else◌,
}
use text.Mathlib.TextPositions.{eq_refl}
use sentinelops_ai.Prelude.Int.{pos}
use sentinelops_ai.Prelude.Dict.{Dict, lookup, insert, lookup-insert}
use sentinelops_ai.Remediation.Enums.{
  RemediationActionType, restart_service, scale_service, roll_back_deployment, disable_feature_flag,
  succeeded,
}
use sentinelops_ai.Remediation.Catalogue.{Value, str, int, validate_action_parameters}
use sentinelops_ai.Remediation.Catalogue.Schema.{InSchema, validate_action_parameters_sound}
use sentinelops_ai.Remediation.Proposal.{RemediationProposal}
use sentinelops_ai.Remediation.Executor.{
  ServiceSimState, SimulationState, service_state, Effect, apply_action, returned, ExecutionResult,
  mark_remediated, simulation_execute, simulated_result, restarted, scaled, rolled_back,
  flag_disabled, flag_value,
}

-- What each action does, with its parameters, to the state of its target: the named fields are as
-- they say, and every other field but the start of the recovery is as before.
abbrev pub Effected :
    RemediationActionType → Dict Value → ServiceSimState → ServiceSimState → Type 0
Effected restart_service v s s' = s' ≡ record s {
  running = true;
  restart_count = s.restart_count + 1;
  recovery_started_at = s'.recovery_started_at;
}
Effected scale_service v s s' =
    (n : ℕ) × (lookup "replicas" v ≡ some (int (pos n)))
    × (1 ≤ n)
    × (n ≤ 10)
    × (s' ≡ record s { replicas = pos n; recovery_started_at = s'.recovery_started_at })
Effected roll_back_deployment v s s' =
    (lookup "to_revision" v ≡ none
      → s'.deployment_revision ≡ append_text s.deployment_revision "-prev")
    × ((r : String)
        → lookup "to_revision" v ≡ some (str r)
        → no_text r ≡ false
        → s'.deployment_revision ≡ r)
    × (s' ≡ record s {
      deployment_revision = s'.deployment_revision;
      rollback_count = s.rollback_count + 1;
      recovery_started_at = s'.recovery_started_at;
    })
Effected disable_feature_flag v s s' =
    (k : String) × (lookup "flag_key" v ≡ some (str k))
    × (lookup k s'.feature_flags ≡ some false)
    × ((j : String) → (k == j) ≡ false → lookup j s'.feature_flags ≡ lookup j s.feature_flags)
    × (s' ≡ record s {
      feature_flags = s'.feature_flags;
      recovery_started_at = s'.recovery_started_at;
    })

str_inj : (a b : String) → ◌≡◌ {A = Option Value} (some (str a)) (some (str b)) → a ≡ b
str_inj a b h = ground arith

absent : {A : Type 0} {x : Value} → ◌≡◌ {A = Option Value} none (some x) → A
absent h = cc

apply_action-Effected :
    (a : RemediationActionType) (v : Dict Value) (s : ServiceSimState)
    → InSchema a v
    → (s' : ServiceSimState) × (effect : Effect) × (apply_action a v s ≡ some (s', effect))
      × Effected a v s s'
      × (s'.recovery_delay ≡ s.recovery_delay)
      × (s'.chronic_fault ≡ s.chronic_fault)
unfolding apply_action lookup insert
apply_action-Effected restart_service v s h = (
  record s { restart_count = s.restart_count + 1; running = true },
  restarted (s.restart_count + 1),
  refl,
  refl,
  refl,
  refl,
)
apply_action-Effected scale_service v s (n, e, lo, hi) = (
  record s { replicas = pos n },
  scaled s.replicas (pos n),
  rw e refl,
  (n, rw e refl, lo, hi, refl),
  refl,
  refl,
)
apply_action-Effected roll_back_deployment v s (inl e) =
    let r = append_text s.deployment_revision "-prev" in
    (
      record s { deployment_revision = r; rollback_count = s.rollback_count + 1 },
      rolled_back s.deployment_revision r,
      rw e refl,
      ((λ h. refl), (λ q h full. absent (rw e at h)), refl),
      refl,
      refl,
    )
apply_action-Effected roll_back_deployment v s (inr (r, e, m)) =
    let q = if no_text r then append_text s.deployment_revision "-prev" else r in
    (
      record s { deployment_revision = q; rollback_count = s.rollback_count + 1 },
      rolled_back s.deployment_revision q,
      rw e refl,
      (
        (λ h. absent (sym (rw e at h))),
        (λ x h full. let same = str_inj r x (rw e at h) in rw (ap no_text same ∙ full) same),
        refl,
      ),
      refl,
      refl,
    )
apply_action-Effected disable_feature_flag v s (k, e, m) = (
  record s { feature_flags = insert k false s.feature_flags },
  flag_disabled k (flag_value (lookup k s.feature_flags)),
  rw e refl,
  (
    k,
    rw e refl,
    lookup-insert k k false s.feature_flags ∙ rw (eq_refl k) refl,
    (λ j d. lookup-insert k j false s.feature_flags ∙ rw d refl),
    refl,
  ),
  refl,
  refl,
)

-- What a real run of the simulation executor leaves behind: the effect of the action on the
-- target, whose recovery begins at the time of the run, and every other service as it was.
pub record RanOn (st st' : SimulationState) (p : RemediationProposal) (v : Dict Value) (now : ℕ)
    (r : ExecutionResult) : Type 0 where
  pub status : r.status ≡ succeeded
  pub remediation_id : r.remediation_id ≡ p.remediation_id
  pub effected :
      Effected p.action_type v
        (service_state p.target.service_name st)
        (service_state p.target.service_name st')
  pub remediated : (service_state p.target.service_name st').recovery_started_at ≡ some now
  pub delay :
      (service_state p.target.service_name st').recovery_delay
      ≡ (service_state p.target.service_name st).recovery_delay
  pub chronic :
      (service_state p.target.service_name st').chronic_fault
      ≡ (service_state p.target.service_name st).chronic_fault
  pub others : (j : String) → j ≢ p.target.service_name → service_state j st' ≡ service_state j st

marked_eq :
    {s s' : ServiceSimState} (now : ℕ)
    → s ≡ s'
    → ◌≡◌ {A = ServiceSimState}
        (record s { recovery_started_at = some now })
        (record s' { recovery_started_at = some now })
marked_eq now h = ap (λ (x : ServiceSimState). record x { recovery_started_at = some now }) h

Effected-marked :
    (a : RemediationActionType) (v : Dict Value) (s s' : ServiceSimState) (now : ℕ)
    → Effected a v s s'
    → Effected a v s (record s' { recovery_started_at = some now })
Effected-marked restart_service v s s' now h = marked_eq now h
Effected-marked scale_service v s s' now (n, e, lo, hi, h) = (n, e, lo, hi, marked_eq now h)
Effected-marked roll_back_deployment v s s' now (f, g, h) = (f, g, marked_eq now h)
Effected-marked disable_feature_flag v s s' now (k, e, f, g, h) = (k, e, f, g, marked_eq now h)

service_state-insert :
    (name j : String) (s : ServiceSimState) (st : SimulationState)
    → service_state j (insert name s st) ≡ (if name == j then s else service_state j st)
unfolding service_state
service_state-insert name j s st = ground (arith, lookup-insert name j s st)

marked_state :
    (name : String) (now : ℕ) (s : ServiceSimState) (st : SimulationState) → SimulationState
marked_state name now s st = mark_remediated name now (insert name s st)

service_state-marked :
    (name : String) (now : ℕ) (s : ServiceSimState) (st : SimulationState)
    → service_state name (marked_state name now s st) ≡ record s { recovery_started_at = some now }
unfolding marked_state mark_remediated
service_state-marked name now s st = simp (service_state-insert, eq_refl)

service_state-marked_ne :
    (name j : String) (now : ℕ) (s : ServiceSimState) (st : SimulationState)
    → j ≢ name
    → service_state j (marked_state name now s st) ≡ service_state j st
unfolding marked_state mark_remediated
service_state-marked_ne name j now s st h =
    simp service_state-insert (ground (arith, eq_iff name j))

-- A real run of the simulation executor, on a proposal whose parameters the catalogue accepts,
-- returns a success for that proposal and begins the recovery of its target at the time of the run.
-- A restart has set the target running and counted it; a scaling has set the requested number of
-- replicas, between 1 and 10; a rollback has set the requested revision, or the one before the
-- current one where none is named, and counted it; a flag is off, and the other flags are as before.
-- Every other field of the target, and every other service, is as before.
pub simulation_execute_real :
    (st : SimulationState) (p : RemediationProposal) (v : Dict Value) (i : String) (now : ℕ)
    → validate_action_parameters p.action_type p.parameters ≡ ok v
    → (r : ExecutionResult) × (st' : SimulationState) × (simulation_execute st p i false now
        ≡ (returned r, st'))
      × RanOn st st' p v now r
unfolding simulation_execute marked_state
simulation_execute_real st p v i now h =
    let name = p.target.service_name in
    let (s', effect, e, done, delay, chronic) =
      apply_action-Effected p.action_type v (service_state name st)
        (validate_action_parameters_sound p.action_type p.parameters v h).0 in
    let st' = marked_state name now s' st in
    let marked = service_state-marked name now s' st in
    (
      simulated_result p i false now (service_state name st') effect,
      st',
      rw (h, simulation_execute) (rw e),
      record {
        status = refl;
        remediation_id = refl;
        effected =
            subst (λ x. Effected p.action_type v (service_state name st) x) (sym marked)
              (Effected-marked p.action_type v (service_state name st) s' now done);
        remediated = ap (λ (x : ServiceSimState). x.recovery_started_at) marked;
        delay = ap (λ (x : ServiceSimState). x.recovery_delay) marked ∙ delay;
        chronic = ap (λ (x : ServiceSimState). x.chronic_fault) marked ∙ chronic;
        others = λ j d. service_state-marked_ne name j now s' st d;
      },
    )
