-- ===== src/Remediation/Policy/Eligible.antt =====
-- When the policy allows a proposal: the rules against an independent description of eligibility.
use sentinelops_ai.Prelude.{
  ℕ, ◌+◌, ◌*◌, ◌≤◌, ◌<◌, String, ◌≡◌, ◌↔◌, ◌⊎◌, Bool, true, false, Option, none, some, List, [],
  arith, string_eq, nat_eq, eq_iff, elem, ok, ++-eq-[],
}
use sentinelops_ai.Prelude.Dict.{Dict}
use sentinelops_ai.Remediation.Enums.{proposed, policy_evaluation, status_eq, action_eq, rank}
use sentinelops_ai.Remediation.Target.{is_allowed_service}
use sentinelops_ai.Remediation.Catalogue.{Value, catalogue, validate_action_parameters}
use sentinelops_ai.Remediation.Proposal.{RemediationProposal}
use sentinelops_ai.Remediation.Policy.{
  PolicyConfig, PolicyContext, PolicyViolation, allow, known_severities, effective_blast_radius,
  state_rule, action_rule, target_rule, environment_rule, severity_rule, parameter_rule, risk_rule,
  expiry_rule, cooldown_rule, rules, run_rules, decide_on, evaluate,
}

-- What is known of the incident's severity, against what the action is for.
abbrev SeverityFits : Bool → List String → Option String → Type 0
SeverityFits required allowed none = required ≡ false
SeverityFits required allowed (some s) = (elem s known_severities ≡ true) × (elem s allowed ≡ true)

abbrev pub CooledDown : ℕ → ℕ → Option ℕ → Type 0
CooledDown now cooldown none = Unit {0}
CooledDown now cooldown (some t) = t + cooldown * 1000000 ≤ now

pub record IsEligible (config : PolicyConfig) (p : RemediationProposal) (ctx : PolicyContext)
    : Type 0 where
  pub open_status : (p.status ≡ proposed) ⊎ (p.status ≡ policy_evaluation)
  pub enabled : elem p.action_type config.eligible_actions ≡ true
  pub instrumented : p.target.service_name ≡ "orders-service"
  pub environment : elem p.target.environment config.allowed_environments ≡ true
  pub severity :
      SeverityFits config.require_known_incident_severity
        (catalogue p.action_type).allowed_severities
        ctx.incident_severity
  pub parameters : (v : Dict Value) × (validate_action_parameters p.action_type p.parameters ≡ ok v)
  pub risk : rank (catalogue p.action_type).risk_level ≤ rank config.max_allowed_risk
  pub radius : effective_blast_radius (catalogue p.action_type) p ≤ config.max_blast_radius
  pub well_formed : p.created_at < p.expires_at
  pub not_expired : ctx.now < p.expires_at
  pub alone : ctx.history.active_exists ≡ false
  pub cooled :
      CooledDown ctx.now (catalogue p.action_type).cooldown_seconds ctx.history.last_completed

module _ (config : PolicyConfig) (p : RemediationProposal) (ctx : PolicyContext) where
  state_iff :
      (state_rule p ctx config ≡ []) ↔ ((p.status ≡ proposed) ⊎ (p.status ≡ policy_evaluation))
  unfolding state_rule
  state_iff = ground arith

  action_iff : (action_rule p ctx config ≡ []) ↔ (elem p.action_type config.eligible_actions ≡ true)
  unfolding action_rule
  action_iff = ground arith

  target_iff : (target_rule p ctx config ≡ []) ↔ (p.target.service_name ≡ "orders-service")
  unfolding target_rule catalogue is_allowed_service
  target_iff = ground (arith, eq_iff p.target.service_name "orders-service")

  environment_iff :
      (environment_rule p ctx config ≡ [])
      ↔ (elem p.target.environment config.allowed_environments ≡ true)
  unfolding environment_rule
  environment_iff = ground arith

  severity_iff :
      (severity_rule p ctx config ≡ [])
      ↔ SeverityFits config.require_known_incident_severity
          (catalogue p.action_type).allowed_severities
          ctx.incident_severity
  unfolding severity_rule
  severity_iff = ground arith

  parameter_iff :
      (parameter_rule p ctx config ≡ [])
      ↔ ((v : Dict Value) × (validate_action_parameters p.action_type p.parameters ≡ ok v))
  unfolding parameter_rule
  parameter_iff = ground arith

  risk_iff : (risk_rule p ctx config ≡ []) ↔ (
      (rank (catalogue p.action_type).risk_level ≤ rank config.max_allowed_risk)
      × (effective_blast_radius (catalogue p.action_type) p ≤ config.max_blast_radius))
  unfolding risk_rule
  risk_iff = ground arith

  expiry_iff :
      (expiry_rule p ctx config ≡ []) ↔ ((p.created_at < p.expires_at) × (ctx.now < p.expires_at))
  unfolding expiry_rule
  expiry_iff = ground arith

  cooldown_iff : (cooldown_rule p ctx config ≡ []) ↔ (
      (ctx.history.active_exists ≡ false)
      × CooledDown ctx.now (catalogue p.action_type).cooldown_seconds ctx.history.last_completed)
  unfolding cooldown_rule
  cooldown_iff = ground arith

  rules_of_IsEligible : IsEligible config p ctx → run_rules rules p ctx config ≡ []
  unfolding rules run_rules
  rules_of_IsEligible h = rw (
    state_iff.1 h.open_status,
    action_iff.1 h.enabled,
    target_iff.1 h.instrumented,
    environment_iff.1 h.environment,
    severity_iff.1 h.severity,
    parameter_iff.1 h.parameters,
    risk_iff.1 (h.risk, h.radius),
    expiry_iff.1 (h.well_formed, h.not_expired),
    cooldown_iff.1 (h.alone, h.cooled),
  )

  IsEligible-of_rules : run_rules rules p ctx config ≡ [] → IsEligible config p ctx
  unfolding rules run_rules
  IsEligible-of_rules h =
      let (e1, h1) = ++-eq-[] (state_rule p ctx config) _ h in
      let (e2, h2) = ++-eq-[] (action_rule p ctx config) _ h1 in
      let (e3, h3) = ++-eq-[] (target_rule p ctx config) _ h2 in
      let (e4, h4) = ++-eq-[] (environment_rule p ctx config) _ h3 in
      let (e5, h5) = ++-eq-[] (severity_rule p ctx config) _ h4 in
      let (e6, h6) = ++-eq-[] (parameter_rule p ctx config) _ h5 in
      let (e7, h7) = ++-eq-[] (risk_rule p ctx config) _ h6 in
      let (e8, h8) = ++-eq-[] (expiry_rule p ctx config) _ h7 in
      let (e9, h9) = ++-eq-[] (cooldown_rule p ctx config) _ h8 in
      record {
        open_status = state_iff.0 e1;
        enabled = action_iff.0 e2;
        instrumented = target_iff.0 e3;
        environment = environment_iff.0 e4;
        severity = severity_iff.0 e5;
        parameters = parameter_iff.0 e6;
        risk = (risk_iff.0 e7).0;
        radius = (risk_iff.0 e7).1;
        well_formed = (expiry_iff.0 e8).0;
        not_expired = (expiry_iff.0 e8).1;
        alone = (cooldown_iff.0 e9).0;
        cooled = (cooldown_iff.0 e9).1;
      }

allow_iff_none :
    (vs : List PolicyViolation) (ctx : PolicyContext) (config : PolicyConfig)
    → ((decide_on vs ctx config).outcome ≡ allow) ↔ (vs ≡ [])
unfolding decide_on
allow_iff_none vs ctx config = ground arith

pub evaluate_iff :
    (config : PolicyConfig) (p : RemediationProposal) (ctx : PolicyContext)
    → ((evaluate config p ctx).outcome ≡ allow) ↔ IsEligible config p ctx
unfolding evaluate
evaluate_iff config p ctx = (
  λ h. IsEligible-of_rules config p ctx ((allow_iff_none _ ctx config).0 h),
  λ h. (allow_iff_none _ ctx config).1 (rules_of_IsEligible config p ctx h),
)
