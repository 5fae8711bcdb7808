-- ===== src/Remediation/Proposal/Mapping.antt =====
-- What the mapping from an RCA recommendation may yield.
use sentinelops_ai.Prelude.{
  ◌<◌, ◌≤◌, length, codes, String, ◌≡◌, refl, ◌↔◌, ◌⊎◌, inl, inr, true, false, Option, none, some,
  [], string_eq, eq_iff, elem, arith, ok, ap, sym, ◌∙◌, subst,
}
use sentinelops_ai.Remediation.Enums.{
  RemediationActionType, restart_service, roll_back_deployment, scale_service, approved, status_eq,
  approve,
}
use sentinelops_ai.Remediation.Target.{
  ServiceTarget, make_target, is_allowed_service, RemediationApproval,
}
use sentinelops_ai.Remediation.Catalogue.{
  catalogue, require_action_definition, required_parameter_names, is_allowed_target,
  higher_severities, validate_action_parameters,
}
use sentinelops_ai.Remediation.Catalogue.Schema.{InSchema-accepted}
use sentinelops_ai.Remediation.Proposal.{
  RemediationProposal, RcaRecommendedAction, MappingContext, mapped, rca_action, proposal_from_rca,
  map_action, map_target, check_proposal, derived_proposal, severity_blocks, named_target,
  authorize_execution,
}

-- The two labels that lead to a proposal.
abbrev AutoLabel : RcaRecommendedAction → RemediationActionType → Type 0
AutoLabel r a =
    ((r.action_type ≡ "RESTART_SERVICE") × (a ≡ restart_service))
    ⊎ ((r.action_type ≡ "ROLL_BACK_DEPLOYMENT") × (a ≡ roll_back_deployment))

-- An absent severity passes; a given one has to be MEDIUM, HIGH or CRITICAL.
abbrev SeverityPasses : Option String → Type 0
SeverityPasses none = Unit {0}
SeverityPasses (some s) = elem s higher_severities ≡ true

-- When a recommendation becomes a proposal for the action `a` on the target `t`.
pub record IsMappable (r : RcaRecommendedAction) (c : MappingContext) (a : RemediationActionType)
    (t : ServiceTarget) : Type 0 where
  pub label : AutoLabel r a
  pub severity : SeverityPasses c.incident_severity
  pub named : r.target_service ≡ some "orders-service"
  pub target : make_target "orders-service" c.target_environment ≡ some t
  pub window : 0 < c.ttl
  pub proposer : (1 ≤ length (codes c.proposed_by)) × (length (codes c.proposed_by) ≤ 128)

auto_label :
    (r : RcaRecommendedAction) (a : RemediationActionType)
    → rca_action r.action_type ≡ some a
    → AutoLabel r a ⊎ (a ≡ scale_service)
unfolding rca_action
auto_label r a h =
    ground
      (arith, eq_iff r.action_type "RESTART_SERVICE", eq_iff r.action_type "ROLL_BACK_DEPLOYMENT")

-- `make_target` keeps the name and the environment.
make_target-parts :
    (name env : String) (t : ServiceTarget)
    → make_target name env ≡ some t
    → (t.service_name ≡ name) × (t.environment ≡ env)
unfolding make_target
make_target-parts name env t h = ground arith

module _ (r : RcaRecommendedAction) (c : MappingContext) where
  map_target-inv :
      (a : RemediationActionType) (name : String) (p : RemediationProposal)
      → map_target c r a name ≡ mapped p
      → (t : ServiceTarget) × (make_target name c.target_environment ≡ some t)
        × (is_allowed_target a t ≡ true)
        × (check_proposal (derived_proposal c r a t) ≡ ok tt)
        × (p ≡ derived_proposal c r a t)
  unfolding map_target
  map_target-inv a name p h = ground arith

  map_action-inv :
      (a : RemediationActionType) (p : RemediationProposal)
      → map_action c r a ≡ mapped p
      → (name : String) × (severity_blocks c.incident_severity (catalogue a) ≡ false)
        × (required_parameter_names (catalogue a) ≡ [])
        × (named_target r.target_service ≡ some name)
        × (map_target c r a name ≡ mapped p)
  unfolding map_action require_action_definition
  map_action-inv a p h = ground arith

  named_target-inv :
      (name : String) → named_target r.target_service ≡ some name → r.target_service ≡ some name
  named_target-inv name h = ground arith

  severity-inv :
      (a : RemediationActionType)
      → AutoLabel r a
      → (severity_blocks c.incident_severity (catalogue a) ≡ false)
        ↔ SeverityPasses c.incident_severity
  unfolding catalogue
  severity-inv a (inl (e, f)) = rw f (ground arith)
  severity-inv a (inr (e, f)) = rw f (ground arith)

  no_required :
      (a : RemediationActionType) → AutoLabel r a → required_parameter_names (catalogue a) ≡ []
  unfolding catalogue required_parameter_names
  no_required a (inl (e, f)) = rw f
  no_required a (inr (e, f)) = rw f

  scale_required : ¬ (required_parameter_names (catalogue scale_service) ≡ [])
  unfolding catalogue required_parameter_names
  scale_required h = cc

  allowed_name :
      (a : RemediationActionType) (t : ServiceTarget)
      → AutoLabel r a
      → (is_allowed_target a t ≡ true) ↔ (t.service_name ≡ "orders-service")
  unfolding is_allowed_target catalogue is_allowed_service
  allowed_name a t (inl (e, f)) = rw f (ground (arith, eq_iff t.service_name "orders-service"))
  allowed_name a t (inr (e, f)) = rw f (ground (arith, eq_iff t.service_name "orders-service"))

  no_parameters :
      (a : RemediationActionType) → AutoLabel r a → validate_action_parameters a [] ≡ ok []
  no_parameters a (inl (e, f)) = rw f (InSchema-accepted restart_service [] refl)
  no_parameters a (inr (e, f)) = rw f (InSchema-accepted roll_back_deployment [] (inl refl))

  check_derived :
      (a : RemediationActionType) (t : ServiceTarget)
      → AutoLabel r a
      → is_allowed_target a t ≡ true
      → (check_proposal (derived_proposal c r a t) ≡ ok tt) ↔ (
          (0 < c.ttl) × ((1 ≤ length (codes c.proposed_by)) × (length (codes c.proposed_by) ≤ 128)))
  unfolding check_proposal
  check_derived a t l h = ground (arith, no_parameters a l)

  rca_action_of : (a : RemediationActionType) → AutoLabel r a → rca_action r.action_type ≡ some a
  unfolding rca_action
  rca_action_of a (inl (e, f)) = rw (e, f)
  rca_action_of a (inr (e, f)) = rw (e, f)

  IsMappable-inv :
      (a : RemediationActionType) (p : RemediationProposal)
      → rca_action r.action_type ≡ some a
      → map_action c r a ≡ mapped p
      → (t : ServiceTarget) × IsMappable r c a t × (p ≡ derived_proposal c r a t)
  IsMappable-inv a p known h =
      let (name, sev, req, named, h1) = map_action-inv a p h in
      let (t, made, allowed, checked, e) = map_target-inv a name p h1 in
      elim (auto_label r a known) [
        | inl l ↦
            let right : name ≡ "orders-service" =
              sym (make_target-parts name c.target_environment t made).0
              ∙ (allowed_name a t l).0 allowed in
            (
              t,
              record {
                label = l;
                severity = (severity-inv a l).0 sev;
                named = named_target-inv name named ∙ ap some right;
                target = ap (λ n. make_target n c.target_environment) (sym right) ∙ made;
                window = ((check_derived a t l allowed).0 checked).0;
                proposer = ((check_derived a t l allowed).0 checked).1;
              },
              e,
            )
        | inr s ↦
            absurd (scale_required (subst (λ b. required_parameter_names (catalogue b) ≡ []) s req))
      ]

  mapped_of_IsMappable :
      (a : RemediationActionType) (t : ServiceTarget)
      → IsMappable r c a t
      → map_action c r a ≡ mapped (derived_proposal c r a t)
  unfolding map_action require_action_definition
  mapped_of_IsMappable a t m =
      let allowed =
        (allowed_name a t m.label).1
          (make_target-parts "orders-service" c.target_environment t m.target).0 in
      ground (
        arith,
        (severity-inv a m.label).1 m.severity,
        no_required a m.label,
        m.named,
        m.target,
        allowed,
        (check_derived a t m.label allowed).1 (m.window, m.proposer),
      )

  mapping-inv :
      (p : RemediationProposal)
      → proposal_from_rca r c ≡ mapped p
      → (a : RemediationActionType) × (rca_action r.action_type ≡ some a)
        × (map_action c r a ≡ mapped p)
  unfolding proposal_from_rca
  mapping-inv p h = ground arith

  mapping-some :
      (a : RemediationActionType)
      → rca_action r.action_type ≡ some a
      → proposal_from_rca r c ≡ map_action c r a
  unfolding proposal_from_rca
  mapping-some a h = rw (h, proposal_from_rca)

-- An RCA recommendation becomes a proposal exactly when its label is that of a restart or of a
-- rollback, the incident's severity is absent or MEDIUM, HIGH or CRITICAL, it names the
-- instrumented service, the environment is a known one, the time to live is positive and the
-- proposer's name has 1 to 128 characters. The
-- proposal is then the one built from the catalogue: status `proposed`, no parameters, the
-- catalogue's risk.
pub proposal_from_rca_iff :
    (r : RcaRecommendedAction) (c : MappingContext) (p : RemediationProposal)
    → (proposal_from_rca r c ≡ mapped p) ↔ (
        (a : RemediationActionType) × (t : ServiceTarget) × IsMappable r c a t
        × (p ≡ derived_proposal c r a t))
proposal_from_rca_iff r c p = (
  λ h.
      let (a, known, h1) = mapping-inv r c p h in
      let (t, m, e) = IsMappable-inv r c a p known h1 in (a, t, m, e),
  λ h.
      let (a, t, m, e) = h in
      mapping-some r c a (rca_action_of r c a m.label)
      ∙ mapped_of_IsMappable r c a t m
      ∙ ap mapped (sym e),
)

-- The guard before an execution passes exactly when the proposal is approved and there is an
-- approving decision of a human for the same remediation.
pub authorize_execution_iff :
    (p : RemediationProposal) (approval : Option RemediationApproval)
    → (authorize_execution p approval ≡ ok tt) ↔ (
        (p.status ≡ approved)
        × ((a : RemediationApproval) × (approval ≡ some a)
            × (a.remediation_id ≡ p.remediation_id)
            × (a.decision ≡ approve)))
unfolding authorize_execution
authorize_execution_iff p none = ground arith
authorize_execution_iff p (some a) = (
  λ h. (
    ground arith,
    (a, refl, ground (arith, eq_iff a.remediation_id p.remediation_id), ground arith),
  ),
  λ h. ground (arith, eq_iff a.remediation_id p.remediation_id, h.1),
)
