-- ===== src/Mlops/Promote/Moves.antt =====
-- ml/mlops/promotion.py and ml/mlops/__main__.py: where the aliases point after the command.
use sentinelops_ai.Prelude.{
  String, ◌≡◌, refl, ap, ◌∙◌, inl, inr, Bool, true, false, Option, none, some, Result, ok, err,
  string_eq, ◌==◌, if◌then◌else◌, Bool-cases,
}
use sentinelops_ai.Prelude.Dict.{Dict}
use sentinelops_ai.Mlops.Promotion.{
  MetricValue, default_policy, PromotionDecision, evaluate_candidate,
}
use sentinelops_ai.Mlops.Promotion.Gate.{Passes, evaluate_candidate_iff}
use sentinelops_ai.Mlops.Registry.{
  ModelClient, IsModelClient, ModelVersion, MlflowError, or_none, candidate_alias, champion_alias,
  previous_champion_alias, resolve_alias, set_alias, add_version_tag, get_champion_metrics,
  lineage_metrics,
}
use sentinelops_ai.Mlops.Promote.{
  version_of, is_replaced, reason_or, told_reason, keep_previous, tag_previous, promote_model,
  promote_command,
}

unmoved {ℓ} : {A : Type ℓ} {x : A} (b : Bool) → x ≡ (if b then x else x)
unmoved true = refl
unmoved false = refl

-- The aliases of a registry
abbrev pub Aliases : Type 0
Aliases = String → Result MlflowError ModelVersion

-- What `previous-champion` points at when `version` has become the champion
abbrev pub predecessor :
    Result MlflowError ModelVersion
    → String
    → Result MlflowError ModelVersion
    → Result MlflowError ModelVersion
predecessor (ok old) version before = if is_replaced old.version version then ok old else before
predecessor (err e) version before = before

-- The aliases after the promotion of a version
abbrev pub aliases_after : ModelVersion → Aliases → Aliases
aliases_after m before alias =
    if champion_alias == alias
    then ok m
    else if candidate_alias == alias
    then ok m
    else if previous_champion_alias == alias
    then predecessor (before champion_alias) m.version (before alias)
    else before alias

module _ {S : Type 0} (client : ModelClient S) (law : IsModelClient client) where
  abbrev aliases_of : S → Aliases
  aliases_of s alias = client.get_model_version_by_alias alias s

  -- The registry has these aliases and the versions it had.
  abbrev pub IsAt : S → Aliases → S → Type 0
  IsAt s aliases t =
      ((b : String) → aliases_of t b ≡ aliases b)
      × ((w : String) → client.get_model_version w t ≡ client.get_model_version w s)

  tag_previous_lem :
      (old : Option String) (m : ModelVersion) (s : S)
      → client.get_model_version m.version s ≡ ok m
      → (t : S) × (tag_previous client old m.version s ≡ ok t) × IsAt s (aliases_of s) t
  unfolding tag_previous add_version_tag
  tag_previous_lem none m s known = (s, refl, ((λ b. refl), (λ w. refl)))
  tag_previous_lem (some old) m s known = elim (Bool-cases (old == "")) [
    | inl e ↦ rw e (s, refl, ((λ b. refl), (λ w. refl)))
    | inr e ↦
        let (t, tagged, now, versions) =
          law.tag_set m.version "promotion.previous_champion" old m s known in
        rw e (t, tagged, (now, versions))
  ]

  keep_previous_lem :
      (old : Result MlflowError ModelVersion) (version : String) (s : S)
      → aliases_of s champion_alias ≡ old
      → (t : S) × (keep_previous client (version_of (or_none old)) version s ≡ ok t)
        × IsAt s
            (λ b.
              if previous_champion_alias == b
              then predecessor old version (aliases_of s b)
              else aliases_of s b)
            t
  unfolding keep_previous set_alias
  keep_previous_lem (err e) version s h =
      (s, refl, ((λ b. unmoved (previous_champion_alias == b)), (λ w. refl)))
  keep_previous_lem (ok old) version s h = elim (Bool-cases (is_replaced old.version version)) [
    | inl e ↦
        let known = law.alias_known champion_alias old s h in
        let (t, set, now, versions) =
          law.alias_set previous_champion_alias old.version old s known in
        rw e (t, set, (now, versions))
    | inr e ↦ rw e (s, refl, ((λ b. unmoved (previous_champion_alias == b)), (λ w. refl)))
  ]

  promote_model_lem :
      (m : ModelVersion) (reason : Option String) (s : S)
      → client.get_model_version m.version s ≡ ok m
      → (t : S) × (promote_model client m.version reason s ≡ ok t)
        × ((b : String) → aliases_of t b ≡ aliases_after m (aliases_of s) b)
  unfolding promote_model resolve_alias set_alias add_version_tag
  promote_model_lem m reason s known =
      let old = aliases_of s champion_alias in
      let (s1, e1, (a1, v1)) = keep_previous_lem old m.version s refl in
      let k1 = v1 m.version ∙ known in
      let (s2, e2, a2, v2) = law.alias_set candidate_alias m.version m s1 k1 in
      let k2 = v2 m.version ∙ k1 in
      let (s3, e3, a3, v3) = law.alias_set champion_alias m.version m s2 k2 in
      let k3 = v3 m.version ∙ k2 in
      let (s4, e4, a4, v4) = law.tag_set m.version "promotion.reason" (reason_or reason) m s3 k3 in
      let k4 = v4 m.version ∙ k3 in
      let (s5, e5, (a5, v5)) = tag_previous_lem (version_of (or_none old)) m s4 k4 in
      (
        s5,
        rw (e1, e2, e3, e4) e5,
        λ b.
            a5 b
            ∙ a4 b
            ∙ a3 b
            ∙ ap (λ x. if champion_alias == b then ok m else x)
                (a2 b ∙ ap (λ x. if candidate_alias == b then ok m else x) (a1 b)),
      )

  -- For a version of the registry whose metrics can be read: a candidate that passes the gate
  -- against the metrics of the champion leaves exit code 0 and a registry where `champion` and
  -- `candidate` point at it, `previous-champion` at the champion before if that was another version
  -- with a name and where it did otherwise, and every other alias where it did; one that does not
  -- pass leaves exit code 1 and the registry as it was.
  pub promote_command_moves :
      (m : ModelVersion) (reason : Option String) (told : PromotionDecision → String) (s : S)
      (metrics : Dict MetricValue)
      → client.get_model_version m.version s ≡ ok m
      → client.get_run_metrics m.run_id s ≡ ok metrics
      → (Passes metrics (get_champion_metrics client s) default_policy
          → (t : S) × (promote_command client m.version reason told s ≡ ok (0, t))
            × ((b : String) → aliases_of t b ≡ aliases_after m (aliases_of s) b))
        × (¬ Passes metrics (get_champion_metrics client s) default_policy
            → promote_command client m.version reason told s ≡ ok (1, s))
  unfolding promote_command lineage_metrics
  promote_command_moves m reason told s metrics known run =
      let champion = version_of (or_none (resolve_alias client champion_alias s)) in
      let decision =
        evaluate_candidate metrics (get_champion_metrics client s) default_policy m.version
          champion in
      let (passed, promoted) =
        evaluate_candidate_iff metrics (get_champion_metrics client s) default_policy m.version
          champion in
      (
        (λ c.
            let (t, done, now) =
              promote_model_lem m (some (told_reason reason (told decision))) s known in
            (t, rw (known, run, promoted c, done) refl, now)),
        (λ no. elim (Bool-cases decision.promote) [
          | inl e ↦ absurd (no (passed e))
          | inr e ↦ rw (known, run, e) refl
        ]),
      )
