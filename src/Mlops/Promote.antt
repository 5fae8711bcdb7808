-- ===== src/Mlops/Promote.antt =====
-- ml/mlops/promotion.py and ml/mlops/__main__.py: moving the aliases, and the command that runs the
-- gate first. The command passes no baseline of its own, so the look at the baseline at the end of
-- `promote_model` changes nothing and is left out.
pub mod Moves
use sentinelops_ai.Prelude.{
  ℕ, String, ◌≡◌, Bool, true, false, not, ◌&&◌, Option, none, some, Result, ok, err, ◌>>=◌,
  string_eq, ◌==◌, if◌then◌else◌,
}
use sentinelops_ai.Prelude.Dict.{Dict}
use sentinelops_ai.Mlops.Promotion.{
  MetricValue, default_policy, PromotionDecision, evaluate_candidate,
}
use sentinelops_ai.Mlops.Registry.{
  ModelClient, ModelVersion, MlflowError, or_none, candidate_alias, champion_alias,
  previous_champion_alias, resolve_alias, set_alias, add_version_tag, get_champion_metrics,
  lineage_metrics,
}

abbrev pub version_of : Option ModelVersion → Option String
version_of none = none
version_of (some m) = some m.version

-- `old_champion and old_champion != candidate_version`
abbrev pub is_replaced : String → String → Bool
is_replaced old version = not (old == "") && not (old == version)

abbrev pub reason_or : Option String → String
reason_or none = "(unspecified)"
reason_or (some text) = if text == "" then "(unspecified)" else text

-- `args.reason or "; ".join(decision.reasons)`
abbrev pub told_reason : Option String → String → String
told_reason none told = told
told_reason (some text) told = if text == "" then told else text

module _ {S : Type 0} (client : ModelClient S) where
  unfoldable pub keep_previous : Option String → String → S → Result MlflowError S
  unfolding set_alias
  keep_previous none version s = ok s
  keep_previous (some old) version s =
      if is_replaced old version then set_alias client old previous_champion_alias s else ok s

  unfoldable pub tag_previous : Option String → String → S → Result MlflowError S
  unfolding add_version_tag
  tag_previous none version s = ok s
  tag_previous (some old) version s =
      if old == "" then ok s else add_version_tag client version "promotion.previous_champion" old s

  unfoldable pub promote_model : String → Option String → S → Result MlflowError S
  unfolding resolve_alias set_alias add_version_tag keep_previous tag_previous
  promote_model version reason s0 =
      let old = version_of (or_none (resolve_alias client champion_alias s0)) in
      do
        s1 ← keep_previous old version s0
        s2 ← set_alias client version candidate_alias s1
        s3 ← set_alias client version champion_alias s2
        s4 ← add_version_tag client version "promotion.reason" (reason_or reason) s3
        tag_previous old version s4

  -- `_cmd_promote`: the exit code and the registry it leaves. `told` is the text of the reasons.
  unfoldable pub promote_command :
      String → Option String → (PromotionDecision → String) → S → Result MlflowError (ℕ × S)
  unfolding resolve_alias get_champion_metrics lineage_metrics evaluate_candidate promote_model
  promote_command version reason told s =
      let champion = version_of (or_none (resolve_alias client champion_alias s)) in
      let champion_metrics = get_champion_metrics client s in
      lineage_metrics client version s >>= λ metrics.
      let decision = evaluate_candidate metrics champion_metrics default_policy version champion in
      if not decision.promote
      then ok (1, s)
      else promote_model version (some (told_reason reason (told decision))) s >>= λ t. ok (0, t)
