-- ===== src/Mlops/Tests.antt =====
-- Tests of the promotion of models, and its theorems at concrete inputs.
use sentinelops_ai.Prelude.{ℕ, ◌≡◌, ◌↔◌, refl, true, some, none, [], ◌∷◌, ok, String}
use sentinelops_ai.Prelude.Dict.{Dict, lookup, insert}
use sentinelops_ai.Mlops.Promotion.{
  MetricValue, number_value, number, not_a_number, default_policy, PromotionDecision, f1_regression,
  missing_metrics, metric, missing_keys, champion_f1, objections, evaluate_candidate,
}
use sentinelops_ai.Mlops.Promotion.Gate.{Passes, evaluate_candidate_iff}
use sentinelops_ai.Mlops.Registry.{
  ModelVersion, resolve_alias, set_alias, add_version_tag, get_champion_metrics, lineage_metrics,
}
use sentinelops_ai.Mlops.Promote.{keep_previous, tag_previous, promote_model, promote_command}
use sentinelops_ai.Mlops.Promote.Moves.{aliases_after, promote_command_moves}
use sentinelops_ai.Mlops.Memory.{
  MemoryRegistry, find_version, memory_client, memory_client-IsModelClient,
}

abbrev metrics_of : ℕ → ℕ → ℕ → Dict MetricValue
metrics_of f1 recall pr_auc =
    ("pointwise.f1", number_value (number f1))
    ∷ ("pointwise.recall", number_value (number recall))
    ∷ ("pointwise.pr_auc", number_value (number pr_auc))
    ∷ []

abbrev served : Dict MetricValue
served = metrics_of 820000 1000000 700000

abbrev better : Dict MetricValue
better = metrics_of 860000 950000 650000

abbrev worse : Dict MetricValue
worse = metrics_of 769999 950000 650000

abbrev undefined : Dict MetricValue
undefined =
    ("pointwise.f1", number_value not_a_number)
    ∷ ("pointwise.recall", number_value not_a_number)
    ∷ ("pointwise.pr_auc", number_value not_a_number)
    ∷ []

-- Three versions, the first of which is served
abbrev registry : MemoryRegistry
registry = record {
  runs = ("1", "run_a") ∷ ("2", "run_b") ∷ ("3", "run_c") ∷ [];
  aliases = ("champion", "1") ∷ [];
  metrics = ("run_a", served) ∷ ("run_b", better) ∷ ("run_c", worse) ∷ [];
  tags = [];
}

abbrev second : ModelVersion
second = record { version = "2"; run_id = "run_b" }

abbrev third : ModelVersion
third = record { version = "3"; run_id = "run_c" }

abbrev told : PromotionDecision → String
told d = "told"

evaluate_candidate_iff_example :
    ((evaluate_candidate better (some served) default_policy "2" (some "1")).promote ≡ true)
    ↔ Passes better (some served) default_policy
evaluate_candidate_iff_example =
    evaluate_candidate_iff better (some served) default_policy "2" (some "1")

better_promoted :
    (evaluate_candidate better (some served) default_policy "2" (some "1")).promote ≡ true
unfolding evaluate_candidate missing_keys objections champion_f1 metric lookup
better_promoted = refl

worse_rejected :
    (evaluate_candidate worse (some served) default_policy "3" (some "1")).reasons
    ≡ f1_regression ∷ []
unfolding evaluate_candidate missing_keys objections champion_f1 metric lookup
worse_rejected = refl

incomplete_rejected :
    (evaluate_candidate [] none default_policy "3" none).reasons
    ≡ missing_metrics ("pointwise.f1" ∷ "pointwise.pr_auc" ∷ "pointwise.recall" ∷ []) ∷ []
unfolding evaluate_candidate missing_keys objections champion_f1 metric lookup
incomplete_rejected = refl

-- Metrics that are NaN pass.
undefined_promoted :
    (evaluate_candidate undefined (some served) default_policy "3" (some "1")).promote ≡ true
unfolding evaluate_candidate missing_keys objections champion_f1 metric lookup
undefined_promoted = refl

better-Passes : Passes better (get_champion_metrics memory_client registry) default_policy
unfolding get_champion_metrics resolve_alias memory_client find_version lookup
better-Passes = evaluate_candidate_iff_example.0 better_promoted

promote_command_moves_example :
    (Passes better (get_champion_metrics memory_client registry) default_policy
      → (t : MemoryRegistry) × (promote_command memory_client "2" none told registry ≡ ok (0, t))
        × ((b : String)
            → memory_client.get_model_version_by_alias b t
              ≡ aliases_after second (λ a. memory_client.get_model_version_by_alias a registry) b))
    × (¬ Passes better (get_champion_metrics memory_client registry) default_policy
        → promote_command memory_client "2" none told registry ≡ ok (1, registry))
unfolding memory_client find_version lookup
promote_command_moves_example =
    promote_command_moves memory_client memory_client-IsModelClient second none told registry better
      refl refl

-- The command serves the second version and keeps the first as its predecessor.
second_served :
    (t : MemoryRegistry) × (promote_command memory_client "2" none told registry ≡ ok (0, t))
    × (t.aliases ≡ ("champion", "2") ∷ ("previous-champion", "1") ∷ ("candidate", "2") ∷ [])
unfolding promote_command promote_model keep_previous tag_previous lineage_metrics
    get_champion_metrics resolve_alias set_alias add_version_tag memory_client find_version
    evaluate_candidate missing_keys objections champion_f1 metric lookup insert
second_served = (_, refl, refl)

third_refused : promote_command memory_client "3" none told registry ≡ ok (1, registry)
unfolding promote_command promote_model keep_previous tag_previous lineage_metrics
    get_champion_metrics resolve_alias set_alias add_version_tag memory_client find_version
    evaluate_candidate missing_keys objections champion_f1 metric lookup insert
third_refused = refl
