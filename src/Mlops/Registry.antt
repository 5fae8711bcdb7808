-- ===== src/Mlops/Registry.antt =====
-- ml/mlops/registry.py: aliases and versions of the registered model, over the client of the model
-- registry, which is a parameter. A call that raises returns an error.
use sentinelops_ai.Prelude.{
  String, ◌≡◌, Option, none, some, Result, ok, err, ◌>>=◌, string_eq, ◌==◌, if◌then◌else◌,
}
use sentinelops_ai.Prelude.Dict.{Dict}
use sentinelops_ai.Mlops.Promotion.{MetricValue}

abbrev pub candidate_alias : String
candidate_alias = "candidate"

abbrev pub champion_alias : String
champion_alias = "champion"

abbrev pub previous_champion_alias : String
previous_champion_alias = "previous-champion"

pub record ModelVersion : Type 0 where
  pub version : String
  pub run_id : String

pub data MlflowError : Type 0 where
  mlflow_error : MlflowError

-- The calls of the client, on a state of the registry
pub record ModelClient (S : Type 0) : Type 0 where
  pub get_model_version : String → S → Result MlflowError ModelVersion
  pub get_model_version_by_alias : String → S → Result MlflowError ModelVersion
  pub get_run_metrics : String → S → Result MlflowError (Dict MetricValue)
  pub set_registered_model_alias : String → String → S → Result MlflowError S
  pub set_model_version_tag : String → String → String → S → Result MlflowError S

-- What the registry documents: an alias can be moved to any version that exists, moving one leaves
-- the other aliases, and a tag leaves all of them.
pub record IsModelClient {S : Type 0} (client : ModelClient S) : Type 0 where
  pub version_named :
      (v : String) (m : ModelVersion) (s : S) → client.get_model_version v s ≡ ok m → m.version ≡ v
  pub alias_known :
      (a : String) (m : ModelVersion) (s : S)
      → client.get_model_version_by_alias a s ≡ ok m
      → client.get_model_version m.version s ≡ ok m
  pub alias_set :
      (a v : String) (m : ModelVersion) (s : S)
      → client.get_model_version v s ≡ ok m
      → (t : S) × (client.set_registered_model_alias a v s ≡ ok t)
        × ((b : String)
            → client.get_model_version_by_alias b t
              ≡ (if a == b then ok m else client.get_model_version_by_alias b s))
        × ((w : String) → client.get_model_version w t ≡ client.get_model_version w s)
  pub tag_set :
      (v key value : String) (m : ModelVersion) (s : S)
      → client.get_model_version v s ≡ ok m
      → (t : S) × (client.set_model_version_tag v key value s ≡ ok t)
        × ((b : String)
            → client.get_model_version_by_alias b t ≡ client.get_model_version_by_alias b s)
        × ((w : String) → client.get_model_version w t ≡ client.get_model_version w s)

-- `try: x = … except Exception: x = None`
abbrev pub or_none : {A : Type 0} → Result MlflowError A → Option A
or_none (ok x) = some x
or_none (err e) = none

module _ {S : Type 0} (client : ModelClient S) where
  -- The URI that the source returns as well is not used here.
  unfoldable pub resolve_alias : String → S → Result MlflowError ModelVersion
  resolve_alias alias s = client.get_model_version_by_alias alias s

  unfoldable pub set_alias : String → String → S → Result MlflowError S
  set_alias version alias s = client.set_registered_model_alias alias version s

  unfoldable pub add_version_tag : String → String → String → S → Result MlflowError S
  add_version_tag version key value s = client.set_model_version_tag version key value s

  -- A failure is or_none.
  unfoldable pub get_champion_metrics : S → Option (Dict MetricValue)
  unfolding resolve_alias
  get_champion_metrics s =
      or_none (do m ← resolve_alias champion_alias s; client.get_run_metrics m.run_id s)

  -- The metrics of `get_model_lineage`
  unfoldable pub lineage_metrics : String → S → Result MlflowError (Dict MetricValue)
  lineage_metrics version s = do
    m ← client.get_model_version version s
    client.get_run_metrics m.run_id s
