-- ===== src/Mlops/Memory.antt =====
-- ml/mlops: a registry in memory, which has what the model asks of a client.
use sentinelops_ai.Prelude.{
  String, ◌≡◌, refl, ap, ◌∙◌, Bool, true, false, Option, none, some, List, ◌∷◌, Result, ok, err,
  arith, string_eq, ◌==◌, if◌then◌else◌,
}
use sentinelops_ai.Prelude.Dict.{Dict, lookup, insert, lookup-insert}
use sentinelops_ai.Mlops.Promotion.{MetricValue}
use sentinelops_ai.Mlops.Registry.{
  ModelVersion, MlflowError, mlflow_error, ModelClient, IsModelClient,
}

-- Runs of versions, versions of aliases, metrics of runs, and tags
pub record MemoryRegistry : Type 0 where
  pub runs : Dict String
  pub aliases : Dict String
  pub metrics : Dict (Dict MetricValue)
  pub tags : List (String × String × String)

abbrev named : String → Option String → Result MlflowError ModelVersion
named v none = err mlflow_error
named v (some run) = ok (record { version = v; run_id = run })

unfoldable pub find_version : String → MemoryRegistry → Result MlflowError ModelVersion
unfolding lookup
find_version v s = named v (lookup v s.runs)

abbrev pointed : Option String → Dict String → Result MlflowError ModelVersion
pointed none runs = err mlflow_error
pointed (some v) runs = named v (lookup v runs)

abbrev found : {A : Type 0} → Option A → Result MlflowError A
found none = err mlflow_error
found (some x) = ok x

-- Goes on with the registry if the version exists.
abbrev if_found :
    Result MlflowError ModelVersion → MemoryRegistry → Result MlflowError MemoryRegistry
if_found (err e) s = err e
if_found (ok m) s = ok s

unfoldable pub memory_client : ModelClient MemoryRegistry
unfolding lookup insert find_version
memory_client = record {
  get_model_version = find_version;
  get_model_version_by_alias = λ a s. pointed (lookup a s.aliases) s.runs;
  get_run_metrics = λ run s. found (lookup run s.metrics);
  set_registered_model_alias =
      λ a v s. if_found (find_version v s) (record s { aliases = insert a v s.aliases });
  set_model_version_tag =
      λ v key value s. if_found (find_version v s) (record s { tags = (v, key, value) ∷ s.tags });
}

named_version :
    (v : String) (o : Option String) (m : ModelVersion) → named v o ≡ ok m → m.version ≡ v
named_version v none m h = ground arith
named_version v (some run) m h = ground arith

pointed_known :
    (o : Option String) (m : ModelVersion) (s : MemoryRegistry)
    → pointed o s.runs ≡ ok m
    → find_version m.version s ≡ ok m
unfolding find_version
pointed_known none m s h = ground arith
pointed_known (some v) m s h =
    ap (λ w. find_version w s) (named_version v (lookup v s.runs) m h) ∙ h

redirected :
    (b : Bool) (v : String) (m : ModelVersion) (o : Option String) (s : MemoryRegistry)
    → find_version v s ≡ ok m
    → pointed (if b then some v else o) s.runs ≡ (if b then ok m else pointed o s.runs)
unfolding find_version
redirected true v m o s h = h
redirected false v m o s h = refl

pub memory_client-IsModelClient : IsModelClient memory_client
unfolding memory_client find_version
memory_client-IsModelClient = record {
  version_named = λ v m s h. named_version v (lookup v s.runs) m h;
  alias_known = λ a m s h. pointed_known (lookup a s.aliases) m s h;
  alias_set = λ a v m s h.
      let t : MemoryRegistry = record s { aliases = insert a v s.aliases } in
      (
        t,
        ap (λ r. if_found r t) h,
        (λ b.
            ap (λ o. pointed o s.runs) (lookup-insert a b v s.aliases)
            ∙ redirected (a == b) v m (lookup b s.aliases) s h),
        λ w. refl,
      );
  tag_set = λ v key value m s h.
      let t : MemoryRegistry = record s { tags = (v, key, value) ∷ s.tags } in
      (t, ap (λ r. if_found r t) h, (λ b. refl), λ w. refl);
}
