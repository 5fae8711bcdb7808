-- ===== src/Mlops/Promotion.antt =====
-- ml/mlops/promotion.py: the gate that a model passes to become the champion. Metrics, floors and
-- the tolerance are millionths; the texts of the reasons are constructors.
pub mod Gate
use sentinelops_ai.Prelude.{
  ℕ, ◌+◌, String, Bool, true, false, ◌&&◌, Option, none, some, List, [], ◌∷◌, ◌++◌, ltb, is_empty,
  not, if◌then◌else◌, string_eq,
}
use sentinelops_ai.Prelude.Dict.{Dict, lookup}

-- A float: a number, or NaN, which every comparison is false of
pub data Number : Type 0 where
  number : ℕ → Number
  not_a_number : Number

-- The values of a dict of metrics
pub data MetricValue : Type 0 where
  number_value : Number → MetricValue
  bool_value : Bool → MetricValue
  other_value : MetricValue

abbrev pub f1_key : String
f1_key = "pointwise.f1"

abbrev pub recall_key : String
recall_key = "pointwise.recall"

abbrev pub pr_auc_key : String
pr_auc_key = "pointwise.pr_auc"

pub record PromotionPolicy : Type 0 where
  pub min_f1 : ℕ
  pub min_recall : ℕ
  pub min_pr_auc : ℕ
  pub f1_regression_tolerance : ℕ
  pub require_all_metrics : Bool

-- The policy of the defaults
abbrev pub default_policy : PromotionPolicy
default_policy = record {
  min_f1 = 750000;
  min_recall = 900000;
  min_pr_auc = 600000;
  f1_regression_tolerance = 50000;
  require_all_metrics = true;
}

pub data PromotionReason : Type 0 where
  missing_metrics : List String → PromotionReason
  f1_below_floor recall_below_floor pr_auc_below_floor : PromotionReason
  f1_regression floors_met first_model within_tolerance : PromotionReason

pub record PromotionDecision : Type 0 where
  pub promote : Bool
  pub reasons : List PromotionReason
  pub candidate_version : String
  pub champion_version : Option String

-- `_metric`
abbrev pub number_of : Option MetricValue → Option Number
number_of (some (number_value x)) = some x
number_of (some (bool_value b)) = none
number_of (some other_value) = none
number_of none = none

unfoldable pub metric : Dict MetricValue → String → Option Number
unfolding lookup
metric metrics key = number_of (lookup key metrics)

-- `x < y`
abbrev pub below : Number → ℕ → Bool
below (number x) y = ltb x y
below not_a_number y = false

-- `x - y < -tolerance`
abbrev pub regresses : Number → Number → ℕ → Bool
regresses (number x) (number y) tolerance = ltb (x + tolerance) y
regresses (number x) not_a_number tolerance = false
regresses not_a_number y tolerance = false

-- `value or 0.0`
abbrev pub or_zero : Option Number → Number
or_zero none = number 0
or_zero (some x) = x

abbrev pub name_if_none : String → Option Number → List String
name_if_none key none = key ∷ []
name_if_none key (some x) = []

-- The keys of `_REQUIRED_METRICS` without a number, sorted
unfoldable pub missing_keys : Dict MetricValue → List String
unfolding metric
missing_keys metrics =
    name_if_none f1_key (metric metrics f1_key)
    ++ name_if_none pr_auc_key (metric metrics pr_auc_key)
    ++ name_if_none recall_key (metric metrics recall_key)

abbrev pub reason_if : Bool → PromotionReason → List PromotionReason
reason_if true r = r ∷ []
reason_if false r = []

-- `champion_f1`
unfoldable pub champion_f1 : Option (Dict MetricValue) → Option Number
unfolding metric
champion_f1 none = none
champion_f1 (some metrics) = metric metrics f1_key

abbrev pub regression : Number → Option Number → ℕ → List PromotionReason
regression f1 none tolerance = []
regression f1 (some champion) tolerance = reason_if (regresses f1 champion tolerance) f1_regression

-- The reasons against a candidate whose metrics are all there, or are not required
unfoldable pub objections :
    Dict MetricValue → Option (Dict MetricValue) → PromotionPolicy → List PromotionReason
unfolding metric champion_f1
objections candidate champion policy =
    let f1 = or_zero (metric candidate f1_key) in
    reason_if (below f1 policy.min_f1) f1_below_floor
    ++ reason_if (below (or_zero (metric candidate recall_key)) policy.min_recall)
        recall_below_floor
    ++ reason_if (below (or_zero (metric candidate pr_auc_key)) policy.min_pr_auc)
        pr_auc_below_floor
    ++ regression f1 (champion_f1 champion) policy.f1_regression_tolerance

abbrev pub standing : Option Number → PromotionReason
standing none = first_model
standing (some x) = within_tolerance

unfoldable pub evaluate_candidate :
    Dict MetricValue
    → Option (Dict MetricValue)
    → PromotionPolicy
    → String
    → Option String
    → PromotionDecision
unfolding missing_keys objections champion_f1
evaluate_candidate candidate champion policy candidate_version champion_version =
    let missing = missing_keys candidate in
    let reasons = objections candidate champion policy in
    let decide : Bool → List PromotionReason → PromotionDecision = λ p rs. record {
      promote = p;
      reasons = rs;
      candidate_version = candidate_version;
      champion_version = champion_version;
    } in
    if not (is_empty missing) && policy.require_all_metrics
    then decide false (missing_metrics missing ∷ [])
    else if is_empty reasons
    then decide true (floors_met ∷ standing (champion_f1 champion) ∷ [])
    else decide false reasons
