-- ===== src/Mlops/Promotion/Gate.antt =====
-- ml/mlops/promotion.py: what a candidate has to have to pass the gate.
use sentinelops_ai.Prelude.{
  ℕ, ◌+◌, ◌≤◌, String, ◌≡◌, refl, ◌↔◌, inl, inr, Bool, true, false, Option, none, some, List, [],
  ◌∷◌, arith, ++-eq-[], not, ◌&&◌, is_empty, Bool-cases,
}
use sentinelops_ai.Prelude.Dict.{Dict}
use sentinelops_ai.Mlops.Promotion.{
  Number, number, not_a_number, MetricValue, PromotionPolicy, f1_key, recall_key, pr_auc_key,
  metric, below, or_zero, name_if_none, missing_keys, champion_f1, regression, reason_if,
  PromotionReason, pr_auc_below_floor, recall_below_floor, objections, evaluate_candidate,
}

-- A metric that is a number is not under its floor.
abbrev pub Reaches : Number → ℕ → Type 0
Reaches (number x) floor = floor ≤ x
Reaches not_a_number floor = Unit

-- F1 values that are numbers and their drop is within the tolerance
abbrev pub Holds : Number → Option Number → ℕ → Type 0
Holds (number x) (some (number y)) tolerance = y ≤ x + tolerance
Holds (number x) (some not_a_number) tolerance = Unit
Holds (number x) none tolerance = Unit
Holds not_a_number champion tolerance = Unit

abbrev pub Present : Dict MetricValue → String → Type 0
Present metrics key = (x : Number) × (metric metrics key ≡ some x)

pub record Passes (candidate : Dict MetricValue) (champion : Option (Dict MetricValue))
    (policy : PromotionPolicy) : Type 0 where
  pub complete :
      policy.require_all_metrics ≡ true
      → Present candidate f1_key × Present candidate recall_key × Present candidate pr_auc_key
  pub f1 : Reaches (or_zero (metric candidate f1_key)) policy.min_f1
  pub recall : Reaches (or_zero (metric candidate recall_key)) policy.min_recall
  pub pr_auc : Reaches (or_zero (metric candidate pr_auc_key)) policy.min_pr_auc
  pub no_regression :
      Holds
        (or_zero (metric candidate f1_key))
        (champion_f1 champion)
        policy.f1_regression_tolerance

below_iff : (x : Number) (floor : ℕ) → (below x floor ≡ false) ↔ Reaches x floor
below_iff (number x) floor = (λ h. ground arith, λ h. ground arith)
below_iff not_a_number floor = (λ h. tt, λ h. refl)

regression_iff :
    (x : Number) (champion : Option Number) (tolerance : ℕ)
    → (regression x champion tolerance ≡ []) ↔ Holds x champion tolerance
regression_iff (number x) (some (number y)) t = (λ h. ground arith, λ h. ground arith)
regression_iff (number x) (some not_a_number) t = (λ h. tt, λ h. refl)
regression_iff (number x) none t = (λ h. tt, λ h. refl)
regression_iff not_a_number (some y) t = (λ h. tt, λ h. refl)
regression_iff not_a_number none t = (λ h. tt, λ h. refl)

name_if_none_iff :
    (key : String) (o : Option Number) → (name_if_none key o ≡ []) ↔ ((x : Number) × (o ≡ some x))
name_if_none_iff key none = (λ h. ground arith, λ (x, h). ground arith)
name_if_none_iff key (some x) = (λ h. (x, refl), λ h. refl)

missing_keys_iff :
    (candidate : Dict MetricValue)
    → (missing_keys candidate ≡ [])
      ↔ (Present candidate f1_key × Present candidate recall_key × Present candidate pr_auc_key)
unfolding missing_keys
missing_keys_iff candidate =
    let f1 = metric candidate f1_key in
    let recall = metric candidate recall_key in
    let pr_auc = metric candidate pr_auc_key in
    (
      (λ h.
          let (ab, c) = ++-eq-[] _ (name_if_none recall_key recall) h in
          let (a, b) = ++-eq-[] _ (name_if_none pr_auc_key pr_auc) ab in
          (
            (name_if_none_iff f1_key f1).0 a,
            (name_if_none_iff recall_key recall).0 c,
            (name_if_none_iff pr_auc_key pr_auc).0 b,
          )),
      (λ (a, c, b).
          rw
            (
              (name_if_none_iff f1_key f1).1 a,
              (name_if_none_iff recall_key recall).1 c,
              (name_if_none_iff pr_auc_key pr_auc).1 b,
            )
            refl),
    )

reason_if_iff : (b : Bool) (r : PromotionReason) → (reason_if b r ≡ []) ↔ (b ≡ false)
reason_if_iff b r = ground arith

objections_iff :
    (candidate : Dict MetricValue) (champion : Option (Dict MetricValue)) (policy : PromotionPolicy)
    → (objections candidate champion policy ≡ []) ↔ (
        Reaches (or_zero (metric candidate f1_key)) policy.min_f1
        × Reaches (or_zero (metric candidate recall_key)) policy.min_recall
        × Reaches (or_zero (metric candidate pr_auc_key)) policy.min_pr_auc
        × Holds
            (or_zero (metric candidate f1_key))
            (champion_f1 champion)
            policy.f1_regression_tolerance)
unfolding objections
objections_iff candidate champion policy =
    let f1 = or_zero (metric candidate f1_key) in
    let recall = or_zero (metric candidate recall_key) in
    let pr_auc = or_zero (metric candidate pr_auc_key) in
    let (a_from, a_into) = below_iff f1 policy.min_f1 in
    let (b_from, b_into) = below_iff recall policy.min_recall in
    let (c_from, c_into) = below_iff pr_auc policy.min_pr_auc in
    let (d_from, d_into) =
      regression_iff f1 (champion_f1 champion) policy.f1_regression_tolerance in
    (
      (λ h.
          let (abc, d) =
            ++-eq-[] _ (regression f1 (champion_f1 champion) policy.f1_regression_tolerance) h in
          let (ab, c) =
            ++-eq-[] _ (reason_if (below pr_auc policy.min_pr_auc) pr_auc_below_floor) abc in
          let (a, b) =
            ++-eq-[] _ (reason_if (below recall policy.min_recall) recall_below_floor) ab in
          (
            a_from ((reason_if_iff _ _).0 a),
            b_from ((reason_if_iff _ _).0 b),
            c_from ((reason_if_iff _ _).0 c),
            d_from d,
          )),
      (λ (a, b, c, d). rw (a_into a, b_into b, c_into c, d_into d) refl),
    )

is_empty_iff : {A : Type 0} (xs : List A) → (is_empty xs ≡ true) ↔ (xs ≡ [])
is_empty_iff [] = (λ h. refl, λ h. refl)
is_empty_iff (x ∷ xs) = ground arith

-- The gate promotes a candidate exactly when its metrics are there, where the policy requires
-- them, each of the three that is a number reaches its floor, with 0 for a missing one, and its F1
-- has not dropped under the champion's by more than the tolerance, where both are numbers and
-- there is a champion with an F1.
pub evaluate_candidate_iff :
    (candidate : Dict MetricValue) (champion : Option (Dict MetricValue)) (policy : PromotionPolicy)
    (candidate_version : String) (champion_version : Option String)
    → ((evaluate_candidate candidate champion policy candidate_version champion_version).promote
        ≡ true)
      ↔ Passes candidate champion policy
unfolding evaluate_candidate
evaluate_candidate_iff candidate champion policy candidate_version champion_version =
    let (m_from, m_into) = missing_keys_iff candidate in
    let (o_from, o_into) = objections_iff candidate champion policy in
    let (none_missing, missing_none) = is_empty_iff (missing_keys candidate) in
    let (no_reason, reason_none) = is_empty_iff (objections candidate champion policy) in
    let incomplete = not (is_empty (missing_keys candidate)) && policy.require_all_metrics in
    elim (Bool-cases incomplete) [
      | inl e ↦ rw e (
        (λ h. ground arith),
        (λ c.
            let present = m_into (c.complete (ground (arith, e))) in
            ground (arith, e, missing_none present)),
      )
      | inr e ↦ elim (Bool-cases (is_empty (objections candidate champion policy))) [
        | inl r ↦
            let (a, b, c, d) = o_from (no_reason r) in
            rw (e, r)
              (
                (λ h. record {
                  complete = λ q. m_from (none_missing (ground (arith, e, q)));
                  f1 = a;
                  recall = b;
                  pr_auc = c;
                  no_regression = d;
                }),
                (λ h. refl),
              )
        | inr r ↦
            rw (e, r)
              (
                (λ h. ground arith),
                (λ c.
                    let met = reason_none (o_into (c.f1, c.recall, c.pr_auc, c.no_regression)) in
                    ground (arith, r, met)),
              )
      ]
    ]
