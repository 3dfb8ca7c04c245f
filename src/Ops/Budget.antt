-- ===== src/Ops/Budget.antt =====
-- app/services/ops/scoring.py: budget risk, and the order of app/services/ops/budget_service.py.
pub mod Monotone
use google_ads_intelligence.Base.{ℕ, Bool, Option, none, some, if◌then◌else◌}
use google_ads_intelligence.Base.Float.{FloatOps, ◌≤f◌, ◌/f◌, is_zero, min_f, max_f}
use google_ads_intelligence.Ops.Rules.{BudgetRules}

pub data Risk : Type 0 where
  healthy warning critical : Risk

pub record BudgetRiskResult (F : Type 0) : Type 0 where
  pub risk : Risk
  pub projected_eod_spend : F
  pub utilization : Option F

module _ {F : Type 0} ⦃fl : FloatOps F⦄ where
  unfoldable pub elapsed : F → BudgetRules F → F
  elapsed fraction_of_day_elapsed rules =
      max_f rules.projection_min_elapsed (min_f (fl.decimal 10 1) fraction_of_day_elapsed)

module _ {F : Type 0} ⦃fl : FloatOps F⦄ (daily_budget spend_so_far fraction_of_day_elapsed : F)
    (rules : BudgetRules F) where
  unfoldable pub utilization : Option F
  utilization = if is_zero daily_budget then none else some (spend_so_far /f daily_budget)

  -- `elapsed` is zero only if the rules say so: `none` stands for ZeroDivisionError.
  unfoldable pub projected : Option F
  projected =
      if is_zero spend_so_far
      then some (fl.decimal 0 1)
      else if is_zero (elapsed fraction_of_day_elapsed rules)
      then none
      else some (spend_so_far /f elapsed fraction_of_day_elapsed rules)

  abbrev pub grade : F → Risk
  grade p = elim utilization [
    | none ↦ Risk.healthy
    | some util ↦
        if rules.critical_utilization ≤f util
        then Risk.critical
        else if rules.warning_utilization ≤f util
        then Risk.warning
        else if rules.critical_utilization ≤f p /f daily_budget
        then Risk.warning
        else Risk.healthy
  ]

  abbrev pub assessed : F → BudgetRiskResult F
  assessed p = record {
    risk = grade p;
    projected_eod_spend = fl.round_at 2 p;
    utilization = utilization;
  }

  unfoldable pub compute_budget_risk : Option (BudgetRiskResult F)
  compute_budget_risk = elim projected [ none ↦ none | some p ↦ some (assessed p) ]
