-- ===== src/Ops/Rules.antt =====
-- app/config/ops_rules.py: every threshold, weight and penalty. The rules are arguments of the
-- scoring functions, so the theorems hold for any configuration; the values below are the defaults.
use google_ads_intelligence.Base.{ℕ}
use google_ads_intelligence.Base.Int.{ℤ, pos}
use google_ads_intelligence.Base.Float.{FloatOps}

pub record HealthRules (F : Type 0) : Type 0 where
  pub start_score : ℤ
  pub ctr_floor : F
  pub ctr_penalty : ℤ
  pub quality_score_floor : ℤ
  pub quality_score_penalty : ℤ
  pub optimization_score_floor : F
  pub optimization_score_penalty : ℤ
  pub budget_util_warn : F
  pub budget_util_penalty : ℤ
  pub limited_by_budget_penalty : ℤ
  pub disapproved_ads_penalty : ℤ
  pub disapproved_keywords_penalty : ℤ
  pub ctr_drop_pct : F
  pub ctr_drop_penalty : ℤ
  pub cpc_rise_pct : F
  pub cpc_rise_penalty : ℤ
  pub healthy_at : ℤ
  pub warning_at : ℤ
  pub critical_at : ℤ

pub record KeywordRules (F : Type 0) : Type 0 where
  pub start_score : ℤ
  pub quality_score_floor : ℤ
  pub quality_score_penalty : ℤ
  pub low_quality_score : ℤ
  pub low_quality_penalty : ℤ
  pub ctr_floor : F
  pub ctr_penalty : ℤ
  pub zero_conversion_min_cost : F
  pub zero_conversion_penalty : ℤ
  pub healthy_at : ℤ
  pub warning_at : ℤ

pub record BudgetRules (F : Type 0) : Type 0 where
  pub warning_utilization : F
  pub critical_utilization : F
  pub projection_min_elapsed : F

pub record AlertRules (F : Type 0) : Type 0 where
  pub ctr_drop_pct : F
  pub cpc_rise_pct : F
  pub spend_spike_pct : F
  pub quality_score_drop : ℤ
  pub search_term_spike_count : ℕ
  pub limited_by_budget_util : F
  pub min_impressions_for_ctr_alert : ℕ
  pub critical_ctr_drop_pct : F
  pub critical_spend_spike_pct : F

-- Minutes are not negative.
pub record PriorityRules (F : Type 0) : Type 0 where
  pub health_weight : F
  pub spend_weight : F
  pub high_spend_reference : F
  pub base_review_minutes : ℕ
  pub minutes_per_issue : ℕ
  pub max_review_minutes : ℕ

pub record OpsRules (F : Type 0) : Type 0 where
  pub health : HealthRules F
  pub keyword : KeywordRules F
  pub budget : BudgetRules F
  pub alert : AlertRules F
  pub priority : PriorityRules F

module _ (F : Type 0) ⦃fl : FloatOps F⦄ where
  abbrev pub default_health : HealthRules F
  default_health = record {
    start_score = pos 100;
    ctr_floor = fl.decimal 2 2;
    ctr_penalty = pos 15;
    quality_score_floor = pos 5;
    quality_score_penalty = pos 15;
    optimization_score_floor = fl.decimal 6 1;
    optimization_score_penalty = pos 10;
    budget_util_warn = fl.decimal 85 2;
    budget_util_penalty = pos 10;
    limited_by_budget_penalty = pos 20;
    disapproved_ads_penalty = pos 20;
    disapproved_keywords_penalty = pos 10;
    ctr_drop_pct = fl.decimal 20 2;
    ctr_drop_penalty = pos 15;
    cpc_rise_pct = fl.decimal 20 2;
    cpc_rise_penalty = pos 10;
    healthy_at = pos 80;
    warning_at = pos 60;
    critical_at = pos 40;
  }

  abbrev pub default_keyword : KeywordRules F
  default_keyword = record {
    start_score = pos 100;
    quality_score_floor = pos 5;
    quality_score_penalty = pos 25;
    low_quality_score = pos 3;
    low_quality_penalty = pos 40;
    ctr_floor = fl.decimal 1 2;
    ctr_penalty = pos 15;
    zero_conversion_min_cost = fl.decimal 5000 1;
    zero_conversion_penalty = pos 20;
    healthy_at = pos 80;
    warning_at = pos 60;
  }

  abbrev pub default_budget : BudgetRules F
  default_budget = record {
    warning_utilization = fl.decimal 85 2;
    critical_utilization = fl.decimal 10 1;
    projection_min_elapsed = fl.decimal 5 2;
  }

  abbrev pub default_alert : AlertRules F
  default_alert = record {
    ctr_drop_pct = fl.decimal 20 2;
    cpc_rise_pct = fl.decimal 25 2;
    spend_spike_pct = fl.decimal 50 2;
    quality_score_drop = pos 1;
    search_term_spike_count = 25;
    limited_by_budget_util = fl.decimal 95 2;
    min_impressions_for_ctr_alert = 100;
    critical_ctr_drop_pct = fl.decimal 40 2;
    critical_spend_spike_pct = fl.decimal 10 1;
  }

  abbrev pub default_priority : PriorityRules F
  default_priority = record {
    health_weight = fl.decimal 7 1;
    spend_weight = fl.decimal 3 1;
    high_spend_reference = fl.decimal 50000 1;
    base_review_minutes = 3;
    minutes_per_issue = 2;
    max_review_minutes = 30;
  }

  abbrev pub default_ops : OpsRules F
  default_ops = record {
    health = default_health;
    keyword = default_keyword;
    budget = default_budget;
    alert = default_alert;
    priority = default_priority;
  }
