-- ===== src/Alerts/Analysis.antt =====
-- app/services/ops/campaign_analysis.py: the analysis of every campaign. The grouped queries of
-- app/repositories/ops.py are arguments.
use google_ads_intelligence.Base.{ℕ, Option, none, some, List, [], ◌∷◌, if◌then◌else◌}
use google_ads_intelligence.Base.Dict.{Dict}
use google_ads_intelligence.Base.Text.{Text, or_empty}
use google_ads_intelligence.Base.Float.{FloatOps, nat, is_zero}
use google_ads_intelligence.Ops.Rules.{OpsRules}
use google_ads_intelligence.Ops.Scoring.{DayMetrics, CampaignContext, budget_utilization}
use google_ads_intelligence.Ops.Health.{HealthResult, compute_campaign_health}
use google_ads_intelligence.Ops.Priority.{PriorityResult, compute_priority}

-- A row of `campaign_meta`.
pub record Meta (F : Type 0) : Type 0 where
  pub campaign_id : ℕ
  pub name : Option Text
  pub account_id : ℕ
  pub status : Option Text
  pub optimization_score : Option F

-- A row of `campaign_metrics_by_day`.
pub record DayRow (F : Type 0) : Type 0 where
  pub impressions : ℕ
  pub clicks : ℕ
  pub cost : F
  pub conversions : F
  pub budget : F

-- RefDates, as day numbers.
pub record RefDates : Type 0 where
  pub latest : ℕ
  pub prior : ℕ

-- The queries that an analysis makes.
pub record OpsQueries (F : Type 0) : Type 0 where
  pub campaign_meta : Dict ℕ (Meta F)
  pub campaign_metrics_by_day : ℕ → ℕ → Option (DayRow F)
  pub avg_quality_score_by_campaign : ℕ → ℕ → Option F
  pub disapproved_ads_by_campaign : ℕ → Option ℕ

-- CampaignAnalysis
pub record CampaignAnalysis (F : Type 0) : Type 0 where
  pub campaign_pk : ℕ
  pub campaign_id : ℕ
  pub name : Option Text
  pub account_id : ℕ
  pub status : Option Text
  pub daily_budget : F
  pub spend_today : F
  pub spend_yesterday : F
  pub budget_utilization : Option F
  pub optimization_score : Option F
  pub today : DayMetrics F
  pub prior : DayMetrics F
  pub health : HealthResult F
  pub priority : PriorityResult F

module _ {F : Type 0} ⦃fl : FloatOps F⦄ where
  -- `DayMetrics(impressions=raw.get("impressions", 0), ...)`
  unfoldable pub day_metrics : Option (DayRow F) → DayMetrics F
  day_metrics none = record { impressions = 0; clicks = 0; cost = nat 0; conversions = nat 0 }
  day_metrics (some raw) = record {
    impressions = raw.impressions;
    clicks = raw.clicks;
    cost = raw.cost;
    conversions = raw.conversions;
  }

  abbrev pub budget_of : Option (DayRow F) → F
  budget_of none = nat 0
  budget_of (some raw) = raw.budget

  -- `today_raw.get("budget", 0.0) or prior_raw.get("budget", 0.0)`
  unfoldable pub daily_budget_of : Option (DayRow F) → Option (DayRow F) → F
  daily_budget_of today_raw prior_raw =
      if is_zero (budget_of today_raw) then budget_of prior_raw else budget_of today_raw

  module _ (queries : OpsQueries F) (refs : RefDates) where
    -- The context of a campaign.
    unfoldable pub context_of : ℕ → Meta F → CampaignContext F
    context_of pk m =
        let today_raw = queries.campaign_metrics_by_day pk refs.latest in
        let prior_raw = queries.campaign_metrics_by_day pk refs.prior in
        let today = day_metrics today_raw in
        record {
          status = or_empty m.status;
          daily_budget = daily_budget_of today_raw prior_raw;
          spend_today = today.cost;
          optimization_score = m.optimization_score;
          avg_quality_score = queries.avg_quality_score_by_campaign refs.latest pk;
          disapproved_ads = elim (queries.disapproved_ads_by_campaign pk) [ none ↦ 0 | some n ↦ n ];
          disapproved_keywords = 0;
          today = today;
          prior = day_metrics prior_raw;
        }

    -- One turn of the loop; none where `compute_priority` raises.
    unfoldable pub analyze_campaign : OpsRules F → ℕ → Meta F → Option (CampaignAnalysis F)
    analyze_campaign rules pk m =
        let ctx = context_of pk m in
        let health = compute_campaign_health ctx rules.health in
        elim (compute_priority health ctx.today.cost rules.priority) [
          | none ↦ none
          | some priority ↦ some (record {
            campaign_pk = pk;
            campaign_id = m.campaign_id;
            name = m.name;
            account_id = m.account_id;
            status = m.status;
            daily_budget = fl.round_at 2 ctx.daily_budget;
            spend_today = fl.round_at 2 ctx.today.cost;
            spend_yesterday = fl.round_at 2 ctx.prior.cost;
            budget_utilization = budget_utilization ctx;
            optimization_score = m.optimization_score;
            today = ctx.today;
            prior = ctx.prior;
            health = health;
            priority = priority;
          })
        ]

    -- CampaignAnalyzer.analyze; none where an exception ends it.
    unfoldable pub analyze : OpsRules F → Dict ℕ (Meta F) → Option (List (CampaignAnalysis F))
    analyze rules [] = some []
    analyze rules ((pk, m) ∷ metas) = elim (analyze_campaign rules pk m) [
      | none ↦ none
      | some a ↦ elim (analyze rules metas) [ none ↦ none | some rest ↦ some (a ∷ rest) ]
    ]
