-- ===== src/Tests/Ops.antt =====
-- The scoring functions at concrete campaigns.
use google_ads_intelligence.Base.{◌≡◌, refl, true, none, some, List, [], ◌≤◌}
use google_ads_intelligence.Base.Int.{pos, ◌-ℤ◌, ◌+ℤ◌, ◌≤ℤ◌}
use google_ads_intelligence.Base.Text.{codes, upper}
use google_ads_intelligence.Base.Float.{nat}
use google_ads_intelligence.Ops.Rules.{
  default_health, default_keyword, default_budget, default_priority,
}
use google_ads_intelligence.Ops.Scoring
use google_ads_intelligence.Ops.Scoring.{
  DayMetrics, CampaignContext, Issue, Level, Label, clamp, is_active,
}
use google_ads_intelligence.Ops.Health
use google_ads_intelligence.Ops.Health.{compute_campaign_health, HealthResult}
use google_ads_intelligence.Ops.Health.Accounting.{
  base_score, total_price, compute_campaign_health-score, compute_campaign_health_bounds,
}
use google_ads_intelligence.Base.{◌⊎◌, false}
use google_ads_intelligence.Base.Float.{◌<f◌}
use google_ads_intelligence.Ops.Health.Bands.{InBand, compute_campaign_health-level}
use google_ads_intelligence.Ops.Health.Headline.{Explains, primary_reason-Explains}
use google_ads_intelligence.Ops.Keyword
use google_ads_intelligence.Ops.Keyword.{KeywordContext, compute_keyword_health}
use google_ads_intelligence.Ops.Keyword.Accounting.{compute_keyword_health-score}
use google_ads_intelligence.Ops.Budget
use google_ads_intelligence.Ops.Budget.{BudgetRiskResult, compute_budget_risk}
use google_ads_intelligence.Ops.Budget.Monotone.{risk_rank, compute_budget_risk_mono}
use google_ads_intelligence.Ops.Priority.{
  PriorityResult, IsPriority, compute_priority, compute_priority-IsPriority,
}
use google_ads_intelligence.Tests.Fixed.{Fixed, fixed_ops, fixed_laws, units}

abbrev today : DayMetrics Fixed
today = record { impressions = 1000; clicks = 10; cost = nat 950; conversions = nat 1 }

abbrev quiet : DayMetrics Fixed
quiet = record { impressions = 0; clicks = 0; cost = nat 0; conversions = nat 0 }

abbrev campaign : CampaignContext Fixed
campaign = record {
  status = codes "ENABLED";
  daily_budget = nat 1000;
  spend_today = nat 950;
  optimization_score = none;
  avg_quality_score = some (nat 4);
  disapproved_ads = 1;
  disapproved_keywords = 0;
  today = today;
  prior = quiet;
}

program : Unit {0}
unfolding compute_campaign_health Health.health_tally Health.check_impressions
    Health.check_ctr_floor Health.check_ctr_drop Health.check_cpc_rise Health.check_quality_score
    Health.check_budget Health.check_optimization Health.check_disapproved_ads
    Health.check_disapproved_keywords Health.delta Health.primary_reason Health.level_from_score
    Health.headline_from Scoring.pct_change Scoring.ctr Scoring.avg_cpc Scoring.is_active
    Scoring.budget_utilization Scoring.penalise Scoring.clamp upper ◌-ℤ◌ ◌+ℤ◌ total_price
program = tt

run_health : (compute_campaign_health campaign (default_health Fixed)).score ≡ pos 40
unfolding program
run_health = refl

run_level : (compute_campaign_health campaign (default_health Fixed)).level ≡ Level.high
unfolding program
run_level = refl

active : is_active campaign ≡ true
unfolding program
active = refl

compute_campaign_health-score_example :
    (compute_campaign_health campaign (default_health Fixed)).score
    ≡ clamp (
        base_score campaign (default_health Fixed)
        -ℤ total_price
            (default_health Fixed)
            (compute_campaign_health campaign (default_health Fixed)).issues)
compute_campaign_health-score_example =
    compute_campaign_health-score campaign (default_health Fixed) active

compute_campaign_health_bounds_example :
    (pos 0 ≤ℤ (compute_campaign_health campaign (default_health Fixed)).score)
    × ((compute_campaign_health campaign (default_health Fixed)).score ≤ℤ pos 100)
compute_campaign_health_bounds_example =
    compute_campaign_health_bounds campaign (default_health Fixed)

compute_campaign_health-level_example :
    let r = compute_campaign_health campaign (default_health Fixed) in
    (r.is_active ≡ is_active campaign)
    × (((is_active campaign ≡ false)
          × ((r.level ≡ Level.ignored) × ((r.score ≡ pos 100) × (r.issues ≡ []))))
        ⊎ ((is_active campaign ≡ true)
            × (((campaign.today.impressions ≡ 0) × (r.level ≡ Level.critical))
                ⊎ ((1 ≤ campaign.today.impressions)
                    × InBand (default_health Fixed) r.score r.level))))
compute_campaign_health-level_example =
    compute_campaign_health-level campaign (default_health Fixed)

issues : List (Issue Fixed)
issues = (compute_campaign_health campaign (default_health Fixed)).issues

primary_reason-Explains_example : Explains issues (Health.primary_reason issues)
primary_reason-Explains_example = primary_reason-Explains issues

keyword : KeywordContext Fixed
keyword = record {
  quality_score = some (pos 3);
  cost = nat 600;
  conversions = nat 0;
  metrics = today;
}

compute_keyword_health-score_example :
    let r = compute_keyword_health keyword (default_keyword Fixed) in
    (r.score ≡ clamp (pos 100 -ℤ Keyword.Accounting.total_price (default_keyword Fixed) r.issues))
    × (pos 0 ≤ℤ r.score)
    × (r.score ≤ℤ pos 100)
compute_keyword_health-score_example = compute_keyword_health-score keyword (default_keyword Fixed)

-- Half of the day has passed.
half_day_pos : (nat 0 <f Budget.elapsed (units 5000) (default_budget Fixed)) ≡ true
unfolding Budget.elapsed
half_day_pos = refl

compute_budget_risk_mono_example :
    (r r' : BudgetRiskResult Fixed) × (compute_budget_risk
        (nat 1000)
        (nat 300)
        (units 5000)
        (default_budget Fixed)
      ≡ some r)
    × (compute_budget_risk (nat 1000) (nat 600) (units 5000) (default_budget Fixed) ≡ some r')
    × (risk_rank r.risk ≤ risk_rank r'.risk)
compute_budget_risk_mono_example =
    compute_budget_risk_mono fixed_laws (nat 1000) (units 5000) (default_budget Fixed) refl
      half_day_pos (nat 300) (nat 600) refl

compute_priority-IsPriority_example :
    (p : PriorityResult Fixed) × (compute_priority
        (compute_campaign_health campaign (default_health Fixed))
        (nat 950)
        (default_priority Fixed)
      ≡ some p)
    × IsPriority
        (compute_campaign_health campaign (default_health Fixed))
        (nat 950)
        (default_priority Fixed)
        p
compute_priority-IsPriority_example =
    compute_priority-IsPriority (compute_campaign_health campaign (default_health Fixed)) (nat 950)
      (default_priority Fixed) refl
