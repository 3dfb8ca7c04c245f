-- ===== src/Ops/Scoring.antt =====
-- app/services/ops/scoring.py: the data that the scores are computed from, and what they share.
-- A formatted label is a value of `Label`, with a constructor for each template.
use google_ads_intelligence.Base.{
  ℕ, Bool, not, Option, none, some, List, [], ◌∷◌, ◌++◌, ◌==◌, if◌then◌else◌,
}
use google_ads_intelligence.Base.{arith}
use google_ads_intelligence.Base.Int.{◌≤ℤ◌, ℤ, pos, ◌-ℤ◌, min_ℤ, max_ℤ}
use google_ads_intelligence.Base.Eq.{mem, list_eq, nat_eq}
use google_ads_intelligence.Base.Text.{Text, codes, upper}
use google_ads_intelligence.Base.Float.{FloatOps, ◌-f◌, ◌/f◌, nat, is_zero}

-- CRITICAL, HIGH, MEDIUM, LOW
pub data Severity : Type 0 where
  critical high medium low : Severity

-- `order.get(severity, 9)` of `_primary_reason`
abbrev pub severity_rank : Severity → ℕ
severity_rank critical = 0
severity_rank high = 1
severity_rank medium = 2
severity_rank low = 3

-- `_INACTIVE_STATUSES`
abbrev pub inactive_statuses : List Text
inactive_statuses = codes "PAUSED" ∷ codes "REMOVED" ∷ codes "UNKNOWN" ∷ codes "UNSPECIFIED" ∷ []

module _ {F : Type 0} ⦃fl : FloatOps F⦄ where
  unfoldable pub pct_change : F → F → Option F
  pct_change current previous =
      if is_zero previous then none else some ((current -f previous) /f previous)

pub record DayMetrics (F : Type 0) : Type 0 where
  pub impressions : ℕ
  pub clicks : ℕ
  pub cost : F
  pub conversions : F

module _ {F : Type 0} ⦃fl : FloatOps F⦄ where
  unfoldable pub ctr : DayMetrics F → Option F
  ctr d = if d.impressions == 0 then none else some (nat d.clicks /f nat d.impressions)

  unfoldable pub avg_cpc : DayMetrics F → Option F
  avg_cpc d = if d.clicks == 0 then none else some (d.cost /f nat d.clicks)

pub record CampaignContext (F : Type 0) : Type 0 where
  pub status : Text
  pub daily_budget : F
  pub spend_today : F
  pub optimization_score : Option F
  pub avg_quality_score : Option F
  pub disapproved_ads : ℕ
  pub disapproved_keywords : ℕ
  pub today : DayMetrics F
  pub prior : DayMetrics F

unfoldable pub is_active : {F : Type 0} → CampaignContext F → Bool
is_active ctx = not (mem (upper ctx.status) inactive_statuses)

module _ {F : Type 0} ⦃fl : FloatOps F⦄ where
  unfoldable pub budget_utilization : CampaignContext F → Option F
  budget_utilization ctx =
      if is_zero ctx.daily_budget then none else some (ctx.spend_today /f ctx.daily_budget)

pub data Code : Type 0 where
  no_impressions low_ctr ctr_drop cpc_rise low_qs limited_by_budget : Code
  budget_nearly_exhausted low_opt_score disapproved_ads disapproved_keywords : Code
  very_low_qs spend_no_conv : Code

pub data Label (F : Type 0) : Type 0 where
  no_impressions_today : Label F
  ctr_below : (ctr floor : F) → Label F
  ctr_dropped : (by : F) → Label F
  cpc_up : (by : F) → Label F
  avg_quality_score_below : (score : F) (floor : ℤ) → Label F
  limited_by_budget_spent : Label F
  budget_spent : (utilization : F) → Label F
  optimization_score_of : (score : F) → Label F
  disapproved_ad_count : ℕ → Label F
  disapproved_keyword_count : ℕ → Label F
  quality_score_of : (score : ℤ) → Label F
  ctr_of : (ctr : F) → Label F
  spend_without_conversions : Label F

pub record Issue (F : Type 0) : Type 0 where
  pub code : Code
  pub label : Label F
  pub severity : Severity

pub data Level : Type 0 where
  healthy warning high critical ignored : Level

-- The two variables that the closure `penalise` changes.
pub record Tally (F : Type 0) : Type 0 where
  pub score : ℤ
  pub issues : List (Issue F)

module _ {F : Type 0} where
  unfoldable pub penalise : ℤ → Code → Label F → Severity → Tally F → Tally F
  penalise points code label severity t = record {
    score = t.score -ℤ points;
    issues = t.issues ++ record { code = code; label = label; severity = severity } ∷ [];
  }

-- `max(0, min(100, score))`
unfoldable pub clamp : ℤ → ℤ
clamp score = max_ℤ (pos 0) (min_ℤ (pos 100) score)

pub clamp_bounds : (score : ℤ) → (pos 0 ≤ℤ clamp score) × (clamp score ≤ℤ pos 100)
unfolding clamp
clamp_bounds score = ground arith
