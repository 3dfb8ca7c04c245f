-- ===== src/Ops/Health.antt =====
-- app/services/ops/scoring.py: the campaign health score. Each check of `compute_campaign_health`
-- is a step on the tally that its closure `penalise` changes.
pub mod Accounting
pub mod Bands
pub mod Headline
use google_ads_intelligence.Base.{
  ℕ, zero, suc, Bool, true, false, not, ◌&&◌, Option, none, some, List, [], ◌∷◌, any, ltb, leb,
  ◌==◌, if◌then◌else◌,
}
use google_ads_intelligence.Base.Int.{ℤ, pos, ◌-ℤ◌, min_ℤ, leb_ℤ}
use google_ads_intelligence.Base.Float.{FloatOps, ◌<f◌, ◌≤f◌, int}
use google_ads_intelligence.Ops.Rules.{HealthRules}
use google_ads_intelligence.Ops.Scoring.{
  Severity, Code, Label, Level, Issue, Tally, CampaignContext, pct_change, ctr, avg_cpc, is_active,
  budget_utilization, penalise, clamp, severity_rank,
}

pub record HealthResult (F : Type 0) : Type 0 where
  pub score : ℤ
  pub level : Level
  pub issues : List (Issue F)
  pub primary_reason : Option (Label F)
  pub is_active : Bool

abbrev pub is_no_impressions : Code → Bool
is_no_impressions Code.no_impressions = true
is_no_impressions _ = false

module _ {F : Type 0} where
  -- `_level_from_score`
  unfoldable pub level_from_score : ℤ → HealthRules F → Level
  level_from_score score rules =
      if leb_ℤ rules.healthy_at score
      then Level.healthy
      else if leb_ℤ rules.warning_at score
      then Level.warning
      else if leb_ℤ rules.critical_at score
      then Level.high
      else Level.critical

  -- A stable sort puts the first of the issues of least rank in front.
  unfoldable pub headline_from : Issue F → List (Issue F) → Issue F
  headline_from best [] = best
  headline_from best (i ∷ issues) =
      headline_from
        (if ltb (severity_rank i.severity) (severity_rank best.severity) then i else best) issues

  -- `_primary_reason`
  unfoldable pub primary_reason : List (Issue F) → Option (Label F)
  primary_reason [] = none
  primary_reason (i ∷ issues) = some (headline_from i issues).label

-- The change of a ratio that both days may lack.
module _ {F : Type 0} ⦃fl : FloatOps F⦄ where
  unfoldable pub delta : Option F → Option F → Option F
  delta none p = none
  delta (some t) none = none
  delta (some t) (some p) = pct_change t p

module _ {F : Type 0} ⦃fl : FloatOps F⦄ (ctx : CampaignContext F) (rules : HealthRules F) where
  unfoldable pub check_impressions : Tally F → Tally F
  check_impressions t =
      if ctx.today.impressions == 0
      then (let t' =
            penalise (pos 0) Code.no_impressions Label.no_impressions_today Severity.critical t in
          record t' { score = min_ℤ t'.score (rules.critical_at -ℤ pos 5) })
      else t

  unfoldable pub check_ctr_floor : Tally F → Tally F
  check_ctr_floor t = elim (ctr ctx.today) [
    | none ↦ t
    | some r ↦
        if r <f rules.ctr_floor
        then penalise rules.ctr_penalty Code.low_ctr (Label.ctr_below r rules.ctr_floor)
            Severity.high t
        else t
  ]

  unfoldable pub check_ctr_drop : Tally F → Tally F
  check_ctr_drop t = elim (delta (ctr ctx.today) (ctr ctx.prior)) [
    | none ↦ t
    | some d ↦
        if d ≤f fl.neg rules.ctr_drop_pct
        then penalise rules.ctr_drop_penalty Code.ctr_drop (Label.ctr_dropped (fl.abs d))
            Severity.high t
        else t
  ]

  unfoldable pub check_cpc_rise : Tally F → Tally F
  check_cpc_rise t = elim (delta (avg_cpc ctx.today) (avg_cpc ctx.prior)) [
    | none ↦ t
    | some d ↦
        if rules.cpc_rise_pct ≤f d
        then penalise rules.cpc_rise_penalty Code.cpc_rise (Label.cpc_up d) Severity.medium t
        else t
  ]

  unfoldable pub check_quality_score : Tally F → Tally F
  check_quality_score t = elim ctx.avg_quality_score [
    | none ↦ t
    | some q ↦
        if q <f int rules.quality_score_floor
        then penalise rules.quality_score_penalty Code.low_qs
            (Label.avg_quality_score_below q rules.quality_score_floor) Severity.high t
        else t
  ]

  unfoldable pub check_budget : Tally F → Tally F
  check_budget t = elim (budget_utilization ctx) [
    | none ↦ t
    | some u ↦
        if fl.decimal 10 1 ≤f u
        then penalise rules.limited_by_budget_penalty Code.limited_by_budget
            Label.limited_by_budget_spent Severity.high t
        else if rules.budget_util_warn ≤f u
        then penalise rules.budget_util_penalty Code.budget_nearly_exhausted (Label.budget_spent u)
            Severity.medium t
        else t
  ]

  unfoldable pub check_optimization : Tally F → Tally F
  check_optimization t = elim ctx.optimization_score [
    | none ↦ t
    | some o ↦
        if o <f rules.optimization_score_floor
        then penalise rules.optimization_score_penalty Code.low_opt_score
            (Label.optimization_score_of o) Severity.medium t
        else t
  ]

  unfoldable pub check_disapproved_ads : Tally F → Tally F
  check_disapproved_ads t =
      if ltb 0 ctx.disapproved_ads
      then penalise rules.disapproved_ads_penalty Code.disapproved_ads
          (Label.disapproved_ad_count ctx.disapproved_ads) Severity.high t
      else t

  unfoldable pub check_disapproved_keywords : Tally F → Tally F
  check_disapproved_keywords t =
      if ltb 0 ctx.disapproved_keywords
      then penalise rules.disapproved_keywords_penalty Code.disapproved_keywords
          (Label.disapproved_keyword_count ctx.disapproved_keywords) Severity.medium t
      else t

  -- The checks in the order of the source, from the starting score.
  unfoldable pub health_tally : Tally F
  health_tally = check_disapproved_keywords (
      check_disapproved_ads (
        check_optimization (
          check_budget (
            check_quality_score (
              check_cpc_rise (
                check_ctr_drop (
                  check_ctr_floor
                    (check_impressions (record { score = rules.start_score; issues = [] })))))))))

  unfoldable pub compute_campaign_health : HealthResult F
  compute_campaign_health =
      if not (is_active ctx)
      then record {
        score = pos 100;
        level = Level.ignored;
        issues = [];
        primary_reason = none;
        is_active = false;
      }
      else (let t = health_tally in
          let score = clamp t.score in
          record {
            score = score;
            level =
                if any (λ (i : Issue F). is_no_impressions i.code) t.issues
                then Level.critical
                else level_from_score score rules;
            issues = t.issues;
            primary_reason = primary_reason t.issues;
            is_active = true;
          })
