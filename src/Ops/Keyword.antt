-- ===== src/Ops/Keyword.antt =====
-- app/services/ops/scoring.py: the keyword health score.
pub mod Accounting
use google_ads_intelligence.Base.{
  ℕ, Bool, true, false, ◌&&◌, Option, none, some, List, [], if◌then◌else◌,
}
use google_ads_intelligence.Base.Int.{ℤ, leb_ℤ, ltb_ℤ}
use google_ads_intelligence.Base.Float.{FloatOps, ◌<f◌, ◌≤f◌, is_zero}
use google_ads_intelligence.Ops.Rules.{KeywordRules}
use google_ads_intelligence.Ops.Scoring.{
  Severity, Code, Label, Level, Issue, Tally, DayMetrics, ctr, penalise, clamp,
}

pub record KeywordContext (F : Type 0) : Type 0 where
  pub quality_score : Option ℤ
  pub cost : F
  pub conversions : F
  pub metrics : DayMetrics F

pub record KeywordHealthResult (F : Type 0) : Type 0 where
  pub score : ℤ
  pub level : Level
  pub issues : List (Issue F)

module _ {F : Type 0} ⦃fl : FloatOps F⦄ (ctx : KeywordContext F) (rules : KeywordRules F) where
  unfoldable pub check_quality_score : Tally F → Tally F
  check_quality_score t = elim ctx.quality_score [
    | none ↦ t
    | some q ↦
        if leb_ℤ q rules.low_quality_score
        then penalise rules.low_quality_penalty Code.very_low_qs (Label.quality_score_of q)
            Severity.critical t
        else if ltb_ℤ q rules.quality_score_floor
        then penalise rules.quality_score_penalty Code.low_qs (Label.quality_score_of q)
            Severity.high t
        else t
  ]

  unfoldable pub check_ctr : Tally F → Tally F
  check_ctr t = elim (ctr ctx.metrics) [
    | none ↦ t
    | some r ↦
        if r <f rules.ctr_floor
        then penalise rules.ctr_penalty Code.low_ctr (Label.ctr_of r) Severity.medium t
        else t
  ]

  unfoldable pub check_spend : Tally F → Tally F
  check_spend t =
      if (rules.zero_conversion_min_cost ≤f ctx.cost) && is_zero ctx.conversions
      then penalise rules.zero_conversion_penalty Code.spend_no_conv Label.spend_without_conversions
          Severity.high t
      else t

  unfoldable pub keyword_tally : Tally F
  keyword_tally =
      check_spend
        (check_ctr (check_quality_score (record { score = rules.start_score; issues = [] })))

  unfoldable pub compute_keyword_health : KeywordHealthResult F
  compute_keyword_health =
      let t = keyword_tally in
      let score = clamp t.score in
      record {
        score = score;
        level =
            if leb_ℤ rules.healthy_at score
            then Level.healthy
            else if leb_ℤ rules.warning_at score
            then Level.warning
            else Level.critical;
        issues = t.issues;
      }
