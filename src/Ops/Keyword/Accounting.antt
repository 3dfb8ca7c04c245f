-- ===== src/Ops/Keyword/Accounting.antt =====
-- The keyword health score accounts for its issues, and lies between 0 and 100.
use google_ads_intelligence.Base.{◌&&◌, List, [], ◌∷◌, ◌++◌, ◌≡◌, ◌∙◌, ap, if_ind, option_ind}
use google_ads_intelligence.Base.Int.{
  ℤ, pos, ◌+ℤ◌, ◌-ℤ◌, ◌≤ℤ◌, leb_ℤ, ltb_ℤ, int_laws, sub_add_add, add_zero, eq_sub_of_add,
}
use google_ads_intelligence.Base.Float.{FloatOps, ◌<f◌, ◌≤f◌, is_zero}
use google_ads_intelligence.Ops.Rules.{KeywordRules}
use google_ads_intelligence.Ops.Scoring.{clamp_bounds}
use google_ads_intelligence.Ops.Scoring.{Code, Label, Severity, Issue, Tally, ctr, penalise, clamp}
use google_ads_intelligence.Ops.Keyword.{
  KeywordContext, compute_keyword_health, keyword_tally, check_quality_score, check_ctr,
  check_spend,
}

module _ {F : Type 0} (rules : KeywordRules F) where
  abbrev pub price : Code → ℤ
  price Code.very_low_qs = rules.low_quality_penalty
  price Code.low_qs = rules.quality_score_penalty
  price Code.low_ctr = rules.ctr_penalty
  price Code.spend_no_conv = rules.zero_conversion_penalty
  price _ = pos 0

  unfoldable pub total_price : List (Issue F) → ℤ
  total_price [] = pos 0
  total_price (i ∷ issues) = price i.code +ℤ total_price issues

  total_price-snoc :
      (i : Issue F) (issues : List (Issue F))
      → total_price (issues ++ i ∷ []) ≡ total_price issues +ℤ price i.code
  unfolding total_price
  total_price-snoc i [] = omega int_laws
  total_price-snoc i (j ∷ issues) = rw (total_price-snoc i issues) (omega int_laws)

  abbrev Accounts : Tally F → Type 0
  Accounts t = t.score +ℤ total_price t.issues ≡ rules.start_score

  penalise-Accounts :
      (code : Code) (label : Label F) (severity : Severity) (t : Tally F)
      → Accounts t
      → Accounts (penalise (price code) code label severity t)
  unfolding penalise
  penalise-Accounts code label severity t h =
      rw (total_price-snoc (record { code = code; label = label; severity = severity }) t.issues)
        (sub_add_add t.score (price code) (total_price t.issues) ∙ h)

module _ {F : Type 0} ⦃fl : FloatOps F⦄ (ctx : KeywordContext F) (rules : KeywordRules F) where
  quality_score-Accounts :
      (t : Tally F) → Accounts rules t → Accounts rules (check_quality_score ctx rules t)
  unfolding check_quality_score
  quality_score-Accounts t h = option_ind (Accounts rules) ctx.quality_score h λ q.
      if_ind (Accounts rules) (leb_ℤ q rules.low_quality_score)
        (penalise-Accounts rules Code.very_low_qs _ _ t h)
        (if_ind (Accounts rules) (ltb_ℤ q rules.quality_score_floor)
          (penalise-Accounts rules Code.low_qs _ _ t h) h)

  ctr-Accounts : (t : Tally F) → Accounts rules t → Accounts rules (check_ctr ctx rules t)
  unfolding check_ctr
  ctr-Accounts t h = option_ind (Accounts rules) (ctr ctx.metrics) h λ r.
      if_ind (Accounts rules) (r <f rules.ctr_floor) (penalise-Accounts rules Code.low_ctr _ _ t h)
        h

  spend-Accounts : (t : Tally F) → Accounts rules t → Accounts rules (check_spend ctx rules t)
  unfolding check_spend
  spend-Accounts t h =
      if_ind (Accounts rules)
        ((rules.zero_conversion_min_cost ≤f ctx.cost) && is_zero ctx.conversions)
        (penalise-Accounts rules Code.spend_no_conv _ _ t h) h

  keyword_tally-Accounts : Accounts rules (keyword_tally ctx rules)
  unfolding keyword_tally total_price
  keyword_tally-Accounts =
      spend-Accounts _ (ctr-Accounts _ (quality_score-Accounts _ (add_zero rules.start_score)))

  -- The keyword's score is the starting score less the price of each issue, brought into the range
  -- from 0 to 100.
  pub compute_keyword_health-score :
      let r = compute_keyword_health ctx rules in
      (r.score ≡ clamp (rules.start_score -ℤ total_price rules r.issues))
      × (pos 0 ≤ℤ r.score)
      × (r.score ≤ℤ pos 100)
  unfolding compute_keyword_health
  compute_keyword_health-score =
      let (low, high) = clamp_bounds (keyword_tally ctx rules).score in
      (ap clamp (eq_sub_of_add _ _ _ keyword_tally-Accounts), low, high)
