-- ===== src/Ops/Health/Accounting.antt =====
-- The health score accounts for its issues: it is the base less a penalty for each, clamped.
use google_ads_intelligence.Base.{
  ltb, true, false, List, [], ◌∷◌, ◌++◌, ◌≡◌, refl, ◌∙◌, ap, inl, inr, Bool-cases, if_ind,
  option_ind, ◌==◌, if◌then◌else◌, arith,
}
use google_ads_intelligence.Base.Int.{
  ℤ, pos, ◌+ℤ◌, ◌-ℤ◌, ◌≤ℤ◌, min_ℤ, int_laws, sub_add_add, sub_zero, add_zero_zero, add_zero,
  eq_sub_of_add,
}
use google_ads_intelligence.Base.Float.{FloatOps, ◌<f◌, ◌≤f◌, int}
use google_ads_intelligence.Ops.Rules.{HealthRules}
use google_ads_intelligence.Ops.Scoring.{
  Code, Label, Severity, Issue, Tally, CampaignContext, penalise, is_active, clamp, ctr, avg_cpc,
  budget_utilization,
}
use google_ads_intelligence.Ops.Health.{
  compute_campaign_health, health_tally, check_impressions, check_ctr_floor, check_ctr_drop,
  check_cpc_rise, check_quality_score, check_budget, check_optimization, check_disapproved_ads,
  check_disapproved_keywords, is_no_impressions, delta,
}

module _ {F : Type 0} (rules : HealthRules F) where
  -- The price list of the issues, by code.
  abbrev pub price : Code → ℤ
  price Code.low_ctr = rules.ctr_penalty
  price Code.ctr_drop = rules.ctr_drop_penalty
  price Code.cpc_rise = rules.cpc_rise_penalty
  price Code.low_qs = rules.quality_score_penalty
  price Code.limited_by_budget = rules.limited_by_budget_penalty
  price Code.budget_nearly_exhausted = rules.budget_util_penalty
  price Code.low_opt_score = rules.optimization_score_penalty
  price Code.disapproved_ads = rules.disapproved_ads_penalty
  price Code.disapproved_keywords = rules.disapproved_keywords_penalty
  price _ = pos 0

  unfoldable pub total_price : List (Issue F) → ℤ
  total_price [] = pos 0
  total_price (i ∷ issues) = price i.code +ℤ total_price issues

  total_price-snoc :
      (i : Issue F) (issues : List (Issue F))
      → total_price (issues ++ i ∷ []) ≡ total_price issues +ℤ price i.code
  unfolding total_price
  total_price-snoc i [] = omega int_laws
  total_price-snoc i (j ∷ issues) = rw (total_price-snoc i issues) (omega int_laws)

  -- The score is what the issues so far leave of the base.
  abbrev Accounts : ℤ → Tally F → Type 0
  Accounts base t = t.score +ℤ total_price t.issues ≡ base

  penalise-Accounts :
      (base : ℤ) (code : Code) (label : Label F) (severity : Severity) (t : Tally F)
      → Accounts base t
      → Accounts base (penalise (price code) code label severity t)
  unfolding penalise
  penalise-Accounts base code label severity t h =
      rw (total_price-snoc (record { code = code; label = label; severity = severity }) t.issues)
        (sub_add_add t.score (price code) (total_price t.issues) ∙ h)

-- A property of the tally that no priced penalty breaks survives every check but the first.
module _ {F : Type 0} ⦃fl : FloatOps F⦄ (ctx : CampaignContext F) (rules : HealthRules F)
    (P : Tally F → Type 0)
    (step : (code : Code) (label : Label F) (severity : Severity) (t : Tally F)
      → is_no_impressions code ≡ false
      → P t
      → P (penalise (price rules code) code label severity t)) where
  check_ctr_floor_keeps : (t : Tally F) → P t → P (check_ctr_floor ctx rules t)
  unfolding check_ctr_floor
  check_ctr_floor_keeps t h =
      option_ind P (ctr ctx.today) h
        (λ r. if_ind P (r <f rules.ctr_floor) (step Code.low_ctr _ _ t refl h) h)

  check_ctr_drop_keeps : (t : Tally F) → P t → P (check_ctr_drop ctx rules t)
  unfolding check_ctr_drop
  check_ctr_drop_keeps t h =
      option_ind P (delta (ctr ctx.today) (ctr ctx.prior)) h
        (λ d. if_ind P (d ≤f fl.neg rules.ctr_drop_pct) (step Code.ctr_drop _ _ t refl h) h)

  check_cpc_rise_keeps : (t : Tally F) → P t → P (check_cpc_rise ctx rules t)
  unfolding check_cpc_rise
  check_cpc_rise_keeps t h =
      option_ind P (delta (avg_cpc ctx.today) (avg_cpc ctx.prior)) h
        (λ d. if_ind P (rules.cpc_rise_pct ≤f d) (step Code.cpc_rise _ _ t refl h) h)

  check_quality_score_keeps : (t : Tally F) → P t → P (check_quality_score ctx rules t)
  unfolding check_quality_score
  check_quality_score_keeps t h =
      option_ind P ctx.avg_quality_score h
        (λ q. if_ind P (q <f int rules.quality_score_floor) (step Code.low_qs _ _ t refl h) h)

  check_budget_keeps : (t : Tally F) → P t → P (check_budget ctx rules t)
  unfolding check_budget
  check_budget_keeps t h = option_ind P (budget_utilization ctx) h (λ u.
      if_ind P (fl.decimal 10 1 ≤f u) (step Code.limited_by_budget _ _ t refl h)
        (if_ind P (rules.budget_util_warn ≤f u) (step Code.budget_nearly_exhausted _ _ t refl h) h))

  check_optimization_keeps : (t : Tally F) → P t → P (check_optimization ctx rules t)
  unfolding check_optimization
  check_optimization_keeps t h =
      option_ind P ctx.optimization_score h (λ o.
        if_ind P (o <f rules.optimization_score_floor) (step Code.low_opt_score _ _ t refl h) h)

  check_disapproved_ads_keeps : (t : Tally F) → P t → P (check_disapproved_ads ctx rules t)
  unfolding check_disapproved_ads
  check_disapproved_ads_keeps t h =
      if_ind P (ltb 0 ctx.disapproved_ads) (step Code.disapproved_ads _ _ t refl h) h

  check_disapproved_keywords_keeps :
      (t : Tally F) → P t → P (check_disapproved_keywords ctx rules t)
  unfolding check_disapproved_keywords
  check_disapproved_keywords_keeps t h =
      if_ind P (ltb 0 ctx.disapproved_keywords) (step Code.disapproved_keywords _ _ t refl h) h

  pub checks_ind :
      P (check_impressions ctx rules (record { score = rules.start_score; issues = [] }))
      → P (health_tally ctx rules)
  unfolding health_tally
  checks_ind start = check_disapproved_keywords_keeps _ (
      check_disapproved_ads_keeps _ (
        check_optimization_keeps _ (
          check_budget_keeps _ (
            check_quality_score_keeps _
              (check_cpc_rise_keeps _ (check_ctr_drop_keeps _ (check_ctr_floor_keeps _ start)))))))

module _ {F : Type 0} ⦃fl : FloatOps F⦄ (ctx : CampaignContext F) (rules : HealthRules F) where
  -- The starting score, held below the critical band if the campaign has no impressions today.
  abbrev pub base_score : ℤ
  base_score =
      if ctx.today.impressions == 0
      then min_ℤ rules.start_score (rules.critical_at -ℤ pos 5)
      else rules.start_score

  first-Accounts :
      Accounts rules base_score
        (check_impressions ctx rules (record { score = rules.start_score; issues = [] }))
  unfolding check_impressions penalise total_price
  first-Accounts = elim (Bool-cases (ctx.today.impressions == 0)) [
    | inl e ↦ rw e (simp (sub_zero, add_zero_zero))
    | inr e ↦ rw e (add_zero rules.start_score)
  ]

  health_tally-Accounts : Accounts rules base_score (health_tally ctx rules)
  health_tally-Accounts =
      checks_ind ctx rules (Accounts rules base_score)
        (λ code label severity t _ h. penalise-Accounts rules base_score code label severity t h)
        first-Accounts

  -- An active campaign's score is its base score less the price of each issue, brought into the
  -- range from 0 to 100.
  pub compute_campaign_health-score :
      is_active ctx ≡ true
      → (compute_campaign_health ctx rules).score
        ≡ clamp (base_score -ℤ total_price rules (compute_campaign_health ctx rules).issues)
  unfolding compute_campaign_health
  compute_campaign_health-score active =
      rw active (ap clamp (eq_sub_of_add _ _ _ health_tally-Accounts))

  -- The score of any campaign lies between 0 and 100.
  pub compute_campaign_health_bounds :
      (pos 0 ≤ℤ (compute_campaign_health ctx rules).score)
      × ((compute_campaign_health ctx rules).score ≤ℤ pos 100)
  unfolding compute_campaign_health clamp
  compute_campaign_health_bounds = ground arith
