-- ===== src/Ops/Health/Bands.antt =====
-- The level that the health score is shown with.
use google_ads_intelligence.Base.{
  Bool, true, false, List, [], any, any-append, ◌≡◌, refl, ◌⊎◌, ◌==◌, ◌≤◌, ◌<◌, ◌+◌, ==_iff, arith,
  inl, inr, Bool-cases,
}
use google_ads_intelligence.Base.Int.{ℤ, pos, pos_part, neg_part, ◌≤ℤ◌}
use google_ads_intelligence.Base.Float.{FloatOps}
use google_ads_intelligence.Ops.Rules.{HealthRules}
use google_ads_intelligence.Ops.Scoring.{
  Code, Label, Severity, Level, Issue, Tally, CampaignContext, penalise, is_active,
}
use google_ads_intelligence.Ops.Health.{
  compute_campaign_health, health_tally, check_impressions, is_no_impressions, level_from_score,
}
use google_ads_intelligence.Ops.Health.Accounting.{checks_ind}

-- a < b
abbrev pub IsBelow : ℤ → ℤ → Type 0
IsBelow a b = pos_part a + neg_part b < pos_part b + neg_part a

-- The level that a score has, by comparisons of numbers.
abbrev pub InBand : {F : Type 0} → HealthRules F → ℤ → Level → Type 0
InBand rules score level =
    ((rules.healthy_at ≤ℤ score) × (level ≡ Level.healthy))
    ⊎ ((IsBelow score rules.healthy_at × ((rules.warning_at ≤ℤ score) × (level ≡ Level.warning)))
        ⊎ ((IsBelow score rules.healthy_at
              × (IsBelow score rules.warning_at
                  × ((rules.critical_at ≤ℤ score) × (level ≡ Level.high))))
            ⊎ (IsBelow score rules.healthy_at
                × (IsBelow score rules.warning_at
                    × (IsBelow score rules.critical_at × (level ≡ Level.critical))))))

module _ {F : Type 0} ⦃fl : FloatOps F⦄ (ctx : CampaignContext F) (rules : HealthRules F) where
  abbrev flags_no_impressions : List (Issue F) → Bool
  flags_no_impressions issues = any (λ (i : Issue F). is_no_impressions i.code) issues

  abbrev FlagsToday : Tally F → Type 0
  FlagsToday t = flags_no_impressions t.issues ≡ (ctx.today.impressions == 0)

  penalise-FlagsToday :
      (points : ℤ) (code : Code) (label : Label F) (severity : Severity) (t : Tally F)
      → is_no_impressions code ≡ false
      → FlagsToday t
      → FlagsToday (penalise points code label severity t)
  unfolding penalise
  penalise-FlagsToday points code label severity t other h =
      rw (any-append (λ (i : Issue F). is_no_impressions i.code) t.issues, h, other) (ground arith)

  first-FlagsToday :
      FlagsToday (check_impressions ctx rules (record { score = rules.start_score; issues = [] }))
  unfolding check_impressions penalise
  first-FlagsToday = ground arith

  health_tally-FlagsToday : FlagsToday (health_tally ctx rules)
  health_tally-FlagsToday =
      checks_ind ctx rules FlagsToday
        (λ code label severity t. penalise-FlagsToday _ code label severity t) first-FlagsToday

  level_from_score-InBand : (score : ℤ) → InBand rules score (level_from_score score rules)
  unfolding level_from_score
  level_from_score-InBand score = ground arith

  -- A campaign that is not active is ignored: it scores 100 and has no issues. An active one without
  -- impressions today is critical. An active one with impressions is healthy from `healthy_at` points up;
  -- below it, in a warning from `warning_at` up; below both, high from `critical_at` up; and
  -- critical below all three.
  pub compute_campaign_health-level :
      let r = compute_campaign_health ctx rules in
      (r.is_active ≡ is_active ctx)
      × (((is_active ctx ≡ false)
            × ((r.level ≡ Level.ignored) × ((r.score ≡ pos 100) × (r.issues ≡ []))))
          ⊎ ((is_active ctx ≡ true)
              × (((ctx.today.impressions ≡ 0) × (r.level ≡ Level.critical))
                  ⊎ ((1 ≤ ctx.today.impressions) × InBand rules r.score r.level))))
  unfolding compute_campaign_health
  compute_campaign_health-level = elim (Bool-cases (is_active ctx)) [
    | inl active ↦ elim (Bool-cases (ctx.today.impressions == 0)) [
      | inl zero_today ↦
          rw (active, health_tally-FlagsToday, zero_today)
            (refl, inr (refl, inl ((==_iff _ _).0 zero_today, refl)))
      | inr some_today ↦
          rw (active, health_tally-FlagsToday, some_today)
            (refl, inr (refl, inr (ground (arith, some_today), level_from_score-InBand _)))
    ]
    | inr paused ↦ rw paused (refl, inl (refl, (refl, (refl, refl))))
  ]
