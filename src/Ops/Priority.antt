-- ===== src/Ops/Priority.antt =====
-- app/services/ops/scoring.py: the priority of a campaign.
use google_ads_intelligence.Base.{
  ℕ, ◌+◌, ◌*◌, ◌≤◌, true, false, not, Option, none, some, List, [], map, length, min, ◌≡◌,
  if◌then◌else◌, arith, refl, ◌⊎◌, inl, inr, Bool-cases,
}
use google_ads_intelligence.Base.Int.{ℤ, pos, ◌-ℤ◌, ◌≤ℤ◌}
use google_ads_intelligence.Base.Float.{FloatOps, ◌+f◌, ◌*f◌, ◌/f◌, int, nat, min_f, div?, is_zero}
use google_ads_intelligence.Ops.Rules.{PriorityRules}
use google_ads_intelligence.Ops.Scoring.{Issue, Label, clamp, clamp_bounds}
use google_ads_intelligence.Ops.Health.{HealthResult}

pub record PriorityResult (F : Type 0) : Type 0 where
  pub score : ℤ
  pub reasons : List (Label F)
  pub estimated_review_minutes : ℕ
  pub estimated_wasted_spend : F

-- `issue_labels`
abbrev pub issue_labels : {F : Type 0} → HealthResult F → List (Label F)
issue_labels {F} health = map (λ (i : Issue F). i.label) health.issues

module _ {F : Type 0} ⦃fl : FloatOps F⦄ (health : HealthResult F) (spend_today : F)
    (rules : PriorityRules F) where
  abbrev pub unhealthiness : F
  unhealthiness = int (pos 100 -ℤ health.score)

  abbrev pub prioritised : F → PriorityResult F
  prioritised share =
      let spend_pressure = min_f (nat 100) (share *f nat 100) in
      let raw = rules.health_weight *f unhealthiness +f rules.spend_weight *f spend_pressure in
      record {
        score = clamp (fl.round_int raw);
        reasons = issue_labels health;
        estimated_review_minutes =
            min rules.max_review_minutes
              (rules.base_review_minutes + rules.minutes_per_issue * length health.issues);
        estimated_wasted_spend = fl.round_at 2 (spend_today *f (unhealthiness /f nat 100));
      }

  -- `none` stands for ZeroDivisionError.
  unfoldable pub compute_priority : Option (PriorityResult F)
  compute_priority =
      if not health.is_active
      then some (record {
        score = pos 0;
        reasons = [];
        estimated_review_minutes = 0;
        estimated_wasted_spend = fl.decimal 0 1;
      })
      else (elim (div? spend_today rules.high_spend_reference) [
        | none ↦ none
        | some share ↦ some (prioritised share)
      ])

  -- A priority lies between 0 and 100, the review takes no longer than the rules allow, and a
  -- campaign that is not active has priority 0 and no reasons.
  pub record IsPriority (p : PriorityResult F) : Type 0 where
    pub low : pos 0 ≤ℤ p.score
    pub high : p.score ≤ℤ pos 100
    pub minutes : p.estimated_review_minutes ≤ rules.max_review_minutes
    pub inactive : (health.is_active ≡ true) ⊎ ((p.score ≡ pos 0) × (p.reasons ≡ []))

  -- Where the spend reference is not zero, every campaign gets a priority between 0 and 100 with a
  -- review no longer than the rules allow, and one that is not active gets priority 0 and no reasons.
  pub compute_priority-IsPriority :
      is_zero rules.high_spend_reference ≡ false
      → (p : PriorityResult F) × (compute_priority ≡ some p) × IsPriority p
  unfolding compute_priority
  compute_priority-IsPriority nonzero = elim (Bool-cases health.is_active) [
    | inl active ↦
        let share : F = spend_today /f rules.high_spend_reference in
        let (low, high) = clamp_bounds (
          fl.round_int (
            rules.health_weight *f unhealthiness
            +f rules.spend_weight *f min_f (nat 100) (share *f nat 100))) in
        (
          prioritised share,
          rw (active, nonzero),
          record { low = low; high = high; minutes = omega arith; inactive = inl active },
        )
    | inr paused ↦ (
      record {
        score = pos 0;
        reasons = [];
        estimated_review_minutes = 0;
        estimated_wasted_spend = fl.decimal 0 1;
      },
      rw paused,
      record {
        low = omega arith;
        high = omega arith;
        minutes = omega arith;
        inactive = inr (refl, refl);
      },
    )
  ]
