-- ===== src/Ops/Budget/Monotone.antt =====
-- Spending more never lowers the budget risk.
use google_ads_intelligence.Base.{ℕ, ◌≤◌, true, some, ◌≡◌, arith, Bool-cases, inl, inr}
use google_ads_intelligence.Base.Float.{FloatOps, FloatLaws, ◌≤f◌, ◌<f◌, ◌/f◌, nat, is_zero}
use google_ads_intelligence.Ops.Rules.{BudgetRules}
use google_ads_intelligence.Ops.Budget.{
  assessed, Risk, BudgetRiskResult, utilization, elapsed, projected, grade, compute_budget_risk,
}

abbrev pub risk_rank : Risk → ℕ
risk_rank Risk.healthy = 0
risk_rank Risk.warning = 1
risk_rank Risk.critical = 2

module _ {F : Type 0} ⦃fl : FloatOps F⦄ (laws : FloatLaws F) (budget fraction : F)
    (rules : BudgetRules F) (budget_pos : (nat 0 <f budget) ≡ true)
    (elapsed_pos : (nat 0 <f elapsed fraction rules) ≡ true) where
  abbrev day : F
  day = elapsed fraction rules

  -- The projection is the spend over the elapsed part of the day, up to the sign of zero.
  record IsProjection (s p : F) : Type 0 where
    returned : projected budget s fraction rules ≡ some p
    below : (p ≤f s /f day) ≡ true
    above : (s /f day ≤f p) ≡ true

  projected_lem : (s : F) → (p : F) × IsProjection s p
  projected_lem s = elim (Bool-cases (is_zero s)) [
    | inl zero ↦
        let (below, above) = laws.zero_div s day elapsed_pos zero in
        (
          fl.decimal 0 1,
          record { returned = unfold projected in rw zero; below = above; above = below },
        )
    | inr nonzero ↦ (
      s /f day,
      record {
        returned = unfold projected in rw (nonzero, laws.pos_ne_zero day elapsed_pos);
        below = laws.le_refl _;
        above = laws.le_refl _;
      },
    )
  ]

  grade_mono :
      (s t p q : F)
      → (s /f budget ≤f t /f budget) ≡ true
      → (p /f budget ≤f q /f budget) ≡ true
      → risk_rank (grade budget s fraction rules p) ≤ risk_rank (grade budget t fraction rules q)
  unfolding utilization
  grade_mono s t p q h k = ground (
    arith,
    laws.pos_ne_zero budget budget_pos,
    laws.le_trans rules.critical_utilization (s /f budget) (t /f budget),
    laws.le_trans rules.warning_utilization (s /f budget) (t /f budget),
    laws.le_trans rules.critical_utilization (p /f budget) (q /f budget),
  )

  assessed_lem :
      (s p : F)
      → projected budget s fraction rules ≡ some p
      → compute_budget_risk budget s fraction rules ≡ some (assessed budget s fraction rules p)
  unfolding compute_budget_risk
  assessed_lem s p e = rw (e, compute_budget_risk)

  -- For a positive daily budget and a positive elapsed part of the day the risk is computed, and a
  -- larger spend never has the lower risk.
  pub compute_budget_risk_mono :
      (s t : F)
      → (s ≤f t) ≡ true
      → (r r' : BudgetRiskResult F) × (compute_budget_risk budget s fraction rules ≡ some r)
        × (compute_budget_risk budget t fraction rules ≡ some r')
        × (risk_rank r.risk ≤ risk_rank r'.risk)
  compute_budget_risk_mono s t h =
      let (p, ip) = projected_lem s in
      let (q, iq) = projected_lem t in
      let le : (p ≤f q) ≡ true =
        laws.le_trans p (s /f day) q ip.below
          (laws.le_trans (s /f day) (t /f day) q (laws.div_mono s t day elapsed_pos h) iq.above) in
      (
        assessed budget s fraction rules p,
        assessed budget t fraction rules q,
        assessed_lem s p ip.returned,
        assessed_lem t q iq.returned,
        grade_mono s t p q (laws.div_mono s t budget budget_pos h)
            (laws.div_mono p q budget budget_pos le),
      )
