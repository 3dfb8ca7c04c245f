-- ===== src/Approval/Strategy/Auto.antt =====
-- app/services/ai/approval_service.py, _auto_values: the values that the plan gives.
use google_ads_intelligence.Base.{Option, none, some, [], ◌∷◌, if◌then◌else◌}
use google_ads_intelligence.Base.Eq.{list_eq, nat_eq}
use google_ads_intelligence.Base.Dict.{Dict, lookup}
use google_ads_intelligence.Base.Text.{Text, codes, is_nonempty}
use google_ads_intelligence.Base.Float.{FloatOps, ◌+f◌, ◌*f◌, ◌/f◌, nat, int, is_zero}
use google_ads_intelligence.Approval.Strategy.{
  CampaignPlan, Setting, truthy_ℤ, truthy_f, or_number, setting_of,
}

module _ {F : Type 0} ⦃fl : FloatOps F⦄ where
  module _ (plan : CampaignPlan F) where
    unfoldable pub auto_cvr : F
    auto_cvr = elim (truthy_f plan.assumed_cvr) [
      | none ↦ nat 15
      | some cvr ↦ fl.round_at 1 (cvr *f nat 100)
    ]

    unfoldable pub auto_cpc : Option F
    auto_cpc =
        elim (truthy_f
          (or_number plan.effective_cpc (or_number plan.blended_cpc plan.anchor_cpc))) [
            | none ↦ none
            | some cpc ↦ some (fl.round_at 2 cpc)
          ]

    unfoldable pub auto_ctr : Option F
    auto_ctr = elim (truthy_ℤ plan.est_clicks) [
      | none ↦ none
      | some clicks ↦ elim (truthy_ℤ plan.est_impressions) [
        | none ↦ none
        | some impressions ↦ some (fl.round_at 1 (int clicks /f int impressions *f nat 100))
      ]
    ]

    -- The middle of the plan's CPL band, else _REFERENCE_CPL.
    unfoldable pub reference_cpl : F
    reference_cpl = elim (truthy_f plan.target_cpl_low) [
      | none ↦ nat 800
      | some low ↦ elim (truthy_f plan.target_cpl_high) [
        | none ↦ nat 800
        | some high ↦ (low +f high) /f nat 2
      ]
    ]

    unfoldable pub auto_leads : Option F
    auto_leads = elim (truthy_f plan.budget) [
      | none ↦ none
      | some budget ↦
          if is_zero reference_cpl
          then none
          else some (int (fl.round_int (budget /f reference_cpl)))
    ]

    abbrev primary_bidding : Setting F
    primary_bidding = elim plan.primary [ none ↦ Setting.null | some s ↦ Setting.words s ]

    -- `bidding.get("recommended") or bidding.get("primary")`
    unfoldable pub auto_bidding : Setting F
    auto_bidding = elim plan.recommended [
      | none ↦ primary_bidding
      | some s ↦ if is_nonempty s then Setting.words s else primary_bidding
    ]

    -- _auto_values
    unfoldable pub auto_values : Dict Text (Setting F)
    auto_values =
        (codes "budget", setting_of (truthy_f plan.budget))
        ∷ (codes "avg_cpc", setting_of auto_cpc)
        ∷ (codes "ctr", setting_of auto_ctr)
        ∷ (codes "target_leads", setting_of auto_leads)
        ∷ (codes "target_cvr_pct", Setting.number auto_cvr)
        ∷ (codes "bidding", auto_bidding)
        ∷ []

    -- `auto.get(key)`
    unfoldable pub auto_value : Text → Setting F
    auto_value key = elim (lookup key auto_values) [ none ↦ Setting.null | some v ↦ v ]
