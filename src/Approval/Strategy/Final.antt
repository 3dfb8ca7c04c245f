-- ===== src/Approval/Strategy/Final.antt =====
-- app/services/ai/approval_service.py: build_final_strategy and kpi_status, the plan with the values that an
-- operator has set. `float` on a string is an argument.
use google_ads_intelligence.Base.{
  Bool, false, ◌||◌, Option, none, some, is_some, List, [], ◌∷◌, ◌++◌, map, if◌then◌else◌,
}
use google_ads_intelligence.Base.Int.{ℤ, pos}
use google_ads_intelligence.Base.Eq.{list_eq, nat_eq}
use google_ads_intelligence.Base.Dict.{Dict, lookup}
use google_ads_intelligence.Base.Text.{Text, codes, strip, remove_code}
use google_ads_intelligence.Base.Float.{FloatOps, ◌*f◌, ◌/f◌, ◌≤f◌, nat, int, is_zero}
use google_ads_intelligence.Approval.Strategy.{
  CampaignPlan, Setting, Override, FieldRow, FinalStrategy, editable, is_zero_ℤ, nonzero_ℤ,
  truthy_ℤ, nonzero, truthy_f, or_zero_f, is_set,
}
use google_ads_intelligence.Approval.Strategy.Auto.{auto_value}

module _ {F : Type 0} ⦃fl : FloatOps F⦄ where
  module _ (parse : Text → Option F) where
    -- _num
    unfoldable pub num : Setting F → Option F
    num Setting.null = none
    num (Setting.number x) = some x
    num (Setting.words s) = parse (strip (remove_code 8377 (remove_code 44 s)))

    module _ (plan : CampaignPlan F) (overrides : Dict Text (Override F)) where
      -- The value in effect.
      unfoldable pub effective : Text → Setting F
      effective key = elim (lookup key overrides) [
        | none ↦ auto_value plan key
        | some ov ↦ ov.manual
      ]

      unfoldable pub field_row : Text → FieldRow F
      field_row key =
          let ov = lookup key overrides in
          record {
            key = key;
            auto = auto_value plan key;
            value = effective key;
            edited = is_some ov;
            by = elim ov [ none ↦ none | some o ↦ o.by ];
            at = elim ov [ none ↦ none | some o ↦ some o.at ];
          }

      -- `_num(eff.get(key)) or 0`
      unfoldable pub figure : Text → F
      figure key = or_zero_f (num (effective key))

      unfoldable pub est_clicks : ℤ
      est_clicks =
          let budget = figure (codes "budget") in
          let cpc = figure (codes "avg_cpc") in
          if is_zero budget || is_zero cpc
          then (elim plan.est_clicks [ none ↦ pos 0 | some n ↦ n ])
          else fl.round_int (budget /f cpc)

      unfoldable pub est_impressions : Option ℤ
      est_impressions =
          let ctr = figure (codes "ctr") /f nat 100 in
          if is_zero_ℤ est_clicks || is_zero ctr
          then none
          else some (fl.round_int (int est_clicks /f ctr))

      unfoldable pub est_leads : Option ℤ
      est_leads =
          let cvr = figure (codes "target_cvr_pct") /f nat 100 in
          if is_zero_ℤ est_clicks || is_zero cvr
          then none
          else some (fl.round_int (int est_clicks *f cvr))

      unfoldable pub est_cpl : Option ℤ
      est_cpl = elim (truthy_ℤ est_leads) [
        | none ↦ none
        | some leads ↦ some (fl.round_int (figure (codes "budget") /f int leads))
      ]

      unfoldable pub target_leads : Option ℤ
      target_leads = elim (truthy_f (num (effective (codes "target_leads")))) [
        | none ↦ none
        | some leads ↦ some (fl.round_int leads)
      ]

      unfoldable pub meets_target : Bool
      meets_target = elim est_leads [
        | none ↦ false
        | some leads ↦ elim (truthy_f (num (effective (codes "target_leads")))) [
          | none ↦ false
          | some target ↦ target ≤f int leads
        ]
      ]

      -- build_final_strategy
      unfoldable pub build_final_strategy : FinalStrategy F
      build_final_strategy = record {
        fields = map field_row editable;
        est_clicks = nonzero_ℤ est_clicks;
        est_impressions = est_impressions;
        avg_cpc = nonzero (figure (codes "avg_cpc"));
        target_cvr_pct = num (effective (codes "target_cvr_pct"));
        est_leads = est_leads;
        est_cpl = est_cpl;
        target_leads = target_leads;
        meets_target = meets_target;
      }

      -- The labels of the KPIs that `kpi_status` finds missing.
      unfoldable pub missing_kpis : List Text
      missing_kpis =
          (if is_set (effective (codes "budget")) then [] else codes "budget" ∷ [])
          ++ (if is_some (truthy_ℤ target_leads) then [] else codes "target leads" ∷ [])
