-- ===== src/Approval/Strategy.antt =====
-- app/services/ai/approval_service.py: the data of the final strategy, and the truthiness of its values.
pub mod Auto
pub mod Final
use google_ads_intelligence.Base.{
  ℕ, zero, Bool, true, false, not, ◌||◌, Option, none, some, is_some, List, [], ◌∷◌, ◌++◌, map,
  if◌then◌else◌,
}
use google_ads_intelligence.Base.Int.{ℤ, pos}
use google_ads_intelligence.Base.Eq.{list_eq, nat_eq}
use google_ads_intelligence.Base.Dict.{Dict, lookup}
use google_ads_intelligence.Base.Text.{Text, codes, strip, remove_code, is_nonempty}
use google_ads_intelligence.Base.Float.{FloatOps, ◌+f◌, ◌*f◌, ◌/f◌, ◌≤f◌, nat, int, is_zero}

-- A month of the plan's pacing.
pub record Month (F : Type 0) : Type 0 where
  pub month : ℕ
  pub name : Text
  pub budget : Option F
  pub level : Option Text

-- The parts of `scores["campaign_plan"]` that the approval reads.
pub record CampaignPlan (F : Type 0) : Type 0 where
  pub assumed_cvr : Option F
  pub budget : Option F
  pub effective_cpc : Option F
  pub blended_cpc : Option F
  pub anchor_cpc : Option F
  pub est_clicks : Option ℤ
  pub est_impressions : Option ℤ
  pub target_cpl_low : Option F
  pub target_cpl_high : Option F
  pub recommended : Option Text
  pub primary : Option Text
  pub monthly_pacing : List (Month F)

-- A value of the strategy: null, a number, or a string.
pub data Setting (F : Type 0) : Type 0 where
  null : Setting F
  number : F → Setting F
  words : Text → Setting F

-- An override: {"auto", "manual", "by", "at"}.
pub record Override (F : Type 0) : Type 0 where
  pub auto : Setting F
  pub manual : Setting F
  pub by : Option Text
  pub at : ℕ

-- A row of the final strategy.
pub record FieldRow (F : Type 0) : Type 0 where
  pub key : Text
  pub auto : Setting F
  pub value : Setting F
  pub edited : Bool
  pub by : Option Text
  pub at : Option ℕ

-- What `build_final_strategy` returns.
pub record FinalStrategy (F : Type 0) : Type 0 where
  pub fields : List (FieldRow F)
  pub est_clicks : Option ℤ
  pub est_impressions : Option ℤ
  pub avg_cpc : Option F
  pub target_cvr_pct : Option F
  pub est_leads : Option ℤ
  pub est_cpl : Option ℤ
  pub target_leads : Option ℤ
  pub meets_target : Bool

-- _EDITABLE
abbrev pub editable : List Text
editable =
    codes "budget"
    ∷ codes "avg_cpc"
    ∷ codes "ctr"
    ∷ codes "target_cvr_pct"
    ∷ codes "target_leads"
    ∷ codes "bidding"
    ∷ []

abbrev pub is_zero_ℤ : ℤ → Bool
is_zero_ℤ (pos zero) = true
is_zero_ℤ _ = false

-- `n or None`
abbrev pub nonzero_ℤ : ℤ → Option ℤ
nonzero_ℤ n = if is_zero_ℤ n then none else some n

-- A number that is falsy counts as missing.
abbrev pub truthy_ℤ : Option ℤ → Option ℤ
truthy_ℤ none = none
truthy_ℤ (some n) = nonzero_ℤ n

module _ {F : Type 0} ⦃fl : FloatOps F⦄ where
  abbrev pub nonzero : F → Option F
  nonzero x = if is_zero x then none else some x

  abbrev pub truthy_f : Option F → Option F
  truthy_f none = none
  truthy_f (some x) = nonzero x

  -- `a or b`
  abbrev pub or_number : Option F → Option F → Option F
  or_number a b = elim (truthy_f a) [ none ↦ b | some x ↦ some x ]

  abbrev pub or_zero_f : Option F → F
  or_zero_f none = nat 0
  or_zero_f (some x) = x

  abbrev pub setting_of : Option F → Setting F
  setting_of none = Setting.null
  setting_of (some x) = Setting.number x

  -- Truthiness.
  unfoldable pub is_set : Setting F → Bool
  is_set null = false
  is_set (number x) = not (is_zero x)
  is_set (words s) = is_nonempty s
