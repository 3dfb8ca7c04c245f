-- ===== src/Budgets/Account.antt =====
-- app/services/ops/account_budget_service.py, AccountBudgetService: set_budget, overview, less the names of
-- the managers, and maps_for_email. The spend by account, a grouped query, is an argument.
pub mod Laws
use google_ads_intelligence.Base.{
  ℕ, ◌≡◌, Bool, true, false, not, ◌&&◌, ◌||◌, Option, none, some, List, [], ◌∷◌, map, keep,
  if◌then◌else◌, ◌==◌,
}
use google_ads_intelligence.Base.Eq.{◌=?◌, nat_eq, list_eq, pair_eq, mem}
use google_ads_intelligence.Base.Dict.{Dict, Table, insert, lookup}
use google_ads_intelligence.Base.Text.{Text, codes}
use google_ads_intelligence.Base.Float.{FloatOps, ◌-f◌, ◌*f◌, ◌/f◌, nat, is_zero}
use google_ads_intelligence.Budgets.Store.{BudgetRow, put}
use google_ads_intelligence.Budgets.Weekly.{visible, ratio}

-- A date: the year, the month and the day.
abbrev pub Date : Type 0
Date = ℕ × (ℕ × ℕ)

-- The key of a budget: the account, the period and the start of the period.
abbrev pub BudgetKey : Type 0
BudgetKey = ℕ × (Text × Date)

abbrev pub total_sentinel : Date
total_sentinel = (1900, (1, 1))

-- _first_of_month
abbrev pub first_of_month : Date → Date
first_of_month (year, (month, day)) = (year, (month, 1))

abbrev pub is_total : Text → Bool
is_total period = period =? codes "total"

-- The start of a period.
abbrev pub start_of : Text → Option Date → Date → Date
start_of period given today =
    if is_total period
    then total_sentinel
    else (elim given [ none ↦ first_of_month today | some d ↦ first_of_month d ])

-- The reply of `set_budget`.
pub data SetReply : Type 0 where
  bad_period : SetReply
  ok : (account_id : ℕ) (period : Text) (period_start : Date) → SetReply

-- What `_row` returns.
pub record Usage (F : Type 0) : Type 0 where
  pub budget : Option F
  pub spent : F
  pub remaining : Option F
  pub pct_used : Option F

pub record AccountUsage (F : Type 0) : Type 0 where
  pub account_id : ℕ
  pub account_name : Text
  pub monthly : Usage F
  pub total : Usage F

-- The dicts `monthly` and `total`.
pub record BudgetMaps (F : Type 0) : Type 0 where
  pub monthly : Dict ℕ F
  pub total : Dict ℕ F

module _ {F : Type 0} where
  -- set_budget
  unfoldable pub set_budget :
      (account_id : ℕ) (period : Text)
      → F
      → Option Date
      → Option Text
      → (today : Date) → Table (BudgetRow BudgetKey F)
      → SetReply × Table (BudgetRow BudgetKey F)
  set_budget account_id period amount period_start by today t =
      if not (period =? codes "month" || is_total period) then (SetReply.bad_period, t) else (
        SetReply.ok account_id period (start_of period period_start today),
        put (account_id, (period, start_of period period_start today)) amount by t,
      )

  -- The loop over the rows of the accounts.
  unfoldable pub budget_maps :
      (month_start : Date) → Dict ℕ (BudgetRow BudgetKey F) → BudgetMaps F → BudgetMaps F
  budget_maps month_start [] maps = maps
  budget_maps month_start ((id, row) ∷ rows) maps = budget_maps month_start rows (
      if is_total row.key.1.0
      then record maps { total = insert row.key.0 row.amount maps.total }
      else if row.key.1.1 =? month_start
      then record maps { monthly = insert row.key.0 row.amount maps.monthly }
      else maps)

  -- maps_for_email, the part of the budgets.
  unfoldable pub maps_for_email :
      List ℕ → (today : Date) → Table (BudgetRow BudgetKey F) → BudgetMaps F
  maps_for_email ids today t =
      budget_maps (first_of_month today) (keep (λ x. mem x.1.key.0 ids) t.rows)
        record { monthly = []; total = [] }

module _ {F : Type 0} ⦃fl : FloatOps F⦄ where
  -- _row
  unfoldable pub usage : Option F → F → Usage F
  usage budget spent = record {
    budget = budget;
    spent = fl.round_at 2 spent;
    remaining = elim budget [ none ↦ none | some b ↦ some (fl.round_at 2 (b -f spent)) ];
    pct_used = ratio spent budget;
  }

  abbrev pub spend_of : ℕ → Dict ℕ F → F
  spend_of id spend = elim (lookup id spend) [ none ↦ nat 0 | some x ↦ x ]

  -- overview
  unfoldable pub overview :
      Option (List ℕ)
      → (today : Date) → List (ℕ × Text)
      → Table (BudgetRow BudgetKey F)
      → (month_spend alltime_spend : Dict ℕ F) → List (AccountUsage F)
  overview allowed today all_accounts t month_spend alltime_spend =
      let accounts = visible allowed all_accounts in
      let maps = maps_for_email (map (λ a. a.0) accounts) today t in
      map
        (λ a. record {
          account_id = a.0;
          account_name = a.1;
          monthly = usage (lookup a.0 maps.monthly) (spend_of a.0 month_spend);
          total = usage (lookup a.0 maps.total) (spend_of a.0 alltime_spend);
        })
        accounts
