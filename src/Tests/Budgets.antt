-- ===== src/Tests/Budgets.antt =====
-- Weekly and account budgets at concrete tables.
use google_ads_intelligence.Base.{
  ◌-◌, ◌+◌, ◌≡◌, refl, none, some, List, [], ◌∷◌, All, keep, inl, arith,
}
use google_ads_intelligence.Base.Eq.{nat_eq, list_eq, pair_eq}
use google_ads_intelligence.Base.Dict.{Table, lookup}
use google_ads_intelligence.Base.Text.{codes}
use google_ads_intelligence.Tests.Fixed.{Fixed, units, fixed_ops}
use google_ads_intelligence.Budgets.Store.{BudgetRow, IsValid}
use google_ads_intelligence.Budgets.Weekly.{
  WeekKey, DayRow, AccountWeeks, monday, day_in, set_budget, overview,
}
use google_ads_intelligence.Budgets.Weekly.Weeks.{sum_by}
use google_ads_intelligence.Budgets.Weekly.Report.{shown, with_budget, set_budget-overview}
use google_ads_intelligence.Budgets.Weekly.Laws.{selected_impressions, overview-impressions}
use google_ads_intelligence.Budgets.Account.{BudgetKey, Date, SetReply, maps_for_email}
use google_ads_intelligence.Budgets.Account
use google_ads_intelligence.Budgets.Account.Laws.{IsBudget}
use google_ads_intelligence.Budgets.Account.Laws.Read.{set_budget-mail}

-- Account 4 has a budget for the week of day 15, a Monday.
abbrev weekly : Table (BudgetRow WeekKey Fixed)
weekly = record {
  next_id = 2;
  rows = (1, record { key = (4, 15); amount = units 50000000; set_by = none }) ∷ [];
}

weekly-IsValid : IsValid weekly
weekly-IsValid = ((omega arith, tt), ((refl, tt), (refl, tt)))

abbrev days : List (DayRow Fixed)
days =
    record {
      account_id = 4;
      date = 14;
      cost_micros = 2000000;
      impressions = 100;
      clicks = 7;
      conversions = units 10000;
    }
    ∷ record {
      account_id = 4;
      date = 15;
      cost_micros = 1000000;
      impressions = 40;
      clicks = 2;
      conversions = units 0;
    }
    ∷ []

-- Day 18 is a Thursday, and day 21 the Sunday of the same week.
set_budget-overview_example :
    IsValid (set_budget 4 18 (units 70000000) none weekly)
    × ((before : List (AccountWeeks Fixed)) × ((after : List (AccountWeeks Fixed)) × ((overview none
                2 21
                ((4, []) ∷ (5, []) ∷ [])
                weekly
                days
              ≡ some before)
            × ((overview none 2 21
                    ((4, []) ∷ (5, []) ∷ [])
                    (set_budget 4 18 (units 70000000) none weekly)
                    days
                  ≡ some after)
                × (shown after ≡ with_budget 4 18 (units 70000000) (shown before))))))
set_budget-overview_example =
    set_budget-overview 4 18 (units 70000000) none weekly none 1 21 ((4, []) ∷ (5, []) ∷ []) days
      weekly-IsValid (omega arith)

overview-impressions_example :
    (report : List (AccountWeeks Fixed)) × ((overview
          (some (4 ∷ []))
          2
          18
          ((4, codes "North") ∷ (5, codes "South") ∷ [])
          weekly
          days
        ≡ some report)
      × All
          (λ a.
            sum_by (λ w. w.impressions) a.weeks
            ≡ selected_impressions a.account_id
                (keep (day_in (4 ∷ []) (monday 18 - 7) (monday 18 + 6)) days))
          report)
overview-impressions_example =
    overview-impressions (some (4 ∷ [])) 1 18 ((4, codes "North") ∷ (5, codes "South") ∷ []) weekly
      days (omega arith)

-- The days of the example fall in two weeks.
selected_days : selected_impressions 4 (keep (day_in (4 ∷ []) 8 21) days) ≡ 140
selected_days = refl

abbrev today : Date
today = (2026, (6, 18))

abbrev totals : Table (BudgetRow BudgetKey Fixed)
totals = record {
  next_id = 2;
  rows =
      (
        1,
        record {
          key = (4, (codes "total", (1900, (1, 1))));
          amount = units 50000000;
          set_by = none;
        },
      )
      ∷ [];
}

abbrev after : Table (BudgetRow BudgetKey Fixed)
after = (Account.set_budget 4 (codes "month") (units 9000000) none none today totals).1

set_budget-mail_example :
    ((Account.set_budget 4 (codes "month") (units 9000000) none none today totals).0
      ≡ SetReply.ok 4 (codes "month") (2026, (6, 1)))
    × ((IsValid after × All IsBudget after.rows)
        × ((lookup 4 (maps_for_email (4 ∷ []) today after).total
              ≡ lookup 4 (maps_for_email (4 ∷ []) today totals).total)
            × (lookup 4 (maps_for_email (4 ∷ []) today after).monthly ≡ some (units 9000000))))
set_budget-mail_example =
    set_budget-mail 4 (codes "month") (units 9000000) none none today totals (4 ∷ []) 4 today refl
      refl ((omega arith, tt), ((refl, tt), (refl, tt))) (inl (refl, refl), tt)
