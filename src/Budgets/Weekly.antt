-- ===== src/Budgets/Weekly.antt =====
-- app/services/ops/weekly_budget_service.py, WeeklyBudgetService: set_budget and overview, less the names
-- of the managers. Dates are ordinals, of which the first is a Monday. The rows of the grouped query on
-- the snapshots are an argument, one for an account and a day.
pub mod Weeks
pub mod Laws
pub mod Report
use google_ads_intelligence.Base.{
  ℕ, zero, suc, ◌+◌, ◌-◌, ◌*◌, ◌%◌, Bool, ◌&&◌, Option, none, some, List, [], ◌∷◌, map, keep, leb,
  if◌then◌else◌,
}
use google_ads_intelligence.Base.Eq.{nat_eq, pair_eq, mem}
use google_ads_intelligence.Base.Dict.{Dict, Table, insert, lookup}
use google_ads_intelligence.Base.Text.{Text}
use google_ads_intelligence.Base.Float.{FloatOps, ◌+f◌, ◌-f◌, ◌*f◌, ◌/f◌, nat, is_zero}
use google_ads_intelligence.Budgets.Store.{BudgetRow, put, collect}

-- The key of a weekly budget: the account and the Monday.
abbrev pub WeekKey : Type 0
WeekKey = ℕ × ℕ

-- _monday
unfoldable pub monday : ℕ → ℕ
monday d = d - (d + 6) % 7

-- The Mondays of the last `weeks` weeks, in order.
unfoldable pub week_starts : (weeks this_monday : ℕ) → List ℕ
week_starts zero m = []
week_starts (suc n) m = (m - 7 * n) ∷ week_starts n m

-- A row of the grouped query.
pub record DayRow (F : Type 0) : Type 0 where
  pub account_id : ℕ
  pub date : ℕ
  pub cost_micros : ℕ
  pub impressions : ℕ
  pub clicks : ℕ
  pub conversions : F

-- The sums of an account in a week.
pub record Metrics (F : Type 0) : Type 0 where
  pub spent : F
  pub impressions : ℕ
  pub clicks : ℕ
  pub conversions : F

pub record WeekRow (F : Type 0) : Type 0 where
  pub week_start : ℕ
  pub budget : Option F
  pub spent : F
  pub remaining : Option F
  pub pct_used : Option F
  pub impressions : ℕ
  pub clicks : ℕ
  pub conversions : F
  pub ctr : Option F
  pub cpm : Option F
  pub cpl : Option F

pub record AccountWeeks (F : Type 0) : Type 0 where
  pub account_id : ℕ
  pub account_name : Text
  pub weeks : List (WeekRow F)

-- The accounts that the caller may see.
abbrev pub visible : Option (List ℕ) → List (ℕ × Text) → List (ℕ × Text)
visible none accounts = accounts
visible (some allowed) accounts = keep (λ a. mem a.0 allowed) accounts

-- `x / n` where `n` is truthy.
abbrev pub per : {F : Type 0} → ℕ → F → Option F
per zero x = none
per (suc n) x = some x

module _ {F : Type 0} ⦃fl : FloatOps F⦄ where
  -- set_budget
  unfoldable pub set_budget :
      (account_id week_start : ℕ)
      → F
      → Option Text
      → Table (BudgetRow WeekKey F)
      → Table (BudgetRow WeekKey F)
  set_budget account_id week_start amount by t = put (account_id, monday week_start) amount by t

  abbrev pub no_metrics : Metrics F
  no_metrics = record { spent = nat 0; impressions = 0; clicks = 0; conversions = nat 0 }

  -- `metrics[key]`
  abbrev pub metrics_of : WeekKey → Dict WeekKey (Metrics F) → Metrics F
  metrics_of key metrics = elim (lookup key metrics) [ none ↦ no_metrics | some m ↦ m ]

  abbrev pub with_day : DayRow F → Metrics F → Metrics F
  with_day r m = record {
    spent = m.spent +f nat r.cost_micros /f nat 1000000;
    impressions = m.impressions + r.impressions;
    clicks = m.clicks + r.clicks;
    conversions = m.conversions +f r.conversions;
  }

  -- The loop that sums the days of each week.
  unfoldable pub tally : List (DayRow F) → Dict WeekKey (Metrics F) → Dict WeekKey (Metrics F)
  tally [] metrics = metrics
  tally (r ∷ rows) metrics =
      let key : WeekKey = (r.account_id, monday r.date) in
      tally rows (insert key (with_day r (metrics_of key metrics)) metrics)

  abbrev pub ratio : F → Option F → Option F
  ratio spent none = none
  ratio spent (some budget) =
      if is_zero budget then none else some (fl.round_at 1 (spent /f budget *f nat 100))

  -- A row of the report.
  unfoldable pub week_row : ℕ → Option F → Metrics F → WeekRow F
  week_row week budget m =
      let s = fl.round_at 2 m.spent in
      let conv = fl.round_at 1 m.conversions in
      record {
        week_start = week;
        budget = budget;
        spent = s;
        remaining = elim budget [ none ↦ none | some b ↦ some (fl.round_at 2 (b -f s)) ];
        pct_used = ratio s budget;
        impressions = m.impressions;
        clicks = m.clicks;
        conversions = conv;
        ctr = per m.impressions (fl.round_at 4 (nat m.clicks /f nat m.impressions));
        cpm = per m.impressions (fl.round_at 2 (s /f nat m.impressions *f nat 1000));
        cpl = if is_zero conv then none else some (fl.round_at 0 (s /f conv));
      }

  -- The WHERE of the two queries.
  abbrev pub day_in : List ℕ → ℕ → ℕ → DayRow F → Bool
  day_in ids start end r = mem r.account_id ids && (leb start r.date && leb r.date end)

  abbrev pub week_in : List ℕ → ℕ → ℕ → ℕ × BudgetRow WeekKey F → Bool
  week_in ids start last x = mem x.1.key.0 ids && (leb start x.1.key.1 && leb x.1.key.1 last)

  -- The rows of an account.
  unfoldable pub account_weeks :
      List ℕ → Dict WeekKey F → Dict WeekKey (Metrics F) → ℕ × Text → AccountWeeks F
  account_weeks starts budgets metrics a = record {
    account_id = a.0;
    account_name = a.1;
    weeks = map (λ w. week_row w (lookup (a.0, w) budgets) (metrics_of (a.0, w) metrics)) starts;
  }

  -- overview; `none` where the code raises on an empty list of weeks.
  unfoldable pub overview :
      Option (List ℕ)
      → (weeks today : ℕ) → List (ℕ × Text)
      → Table (BudgetRow WeekKey F)
      → List (DayRow F)
      → Option (List (AccountWeeks F))
  overview allowed weeks today all_accounts t rows =
      let this_monday = monday today in
      let accounts = visible allowed all_accounts in
      let ids = map (λ a. a.0) accounts in
      elim (week_starts weeks this_monday) [
        | [] ↦ none
        | start ∷ later ↦
            let budgets = collect (keep (week_in ids start this_monday) t.rows) [] in
            let metrics = tally (keep (day_in ids start (this_monday + 6)) rows) [] in
            some (map (account_weeks (start ∷ later) budgets metrics) accounts)
      ]
