-- ===== src/Budgets/Weekly/Laws.antt =====
-- The report accounts for every day of its weeks.
use google_ads_intelligence.Base.{
  ℕ, suc, ◌+◌, ◌-◌, ◌*◌, ◌%◌, ◌≤◌, ◌≡◌, refl, subst, ap, ◌∙◌, true, ◌&&◌, Option, some, List, [],
  ◌∷◌, map, keep, All, leb, ltb, ◌==◌, if◌then◌else◌, inl, inr, Bool-cases, arith,
}
use google_ads_intelligence.Base.Eq.{◌=?◌, nat_eq, pair_eq}
use google_ads_intelligence.Base.Dict.{Dict, Table, insert, lookup-insert_self, lookup-insert_ne}
use google_ads_intelligence.Base.Text.{Text}
use google_ads_intelligence.Base.Float.{FloatOps}
use google_ads_intelligence.Budgets.Store.{BudgetRow, collect}
use google_ads_intelligence.Budgets.Store.Laws.{beq_false}
use google_ads_intelligence.Budgets.Weekly.{
  WeekKey, monday, week_starts, DayRow, Metrics, AccountWeeks, visible, metrics_of, with_day, tally,
  week_row, day_in, week_in, account_weeks, overview,
}
use google_ads_intelligence.Budgets.Weekly.Weeks.{
  sum_by-cong, sum_by, sum_by_add, sum_by_zero, monday_mod, monday_reach, one_week,
}

All-map :
    {A B : Type 0} (P : B → Type 0) (f : A → B) (xs : List A)
    → ((x : A) → P (f x))
    → All P (map f xs)
All-map P f [] h = tt
All-map P f (x ∷ xs) h = (h x, All-map P f xs h)

module _ {F : Type 0} ⦃fl : FloatOps F⦄ where
  -- The impressions of the days of a week.
  abbrev week_total : WeekKey → List (DayRow F) → ℕ
  week_total key rows =
      sum_by (λ r. if (r.account_id, monday r.date) =? key then r.impressions else 0) rows

  metrics_of-insert :
      (key day : WeekKey) (v : Metrics F) (metrics : Dict WeekKey (Metrics F))
      → metrics_of key (insert day v metrics) ≡ (if day =? key then v else metrics_of key metrics)
  metrics_of-insert key day v metrics = elim (Bool-cases (day =? key)) [
    | inl same ↦ rw same (
        subst (λ k. metrics_of k (insert day v metrics) ≡ v) ((pair_eq.beq_iff day key).0 same)
          (rw (metrics_of, lookup-insert_self day v metrics) refl))
    | inr other ↦
        rw (other, metrics_of, lookup-insert_ne key day v metrics (beq_false day key other)) refl
  ]

  tally-impressions :
      (key : WeekKey) (rows : List (DayRow F)) (metrics : Dict WeekKey (Metrics F))
      → (metrics_of key (tally rows metrics)).impressions
        ≡ (metrics_of key metrics).impressions + week_total key rows
  unfolding tally
  tally-impressions key [] metrics = omega arith
  tally-impressions key (r ∷ rows) metrics =
      let day : WeekKey = (r.account_id, monday r.date) in
      let v = with_day r (metrics_of day metrics) in
      tally-impressions key rows (insert day v metrics) ∙ (elim (Bool-cases (day =? key)) [
        | inl same ↦
            rw (metrics_of-insert key day v metrics, same)
              (omega (
                arith,
                ap (λ k. (metrics_of k metrics).impressions) ((pair_eq.beq_iff day key).0 same),
              ))
        | inr other ↦ rw (metrics_of-insert key day v metrics, other) (omega arith)
      ])

  tally_from_nothing :
      (key : WeekKey) (rows : List (DayRow F))
      → (metrics_of key (tally rows [])).impressions ≡ week_total key rows
  tally_from_nothing key rows = tally-impressions key rows [] ∙ omega arith

  -- The days that the query selects, at most one week for each.
  week_test :
      (aid w : ℕ) (r : DayRow F)
      → (if pair_eq.beq (r.account_id, monday r.date) (aid, w) then r.impressions else 0)
        ≡ (if w == monday r.date then (if r.account_id == aid then r.impressions else 0) else 0)
  week_test aid w r = ground arith

  -- The impressions of the selected days of an account.
  abbrev pub selected_impressions : ℕ → List (DayRow F) → ℕ
  selected_impressions aid rows =
      sum_by (λ r. if r.account_id == aid then r.impressions else 0) rows

  day_once :
      (aid n m : ℕ) (ids : List ℕ) (r : DayRow F)
      → m % 7 ≡ 1
      → 7 * suc n ≤ m + 6
      → day_in ids (m - 7 * n) (m + 6) r ≡ true
      → sum_by
          (λ w. if pair_eq.beq (r.account_id, monday r.date) (aid, w) then r.impressions else 0)
          (week_starts (suc n) m)
        ≡ (if r.account_id == aid then r.impressions else 0)
  day_once aid n m ids r hm hn h =
      let v = if r.account_id == aid then r.impressions else 0 in
      let within : (leb (m + 7 - 7 * suc n) r.date && ltb r.date (m + 7)) ≡ true =
        ground (arith, h, hn) in
      sum_by-cong _ _ (week_starts (suc n) m) (λ w. week_test aid w r)
      ∙ (one_week (suc n) m r.date v hm hn ∙ rw within refl)

  weeks-selected :
      (aid n m : ℕ) (ids : List ℕ) (rows : List (DayRow F))
      → m % 7 ≡ 1
      → 7 * suc n ≤ m + 6
      → sum_by
          (λ w. week_total (aid, w) (keep (day_in ids (m - 7 * n) (m + 6)) rows))
          (week_starts (suc n) m)
        ≡ selected_impressions aid (keep (day_in ids (m - 7 * n) (m + 6)) rows)
  weeks-selected aid n m ids [] hm hn = sum_by_zero (week_starts (suc n) m)
  weeks-selected aid n m ids (r ∷ rows) hm hn =
      elim (Bool-cases (day_in ids (m - 7 * n) (m + 6) r)) [
        | inr out ↦ rw out (weeks-selected aid n m ids rows hm hn)
        | inl within ↦
            let kept = keep (day_in ids (m - 7 * n) (m + 6)) rows in
            let v = if r.account_id == aid then r.impressions else 0 in
            rw within (
              sum_by_add _ _ (week_starts (suc n) m)
              ∙ omega (
                arith,
                day_once aid n m ids r hm hn within,
                weeks-selected aid n m ids rows hm hn,
              ))
      ]

  -- The impressions of a report row are those of the sums.
  weeks-metrics :
      (aid : ℕ) (starts : List ℕ) (budgets : Dict WeekKey F) (metrics : Dict WeekKey (Metrics F))
      (name : Text)
      → sum_by (λ w. w.impressions) (account_weeks starts budgets metrics (aid, name)).weeks
        ≡ sum_by (λ w. (metrics_of (aid, w) metrics).impressions) starts
  unfolding account_weeks week_row
  weeks-metrics aid [] budgets metrics name = refl
  weeks-metrics aid (w ∷ starts) budgets metrics name =
      omega (arith, weeks-metrics aid starts budgets metrics name)

  -- Ask for at least one week, on a day late enough that no week starts before the first day. The report is
  -- there, and in it the impressions of the weeks of each account add up to those of the days that the query
  -- selects for the account, from the first Monday to the end of this week: each day is counted once.
  pub overview-impressions :
      (allowed : Option (List ℕ)) (n today : ℕ) (accounts : List (ℕ × Text))
      (t : Table (BudgetRow WeekKey F)) (rows : List (DayRow F))
      → 7 * suc n ≤ today
      → (report : List (AccountWeeks F)) × ((overview allowed (suc n) today accounts t rows
            ≡ some report)
          × All
              (λ a.
                sum_by (λ w. w.impressions) a.weeks
                ≡ selected_impressions a.account_id (
                    keep
                      (day_in
                        (map (λ x. x.0) (visible allowed accounts))
                        (monday today - 7 * n)
                        (monday today + 6))
                      rows))
              report)
  unfolding overview week_starts account_weeks
  overview-impressions allowed n today accounts t rows h =
      let m = monday today in
      let ids = map (λ x. x.0) (visible allowed accounts) in
      let kept = keep (day_in ids (m - 7 * n) (m + 6)) rows in
      let starts = (m - 7 * n) ∷ week_starts n m in
      let budgets = collect (keep (week_in ids (m - 7 * n) m) t.rows) [] in
      let metrics = tally kept [] in
      (
        map (account_weeks starts budgets metrics) (visible allowed accounts),
        (
          refl,
          All-map _ (account_weeks starts budgets metrics) (visible allowed accounts) (λ a.
              weeks-metrics a.0 starts budgets metrics a.1
              ∙ (sum_by-cong _ _ starts (λ w. tally_from_nothing (a.0, w) kept)
                  ∙ weeks-selected a.0 n m ids rows (monday_mod today (omega (arith, h)))
                      (monday_reach n today h))),
        ),
      )
