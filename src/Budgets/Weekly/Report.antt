-- ===== src/Budgets/Weekly/Report.antt =====
-- What the report shows of a budget that is set.
use google_ads_intelligence.Base.{
  ℕ, zero, suc, ◌+◌, ◌-◌, ◌*◌, ◌%◌, ◌≤◌, ◌≡◌, refl, ap, ◌∙◌, true, ◌&&◌, Option, some, List, [],
  ◌∷◌, map, keep, All, leb, ltb, ◌==◌, if◌then◌else◌, arith,
}
use google_ads_intelligence.Base.Eq.{nat_eq, pair_eq, mem, beq_refl}
use google_ads_intelligence.Base.Dict.{Dict, Table, lookup}
use google_ads_intelligence.Base.Text.{Text}
use google_ads_intelligence.Base.Float.{FloatOps}
use google_ads_intelligence.Budgets.Store.{BudgetRow, collect, IsValid}
use google_ads_intelligence.Budgets.Store.Laws.{lookup-put, put-IsValid, lookup-collect-keep}
use google_ads_intelligence.Budgets.Weekly.{
  WeekKey, monday, week_starts, DayRow, Metrics, AccountWeeks, visible, set_budget, tally, week_row,
  day_in, week_in, account_weeks, overview,
}
use google_ads_intelligence.Budgets.Weekly.Weeks.{monday_mod, monday_reach, monday_is}

-- The budgets that a report shows: the account, and its weeks with their budgets.
abbrev pub Shown : Type 0 → Type 0
Shown F = List (ℕ × List (ℕ × Option F))

abbrev pub shown : {F : Type 0} → List (AccountWeeks F) → Shown F
shown report = map (λ a. (a.account_id, map (λ w. (w.week_start, w.budget)) a.weeks)) report

-- The budgets with a new amount for one account, in the seven days from the start of a week that
-- have the given day.
abbrev pub with_amount : {F : Type 0} → (account_id day : ℕ) → F → ℕ → ℕ × Option F → ℕ × Option F
with_amount account_id day amount aid w =
    (w.0, if account_id == aid && (leb w.0 day && ltb day (w.0 + 7)) then some amount else w.1)

abbrev pub with_budget : {F : Type 0} → (account_id day : ℕ) → F → Shown F → Shown F
with_budget account_id day amount budgets =
    map (λ a. (a.0, map (with_amount account_id day amount a.0) a.1)) budgets

mem_own :
    {A : Type 0} (f : A → ℕ) (xs : List A) (ids : List ℕ)
    → ((n : ℕ) → mem n (map f xs) ≡ true → mem n ids ≡ true)
    → All (λ x. mem (f x) ids ≡ true) xs
mem_own f [] ids h = tt
mem_own f (x ∷ xs) ids h = (
  h (f x) (ground (arith, beq_refl (f x))),
  mem_own f xs ids (λ n in_rest. h n (ground (arith, in_rest))),
)

module _ {F : Type 0} ⦃fl : FloatOps F⦄ (account_id week_start : ℕ) (amount : F) (by : Option Text)
    (t : Table (BudgetRow WeekKey F)) (valid : IsValid t) (n m : ℕ) (m_is_monday : m % 7 ≡ 1)
    (reaches : 7 * n ≤ m) (ids : List ℕ) where
  abbrev read_budget : Table (BudgetRow WeekKey F) → ℕ → ℕ → Option F
  read_budget table aid w =
      lookup (aid, w) (collect (keep (week_in ids (m - 7 * n) m) table.rows) [])

  same_week :
      (k day account aid : ℕ)
      → k ≤ n
      → pair_eq.beq (account, monday day) (aid, m - 7 * k)
        ≡ (account == aid && (leb (m - 7 * k) day && ltb day (m - 7 * k + 7)))
  same_week k day account aid hk =
      ground (arith, monday_is m k day m_is_monday (omega (arith, reaches, hk)))

  week-budget :
      (aid k : ℕ)
      → mem aid ids ≡ true
      → k ≤ n
      → (let w = m - 7 * k in
          read_budget (set_budget account_id week_start amount by t) aid w ≡ (
            if account_id == aid && (leb w week_start && ltb week_start (w + 7))
            then some amount
            else read_budget t aid w))
  unfolding set_budget
  week-budget aid k own hk =
      let w = m - 7 * k in
      let whole : (table : Table (BudgetRow WeekKey F))
          → read_budget table aid w ≡ lookup (aid, w) (collect table.rows []) =
        λ table.
          lookup-collect-keep (aid, w) (week_in ids (m - 7 * n) m) table.rows [] []
            (λ x e. rw e (ground (arith, own, hk))) refl in
      let key : WeekKey = (account_id, monday week_start) in
      whole (set_budget account_id week_start amount by t)
      ∙ (lookup-put key (aid, w) amount by t valid
          ∙ rw (whole t, same_week k week_start account_id aid hk) refl)

  weeks-changed :
      (aid j : ℕ)
      → mem aid ids ≡ true
      → j ≤ suc n
      → map
          (λ w. (w, read_budget (set_budget account_id week_start amount by t) aid w))
          (week_starts j m)
        ≡ map
            (with_amount account_id week_start amount aid)
            (map (λ w. (w, read_budget t aid w)) (week_starts j m))
  unfolding week_starts
  weeks-changed aid zero own hj = refl
  weeks-changed aid (suc k) own hj =
      rw (week-budget aid k own (omega (arith, hj)), weeks-changed aid k own (omega (arith, hj)))
        refl

-- The budgets of the weeks of an account.
abbrev own_weeks : {F : Type 0} → List ℕ → Dict WeekKey F → ℕ → List (ℕ × Option F)
own_weeks starts budgets aid = map {B = ℕ × Option _} (λ w. (w, lookup (aid, w) budgets)) starts

account_weeks-shown :
    {F : Type 0} ⦃fl : FloatOps F⦄ (starts : List ℕ) (budgets : Dict WeekKey F)
    (metrics : Dict WeekKey (Metrics F)) (a : ℕ × Text)
    → map {B = ℕ × Option F}
        (λ w. (w.week_start, w.budget))
        (account_weeks starts budgets metrics a).weeks
      ≡ own_weeks starts budgets a.0
unfolding account_weeks week_row
account_weeks-shown [] budgets metrics a = refl
account_weeks-shown (w ∷ starts) budgets metrics a =
    ap (λ l. (w, lookup (a.0, w) budgets) ∷ l) (account_weeks-shown starts budgets metrics a)

module _ {F : Type 0} ⦃fl : FloatOps F⦄ (starts : List ℕ) (budgets budgets' : Dict WeekKey F)
    (metrics : Dict WeekKey (Metrics F)) (account_id day : ℕ) (amount : F) (P : ℕ → Type 0)
    (changes : (aid : ℕ)
      → P aid
      → own_weeks starts budgets' aid
        ≡ map (with_amount account_id day amount aid) (own_weeks starts budgets aid)) where
  shown-with_budget :
      (accounts : List (ℕ × Text))
      → All (λ a. P a.0) accounts
      → shown (map (account_weeks starts budgets' metrics) accounts)
        ≡ with_budget account_id day amount
            (shown (map (account_weeks starts budgets metrics) accounts))
  unfolding account_weeks
  shown-with_budget [] h = refl
  shown-with_budget (a ∷ accounts) h =
      rw
        (
          account_weeks-shown starts budgets' metrics a,
          account_weeks-shown starts budgets metrics a,
          changes a.0 h.0,
          shown-with_budget accounts h.1,
        )
        refl

module _ {F : Type 0} ⦃fl : FloatOps F⦄ where
  -- Let the table be valid, and ask for a report of at least one week, on a day late enough that no week
  -- starts before the first day. Set a budget for an account and any day of a week. The table is still
  -- valid, and the reports before and after are there. The one after shows the budgets of the one before,
  -- but for the account: in the week that has the day, one of the seven days from its start, it shows
  -- the new amount.
  pub set_budget-overview :
      (account_id week_start : ℕ) (amount : F) (by : Option Text) (t : Table (BudgetRow WeekKey F))
      (allowed : Option (List ℕ)) (n today : ℕ) (accounts : List (ℕ × Text))
      (rows : List (DayRow F))
      → IsValid t
      → 7 * suc n ≤ today
      → IsValid (set_budget account_id week_start amount by t)
        × ((before : List (AccountWeeks F)) × ((after : List (AccountWeeks F)) × ((overview allowed
                    (suc n)
                    today
                    accounts
                    t
                    rows
                  ≡ some before)
                × ((overview allowed
                        (suc n)
                        today
                        accounts
                        (set_budget account_id week_start amount by t)
                        rows
                      ≡ some after)
                    × (shown after ≡ with_budget account_id week_start amount (shown before))))))
  unfolding overview set_budget week_starts
  set_budget-overview account_id week_start amount by t allowed n today accounts rows v h =
      let m = monday today in
      let ids = map (λ x. x.0) (visible allowed accounts) in
      let starts = (m - 7 * n) ∷ week_starts n m in
      let metrics = tally (keep (day_in ids (m - 7 * n) (m + 6)) rows) [] in
      let budgets : Table (BudgetRow WeekKey F) → Dict WeekKey F =
        λ table. collect (keep (week_in ids (m - 7 * n) m) table.rows) [] in
      let t' = set_budget account_id week_start amount by t in
      let reach : 7 * n ≤ m = omega (arith, monday_reach n today h) in
      (
        put-IsValid (account_id, monday week_start) amount by t v,
        (
          map (account_weeks starts (budgets t) metrics) (visible allowed accounts),
          (
            map (account_weeks starts (budgets t') metrics) (visible allowed accounts),
            (
              refl,
              (
                refl,
                shown-with_budget starts (budgets t) (budgets t') metrics account_id week_start
                    amount (λ aid. mem aid ids ≡ true)
                    (λ aid own.
                      weeks-changed account_id week_start amount by t v n m
                        (monday_mod today (omega (arith, h))) reach ids aid (suc n) own
                        (omega arith))
                    (visible allowed accounts)
                    (mem_own (λ x. x.0) (visible allowed accounts) ids (λ k own. own)),
              ),
            ),
          ),
        ),
      )
