-- ===== src/Budgets/Account/Laws/Read.antt =====
-- A budget that is set is the one that the report and the weekly mail read.
use google_ads_intelligence.Base.{
  ℕ, ◌≡◌, refl, ap, ◌∙◌, Bool, true, not, ◌&&◌, ◌||◌, Option, some, List, inl, inr, if◌then◌else◌,
  All, ◌==◌, Bool-cases, arith,
}
use google_ads_intelligence.Base.Eq.{◌=?◌, nat_eq, list_eq, pair_eq, mem}
use google_ads_intelligence.Base.Dict.{Table, lookup}
use google_ads_intelligence.Base.Text.{Text, codes}
use google_ads_intelligence.Budgets.Store.{BudgetRow, put, IsValid}
use google_ads_intelligence.Budgets.Store.Laws.{lookup-put, put-IsValid, put-All}
use google_ads_intelligence.Budgets.Account.{
  Date, BudgetKey, first_of_month, is_total, start_of, SetReply, set_budget, maps_for_email,
}
use google_ads_intelligence.Budgets.Account.Laws.{
  IsBudget, total_key, month_key, email-total, email-monthly, total_when, month_when,
}

-- The period is one that `set_budget` takes.
abbrev pub is_period : Text → Bool
is_period period = period =? codes "month" || is_total period

module _ {F : Type 0} where
  key-IsBudget :
      (account_id : ℕ) (period : Text) (given : Option Date) (today : Date) (n : ℕ)
      (row : BudgetRow BudgetKey F)
      → is_period period ≡ true
      → row.key ≡ (account_id, (period, start_of period given today))
      → IsBudget (n, row)
  key-IsBudget account_id period given today n row h e = elim (Bool-cases (is_total period)) [
    | inl total ↦ inl (
      ap (λ k. k.1.0) e ∙ (list_eq.beq_iff period (codes "total")).0 total,
      ap (λ k. k.1.1) e ∙ rw total refl,
    )
    | inr other ↦
        inr (
          ap (λ k. k.1.0) e ∙ (list_eq.beq_iff period (codes "month")).0 (ground (arith, h, other)))
  ]

  -- Let the table be valid, with rows of the two kinds only, let the period be "month" or "total", and let
  -- `other` be one of the accounts that are asked for on `day`. Then `set_budget` is ok and the table stays
  -- so. The total that the weekly mail reads for `other` is the new amount if the period is "total" and
  -- `other` is the account, else as it was; the budget of the month is the new amount if the period is
  -- "month", `other` is the account, and the month is the one of `day`, else as it was.
  pub set_budget-mail :
      (account_id : ℕ) (period : Text) (amount : F) (given : Option Date) (by : Option Text)
      (today : Date) (t : Table (BudgetRow BudgetKey F)) (ids : List ℕ) (other : ℕ) (day : Date)
      → is_period period ≡ true
      → mem other ids ≡ true
      → IsValid t
      → All IsBudget t.rows
      → ((set_budget account_id period amount given by today t).0
          ≡ SetReply.ok account_id period (start_of period given today))
        × ((IsValid (set_budget account_id period amount given by today t).1
              × All IsBudget (set_budget account_id period amount given by today t).1.rows)
            × ((lookup other
                    (maps_for_email ids day
                      (set_budget account_id period amount given by today t).1).total
                  ≡ (if is_total period && account_id == other
                      then some amount
                      else lookup other (maps_for_email ids day t).total))
                × (lookup other
                      (maps_for_email ids day
                        (set_budget account_id period amount given by today t).1).monthly
                    ≡ (if not (is_total period)
                          && (account_id == other
                              && (start_of period given today =? first_of_month day))
                        then some amount
                        else lookup other (maps_for_email ids day t).monthly))))
  unfolding set_budget
  set_budget-mail account_id period amount given by today t ids other day h m v b =
      let start = start_of period given today in
      let key : BudgetKey = (account_id, (period, start)) in
      let new : BudgetRow BudgetKey F = record { key = key; amount = amount; set_by = by } in
      let kind : IsBudget (0, new) = key-IsBudget account_id period given today 0 new h refl in
      let after = put key amount by t in
      let all : All IsBudget after.rows =
        put-All IsBudget key amount by t
          (λ n row e. key-IsBudget account_id period given today n row h e) b in
      rw h (
        refl,
        (
          (put-IsValid key amount by t v, all),
          (
            email-total ids other day after m all
                ∙ (lookup-put key (total_key other) amount by t v
                    ∙ rw (total_when other (0, new) kind, email-total ids other day t m b) refl),
            email-monthly ids other day after m all
                ∙ (lookup-put key (month_key other (first_of_month day)) amount by t v
                    ∙ rw
                        (
                          month_when other (first_of_month day) (0, new) kind,
                          email-monthly ids other day t m b,
                        )
                        refl),
          ),
        ),
      )
