-- ===== src/Budgets/Store.antt =====
-- The tables of app/models/weekly_budget.py and app/models/account_budget.py: a row has the columns of
-- its unique constraint, here its key, with the amount and who set it.
pub mod Laws
use google_ads_intelligence.Base.{ℕ, ◌≡◌, Option, none, some, [], ◌∷◌}
use google_ads_intelligence.Base.Eq.{Eq, nat_eq}
use google_ads_intelligence.Base.Dict.{
  Dict, Table, add_row, set_row, insert, AllBelow, HasUniqueKeys,
}
use google_ads_intelligence.Base.Index.{find_by}
use google_ads_intelligence.Base.Text.{Text}

-- AccountWeeklyBudget and AccountBudget
pub record BudgetRow (K F : Type 0) : Type 0 where
  pub key : K
  pub amount : F
  pub set_by : Option Text

abbrev pub key_of : {K F : Type 0} → BudgetRow K F → K
key_of row = row.key

module _ {K F : Type 0} ⦃e : Eq K⦄ where
  -- The row of a key is changed, or added.
  unfoldable pub put : K → F → Option Text → Table (BudgetRow K F) → Table (BudgetRow K F)
  put key amount by t = elim (find_by key_of key t.rows) [
    | none ↦ add_row record { key = key; amount = amount; set_by = by } t
    | some (id, row) ↦ set_row id (record row { amount = amount; set_by = by }) t
  ]

  -- `for ... in rows: budgets[key] = float(amount)`
  abbrev pub collect : Dict ℕ (BudgetRow K F) → Dict K F → Dict K F
  collect [] budgets = budgets
  collect ((id, row) ∷ rows) budgets = collect rows (insert row.key row.amount budgets)

  -- The unique constraint.
  abbrev pub HasOneRow : Dict ℕ (BudgetRow K F) → Type 0
  HasOneRow [] = Unit
  HasOneRow (x ∷ d) = (find_by key_of x.1.key d ≡ none) × HasOneRow d

  -- The ids are below the sequence and unique, and so are the keys.
  abbrev pub IsValid : Table (BudgetRow K F) → Type 0
  IsValid t = AllBelow t.next_id t.rows × (HasUniqueKeys t.rows × HasOneRow t.rows)
