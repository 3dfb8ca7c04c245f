-- ===== src/Budgets/Account/Laws.antt =====
-- The dicts of the report and of the weekly mail hold what the table has under two keys.
pub mod Read
use google_ads_intelligence.Base.{
  ℕ, ◌≡◌, refl, sym, subst, ap, ◌∙◌, Bool, true, false, not, ◌&&◌, ◌||◌, Option, none, some, List,
  [], ◌∷◌, ◌⊎◌, inl, inr, if◌then◌else◌, keep, All, ◌==◌, Bool-cases, arith,
}
use google_ads_intelligence.Base.Eq.{Eq, ◌=?◌, nat_eq, list_eq, pair_eq, mem, beq_refl}
use google_ads_intelligence.Base.Dict.{Dict, Table, insert, lookup, lookup-insert}
use google_ads_intelligence.Base.Text.{Text, codes}
use google_ads_intelligence.Budgets.Store.{BudgetRow, key_of, put, collect, IsValid}
use google_ads_intelligence.Budgets.Store.Laws.{
  lookup-put, put-IsValid, beq_false, lookup-collect-keep,
}
use google_ads_intelligence.Budgets.Account.{
  Date, BudgetKey, total_sentinel, first_of_month, is_total, start_of, BudgetMaps, set_budget,
  budget_maps, maps_for_email,
}

abbrev pub total_key : ℕ → BudgetKey
total_key id = (id, (codes "total", total_sentinel))

abbrev pub month_key : ℕ → Date → BudgetKey
month_key id month_start = (id, (codes "month", month_start))

total_test :
    (id : ℕ) (key : BudgetKey)
    → (key.1.0 ≡ codes "total") × (key.1.1 ≡ total_sentinel)
    → (key =? total_key id) ≡ (key.0 == id)
total_test id key h = rw (h.0, h.1) ground arith

month_not_total :
    (id : ℕ) (key : BudgetKey) → key.1.0 ≡ codes "month" → (key =? total_key id) ≡ false
month_not_total id key h = rw h ground arith

month_test :
    (id : ℕ) (month_start : Date) (key : BudgetKey)
    → key.1.0 ≡ codes "month"
    → (key =? month_key id month_start) ≡ (key.0 == id && (key.1.1 =? month_start))
month_test id month_start key h = rw h refl

total_not_month :
    (id : ℕ) (month_start : Date) (key : BudgetKey)
    → key.1.0 ≡ codes "total"
    → (key =? month_key id month_start) ≡ false
total_not_month id month_start key h = rw h ground arith

and_true : (b : Bool) → (b && true) ≡ b
and_true b = ground arith

and_false : (b : Bool) → (b && false) ≡ false
and_false b = ground arith

module _ {F : Type 0} where
  -- The rows that `set_budget` writes: a total starts at the sentinel, and all others are for a month.
  abbrev pub IsBudget : ℕ × BudgetRow BudgetKey F → Type 0
  IsBudget x =
      ((x.1.key.1.0 ≡ codes "total") × (x.1.key.1.1 ≡ total_sentinel))
      ⊎ (x.1.key.1.0 ≡ codes "month")

  -- The tests that the two dicts come to.
  pub total_when :
      (id : ℕ) (x : ℕ × BudgetRow BudgetKey F)
      → IsBudget x
      → (x.1.key =? total_key id) ≡ (is_total x.1.key.1.0 && x.1.key.0 == id)
  total_when id x (inl total) = total_test id x.1.key total ∙ rw (total.0) refl
  total_when id x (inr month) = month_not_total id x.1.key month ∙ rw month refl

  pub month_when :
      (id : ℕ) (month_start : Date) (x : ℕ × BudgetRow BudgetKey F)
      → IsBudget x
      → (x.1.key =? month_key id month_start)
        ≡ (not (is_total x.1.key.1.0) && (x.1.key.0 == id && (x.1.key.1.1 =? month_start)))
  month_when id month_start x (inl total) =
      total_not_month id month_start x.1.key total.0 ∙ rw (total.0) refl
  month_when id month_start x (inr month) = month_test id month_start x.1.key month ∙ rw month refl

  -- One row.
  total_of_one :
      (id : ℕ) (month_start : Date) (x : ℕ × BudgetRow BudgetKey F) (maps : BudgetMaps F)
      → lookup id (budget_maps month_start (x ∷ []) maps).total ≡ (
          if is_total x.1.key.1.0 && x.1.key.0 == id then some x.1.amount else lookup id maps.total)
  unfolding budget_maps
  total_of_one id month_start x maps = elim (Bool-cases (is_total x.1.key.1.0)) [
    | inl total ↦ rw total (lookup-insert id x.1.key.0 x.1.amount maps.total)
    | inr month ↦ elim (Bool-cases (x.1.key.1.1 =? month_start)) [
      | inl now ↦ rw (month, now) refl
      | inr other ↦ rw (month, other) refl
    ]
  ]

  month_of_one :
      (id : ℕ) (month_start : Date) (x : ℕ × BudgetRow BudgetKey F) (maps : BudgetMaps F)
      → lookup id (budget_maps month_start (x ∷ []) maps).monthly ≡ (
          if not (is_total x.1.key.1.0) && (x.1.key.0 == id && (x.1.key.1.1 =? month_start))
          then some x.1.amount
          else lookup id maps.monthly)
  unfolding budget_maps
  month_of_one id month_start x maps = elim (Bool-cases (is_total x.1.key.1.0)) [
    | inl total ↦ rw total refl
    | inr month ↦ elim (Bool-cases (x.1.key.1.1 =? month_start)) [
      | inl now ↦
          rw (month, now)
            (lookup-insert id x.1.key.0 x.1.amount maps.monthly
              ∙ rw (and_true (x.1.key.0 == id)) refl)
      | inr other ↦ rw (month, other, and_false (x.1.key.0 == id)) refl
    ]
  ]

  total-collect :
      (id : ℕ) (month_start : Date) (rows : Dict ℕ (BudgetRow BudgetKey F)) (maps : BudgetMaps F)
      (d : Dict BudgetKey F)
      → All IsBudget rows
      → lookup id maps.total ≡ lookup (total_key id) d
      → lookup id (budget_maps month_start rows maps).total ≡ lookup (total_key id) (collect rows d)
  unfolding budget_maps
  total-collect id month_start [] maps d h same = same
  total-collect id month_start (x ∷ rows) maps d h same =
      total-collect id month_start rows (budget_maps month_start (x ∷ []) maps)
        (insert x.1.key x.1.amount d) h.1
        (total_of_one id month_start x maps
          ∙ sym (
              lookup-insert (total_key id) x.1.key x.1.amount d
              ∙ rw (total_when id x h.0, same) refl))

  month-collect :
      (id : ℕ) (month_start : Date) (rows : Dict ℕ (BudgetRow BudgetKey F)) (maps : BudgetMaps F)
      (d : Dict BudgetKey F)
      → All IsBudget rows
      → lookup id maps.monthly ≡ lookup (month_key id month_start) d
      → lookup id (budget_maps month_start rows maps).monthly
        ≡ lookup (month_key id month_start) (collect rows d)
  unfolding budget_maps
  month-collect id month_start [] maps d h same = same
  month-collect id month_start (x ∷ rows) maps d h same =
      month-collect id month_start rows (budget_maps month_start (x ∷ []) maps)
        (insert x.1.key x.1.amount d) h.1
        (month_of_one id month_start x maps
          ∙ sym (
              lookup-insert (month_key id month_start) x.1.key x.1.amount d
              ∙ rw (month_when id month_start x h.0, same) refl))

  All-keep :
      (p : ℕ × BudgetRow BudgetKey F → Bool) (rows : Dict ℕ (BudgetRow BudgetKey F))
      → All IsBudget rows
      → All IsBudget (keep p rows)
  All-keep p [] h = tt
  All-keep p (x ∷ rows) h = elim (Bool-cases (p x)) [
    | inl kept ↦ rw kept (h.0, All-keep p rows h.1)
    | inr out ↦ rw out (All-keep p rows h.1)
  ]

  -- What the maps hold for an account, by the table.
  pub email-total :
      (ids : List ℕ) (id : ℕ) (today : Date) (t : Table (BudgetRow BudgetKey F))
      → mem id ids ≡ true
      → All IsBudget t.rows
      → lookup id (maps_for_email ids today t).total ≡ lookup (total_key id) (collect t.rows [])
  unfolding maps_for_email
  email-total ids id today t m h =
      total-collect id (first_of_month today) (keep (λ x. mem x.1.key.0 ids) t.rows)
        record { monthly = []; total = [] } [] (All-keep (λ x. mem x.1.key.0 ids) t.rows h) refl
      ∙ lookup-collect-keep (total_key id) (λ x. mem x.1.key.0 ids) t.rows [] []
          (λ x e. rw (ap (λ k. k.0) e) m) refl

  pub email-monthly :
      (ids : List ℕ) (id : ℕ) (today : Date) (t : Table (BudgetRow BudgetKey F))
      → mem id ids ≡ true
      → All IsBudget t.rows
      → lookup id (maps_for_email ids today t).monthly
        ≡ lookup (month_key id (first_of_month today)) (collect t.rows [])
  unfolding maps_for_email
  email-monthly ids id today t m h =
      month-collect id (first_of_month today) (keep (λ x. mem x.1.key.0 ids) t.rows)
        record { monthly = []; total = [] } [] (All-keep (λ x. mem x.1.key.0 ids) t.rows h) refl
      ∙ lookup-collect-keep (month_key id (first_of_month today)) (λ x. mem x.1.key.0 ids) t.rows []
          [] (λ x e. rw (ap (λ k. k.0) e) m) refl
