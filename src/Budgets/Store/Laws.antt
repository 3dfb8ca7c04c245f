-- ===== src/Budgets/Store/Laws.antt =====
-- What is put under a key is what is collected for it, and the constraints stay.
use google_ads_intelligence.Base.{
  ℕ, ◌<◌, ◌≡◌, refl, sym, subst, ap, ◌∙◌, Bool, true, false, Option, none, some, [], ◌∷◌, ◌++◌,
  keep, inl, inr, if◌then◌else◌, Option-cases, Bool-cases, All, All-append, ==_iff, ◌==◌, arith,
}
use google_ads_intelligence.Base.Eq.{Eq, ◌=?◌, nat_eq, beq_refl}
use google_ads_intelligence.Base.Dict.{
  Dict, Table, insert, lookup, AllBelow, HasUniqueKeys, lookup-insert_self, lookup-insert_ne,
  lookup-insert, insert-HasUniqueKeys, add_row-HasUniqueKeys, AllBelow-append_new, AllBelow-insert,
}
use google_ads_intelligence.Base.Index.{
  find_by, find_by-append, find_by-insert, find_by_column, find_by_is_row,
}
use google_ads_intelligence.Base.Text.{Text}
use google_ads_intelligence.Budgets.Store.{BudgetRow, key_of, put, collect, HasOneRow, IsValid}

pub beq_false : {K : Type 0} ⦃e : Eq K⦄ (a b : K) → (a =? b) ≡ false → (b =? a) ≡ false
beq_false ⦃e⦄ a b h = ground (arith, e.beq_iff a b, e.beq_iff b a, h)

module _ {K F : Type 0} ⦃e : Eq K⦄ where
  -- The amount of a key.
  abbrev pub amount_of : Option (ℕ × BudgetRow K F) → Option F → Option F
  amount_of none other = other
  amount_of (some x) other = some x.1.amount

  pub lookup-collect :
      (k : K) (rows : Dict ℕ (BudgetRow K F)) (budgets : Dict K F)
      → HasOneRow rows
      → lookup k (collect rows budgets) ≡ amount_of (find_by key_of k rows) (lookup k budgets)
  lookup-collect k [] budgets h = refl
  lookup-collect k ((id, row) ∷ rows) budgets h = elim (Bool-cases (row.key =? k)) [
    | inl same ↦
        let here : row.key ≡ k = (e.beq_iff row.key k).0 same in
        lookup-collect k rows (insert row.key row.amount budgets) h.1
        ∙ rw (← here, beq_refl row.key, h.0, lookup-insert_self row.key row.amount budgets) refl
    | inr other ↦
        lookup-collect k rows (insert row.key row.amount budgets) h.1
        ∙ rw (other, lookup-insert_ne k row.key row.amount budgets (beq_false row.key k other)) refl
  ]

  HasOneRow-append :
      (d : Dict ℕ (BudgetRow K F)) (x : ℕ × BudgetRow K F)
      → find_by key_of x.1.key d ≡ none
      → HasOneRow d
      → HasOneRow (d ++ x ∷ [])
  HasOneRow-append [] x h u = (refl, tt)
  HasOneRow-append (y ∷ d) x h u = ground (
    arith,
    e.beq_iff y.1.key x.1.key,
    e.beq_iff x.1.key y.1.key,
    find_by-append key_of y.1.key x.1.key d x,
    HasOneRow-append d x,
  )

  HasOneRow-insert :
      (d : Dict ℕ (BudgetRow K F)) (x : ℕ × BudgetRow K F) (a : BudgetRow K F)
      → HasUniqueKeys d
      → find_by key_of a.key d ≡ some x
      → HasOneRow d
      → HasOneRow (insert x.0 a d)
  HasOneRow-insert [] x a v h u = cc
  HasOneRow-insert (y ∷ d) x a v h u = ground (
    arith,
    e.beq_iff y.1.key a.key,
    e.beq_iff a.key y.1.key,
    ==_iff x.0 y.0,
    find_by_column key_of a.key d x,
    find_by_is_row key_of a.key d x,
    find_by-insert key_of y.1.key a.key d x a v.1,
    HasOneRow-insert d x a v.1,
  )

  amount_of-if :
      (b : Bool) (x : ℕ × BudgetRow K F) (o : Option (ℕ × BudgetRow K F))
      → amount_of (if b then some x else o) none ≡ (if b then some x.1.amount else amount_of o none)
  amount_of-if true x o = refl
  amount_of-if false x o = refl

  find_by_below :
      (n : ℕ) (k : K) (d : Dict ℕ (BudgetRow K F)) (x : ℕ × BudgetRow K F)
      → AllBelow n d
      → find_by key_of k d ≡ some x
      → x.0 < n
  find_by_below n k [] x b h = cc
  find_by_below n k (y ∷ d) x b h = elim (Bool-cases (y.1.key =? k)) [
    | inl e ↦ ground (arith, h, e, b.0)
    | inr e ↦ find_by_below n k d x b.1 (rw e at h)
  ]

  put-row :
      (key k : K) (amount : F) (by : Option Text) (t : Table (BudgetRow K F))
      → IsValid t
      → amount_of (find_by key_of k (put key amount by t).rows) none
        ≡ (if key =? k then some amount else amount_of (find_by key_of k t.rows) none)
  unfolding put
  put-row key k amount by t v = elim (Option-cases (find_by key_of key t.rows)) [
    | inl missing ↦
        let new : BudgetRow K F = record { key = key; amount = amount; set_by = by } in
        rw (put, missing, find_by-append key_of k key t.rows (t.next_id, new) missing refl)
          (amount_of-if (key =? k) (t.next_id, new) (find_by key_of k t.rows))
    | inr (x, found) ↦
        let changed : BudgetRow K F = record x.1 { amount = amount; set_by = by } in
        rw
          (
            put,
            found,
            find_by-insert key_of k key t.rows x changed v.1.0 found
                (find_by_column key_of key t.rows x found),
          )
          (amount_of-if (key =? k) (x.0, changed) (find_by key_of k t.rows))
  ]

  pub put-IsValid :
      (key : K) (amount : F) (by : Option Text) (t : Table (BudgetRow K F))
      → IsValid t
      → IsValid (put key amount by t)
  unfolding put
  put-IsValid key amount by t v = elim (Option-cases (find_by key_of key t.rows)) [
    | inl missing ↦
        let new : BudgetRow K F = record { key = key; amount = amount; set_by = by } in
        rw (put, missing)
          (
            AllBelow-append_new t.next_id new t.rows v.0,
            (
              add_row-HasUniqueKeys t.next_id new t.rows v.0 v.1.0,
              HasOneRow-append t.rows (t.next_id, new) missing v.1.1,
            ),
          )
    | inr (x, found) ↦
        let changed : BudgetRow K F = record x.1 { amount = amount; set_by = by } in
        let same : find_by key_of x.1.key t.rows ≡ some x =
          subst (λ k. find_by key_of k t.rows ≡ some x)
            (sym (find_by_column key_of key t.rows x found)) found in
        rw (put, found)
          (
            AllBelow-insert t.next_id x.0 changed t.rows
                (find_by_below t.next_id key t.rows x v.0 found) v.0,
            (
              insert-HasUniqueKeys x.0 changed t.rows v.1.0,
              HasOneRow-insert t.rows x changed v.1.0 same v.1.1,
            ),
          )
  ]

  -- What is collected after a `put`.
  pub lookup-put :
      (key k : K) (amount : F) (by : Option Text) (t : Table (BudgetRow K F))
      → IsValid t
      → lookup k (collect (put key amount by t).rows [])
        ≡ (if key =? k then some amount else lookup k (collect t.rows []))
  lookup-put key k amount by t v =
      lookup-collect k (put key amount by t).rows [] (put-IsValid key amount by t v).1.1
      ∙ (put-row key k amount by t v
          ∙ ap (λ o. if key =? k then some amount else o) (sym (lookup-collect k t.rows [] v.1.1)))

  All-insert :
      (P : ℕ × BudgetRow K F → Type 0) (n : ℕ) (row : BudgetRow K F) (d : Dict ℕ (BudgetRow K F))
      → P (n, row)
      → All P d
      → All P (insert n row d)
  All-insert P n row [] p h = (p, tt)
  All-insert P n row (x ∷ d) p h = elim (Bool-cases (n == x.0)) [
    | inl same ↦ rw same (p, h.1)
    | inr other ↦ rw other (h.0, All-insert P n row d p h.1)
  ]

  -- A property of the rows that the row of the key has, whatever else is in it.
  pub put-All :
      (P : ℕ × BudgetRow K F → Type 0) (key : K) (amount : F) (by : Option Text)
      (t : Table (BudgetRow K F))
      → ((n : ℕ) (row : BudgetRow K F) → row.key ≡ key → P (n, row))
      → All P t.rows
      → All P (put key amount by t).rows
  unfolding put
  put-All P key amount by t p h = elim (Option-cases (find_by key_of key t.rows)) [
    | inl missing ↦
        let new : BudgetRow K F = record { key = key; amount = amount; set_by = by } in
        rw (put, missing) (All-append P t.rows ((t.next_id, new) ∷ []) h (p t.next_id new refl, tt))
    | inr (x, found) ↦
        let changed : BudgetRow K F = record x.1 { amount = amount; set_by = by } in
        rw (put, found)
          (All-insert P x.0 changed t.rows
            (p x.0 changed (find_by_column key_of key t.rows x found)) h)
  ]

module _ {K V : Type 0} ⦃e : Eq K⦄ where
  other_key :
      (k : K) (p : ℕ × BudgetRow K V → Bool) (x : ℕ × BudgetRow K V)
      → ((x : ℕ × BudgetRow K V) → x.1.key ≡ k → p x ≡ true)
      → p x ≡ false
      → (x.1.key =? k) ≡ false
  other_key k p x h out = elim (Bool-cases (x.1.key =? k)) [
    | inl same ↦ ground (arith, h x ((e.beq_iff x.1.key k).0 same), out)
    | inr other ↦ other
  ]

  -- Rows of other keys may be left out.
  pub lookup-collect-keep :
      (k : K) (p : ℕ × BudgetRow K V → Bool) (rows : Dict ℕ (BudgetRow K V)) (d d' : Dict K V)
      → ((x : ℕ × BudgetRow K V) → x.1.key ≡ k → p x ≡ true)
      → lookup k d ≡ lookup k d'
      → lookup k (collect (keep p rows) d) ≡ lookup k (collect rows d')
  lookup-collect-keep k p [] d d' h same = same
  lookup-collect-keep k p (x ∷ rows) d d' h same = elim (Bool-cases (p x)) [
    | inl kept ↦ rw kept (
        lookup-collect-keep k p rows (insert x.1.key x.1.amount d) (insert x.1.key x.1.amount d') h
          (rw (lookup-insert k x.1.key x.1.amount d, lookup-insert k x.1.key x.1.amount d', same)
            refl))
    | inr out ↦ rw out (
        lookup-collect-keep k p rows d (insert x.1.key x.1.amount d') h
          (rw (lookup-insert k x.1.key x.1.amount d', other_key k p x h out) same))
  ]
