-- ===== src/Sync/Dimension/Laws.antt =====
-- `upsert` against a lookup by the natural key: get or create, then read back.
use google_ads_intelligence.Base.{
  ℕ, ◌+◌, ◌≡◌, refl, ap, ◌∙◌, Bool, true, Option, none, some, is_some, [], ◌∷◌, ◌++◌, ==_iff, arith,
  if◌then◌else◌,
}
use google_ads_intelligence.Base.{◌⊎◌, false, Bool-cases, ◌==◌, Option-cases, inl, inr, length}
use google_ads_intelligence.Base.Dict.{length-insert, lookup-insert}
use google_ads_intelligence.Base.Eq.{Eq, nat_eq, list_eq, beq_refl, ◌=?◌}
use google_ads_intelligence.Base.Dict.{Dict, Table, lookup, insert, HasUniqueKeys}
use google_ads_intelligence.Sync.Window.{Columns, Value}
use google_ads_intelligence.Base.Text.{Text}
use google_ads_intelligence.Sync.Dimension.{Dim, has_key, find_dim, set_all, upsert}

-- The value that a list of assignments leaves at a name.
abbrev pub last_value : {F : Type 0} → Text → Columns F → Option (Value F)
last_value name [] = none
last_value name ((k, v) ∷ values) = elim (last_value name values) [
  | some later ↦ some later
  | none ↦ if k =? name then some v else none
]

abbrev pub given_or : {A : Type 0} → Option A → Option A → Option A
given_or none old = old
given_or (some v) old = some v

lookup-set_all :
    {F : Type 0} (name : Text) (values old : Columns F)
    → lookup name (set_all values old) ≡ given_or (last_value name values) (lookup name old)
lookup-set_all name [] old = refl
lookup-set_all name ((k, v) ∷ values) old = elim (Option-cases (last_value name values)) [
  | inl e ↦
      lookup-set_all name values (insert k v old)
      ∙ rw e (
          (lookup-insert name k v old
            ∙ (elim (Bool-cases (k =? name)) [ inl b ↦ rw b refl | inr b ↦ rw b refl ])))
  | inr (later, e) ↦ lookup-set_all name values (insert k v old) ∙ rw e refl
]

module _ {K F : Type 0} ⦃e : Eq K⦄ where
  find_dim-append :
      (scope : ℕ) (key : K) (d : Dict ℕ (Dim K F)) (x : ℕ × Dim K F)
      → find_dim scope key d ≡ none
      → has_key scope key x.1 ≡ true
      → find_dim scope key (d ++ x ∷ []) ≡ some x
  find_dim-append scope key [] x h hx = ground (arith, hx)
  find_dim-append scope key (y ∷ d) x h hx = ground (arith, hx, find_dim-append scope key d x)

  pub find_dim_is_row :
      (scope : ℕ) (key : K) (d : Dict ℕ (Dim K F)) (x : ℕ × Dim K F)
      → find_dim scope key d ≡ some x
      → is_some (lookup x.0 d) ≡ true
  find_dim_is_row scope key [] x h = cc
  find_dim_is_row scope key (y ∷ d) x h =
      ground (arith, ==_iff x.0 y.0, find_dim_is_row scope key d x)

  find_dim-insert :
      (scope : ℕ) (key : K) (d : Dict ℕ (Dim K F)) (x : ℕ × Dim K F) (row : Dim K F)
      → HasUniqueKeys d
      → find_dim scope key d ≡ some x
      → has_key scope key row ≡ true
      → find_dim scope key (insert x.0 row d) ≡ some (x.0, row)
  find_dim-insert scope key [] x row u h hr = cc
  find_dim-insert scope key (y ∷ d) x row u h hr = ground (
    arith,
    hr,
    ==_iff x.0 y.0,
    find_dim_is_row scope key d x,
    find_dim-insert scope key d x row u.1,
  )

  -- The row that was in the table, and what the update made of it. No other row has changed.
  pub record Updated (scope : ℕ) (key : K) (values : Columns F) (before : Table (Dim K F)) (pk : ℕ)
      (row : Dim K F) (after : Table (Dim K F)) : Type 0 where
    pub old : Dim K F
    pub old_is : find_dim scope key before.rows ≡ some (pk, old)
    pub columns_are :
        (name : Text)
        → lookup name row.columns ≡ given_or (last_value name values) (lookup name old.columns)
    pub same_next_id : after.next_id ≡ before.next_id
    pub all_rows :
        (id : ℕ) → lookup id after.rows ≡ (if pk == id then some row else lookup id before.rows)
    pub size : length after.rows ≡ length before.rows

  -- The row that is added behind the others.
  pub record Created (scope : ℕ) (key : K) (values : Columns F) (before : Table (Dim K F)) (pk : ℕ)
      (row : Dim K F) (after : Table (Dim K F)) : Type 0 where
    pub is_new : find_dim scope key before.rows ≡ none
    pub columns_are : row.columns ≡ values
    pub pk_is : pk ≡ before.next_id
    pub next_pk : after.next_id ≡ before.next_id + 1
    pub all_rows : after.rows ≡ before.rows ++ (pk, row) ∷ []

  pub record Upserted (scope : ℕ) (key : K) (account : ℕ) (values : Columns F)
      (before : Table (Dim K F)) (pk : ℕ) (created : Bool) (after : Table (Dim K F)) : Type 0 where
    pub row : Dim K F
    pub found : find_dim scope key after.rows ≡ some (pk, row)
    pub row_scope : row.scope ≡ scope
    pub row_key : row.key ≡ key
    pub row_account : row.account_id ≡ account
    pub how :
        ((created ≡ true) × Created scope key values before pk row after)
        ⊎ ((created ≡ false) × Updated scope key values before pk row after)

  module _ (scope : ℕ) (key : K) (account : ℕ) (values : Columns F) (t : Table (Dim K F)) where
    upsert_new :
        find_dim scope key t.rows ≡ none
        → (let r = upsert scope key account values t in
            Upserted scope key account values t r.0.0 r.0.1 r.1)
    unfolding upsert
    upsert_new h =
        let row : Dim K F = record {
          scope = scope;
          key = key;
          account_id = account;
          columns = values;
        } in
        rw (h, upsert)
          record {
            row = row;
            found =
                find_dim-append scope key t.rows (t.next_id, row) h
                  (ground (arith, beq_refl scope, beq_refl key));
            row_scope = refl;
            row_key = refl;
            row_account = refl;
            how = inl (
              refl,
              record {
                is_new = h;
                columns_are = refl;
                pk_is = refl;
                next_pk = refl;
                all_rows = refl;
              },
            );
          }

    upsert_old :
        (x : ℕ × Dim K F)
        → HasUniqueKeys t.rows
        → find_dim scope key t.rows ≡ some x
        → (let r = upsert scope key account values t in
            Upserted scope key account values t r.0.0 r.0.1 r.1)
    unfolding upsert
    upsert_old x u h =
        let row : Dim K F = record {
          scope = scope;
          key = key;
          account_id = account;
          columns = set_all values x.1.columns;
        } in
        rw (h, upsert)
          record {
            row = row;
            found =
                find_dim-insert scope key t.rows x row u h
                  (ground (arith, beq_refl scope, beq_refl key));
            row_scope = refl;
            row_key = refl;
            row_account = refl;
            how = inr (
              refl,
              record {
                old = x.1;
                old_is = h;
                columns_are = λ name. lookup-set_all name values x.1.columns;
                same_next_id = refl;
                all_rows = λ id. lookup-insert id x.0 row t.rows;
                size =
                    length-insert x.0 row t.rows
                    ∙ ap (λ b. if b then length t.rows else length t.rows + 1)
                        (find_dim_is_row scope key t.rows x h);
              },
            );
          }

  -- An upsert leaves one row that is found by the natural key, under the primary key that it returns. If no
  -- row had that key, it says that it created one: the row has the given values for columns, takes the
  -- next primary key, and stands behind the rows that were there. Otherwise it says that it created
  -- none: each column that is given has its last given value, each other column its old one, and
  -- every row with another primary key is as before. The condition is that primary keys are unique.
  pub upsert-Upserted :
      (scope : ℕ) (key : K) (account : ℕ) (values : Columns F) (t : Table (Dim K F))
      → HasUniqueKeys t.rows
      → (let r = upsert scope key account values t in
          Upserted scope key account values t r.0.0 r.0.1 r.1)
  upsert-Upserted scope key account values t u = elim (Option-cases (find_dim scope key t.rows)) [
    | inl h ↦ upsert_new scope key account values t h
    | inr (x, h) ↦ upsert_old scope key account values t x u h
  ]
