-- ===== src/Sync/Dimension.antt =====
-- app/repositories/base.py `upsert`, and the dimension repositories: campaigns and budgets (scope: the
-- account), ad groups (scope: the campaign), keywords, ads and search terms (scope: the ad group).
pub mod Laws
use google_ads_intelligence.Base.{
  ℕ, Bool, true, false, ◌&&◌, Option, none, some, List, [], ◌∷◌, ◌==◌, if◌then◌else◌,
}
use google_ads_intelligence.Base.Eq.{Eq, ◌=?◌, list_eq, nat_eq, option_eq}
use google_ads_intelligence.Base.Dict.{Dict, Table, add_row, set_row, insert}
use google_ads_intelligence.Base.Text.{Text, codes}
use google_ads_intelligence.Sync.Window.{Columns, without}

-- A row: the natural key is the scope with the key; the other columns follow.
pub record Dim (K : Type 0) (F : Type 0) : Type 0 where
  pub scope : ℕ
  pub key : K
  pub account_id : ℕ
  pub columns : Columns F

-- `setattr` for each item.
abbrev pub set_all : {F : Type 0} → Columns F → Columns F → Columns F
set_all [] old = old
set_all ((k, v) ∷ values) old = set_all values (insert k v old)

module _ {K : Type 0} {F : Type 0} ⦃e : Eq K⦄ where
  abbrev pub has_key : ℕ → K → Dim K F → Bool
  has_key scope key x = (x.scope == scope) && (x.key =? key)

  -- BaseRepository.get_by on the natural key.
  abbrev pub find_dim : ℕ → K → Dict ℕ (Dim K F) → Option (ℕ × Dim K F)
  find_dim scope key [] = none
  find_dim scope key (x ∷ d) =
      let rest = find_dim scope key d in if has_key scope key x.1 then some x else rest

  -- BaseRepository.upsert: the row's primary key, whether it was created, and the table.
  unfoldable pub upsert : ℕ → K → ℕ → Columns F → Table (Dim K F) → (ℕ × Bool) × Table (Dim K F)
  upsert scope key account values t = elim (find_dim scope key t.rows) [
    | none ↦ (
      (t.next_id, true),
      add_row (record { scope = scope; key = key; account_id = account; columns = values }) t,
    )
    | some x ↦ (
      (x.0, false),
      set_row x.0
          (record {
            scope = scope;
            key = key;
            account_id = account;
            columns = set_all values x.1.columns;
          })
          t,
    )
  ]

  -- google_id_to_pk: {google id: primary key} of the account's rows.
  abbrev pub pk_map : ℕ → Dict ℕ (Dim K F) → Dict K ℕ → Dict K ℕ
  pk_map account [] acc = acc
  pk_map account (x ∷ d) acc =
      pk_map account d (if x.1.account_id == account then insert x.1.key x.0 acc else acc)

  -- natural_key_to_pk, looked up at (scope, key): the last of the account's rows with that key.
  abbrev pub natural_pk : ℕ → ℕ → K → Dict ℕ (Dim K F) → Option ℕ
  natural_pk account scope key [] = none
  natural_pk account scope key (x ∷ d) =
      let found = natural_pk account scope key d in
      elim found [
        | some pk ↦ some pk
        | none ↦ if (x.1.account_id == account) && has_key scope key x.1 then some x.0 else none
      ]

module _ {F : Type 0} where
  -- upsert_campaign
  abbrev pub upsert_campaign : ℕ → ℕ → Columns F → Table (Dim ℕ F) → (ℕ × Bool) × Table (Dim ℕ F)
  upsert_campaign account id row t =
      upsert account id account (without (codes "campaign_id" ∷ []) row) t

  -- upsert_budget
  abbrev pub upsert_budget : ℕ → ℕ → Columns F → Table (Dim ℕ F) → (ℕ × Bool) × Table (Dim ℕ F)
  upsert_budget account id row t =
      upsert account id account (without (codes "budget_id" ∷ []) row) t

  -- upsert_ad_group
  abbrev pub upsert_ad_group :
      ℕ → ℕ → ℕ → Columns F → Table (Dim ℕ F) → (ℕ × Bool) × Table (Dim ℕ F)
  upsert_ad_group account campaign id row t =
      upsert campaign id account (without (codes "ad_group_id" ∷ codes "campaign_id" ∷ []) row) t

  -- upsert_keyword
  abbrev pub upsert_keyword : ℕ → ℕ → ℕ → Columns F → Table (Dim ℕ F) → (ℕ × Bool) × Table (Dim ℕ F)
  upsert_keyword account ad_group id row t =
      upsert ad_group id account
        (without (codes "criterion_id" ∷ codes "ad_group_id" ∷ codes "campaign_id" ∷ []) row) t

  -- upsert_ad
  abbrev pub upsert_ad : ℕ → ℕ → ℕ → Columns F → Table (Dim ℕ F) → (ℕ × Bool) × Table (Dim ℕ F)
  upsert_ad account ad_group id row t =
      upsert ad_group id account
        (without (codes "ad_id" ∷ codes "ad_group_id" ∷ codes "campaign_id" ∷ []) row) t
