-- ===== src/Sync/Window.antt =====
-- app/repositories/base.py: `bulk_insert` and `replace_window` on a snapshot table. A report row is
-- the dict that a fetcher of app/google_ads/reports builds; dates are day numbers.
pub mod Laws
use google_ads_intelligence.Base.{
  ℕ, ◌+◌, Bool, not, ◌&&◌, Option, none, some, List, [], ◌∷◌, map, length, keep, ◌==◌, leb,
}
use google_ads_intelligence.Base.Eq.{list_eq, nat_eq, mem}
use google_ads_intelligence.Base.Dict.{Dict, Table, add_row, lookup}
use google_ads_intelligence.Base.Text.{Text}

-- What a column or an item of a report row holds; `F` are the floats.
pub data Value (F : Type 0) : Type 0 where
  null : Value F
  int : ℕ → Value F
  real : F → Value F
  str : Text → Value F
  flag : Bool → Value F

-- A report row, or the columns of a database row.
abbrev pub Columns : Type 0 → Type 0
Columns F = Dict Text (Value F)

module _ {F : Type 0} where
  -- `row[name]` and `row.get(name)`: the fetchers write every key that the steps read.
  abbrev pub item : Text → Columns F → Value F
  item name row = elim (lookup name row) [ none ↦ Value.null | some v ↦ v ]

  -- An id or a date.
  abbrev pub int_of : Value F → Option ℕ
  int_of (int n) = some n
  int_of _ = none

  -- `{name: row[name], ...}`
  abbrev pub pick : List Text → Columns F → Columns F
  pick names row = map (λ name. (name, item name row)) names

  -- `{k: v for k, v in data.items() if k not in names}`
  abbrev pub without : List Text → Columns F → Columns F
  without names row = keep (λ x. not (mem x.0 names)) row

-- A row of a snapshot table: the columns that the window reads, and the others.
pub record Snapshot (F : Type 0) : Type 0 where
  pub account_id : ℕ
  pub sync_log_id : ℕ
  pub snapshot_date : ℕ
  pub columns : Columns F

module _ {F : Type 0} where
  -- The condition of the DELETE.
  abbrev pub in_window : ℕ → ℕ → ℕ → Snapshot F → Bool
  in_window account start end x =
      (x.account_id == account) && (leb start x.snapshot_date && leb x.snapshot_date end)

  unfoldable pub insert_all : List (Snapshot F) → Table (Snapshot F) → Table (Snapshot F)
  insert_all [] t = t
  insert_all (x ∷ xs) t = insert_all xs (add_row x t)

  -- BaseRepository.bulk_insert
  unfoldable pub bulk_insert : List (Snapshot F) → Table (Snapshot F) → ℕ × Table (Snapshot F)
  bulk_insert [] t = (0, t)
  bulk_insert (x ∷ xs) t = (length (x ∷ xs), insert_all (x ∷ xs) t)

  unfoldable pub delete_window : ℕ → ℕ → ℕ → Table (Snapshot F) → Table (Snapshot F)
  delete_window account start end t = record t {
    rows = keep (λ x. not (in_window account start end x.1)) t.rows;
  }

  -- BaseRepository.replace_window
  unfoldable pub replace_window :
      List (Snapshot F) → ℕ → ℕ → ℕ → Table (Snapshot F) → ℕ × Table (Snapshot F)
  replace_window mappings account start end t =
      bulk_insert mappings (delete_window account start end t)
