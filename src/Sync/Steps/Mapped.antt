-- ===== src/Sync/Steps/Mapped.antt =====
-- The loop over the search terms: its counts against the growth of its table, and what it maps.
use google_ads_intelligence.Base.{
  ℕ, ◌+◌, ◌≡◌, true, is_some, take, Option, none, some, List, [], ◌∷◌, length, drop, map,
}
use google_ads_intelligence.Base.Eq.{Eq, nat_eq, list_eq, pair_eq, option_eq}
use google_ads_intelligence.Base.Dict.{Dict, Table, lookup}
use google_ads_intelligence.Base.Text.{Text, codes}
use google_ads_intelligence.Sync.Window.{Value, Columns, Snapshot}
use google_ads_intelligence.Sync.Dimension.{Dim}
use google_ads_intelligence.Sync.Steps.Totals.{somes, unplaced}
use google_ads_intelligence.Sync.Steps.Snapshots.{metrics}
use google_ads_intelligence.Sync.Steps.Terms.{place_term, term_rows}

-- A snapshot but for its first column, the primary key of the search term.
abbrev pub Told : Type 0 → Type 0
Told F = (ℕ × ℕ) × (ℕ × Columns F)

abbrev pub told : {F : Type 0} → Snapshot F → Told F
told m = ((m.account_id, m.sync_log_id), (m.snapshot_date, drop 1 m.columns))

abbrev pub told_row : {F : Type 0} → (account log_id ag cp day : ℕ) → Columns F → Told F
told_row account log_id ag cp day row = (
  (account, log_id),
  (day, (codes "campaign_id", Value.int cp) ∷ (codes "ad_group_id", Value.int ag) ∷ metrics row),
)

-- What a row of the report says of its snapshot, where it has a place.
abbrev pub tells :
    {F : Type 0} → (cmap agmap : Dict ℕ ℕ) (account log_id : ℕ) → Columns F → Option (Told F)
tells cmap agmap account log_id row = elim (place_term cmap agmap row) [
  | none ↦ none
  | some (ag, (cp, day)) ↦ some (told_row account log_id ag cp day row)
]

-- A snapshot whose search term, its first column, is a row of the table.
abbrev pub HasTerm : {F : Type 0} → Table (Dim (Text × Option Text) F) → Snapshot F → Type 0
HasTerm t m =
    (id : ℕ) × ((take 1 m.columns ≡ (codes "search_term_id", Value.int id) ∷ [])
      × (is_some (lookup id t.rows) ≡ true))

module _ {F : Type 0} (cmap agmap : Dict ℕ ℕ) (account log_id : ℕ) where
  abbrev Tells : List (Columns F) → Table (Dim (Text × Option Text) F) → Type 0
  Tells rows t =
      let r = term_rows cmap agmap account log_id rows t in
      let c = r.0.0 in
      (length r.1.rows ≡ length t.rows + c.ins)
      × ((c.bad ≡ unplaced (place_term cmap agmap) rows)
          × ((c.ins + c.upd + c.bad ≡ length rows)
              × (map told r.0.1 ≡ somes (map (tells cmap agmap account log_id) rows))))
