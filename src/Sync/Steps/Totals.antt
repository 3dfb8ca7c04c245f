-- ===== src/Sync/Steps/Totals.antt =====
-- What a snapshot step reports and leaves, against the rows that it fetched.
use google_ads_intelligence.Base.{
  ℕ, ◌+◌, ◌≡◌, refl, sym, ap, ◌∙◌, Option, none, some, is_some, List, [], ◌∷◌, ◌++◌, arith, length,
  keep, not, inr, map, Option-cases, inl,
}
use google_ads_intelligence.Base.Dict.{Table}
use google_ads_intelligence.Sync.Log.{World, Details}
use google_ads_intelligence.Sync.Engine.{StepResult}
use google_ads_intelligence.Sync.Window.{Columns, Snapshot, replace_window, in_window}
use google_ads_intelligence.Sync.Window.Laws.{contents, contents-replace_window}
use google_ads_intelligence.Sync.Steps.{Tables, Report}
use google_ads_intelligence.Sync.Steps.Snapshots.{map_snapshots, snapshot_step}

-- The values that are there.
abbrev pub somes : {A : Type 0} → List (Option A) → List A
somes [] = []
somes (none ∷ xs) = somes xs
somes (some x ∷ xs) = x ∷ somes xs

-- The number of rows that have no place.
abbrev pub unplaced : {A B : Type 0} → (A → Option B) → List A → ℕ
unplaced place rows = length (keep (λ row. not (is_some (place row))) rows)

pub somes-unplaced :
    {A B : Type 0} (place : A → Option B) (rows : List A)
    → length (somes (map place rows)) + unplaced place rows ≡ length rows
somes-unplaced place [] = refl
somes-unplaced place (row ∷ rows) = elim (Option-cases (place row)) [
  | inl e ↦ rw e (omega (arith, somes-unplaced place rows))
  | inr (x, e) ↦ rw e (omega (arith, somes-unplaced place rows))
]

module _ {F : Type 0} (place : Columns F → Option (Snapshot F)) where
  map_snapshots_lem :
      (rows : List (Columns F))
      → (let m = map_snapshots place rows in
          (m.0 ≡ somes (map place rows)) × (m.1 ≡ unplaced place rows))
  unfolding map_snapshots
  map_snapshots_lem [] = (refl, refl)
  map_snapshots_lem (row ∷ rows) =
      let rest = map_snapshots_lem rows in
      elim (Option-cases (place row)) [
        | inl e ↦ rw (map_snapshots, e) (rest.0, omega (arith, rest.1))
        | inr (x, e) ↦ rw (map_snapshots, e) (ap (λ l. x ∷ l) rest.0, rest.1)
      ]

-- A snapshot step whose fetcher gives rows returns as inserted the number of rows that have a place, as
-- failed the number that have none, and nothing as updated; the two add up to the rows fetched. In its
-- table it replaces the account's rows in the window by the snapshots of the rows that have a place,
-- in order, and it leaves everything else in the world as it was. The conditions are that the fetcher gives rows and that the table is read back as it
-- was written.
pub snapshot_step-Refreshed :
    {F : Type 0} (report : Report F) (place : World (Tables F) → Columns F → Option (Snapshot F))
    (get : Tables F → Table (Snapshot F)) (put : Table (Snapshot F) → Tables F → Tables F)
    (account start end : ℕ) (w : World (Tables F)) (rows : List (Columns F))
    → report ≡ inr rows
    → ((x : Table (Snapshot F)) (t : Tables F) → get (put x t) ≡ x)
    → (let r = snapshot_step report place get put account start end w in
        let placed = somes (map (place w) rows) in
        let failed = unplaced (place w) rows in
        (r.0 ≡ StepResult.returned (length placed) 0 failed (some (Details.fetched (length rows))))
        × ((length placed + failed ≡ length rows)
            × ((contents (get r.1.tables).rows
                  ≡ keep (λ x. not (in_window account start end x)) (contents (get w.tables).rows)
                    ++ placed)
                × (r.1 ≡ record w { tables = put (get r.1.tables) w.tables }))))
unfolding snapshot_step
snapshot_step-Refreshed report place get put account start end w rows h get-put =
    let mapped = map_snapshots_lem (place w) rows in
    let x =
      contents-replace_window (map_snapshots (place w) rows).0 account start end (get w.tables) in
    rw h (
      ap
            (λ n.
              StepResult.returned n 0 (map_snapshots (place w) rows).1
                (some (Details.fetched (length rows))))
            (x.0 ∙ ap length mapped.0)
          ∙ ap
              (λ n.
                StepResult.returned (length (somes (map (place w) rows))) 0 n
                  (some (Details.fetched (length rows))))
              mapped.1,
      (
        somes-unplaced (place w) rows,
        (
          ap (λ t. contents t.rows)
                (get-put
                  (replace_window (map_snapshots (place w) rows).0 account start end
                    (get w.tables)).1
                  w.tables)
              ∙ (x.1
                  ∙ ap
                      (λ l.
                        keep (λ x. not (in_window account start end x))
                          (contents (get w.tables).rows)
                        ++ l)
                      mapped.0),
          ap (λ t. record w { tables = put t w.tables }) (sym (get-put _ w.tables)),
        ),
      ),
    )
