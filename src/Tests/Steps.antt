-- ===== src/Tests/Steps.antt =====
-- The steps of the sync service and a backfill at concrete tables.
use google_ads_intelligence.Base.{
  ℕ, ◌+◌, ◌≡◌, refl, true, not, Option, arith, none, some, List, [], ◌∷◌, ◌++◌, length, keep, inl,
  inr, map,
}
use google_ads_intelligence.Base.{false}
use google_ads_intelligence.Sync.Log.{Account}
use google_ads_intelligence.Sync.Steps.{Reports}
use google_ads_intelligence.Sync.Service.{SyncSettings, backfill, default_date_range}
use google_ads_intelligence.Sync.Service.Plan.{
  dimensions, backfill-dimensions, default_date_range_days,
}
use google_ads_intelligence.Base.Eq.{nat_eq, list_eq, option_eq, pair_eq}
use google_ads_intelligence.Base.Dict.{Table}
use google_ads_intelligence.Base.Text.{Text, codes}
use google_ads_intelligence.Sync.Log.{Details, Entity, World, Db, Session}
use google_ads_intelligence.Sync.Engine.{StepResult}
use google_ads_intelligence.Sync.Window.{Columns, Value, Snapshot, in_window}
use google_ads_intelligence.Sync.Window.Laws.{contents}
use google_ads_intelligence.Sync.Steps.{
  Tables, Report, step_ad_groups_dim, step_keywords_dim, step_ads_dim,
}
use google_ads_intelligence.Sync.Steps.Snapshots.{snapshot_step, place_budget}
use google_ads_intelligence.Sync.Steps.Totals.{somes, unplaced, snapshot_step-Refreshed}
use google_ads_intelligence.Sync.Steps.Growth.{AccountsFor, steps_below-Accounted}
use google_ads_intelligence.Tests.Sync.{ticks, snaps, dims}

abbrev row_of : ℕ → ℕ → Columns ℕ
row_of budget day =
    (codes "budget_id", Value.int budget) ∷ (codes "snapshot_date", Value.int day) ∷ []

-- The second row's budget is unknown.
abbrev fetched : List (Columns ℕ)
fetched = row_of 500 11 ∷ row_of 999 11 ∷ []

abbrev no_rows : {A : Type 0} → Table A
no_rows = record { next_id = 1; rows = [] }

abbrev tables : Tables ℕ
tables = record {
  campaigns = dims;
  budgets = dims;
  ad_groups = dims;
  keywords = no_rows;
  ads = no_rows;
  search_terms = no_rows;
  campaign_snaps = no_rows;
  campaign_device_snaps = no_rows;
  campaign_geo_snaps = no_rows;
  ad_group_snaps = no_rows;
  keyword_snaps = no_rows;
  ad_snaps = no_rows;
  budget_snaps = snaps;
  search_term_snaps = no_rows;
  recommendations = no_rows;
}

abbrev world : World (Tables ℕ)
world = record { account_rows = no_rows; tables = tables }

abbrev place : World (Tables ℕ) → Columns ℕ → Option (Snapshot ℕ)
place w = place_budget ((500, 1) ∷ []) 7 2

abbrev put_snaps : Table (Snapshot ℕ) → Tables ℕ → Tables ℕ
put_snaps x t = record t { budget_snaps = x }

snapshot_step-Refreshed_example :
    let r = snapshot_step (inr fetched) place (λ t. t.budget_snaps) put_snaps 7 10 12 world in
    let placed = somes (map (place world) fetched) in
    let failed = unplaced (place world) fetched in
    (r.0 ≡ StepResult.returned (length placed) 0 failed (some (Details.fetched (length fetched))))
    × ((length placed + failed ≡ length fetched)
        × ((contents r.1.tables.budget_snaps.rows
              ≡ keep (λ x. not (in_window 7 10 12 x)) (contents snaps.rows) ++ placed)
            × (r.1 ≡ record world { tables = put_snaps r.1.tables.budget_snaps tables })))
snapshot_step-Refreshed_example =
    snapshot_step-Refreshed (inr fetched) place (λ t. t.budget_snaps) put_snaps 7 10 12 world
      fetched refl (λ x t. refl)

-- One row was placed, and one was not.
snapshot_counts :
    (length (somes (map (place world) fetched)) ≡ 1) × (unplaced (place world) fetched ≡ 1)
snapshot_counts = (refl, refl)

abbrev term_row : Columns ℕ
term_row =
    (codes "campaign_id", Value.int 1)
    ∷ (codes "ad_group_id", Value.int 2)
    ∷ (codes "snapshot_date", Value.int 11)
    ∷ (codes "query", Value.str (codes "shoes"))
    ∷ []

-- The second row has no ad group, the third is of the first one's term.
abbrev term_report : List (Columns ℕ)
term_report = term_row ∷ [] ∷ term_row ∷ []

abbrev empty_reports : Reports ℕ
empty_reports = record {
  fetch_accounts = λ manager. inr [];
  fetch_budgets = λ id. inr [];
  fetch_campaigns = λ id. inr [];
  fetch_ad_groups = λ id. inr [];
  fetch_keywords = λ id. inr [];
  fetch_ads = λ id. inr [];
  fetch_campaign_metrics = λ id start end. inr [];
  fetch_campaign_device_metrics = λ id start end. inr [];
  fetch_campaign_geo_metrics = λ id start end. inr [];
  fetch_ad_group_metrics = λ id start end. inr [];
  fetch_keyword_metrics = λ id start end. inr [];
  fetch_ad_metrics = λ id start end. inr [];
  fetch_budget_metrics = λ id start end. inr [];
  fetch_search_terms = λ id start end. inr [];
  fetch_recommendations = λ id. inr [];
}

abbrev target : Account
target = record { customer_id = codes "77"; is_manager = false; is_syncable = true }

-- The second keyword belongs to no ad group of the account.
abbrev some_reports : Reports ℕ
some_reports = record empty_reports {
  fetch_ad_groups = λ id.
      inr (((codes "ad_group_id", Value.int 60) ∷ (codes "campaign_id", Value.int 500) ∷ []) ∷ []);
  fetch_keywords = λ id. inr (
      ((codes "criterion_id", Value.int 80) ∷ (codes "ad_group_id", Value.int 501) ∷ [])
      ∷ ((codes "criterion_id", Value.int 81) ∷ (codes "ad_group_id", Value.int 999) ∷ [])
      ∷ []);
}

abbrev rows_of : Report ℕ → List (Columns ℕ)
rows_of (inl message) = []
rows_of (inr rows) = rows

steps_below-Accounted_example :
    AccountsFor some_reports 7 target 2 world
      (codes "campaign_id")
      dims
      (rows_of (some_reports.fetch_ad_groups target.customer_id))
      (λ t. t.ad_groups)
      (λ x. record tables { ad_groups = x })
      (step_ad_groups_dim some_reports (7, target) 2 world)
    × (AccountsFor some_reports 7 target 2 world
          (codes "ad_group_id")
          dims
          (rows_of (some_reports.fetch_keywords target.customer_id))
          (λ t. t.keywords)
          (λ x. record tables { keywords = x })
          (step_keywords_dim some_reports (7, target) 2 world)
        × AccountsFor some_reports 7 target 2 world
            (codes "ad_group_id")
            dims
            []
            (λ t. t.ads)
            (λ x. record tables { ads = x })
            (step_ads_dim some_reports (7, target) 2 world))
steps_below-Accounted_example =
    steps_below-Accounted some_reports 7 target 2 world
      (rows_of (some_reports.fetch_ad_groups target.customer_id))
      (rows_of (some_reports.fetch_keywords target.customer_id)) [] refl refl refl

-- The tables of a run, with no log yet.
abbrev mirror : Db (Tables ℕ)
mirror = record { logs = no_rows; world = world }

abbrev mirrored : Session (Tables ℕ)
mirrored = record { committed = mirror; working = mirror; tick = 0 }

abbrev settings : SyncSettings
settings = record {
  google_ads_login_customer_id = none;
  client_customer_id_list = [];
  sync_default_lookback_days = 30;
}

backfill-dimensions_example :
    dimensions
      (backfill ticks some_reports settings 100 70 99
        (codes "77" ∷ [])
        Entity.all
        mirrored).1.working.world.tables
    ≡ (dims, (dims, (dims, (no_rows, no_rows))))
backfill-dimensions_example =
    backfill-dimensions ticks some_reports settings 100 70 99 (codes "77" ∷ []) Entity.all mirrored
      tt

default_date_range_days_example :
    ((default_date_range 100 30).1 + 1 ≡ 100)
    × ((default_date_range 100 30).1 + 1 ≡ (default_date_range 100 30).0 + 30)
default_date_range_days_example = default_date_range_days 100 30 (omega arith) (omega arith)
