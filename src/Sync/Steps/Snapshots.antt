-- ===== src/Sync/Steps/Snapshots.antt =====
-- app/services/sync_service.py: the snapshot steps. Each maps the rows of its report to snapshot rows,
-- counts the rows that it cannot place, and replaces the window of its table.
use google_ads_intelligence.Base.{ℕ, Option, none, some, List, [], ◌∷◌, ◌++◌, ◌+◌, length}
use google_ads_intelligence.Base.Eq.{list_eq, nat_eq}
use google_ads_intelligence.Base.Dict.{Dict, Table}
use google_ads_intelligence.Base.Text.{Text, codes}
use google_ads_intelligence.Sync.Log.{Account, World, Details}
use google_ads_intelligence.Sync.Engine.{StepResult, Step}
use google_ads_intelligence.Sync.Window.{
  Value, Columns, item, int_of, pick, Snapshot, replace_window,
}
use google_ads_intelligence.Sync.Dimension.{pk_map, natural_pk, Dim}
use google_ads_intelligence.Sync.Steps.{
  Tables, Report, Reports, get_pk, truthy, with_report, set_tables,
}

-- _METRIC_KEYS
abbrev pub metric_keys : List Text
metric_keys =
    codes "impressions"
    ∷ codes "clicks"
    ∷ codes "interactions"
    ∷ codes "cost_micros"
    ∷ codes "ctr"
    ∷ codes "average_cpc_micros"
    ∷ codes "average_cpm_micros"
    ∷ codes "conversions"
    ∷ codes "conversions_value"
    ∷ codes "all_conversions"
    ∷ codes "video_views"
    ∷ []

module _ {F : Type 0} where
  -- _metrics
  abbrev pub metrics : Columns F → Columns F
  metrics row = pick metric_keys row

  -- The mapping of a row that has a date: its foreign keys, the named columns and the metrics.
  abbrev pub snapshot : ℕ → ℕ → Columns F → Columns F → Option (Snapshot F)
  snapshot account log_id row columns = elim (int_of (item (codes "snapshot_date") row)) [
    | none ↦ none
    | some day ↦ some (record {
      account_id = account;
      sync_log_id = log_id;
      snapshot_date = day;
      columns = columns;
    })
  ]

  -- The loop of a snapshot step: the mappings and the number of failed rows.
  unfoldable pub map_snapshots :
      (Columns F → Option (Snapshot F)) → List (Columns F) → List (Snapshot F) × ℕ
  map_snapshots place [] = ([], 0)
  map_snapshots place (row ∷ rows) =
      let (mappings, failed) = map_snapshots place rows in
      elim (place row) [ none ↦ (mappings, failed + 1) | some x ↦ (x ∷ mappings, failed) ]

  -- A campaign row with the columns of its table.
  abbrev pub place_campaign : List Text → Dict ℕ ℕ → ℕ → ℕ → Columns F → Option (Snapshot F)
  place_campaign names cmap account log_id row =
      elim (get_pk cmap (item (codes "campaign_id") row)) [
        | none ↦ none
        | some pk ↦
            snapshot account log_id row
              ((codes "campaign_id", Value.int pk) ∷ (pick names row ++ metrics row))
      ]

  abbrev pub place_ad_group : Dict ℕ ℕ → Dict ℕ ℕ → ℕ → ℕ → Columns F → Option (Snapshot F)
  place_ad_group cmap agmap account log_id row =
      elim (truthy (get_pk agmap (item (codes "ad_group_id") row))) [
        | none ↦ none
        | some ag ↦ elim (truthy (get_pk cmap (item (codes "campaign_id") row))) [
          | none ↦ none
          | some c ↦ snapshot account log_id row (
              (codes "ad_group_id", Value.int ag)
              ∷ (codes "campaign_id", Value.int c)
              ∷ (pick (codes "status" ∷ codes "cpc_bid_micros" ∷ []) row ++ metrics row))
        ]
      ]

  -- A row below an ad group, found by its natural key; `child` and `own` name the key's columns.
  abbrev pub place_below :
      Text
      → Text
      → List Text
      → Table (Dim ℕ F)
      → Dict ℕ ℕ
      → Dict ℕ ℕ
      → ℕ
      → ℕ
      → Columns F
      → Option (Snapshot F)
  place_below child own names children cmap agmap account log_id row =
      elim (truthy (get_pk agmap (item (codes "ad_group_id") row))) [
        | none ↦ none
        | some ag ↦ elim (truthy (get_pk cmap (item (codes "campaign_id") row))) [
          | none ↦ none
          | some c ↦ elim (int_of (item own row)) [
            | none ↦ none
            | some id ↦ elim (truthy (natural_pk account ag id children.rows)) [
              | none ↦ none
              | some k ↦ snapshot account log_id row (
                  (child, Value.int k)
                  ∷ (codes "ad_group_id", Value.int ag)
                  ∷ (codes "campaign_id", Value.int c)
                  ∷ (pick names row ++ metrics row))
            ]
          ]
        ]
      ]

  abbrev pub place_budget : Dict ℕ ℕ → ℕ → ℕ → Columns F → Option (Snapshot F)
  place_budget bmap account log_id row = elim (get_pk bmap (item (codes "budget_id") row)) [
    | none ↦ none
    | some pk ↦ snapshot account log_id row (
        (codes "budget_id", Value.int pk)
        ∷ pick
            (codes "amount_micros"
              ∷ codes "spend_micros"
              ∷ codes "utilization"
              ∷ codes "delivery_method"
              ∷ [])
            row)
  ]

  -- Fetch, map, replace the window, and report what was inserted.
  unfoldable pub snapshot_step :
      Report F
      → (World (Tables F) → Columns F → Option (Snapshot F))
      → (Tables F → Table (Snapshot F))
      → (Table (Snapshot F) → Tables F → Tables F)
      → ℕ
      → ℕ
      → ℕ
      → World (Tables F)
      → StepResult × World (Tables F)
  snapshot_step report place get put account start end w =
      with_report report
        (λ rows w.
          let (mappings, failed) = map_snapshots (place w) rows in
          let (inserted, t) = replace_window mappings account start end (get w.tables) in
          (
            StepResult.returned inserted 0 failed (some (Details.fetched (length rows))),
            set_tables (put t w.tables) w,
          ))
        w

  module _ (reports : Reports F) (pk : ℕ) (account : Account) (start end : ℕ) where
    -- _step_campaign_snaps
    unfoldable pub step_campaign_snaps : Step (Tables F)
    step_campaign_snaps log_id =
        snapshot_step (reports.fetch_campaign_metrics account.customer_id start end)
          (λ w.
            place_campaign
              (codes "status"
                ∷ codes "budget_micros"
                ∷ codes "bidding_strategy_type"
                ∷ codes "optimization_score"
                ∷ [])
              (pk_map pk w.tables.campaigns.rows []) pk log_id)
          (λ t. t.campaign_snaps) (λ x t. record t { campaign_snaps = x }) pk start end

    -- _step_campaign_device_snaps
    unfoldable pub step_campaign_device_snaps : Step (Tables F)
    step_campaign_device_snaps log_id =
        snapshot_step (reports.fetch_campaign_device_metrics account.customer_id start end)
          (λ w.
            place_campaign (codes "device" ∷ []) (pk_map pk w.tables.campaigns.rows []) pk log_id)
          (λ t. t.campaign_device_snaps) (λ x t. record t { campaign_device_snaps = x }) pk start
          end

    -- _step_campaign_geo_snaps
    unfoldable pub step_campaign_geo_snaps : Step (Tables F)
    step_campaign_geo_snaps log_id =
        snapshot_step (reports.fetch_campaign_geo_metrics account.customer_id start end)
          (λ w.
            place_campaign (codes "country_criterion_id" ∷ codes "location_name" ∷ [])
              (pk_map pk w.tables.campaigns.rows []) pk log_id)
          (λ t. t.campaign_geo_snaps) (λ x t. record t { campaign_geo_snaps = x }) pk start end

    -- _step_ad_group_snaps
    unfoldable pub step_ad_group_snaps : Step (Tables F)
    step_ad_group_snaps log_id =
        snapshot_step (reports.fetch_ad_group_metrics account.customer_id start end)
          (λ w.
            place_ad_group (pk_map pk w.tables.campaigns.rows [])
              (pk_map pk w.tables.ad_groups.rows []) pk log_id)
          (λ t. t.ad_group_snaps) (λ x t. record t { ad_group_snaps = x }) pk start end

    -- _step_keyword_snaps
    unfoldable pub step_keyword_snaps : Step (Tables F)
    step_keyword_snaps log_id =
        snapshot_step (reports.fetch_keyword_metrics account.customer_id start end)
          (λ w.
            place_below (codes "keyword_id") (codes "criterion_id")
              (codes "match_type"
                ∷ codes "status"
                ∷ codes "quality_score"
                ∷ codes "expected_ctr"
                ∷ codes "landing_page_experience"
                ∷ codes "ad_relevance"
                ∷ [])
              w.tables.keywords (pk_map pk w.tables.campaigns.rows [])
              (pk_map pk w.tables.ad_groups.rows []) pk log_id)
          (λ t. t.keyword_snaps) (λ x t. record t { keyword_snaps = x }) pk start end

    -- _step_ad_snaps
    unfoldable pub step_ad_snaps : Step (Tables F)
    step_ad_snaps log_id =
        snapshot_step (reports.fetch_ad_metrics account.customer_id start end)
          (λ w.
            place_below (codes "ad_id") (codes "ad_id")
              (codes "status" ∷ codes "approval_status" ∷ []) w.tables.ads
              (pk_map pk w.tables.campaigns.rows []) (pk_map pk w.tables.ad_groups.rows []) pk
              log_id)
          (λ t. t.ad_snaps) (λ x t. record t { ad_snaps = x }) pk start end

    -- _step_budget_snaps
    unfoldable pub step_budget_snaps : Step (Tables F)
    step_budget_snaps log_id =
        snapshot_step (reports.fetch_budget_metrics account.customer_id start end)
          (λ w. place_budget (pk_map pk w.tables.budgets.rows []) pk log_id) (λ t. t.budget_snaps)
          (λ x t. record t { budget_snaps = x }) pk start end
