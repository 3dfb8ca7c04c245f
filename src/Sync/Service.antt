-- ===== src/Sync/Service.antt =====
-- app/services/sync_service.py: the plan of the steps, the target accounts, and the entry points `run`
-- and `backfill`; app/google_ads/reports/_helpers.py `default_date_range`.
pub mod Plan
use google_ads_intelligence.Base.{
  ℕ, suc, ◌-◌, Bool, true, false, not, ◌&&◌, ◌||◌, Option, none, some, List, [], ◌∷◌, ◌++◌, map,
  keep, if◌then◌else◌,
}
use google_ads_intelligence.Base.Int.{ℤ, sub_ℕ}
use google_ads_intelligence.Base.Eq.{list_eq, nat_eq}
use google_ads_intelligence.Base.Dict.{Dict}
use google_ads_intelligence.Base.Text.{Text, strip, remove_code, codes, or_text}
use google_ads_intelligence.Sync.Log.{
  SyncType, SyncStatus, Entity, all, accounts, budgets, campaigns, ad_groups, keywords, ads,
  search_terms, recommendations, Account, Session, commit, set_world,
}
use google_ads_intelligence.Sync.Engine.{
  Aggregate, ErrorLine, fresh_aggregate, Step, read_clock, Job, run_jobs,
}
use google_ads_intelligence.Sync.Steps.{
  Tables, Reports, step_budgets_dim, step_campaigns_dim, step_ad_groups_dim, step_keywords_dim,
  step_ads_dim,
}
use google_ads_intelligence.Sync.Steps.Snapshots.{
  step_campaign_snaps, step_campaign_device_snaps, step_campaign_geo_snaps, step_ad_group_snaps,
  step_keyword_snaps, step_ad_snaps, step_budget_snaps,
}
use google_ads_intelligence.Sync.Steps.Terms.{
  find_account, upsert_account, step_discover_accounts, step_search_terms, step_recommendations,
}

-- The settings that the service reads.
pub record SyncSettings : Type 0 where
  pub google_ads_login_customer_id : Option Text
  pub client_customer_id_list : List Text
  pub sync_default_lookback_days : ℕ

-- SyncRunResult
pub record SyncRunResult : Type 0 where
  pub status : SyncStatus
  pub entity : Entity
  pub customer_ids : List Text
  pub rows_inserted : ℕ
  pub rows_updated : ℕ
  pub rows_failed : ℕ
  pub duration_ms : ℤ
  pub log_ids : List ℕ
  pub errors : List ErrorLine

-- default_date_range, on day numbers: the days from the first to yesterday. A window that would begin
-- before day 0 begins there; the code raises OverflowError before year 1.
unfoldable pub default_date_range : ℕ → ℕ → ℕ × ℕ
default_date_range today lookback_days = let end = today - 1 in (end - (lookback_days - 1), end)

-- `lookback_days or default`
abbrev pub or_default : Option ℕ → ℕ → ℕ
or_default (some (suc n)) _ = suc n
or_default _ d = d

abbrev pub is_nonempty_list : List Text → Bool
is_nonempty_list [] = false
is_nonempty_list (_ ∷ _) = true

-- AccountRepository.list_syncable
abbrev pub list_syncable : Dict ℕ Account → List (ℕ × Account)
list_syncable d = keep (λ x. not x.1.is_manager && x.1.is_syncable) d

module _ {F : Type 0} (reports : Reports F) where
  abbrev pub one_job : Entity → Account → Step (Tables F) → List (Job (Tables F))
  one_job name account fn =
      record { entity = name; customer_id = account.customer_id; fn = fn } ∷ []

  -- The dict `dims`.
  unfoldable pub dims_for : Entity → ℕ → Account → List (Job (Tables F))
  dims_for budgets pk a = one_job Entity.budgets a (step_budgets_dim reports (pk, a))
  dims_for campaigns pk a = one_job Entity.campaigns a (step_campaigns_dim reports (pk, a))
  dims_for ad_groups pk a = one_job Entity.ad_groups a (step_ad_groups_dim reports (pk, a))
  dims_for keywords pk a = one_job Entity.keywords a (step_keywords_dim reports (pk, a))
  dims_for ads pk a = one_job Entity.ads a (step_ads_dim reports (pk, a))
  dims_for _ pk a = []

  -- The dict `snaps`.
  unfoldable pub snaps_for : ℕ → Entity → ℕ → Account → ℕ → ℕ → List (Job (Tables F))
  snaps_for today budgets pk a start end =
      one_job Entity.budget_snapshots a (step_budget_snaps reports pk a start end)
  snaps_for today campaigns pk a start end =
      one_job Entity.campaign_snapshots a (step_campaign_snaps reports pk a start end)
      ++ one_job Entity.campaign_device_snapshots a
          (step_campaign_device_snaps reports pk a start end)
      ++ one_job Entity.campaign_geo_snapshots a (step_campaign_geo_snaps reports pk a start end)
  snaps_for today ad_groups pk a start end =
      one_job Entity.ad_group_snapshots a (step_ad_group_snaps reports pk a start end)
  snaps_for today keywords pk a start end =
      one_job Entity.keyword_snapshots a (step_keyword_snaps reports pk a start end)
  snaps_for today ads pk a start end =
      one_job Entity.ad_snapshots a (step_ad_snaps reports pk a start end)
  snaps_for today search_terms pk a start end =
      one_job Entity.search_terms a (step_search_terms reports pk a start end)
  snaps_for today recommendations pk a start end =
      one_job Entity.recommendations a (step_recommendations reports pk a today)
  snaps_for today _ pk a start end = []

  -- `build` of `_steps_for`
  unfoldable pub build : ℕ → Bool → ℕ → Account → ℕ → ℕ → Entity → List (Job (Tables F))
  build today snapshots_only pk a start end name =
      (if snapshots_only then [] else dims_for name pk a) ++ snaps_for today name pk a start end

  -- SyncService._steps_for
  unfoldable pub steps_for : ℕ → Bool → ℕ → Account → ℕ → ℕ → Entity → List (Job (Tables F))
  steps_for today snapshots_only pk a start end all =
      let built : Entity → List (Job (Tables F)) = build today snapshots_only pk a start end in
      built Entity.budgets
      ++ built Entity.campaigns
      ++ built Entity.ad_groups
      ++ built Entity.keywords
      ++ built Entity.ads
      ++ built Entity.search_terms
      ++ built Entity.recommendations
  steps_for today snapshots_only pk a start end name =
      build today snapshots_only pk a start end name

  abbrev pub account_jobs : ℕ → Bool → ℕ → ℕ → Entity → List (ℕ × Account) → List (Job (Tables F))
  account_jobs today snapshots_only start end entity [] = []
  account_jobs today snapshots_only start end entity ((pk, a) ∷ targets) =
      steps_for today snapshots_only pk a start end entity
      ++ account_jobs today snapshots_only start end entity targets

-- `_resolve_target_accounts` of a list of customer ids: an unknown id makes an account, committed at
-- once.
unfoldable pub resolve_ids : {D : Type 0} → List Text → Session D → List (ℕ × Account) × Session D
resolve_ids [] s = ([], s)
resolve_ids (raw ∷ ids) s =
    let cid = strip (remove_code 45 raw) in
    elim (find_account cid s.working.world.account_rows.rows) [
      | some x ↦ let (resolved, s') = resolve_ids ids s in (x ∷ resolved, s')
      | none ↦
          let (x, rows) = upsert_account cid none s.working.world.account_rows in
          let s1 = commit (set_world (record s.working.world { account_rows = rows }) s) in
          let (resolved, s') = resolve_ids ids s1 in
          (
            (x.0, record { customer_id = cid; is_manager = false; is_syncable = true }) ∷ resolved,
            s',
          )
    ]

-- SyncService._resolve_target_accounts
unfoldable pub resolve_target_accounts :
    {D : Type 0} → SyncSettings → List Text → Session D → List (ℕ × Account) × Session D
resolve_target_accounts settings (id ∷ ids) s = resolve_ids (id ∷ ids) s
resolve_target_accounts settings [] s = elim settings.client_customer_id_list [
  | id ∷ ids ↦ resolve_ids (id ∷ ids) s
  | [] ↦ (list_syncable s.working.world.account_rows.rows, s)
]

-- SyncService._result
unfoldable pub sync_result : Aggregate → Entity → List Text → ℕ → ℕ → SyncRunResult
sync_result agg entity customer_ids started now = record {
  status = agg.status;
  entity = entity;
  customer_ids = customer_ids;
  rows_inserted = agg.inserted;
  rows_updated = agg.updated;
  rows_failed = agg.failed;
  duration_ms = sub_ℕ now started;
  log_ids = agg.log_ids;
  errors = agg.errors;
}

abbrev pub is_all_or_accounts : Entity → Bool
is_all_or_accounts all = true
is_all_or_accounts accounts = true
is_all_or_accounts _ = false

module _ {F : Type 0} (clock : ℕ → ℕ) (reports : Reports F) (settings : SyncSettings) where
  -- The first part of `run`: the discovery of accounts.
  unfoldable pub discover :
      SyncType → List Text → Entity → Session (Tables F) → Aggregate × Session (Tables F)
  discover sync_type customer_ids entity s =
      if is_all_or_accounts entity || not (is_nonempty_list customer_ids)
      then run_jobs clock sync_type
          (record {
            entity = Entity.accounts;
            customer_id = or_text settings.google_ads_login_customer_id (codes "manager");
            fn = step_discover_accounts reports settings.google_ads_login_customer_id;
          }
            ∷ [])
          fresh_aggregate s
      else (fresh_aggregate, s)

  -- The rest of `run`.
  unfoldable pub sync_targets :
      ℕ
      → SyncType
      → List Text
      → Entity
      → Option ℕ
      → ℕ
      → Aggregate
      → Session (Tables F)
      → SyncRunResult × Session (Tables F)
  sync_targets today sync_type customer_ids entity lookback_days start agg s =
      let (targets, s1) = resolve_target_accounts settings customer_ids s in
      let (win_start, win_end) =
        default_date_range today (or_default lookback_days settings.sync_default_lookback_days) in
      let (agg', s2) =
        run_jobs clock sync_type (account_jobs reports today false win_start win_end entity targets)
          agg s1 in
      let (now, s3) = read_clock clock s2 in
      (sync_result agg' entity (map (λ x. x.1.customer_id) targets) start now, s3)

  -- SyncService.run
  unfoldable pub run :
      ℕ
      → SyncType
      → List Text
      → Entity
      → Option ℕ
      → Session (Tables F)
      → SyncRunResult × Session (Tables F)
  run today sync_type customer_ids entity lookback_days s =
      let (start, s0) = read_clock clock s in
      let (agg, s1) = discover sync_type customer_ids entity s0 in
      elim entity [
        | accounts ↦
            let (now, s2) = read_clock clock s1 in
            (sync_result agg Entity.accounts customer_ids start now, s2)
        | other ↦ sync_targets today sync_type customer_ids other lookback_days start agg s1
      ]

  -- SyncService.backfill
  unfoldable pub backfill :
      ℕ → ℕ → ℕ → List Text → Entity → Session (Tables F) → SyncRunResult × Session (Tables F)
  backfill today start_date end_date customer_ids entity s =
      let (started, s0) = read_clock clock s in
      let (targets, s1) = resolve_target_accounts settings customer_ids s0 in
      let (agg, s2) =
        run_jobs clock SyncType.backfill
          (account_jobs reports today true start_date end_date entity targets) fresh_aggregate s1 in
      let (now, s3) = read_clock clock s2 in
      (sync_result agg entity (map (λ x. x.1.customer_id) targets) started now, s3)
