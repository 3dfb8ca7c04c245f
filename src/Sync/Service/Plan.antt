-- ===== src/Sync/Service/Plan.antt =====
-- The plan of a run: what a backfill leaves alone, and the window of a run.
use google_ads_intelligence.Base.{
  ℕ, ◌+◌, ◌≡◌, ◌≤◌, max, refl, ap, ◌∙◌, sym, subst, true, Option, List, [], ◌∷◌, arith, All,
  All-append, inl, inr, ◌⊎◌, Option-cases, List-cases,
}
use google_ads_intelligence.Base.Dict.{Table, AllBelow}
use google_ads_intelligence.Base.Text.{Text, strip, remove_code}
use google_ads_intelligence.Base.Eq.{list_eq, nat_eq}
use google_ads_intelligence.Sync.Log.{
  Entity, all, accounts, budgets, campaigns, ad_groups, keywords, ads, search_terms,
  recommendations, budget_snapshots, campaign_snapshots, campaign_device_snapshots,
  campaign_geo_snapshots, ad_group_snapshots, keyword_snapshots, ad_snapshots, Account, World,
  Session, SyncType,
}
use google_ads_intelligence.Sync.Engine.{
  Job, StepResult, returned, raised, Step, fresh_aggregate, read_clock,
}
use google_ads_intelligence.Sync.Engine.Isolation.{world_of}
use google_ads_intelligence.Sync.Engine.Status.{world_after, run_jobs-Steps}
use google_ads_intelligence.Sync.Window.{Columns, Snapshot}
use google_ads_intelligence.Sync.Dimension.{Dim}
use google_ads_intelligence.Sync.Steps.{Tables, Report, Reports}
use google_ads_intelligence.Sync.Steps.Snapshots.{
  snapshot_step, step_campaign_snaps, step_campaign_device_snaps, step_campaign_geo_snaps,
  step_ad_group_snaps, step_keyword_snaps, step_ad_snaps, step_budget_snaps,
}
use google_ads_intelligence.Sync.Steps.Terms.{step_search_terms, step_recommendations, find_account}
use google_ads_intelligence.Sync.Service.{
  default_date_range, snaps_for, build, steps_for, account_jobs, resolve_ids,
  resolve_target_accounts, SyncSettings, backfill,
}

-- The tables that mirror the structure of the accounts: campaigns, budgets, ad groups, keywords and ads.
abbrev pub dimensions :
    {F : Type 0}
    → Tables F
    → Table (Dim ℕ F) × (Table (Dim ℕ F) × (Table (Dim ℕ F) × (Table (Dim ℕ F) × Table (Dim ℕ F))))
dimensions t = (t.campaigns, (t.budgets, (t.ad_groups, (t.keywords, t.ads))))

abbrev KeepsDims : {F : Type 0} → Step (Tables F) → Type 0
KeepsDims step =
    (log_id : ℕ) (w : World (Tables _)) → dimensions (step log_id w).1.tables ≡ dimensions w.tables

snapshot_step-dimensions :
    {F : Type 0} (report : Report F) (place : World (Tables F) → Columns F → Option (Snapshot F))
    (get : Tables F → Table (Snapshot F)) (put : Table (Snapshot F) → Tables F → Tables F)
    (account start end : ℕ)
    → ((x : Table (Snapshot F)) (t : Tables F) → dimensions (put x t) ≡ dimensions t)
    → (w : World (Tables F))
    → dimensions (snapshot_step report place get put account start end w).1.tables
      ≡ dimensions w.tables
unfolding snapshot_step
snapshot_step-dimensions (inl message) place get put account start end keeps w = refl
snapshot_step-dimensions (inr rows) place get put account start end keeps w = keeps _ w.tables

Report-cases :
    {F : Type 0} (r : Report F)
    → ((message : Text) × (r ≡ inl message)) ⊎ ((rows : List (Columns F)) × (r ≡ inr rows))
Report-cases (inl message) = inl (message, refl)
Report-cases (inr rows) = inr (rows, refl)

module _ {F : Type 0} (reports : Reports F) (today pk : ℕ) (a : Account) (start end : ℕ) where
  step_search_terms-KeepsDims : KeepsDims (step_search_terms reports pk a start end)
  unfolding step_search_terms
  step_search_terms-KeepsDims log_id w =
      elim (Report-cases (reports.fetch_search_terms a.customer_id start end)) [
        | inl (message, e) ↦ rw (step_search_terms, e) refl
        | inr (rows, e) ↦ rw (step_search_terms, e) refl
      ]

  step_recommendations-KeepsDims : KeepsDims (step_recommendations reports pk a today)
  unfolding step_recommendations
  step_recommendations-KeepsDims log_id w =
      elim (Report-cases (reports.fetch_recommendations a.customer_id)) [
        | inl (message, e) ↦ rw (step_recommendations, e) refl
        | inr (rows, e) ↦ rw (step_recommendations, e) refl
      ]

  abbrev pub Keeps : Job (Tables F) → Type 0
  Keeps j = KeepsDims j.fn

  -- The snapshot steps of each entity.
  snaps_for-Keeps : (e : Entity) → All Keeps (snaps_for reports today e pk a start end)
  unfolding snaps_for step_budget_snaps step_campaign_snaps step_campaign_device_snaps
      step_campaign_geo_snaps step_ad_group_snaps step_keyword_snaps step_ad_snaps
  snaps_for-Keeps all = tt
  snaps_for-Keeps accounts = tt
  snaps_for-Keeps budgets =
      ((λ log_id w. snapshot_step-dimensions _ _ _ _ pk start end (λ x t. refl) w), tt)
  snaps_for-Keeps campaigns = (
    (λ log_id w. snapshot_step-dimensions _ _ _ _ pk start end (λ x t. refl) w),
    (
      (λ log_id w. snapshot_step-dimensions _ _ _ _ pk start end (λ x t. refl) w),
      ((λ log_id w. snapshot_step-dimensions _ _ _ _ pk start end (λ x t. refl) w), tt),
    ),
  )
  snaps_for-Keeps ad_groups =
      ((λ log_id w. snapshot_step-dimensions _ _ _ _ pk start end (λ x t. refl) w), tt)
  snaps_for-Keeps keywords =
      ((λ log_id w. snapshot_step-dimensions _ _ _ _ pk start end (λ x t. refl) w), tt)
  snaps_for-Keeps ads =
      ((λ log_id w. snapshot_step-dimensions _ _ _ _ pk start end (λ x t. refl) w), tt)
  snaps_for-Keeps search_terms = (step_search_terms-KeepsDims, tt)
  snaps_for-Keeps recommendations = (step_recommendations-KeepsDims, tt)
  snaps_for-Keeps budget_snapshots = tt
  snaps_for-Keeps campaign_snapshots = tt
  snaps_for-Keeps campaign_device_snapshots = tt
  snaps_for-Keeps campaign_geo_snapshots = tt
  snaps_for-Keeps ad_group_snapshots = tt
  snaps_for-Keeps keyword_snapshots = tt
  snaps_for-Keeps ad_snapshots = tt

  build-Keeps : (e : Entity) → All Keeps (build reports today true pk a start end e)
  unfolding build
  build-Keeps e = snaps_for-Keeps e

  steps_for-Keeps : (e : Entity) → All Keeps (steps_for reports today true pk a start end e)
  unfolding steps_for
  steps_for-Keeps all =
      All-append Keeps _ _
        (All-append Keeps _ _
          (All-append Keeps _ _
            (All-append Keeps _ _
              (All-append Keeps _ _
                (All-append Keeps _ _ (build-Keeps budgets) (build-Keeps campaigns))
                (build-Keeps ad_groups))
              (build-Keeps keywords))
            (build-Keeps ads))
          (build-Keeps search_terms))
        (build-Keeps recommendations)
  steps_for-Keeps accounts = build-Keeps accounts
  steps_for-Keeps budgets = build-Keeps budgets
  steps_for-Keeps campaigns = build-Keeps campaigns
  steps_for-Keeps ad_groups = build-Keeps ad_groups
  steps_for-Keeps keywords = build-Keeps keywords
  steps_for-Keeps ads = build-Keeps ads
  steps_for-Keeps search_terms = build-Keeps search_terms
  steps_for-Keeps recommendations = build-Keeps recommendations
  steps_for-Keeps budget_snapshots = build-Keeps budget_snapshots
  steps_for-Keeps campaign_snapshots = build-Keeps campaign_snapshots
  steps_for-Keeps campaign_device_snapshots = build-Keeps campaign_device_snapshots
  steps_for-Keeps campaign_geo_snapshots = build-Keeps campaign_geo_snapshots
  steps_for-Keeps ad_group_snapshots = build-Keeps ad_group_snapshots
  steps_for-Keeps keyword_snapshots = build-Keeps keyword_snapshots
  steps_for-Keeps ad_snapshots = build-Keeps ad_snapshots

module _ {F : Type 0} (reports : Reports F) (today start end : ℕ) where
  account_jobs-Keeps :
      (e : Entity) (targets : List (ℕ × Account))
      → All
          (λ (j : Job (Tables F)). KeepsDims j.fn)
          (account_jobs reports today true start end e targets)
  account_jobs-Keeps e [] = tt
  account_jobs-Keeps e ((pk, a) ∷ targets) =
      All-append (λ (j : Job (Tables F)). KeepsDims j.fn)
        (steps_for reports today true pk a start end e)
        (account_jobs reports today true start end e targets)
        (steps_for-Keeps reports today pk a start end e) (account_jobs-Keeps e targets)

-- A step that raised leaves the tables as they were.
world_of-dimensions :
    {F : Type 0} (w : World (Tables F)) (r : StepResult × World (Tables F))
    → dimensions r.1.tables ≡ dimensions w.tables
    → dimensions (world_of w r).tables ≡ dimensions w.tables
world_of-dimensions w (returned ins upd bad details, w') h = h
world_of-dimensions w (raised message, w') h = refl

world_after-dimensions :
    {F : Type 0} (n : ℕ) (jobs : List (Job (Tables F))) (w : World (Tables F))
    → All (λ (j : Job (Tables F)). KeepsDims j.fn) jobs
    → dimensions (world_after n jobs w).tables ≡ dimensions w.tables
world_after-dimensions n [] w h = refl
world_after-dimensions n (j ∷ jobs) w h =
    world_after-dimensions (n + 1) jobs (world_of w (j.fn n w)) h.1
    ∙ world_of-dimensions w (j.fn n w) (h.0 n w)

-- Accounts are made, and nothing else.
abbrev OnlyAccounts : {D : Type 0} → Session D → Session D → Type 0
OnlyAccounts s s' =
    (s'.working.world.tables ≡ s.working.world.tables) × (s'.working.logs ≡ s.working.logs)

resolve_ids-OnlyAccounts :
    {D : Type 0} (ids : List Text) (s : Session D) → OnlyAccounts s (resolve_ids ids s).1
unfolding resolve_ids
resolve_ids-OnlyAccounts [] s = (refl, refl)
resolve_ids-OnlyAccounts (raw ∷ ids) s =
    let cid = strip (remove_code 45 raw) in
    elim (Option-cases (find_account cid s.working.world.account_rows.rows)) [
      | inr (x, e) ↦ rw (resolve_ids, e) (resolve_ids-OnlyAccounts ids s)
      | inl e ↦ rw (resolve_ids, e) (resolve_ids-OnlyAccounts ids _)
    ]

resolve_target_accounts-OnlyAccounts :
    {D : Type 0} (settings : SyncSettings) (ids : List Text) (s : Session D)
    → OnlyAccounts s (resolve_target_accounts settings ids s).1
unfolding resolve_target_accounts
resolve_target_accounts-OnlyAccounts settings (id ∷ ids) s = resolve_ids-OnlyAccounts (id ∷ ids) s
resolve_target_accounts-OnlyAccounts settings [] s =
    elim (List-cases settings.client_customer_id_list) [
      | inl none_set ↦ rw (resolve_target_accounts, none_set) (refl, refl)
      | inr (id, (ids, e)) ↦ rw (resolve_target_accounts, e) (resolve_ids-OnlyAccounts (id ∷ ids) s)
    ]

-- A backfill, of any accounts, window and entity, and whatever the fetchers give, leaves the tables of the
-- campaigns, the budgets, the ad groups, the keywords and the ads exactly as they were. The condition
-- is that the ids of the log rows are below the next id.
pub backfill-dimensions :
    {F : Type 0} (clock : ℕ → ℕ) (reports : Reports F) (settings : SyncSettings)
    (today start_date end_date : ℕ) (customer_ids : List Text) (entity : Entity)
    (s : Session (Tables F))
    → AllBelow s.working.logs.next_id s.working.logs.rows
    → dimensions
        (backfill clock reports settings today start_date end_date customer_ids entity
          s).1.working.world.tables
      ≡ dimensions s.working.world.tables
unfolding backfill
backfill-dimensions clock reports settings today start_date end_date customer_ids entity s h =
    let s0 = (read_clock clock s).1 in
    let r = resolve_target_accounts settings customer_ids s0 in
    let made = resolve_target_accounts-OnlyAccounts settings customer_ids s0 in
    let jobs = account_jobs reports today true start_date end_date entity r.0 in
    ap (λ w. dimensions w.tables)
      (run_jobs-Steps clock SyncType.backfill jobs fresh_aggregate r.1
        (subst (λ l. AllBelow l.next_id l.rows) (sym made.1) h)).0
    ∙ (world_after-dimensions r.1.working.logs.next_id jobs r.1.working.world
          (account_jobs-Keeps reports today start_date end_date entity r.0)
        ∙ ap dimensions made.0)

-- The window of a run ends yesterday and has `lookback_days` days, or one day for a lookback of 0.
-- The condition is that the days before today reach so far back.
pub default_date_range_days :
    (today lookback_days : ℕ)
    → lookback_days + 1 ≤ today
    → 2 ≤ today
    → (let (start, end) = default_date_range today lookback_days in
        (end + 1 ≡ today) × (end + 1 ≡ start + max lookback_days 1))
unfolding default_date_range
default_date_range_days today lookback_days h k = (omega (arith, h, k), omega (arith, h, k))
