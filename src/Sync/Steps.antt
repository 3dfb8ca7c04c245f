-- ===== src/Sync/Steps.antt =====
-- app/services/sync_service.py: what the steps read, the counting loops that they share, and the
-- dimension steps. app/google_ads/reports is an argument, `Reports`.
pub mod Snapshots
pub mod Terms
pub mod Totals
pub mod Growth
pub mod Mapped
use google_ads_intelligence.Base.{
  ℕ, zero, suc, ◌+◌, Bool, true, false, Option, none, some, List, [], ◌∷◌, length, ◌⊎◌, inl, inr,
}
use google_ads_intelligence.Base.Eq.{list_eq, nat_eq, pair_eq, option_eq}
use google_ads_intelligence.Base.Dict.{Dict, Table, lookup}
use google_ads_intelligence.Base.Text.{Text, codes}
use google_ads_intelligence.Sync.Log.{Account, World, Details}
use google_ads_intelligence.Sync.Engine.{StepResult, Step}
use google_ads_intelligence.Sync.Window.{Value, Columns, item, int_of, Snapshot}
use google_ads_intelligence.Sync.Dimension.{
  Dim, upsert_campaign, upsert_budget, upsert_ad_group, upsert_keyword, upsert_ad, pk_map,
}

-- The tables of the steps. The key of a search term is its query and match type.
pub record Tables (F : Type 0) : Type 0 where
  pub campaigns : Table (Dim ℕ F)
  pub budgets : Table (Dim ℕ F)
  pub ad_groups : Table (Dim ℕ F)
  pub keywords : Table (Dim ℕ F)
  pub ads : Table (Dim ℕ F)
  pub search_terms : Table (Dim (Text × Option Text) F)
  pub campaign_snaps : Table (Snapshot F)
  pub campaign_device_snaps : Table (Snapshot F)
  pub campaign_geo_snaps : Table (Snapshot F)
  pub ad_group_snaps : Table (Snapshot F)
  pub keyword_snaps : Table (Snapshot F)
  pub ad_snaps : Table (Snapshot F)
  pub budget_snaps : Table (Snapshot F)
  pub search_term_snaps : Table (Snapshot F)
  pub recommendations : Table (Snapshot F)

-- What a fetcher gives: the message of an exception, or the rows.
abbrev pub Report : Type 0 → Type 0
Report F = Text ⊎ List (Columns F)

-- The fetchers, by the customer id and the window.
pub record Reports (F : Type 0) : Type 0 where
  pub fetch_accounts : Option Text → Report F
  pub fetch_budgets : Text → Report F
  pub fetch_campaigns : Text → Report F
  pub fetch_ad_groups : Text → Report F
  pub fetch_keywords : Text → Report F
  pub fetch_ads : Text → Report F
  pub fetch_campaign_metrics : Text → ℕ → ℕ → Report F
  pub fetch_campaign_device_metrics : Text → ℕ → ℕ → Report F
  pub fetch_campaign_geo_metrics : Text → ℕ → ℕ → Report F
  pub fetch_ad_group_metrics : Text → ℕ → ℕ → Report F
  pub fetch_keyword_metrics : Text → ℕ → ℕ → Report F
  pub fetch_ad_metrics : Text → ℕ → ℕ → Report F
  pub fetch_budget_metrics : Text → ℕ → ℕ → Report F
  pub fetch_search_terms : Text → ℕ → ℕ → Report F
  pub fetch_recommendations : Text → Report F

-- `int(created)` and `int(not created)` and `failed`, counted.
pub record Counts : Type 0 where
  pub ins : ℕ
  pub upd : ℕ
  pub bad : ℕ

abbrev pub count_created : Bool → Counts → Counts
count_created true c = record c { ins = c.ins + 1 }
count_created false c = record c { upd = c.upd + 1 }

abbrev pub count_failed : Counts → Counts
count_failed c = record c { bad = c.bad + 1 }

abbrev pub no_counts : Counts
no_counts = record { ins = 0; upd = 0; bad = 0 }

-- `m.get(v)`
abbrev pub get_pk : {F : Type 0} → Dict ℕ ℕ → Value F → Option ℕ
get_pk m v = elim (int_of v) [ none ↦ none | some id ↦ lookup id m ]

-- A primary key that is falsy counts as missing.
abbrev pub truthy : Option ℕ → Option ℕ
truthy none = none
truthy (some zero) = none
truthy (some (suc n)) = some (suc n)

-- An id that the fetcher has written as an int.
abbrev pub id_at : {F : Type 0} → Text → Columns F → ℕ
id_at name row = elim (int_of (item name row)) [ none ↦ 0 | some id ↦ id ]

-- The loop of a dimension step: `change` is none where the row is counted as failed.
unfoldable pub upsert_rows :
    {F T : Type 0}
    → (Columns F → T → Option (Bool × T))
    → List (Columns F)
    → Counts
    → T
    → Counts × T
upsert_rows change [] c t = (c, t)
upsert_rows change (row ∷ rows) c t = elim (change row t) [
  | none ↦ upsert_rows change rows (count_failed c) t
  | some (created, t') ↦ upsert_rows change rows (count_created created c) t'
]

module _ {F : Type 0} where
  -- A step fetches, and raises what its fetcher raises.
  abbrev pub with_report :
      Report F
      → (List (Columns F) → World (Tables F) → StepResult × World (Tables F))
      → World (Tables F)
      → StepResult × World (Tables F)
  with_report report body w = elim report [
    | inl message ↦ (StepResult.raised message, w)
    | inr rows ↦ body rows w
  ]

  abbrev pub done : Counts → List (Columns F) → StepResult
  done c rows = StepResult.returned c.ins c.upd c.bad (some (Details.fetched (length rows)))

  abbrev pub set_tables : Tables F → World (Tables F) → World (Tables F)
  set_tables t w = record w { tables = t }

  -- _step_budgets_dim
  unfoldable pub step_budgets_dim : Reports F → ℕ × Account → Step (Tables F)
  step_budgets_dim reports (pk, account) log_id w =
      with_report (reports.fetch_budgets account.customer_id)
        (λ rows w.
          let (c, t) =
            upsert_rows
              (λ row t.
                let (x, t') = upsert_budget pk (id_at (codes "budget_id") row) row t in
                some (x.1, t'))
              rows no_counts w.tables.budgets in
          (done c rows, set_tables (record w.tables { budgets = t }) w))
        w

  -- _step_campaigns_dim
  unfoldable pub step_campaigns_dim : Reports F → ℕ × Account → Step (Tables F)
  step_campaigns_dim reports (pk, account) log_id w =
      with_report (reports.fetch_campaigns account.customer_id)
        (λ rows w.
          let (c, t) =
            upsert_rows
              (λ row t.
                let (x, t') = upsert_campaign pk (id_at (codes "campaign_id") row) row t in
                some (x.1, t'))
              rows no_counts w.tables.campaigns in
          (done c rows, set_tables (record w.tables { campaigns = t }) w))
        w

  -- `pk = m.get(row[parent]); if pk is None: failed += 1`, else the upsert below the parent.
  abbrev pub under_parent :
      Dict ℕ ℕ
      → Text
      → (ℕ → Columns F → Table (Dim ℕ F) → (ℕ × Bool) × Table (Dim ℕ F))
      → Columns F
      → Table (Dim ℕ F)
      → Option (Bool × Table (Dim ℕ F))
  under_parent m parent change row t = elim (get_pk m (item parent row)) [
    | none ↦ none
    | some pk ↦ some ((change pk row t).0.1, (change pk row t).1)
  ]

  -- _step_ad_groups_dim
  unfoldable pub step_ad_groups_dim : Reports F → ℕ × Account → Step (Tables F)
  step_ad_groups_dim reports (pk, account) log_id w =
      with_report (reports.fetch_ad_groups account.customer_id)
        (λ rows w.
          let cmap = pk_map pk w.tables.campaigns.rows [] in
          let (c, t) =
            upsert_rows
              (under_parent cmap (codes "campaign_id")
                (λ parent row t. upsert_ad_group pk parent (id_at (codes "ad_group_id") row) row t))
              rows no_counts w.tables.ad_groups in
          (done c rows, set_tables (record w.tables { ad_groups = t }) w))
        w

  -- _step_keywords_dim
  unfoldable pub step_keywords_dim : Reports F → ℕ × Account → Step (Tables F)
  step_keywords_dim reports (pk, account) log_id w =
      with_report (reports.fetch_keywords account.customer_id)
        (λ rows w.
          let agmap = pk_map pk w.tables.ad_groups.rows [] in
          let (c, t) =
            upsert_rows
              (under_parent agmap (codes "ad_group_id")
                (λ parent row t. upsert_keyword pk parent (id_at (codes "criterion_id") row) row t))
              rows no_counts w.tables.keywords in
          (done c rows, set_tables (record w.tables { keywords = t }) w))
        w

  -- _step_ads_dim
  unfoldable pub step_ads_dim : Reports F → ℕ × Account → Step (Tables F)
  step_ads_dim reports (pk, account) log_id w =
      with_report (reports.fetch_ads account.customer_id)
        (λ rows w.
          let agmap = pk_map pk w.tables.ad_groups.rows [] in
          let (c, t) =
            upsert_rows
              (under_parent agmap (codes "ad_group_id")
                (λ parent row t. upsert_ad pk parent (id_at (codes "ad_id") row) row t))
              rows no_counts w.tables.ads in
          (done c rows, set_tables (record w.tables { ads = t }) w))
        w
