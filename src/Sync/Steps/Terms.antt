-- ===== src/Sync/Steps/Terms.antt =====
-- app/services/sync_service.py: the discovery of accounts, and the steps of search terms and
-- recommendations. app/repositories/account.py and search_term.py.
use google_ads_intelligence.Base.{
  ℕ, ◌+◌, Bool, true, false, Option, none, some, List, [], ◌∷◌, map, length, if◌then◌else◌, inl,
  inr,
}
use google_ads_intelligence.Base.Eq.{◌=?◌, list_eq, nat_eq, pair_eq, option_eq}
use google_ads_intelligence.Base.Dict.{Dict, Table, add_row, set_row, lookup}
use google_ads_intelligence.Base.Text.{Text, codes, or_empty}
use google_ads_intelligence.Sync.Log.{Account, Details}
use google_ads_intelligence.Sync.Engine.{StepResult, Step}
use google_ads_intelligence.Sync.Window.{
  Value, str, flag, Columns, item, int_of, pick, Snapshot, replace_window, bulk_insert,
}
use google_ads_intelligence.Sync.Dimension.{pk_map, Dim, upsert}
use google_ads_intelligence.Sync.Steps.{
  Tables, Reports, Counts, no_counts, count_failed, count_created, upsert_rows, get_pk, truthy,
  with_report, set_tables,
}
use google_ads_intelligence.Sync.Steps.Snapshots.{metrics}

-- AccountRepository.get_by_customer_id
abbrev pub find_account : Text → Dict ℕ Account → Option (ℕ × Account)
find_account cid [] = none
find_account cid (x ∷ d) =
    let rest = find_account cid d in if x.1.customer_id =? cid then some x else rest

-- AccountRepository.upsert_account, with `is_manager` where the data has it. A new account is
-- syncable and no manager by default.
unfoldable pub upsert_account : Text → Option Bool → Table Account → (ℕ × Bool) × Table Account
upsert_account cid is_manager t = elim (find_account cid t.rows) [
  | none ↦ (
    (t.next_id, true),
    add_row
        (record {
          customer_id = cid;
          is_manager = elim is_manager [ none ↦ false | some b ↦ b ];
          is_syncable = true;
        })
        t,
  )
  | some x ↦ (
    (x.0, false),
    set_row x.0 (record x.1 { is_manager = elim is_manager [ none ↦ x.1.is_manager | some b ↦ b ] })
        t,
  )
]

abbrev pub text_of : {F : Type 0} → Value F → Option Text
text_of (str s) = some s
text_of _ = none

abbrev pub flag_of : {F : Type 0} → Value F → Option Bool
flag_of (flag b) = some b
flag_of _ = none

abbrev pub or_zero : Option ℕ → ℕ
or_zero none = 0
or_zero (some n) = n

-- The ad group, campaign and day of a search term's row, where it has them all.
abbrev pub place_term : {F : Type 0} → Dict ℕ ℕ → Dict ℕ ℕ → Columns F → Option (ℕ × (ℕ × ℕ))
place_term cmap agmap row = elim (truthy (get_pk agmap (item (codes "ad_group_id") row))) [
  | none ↦ none
  | some ag ↦ elim (truthy (get_pk cmap (item (codes "campaign_id") row))) [
    | none ↦ none
    | some cp ↦ elim (int_of (item (codes "snapshot_date") row)) [
      | none ↦ none
      | some day ↦ some (ag, (cp, day))
    ]
  ]
]

-- SearchTermRepository.upsert_search_term
abbrev pub upsert_search_term :
    {F : Type 0}
    → ℕ
    → ℕ
    → ℕ
    → Columns F
    → Table (Dim (Text × Option Text) F)
    → (ℕ × Bool) × Table (Dim (Text × Option Text) F)
upsert_search_term account campaign ad_group row t =
    upsert ad_group
      (or_empty (text_of (item (codes "query") row)), text_of (item (codes "match_type") row))
      account
      ((codes "campaign_id", Value.int campaign)
        ∷ pick (codes "search_term_targeting_status" ∷ []) row)
      t

abbrev pub term_snapshot : {F : Type 0} → (account log_id st ag cp day : ℕ) → Columns F → Snapshot F
term_snapshot account log_id st ag cp day row = record {
  account_id = account;
  sync_log_id = log_id;
  snapshot_date = day;
  columns =
      (codes "search_term_id", Value.int st)
      ∷ (codes "campaign_id", Value.int cp)
      ∷ (codes "ad_group_id", Value.int ag)
      ∷ metrics row;
}

-- The loop of `_step_search_terms`: `created_dims`, `updated`, `failed`, and the mappings.
unfoldable pub term_rows :
    {F : Type 0}
    → (cmap agmap : Dict ℕ ℕ) (account log_id : ℕ) → List (Columns F)
    → Table (Dim (Text × Option Text) F)
    → (Counts × List (Snapshot F)) × Table (Dim (Text × Option Text) F)
term_rows cmap agmap account log_id [] t = ((no_counts, []), t)
term_rows cmap agmap account log_id (row ∷ rows) t = elim (place_term cmap agmap row) [
  | none ↦
      let ((c, mappings), t') = term_rows cmap agmap account log_id rows t in
      ((count_failed c, mappings), t')
  | some (ag, (cp, day)) ↦
      let ((st, created), t1) = upsert_search_term account cp ag row t in
      let ((c, mappings), t2) = term_rows cmap agmap account log_id rows t1 in
      ((count_created created c, term_snapshot account log_id st ag cp day row ∷ mappings), t2)
]

-- `cmap.get(row["campaign_google_id"]) if row["campaign_google_id"] else None`
abbrev pub recommended_campaign : {F : Type 0} → Dict ℕ ℕ → Columns F → Value F
recommended_campaign cmap row = elim (truthy (int_of (item (codes "campaign_google_id") row))) [
  | none ↦ Value.null
  | some id ↦ elim (lookup id cmap) [ none ↦ Value.null | some pk ↦ Value.int pk ]
]

module _ {F : Type 0} (reports : Reports F) where
  -- _step_discover_accounts; the fetcher writes a customer id into every row.
  unfoldable pub step_discover_accounts : Option Text → Step (Tables F)
  step_discover_accounts manager log_id w = elim (reports.fetch_accounts manager) [
    | inl message ↦ (StepResult.raised message, w)
    | inr rows ↦
        let (c, t) =
          upsert_rows
            (λ row t. elim (text_of (item (codes "customer_id") row)) [
              | none ↦ none
              | some cid ↦
                  let (x, t') = upsert_account cid (flag_of (item (codes "is_manager") row)) t in
                  some (x.1, t')
            ])
            rows no_counts w.account_rows in
        (
          StepResult.returned c.ins c.upd 0 (some (Details.accounts_seen (length rows))),
          record w { account_rows = t },
        )
  ]

  -- _step_search_terms
  unfoldable pub step_search_terms : ℕ → Account → ℕ → ℕ → Step (Tables F)
  step_search_terms pk account start end log_id w =
      with_report (reports.fetch_search_terms account.customer_id start end)
        (λ rows w.
          let ((c, mappings), terms) =
            term_rows (pk_map pk w.tables.campaigns.rows []) (pk_map pk w.tables.ad_groups.rows [])
              pk log_id rows w.tables.search_terms in
          let (inserted, snaps) = replace_window mappings pk start end w.tables.search_term_snaps in
          (
            StepResult.returned (inserted + c.ins) c.upd c.bad
                (some (Details.fetched (length rows))),
            set_tables (record w.tables { search_terms = terms; search_term_snaps = snaps }) w,
          ))
        w

  -- _step_recommendations; `today` is the day on which the step runs.
  unfoldable pub step_recommendations : ℕ → Account → ℕ → Step (Tables F)
  step_recommendations pk account today log_id w =
      with_report (reports.fetch_recommendations account.customer_id)
        (λ rows w.
          let cmap = pk_map pk w.tables.campaigns.rows [] in
          let mappings =
            map
              (λ row.
                let x : Snapshot F = record {
                  account_id = pk;
                  sync_log_id = log_id;
                  snapshot_date = today;
                  columns =
                      (codes "campaign_id", recommended_campaign cmap row)
                      ∷ pick
                          (codes "resource_name"
                            ∷ codes "recommendation_type"
                            ∷ codes "campaign_google_id"
                            ∷ codes "impact_base_cost_micros"
                            ∷ codes "impact_potential_cost_micros"
                            ∷ codes "impact_base_clicks"
                            ∷ codes "impact_potential_clicks"
                            ∷ codes "impact_base_conversions"
                            ∷ codes "impact_potential_conversions"
                            ∷ codes "dismissed"
                            ∷ codes "details"
                            ∷ [])
                          row;
                } in
                x)
              rows in
          let (inserted, snaps) = bulk_insert mappings w.tables.recommendations in
          (
            StepResult.returned inserted 0 0 (some (Details.fetched (length rows))),
            set_tables (record w.tables { recommendations = snaps }) w,
          ))
        w
