-- ===== src/Alerts/Engine.antt =====
-- app/services/ops/alerts_service.py: `evaluate`. What it reads besides the alerts, and the time of
-- each write, are arguments.
pub mod Resolve
pub mod Dismissed
pub mod Outcome
use google_ads_intelligence.Base.{
  ℕ, ◌+◌, Bool, true, false, Option, none, some, List, [], ◌∷◌, ◌++◌, length, if◌then◌else◌,
}
use google_ads_intelligence.Base.Eq.{nat_eq, list_eq, option_eq, pair_eq, mem}
use google_ads_intelligence.Base.Dict.{Dict, Table}
use google_ads_intelligence.Base.Text.{Text}
use google_ads_intelligence.Base.Float.{FloatOps}
use google_ads_intelligence.Ops.Rules.{AlertRules}
use google_ads_intelligence.Alerts.Store.{
  key_eq, Key, AlertValues, Alert, upsert_by_dedupe, resolve_rows,
}
use google_ads_intelligence.Alerts.Analysis.{CampaignAnalysis}
use google_ads_intelligence.Alerts.Rules.{
  managed_types, key_of, campaign_alerts, search_term_alerts, sync_alerts,
}
use google_ads_intelligence.Sync.Log.{SyncLog}

-- What an evaluation reads.
pub record Signals (F : Type 0) : Type 0 where
  pub analyses : List (CampaignAnalysis F)
  pub qs_latest : ℕ → Option F
  pub qs_prior : ℕ → Option F
  pub new_terms : ℕ
  pub latest_sync : Option (ℕ × SyncLog)

-- The summary of an evaluation.
pub record Summary : Type 0 where
  pub evaluated_campaigns : ℕ
  pub alerts_active : ℕ
  pub created : ℕ
  pub auto_resolved : ℕ

-- `active_keys.add(key)`, on a set kept as a list.
unfoldable pub add_key : Key → List Key → List Key
add_key key keys = if mem key keys then keys else key ∷ keys

module _ {F : Type 0} where
  -- The calls of `emit` in turn: the active keys, the number created, and the table.
  unfoldable pub emit_all :
      ℕ → List (AlertValues F) → List Key → ℕ → Table (Alert F) → (List Key × ℕ) × Table (Alert F)
  emit_all now [] keys created t = ((keys, created), t)
  emit_all now (v ∷ vs) keys created t =
      let (was_created, t') = upsert_by_dedupe now (key_of v) v t in
      emit_all now vs (add_key (key_of v) keys) (created + (if was_created then 1 else 0)) t'

  -- The end of `evaluate`: the writes and the resolution.
  unfoldable pub write_alerts :
      ℕ → List (AlertValues F) → Table (Alert F) → (List Key × (ℕ × ℕ)) × Table (Alert F)
  write_alerts now emitted t =
      let ((keys, created), t1) = emit_all now emitted [] 0 t in
      let (auto_resolved, rows) = resolve_rows now keys managed_types t1.rows in
      ((keys, (created, auto_resolved)), record t1 { rows = rows })

module _ {F : Type 0} ⦃fl : FloatOps F⦄ (rules : AlertRules F) (signals : Signals F) where
  abbrev pub analysis_alerts : List (CampaignAnalysis F) → List (AlertValues F)
  analysis_alerts [] = []
  analysis_alerts (a ∷ rest) =
      campaign_alerts rules a (signals.qs_latest a.campaign_pk) (signals.qs_prior a.campaign_pk)
      ++ analysis_alerts rest

  -- All that `evaluate` emits, in order.
  unfoldable pub emitted_alerts : Option ℕ → List (AlertValues F)
  emitted_alerts account_id =
      analysis_alerts signals.analyses
      ++ search_term_alerts rules account_id signals.new_terms
      ++ sync_alerts signals.latest_sync

  -- AlertsService.evaluate
  unfoldable pub evaluate : ℕ → Option ℕ → Table (Alert F) → Summary × Table (Alert F)
  evaluate now account_id t =
      let ((keys, (created, auto_resolved)), t') = write_alerts now (emitted_alerts account_id) t in
      (
        record {
          evaluated_campaigns = length signals.analyses;
          alerts_active = length keys;
          created = created;
          auto_resolved = auto_resolved;
        },
        t',
      )
