-- ===== src/Alerts/Rules.antt =====
-- app/services/ops/alerts_service.py: the conditions of `evaluate`, each the list of what it emits.
use google_ads_intelligence.Base.{
  ℕ, Bool, true, false, not, ◌&&◌, Option, none, some, List, [], ◌∷◌, ◌++◌, map, any, leb, ltb,
  ◌==◌, if◌then◌else◌,
}
use google_ads_intelligence.Base.Eq.{list_eq, nat_eq}
use google_ads_intelligence.Base.Dict.{Dict, lookup}
use google_ads_intelligence.Base.Text.{Text, codes, or_text}
use google_ads_intelligence.Base.Float.{FloatOps, ◌+f◌, ◌-f◌, ◌*f◌, ◌<f◌, ◌≤f◌, nat, int}
use google_ads_intelligence.Ops.Rules.{AlertRules}
use google_ads_intelligence.Ops.Scoring.{Severity, ctr, avg_cpc, pct_change, Code, disapproved_ads}
use google_ads_intelligence.Alerts.Store.{Message, AlertValues, Key}
use google_ads_intelligence.Alerts.Analysis.{CampaignAnalysis}
use google_ads_intelligence.Sync.Log.{SyncLog, SyncStatus, Entity}

-- SUGGESTED_ACTIONS
abbrev pub suggested_actions : Dict Text Text
suggested_actions =
    (codes "CTR_DROP", codes "Review ad copy and recent changes; check search term relevance.")
    ∷ (codes "CPC_RISE", codes "Check competitor pressure and bid strategy; review budget pacing.")
    ∷ (
      codes "ZERO_IMPRESSIONS",
      codes "Verify campaign is enabled, funded, and not policy-limited.",
    )
    ∷ (codes "ZERO_CLICKS", codes "Review ad relevance, position, and keyword match types.")
    ∷ (codes "LIMITED_BY_BUDGET", codes "Consider raising the daily budget or reallocating spend.")
    ∷ (
      codes "SPEND_SPIKE",
      codes "Confirm the spend increase is intended; check for click anomalies.",
    )
    ∷ (codes "DISAPPROVED_ADS", codes "Fix the disapproved ad(s) to restore full delivery.")
    ∷ (codes "QUALITY_SCORE_DROP", codes "Improve ad relevance and landing page experience.")
    ∷ (codes "SEARCH_TERM_SPIKE", codes "Review new search terms; add negatives or new keywords.")
    ∷ (codes "SYNC_FAILURE", codes "Investigate the failed sync in /sync/status and re-run.")
    ∷ []

-- _MANAGED_TYPES
abbrev pub managed_types : List Text
managed_types = map (λ x. x.0) suggested_actions

module _ {F : Type 0} where
  abbrev pub message : Text → List F → List (Option Text) → Message F
  message template numbers names = record { template = template; numbers = numbers; names = names }

  -- The values that `emit` writes.
  abbrev pub emission :
      Option ℕ
      → Text
      → Option ℕ
      → Option Text
      → Text
      → Severity
      → Message F
      → Message F
      → Option F
      → Option F
      → AlertValues F
  emission account entity_type entity_id entity_name alert_type severity title description metric
        threshold =
      record {
        account_id = account;
        entity_type = entity_type;
        entity_id = entity_id;
        entity_name = entity_name;
        alert_type = alert_type;
        severity = severity;
        title = title;
        description = description;
        suggested_action = lookup alert_type suggested_actions;
        metric_value = metric;
        threshold_value = threshold;
      }

  -- The key that `emit` forms.
  abbrev pub key_of : AlertValues F → Key
  key_of v = record {
    account = v.account_id;
    entity_type = v.entity_type;
    entity_id = v.entity_id;
    alert_type = v.alert_type;
  }

module _ {F : Type 0} ⦃fl : FloatOps F⦄ (rules : AlertRules F) (a : CampaignAnalysis F) where
  abbrev campaign_alert :
      Text → Severity → Message F → Message F → Option F → Option F → List (AlertValues F)
  campaign_alert alert_type severity title description metric threshold =
      emission (some a.account_id) (codes "campaign") (some a.campaign_pk) a.name alert_type
        severity title description metric threshold
      ∷ []

  unfoldable pub traffic_alerts : List (AlertValues F)
  traffic_alerts =
      if (a.today.impressions == 0) && ltb 0 a.prior.impressions
      then campaign_alert (codes "ZERO_IMPRESSIONS") Severity.critical
          (message (codes "No impressions: {name}") [] (a.name ∷ []))
          (message (codes "Campaign served 0 impressions vs prior day.") [] []) none none
      else if leb rules.min_impressions_for_ctr_alert a.today.impressions && (a.today.clicks == 0)
      then campaign_alert (codes "ZERO_CLICKS") Severity.high
          (message (codes "No clicks: {name}") [] (a.name ∷ []))
          (message (codes "{t.impressions} impressions but 0 clicks.")
            (nat a.today.impressions ∷ []) [])
          none none
      else []

  -- `pct_change(x, y) if x is not None and y is not None else None`
  abbrev pub delta : Option F → Option F → Option F
  delta (some x) (some y) = pct_change x y
  delta _ _ = none

  abbrev listed : Option F → List F
  listed none = []
  listed (some x) = x ∷ []

  unfoldable pub ctr_alerts : List (AlertValues F)
  ctr_alerts = elim (delta (ctr a.today) (ctr a.prior)) [
    | none ↦ []
    | some d ↦
        if (d ≤f fl.neg rules.ctr_drop_pct)
          && leb rules.min_impressions_for_ctr_alert a.today.impressions
        then campaign_alert (codes "CTR_DROP")
            (if d ≤f fl.neg rules.critical_ctr_drop_pct then Severity.critical else Severity.high)
            (message (codes "CTR dropped {abs(ctr_delta):.0%}: {name}") (fl.abs d ∷ [])
              (a.name ∷ []))
            (message (codes "CTR fell from {p.ctr:.2%} to {t.ctr:.2%}.")
              (listed (ctr a.prior) ++ listed (ctr a.today)) [])
            (some (fl.round_at 4 (fl.abs d))) (some rules.ctr_drop_pct)
        else []
  ]

  unfoldable pub cpc_alerts : List (AlertValues F)
  cpc_alerts = elim (delta (avg_cpc a.today) (avg_cpc a.prior)) [
    | none ↦ []
    | some d ↦
        if rules.cpc_rise_pct ≤f d
        then campaign_alert (codes "CPC_RISE") Severity.medium
            (message (codes "CPC up {cpc_delta:.0%}: {name}") (d ∷ []) (a.name ∷ []))
            (message (codes "Avg CPC rose from {p.avg_cpc:.2f} to {t.avg_cpc:.2f}.")
              (listed (avg_cpc a.prior) ++ listed (avg_cpc a.today)) [])
            (some (fl.round_at 4 d)) (some rules.cpc_rise_pct)
        else []
  ]

  -- `pct_change(t.cost, p.cost) or 0`
  abbrev spike : F
  spike = elim (pct_change a.today.cost a.prior.cost) [ none ↦ nat 0 | some d ↦ d ]

  unfoldable pub spend_alerts : List (AlertValues F)
  spend_alerts =
      if (nat 0 <f a.prior.cost)
        && (a.prior.cost *f (nat 1 +f rules.spend_spike_pct) ≤f a.today.cost)
      then campaign_alert (codes "SPEND_SPIKE")
          (if rules.critical_spend_spike_pct ≤f spike then Severity.critical else Severity.medium)
          (message (codes "Spend spike {spike:.0%}: {name}") (spike ∷ []) (a.name ∷ []))
          (message (codes "Spend rose from {p.cost:.2f} to {t.cost:.2f}.")
            (a.prior.cost ∷ a.today.cost ∷ []) [])
          (some (fl.round_at 4 spike)) (some rules.spend_spike_pct)
      else []

  unfoldable pub budget_alerts : List (AlertValues F)
  budget_alerts = elim a.budget_utilization [
    | none ↦ []
    | some u ↦
        if rules.limited_by_budget_util ≤f u
        then campaign_alert (codes "LIMITED_BY_BUDGET") Severity.high
            (message (codes "Limited by budget: {name}") [] (a.name ∷ []))
            (message (codes "Spent {a.budget_utilization:.0%} of daily budget.") (u ∷ []) [])
            (some (fl.round_at 4 u)) (some rules.limited_by_budget_util)
        else []
  ]

  abbrev is_disapproved_ads : Code → Bool
  is_disapproved_ads disapproved_ads = true
  is_disapproved_ads _ = false

  unfoldable pub policy_alerts : List (AlertValues F)
  policy_alerts =
      if any (λ i. is_disapproved_ads i.code) a.health.issues
      then campaign_alert (codes "DISAPPROVED_ADS") Severity.high
          (message (codes "Disapproved ad(s): {name}") [] (a.name ∷ []))
          (message (codes "One or more ads are disapproved and not serving.") [] []) none none
      else []

  unfoldable pub quality_alerts : Option F → Option F → List (AlertValues F)
  quality_alerts (some latest) (some prior) =
      if int rules.quality_score_drop ≤f (prior -f latest)
      then campaign_alert (codes "QUALITY_SCORE_DROP") Severity.medium
          (message (codes "Quality score down: {name}") [] (a.name ∷ []))
          (message (codes "Avg QS fell from {prior_qs:.1f} to {latest_qs:.1f}.")
            (prior ∷ latest ∷ []) [])
          (some (fl.round_at 2 (prior -f latest))) (some (int rules.quality_score_drop))
      else []
  quality_alerts _ _ = []

  -- One turn of the loop over the analyses.
  unfoldable pub campaign_alerts : Option F → Option F → List (AlertValues F)
  campaign_alerts latest_qs prior_qs =
      if not a.health.is_active
      then []
      else traffic_alerts
        ++ ctr_alerts
        ++ cpc_alerts
        ++ spend_alerts
        ++ budget_alerts
        ++ policy_alerts
        ++ quality_alerts latest_qs prior_qs

-- `status in ("failed", "partial")`
abbrev pub is_failure : SyncStatus → Bool
is_failure SyncStatus.failed = true
is_failure SyncStatus.partial = true
is_failure _ = false

abbrev pub status_text : SyncStatus → Text
status_text SyncStatus.running = codes "running"
status_text SyncStatus.success = codes "success"
status_text SyncStatus.partial = codes "partial"
status_text SyncStatus.failed = codes "failed"

abbrev pub entity_text : Entity → Text
entity_text Entity.all = codes "all"
entity_text Entity.accounts = codes "accounts"
entity_text Entity.budgets = codes "budgets"
entity_text Entity.campaigns = codes "campaigns"
entity_text Entity.ad_groups = codes "ad_groups"
entity_text Entity.keywords = codes "keywords"
entity_text Entity.ads = codes "ads"
entity_text Entity.search_terms = codes "search_terms"
entity_text Entity.recommendations = codes "recommendations"
entity_text Entity.budget_snapshots = codes "budget_snapshots"
entity_text Entity.campaign_snapshots = codes "campaign_snapshots"
entity_text Entity.campaign_device_snapshots = codes "campaign_device_snapshots"
entity_text Entity.campaign_geo_snapshots = codes "campaign_geo_snapshots"
entity_text Entity.ad_group_snapshots = codes "ad_group_snapshots"
entity_text Entity.keyword_snapshots = codes "keyword_snapshots"
entity_text Entity.ad_snapshots = codes "ad_snapshots"

module _ {F : Type 0} ⦃fl : FloatOps F⦄ where
  -- The spike of new search terms.
  unfoldable pub search_term_alerts : AlertRules F → Option ℕ → ℕ → List (AlertValues F)
  search_term_alerts rules account_id new_terms =
      if leb rules.search_term_spike_count new_terms
      then emission account_id (codes "account") account_id none (codes "SEARCH_TERM_SPIKE")
          Severity.medium (message (codes "{new_terms} new search terms") (nat new_terms ∷ []) [])
          (message (codes "A spike of new search terms appeared since yesterday.") [] [])
          (some (nat new_terms)) (some (nat rules.search_term_spike_count))
        ∷ []
      else []

  -- The failure of the latest sync.
  unfoldable pub sync_alerts : Option (ℕ × SyncLog) → List (AlertValues F)
  sync_alerts none = []
  sync_alerts (some (id, log)) =
      if is_failure log.status
      then emission none (codes "sync") (some id) none (codes "SYNC_FAILURE") Severity.critical
          (message (codes "Sync {latest_sync.status}: {latest_sync.entity}") []
            (some (status_text log.status) ∷ some (entity_text log.entity) ∷ []))
          (message (or_text log.error_message (codes "The latest sync did not fully succeed.")) []
            [])
          none none
        ∷ []
      else []
