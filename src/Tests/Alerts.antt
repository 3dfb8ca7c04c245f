-- ===== src/Tests/Alerts.antt =====
-- An evaluation of alerts at a concrete table.
use google_ads_intelligence.Base.{◌≡◌, refl, none, some, [], ◌∷◌, arith}
use google_ads_intelligence.Base.Dict.{Table}
use google_ads_intelligence.Base.Text.{codes}
use google_ads_intelligence.Ops.Rules.{default_alert}
use google_ads_intelligence.Ops.Scoring.{Severity}
use google_ads_intelligence.Alerts.Store.{Alert, AlertStatus, AlertValues, same_key}
use google_ads_intelligence.Alerts.Rules.{
  message, emission, search_term_alerts, sync_alerts, key_of,
}
use google_ads_intelligence.Alerts.Engine.{Signals, evaluate, emitted_alerts}
use google_ads_intelligence.Alerts.Refinement.{IsTable, view}
use google_ads_intelligence.Alerts.Engine.Dismissed.{StaysDismissed, evaluate-StaysDismissed}
use google_ads_intelligence.Alerts.Engine.Outcome.{evaluate_resolves}
use google_ads_intelligence.Tests.Fixed.{Fixed, fixed_ops}

-- An evaluation for account 7, which sees many new search terms there.
abbrev signals : Signals Fixed
signals = record {
  analyses = [];
  qs_latest = λ pk. none;
  qs_prior = λ pk. none;
  new_terms = 500;
  latest_sync = none;
}

abbrev spike_values : AlertValues Fixed
spike_values =
    emission (some 7) (codes "account") (some 7) none (codes "SEARCH_TERM_SPIKE") Severity.medium
      (message (codes "earlier") [] []) (message (codes "earlier") [] []) none none

abbrev clicks_values : AlertValues Fixed
clicks_values =
    emission (some 8) (codes "campaign") (some 31) none (codes "ZERO_CLICKS") Severity.high
      (message (codes "earlier") [] []) (message (codes "earlier") [] []) none none

abbrev alert : AlertValues Fixed → AlertStatus → Alert Fixed
alert values status = record {
  dedupe_key = key_of values;
  values = values;
  status = status;
  first_seen_at = 1;
  last_seen_at = 1;
  resolved_at = none;
}

-- The spike of account 7 was dismissed; an alert of account 8 is open.
abbrev alerts : Table (Alert Fixed)
alerts = record {
  next_id = 3;
  rows =
      (1, alert spike_values AlertStatus.dismissed)
      ∷ (2, alert clicks_values AlertStatus.«open»)
      ∷ [];
}

alerts-IsTable : IsTable alerts
alerts-IsTable = record { unique = (refl, (refl, tt)); below = (omega arith, (omega arith, tt)) }

evaluate-StaysDismissed_example :
    StaysDismissed
      (alert spike_values AlertStatus.dismissed)
      (view (evaluate (default_alert Fixed) signals 9 (some 7) alerts).1 (key_of spike_values))
unfolding same_key
evaluate-StaysDismissed_example =
    evaluate-StaysDismissed (default_alert Fixed) signals 9 (some 7) alerts (key_of spike_values)
      (alert spike_values AlertStatus.dismissed) alerts-IsTable refl refl

-- The evaluation for account 7 resolves the alert of account 8.
evaluate_resolves_example :
    view (evaluate (default_alert Fixed) signals 9 (some 7) alerts).1 (key_of clicks_values)
    ≡ some (record (alert clicks_values AlertStatus.«open») {
      status = AlertStatus.resolved;
      resolved_at = some 9;
    })
unfolding same_key emitted_alerts search_term_alerts sync_alerts
evaluate_resolves_example =
    evaluate_resolves (default_alert Fixed) signals 9 (some 7) alerts (key_of clicks_values)
      (alert clicks_values AlertStatus.«open») alerts-IsTable refl refl refl refl
