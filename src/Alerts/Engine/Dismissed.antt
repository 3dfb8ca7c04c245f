-- ===== src/Alerts/Engine/Dismissed.antt =====
-- What an evaluation does to an alert, by its status before and by what is emitted.
use google_ads_intelligence.Base.{
  ℕ, ◌≡◌, refl, sym, subst, ap, ◌∙◌, true, false, Option, none, some, List, [], ◌∷◌, Bool-cases,
  inl, inr,
}
use google_ads_intelligence.Base.Eq.{◌=?◌, nat_eq, list_eq}
use google_ads_intelligence.Base.Dict.{Table}
use google_ads_intelligence.Base.Float.{FloatOps}
use google_ads_intelligence.Ops.Rules.{AlertRules}
use google_ads_intelligence.Alerts.Store.{
  Key, key_eq, AlertStatus, AlertValues, Alert, is_missing, refresh,
}
use google_ads_intelligence.Alerts.Rules.{managed_types, key_of}
use google_ads_intelligence.Alerts.Engine.{Signals, write_alerts, emitted_alerts, evaluate}
use google_ads_intelligence.Alerts.Refinement.{IsTable, view, emitted_all}
use google_ads_intelligence.Alerts.Engine.Resolve.{settled, map_alert, write_alerts-view}

module _ {F : Type 0} where
  -- What stays of an alert that was dismissed.
  abbrev pub StaysDismissed : Alert F → Option (Alert F) → Type 0
  StaysDismissed a none = true ≡ false
  StaysDismissed a (some b) =
      (b.status ≡ AlertStatus.dismissed)
      × ((b.values ≡ a.values)
          × ((b.resolved_at ≡ a.resolved_at) × (b.first_seen_at ≡ a.first_seen_at)))

  refresh-StaysDismissed :
      (v : AlertValues F) (now : ℕ) (a : Alert F)
      → a.status ≡ AlertStatus.dismissed
      → StaysDismissed a (some (refresh v now a))
  unfolding refresh
  refresh-StaysDismissed v now a h = rw h (refl, (refl, (refl, refl)))

  emitted_all-StaysDismissed :
      (now : ℕ) (k : Key) (vs : List (AlertValues F)) (a b : Alert F)
      → StaysDismissed a (some b)
      → StaysDismissed a (emitted_all now k vs (some b))
  emitted_all-StaysDismissed now k [] a b h = h
  emitted_all-StaysDismissed now k (v ∷ vs) a b h = elim (Bool-cases (key_of v =? k)) [
    | inl e ↦ rw e (
        let r = refresh-StaysDismissed v now b h.0 in
        emitted_all-StaysDismissed now k vs a (refresh v now b)
          (r.0, (r.1.0 ∙ h.1.0, (r.1.1.0 ∙ h.1.1.0, r.1.1.1 ∙ h.1.1.1))))
    | inr e ↦ rw e (emitted_all-StaysDismissed now k vs a b h)
  ]

  settled-StaysDismissed :
      (now : ℕ) (keys : List Key) (a : Alert F) (o : Option (Alert F))
      → StaysDismissed a o
      → StaysDismissed a (map_alert (settled now keys managed_types) o)
  settled-StaysDismissed now keys a none h = h
  settled-StaysDismissed now keys a (some b) h =
      let kept : is_missing keys managed_types b ≡ false = rw (h.0) refl in rw kept h

module _ {F : Type 0} ⦃fl : FloatOps F⦄ (rules : AlertRules F) (signals : Signals F) where
  -- An evaluation keeps an alert that was dismissed: it is still there under its key, still
  -- dismissed, with the values, the first time and the resolution time that it had. The conditions
  -- are that the table's primary keys are unique and below the next one, and that the alert was there,
  -- dismissed.
  pub evaluate-StaysDismissed :
      (now : ℕ) (account_id : Option ℕ) (t : Table (Alert F)) (k : Key) (a : Alert F)
      → IsTable t
      → view t k ≡ some a
      → a.status ≡ AlertStatus.dismissed
      → StaysDismissed a (view (evaluate rules signals now account_id t).1 k)
  unfolding evaluate
  evaluate-StaysDismissed now account_id t k a ht ha hs =
      let vs = emitted_alerts rules signals account_id in
      let w = write_alerts-view now vs t k ht in
      subst (StaysDismissed a)
        (sym (
          w.1
          ∙ ap
              (λ o.
                map_alert (settled now (write_alerts now vs t).0.0 managed_types)
                  (emitted_all now k vs o))
              ha))
        (settled-StaysDismissed now (write_alerts now vs t).0.0 a (emitted_all now k vs (some a))
          (emitted_all-StaysDismissed now k vs a a (hs, (refl, (refl, refl)))))
