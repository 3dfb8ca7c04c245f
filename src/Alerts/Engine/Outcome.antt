-- ===== src/Alerts/Engine/Outcome.antt =====
-- What an evaluation leaves open, and what it resolves.
use google_ads_intelligence.Base.{
  ℕ, ◌≡◌, refl, ap, ◌∙◌, true, false, Option, some, List, [], ◌∷◌, arith, Bool-cases, inl, inr,
  Option-cases,
}
use google_ads_intelligence.Base.Eq.{◌=?◌, nat_eq, list_eq, mem}
use google_ads_intelligence.Base.Index.{find_by_column}
use google_ads_intelligence.Base.Dict.{Table}
use google_ads_intelligence.Base.Float.{FloatOps}
use google_ads_intelligence.Ops.Rules.{AlertRules}
use google_ads_intelligence.Alerts.Store.{
  Key, key_eq, AlertStatus, AlertValues, Alert, find_alert, is_missing,
}
use google_ads_intelligence.Alerts.Rules.{managed_types, key_of}
use google_ads_intelligence.Alerts.Engine.{Signals, write_alerts, emitted_alerts, evaluate}
use google_ads_intelligence.Alerts.Refinement.{IsTable, alert_of, view, emitted_all}
use google_ads_intelligence.Alerts.Engine.Resolve.{
  settled, map_alert, write_alerts-view, mem-write_alerts, is_emitted,
}

module _ {F : Type 0} where
  emitted_all_none :
      (now : ℕ) (k : Key) (vs : List (AlertValues F)) (o : Option (Alert F))
      → is_emitted k vs ≡ false
      → emitted_all now k vs o ≡ o
  emitted_all_none now k [] o h = refl
  emitted_all_none now k (v ∷ vs) o h = elim (Bool-cases (key_of v =? k)) [
    | inl e ↦ ground (arith, key_eq.beq_iff (key_of v) k, key_eq.beq_iff k (key_of v))
    | inr e ↦ rw e (emitted_all_none now k vs o (ground arith))
  ]

  view_key : (t : Table (Alert F)) (k : Key) (a : Alert F) → view t k ≡ some a → a.dedupe_key ≡ k
  view_key t k a h = elim (Option-cases (find_alert k t.rows)) [
    | inl e ↦ ground (arith, ap alert_of e)
    | inr (x, e) ↦ ground (arith, find_by_column (λ a. a.dedupe_key) k t.rows x e, ap alert_of e)
  ]

module _ {F : Type 0} ⦃fl : FloatOps F⦄ (rules : AlertRules F) (signals : Signals F) where
  -- An open alert of a managed type for whose key the evaluation emits nothing is resolved, whatever
  -- account it is of and whatever account the evaluation is for. The conditions are that the table's
  -- primary keys are unique and below the next one, and that the alert was there, open, managed and
  -- not emitted.
  pub evaluate_resolves :
      (now : ℕ) (account_id : Option ℕ) (t : Table (Alert F)) (k : Key) (a : Alert F)
      → IsTable t
      → view t k ≡ some a
      → a.status ≡ AlertStatus.«open»
      → mem a.values.alert_type managed_types ≡ true
      → is_emitted k (emitted_alerts rules signals account_id) ≡ false
      → view (evaluate rules signals now account_id t).1 k
        ≡ some (record a { status = AlertStatus.resolved; resolved_at = some now })
  unfolding evaluate
  evaluate_resolves now account_id t k a ht ha hs hm he =
      let vs = emitted_alerts rules signals account_id in
      let keys = (write_alerts now vs t).0.0 in
      let missing : is_missing keys managed_types a ≡ true =
        rw (hs, hm, view_key t k a ha, mem-write_alerts now vs t k, he) refl in
      (write_alerts-view now vs t k ht).1
      ∙ ap (λ o. map_alert (settled now keys managed_types) (emitted_all now k vs o)) ha
      ∙ ap (map_alert (settled now keys managed_types)) (emitted_all_none now k vs (some a) he)
      ∙ rw missing refl
