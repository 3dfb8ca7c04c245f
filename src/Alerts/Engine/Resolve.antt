-- ===== src/Alerts/Engine/Resolve.antt =====
-- `auto_resolve_missing` and `evaluate` on the map from dedupe keys to alerts.
use google_ads_intelligence.Base.{
  ℕ, ◌+◌, ◌≡◌, refl, sym, subst, ap, ◌∙◌, Bool, false, ◌||◌, Option, none, some, List, [], ◌∷◌,
  if◌then◌else◌, arith, Bool-cases, inl, inr, if_ind,
}
use google_ads_intelligence.Base.Eq.{◌=?◌, nat_eq, list_eq, mem}
use google_ads_intelligence.Base.Dict.{
  Dict, Table, HasUniqueKeys, AllBelow, map_rows, lookup-map_rows,
}
use google_ads_intelligence.Base.Text.{Text}
use google_ads_intelligence.Alerts.Store.{
  Key, key_eq, AlertStatus, AlertValues, Alert, find_alert, is_missing, resolve_rows,
  upsert_by_dedupe,
}
use google_ads_intelligence.Alerts.Rules.{managed_types, key_of}
use google_ads_intelligence.Alerts.Engine.{emit_all, add_key, write_alerts}
use google_ads_intelligence.Alerts.Refinement.{IsTable, alert_of, view, emitted_all, emit_all-view}

mem-add_key : (k j : Key) (keys : List Key) → mem k (add_key j keys) ≡ ((k =? j) || mem k keys)
unfolding add_key
mem-add_key k j keys = ground (arith, key_eq.beq_iff k j)

module _ {F : Type 0} where
  -- What the resolution makes of an alert.
  abbrev pub settled : ℕ → List Key → List Text → Alert F → Alert F
  settled now keys types a =
      if is_missing keys types a
      then record a { status = AlertStatus.resolved; resolved_at = some now }
      else a

  resolve_rows_eq :
      (now : ℕ) (keys : List Key) (types : List Text) (d : Dict ℕ (Alert F))
      → (resolve_rows now keys types d).1 ≡ map_rows (settled now keys types) d
  unfolding resolve_rows
  resolve_rows_eq now keys types [] = refl
  resolve_rows_eq now keys types ((k, a) ∷ d) = elim (Bool-cases (is_missing keys types a)) [
    | inl e ↦ rw e (
        ap (λ l. (k, record a { status = AlertStatus.resolved; resolved_at = some now }) ∷ l)
          (resolve_rows_eq now keys types d))
    | inr e ↦ rw e (ap (λ l. (k, a) ∷ l) (resolve_rows_eq now keys types d))
  ]

  settled_key :
      (now : ℕ) (keys : List Key) (types : List Text) (a : Alert F)
      → (settled now keys types a).dedupe_key ≡ a.dedupe_key
  settled_key now keys types a =
      if_ind (λ (b : Alert F). b.dedupe_key ≡ a.dedupe_key) (is_missing keys types a) refl refl

  abbrev pub map_alert : (Alert F → Alert F) → Option (Alert F) → Option (Alert F)
  map_alert f none = none
  map_alert f (some a) = some (f a)

  map_rows-view :
      (f : Alert F → Alert F) (k : Key) (d : Dict ℕ (Alert F))
      → ((a : Alert F) → (f a).dedupe_key ≡ a.dedupe_key)
      → alert_of (find_alert k (map_rows f d)) ≡ map_alert f (alert_of (find_alert k d))
  map_rows-view f k [] h = refl
  map_rows-view f k ((i, a) ∷ d) h = elim (Bool-cases (a.dedupe_key =? k)) [
    | inl e ↦ rw (ap (λ j. j =? k) (h a) ∙ e, e) refl
    | inr e ↦ rw (ap (λ j. j =? k) (h a) ∙ e, e) (map_rows-view f k d h)
  ]

  map_rows-HasUniqueKeys :
      (f : Alert F → Alert F) (d : Dict ℕ (Alert F))
      → HasUniqueKeys d
      → HasUniqueKeys (map_rows f d)
  map_rows-HasUniqueKeys f [] h = tt
  map_rows-HasUniqueKeys f ((i, a) ∷ d) h =
      (ground (arith, lookup-map_rows f i d, h.0), map_rows-HasUniqueKeys f d h.1)

  map_rows-AllBelow :
      (f : Alert F → Alert F) (n : ℕ) (d : Dict ℕ (Alert F))
      → AllBelow n d
      → AllBelow n (map_rows f d)
  map_rows-AllBelow f n [] h = tt
  map_rows-AllBelow f n ((i, a) ∷ d) h = (h.0, map_rows-AllBelow f n d h.1)

  -- The writes of an evaluation on the alert with key k.
  pub write_alerts-view :
      (now : ℕ) (vs : List (AlertValues F)) (t : Table (Alert F)) (k : Key)
      → IsTable t
      → (let r = write_alerts now vs t in
          IsTable r.1
          × (view r.1 k
              ≡ map_alert (settled now r.0.0 managed_types) (emitted_all now k vs (view t k))))
  unfolding write_alerts
  write_alerts-view now vs t k h =
      let e = emit_all now vs [] 0 t in
      let v = emit_all-view now vs [] 0 t k h in
      let f : Alert F → Alert F = settled now e.0.0 managed_types in
      let eq = resolve_rows_eq now e.0.0 managed_types e.1.rows in
      (
        record {
          unique = subst HasUniqueKeys (sym eq) (map_rows-HasUniqueKeys f e.1.rows v.0.unique);
          below =
              subst (AllBelow e.1.next_id) (sym eq)
                (map_rows-AllBelow f e.1.next_id e.1.rows v.0.below);
        },
        ap (λ d. alert_of (find_alert k d)) eq
            ∙ map_rows-view f k e.1.rows (settled_key now e.0.0 managed_types)
            ∙ ap (map_alert f) v.1,
      )

  -- Whether something with the key was emitted.
  abbrev pub is_emitted : Key → List (AlertValues F) → Bool
  is_emitted k [] = false
  is_emitted k (v ∷ vs) = (k =? key_of v) || is_emitted k vs

  mem-emit_all :
      (now : ℕ) (vs : List (AlertValues F)) (keys : List Key) (created : ℕ) (t : Table (Alert F))
      (k : Key)
      → mem k (emit_all now vs keys created t).0.0 ≡ (mem k keys || is_emitted k vs)
  unfolding emit_all
  mem-emit_all now [] keys created t k = ground arith
  mem-emit_all now (v ∷ vs) keys created t k =
      let u = upsert_by_dedupe now (key_of v) v t in
      ground (
        arith,
        mem-emit_all now vs (add_key (key_of v) keys) (created + (if u.0 then 1 else 0)) u.1 k,
        mem-add_key k (key_of v) keys,
      )

  pub mem-write_alerts :
      (now : ℕ) (vs : List (AlertValues F)) (t : Table (Alert F)) (k : Key)
      → mem k (write_alerts now vs t).0.0 ≡ is_emitted k vs
  unfolding write_alerts
  mem-write_alerts now vs t k = mem-emit_all now vs [] 0 t k
