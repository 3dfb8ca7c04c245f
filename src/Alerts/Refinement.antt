-- ===== src/Alerts/Refinement.antt =====
-- The alerts table as a map from dedupe keys to alerts, and what the writes of an evaluation do to
-- that map.
use google_ads_intelligence.Base.{
  ℕ, ◌+◌, ◌≡◌, refl, ap, ◌∙◌, true, Option, none, some, is_some, List, [], ◌∷◌, if◌then◌else◌,
  arith, Option-cases, inl, inr, if_ind,
}
use google_ads_intelligence.Base.{◌<◌, ==_iff, Bool-cases}
use google_ads_intelligence.Base.Eq.{◌=?◌, nat_eq, list_eq, option_eq, pair_eq}
use google_ads_intelligence.Base.Dict.{
  Dict, Table, lookup, HasUniqueKeys, AllBelow, add_row-HasUniqueKeys, AllBelow-append_new,
  AllBelow-insert, insert-HasUniqueKeys,
}
use google_ads_intelligence.Base.Index.{
  find_by-append, find_by_column, find_by_is_row, find_by-insert,
}
use google_ads_intelligence.Alerts.Store.{
  key_eq, Key, AlertValues, Alert, find_alert, new_alert, refresh, is_dismissed, upsert_by_dedupe,
}
use google_ads_intelligence.Alerts.Rules.{key_of}
use google_ads_intelligence.Alerts.Engine.{emit_all, add_key}

module _ {F : Type 0} where
  -- Primary keys are unique, and below the next one.
  pub record IsTable (t : Table (Alert F)) : Type 0 where
    pub unique : HasUniqueKeys t.rows
    pub below : AllBelow t.next_id t.rows

  abbrev pub alert_of : Option (ℕ × Alert F) → Option (Alert F)
  alert_of none = none
  alert_of (some x) = some x.1

  -- The alert with a dedupe key.
  abbrev pub view : Table (Alert F) → Key → Option (Alert F)
  view t k = alert_of (find_alert k t.rows)

  -- What an emission makes of the alert with its key.
  abbrev pub emitted : ℕ → Key → AlertValues F → Option (Alert F) → Alert F
  emitted now key v none = new_alert key v now
  emitted now key v (some a) = refresh v now a

  refresh_key :
      (v : AlertValues F) (now : ℕ) (a : Alert F) → (refresh v now a).dedupe_key ≡ a.dedupe_key
  unfolding refresh
  refresh_key v now a =
      if_ind (λ (b : Alert F). b.dedupe_key ≡ a.dedupe_key) (is_dismissed a.status) refl refl

  view_if :
      (k key : Key) (x : ℕ × Alert F) (o : Option (ℕ × Alert F))
      → alert_of (if key =? k then some x else o) ≡ (if key =? k then some x.1 else alert_of o)
  view_if k key x o = ground arith

  -- Where the keys agree, the alert of the one is the alert of the other.
  emitted_key :
      (now : ℕ) (k : Key) (v : AlertValues F) (t : Table (Alert F))
      → (if key_of v =? k then some (emitted now (key_of v) v (view t (key_of v))) else view t k)
        ≡ (if key_of v =? k then some (emitted now k v (view t k)) else view t k)
  emitted_key now k v t = elim (Bool-cases (key_of v =? k)) [
    | inl e ↦
        ap (λ j. if key_of v =? k then some (emitted now j v (view t j)) else view t k)
          ((key_eq.beq_iff (key_of v) k).0 e)
    | inr e ↦ rw e refl
  ]

  upsert_by_dedupe-view :
      (now : ℕ) (key : Key) (v : AlertValues F) (t : Table (Alert F)) (k : Key)
      → IsTable t
      → view (upsert_by_dedupe now key v t).1 k
        ≡ (if key =? k then some (emitted now key v (view t key)) else view t k)
  unfolding upsert_by_dedupe
  upsert_by_dedupe-view now key v t k h = elim (Option-cases (find_alert key t.rows)) [
    | inl e ↦
        rw (e, upsert_by_dedupe)
          (ap alert_of (
              find_by-append (λ a. a.dedupe_key) k key t.rows (t.next_id, new_alert key v now) e
                refl)
            ∙ view_if k key (t.next_id, new_alert key v now) (find_alert k t.rows))
    | inr (x, e) ↦
        rw (e, upsert_by_dedupe)
          (ap alert_of (
              find_by-insert (λ a. a.dedupe_key) k key t.rows x (refresh v now x.1) h.unique e
                (refresh_key v now x.1 ∙ find_by_column (λ a. a.dedupe_key) key t.rows x e))
            ∙ view_if k key (x.0, refresh v now x.1) (find_alert k t.rows))
  ]

  lookup_below :
      (n k : ℕ) (d : Dict ℕ (Alert F)) → AllBelow n d → is_some (lookup k d) ≡ true → k < n
  lookup_below n k [] h e = cc
  lookup_below n k (x ∷ d) h e = ground (arith, ==_iff k x.0, h.0, lookup_below n k d h.1)

  upsert_by_dedupe-IsTable :
      (now : ℕ) (key : Key) (v : AlertValues F) (t : Table (Alert F))
      → IsTable t
      → IsTable (upsert_by_dedupe now key v t).1
  unfolding upsert_by_dedupe
  upsert_by_dedupe-IsTable now key v t h = elim (Option-cases (find_alert key t.rows)) [
    | inl e ↦
        rw (e, upsert_by_dedupe)
          record {
            unique = add_row-HasUniqueKeys t.next_id (new_alert key v now) t.rows h.below h.unique;
            below = AllBelow-append_new t.next_id (new_alert key v now) t.rows h.below;
          }
    | inr (x, e) ↦
        rw (e, upsert_by_dedupe)
          record {
            unique = insert-HasUniqueKeys x.0 (refresh v now x.1) t.rows h.unique;
            below =
                AllBelow-insert t.next_id x.0 (refresh v now x.1) t.rows
                  (lookup_below t.next_id x.0 t.rows h.below
                    (find_by_is_row (λ a. a.dedupe_key) key t.rows x e))
                  h.below;
          }
  ]

  -- The emissions with a key, applied in turn to the alert that has it.
  abbrev pub emitted_all : ℕ → Key → List (AlertValues F) → Option (Alert F) → Option (Alert F)
  emitted_all now k [] o = o
  emitted_all now k (v ∷ vs) o =
      emitted_all now k vs (if key_of v =? k then some (emitted now k v o) else o)

  pub emit_all-view :
      (now : ℕ) (vs : List (AlertValues F)) (keys : List Key) (created : ℕ) (t : Table (Alert F))
      (k : Key)
      → IsTable t
      → (let r = emit_all now vs keys created t in
          IsTable r.1 × (view r.1 k ≡ emitted_all now k vs (view t k)))
  unfolding emit_all
  emit_all-view now [] keys created t k h = (h, refl)
  emit_all-view now (v ∷ vs) keys created t k h =
      let u = upsert_by_dedupe now (key_of v) v t in
      let rest =
        emit_all-view now vs (add_key (key_of v) keys) (created + (if u.0 then 1 else 0)) u.1 k
          (upsert_by_dedupe-IsTable now (key_of v) v t h) in
      (
        rest.0,
        rest.1
            ∙ ap (emitted_all now k vs)
                (upsert_by_dedupe-view now (key_of v) v t k h ∙ emitted_key now k v t),
      )
