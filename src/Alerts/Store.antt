-- ===== src/Alerts/Store.antt =====
-- app/models/alert.py and app/repositories/alert.py: the alerts table, the upsert by dedupe key, the
-- resolution of alerts whose condition no longer holds, and the change of a status.
use google_ads_intelligence.Base.{
  ℕ, ◌+◌, ◌≡◌, ◌↔◌, ap, Bool, true, false, not, ◌&&◌, Option, none, some, List, [], ◌∷◌,
  if◌then◌else◌,
}
use google_ads_intelligence.Base.Eq.{
  Eq, pair_beq_iff, ◌=?◌, nat_eq, list_eq, option_eq, pair_eq, mem,
}
use google_ads_intelligence.Base.Dict.{Dict, Table, get_row, add_row, set_row}
use google_ads_intelligence.Base.Index.{find_by}
use google_ads_intelligence.Base.Text.{Text}
use google_ads_intelligence.Ops.Scoring.{Severity}

-- AlertStatus
pub data AlertStatus : Type 0 where
  «open» resolved dismissed : AlertStatus

abbrev pub is_open : AlertStatus → Bool
is_open «open» = true
is_open _ = false

abbrev pub is_dismissed : AlertStatus → Bool
is_dismissed dismissed = true
is_dismissed _ = false

abbrev pub is_resolved : AlertStatus → Bool
is_resolved resolved = true
is_resolved _ = false

-- The dedupe key "account|entity_type|entity_id|alert_type": no part holds a bar, so the parts
-- are the key.
pub record Key : Type 0 where
  pub account : Option ℕ
  pub entity_type : Text
  pub entity_id : Option ℕ
  pub alert_type : Text

abbrev key_parts : Key → Option ℕ × (Text × (Option ℕ × Text))
key_parts k = (k.account, (k.entity_type, (k.entity_id, k.alert_type)))

unfoldable pub same_key : Key → Key → Bool
same_key k j = key_parts k =? key_parts j

pub same_key_iff : (k j : Key) → (same_key k j ≡ true) ↔ (k ≡ j)
unfolding same_key
same_key_iff k j =
    let parts = pair_beq_iff (key_parts k) (key_parts j) in
    (
      λ h.
          ap
            (λ x.
              let key : Key = record {
                account = x.0;
                entity_type = x.1.0;
                entity_id = x.1.1.0;
                alert_type = x.1.1.1;
              } in
              key)
            (parts.0 h),
      λ h. parts.1 (ap key_parts h),
    )

instance abbrev pub key_eq : Eq Key
key_eq = record { beq = same_key; beq_iff = same_key_iff }

-- A formatted string: its template, and the values that fill it.
pub record Message (F : Type 0) : Type 0 where
  pub template : Text
  pub numbers : List F
  pub names : List (Option Text)

-- The values that an evaluation writes.
pub record AlertValues (F : Type 0) : Type 0 where
  pub account_id : Option ℕ
  pub entity_type : Text
  pub entity_id : Option ℕ
  pub entity_name : Option Text
  pub alert_type : Text
  pub severity : Severity
  pub title : Message F
  pub description : Message F
  pub suggested_action : Option Text
  pub metric_value : Option F
  pub threshold_value : Option F

-- Alert
pub record Alert (F : Type 0) : Type 0 where
  pub dedupe_key : Key
  pub values : AlertValues F
  pub status : AlertStatus
  pub first_seen_at : ℕ
  pub last_seen_at : ℕ
  pub resolved_at : Option ℕ

module _ {F : Type 0} where
  -- `get_by(dedupe_key=...)`
  abbrev pub find_alert : Key → Dict ℕ (Alert F) → Option (ℕ × Alert F)
  find_alert key d = find_by (λ a. a.dedupe_key) key d

  abbrev pub new_alert : Key → AlertValues F → ℕ → Alert F
  new_alert key values now = record {
    dedupe_key = key;
    values = values;
    status = AlertStatus.«open»;
    first_seen_at = now;
    last_seen_at = now;
    resolved_at = none;
  }

  -- The changes to an alert that is there.
  unfoldable pub refresh : AlertValues F → ℕ → Alert F → Alert F
  refresh values now existing =
      if is_dismissed existing.status
      then record existing { last_seen_at = now }
      else record existing {
        last_seen_at = now;
        status = AlertStatus.«open»;
        resolved_at = none;
        values = values;
      }

  -- AlertRepository.upsert_by_dedupe: whether it created, and the table.
  unfoldable pub upsert_by_dedupe :
      ℕ → Key → AlertValues F → Table (Alert F) → Bool × Table (Alert F)
  upsert_by_dedupe now key values t = elim (find_alert key t.rows) [
    | none ↦ (true, add_row (new_alert key values now) t)
    | some x ↦ (false, set_row x.0 (refresh values now x.1) t)
  ]

  -- The condition of `auto_resolve_missing` on a row.
  abbrev pub is_missing : List Key → List Text → Alert F → Bool
  is_missing active_keys alert_types a =
      is_open a.status
      && (mem a.values.alert_type alert_types && not (mem a.dedupe_key active_keys))

  -- AlertRepository.auto_resolve_missing, row by row.
  unfoldable pub resolve_rows : ℕ → List Key → List Text → Dict ℕ (Alert F) → ℕ × Dict ℕ (Alert F)
  resolve_rows now active_keys alert_types [] = (0, [])
  resolve_rows now active_keys alert_types ((k, a) ∷ d) =
      let (n, rest) = resolve_rows now active_keys alert_types d in
      if is_missing active_keys alert_types a
      then (n + 1, (k, record a { status = AlertStatus.resolved; resolved_at = some now }) ∷ rest)
      else (n, (k, a) ∷ rest)

  -- AlertRepository.set_status
  unfoldable pub set_status :
      ℕ → ℕ → AlertStatus → Table (Alert F) → Option (Alert F) × Table (Alert F)
  set_status now alert_id status t = elim (get_row t alert_id) [
    | none ↦ (none, t)
    | some alert ↦
        let alert' : Alert F = record alert {
          status = status;
          resolved_at = if is_resolved status then some now else none;
        } in
        (some alert', set_row alert_id alert' t)
  ]
