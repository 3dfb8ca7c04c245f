-- ===== src/Sync/Log.antt =====
-- app/models/sync_log.py, app/models/account.py and app/repositories/sync_log.py: the execution
-- records of the sync engine, and the database session that it works in.
use google_ads_intelligence.Base.{ℕ, ◌+◌, Bool, Option, none, some}
use google_ads_intelligence.Base.Int.{ℤ}
use google_ads_intelligence.Base.Dict.{
  Table, add_row, get_row, AllBelow, lookup-append_new, AllBelow-append_new,
}
use google_ads_intelligence.Base.Eq.{nat_eq}
use google_ads_intelligence.Base.{◌≡◌, refl, ◌==◌, if◌then◌else◌}
use google_ads_intelligence.Base.Text.{Text}

-- SyncType
pub data SyncType : Type 0 where
  hourly daily manual backfill : SyncType

-- SyncStatus
pub data SyncStatus : Type 0 where
  running success partial failed : SyncStatus

-- The entities that a sync may target, and the names of the steps that it runs.
pub data Entity : Type 0 where
  all accounts budgets campaigns ad_groups keywords ads search_terms recommendations : Entity
  budget_snapshots campaign_snapshots campaign_device_snapshots campaign_geo_snapshots : Entity
  ad_group_snapshots keyword_snapshots ad_snapshots : Entity

-- The dict of details that a step returns: `{"fetched": n}` or `{"accounts": n}`.
pub data Details : Type 0 where
  fetched accounts_seen : ℕ → Details

-- Times are in milliseconds.
pub record SyncLog : Type 0 where
  pub sync_type : SyncType
  pub entity : Entity
  pub customer_id : Text
  pub status : SyncStatus
  pub started_at : ℕ
  pub finished_at : Option ℕ
  pub duration_ms : Option ℤ
  pub rows_inserted : ℕ
  pub rows_updated : ℕ
  pub rows_failed : ℕ
  pub attempt : ℕ
  pub error_message : Option Text
  pub details : Option Details

-- The columns of an account that the engine reads.
pub record Account : Type 0 where
  pub customer_id : Text
  pub is_manager : Bool
  pub is_syncable : Bool

-- The tables that the steps read and write: the accounts, and all others together.
pub record World (D : Type 0) : Type 0 where
  pub account_rows : Table Account
  pub tables : D

pub record Db (D : Type 0) : Type 0 where
  pub logs : Table SyncLog
  pub world : World D

-- A session: what is committed, what the open transaction sees, and how often the clock was read.
pub record Session (D : Type 0) : Type 0 where
  pub committed : Db D
  pub working : Db D
  pub tick : ℕ

module _ {D : Type 0} where
  abbrev pub commit : Session D → Session D
  commit s = record s { committed = s.working }

  abbrev pub rollback : Session D → Session D
  rollback s = record s { working = s.committed }

  abbrev pub set_logs : Table SyncLog → Session D → Session D
  set_logs logs s = record s { working = record { logs = logs; world = s.working.world } }

  abbrev pub set_world : World D → Session D → Session D
  set_world world s = record s { working = record { logs = s.working.logs; world = world } }

-- The row of a step that starts.
abbrev pub new_run : SyncType → Entity → Text → ℕ → SyncLog
new_run sync_type entity customer_id started_at = record {
  sync_type = sync_type;
  entity = entity;
  customer_id = customer_id;
  status = SyncStatus.running;
  started_at = started_at;
  finished_at = none;
  duration_ms = none;
  rows_inserted = 0;
  rows_updated = 0;
  rows_failed = 0;
  attempt = 1;
  error_message = none;
  details = none;
}

-- `SyncLogRepository.create_run`
unfoldable pub create_run : SyncType → Entity → Text → ℕ → Table SyncLog → Table SyncLog
create_run sync_type entity customer_id started_at logs =
    add_row (new_run sync_type entity customer_id started_at) logs

pub get_row-create_run :
    (sync_type : SyncType) (entity : Entity) (customer_id : Text) (started_at : ℕ)
    (logs : Table SyncLog) (k : ℕ)
    → AllBelow logs.next_id logs.rows
    → get_row (create_run sync_type entity customer_id started_at logs) k ≡ (
        if k == logs.next_id
        then some (new_run sync_type entity customer_id started_at)
        else get_row logs k)
unfolding create_run
get_row-create_run sync_type entity customer_id started_at logs k h =
    lookup-append_new logs.next_id _ k logs.rows h

pub create_run-next :
    (sync_type : SyncType) (entity : Entity) (customer_id : Text) (started_at : ℕ)
    (logs : Table SyncLog)
    → (create_run sync_type entity customer_id started_at logs).next_id ≡ logs.next_id + 1
unfolding create_run
create_run-next sync_type entity customer_id started_at logs = refl

pub create_run-AllBelow :
    (sync_type : SyncType) (entity : Entity) (customer_id : Text) (started_at : ℕ)
    (logs : Table SyncLog)
    → AllBelow logs.next_id logs.rows
    → AllBelow (logs.next_id + 1) (create_run sync_type entity customer_id started_at logs).rows
unfolding create_run
create_run-AllBelow sync_type entity customer_id started_at logs h =
    AllBelow-append_new logs.next_id _ logs.rows h
