-- ===== src/Sync/Engine.antt =====
-- app/services/sync_service.py: the run of one entity step in its own transaction, the aggregate of
-- a run, and the entry points `run` and `backfill`. What a step does to the tables is an argument,
-- `perform`; app/google_ads is behind it.
pub mod Isolation
pub mod Status
pub mod Counts
use google_ads_intelligence.Base.{
  ℕ, ◌+◌, ◌-◌, Bool, true, false, not, ◌&&◌, ◌||◌, Option, none, some, is_some, List, [], ◌∷◌, ◌++◌,
  map, take, ◌==◌, if◌then◌else◌, keep, find_first,
}
use google_ads_intelligence.Base.Int.{ℤ, sub_ℕ}
use google_ads_intelligence.Base.Eq.{◌=?◌, list_eq, nat_eq}
use google_ads_intelligence.Base.Dict.{Dict, Table, get_row, set_row, add_row}
use google_ads_intelligence.Base.Text.{Text, strip, remove_code, codes, or_text}
use google_ads_intelligence.Sync.Log.{
  SyncType, SyncStatus, Entity, Details, SyncLog, Account, World, Db, Session, commit, rollback,
  set_logs, set_world, create_run,
}

-- EntityOutcome
pub record EntityOutcome : Type 0 where
  pub entity : Entity
  pub customer_id : Text
  pub status : SyncStatus
  pub inserted : ℕ
  pub updated : ℕ
  pub failed : ℕ
  pub log_id : Option ℕ
  pub error : Option Text

-- The line "entity/customer: error" of the run's errors.
pub record ErrorLine : Type 0 where
  pub entity : Entity
  pub customer_id : Text
  pub error : Text

-- _Aggregate
pub record Aggregate : Type 0 where
  pub inserted : ℕ
  pub updated : ℕ
  pub failed : ℕ
  pub log_ids : List ℕ
  pub errors : List ErrorLine
  pub status : SyncStatus

abbrev pub fresh_aggregate : Aggregate
fresh_aggregate = record {
  inserted = 0;
  updated = 0;
  failed = 0;
  log_ids = [];
  errors = [];
  status = SyncStatus.success;
}

-- The status that the aggregate has after an outcome.
unfoldable pub absorb_status : SyncStatus → SyncStatus → SyncStatus
absorb_status SyncStatus.failed SyncStatus.failed = SyncStatus.failed
absorb_status _ SyncStatus.failed = SyncStatus.partial
absorb_status SyncStatus.success SyncStatus.partial = SyncStatus.partial
absorb_status status _ = status

-- `if o.error`: an empty message is dropped too.
abbrev pub error_line : EntityOutcome → List ErrorLine
error_line o = elim o.error [
  | none ↦ []
  | some [] ↦ []
  | some (c ∷ s) ↦ record { entity = o.entity; customer_id = o.customer_id; error = c ∷ s } ∷ []
]

-- _Aggregate.absorb
unfoldable pub absorb : Aggregate → EntityOutcome → Aggregate
absorb agg o = record {
  inserted = agg.inserted + o.inserted;
  updated = agg.updated + o.updated;
  failed = agg.failed + o.failed;
  log_ids = elim o.log_id [ none ↦ agg.log_ids | some i ↦ agg.log_ids ++ i ∷ [] ];
  errors = agg.errors ++ error_line o;
  status = absorb_status agg.status o.status;
}

-- `"success" if failed == 0 else "partial"`
unfoldable pub completed_status : ℕ → SyncStatus
completed_status failed = if failed == 0 then SyncStatus.success else SyncStatus.partial

abbrev pub completed_outcome : Entity → Text → ℕ → (inserted updated failed : ℕ) → EntityOutcome
completed_outcome entity customer_id log_id inserted updated failed = record {
  entity = entity;
  customer_id = customer_id;
  status = completed_status failed;
  inserted = inserted;
  updated = updated;
  failed = failed;
  log_id = some log_id;
  error = none;
}

abbrev pub failed_outcome : Entity → Text → ℕ → Text → EntityOutcome
failed_outcome entity customer_id log_id message = record {
  entity = entity;
  customer_id = customer_id;
  status = SyncStatus.failed;
  inserted = 0;
  updated = 0;
  failed = 0;
  log_id = some log_id;
  error = some message;
}

abbrev pub completed_log :
    (inserted updated failed : ℕ) → Option Details → ℕ → ℤ → SyncLog → SyncLog
completed_log inserted updated failed details finished duration log = record log {
  status = completed_status failed;
  rows_inserted = inserted;
  rows_updated = updated;
  rows_failed = failed;
  finished_at = some finished;
  duration_ms = some duration;
  details = details;
}

abbrev pub failed_log : Text → ℕ → ℤ → SyncLog → SyncLog
failed_log message finished duration log = record log {
  status = SyncStatus.failed;
  error_message = some (take 2000 message);
  finished_at = some finished;
  duration_ms = some duration;
}

-- What a step returns, or the exception that it raises.
pub data StepResult : Type 0 where
  returned : (inserted updated failed : ℕ) → Option Details → StepResult
  raised : (message : Text) → StepResult

abbrev pub Step : Type 0 → Type 0
Step D = ℕ → World D → StepResult × World D

-- A named step for an account.
pub record Job (D : Type 0) : Type 0 where
  pub entity : Entity
  pub customer_id : Text
  pub fn : Step D

module _ {D : Type 0} (clock : ℕ → ℕ) where
  abbrev pub read_clock : Session D → ℕ × Session D
  read_clock s = (clock s.tick, record s { tick = s.tick + 1 })

  -- The `except` branch of `_run_entity`.
  unfoldable pub fail_entity : Entity → Text → ℕ → ℕ → Text → Session D → EntityOutcome × Session D
  fail_entity entity customer_id started log_id message s =
      let back = rollback s in
      elim (get_row back.working.logs log_id) [
        | none ↦ (failed_outcome entity customer_id log_id message, back)
        | some log ↦
            let (finished, s1) = read_clock back in
            let (measured, s2) = read_clock s1 in
            let log' = failed_log message finished (sub_ℕ measured started) log in
            (
              failed_outcome entity customer_id log_id message,
              commit (set_logs (set_row log_id log' s2.working.logs) s2),
            )
      ]

  -- What follows a step that has returned. The assertion on the record raises an empty message.
  unfoldable pub complete_entity :
      Entity
      → Text
      → ℕ
      → ℕ
      → (inserted updated failed : ℕ) → Option Details
      → Session D
      → EntityOutcome × Session D
  complete_entity entity customer_id started log_id inserted updated failed details s =
      elim (get_row s.working.logs log_id) [
        | none ↦ fail_entity entity customer_id started log_id [] s
        | some log ↦
            let (finished, s1) = read_clock s in
            let log' =
              completed_log inserted updated failed details finished (sub_ℕ finished started) log in
            (
              completed_outcome entity customer_id log_id inserted updated failed,
              commit (set_logs (set_row log_id log' s1.working.logs) s1),
            )
      ]

  -- The `try` statement of `_run_entity`, by what the step did.
  unfoldable pub end_entity :
      Entity → Text → ℕ → ℕ → StepResult × World D → Session D → EntityOutcome × Session D
  end_entity entity customer_id started log_id (returned ins upd bad details, world) s =
      complete_entity entity customer_id started log_id ins upd bad details (set_world world s)
  end_entity entity customer_id started log_id (raised message, world) s =
      fail_entity entity customer_id started log_id message (set_world world s)

  -- SyncService._run_entity
  unfoldable pub run_entity :
      SyncType → Entity → Text → Step D → Session D → EntityOutcome × Session D
  run_entity sync_type entity customer_id fn s =
      let (started, s0) = read_clock s in
      let log_id = s0.working.logs.next_id in
      let s1 =
        commit (set_logs (create_run sync_type entity customer_id started s0.working.logs) s0) in
      end_entity entity customer_id started log_id (fn log_id s1.working.world) s1

  -- `agg.absorb(self._run_entity(...))` for each step in turn.
  unfoldable pub run_jobs : SyncType → List (Job D) → Aggregate → Session D → Aggregate × Session D
  run_jobs sync_type [] agg s = (agg, s)
  run_jobs sync_type (j ∷ jobs) agg s =
      let (o, s') = run_entity sync_type j.entity j.customer_id j.fn s in
      run_jobs sync_type jobs (absorb agg o) s'
