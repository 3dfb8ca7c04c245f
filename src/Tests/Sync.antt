-- ===== src/Tests/Sync.antt =====
-- The sync engine and its store at concrete sessions and tables.
use google_ads_intelligence.Base.{
  ℕ, ◌+◌, ◌≡◌, refl, not, arith, none, List, [], ◌∷◌, ◌++◌, keep, if◌then◌else◌,
}
use google_ads_intelligence.Base.Eq.{nat_eq, list_eq, option_eq, pair_eq}
use google_ads_intelligence.Base.Dict.{Table}
use google_ads_intelligence.Base.Text.{codes}
use google_ads_intelligence.Sync.Log.{SyncType, SyncStatus, Entity, Db, Session, new_run}
use google_ads_intelligence.Sync.Engine.{
  StepResult, Step, Job, fresh_aggregate, run_entity, run_jobs,
}
use google_ads_intelligence.Sync.Engine.Isolation.{Ran, run_entity-Ran}
use google_ads_intelligence.Sync.Engine.Status.{
  run_jobs-Steps, run_jobs-status, world_after, outcomes, absorb_all, all_clean,
}
use google_ads_intelligence.Sync.Engine.Counts.{run_jobs-Counted, Counted}
use google_ads_intelligence.Sync.Window.{Columns, Value, Snapshot, in_window, replace_window}
use google_ads_intelligence.Sync.Window.Laws.{
  contents, contents-replace_window, replace_window_rerun,
}
use google_ads_intelligence.Sync.Dimension.{Dim, upsert}
use google_ads_intelligence.Sync.Dimension.Laws.{Upserted, upsert-Upserted}

abbrev pub ticks : ℕ → ℕ
ticks n = 1000 + n

-- A database with one log row, whose other tables are a number.
abbrev database : Db ℕ
database = record {
  logs = record {
    next_id = 2;
    rows = (1, new_run SyncType.hourly Entity.keywords (codes "77") 900) ∷ [];
  };
  world = record { account_rows = record { next_id = 1; rows = [] }; tables = 5 };
}

abbrev session : Session ℕ
session = record { committed = database; working = database; tick = 0 }

-- A step that writes and then raises, and steps that return.
abbrev raising : Step ℕ
raising log_id w = (StepResult.raised (codes "quota"), record w { tables = 99 })

abbrev clean : Step ℕ
clean log_id w = (StepResult.returned 3 1 0 none, record w { tables = w.tables + 1 })

abbrev lossy : Step ℕ
lossy log_id w = (StepResult.returned 2 0 4 none, record w { tables = w.tables + 10 })

abbrev job : Step ℕ → Job ℕ
job fn = record { entity = Entity.keywords; customer_id = codes "77"; fn = fn }

abbrev jobs : List (Job ℕ)
jobs = job clean ∷ job raising ∷ job lossy ∷ []

run_entity-Ran_example :
    Ran Entity.keywords
      (codes "77")
      (run_entity ticks SyncType.hourly Entity.keywords (codes "77") raising session).0
      session
      (run_entity ticks SyncType.hourly Entity.keywords (codes "77") raising session).1
      2
      (raising 2 session.working.world)
run_entity-Ran_example =
    run_entity-Ran ticks SyncType.hourly Entity.keywords (codes "77") raising session
      (omega arith, tt)

run_jobs-Steps_example :
    ((run_jobs ticks SyncType.hourly jobs fresh_aggregate session).1.working.world
      ≡ world_after 2 jobs session.working.world)
    × ((run_jobs ticks SyncType.hourly jobs fresh_aggregate session).0
        ≡ absorb_all fresh_aggregate (outcomes 2 jobs session.working.world))
run_jobs-Steps_example =
    run_jobs-Steps ticks SyncType.hourly jobs fresh_aggregate session (omega arith, tt)

-- The failed step's write is not there, the others' are.
run_three : (world_after 2 jobs session.working.world).tables ≡ 16
run_three = refl

run_jobs-status_example :
    (run_jobs ticks SyncType.hourly jobs fresh_aggregate session).0.status
    ≡ (if all_clean 2 jobs session.working.world then SyncStatus.success else SyncStatus.partial)
run_jobs-status_example = run_jobs-status ticks SyncType.hourly jobs session (omega arith, tt)

run_jobs-Counted_example :
    Counted fresh_aggregate
      (run_jobs ticks SyncType.hourly jobs fresh_aggregate session).0
      2
      jobs
      session.working.world
run_jobs-Counted_example = run_jobs-Counted ticks SyncType.hourly jobs session (omega arith, tt)

abbrev shot : ℕ → ℕ → ℕ → Snapshot ℕ
shot account log day = record {
  account_id = account;
  sync_log_id = log;
  snapshot_date = day;
  columns = [];
}

-- Two accounts' rows around the window 10 to 12.
abbrev pub snaps : Table (Snapshot ℕ)
snaps = record {
  next_id = 5;
  rows = (1, shot 7 1 9) ∷ (2, shot 7 1 10) ∷ (3, shot 8 1 11) ∷ (4, shot 7 1 12) ∷ [];
}

contents-replace_window_example :
    ((replace_window (shot 7 2 11 ∷ []) 7 10 12 snaps).0 ≡ 1)
    × (contents (replace_window (shot 7 2 11 ∷ []) 7 10 12 snaps).1.rows
        ≡ keep (λ x. not (in_window 7 10 12 x)) (contents snaps.rows) ++ shot 7 2 11 ∷ [])
contents-replace_window_example = contents-replace_window (shot 7 2 11 ∷ []) 7 10 12 snaps

replace_window_rerun_example :
    contents
      (replace_window
        (shot 7 3 12 ∷ [])
        7
        10
        12
        (replace_window (shot 7 2 11 ∷ shot 7 2 12 ∷ []) 7 10 12 snaps).1).1.rows
    ≡ contents (replace_window (shot 7 3 12 ∷ []) 7 10 12 snaps).1.rows
replace_window_rerun_example =
    replace_window_rerun (shot 7 2 11 ∷ shot 7 2 12 ∷ []) (shot 7 3 12 ∷ []) 7 10 12 snaps
      (refl, (refl, tt))

abbrev pub dims : Table (Dim ℕ ℕ)
dims = record {
  next_id = 3;
  rows =
      (1, record { scope = 7; key = 500; account_id = 7; columns = [] })
      ∷ (2, record { scope = 7; key = 501; account_id = 7; columns = [] })
      ∷ [];
}

abbrev pub paused : Columns ℕ
paused = (codes "status", Value.str (codes "PAUSED")) ∷ []

upsert-Upserted_example :
    Upserted 7 501 7 paused dims
      (upsert 7 501 7 paused dims).0.0
      (upsert 7 501 7 paused dims).0.1
      (upsert 7 501 7 paused dims).1
upsert-Upserted_example = upsert-Upserted 7 501 7 paused dims (refl, (refl, tt))
