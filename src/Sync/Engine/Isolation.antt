-- ===== src/Sync/Engine/Isolation.antt =====
-- `_run_entity`: a step that raises leaves no trace in the tables, and a step's log says how it ended.
use google_ads_intelligence.Base.{
  ℕ, ◌+◌, ◌==◌, ◌≡◌, refl, sym, subst, ap, ◌∙◌, false, Option, none, some, arith, if◌then◌else◌,
}
use google_ads_intelligence.Base.Int.{sub_ℕ}
use google_ads_intelligence.Base.Eq.{nat_eq, beq_refl}
use google_ads_intelligence.Base.Dict.{
  get_row, AllBelow, AllBelow-insert, lookup-insert_self, lookup-insert_ne, set_row,
}
use google_ads_intelligence.Base.Text.{Text}
use google_ads_intelligence.Sync.Log.{
  SyncType, SyncStatus, Entity, Details, SyncLog, World, Session, commit, set_logs, set_world,
  create_run, new_run, get_row-create_run, create_run-next, create_run-AllBelow,
}
use google_ads_intelligence.Sync.Engine.{
  EntityOutcome, StepResult, returned, raised, Step, completed_outcome, failed_outcome,
  completed_log, failed_log, fail_entity, complete_entity, end_entity, run_entity,
}

-- The outcome of a step, by what it returned.
abbrev pub outcome_of : Entity → Text → ℕ → StepResult → EntityOutcome
outcome_of entity customer_id log_id (returned inserted updated failed details) =
    completed_outcome entity customer_id log_id inserted updated failed
outcome_of entity customer_id log_id (raised message) =
    failed_outcome entity customer_id log_id message

-- The tables after a step: its own where it returned, those before it where it raised.
abbrev pub world_of : {D : Type 0} → World D → StepResult × World D → World D
world_of before (returned _ _ _ _, after) = after
world_of before (raised _, after) = before

-- The columns of a log row that say how its step ended.
abbrev pub log_summary : Option SyncLog → Option (SyncStatus × (ℕ × (ℕ × ℕ)))
log_summary none = none
log_summary (some log) = some (log.status, (log.rows_inserted, (log.rows_updated, log.rows_failed)))

-- What a run of a step promises: `log_id` is the row that it adds, `r` is what the step did.
pub record Ran {D : Type 0} (entity : Entity) (customer_id : Text) (o : EntityOutcome)
    (before after : Session D) (log_id : ℕ) (r : StepResult × World D) : Type 0 where
  pub durable : after.committed ≡ after.working
  pub outcome : o ≡ outcome_of entity customer_id log_id r.0
  pub next : after.working.logs.next_id ≡ log_id + 1
  pub fresh : AllBelow (log_id + 1) after.working.logs.rows
  pub tables : after.working.world ≡ world_of before.working.world r
  pub summary :
      log_summary (get_row after.working.logs log_id)
      ≡ some (o.status, (o.inserted, (o.updated, o.failed)))
  pub others :
      (k : ℕ) → (k == log_id) ≡ false → get_row after.working.logs k ≡ get_row before.working.logs k

module _ {D : Type 0} (clock : ℕ → ℕ) (entity : Entity) (customer_id : Text)
    (started log_id : ℕ) where
  fail_entity_eq :
      (message : Text) (s : Session D) (log : SyncLog)
      → get_row s.committed.logs log_id ≡ some log
      → fail_entity clock entity customer_id started log_id message s ≡ (
        failed_outcome entity customer_id log_id message,
        commit (
            set_logs
              (set_row log_id
                (failed_log message (clock s.tick) (sub_ℕ (clock (s.tick + 1)) started) log)
                s.committed.logs)
              (record s { working = s.committed; tick = s.tick + 1 + 1 })),
      )
  unfolding fail_entity
  fail_entity_eq message s log h = rw h refl

  complete_entity_eq :
      (inserted updated failed : ℕ) (details : Option Details) (s : Session D) (log : SyncLog)
      → get_row s.working.logs log_id ≡ some log
      → complete_entity clock entity customer_id started log_id inserted updated failed details s
        ≡ (
          completed_outcome entity customer_id log_id inserted updated failed,
          commit (
              set_logs
                (set_row log_id
                  (completed_log inserted updated failed details
                    (clock s.tick)
                    (sub_ℕ (clock s.tick) started)
                    log)
                  s.working.logs)
                (record s { tick = s.tick + 1 })),
        )
  unfolding complete_entity
  complete_entity_eq inserted updated failed details s log h = rw (h, complete_entity) refl

  -- The step was entered with `s`, in which the row of the step is committed.
  end_entity-Ran :
      (r : StepResult × World D) (s : Session D) (log : SyncLog)
      → s.committed ≡ s.working
      → get_row s.working.logs log_id ≡ some log
      → s.working.logs.next_id ≡ log_id + 1
      → AllBelow (log_id + 1) s.working.logs.rows
      → log.rows_inserted ≡ 0
      → log.rows_updated ≡ 0
      → log.rows_failed ≡ 0
      → (let e = end_entity clock entity customer_id started log_id r s in
          Ran entity customer_id e.0 s e.1 log_id r)
  unfolding end_entity
  end_entity-Ran (returned ins upd bad details, world) s log hc hl hn ha hi hu hf =
      rw (complete_entity_eq ins upd bad details (set_world world s) log hl) record {
        durable = refl;
        outcome = refl;
        next = hn;
        fresh = AllBelow-insert (log_id + 1) log_id _ s.working.logs.rows (omega arith) ha;
        tables = refl;
        summary = ap log_summary (lookup-insert_self log_id _ s.working.logs.rows);
        others = λ k hk. lookup-insert_ne k log_id _ s.working.logs.rows hk;
      }
  end_entity-Ran (raised message, world) s log hc hl hn ha hi hu hf =
      rw (fail_entity_eq message (set_world world s) log (ap (λ d. get_row d.logs log_id) hc ∙ hl))
        record {
          durable = refl;
          outcome = refl;
          next = ap (λ d. d.logs.next_id) hc ∙ hn;
          fresh =
              AllBelow-insert (log_id + 1) log_id _ s.committed.logs.rows (omega arith)
                (subst (λ d. AllBelow (log_id + 1) d.logs.rows) (sym hc) ha);
          tables = ap (λ d. d.world) hc;
          summary = ap log_summary (lookup-insert_self log_id _ s.committed.logs.rows) ∙ cc;
          others = λ k hk.
              lookup-insert_ne k log_id _ s.committed.logs.rows hk ∙ ap (λ d. get_row d.logs k) hc;
        }

module _ {D : Type 0} (clock : ℕ → ℕ) where
  -- A run of a step commits all that it does, logs the step in one new row under the next id, and
  -- changes no other log row. Where the step returned, the tables are the ones that it left and the
  -- log holds its counts, with status success if no row failed and partial otherwise; where it
  -- raised, the tables are the ones before it and the log has status failed. The condition is that
  -- the ids of the log rows are below the next id.
  pub run_entity-Ran :
      (sync_type : SyncType) (entity : Entity) (customer_id : Text) (fn : Step D) (s : Session D)
      → AllBelow s.working.logs.next_id s.working.logs.rows
      → (let e = run_entity clock sync_type entity customer_id fn s in
          Ran entity customer_id e.0 s e.1 s.working.logs.next_id
            (fn s.working.logs.next_id s.working.world))
  unfolding run_entity
  run_entity-Ran sync_type entity customer_id fn s h =
      let n = s.working.logs.next_id in
      let started = clock s.tick in
      let s1 = commit (
        set_logs (create_run sync_type entity customer_id started s.working.logs)
          (record s { tick = s.tick + 1 })) in
      let e =
        end_entity-Ran clock entity customer_id started n (fn n s.working.world) s1
          (new_run sync_type entity customer_id started) refl
          (get_row-create_run sync_type entity customer_id started s.working.logs n h
            ∙ ap
                (λ b.
                  if b
                  then some (new_run sync_type entity customer_id started)
                  else get_row s.working.logs n)
                (beq_refl n))
          (create_run-next sync_type entity customer_id started s.working.logs)
          (create_run-AllBelow sync_type entity customer_id started s.working.logs h) refl refl
          refl in
      record {
        durable = e.durable;
        outcome = e.outcome;
        next = e.next;
        fresh = e.fresh;
        tables = e.tables;
        summary = e.summary;
        others = λ k hk.
            e.others k hk
            ∙ get_row-create_run sync_type entity customer_id started s.working.logs k h
            ∙ ap
                (λ b.
                  if b
                  then some (new_run sync_type entity customer_id started)
                  else get_row s.working.logs k)
                hk;
      }
