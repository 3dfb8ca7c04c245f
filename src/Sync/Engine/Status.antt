-- ===== src/Sync/Engine/Status.antt =====
-- The aggregate of a run of several steps, against the steps themselves.
use google_ads_intelligence.Base.{
  ℕ, ◌+◌, ◌≡◌, ◌&&◌, ◌==◌, if◌then◌else◌, zero, suc, refl, sym, subst, ap, ◌∙◌, Bool, true, false,
  List, [], ◌∷◌, arith,
}
use google_ads_intelligence.Base.Dict.{AllBelow}
use google_ads_intelligence.Base.Text.{Text}
use google_ads_intelligence.Sync.Log.{
  Entity, SyncType, SyncStatus, running, success, partial, failed, World, Session,
}
use google_ads_intelligence.Sync.Engine.{
  StepResult, returned, raised, completed_status, fresh_aggregate, EntityOutcome, Aggregate, absorb,
  absorb_status, Job, run_entity, run_jobs,
}
use google_ads_intelligence.Sync.Engine.Isolation.{outcome_of, world_of, run_entity-Ran}

-- What the steps do by themselves: each starts from the tables that the last one left, with the next
-- log id, and one that raised leaves none.
abbrev pub world_after : {D : Type 0} → ℕ → List (Job D) → World D → World D
world_after n [] w = w
world_after n (j ∷ jobs) w = world_after (n + 1) jobs (world_of w (j.fn n w))

abbrev pub outcomes : {D : Type 0} → ℕ → List (Job D) → World D → List EntityOutcome
outcomes n [] w = []
outcomes n (j ∷ jobs) w =
    outcome_of j.entity j.customer_id n (j.fn n w).0 ∷ outcomes (n + 1) jobs (world_of w (j.fn n w))

abbrev pub absorb_all : Aggregate → List EntityOutcome → Aggregate
absorb_all agg [] = agg
absorb_all agg (o ∷ os) = absorb_all (absorb agg o) os

-- A run of steps leaves the tables that the steps by themselves leave, each step that raised skipped,
-- and its aggregate is that of their outcomes in order. The condition is that the ids of the log rows
-- are below the next id.
pub run_jobs-Steps :
    {D : Type 0} (clock : ℕ → ℕ) (sync_type : SyncType) (jobs : List (Job D)) (agg : Aggregate)
    (s : Session D)
    → AllBelow s.working.logs.next_id s.working.logs.rows
    → (let r = run_jobs clock sync_type jobs agg s in
        let n = s.working.logs.next_id in
        (r.1.working.world ≡ world_after n jobs s.working.world)
        × (r.0 ≡ absorb_all agg (outcomes n jobs s.working.world)))
unfolding run_jobs
run_jobs-Steps clock sync_type [] agg s h = (refl, refl)
run_jobs-Steps clock sync_type (j ∷ jobs) agg s h =
    let n = s.working.logs.next_id in
    let e = run_entity clock sync_type j.entity j.customer_id j.fn s in
    let ran = run_entity-Ran clock sync_type j.entity j.customer_id j.fn s h in
    let rest =
      run_jobs-Steps clock sync_type jobs (absorb agg e.0) e.1
        (subst (λ m. AllBelow m e.1.working.logs.rows) (sym ran.next) ran.fresh) in
    (rest.0 ∙ cc, rest.1 ∙ cc)

-- A step that returned and counted no failed row.
unfoldable pub is_clean : StepResult → Bool
is_clean (returned _ _ bad _) = bad == 0
is_clean (raised _) = false

abbrev pub all_clean : {D : Type 0} → ℕ → List (Job D) → World D → Bool
all_clean n [] w = true
all_clean n (j ∷ jobs) w = is_clean (j.fn n w).0 && all_clean (n + 1) jobs (world_of w (j.fn n w))

outcome_of-status :
    (entity : Entity) (customer_id : Text) (log_id : ℕ) (r : StepResult)
    → absorb_status SyncStatus.success (outcome_of entity customer_id log_id r).status
      ≡ (if is_clean r then SyncStatus.success else SyncStatus.partial)
unfolding is_clean absorb_status completed_status
outcome_of-status entity customer_id log_id (returned ins upd bad details) = ground arith
outcome_of-status entity customer_id log_id (raised message) = refl

absorb_status_partial : (s : SyncStatus) → absorb_status SyncStatus.partial s ≡ SyncStatus.partial
unfolding absorb_status
absorb_status_partial running = refl
absorb_status_partial success = refl
absorb_status_partial partial = refl
absorb_status_partial failed = refl

absorb_all_partial :
    (agg : Aggregate) (os : List EntityOutcome)
    → agg.status ≡ SyncStatus.partial
    → (absorb_all agg os).status ≡ SyncStatus.partial
unfolding absorb
absorb_all_partial agg [] h = h
absorb_all_partial agg (o ∷ os) h =
    absorb_all_partial (absorb agg o) os
      (ap (λ s. absorb_status s o.status) h ∙ absorb_status_partial o.status)

absorb_all_status :
    {D : Type 0} (n : ℕ) (jobs : List (Job D)) (w : World D) (agg : Aggregate)
    → agg.status ≡ SyncStatus.success
    → (absorb_all agg (outcomes n jobs w)).status
      ≡ (if all_clean n jobs w then SyncStatus.success else SyncStatus.partial)
unfolding absorb
absorb_all_status n [] w agg h = h
absorb_all_status n (j ∷ jobs) w agg h =
    let r = (j.fn n w).0 in
    let o = outcome_of j.entity j.customer_id n r in
    let w' = world_of w (j.fn n w) in
    let first =
      ap (λ s. absorb_status s o.status) h ∙ outcome_of-status j.entity j.customer_id n r in
    ground (
      arith,
      first,
      absorb_all_status (n + 1) jobs w' (absorb agg o),
      absorb_all_partial (absorb agg o) (outcomes (n + 1) jobs w'),
    )

-- The status of a run of steps from a fresh aggregate is success if every step returned with no
-- failed row, and partial otherwise, also where every step raised: it is never failed. The condition
-- is that the ids of the log rows are below the next id.
pub run_jobs-status :
    {D : Type 0} (clock : ℕ → ℕ) (sync_type : SyncType) (jobs : List (Job D)) (s : Session D)
    → AllBelow s.working.logs.next_id s.working.logs.rows
    → (run_jobs clock sync_type jobs fresh_aggregate s).0.status ≡ (
        if all_clean s.working.logs.next_id jobs s.working.world
        then SyncStatus.success
        else SyncStatus.partial)
run_jobs-status clock sync_type jobs s h =
    ap (λ a. a.status) (run_jobs-Steps clock sync_type jobs fresh_aggregate s h).1
    ∙ absorb_all_status s.working.logs.next_id jobs s.working.world fresh_aggregate refl

-- The ids from n on.
abbrev pub range : ℕ → ℕ → List ℕ
range n zero = []
range n (suc m) = n ∷ range (n + 1) m
