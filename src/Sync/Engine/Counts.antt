-- ===== src/Sync/Engine/Counts.antt =====
-- The counts and the log ids that the aggregate of a run reports.
use google_ads_intelligence.Base.{
  ℕ, ◌+◌, ◌≡◌, refl, sym, ap, ◌∙◌, List, [], ◌∷◌, ◌++◌, arith, length,
}
use google_ads_intelligence.Base.Dict.{AllBelow}
use google_ads_intelligence.Sync.Log.{SyncType, World, Session}
use google_ads_intelligence.Sync.Engine.{
  StepResult, returned, raised, Aggregate, fresh_aggregate, absorb, Job, run_jobs,
}
use google_ads_intelligence.Sync.Engine.Isolation.{outcome_of, world_of}
use google_ads_intelligence.Sync.Engine.Status.{run_jobs-Steps, outcomes, absorb_all, range}

-- A count of a step: what it returned, and 0 where it raised.
abbrev pub count_of : (ℕ → ℕ → ℕ → ℕ) → StepResult → ℕ
count_of f (returned ins upd bad _) = f ins upd bad
count_of f (raised _) = 0

abbrev pub total : {D : Type 0} → (ℕ → ℕ → ℕ → ℕ) → ℕ → List (Job D) → World D → ℕ
total f n [] w = 0
total f n (j ∷ jobs) w = count_of f (j.fn n w).0 + total f (n + 1) jobs (world_of w (j.fn n w))

pub record Counted {D : Type 0} (before after : Aggregate) (n : ℕ) (jobs : List (Job D))
    (w : World D) : Type 0 where
  pub inserted : after.inserted ≡ before.inserted + total (λ i u b. i) n jobs w
  pub updated : after.updated ≡ before.updated + total (λ i u b. u) n jobs w
  pub failed : after.failed ≡ before.failed + total (λ i u b. b) n jobs w
  pub log_ids : after.log_ids ≡ before.log_ids ++ range n (length jobs)

append_assoc : (xs ys zs : List ℕ) → (xs ++ ys) ++ zs ≡ xs ++ (ys ++ zs)
append_assoc [] ys zs = refl
append_assoc (x ∷ xs) ys zs = ap (λ l. x ∷ l) (append_assoc xs ys zs)

append_nil : (xs : List ℕ) → xs ++ [] ≡ xs
append_nil [] = refl
append_nil (x ∷ xs) = ap (λ l. x ∷ l) (append_nil xs)

absorb_outcome :
    {D : Type 0} (agg : Aggregate) (n : ℕ) (j : Job D) (r : StepResult)
    → (let a = absorb agg (outcome_of j.entity j.customer_id n r) in
        (a.inserted ≡ agg.inserted + count_of (λ i u b. i) r)
        × ((a.updated ≡ agg.updated + count_of (λ i u b. u) r)
            × ((a.failed ≡ agg.failed + count_of (λ i u b. b) r)
                × (a.log_ids ≡ agg.log_ids ++ n ∷ []))))
unfolding absorb
absorb_outcome agg n j (returned ins upd bad details) = (refl, (refl, (refl, refl)))
absorb_outcome agg n j (raised message) = (refl, (refl, (refl, refl)))

absorb_all-Counted :
    {D : Type 0} (n : ℕ) (jobs : List (Job D)) (w : World D) (agg : Aggregate)
    → Counted agg (absorb_all agg (outcomes n jobs w)) n jobs w
absorb_all-Counted n [] w agg = record {
  inserted = omega arith;
  updated = omega arith;
  failed = omega arith;
  log_ids = sym (append_nil agg.log_ids);
}
absorb_all-Counted n (j ∷ jobs) w agg =
    let r = j.fn n w in
    let one = absorb_outcome agg n j r.0 in
    let rest =
      absorb_all-Counted (n + 1) jobs (world_of w r)
        (absorb agg (outcome_of j.entity j.customer_id n r.0)) in
    record {
      inserted = omega (arith, one.0, rest.inserted);
      updated = omega (arith, one.1.0, rest.updated);
      failed = omega (arith, one.1.1.0, rest.failed);
      log_ids =
          rest.log_ids
          ∙ ap (λ l. l ++ range (n + 1) (length jobs)) one.1.1.1
          ∙ append_assoc agg.log_ids (n ∷ []) (range (n + 1) (length jobs));
    }

-- The aggregate of a run of steps from a fresh one counts the rows of the steps that returned, and
-- lists one log id for each step, in order and from the next id on, whether it returned or raised.
-- The condition is that the ids of the log rows are below the next id.
pub run_jobs-Counted :
    {D : Type 0} (clock : ℕ → ℕ) (sync_type : SyncType) (jobs : List (Job D)) (s : Session D)
    → AllBelow s.working.logs.next_id s.working.logs.rows
    → Counted fresh_aggregate
        (run_jobs clock sync_type jobs fresh_aggregate s).0
        s.working.logs.next_id
        jobs
        s.working.world
run_jobs-Counted clock sync_type jobs s h =
    let n = s.working.logs.next_id in
    rw ((run_jobs-Steps clock sync_type jobs fresh_aggregate s h).1)
      (absorb_all-Counted n jobs s.working.world fresh_aggregate)
