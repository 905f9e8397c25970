-- ===== src/Scheduler/Policy/Claims.antt =====
-- What one poll of scheduler/policy.py claims, and where it leaves the tasks table.
use qiankun.Prelude.{
  ℕ, ◌≤◌, ◌<◌, ◌≡◌, refl, inl, inr, some, List, [], ◌∷◌, arith, maybe-elim, Bool-cases,
}
use qiankun.Prelude.Lists.{length, All}
use qiankun.Prelude.Exec.{
  ok, lift, Exec, Ensures, Ensures-mono, >>=-Ensures, lift-Ensures, Ensures-eq-ok,
}
use qiankun.Infrastructure.Database.{Task, Db}
use qiankun.Infrastructure.Repositories.Tasks.{advance_claimed, claim_due_task}
use qiankun.Infrastructure.Repositories.Tasks.Claim.{
  HasUniqueIds, RunsAfter, advance_claimed-HasUniqueIds, advance_claimed-RunsAfter,
  advance_claimed_hit,
}
use qiankun.Infrastructure.Repositories.Tasks.DueOrder.{get_due_tasks-IsEarliest}
use qiankun.Scheduler.Calculator.{Cron, calculate_next_run_time}
use qiankun.Scheduler.Calculator.Firings.{calculate_next_run_time-IsFirstAfter}
use qiankun.Scheduler.Policy.{ClaimedTask, add_claimed, claim_one, claim_all, schedule_due_tasks}

-- What claiming some candidates has done to the tasks table.
record Claims (now : ℕ) (candidates : List Task) (before : Db) (claimed : List ClaimedTask)
    (after : Db) : Type 0 where
  unique : HasUniqueIds after.tasks
  kept : (j : ℕ) → RunsAfter now j before.tasks → RunsAfter now j after.tasks
  moved : All (λ c. RunsAfter now c.task_id after.tasks) claimed
  few : length claimed ≤ length candidates

module _ (cron : Cron) (now : ℕ) where
  Claims-step :
      (task : Task) (candidates : List Task) (at new : ℕ) (db after : Db)
      (others : List ClaimedTask)
      → HasUniqueIds db.tasks
      → now < new
      → Claims now candidates
          (record db { tasks = (advance_claimed task.id at new db.tasks).0 })
          others
          after
      → Claims now
          (task ∷ candidates)
          db
          (add_claimed task at new (advance_claimed task.id at new db.tasks).1 others)
          after
  unfolding add_claimed
  Claims-step task candidates at new db after others u up c = record {
    unique = c.unique;
    kept = λ j h. c.kept j (advance_claimed-RunsAfter now j task.id at new db.tasks up h);
    moved = elim (Bool-cases (advance_claimed task.id at new db.tasks).1) [
      | inl hit ↦
          rw hit
            (c.kept task.id (advance_claimed_hit now task.id at new db.tasks u up hit), c.moved)
      | inr miss ↦ rw miss c.moved
    ];
    few = ground (arith, c.few);
  }

  Claims-skip :
      (task : Task) (candidates : List Task) (db after : Db) (claimed : List ClaimedTask)
      → Claims now candidates db claimed after
      → Claims now (task ∷ candidates) db claimed after
  Claims-skip task candidates db after claimed c = record {
    unique = c.unique;
    kept = c.kept;
    moved = c.moved;
    few = omega (arith, c.few);
  }

  claim_one-Claims :
      (task : Task) (candidates : List Task) (rest : Exec Db (List ClaimedTask)) (at : ℕ) (db : Db)
      → ((t : Db) → HasUniqueIds t.tasks → Ensures (Claims now candidates t) (rest t))
      → HasUniqueIds db.tasks
      → Ensures (Claims now (task ∷ candidates) db) (claim_one cron now task rest at db)
  unfolding claim_one claim_due_task
  claim_one-Claims task candidates rest at db ih u =
      let next = calculate_next_run_time cron task.cron_expression at (some now) in
      let P = Claims now (task ∷ candidates) db in
      >>=-Ensures (λ new t. (now < new) × (t ≡ db)) P (lift next) _ db
        (lift-Ensures (λ new t. (now < new) × (t ≡ db)) next db
          (λ new e. (
            (calculate_next_run_time-IsFirstAfter cron task.cron_expression at now new e).later,
            refl,
          )))
        λ new t up.
          let moved = advance_claimed task.id at new t.tasks in
          let t' = record t { tasks = moved.0 } in
          >>=-Ensures (Claims now candidates t') P rest _ t'
            (ih t' (advance_claimed-HasUniqueIds task.id at new t.tasks (rw (up.1) u)))
            λ others after c.
              rw (← up.1) (Claims-step task candidates at new t after others (rw (up.1) u) up.0 c)

  claim_all-Claims :
      (candidates : List Task) (db : Db)
      → HasUniqueIds db.tasks
      → Ensures (Claims now candidates db) (claim_all cron now candidates db)
  unfolding claim_all
  claim_all-Claims [] db u = record { unique = u; kept = λ j h. h; moved = tt; few = omega arith }
  claim_all-Claims (task ∷ candidates) db u =
      let P = Claims now (task ∷ candidates) db in
      maybe-elim (λ (m : Exec Db (List ClaimedTask)). Ensures P (m db)) task.next_run_time
        (λ _.
          Ensures-mono (Claims now candidates db) P (Claims-skip task candidates db) _
            (claim_all-Claims candidates db u))
        λ at _.
          claim_one-Claims task candidates (claim_all cron now candidates) at db
            (claim_all-Claims candidates) u

-- What a poll has done to the tables.
pub record IsClaimReport (now available_slots : ℕ) (before : Db) (claimed : List ClaimedTask)
    (after : Db) : Type 0 where
  pub few : length claimed ≤ available_slots
  pub moved : All (λ c. RunsAfter now c.task_id after.tasks) claimed
  pub kept : (j : ℕ) → RunsAfter now j before.tasks → RunsAfter now j after.tasks
  pub unique : HasUniqueIds after.tasks

-- One poll, whatever rows are due: it claims at most `available_slots` tasks, and it leaves each
-- claimed task with a run time after `now`, so no later query at the same `now` finds the task due
-- again. A row that had a later run time before keeps one, and identifiers stay unique.
pub schedule_due_tasks-IsClaimReport :
    (cron : Cron) (now : ℕ) (exclude_ids : List ℕ) (available_slots : ℕ) (db after : Db)
    (claimed : List ClaimedTask)
    → HasUniqueIds db.tasks
    → schedule_due_tasks cron now exclude_ids available_slots db ≡ (ok claimed, after)
    → IsClaimReport now available_slots db claimed after
unfolding schedule_due_tasks
schedule_due_tasks-IsClaimReport cron now exclude_ids available_slots db after claimed u h =
    let (due, found, earliest) = get_due_tasks-IsEarliest now exclude_ids available_slots db in
    let c : Claims now due db claimed after =
      Ensures-eq-ok (Claims now due db) _ claimed after (claim_all-Claims cron now due db u)
        (rw found at h) in
    record {
      few = omega (arith, c.few, earliest.within);
      moved = c.moved;
      kept = c.kept;
      unique = c.unique;
    }
