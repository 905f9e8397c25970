-- ===== src/Scheduler/Policy.antt =====
-- app/application/services/scheduler/policy.py: claiming the due tasks.
pub mod Claims
use qiankun.Prelude.{
  ℕ, ◌+◌, String, Bool, true, Option, none, some, List, [], ◌∷◌, ◌++◌, maybe, is_some,
  if◌then◌else◌,
}
use qiankun.Prelude.Exec.{Exec, pure, lift, gets, ◌>>=◌, ◌>>◌}
use qiankun.Infrastructure.Database.{Task, Db}
use qiankun.Infrastructure.Repositories.{list_rows}
use qiankun.Infrastructure.Repositories.Tasks.{get_due_tasks, claim_due_task, update_task}
use qiankun.Scheduler.Calculator.{Cron, calculate_next_run_time}

-- `ClaimedTask`
pub record ClaimedTask : Type 0 where
  pub task_id : ℕ
  pub scheduled_at : ℕ
  pub task : Task

-- The rest of the loop after `claim_due_task`; the task in memory gets the new time too.
unfoldable pub add_claimed : Task → ℕ → ℕ → Bool → List ClaimedTask → List ClaimedTask
add_claimed task scheduled_at new claimed_ok rest =
    if claimed_ok
    then record {
      task_id = task.id;
      scheduled_at = scheduled_at;
      task = record task { next_run_time = some new };
    }
      ∷ rest
    else rest

-- The body of the loop for a task with a `next_run_time`, before what `rest` does.
unfoldable pub claim_one :
    Cron → ℕ → Task → Exec Db (List ClaimedTask) → ℕ → Exec Db (List ClaimedTask)
unfolding add_claimed
claim_one cron now task rest scheduled_at = do
  new ← lift (calculate_next_run_time cron task.cron_expression scheduled_at (some now))
  claimed_ok ← claim_due_task task.id scheduled_at new
  others ← rest
  pure (add_claimed task scheduled_at new claimed_ok others)

-- `for task in candidates`
unfoldable pub claim_all : Cron → ℕ → List Task → Exec Db (List ClaimedTask)
unfolding claim_one
claim_all cron now [] = pure []
claim_all cron now (task ∷ candidates) =
    let rest = claim_all cron now candidates in
    maybe task.next_run_time rest (claim_one cron now task rest)

-- `SchedulePolicy.schedule_due_tasks`
unfoldable pub schedule_due_tasks : Cron → ℕ → List ℕ → ℕ → Exec Db (List ClaimedTask)
unfolding claim_all
schedule_due_tasks cron now exclude_ids available_slots = do
  candidates ← get_due_tasks now exclude_ids available_slots
  claim_all cron now candidates

unfoldable pub fill_one : Cron → ℕ → Task → Exec Db ℕ
fill_one cron now task = do
  next ← lift (calculate_next_run_time cron task.cron_expression now none)
  update_task task.id (λ t. record t { next_run_time = some next })
  pure 1

-- `for task in rows`
unfoldable pub fill_all : Cron → ℕ → List Task → Exec Db ℕ
unfolding fill_one
fill_all cron now [] = pure 0
fill_all cron now (task ∷ rows) = do
  here ← (if is_some task.next_run_time then pure 0 else fill_one cron now task)
  others ← fill_all cron now rows
  pure (here + others)

-- `SchedulePolicy.fill_missing_next_run_time`
unfoldable pub fill_missing_next_run_time : Cron → ℕ → Exec Db ℕ
unfolding fill_all
fill_missing_next_run_time cron now = do
  rows ← gets (λ db. (list_rows 0 1000 (λ t. t.enabled) db.tasks).0)
  fill_all cron now rows
