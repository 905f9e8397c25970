-- ===== src/Infrastructure/Repositories/Tasks.antt =====
-- app/infrastructure/database/repositories/task.py, with the operations of base.py on `tasks`.
pub mod DueOrder
pub mod Claim
use qiankun.Prelude.{
  ℕ, ◌+◌, Bool, true, false, not, ◌&&◌, ◌||◌, Option, none, some, List, [], ◌∷◌, ◌++◌, ltb, leb,
  ◌==◌, if◌then◌else◌, maybe, is_some,
}
use qiankun.Prelude.Lists.{take, keep_if, contains}
use qiankun.Prelude.Exec.{Exec, ok}
use qiankun.Infrastructure.Database.{Task, TaskExecution, Db}
use qiankun.Infrastructure.Database.Rows.{find_row, change_row, delete_row}

-- `uow.tasks.get`
unfoldable pub get_task : ℕ → Exec Db (Option Task)
get_task id db = (ok (find_row (λ t. t.id) id db.tasks), db)

-- `uow.tasks.add`: the new row gets an unused identifier.
unfoldable pub add_task : Task → Exec Db Task
add_task values db =
    let row = record values { id = db.next_id } in
    (ok row, record db { tasks = db.tasks ++ row ∷ []; next_id = db.next_id + 1 })

-- `uow.tasks.update(task, values)`: sets the given columns of the row.
unfoldable pub update_task : ℕ → (Task → Task) → Exec Db Unit
update_task id values db = (ok tt, record db { tasks = change_row (λ t. t.id) id values db.tasks })

-- `uow.tasks.delete`; the foreign key of `task_executions` cascades.
unfoldable pub delete_task : ℕ → Exec Db Unit
delete_task id db = (
  ok tt,
  record db {
    tasks = delete_row (λ t. t.id) id db.tasks;
    executions = delete_row (λ x. x.task_id) id db.executions;
  },
)

-- `Task.enabled.is_(True), Task.next_run_time.is_not(None), Task.next_run_time <= now`
-- `Task.id.not_in(exclude_ids)`
unfoldable pub is_due : ℕ → List ℕ → Task → Bool
is_due now exclude_ids t =
    t.enabled && maybe t.next_run_time false (λ at. leb at now) && not (contains t.id exclude_ids)

abbrev pub run_at : Task → ℕ
run_at t = maybe t.next_run_time 0 (λ at. at)

-- `order_by(Task.next_run_time.asc(), Task.id.asc())`
unfoldable pub runs_before : Task → Task → Bool
runs_before a b = ltb (run_at a) (run_at b) || (run_at a == run_at b && leb a.id b.id)

unfoldable pub insert_by_run : Task → List Task → List Task
unfolding runs_before
insert_by_run t [] = t ∷ []
insert_by_run t (u ∷ us) = if runs_before t u then t ∷ u ∷ us else u ∷ insert_by_run t us

unfoldable pub sort_by_run : List Task → List Task
unfolding insert_by_run
sort_by_run [] = []
sort_by_run (t ∷ ts) = insert_by_run t (sort_by_run ts)

-- `get_due_tasks`
unfoldable pub get_due_tasks : ℕ → List ℕ → ℕ → Exec Db (List Task)
unfolding is_due sort_by_run
get_due_tasks now exclude_ids limit db =
    (ok (take limit (sort_by_run (keep_if (is_due now exclude_ids) db.tasks))), db)

-- The `where` of `claim_due_task`: the row is enabled and still has the expected time.
unfoldable pub is_claimable : ℕ → ℕ → Task → Bool
is_claimable task_id expected t =
    t.id == task_id && t.enabled && maybe t.next_run_time false (λ at. at == expected)

unfoldable pub advance_claimed : ℕ → ℕ → ℕ → List Task → List Task × Bool
unfolding is_claimable
advance_claimed task_id expected new [] = ([], false)
advance_claimed task_id expected new (t ∷ ts) =
    let (rest, hit) = advance_claimed task_id expected new ts in
    if is_claimable task_id expected t
    then (record t { next_run_time = some new } ∷ rest, true)
    else (t ∷ rest, hit)

-- `claim_due_task`: a compare-and-swap on `next_run_time`; the result is `rowcount > 0`.
unfoldable pub claim_due_task : ℕ → ℕ → ℕ → Exec Db Bool
unfolding advance_claimed
claim_due_task task_id expected new db =
    let (rows, hit) = advance_claimed task_id expected new db.tasks in
    (ok hit, record db { tasks = rows })
