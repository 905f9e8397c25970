-- ===== src/Infrastructure/Repositories/Executions.antt =====
-- app/infrastructure/database/repositories/task_execution.py, with the operations of base.py on
-- `task_executions`.
pub mod Orphans
use qiankun.Prelude.{
  ℕ, ◌+◌, String, Bool, ◌||◌, Option, none, some, List, [], ◌∷◌, ◌++◌, ◌==◌, if◌then◌else◌, map,
}
use qiankun.Prelude.Lists.{length, keep_if}
use qiankun.Prelude.Exec.{Exec, ok}
use qiankun.Runtime.Enums.{ExecutionStatus, status_value}
use qiankun.Infrastructure.Database.{TaskExecution, Db}
use qiankun.Infrastructure.Database.Rows.{find_row, change_row, delete_row}

-- `uow.task_executions.get`
unfoldable pub get_execution : ℕ → Exec Db (Option TaskExecution)
get_execution id db = (ok (find_row (λ x. x.id) id db.executions), db)

-- `uow.task_executions.add`: the new row gets an unused identifier.
unfoldable pub add_execution : TaskExecution → Exec Db TaskExecution
add_execution values db =
    let row = record values { id = db.next_id } in
    (ok row, record db { executions = db.executions ++ row ∷ []; next_id = db.next_id + 1 })

-- `uow.task_executions.update(execution, values)`
unfoldable pub update_execution : ℕ → (TaskExecution → TaskExecution) → Exec Db Unit
update_execution id values db =
    (ok tt, record db { executions = change_row (λ x. x.id) id values db.executions })

-- `uow.task_executions.delete`
unfoldable pub delete_execution : ℕ → Exec Db Unit
delete_execution id db = (ok tt, record db { executions = delete_row (λ x. x.id) id db.executions })

-- `TaskExecution.status.in_([0, 1])`
abbrev pub is_orphan : TaskExecution → Bool
is_orphan x = (status_value x.status == 0) || (status_value x.status == 1)

-- The new values of one row under `cancel_orphan_running`.
unfoldable pub cancel_orphan : String → ℕ → TaskExecution → TaskExecution
cancel_orphan message now x =
    if is_orphan x
    then record x {
      status = ExecutionStatus.cancelled;
      finished_at = some now;
      error_message = some message;
    }
    else x

-- `cancel_orphan_running`: the result is the number of rows that were changed.
unfoldable pub cancel_orphan_running : String → ℕ → Exec Db ℕ
unfolding cancel_orphan
cancel_orphan_running message now db = (
  ok (length (keep_if is_orphan db.executions)),
  record db { executions = map (cancel_orphan message now) db.executions },
)
