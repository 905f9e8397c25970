-- ===== src/Application/Triggers/Cancelling.antt =====
-- What `cancel` of app/application/services/execution.py answers.
use qiankun.Prelude.{ℕ, Bool, false, Option, none, some, if◌then◌else◌}
use qiankun.Prelude.Exec.{Error, Exec, Result, ok, err}
use qiankun.Runtime.Enums.{is_terminal}
use qiankun.Infrastructure.Database.{TaskExecution}
use qiankun.Infrastructure.Database.Rows.{find_row}
use qiankun.Application.Triggers.{shielded}
use qiankun.Scheduler.Registration.{RunningTaskState, lookup_running, is_active, mark_cancelling}
use qiankun.Scheduler.Loop.{Service}

-- The execution is the one that the task runs now.
abbrev runs : ℕ → Option RunningTaskState → Bool
runs execution_id none = false
runs execution_id (some state) = is_active execution_id state

-- The row of an execution, or not found.
abbrev row_or_404 : Service → Option TaskExecution → Result TaskExecution × Service
row_or_404 v none = (err Error.not_found, v)
row_or_404 v (some x) = (ok x, v)

abbrev pub find : ℕ → Service → Option TaskExecution
find execution_id v = find_row (λ x. x.id) execution_id v.db.executions

-- The row when the wait is over
abbrev reread : ℕ → Result Bool × Service → Result TaskExecution × Service
reread execution_id (ok _, v) = row_or_404 v (find execution_id v)
reread execution_id (err e, v) = (err e, v)

-- After the execution has been cancelled.
abbrev after_cancel :
    Exec Service Unit → ℕ → TaskExecution → Service → Result TaskExecution × Service
after_cancel meanwhile execution_id x v =
    reread execution_id
      (shielded (meanwhile (record v { scheduler = mark_cancelling x.task_id v.scheduler })))

-- The answer for a row, by its status and the registrations.
abbrev pub answer_for :
    Exec Service Unit → ℕ → Service → Option TaskExecution → Result TaskExecution × Service
answer_for meanwhile execution_id v none = (err Error.not_found, v)
answer_for meanwhile execution_id v (some x) =
    if is_terminal x.status
    then (ok x, v)
    else if runs execution_id (lookup_running x.task_id v.scheduler.running_tasks)
    then after_cancel meanwhile execution_id x v
    else (err Error.conflict, v)
