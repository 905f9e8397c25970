-- ===== src/Application/Triggers.antt =====
-- The requests that reach the scheduler: `list`, `run` and `cancel` of app/application/services/task.py, `cancel` of
-- execution.py, and `stop` of scheduler/scheduler.py. A request that waits for a task of asyncio is given
-- what happens `meanwhile`, which ends as the task ends.
pub mod Cancelling
use qiankun.Prelude.{
  ℕ, ◌-◌, ◌*◌, Bool, true, false, not, Option, none, some, List, [], ◌∷◌, ◌==◌, map, maybe,
  if◌then◌else◌,
}
use qiankun.Prelude.Exec.{
  Error, Exec, Result, ok, err, pure, raise, gets, lift, modify, or_raise, raise_if, ◌>>=◌, ◌>>◌,
}
use qiankun.Runtime.Enums.{is_terminal}
use qiankun.Infrastructure.Database.{Task, TaskExecution, Db}
use qiankun.Infrastructure.Repositories.{list_rows}
use qiankun.Infrastructure.Repositories.Tasks.{get_task}
use qiankun.Application.Executions.{Page, paginate, get}
use qiankun.Scheduler.Registration.{
  RunningTaskState, TaskScheduler, lookup_running, execute_task_now, cancel_task,
  cancel_by_execution,
}
use qiankun.Scheduler.Loop.{Service, session, is_cancelled}

-- `Task.enabled.is_(enabled) if enabled is not None else None`
abbrev pub has_state : Option Bool → Task → Bool
has_state none task = true
has_state (some true) task = task.enabled
has_state (some false) task = not task.enabled

-- `TaskService.list`; a page below one does not pass the request's schema.
unfoldable pub list_tasks : ℕ → ℕ → Option Bool → Exec Db (Page Task)
list_tasks page page_size enabled = do
  found ← gets (λ db. list_rows ((page - 1) * page_size) page_size (has_state enabled) db.tasks)
  pure (paginate found.0 found.1 page page_size)

-- `TaskService.get`, and the start of `TaskScheduler.execute_task_now`
unfoldable pub require_task : ℕ → Exec Service Task
require_task task_id = do task ← session none (get_task task_id); or_raise task Error.not_found

abbrev put_scheduler : Service → Result TaskScheduler → Result (Unit {0}) × Service
put_scheduler v (ok s) = (ok tt, record v { scheduler = s })
put_scheduler v (err e) = (err e, v)

-- `TaskService.run` up to the wait for the execution's row; `execute_task_now` looks the task up again.
unfoldable pub run : ℕ → Exec Service Unit
unfolding require_task
run task_id = do
  task ← require_task task_id
  again ← require_task task_id
  λ v. put_scheduler v (execute_task_now task_id v.scheduler)

-- The end of `await asyncio.shield(state.asyncio_task)`: a cancellation is dropped, another exception of
-- the task is raised here too.
abbrev pub shielded : Result (Unit {0}) × Service → Result Bool × Service
shielded (ok _, v) = (ok true, v)
shielded (err e, v) = if is_cancelled e then (ok true, v) else (err e, v)

-- The wait, if a task was cancelled
abbrev pub wait_for : Exec Service Unit → Bool × TaskScheduler → Exec Service Bool
wait_for meanwhile (false, s) v = (ok false, record v { scheduler = s })
wait_for meanwhile (true, s) v = shielded (meanwhile (record v { scheduler = s }))

-- `TaskService.cancel`
unfoldable pub cancel : Exec Service Unit → ℕ → Exec Service Bool
unfolding require_task
cancel meanwhile task_id = do
  task ← require_task task_id
  λ v. wait_for meanwhile (cancel_task task_id v.scheduler) v

-- `ExecutionService.get`
abbrev pub fetch_execution : ℕ → Exec Service TaskExecution
fetch_execution execution_id = session none (get execution_id)

-- The rest of `ExecutionService.cancel`, for an execution that has not ended.
unfoldable pub cancel_active : Exec Service Unit → TaskExecution → ℕ → Exec Service TaskExecution
cancel_active meanwhile execution execution_id = do
  cancelled ←
      λ v. wait_for meanwhile (cancel_by_execution execution_id execution.task_id v.scheduler) v
  raise_if (not cancelled) Error.conflict
  fetch_execution execution_id

-- `ExecutionService.cancel`
unfoldable pub cancel_request : Exec Service Unit → ℕ → Exec Service TaskExecution
unfolding cancel_active
cancel_request meanwhile execution_id = do
  execution ← fetch_execution execution_id
  if is_terminal execution.status
      then pure execution
      else cancel_active meanwhile execution execution_id

-- `TaskScheduler.stop` after the loop has ended: every running task is cancelled, each one is waited for,
-- and the registrations are dropped. A task that ends has left the dict.
unfoldable pub stop : (Service → Service) → Service → Service
stop meanwhile v =
    let cancelled : TaskScheduler = record (v.scheduler) {
      running_tasks =
          map (λ r. (r.0, record (r.1) { cancelling = true })) v.scheduler.running_tasks;
    } in
    let after = meanwhile (record v { scheduler = cancelled; should_stop = true }) in
    record after { scheduler = record (after.scheduler) { running_tasks = [] } }
