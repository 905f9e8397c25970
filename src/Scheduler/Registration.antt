-- ===== src/Scheduler/Registration.antt =====
-- app/application/services/scheduler/scheduler.py: the registration of running tasks. An asyncio
-- task is a number. A method that waits is cut where it waits: what it does before and after is
-- one step each, since nothing else runs in between.
pub mod Bound
use qiankun.Prelude.{
  ℕ, ◌+◌, ◌-◌, ◌*◌, ◌^◌, min, Bool, true, false, not, ◌||◌, Option, none, some, List, [], ◌∷◌, map,
  ◌==◌, leb, maybe, is_some, if◌then◌else◌,
}
use qiankun.Prelude.Lists.{length, keep_if}
use qiankun.Prelude.Exec.{Error, Result, ok, err}

-- `RunningTaskState`; `cancelling` is that of its asyncio task, which is done when it is gone.
pub record RunningTaskState : Type 0 where
  pub asyncio_task : ℕ
  pub execution_id : Option ℕ
  pub ready : Bool
  pub cancelling : Bool

-- `TaskScheduler.__init__`; the dict is its items.
pub record TaskScheduler : Type 0 where
  pub max_concurrent_tasks : ℕ
  pub running_tasks : List (ℕ × RunningTaskState)
  pub next_task : ℕ

abbrev pub new_scheduler : ℕ → TaskScheduler
new_scheduler max = record { max_concurrent_tasks = max; running_tasks = []; next_task = 0 }

abbrev pub lookup_running : ℕ → List (ℕ × RunningTaskState) → Option RunningTaskState
lookup_running k [] = none
lookup_running k ((j, s) ∷ d) = let rest = lookup_running k d in if j == k then some s else rest

-- `self._running_tasks[task_id] = state`; a registration that is there is overwritten.
abbrev pub set_running :
    ℕ → RunningTaskState → List (ℕ × RunningTaskState) → List (ℕ × RunningTaskState)
set_running k s [] = (k, s) ∷ []
set_running k s ((j, old) ∷ d) =
    let rest = set_running k s d in if j == k then (j, s) ∷ d else (j, old) ∷ rest

abbrev pub change_running :
    ℕ
    → (RunningTaskState → RunningTaskState)
    → List (ℕ × RunningTaskState)
    → List (ℕ × RunningTaskState)
change_running k f [] = []
change_running k f ((j, s) ∷ d) = (j, if j == k then f s else s) ∷ change_running k f d

-- `self.settings.max_concurrent_tasks - len(self._running_tasks)`; what is negative in the source
-- is zero here, and both are refused.
abbrev pub available_slots : TaskScheduler → ℕ
available_slots s = s.max_concurrent_tasks - length s.running_tasks

-- A new asyncio task and its registration.
unfoldable pub register : ℕ → TaskScheduler → TaskScheduler
register task_id s =
    let state : RunningTaskState = record {
      asyncio_task = s.next_task;
      execution_id = none;
      ready = false;
      cancelling = false;
    } in
    record s {
      running_tasks = set_running task_id state s.running_tasks;
      next_task = s.next_task + 1;
    }

-- `schedule_due_tasks` up to its transaction: the excluded tasks and the free slots; `none` is the
-- early return.
unfoldable pub begin_poll : TaskScheduler → Option (List ℕ × ℕ)
begin_poll s =
    if leb (available_slots s) 0
    then none
    else some (map (λ r. r.0) s.running_tasks, available_slots s)

-- The rest of `schedule_due_tasks`: `for item in claimed`
unfoldable pub end_poll : List ℕ → TaskScheduler → TaskScheduler
unfolding register
end_poll [] s = s
end_poll (task_id ∷ claimed) s = end_poll claimed (register task_id s)

-- `execute_task_now` up to `await state.ready.wait()`, for a task that exists.
unfoldable pub execute_task_now : ℕ → TaskScheduler → Result TaskScheduler
unfolding register
execute_task_now task_id s =
    if is_some (lookup_running task_id s.running_tasks) || leb (available_slots s) 0
    then err Error.conflict
    else ok (register task_id s)

-- `_run_with_concurrency` after `create_execution`: whatever registration the task has now.
unfoldable pub set_ready : ℕ → ℕ → TaskScheduler → TaskScheduler
set_ready task_id execution_id s = record s {
  running_tasks =
      change_running task_id (λ r. record r { execution_id = some execution_id; ready = true })
        s.running_tasks;
}

abbrev pub mark_cancelling : ℕ → TaskScheduler → TaskScheduler
mark_cancelling task_id s = record s {
  running_tasks = change_running task_id (λ r. record r { cancelling = true }) s.running_tasks;
}

-- `cancel_task`, up to the wait for the end of the asyncio task.
unfoldable pub cancel_task : ℕ → TaskScheduler → Bool × TaskScheduler
cancel_task task_id s =
    maybe (lookup_running task_id s.running_tasks) (false, s) λ _. (true, mark_cancelling task_id s)

-- `state.execution_id != execution_id`
abbrev pub is_active : ℕ → RunningTaskState → Bool
is_active execution_id r = maybe r.execution_id false (λ id. id == execution_id)

-- `cancel_by_execution`
unfoldable pub cancel_by_execution : ℕ → ℕ → TaskScheduler → Bool × TaskScheduler
cancel_by_execution execution_id task_id s =
    maybe (lookup_running task_id s.running_tasks) (false, s)
      λ r. if is_active execution_id r then (true, mark_cancelling task_id s) else (false, s)

-- `_finished`
unfoldable pub finished : ℕ → TaskScheduler → TaskScheduler
finished task s = record s {
  running_tasks = keep_if (λ r. not ((r.1).asyncio_task == task)) s.running_tasks;
}

-- `min(30 * (2**consecutive_errors), 300)`
abbrev pub backoff : ℕ → ℕ
backoff consecutive_errors = min (30 * 2 ^ consecutive_errors) 300
