-- ===== src/Scheduler/Runner.antt =====
-- app/application/services/scheduler/runner.py: creation of execution rows, the attempt loop and
-- cancellation; with `_run_with_concurrency` of scheduler.py around it, without the semaphore and
-- the registration. No other request writes to the database while a run goes on.
pub mod Kept
pub mod Round
pub mod Retries
use qiankun.Prelude.{
  ℕ, zero, suc, ◌+◌, String, Bool, true, false, not, ◌||◌, Option, none, some, List, [], ◌∷◌, leb,
  maybe, if◌then◌else◌,
}
use qiankun.Prelude.Exec.{Error, Result, ok, err, Exec, pure, raise, or_raise, lift, ◌>>=◌, ◌>>◌}
use qiankun.Prelude.Text.{fstring}
use qiankun.Runtime.Enums.{ExecutionStatus, TriggerType, is_terminal}
use qiankun.Infrastructure.Database.{Task, TaskExecution, Db}
use qiankun.Infrastructure.Repositories.Tasks.{get_task}
use qiankun.Infrastructure.Repositories.Executions.{get_execution, add_execution, update_execution}
use qiankun.Engine.World.{Event, EventType, World, Host, utc_now, on_db, in_transaction}
use qiankun.Engine.Bus.{emit}
use qiankun.Scheduler.Attempt.{Conduct, AttemptExecutor, Provider, execute}

-- `TaskRunner.__init__`. `provider` is `registry.get`, and `none` is its exception; `conduct` is
-- what happens during each attempt, and `sleep_cancelled` says whether the wait after it is
-- cancelled.
pub record TaskRunner : Type 0 where
  pub host : Host
  pub has_driver : String → Bool
  pub executor : AttemptExecutor
  pub provider : String → Option Provider
  pub conduct : ℕ → Conduct
  pub sleep_cancelled : ℕ → Bool

-- `trigger_type.name.lower()`
abbrev pub trigger_name : TriggerType → String
trigger_name TriggerType.auto = "auto"
trigger_name TriggerType.manual = "manual"
trigger_name TriggerType.retry = "retry"

-- The values of a new row; the table gives the identifier.
abbrev pub new_execution : Task → TriggerType → ℕ → Option ℕ → TaskExecution
new_execution task trigger attempt previous = record {
  id = 0;
  task_id = task.id;
  provider = task.provider;
  config = task.config;
  trigger_type = trigger;
  status = ExecutionStatus.pending;
  retry_attempt = attempt;
  previous_execution_id = previous;
  started_at = none;
  finished_at = none;
  duration_ms = none;
  result_message = none;
  result_data = none;
  logs = [];
  error_message = none;
  error_traceback = none;
}

-- `create_execution`; a task that has vanished is a `RuntimeError`.
unfoldable pub create_execution : ℕ → TriggerType → Exec World ℕ
create_execution task_id trigger = in_transaction do
  found ← on_db (get_task task_id)
  task ← or_raise found Error.unexpected
  x ← on_db (add_execution (new_execution task trigger 0 none))
  pure x.id

-- `_create_retry`
unfoldable pub create_retry : ℕ → ℕ → ℕ → Exec World ℕ
create_retry task_id attempt previous_id = in_transaction do
  found ← on_db (get_task task_id)
  task ← or_raise found Error.unexpected
  x ← on_db (add_execution (new_execution task TriggerType.retry attempt (some previous_id)))
  pure x.id

module _ (r : TaskRunner) where
  -- `_emit`
  abbrev pub publish_event : EventType → ℕ → ℕ → Exec World Unit
  publish_event type execution_id task_id =
      emit r.host r.has_driver
        (record { type = type; execution_id = some execution_id; task_id = some task_id })

  -- `_load_pair`
  unfoldable pub load_pair : ℕ → ℕ → Exec World (Option Task × Option TaskExecution)
  load_pair task_id execution_id =
      in_transaction
        do task ← on_db (get_task task_id); x ← on_db (get_execution execution_id); pure (task, x)

  -- `_fail_missing_provider`, the write
  unfoldable pub write_missing_provider : ℕ → String → Exec World Bool
  write_missing_provider execution_id provider = in_transaction do
    found ← on_db (get_execution execution_id)
    maybe found (pure false) λ x. do
      now ← utc_now r.host
      on_db (
          update_execution x.id (λ row. record row {
            status = ExecutionStatus.failed;
            finished_at = some now;
            error_message = some (fstring ("Provider '" ∷ provider ∷ "' does not exist" ∷ []));
          }))
      pure true

  -- `_fail_missing_provider`
  unfoldable pub fail_missing_provider : ℕ → ℕ → String → Exec World Unit
  unfolding write_missing_provider emit
  fail_missing_provider task_id execution_id provider = do
    written ← write_missing_provider execution_id provider
    if written
        then publish_event (EventType.finished ExecutionStatus.failed) execution_id task_id
        else pure tt

  -- The transaction of one attempt after its two reads; `none` is the early return when a row has
  -- gone.
  unfoldable pub run_found :
      Provider
      → TriggerType
      → ℕ
      → Option Task
      → Option TaskExecution
      → Exec World (Option ExecutionStatus)
  run_found provider trigger attempt (some task) (some x) = do
    status ← execute r.host r.executor task x provider (trigger_name trigger) (r.conduct attempt)
    pure (some status)
  run_found provider trigger attempt _ _ = pure none

  unfoldable pub run_attempt :
      ℕ → ℕ → Provider → TriggerType → ℕ → Exec World (Option ExecutionStatus)
  unfolding run_found
  run_attempt task_id execution_id provider trigger attempt = in_transaction do
    found_task ← on_db (get_task task_id)
    found ← on_db (get_execution execution_id)
    run_found provider trigger attempt found_task found

  -- `status in {ExecutionStatus.COMPLETED, ExecutionStatus.CANCELLED}`
  abbrev pub ends_run : ExecutionStatus → Bool
  ends_run ExecutionStatus.completed = true
  ends_run ExecutionStatus.cancelled = true
  ends_run _ = false

  -- `await asyncio.sleep(task.retry_interval_seconds)`
  abbrev pub sleep_between : ℕ → Exec World Unit
  sleep_between attempt = if r.sleep_cancelled attempt then raise Error.cancelled else pure tt

  -- The end of a round: `return`, or the row of the retry, the wait and the next round, `again`.
  unfoldable pub end_round : Bool → ℕ → ℕ → ℕ → (ℕ → Exec World Unit) → Exec World Unit
  unfolding create_retry
  end_round true task_id attempt execution_id again = pure tt
  end_round false task_id attempt execution_id again = do
    next_id ← create_retry task_id (attempt + 1) execution_id
    sleep_between attempt
    again next_id

  -- The rest of a round after an attempt has returned a status.
  unfoldable pub after_attempt :
      ℕ → Task → ℕ → ℕ → (ℕ → Exec World Unit) → ExecutionStatus → Exec World Unit
  unfolding emit end_round
  after_attempt task_id task attempt execution_id again status = do
    publish_event (EventType.finished status) execution_id task_id
    end_round (ends_run status || leb task.max_retries attempt) task_id attempt execution_id again

  -- A round with both rows and the provider at hand.
  unfoldable pub run_round :
      ℕ → Task → Provider → TriggerType → ℕ → ℕ → (ℕ → Exec World Unit) → Exec World Unit
  unfolding emit run_attempt after_attempt
  run_round task_id task provider trigger attempt execution_id again = do
    publish_event EventType.started execution_id task_id
    status ← run_attempt task_id execution_id provider trigger attempt
    maybe status (pure tt) (after_attempt task_id task attempt execution_id again)

  -- The early returns at the head of a round.
  unfoldable pub start_round : ℕ → TriggerType → ℕ → ℕ → (ℕ → Exec World Unit) → Exec World Unit
  unfolding load_pair fail_missing_provider run_round
  start_round task_id trigger attempt execution_id again = do
    (found_task, found) ← load_pair task_id execution_id
    maybe found_task (pure tt) λ task. maybe found (pure tt) λ x.
        maybe (r.provider task.provider) (fail_missing_provider task_id execution_id task.provider)
          λ provider. run_round task_id task provider trigger attempt execution_id again

  -- The loop of `run_existing`, on fuel.
  unfoldable pub run_loop : ℕ → ℕ → TriggerType → ℕ → ℕ → Exec World Unit
  unfolding start_round
  run_loop zero task_id trigger attempt execution_id = raise Error.out_of_fuel
  run_loop (suc fuel) task_id trigger attempt execution_id =
      start_round task_id trigger attempt execution_id
        (λ next_id. run_loop fuel task_id TriggerType.retry (attempt + 1) next_id)

  -- `run_existing`
  unfoldable pub run_existing : ℕ → ℕ → ℕ → TriggerType → Exec World Unit
  unfolding run_loop
  run_existing fuel task_id execution_id trigger = run_loop fuel task_id trigger 0 execution_id

  -- `cancel_execution`, the write; the result is the task whose execution was cancelled.
  unfoldable pub write_cancelled : ℕ → Exec World (Option ℕ)
  write_cancelled execution_id = in_transaction do
    found ← on_db (get_execution execution_id)
    maybe found (pure none) λ x. if is_terminal x.status then pure none else do
      now ← utc_now r.host
      on_db (
          update_execution x.id (λ row. record row {
            status = ExecutionStatus.cancelled;
            finished_at = some now;
            error_message = some "执行被取消";
          }))
      pure (some x.task_id)

  -- `cancel_execution`
  unfoldable pub cancel_execution : ℕ → Exec World Unit
  unfolding write_cancelled emit
  cancel_execution execution_id = do
    cancelled ← write_cancelled execution_id
    maybe cancelled (pure tt)
        λ task_id. publish_event (EventType.finished ExecutionStatus.cancelled) execution_id task_id

  -- `except asyncio.CancelledError: await self.runner.cancel_execution(execution_id); raise`
  unfoldable pub on_cancel : ℕ → Result (Unit {0}) → Exec World Unit
  unfolding cancel_execution
  on_cancel execution_id (err Error.cancelled) = do
    cancel_execution execution_id
    raise Error.cancelled
  on_cancel execution_id result = lift result

  -- `_run_with_concurrency`, inside the semaphore
  unfoldable pub run_task : ℕ → ℕ → TriggerType → Exec World Unit
  unfolding create_execution run_existing on_cancel
  run_task fuel task_id trigger = do
    execution_id ← create_execution task_id trigger
    λ w.
        let (result, w') = run_existing fuel task_id execution_id trigger w in
        on_cancel execution_id result w'
