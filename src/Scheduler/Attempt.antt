-- ===== src/Scheduler/Attempt.antt =====
-- app/application/services/scheduler/attempt.py: one provider attempt, with timeout, cancellation
-- and error normalization. What the provider, the browser and the event loop do during the attempt
-- is its `Conduct`. The loguru sink beside the log stream is left out.
pub mod Terminal
pub mod Lost
use qiankun.Prelude.{
  ℕ, zero, suc, ◌+◌, ◌-◌, String, Bool, true, false, Option, none, some, List, [], ◌∷◌, str_eq,
  maybe, if◌then◌else◌,
}
use qiankun.Prelude.Exec.{Error, Exec, ok, pure, raise, modify, ◌>>=◌, ◌>>◌}
use qiankun.Prelude.Json.{Value, Fields, JsonInt, empty_dict}
use qiankun.Prelude.Text.{fstring}
use qiankun.Runtime.Enums.{ExecutionStatus, TriggerType, status_name}
use qiankun.Runtime.Logger.{redact, redact_text}
use qiankun.Runtime.LogStream.{publish, collect}
use qiankun.Infrastructure.Database.{Task, TaskExecution, Db}
use qiankun.Infrastructure.Repositories.Executions.{get_execution, update_execution}
use qiankun.Engine.World.{World, Host, utc_now, on_db, on_stream, duration_ms}

-- `ProviderResult`; its `data` is a dict, and its `logs` are never read.
pub record ProviderResult : Type 0 where
  pub success : Bool
  pub message : String
  pub payload : Value

-- `session_cm.__aenter__()`. An error carries `f"{type(error).__name__}: {error}"` and the
-- traceback. A generator that has raised is finished, so its `__aexit__` does nothing.
pub data Opening : Type 0 where
  opened : Opening
  open_raised : String → String → Opening
  open_cancelled : Opening

-- `provider.run` inside `asyncio.timeout(timeout)`
pub data Running : Type 0 where
  returned : ProviderResult → Running
  timed_out : Running
  raised : String → String → Running
  interrupted : Running

-- `session_cm.__aexit__` inside `asyncio.timeout(self.cleanup_timeout)`
pub data Closing : Type 0 where
  closed : Closing
  close_timed_out : Closing
  close_raised : Closing
  close_cancelled : Closing

pub record Conduct : Type 0 where
  pub opening : Opening
  pub running : Running
  pub closing : Closing

-- `AttemptExecutor.__init__` and `attach_browser_runtime`
pub record AttemptExecutor : Type 0 where
  pub default_timeout : ℕ
  pub cleanup_timeout : ℕ
  pub has_browser_runtime : Bool

-- What the program asks of a provider class.
pub record Provider : Type 0 where
  pub needs_browser : Bool

-- `StreamLogger._write`; the stream reads the clock for its own timestamp.
abbrev pub write_log : Host → ℕ → String → String → Value → Exec World Unit
write_log h id level message context = do
  now ← utc_now h
  modify (λ w. record w {
    stream = publish h.patterns (h.isoformat now) id level message context w.stream;
  })

-- `result_data or None`
abbrev pub or_none : Value → Option Value
or_none (Value.dict Fields.end) = none
or_none other = some other

-- `redact(result_message) if result_message else None`
abbrev pub stored_message : Host → String → Option String
stored_message h message =
    if str_eq message "" then none else some (redact_text h.patterns [] message)

abbrev pub stored_data : Host → Option Value → Option Value
stored_data h found = maybe found none (λ v. some (redact h.patterns [] v))

-- What `execute` has at hand when it comes to `_finalize`.
pub record Outcome : Type 0 where
  pub status : ExecutionStatus
  pub result_message : String
  pub result_data : Option Value
  pub error_message : Option String
  pub error_traceback : Option String

-- The terminal fields of the row.
abbrev pub terminal_fields : Host → Outcome → ℕ → ℕ → List Value → TaskExecution → TaskExecution
terminal_fields h o started_at finished_at logs x = record x {
  status = o.status;
  finished_at = some finished_at;
  duration_ms = some (duration_ms started_at finished_at);
  result_message = stored_message h o.result_message;
  result_data = stored_data h o.result_data;
  logs = logs;
  error_message = o.error_message;
  error_traceback = o.error_traceback;
}

-- `_finalize`
unfoldable pub finalize : Host → ℕ → ℕ → Outcome → Exec World Unit
finalize h id started_at o = do
  finished_at ← utc_now h
  persisted_logs ← on_stream (collect id)
  row ← on_db (get_execution id)
  maybe row (pure tt)
      λ _. on_db (update_execution id (terminal_fields h o started_at finished_at persisted_logs))

-- `task.timeout or self.default_timeout`
abbrev pub effective_timeout : AttemptExecutor → Task → ℕ
effective_timeout executor task =
    maybe task.timeout executor.default_timeout
      (λ t. elim t [ zero ↦ executor.default_timeout | suc n ↦ suc n ])

-- How the `try` block ends.
pub data Ending : Type 0 where
  unavailable : Outcome → Ending
  done : Outcome → Ending
  stopped : Outcome → Ending

abbrev pub no_browser_outcome : Outcome
no_browser_outcome = record {
  status = ExecutionStatus.failed;
  result_message = "";
  result_data = none;
  error_message = some "浏览器能力未配置 (browser/cdp system_settings)";
  error_traceback = none;
}

-- `except asyncio.CancelledError`
abbrev pub cancelled_outcome : Outcome
cancelled_outcome = record {
  status = ExecutionStatus.cancelled;
  result_message = "";
  result_data = none;
  error_message = some "执行被取消";
  error_traceback = none;
}

-- `except Exception as error`
abbrev pub raised_outcome : String → String → Outcome
raised_outcome error traceback = record {
  status = ExecutionStatus.failed;
  result_message = "";
  result_data = none;
  error_message = some error;
  error_traceback = some traceback;
}

-- The provider's run and its `except TimeoutError … else`.
unfoldable pub run_ending : Host → ℕ → Running → Ending
run_ending h timeout (returned r) = Ending.done (record {
  status = if r.success then ExecutionStatus.completed else ExecutionStatus.failed;
  result_message = r.message;
  result_data = or_none r.payload;
  error_message = none;
  error_traceback = none;
})
run_ending h timeout timed_out = Ending.done (record {
  status = ExecutionStatus.timeout;
  result_message = "";
  result_data = none;
  error_message = some (fstring ("任务执行超时: " ∷ h.show_int timeout ∷ " 秒" ∷ []));
  error_traceback = none;
})
run_ending h timeout (raised error traceback) = Ending.done (raised_outcome error traceback)
run_ending h timeout interrupted = Ending.stopped cancelled_outcome

-- The `try` block: whether a session stands open after it, and how it ended.
unfoldable pub open_ending : Host → ℕ → Conduct → Bool × Ending
unfolding run_ending
open_ending h timeout c = elim c.opening [
  | Opening.opened ↦ (true, run_ending h timeout c.running)
  | Opening.open_raised error traceback ↦ (false, Ending.done (raised_outcome error traceback))
  | Opening.open_cancelled ↦ (false, Ending.stopped cancelled_outcome)
]

unfoldable pub try_block : Host → AttemptExecutor → Task → Provider → Conduct → Bool × Ending
unfolding open_ending
try_block h executor task provider c =
    if provider.needs_browser
    then if executor.has_browser_runtime
      then open_ending h (effective_timeout executor task) c
      else (false, Ending.unavailable no_browser_outcome)
    else (false, run_ending h (effective_timeout executor task) c.running)

abbrev pub count_session : Bool → World → World
count_session true w = record w { open_sessions = w.open_sessions + 1 }
count_session false w = w

abbrev pub drop_session : World → World
drop_session w = record w { open_sessions = w.open_sessions - 1 }

-- The teardown of the session, where one stands open. Only `TimeoutError` is caught.
unfoldable pub close_session : Host → AttemptExecutor → ℕ → Bool → Closing → Exec World Unit
close_session h executor id false closing = pure tt
close_session h executor id true Closing.closed = modify drop_session
close_session h executor id true Closing.close_timed_out =
    write_log h id "WARNING"
      (fstring ("浏览器会话清理超时 (" ∷ h.show_int executor.cleanup_timeout ∷ "s), 不再等待" ∷ [])) empty_dict
close_session h executor id true Closing.close_raised = raise Error.unexpected
close_session h executor id true Closing.close_cancelled = raise Error.cancelled

-- What follows the `try` block.
unfoldable pub after_try :
    Host → AttemptExecutor → ℕ → ℕ → Closing → Bool → Ending → Exec World ExecutionStatus
unfolding finalize close_session
after_try h executor id started_at closing session (Ending.unavailable o) = do
  finalize h id started_at o
  pure o.status
after_try h executor id started_at closing session (Ending.stopped o) = do
  finalize h id started_at o
  raise Error.cancelled
after_try h executor id started_at closing session (Ending.done o) = do
  close_session h executor id session closing
  finalize h id started_at o
  write_log h id "INFO" (fstring ("执行结束 status=" ∷ status_name o.status ∷ []))
      (Value.dict (Fields.field "status" (Value.str (status_name o.status)) Fields.end))
  pure o.status

-- `execution.status = RUNNING; execution.started_at = started_at`
abbrev pub start_fields : ℕ → TaskExecution → TaskExecution
start_fields started_at x = record x {
  status = ExecutionStatus.running;
  started_at = some started_at;
}

-- `AttemptExecutor.execute`
unfoldable pub execute :
    Host
    → AttemptExecutor
    → Task
    → TaskExecution
    → Provider
    → String
    → Conduct
    → Exec World ExecutionStatus
unfolding try_block after_try
execute h executor task x provider trigger c = do
  started_at ← utc_now h
  write_log h x.id "INFO"
      (fstring ("开始执行 attempt=" ∷ h.show_int x.retry_attempt ∷ " trigger=" ∷ trigger ∷ []))
      (Value.dict (Fields.field "provider" (Value.str task.provider) Fields.end))
  on_db (update_execution x.id (start_fields started_at))
  let (session, ending) = try_block h executor task provider c
  modify (count_session session)
  after_try h executor x.id started_at c.closing session ending
