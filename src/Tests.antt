-- ===== src/Tests.antt =====
-- Concrete inputs for the theorems: a host, a cron expression that fires every minute, and rows.
mod Runs
mod Tables
mod Services
mod Access
mod Plugins
mod Follow
mod Polling
mod Paging
mod Providers
mod Starting
use qiankun.Prelude.{
  ℕ, ◌+◌, ◌*◌, ◌<◌, ◌≡◌, String, Bool, true, false, Option, none, some, List, [], ◌∷◌, arith,
  str_eq,
}
use qiankun.Prelude.Json.{Value, Fields, JsonInt, empty_dict}
use qiankun.Runtime.Enums.{ExecutionStatus, TriggerType}
use qiankun.Runtime.Logger.{Patterns}
use qiankun.Runtime.LogStream.{new_stream}
use qiankun.Infrastructure.Database.{Task, TaskExecution, Db}
use qiankun.Engine.World.{World, Host}
use qiankun.Scheduler.Calculator.{Cron, IsAdvancing}
use qiankun.Scheduler.Attempt.{
  Opening, Running, Closing, Conduct, AttemptExecutor, Provider, ProviderResult,
}

abbrev pub masking : Patterns
masking = record {
  key_search = str_eq "token";
  sub_url = λ t. t;
  sub_value = λ t. t;
  replace = λ old new t. t;
}

abbrev pub machine : Host
machine = record {
  clock = λ n. 1000000 + n * 1000;
  patterns = masking;
  isoformat = λ n. "2026-01-01T00:00:00Z";
  show_uuid = λ n. "id";
  show_int = λ n. "n";
  parse_int = λ t. none;
}

abbrev pub every_minute : Cron
every_minute = record { parses = λ e. true; get_next = λ e t. some (t + 60) }

pub every_minute-IsAdvancing : IsAdvancing every_minute
every_minute-IsAdvancing = record {
  advances = λ e t n h. let same : t + 60 ≡ n = cc in omega arith;
}

abbrev pub report : Task
report = record {
  id = 1;
  name = "report";
  provider = "probe";
  config = empty_dict;
  cron_expression = "* * * * *";
  enabled = true;
  timeout = none;
  max_retries = 2;
  retry_interval_seconds = 60;
  notification_config = empty_dict;
  next_run_time = some 100;
  last_run_time = none;
}

abbrev pub paused : Task
paused = record report { id = 2; name = "paused"; enabled = false; next_run_time = none }

abbrev pub waiting : TaskExecution
waiting = record {
  id = 10;
  task_id = 1;
  provider = "probe";
  config = empty_dict;
  trigger_type = TriggerType.auto;
  status = ExecutionStatus.pending;
  retry_attempt = 0;
  previous_execution_id = none;
  started_at = none;
  finished_at = none;
  duration_ms = none;
  result_message = none;
  result_data = none;
  logs = [];
  error_message = none;
  error_traceback = none;
}

abbrev pub ended : TaskExecution
ended = record waiting {
  id = 11;
  status = ExecutionStatus.completed;
  started_at = some 5;
  finished_at = some 9;
}

abbrev pub tables : Db
tables = record {
  tasks = report ∷ paused ∷ [];
  executions = waiting ∷ ended ∷ [];
  settings = [];
  next_id = 20;
}

abbrev pub start : World
start = record {
  db = tables;
  stream = new_stream 2 2 2;
  reads = 0;
  open_sessions = 0;
  events = [];
  deliveries = [];
}

abbrev pub with_browser : AttemptExecutor
with_browser = record { default_timeout = 300; cleanup_timeout = 10; has_browser_runtime = true }

abbrev pub browsing : Provider
browsing = record { needs_browser = true }

abbrev pub success : ProviderResult
success = record { success = true; message = "done"; payload = empty_dict }

abbrev pub smooth : Conduct
smooth = record {
  opening = Opening.opened;
  running = Running.returned success;
  closing = Closing.closed;
}

abbrev pub stopped : Conduct
stopped = record smooth { running = Running.interrupted }

abbrev pub stuck : Conduct
stuck = record smooth { closing = Closing.close_raised }
