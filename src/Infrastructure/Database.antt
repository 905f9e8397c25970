-- ===== src/Infrastructure/Database.antt =====
-- app/infrastructure/database: the rows of the three tables (models/task.py,
-- models/task_execution.py, models/system_setting.py) and the state of the database. Identifiers
-- (UUIDs) are numbers that are only compared, and times are numbers of microseconds. A table is
-- the list of its rows, oldest first, and `gen_random_uuid()` gives the next unused number.
pub mod Rows
use qiankun.Prelude.{ℕ, String, Bool, Option, List}
use qiankun.Prelude.Json.{Value, JsonInt}
use qiankun.Runtime.Enums.{ExecutionStatus, TriggerType}

pub record Task : Type 0 where
  pub id : ℕ
  pub name : String
  pub provider : String
  pub config : Value
  pub cron_expression : String
  pub enabled : Bool
  pub timeout : Option ℕ
  pub max_retries : ℕ
  pub retry_interval_seconds : ℕ
  pub notification_config : Value
  pub next_run_time : Option ℕ
  pub last_run_time : Option ℕ

-- `previous_execution_id` is the one key of `metadata_` that the program writes.
pub record TaskExecution : Type 0 where
  pub id : ℕ
  pub task_id : ℕ
  pub provider : String
  pub config : Value
  pub trigger_type : TriggerType
  pub status : ExecutionStatus
  pub retry_attempt : ℕ
  pub previous_execution_id : Option ℕ
  pub started_at : Option ℕ
  pub finished_at : Option ℕ
  pub duration_ms : Option JsonInt
  pub result_message : Option String
  pub result_data : Option Value
  pub logs : List Value
  pub error_message : Option String
  pub error_traceback : Option String

pub record SystemSetting : Type 0 where
  pub scope : String
  pub key : String
  pub type : String
  pub value : Value
  pub enabled : Bool
  pub description : String

pub record Db : Type 0 where
  pub tasks : List Task
  pub executions : List TaskExecution
  pub settings : List SystemSetting
  pub next_id : ℕ
