-- ===== src/Runtime/Enums.antt =====
-- app/runtime/enums.py: the integer enums shared by the database and the scheduling engine.
use qiankun.Prelude.{String, ℕ, zero, suc, ◌≡◌, refl, Bool, true, false, Option, none, some}

pub data ExecutionStatus : Type 0 where
  pending running completed failed cancelled timeout : ExecutionStatus

-- `int(status)`
abbrev pub status_value : ExecutionStatus → ℕ
status_value ExecutionStatus.pending = 0
status_value ExecutionStatus.running = 1
status_value ExecutionStatus.completed = 2
status_value ExecutionStatus.failed = 3
status_value ExecutionStatus.cancelled = 4
status_value ExecutionStatus.timeout = 5

-- `ExecutionStatus(n)`; `none` is the `ValueError`.
abbrev pub status_of_value : ℕ → Option ExecutionStatus
status_of_value zero = some ExecutionStatus.pending
status_of_value (suc zero) = some ExecutionStatus.running
status_of_value (suc (suc zero)) = some ExecutionStatus.completed
status_of_value (suc (suc (suc zero))) = some ExecutionStatus.failed
status_of_value (suc (suc (suc (suc zero)))) = some ExecutionStatus.cancelled
status_of_value (suc (suc (suc (suc (suc zero))))) = some ExecutionStatus.timeout
status_of_value _ = none

-- `self in {self.COMPLETED, self.FAILED, self.CANCELLED, self.TIMEOUT}`
abbrev pub is_terminal : ExecutionStatus → Bool
is_terminal ExecutionStatus.completed = true
is_terminal ExecutionStatus.failed = true
is_terminal ExecutionStatus.cancelled = true
is_terminal ExecutionStatus.timeout = true
is_terminal _ = false

pub data TriggerType : Type 0 where
  auto manual retry : TriggerType

pub data NotifyStrategy : Type 0 where
  always on_success on_failure never : NotifyStrategy

-- `NotifyStrategy(n)`; `none` is the `ValueError`.
abbrev pub strategy_of_value : ℕ → Option NotifyStrategy
strategy_of_value zero = some NotifyStrategy.always
strategy_of_value (suc zero) = some NotifyStrategy.on_success
strategy_of_value (suc (suc zero)) = some NotifyStrategy.on_failure
strategy_of_value (suc (suc (suc zero))) = some NotifyStrategy.never
strategy_of_value _ = none

-- Reading back the stored integer gives the status.
pub status_of_value-status_value : (s : ExecutionStatus) → status_of_value (status_value s) ≡ some s
status_of_value-status_value ExecutionStatus.pending = refl
status_of_value-status_value ExecutionStatus.running = refl
status_of_value-status_value ExecutionStatus.completed = refl
status_of_value-status_value ExecutionStatus.failed = refl
status_of_value-status_value ExecutionStatus.cancelled = refl
status_of_value-status_value ExecutionStatus.timeout = refl

-- `status.name.lower()`
abbrev pub status_name : ExecutionStatus → String
status_name ExecutionStatus.pending = "pending"
status_name ExecutionStatus.running = "running"
status_name ExecutionStatus.completed = "completed"
status_name ExecutionStatus.failed = "failed"
status_name ExecutionStatus.cancelled = "cancelled"
status_name ExecutionStatus.timeout = "timeout"
