-- ===== src/Engine/World.antt =====
-- The state that a task run reads and writes: the database, the log stream, and what it has done
-- to the world outside. `utc_now()` (app/core/utils.py) gives one reading of the system's clock
-- after another, in microseconds.
use qiankun.Prelude.{ℕ, ◌+◌, ◌-◌, ◌/◌, String, Option, List, leb, ◌==◌, if◌then◌else◌}
use qiankun.Prelude.Exec.{Result, ok, err, Exec}
use qiankun.Prelude.Json.{Value, JsonInt}
use qiankun.Runtime.Enums.{ExecutionStatus}
use qiankun.Runtime.Logger.{Patterns}
use qiankun.Runtime.LogStream.{ExecutionLogStream}
use qiankun.Infrastructure.Database.{Db}

-- `Event.type`: "execution.started", or "execution." and the name of a status.
pub data EventType : Type 0 where
  started : EventType
  finished : ExecutionStatus → EventType

-- `Event`; the program emits no payload.
pub record Event : Type 0 where
  pub type : EventType
  pub execution_id : Option ℕ
  pub task_id : Option ℕ

-- `NotificationMessage` with the channel and the configuration that it is sent with.
pub record Delivery : Type 0 where
  pub channel : String
  pub config : Value
  pub title : String
  pub content : String

pub record World : Type 0 where
  pub db : Db
  pub stream : ExecutionLogStream
  pub reads : ℕ
  pub open_sessions : ℕ
  pub events : List Event
  pub deliveries : List Delivery

-- What the run takes from Python and from the machine.
pub record Host : Type 0 where
  pub clock : ℕ → ℕ
  pub patterns : Patterns
  pub isoformat : ℕ → String
  pub show_uuid : ℕ → String
  pub show_int : ℕ → String
  pub parse_int : String → Option JsonInt

-- `utc_now()`
abbrev pub utc_now : Host → Exec World ℕ
utc_now h w = (ok (h.clock w.reads), record w { reads = w.reads + 1 })

-- A statement in the session of the current transaction.
abbrev pub on_db : {A : Type 0} → Exec Db A → Exec World A
on_db m w = let (r, d) = m w.db in (r, record w { db = d })

abbrev pub on_stream : {A : Type 0} → (ExecutionLogStream → A × ExecutionLogStream) → Exec World A
on_stream m w = let (a, s) = m w.stream in (ok a, record w { stream = s })

abbrev pub close_transaction : {A : Type 0} → Db → Result A → World → Result A × World
close_transaction before (ok a) w = (ok a, w)
close_transaction before (err e) w = (err e, record w { db = before })

-- `async with self.uow_factory() as uow` around a block that also works on other things than the
-- database: only the database goes back when the block raises (`UnitOfWork.__aexit__`).
abbrev pub in_transaction : {A : Type 0} → Exec World A → Exec World A
in_transaction m w = let (r, w') = m w in close_transaction w.db r w'

-- `int((finished_at - started_at).total_seconds() * 1000)`, in microseconds and truncated towards
-- zero; the system's clock may have gone back.
abbrev pub duration_ms : ℕ → ℕ → JsonInt
duration_ms started_at finished_at =
    if leb started_at finished_at
    then JsonInt.nonnegative ((finished_at - started_at) / 1000)
    else if (started_at - finished_at) / 1000 == 0
    then JsonInt.nonnegative 0
    else JsonInt.negative ((started_at - finished_at) / 1000 - 1)
