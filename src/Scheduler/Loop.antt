-- ===== src/Scheduler/Loop.antt =====
-- app/application/services/scheduler/scheduler.py: polls with their transactions, and the loop that makes
-- them. Nothing comes between the two halves of a poll here. A round of the loop says what the clock,
-- the database and a cancellation do in it; an exception of the database takes the place of its transaction.
pub mod Polls
pub mod Cancellation
pub mod Survival
use qiankun.Prelude.{
  ℕ, zero, suc, String, Bool, true, false, Option, none, some, List, [], ◌∷◌, ◌++◌, map, maybe,
  if◌then◌else◌,
}
use qiankun.Prelude.Lists.{length}
use qiankun.Prelude.Exec.{
  Error, Exec, Result, ok, err, pure, raise, modify, transaction, ◌>>=◌, ◌>>◌,
}
use qiankun.Infrastructure.Database.{Db}
use qiankun.Infrastructure.Repositories.Executions.{cancel_orphan_running}
use qiankun.Scheduler.Calculator.{Cron}
use qiankun.Scheduler.Policy.{ClaimedTask, schedule_due_tasks, fill_missing_next_run_time}
use qiankun.Scheduler.Registration.{TaskScheduler, begin_poll, end_poll, backoff}

-- The tables and the scheduler
pub record Service : Type 0 where
  pub db : Db
  pub scheduler : TaskScheduler
  pub should_stop : Bool

-- `async with self.uow_factory() as uow`, with an exception of the database or without one
abbrev pub session : {A : Type 0} → Option Error → Exec Db A → Exec Service A
session none m v = let (r, db) = transaction m v.db in (r, record v { db = db })
session (some e) m v = (err e, v)

-- `recover_orphans`
unfoldable pub recover_orphans : ℕ → Exec Service ℕ
recover_orphans now =
    session none (cancel_orphan_running "Server restarted, execution state unknown" now)

-- `start`, up to the spawning of the loop
unfoldable pub start : ℕ → Exec Service Unit
unfolding recover_orphans
start now = do count ← recover_orphans now; modify (λ v. record v { should_stop = false })

-- `for item in claimed`
unfoldable pub register_claimed : List ClaimedTask → Exec Service ℕ
register_claimed claimed v = (
  ok (length claimed),
  record v { scheduler = end_poll (map (λ c. c.task_id) claimed) v.scheduler },
)

unfoldable pub poll_slots : Cron → ℕ → Option Error → Option (List ℕ × ℕ) → Exec Service ℕ
unfolding register_claimed
poll_slots cron now fault none = pure 0
poll_slots cron now fault (some (running_ids, available_slots)) = do
  claimed ← session fault (schedule_due_tasks cron now running_ids available_slots)
  register_claimed claimed

-- `TaskScheduler.schedule_due_tasks`
unfoldable pub poll : Cron → ℕ → Option Error → Exec Service ℕ
unfolding poll_slots
poll cron now fault v = poll_slots cron now fault (begin_poll v.scheduler) v

-- What happens in one round.
pub record Round : Type 0 where
  pub now : ℕ
  pub fill_now : ℕ
  pub claim_fault : Option Error
  pub fill_fault : Option Error
  pub sleep_cancelled : Bool

-- The body of the `try` statement, up to the sleep
unfoldable pub loop_body : Cron → Round → Exec Service ℕ
unfolding poll
loop_body cron r = do
  claimed ← poll cron r.now r.claim_fault
  session r.fill_fault (fill_missing_next_run_time cron r.fill_now)

-- The local variable of the loop, and the seconds of its sleeps
pub record Looping : Type 0 where
  pub service : Service
  pub consecutive_errors : ℕ
  pub waits : List ℕ

abbrev pub sleep : Bool → ℕ → Exec Looping Unit
sleep cancelled seconds l =
    (if cancelled then err Error.cancelled else ok tt, record l { waits = l.waits ++ seconds ∷ [] })

abbrev pub is_cancelled : Error → Bool
is_cancelled Error.cancelled = true
is_cancelled _ = false

-- The rest of the `try` statement
unfoldable pub after_body : ℕ → Bool → Result ℕ → Exec Looping Unit
after_body interval cancelled (ok _) l =
    sleep cancelled interval (record l { consecutive_errors = 0 })
after_body interval cancelled (err e) l =
    let n = suc l.consecutive_errors in
    if is_cancelled e
    then (err e, l)
    else sleep cancelled (backoff n) (record l { consecutive_errors = n })

unfoldable pub loop_round : Cron → ℕ → Round → Exec Looping Unit
unfolding loop_body after_body
loop_round cron interval r l =
    let (result, v) = loop_body cron r l.service in
    after_body interval r.sleep_cancelled result (record l { service = v })

-- `_schedule_loop`, over the rounds that begin before `_should_stop` is set
unfoldable pub schedule_loop : Cron → ℕ → List Round → Exec Looping Unit
unfolding loop_round
schedule_loop cron interval [] = pure tt
schedule_loop cron interval (r ∷ rounds) = do
  loop_round cron interval r
  schedule_loop cron interval rounds
