-- ===== src/Scheduler/Attempt/Terminal.antt =====
-- `execute` of scheduler/attempt.py reaches exactly one terminal state, and writes it.
use qiankun.Prelude.{
  ℕ, ◌≡◌, refl, ◌∙◌, inl, inr, ap, String, Bool, true, false, Option, none, some, List, is_some,
  if◌then◌else◌, Bool-cases, if-elim,
}
use qiankun.Prelude.Exec.{Error, Result, ok, err}
use qiankun.Runtime.Enums.{ExecutionStatus, is_terminal}
use qiankun.Infrastructure.Database.{Task, TaskExecution}
use qiankun.Infrastructure.Database.Rows.{find_row, find_row-change_row_self}
use qiankun.Infrastructure.Repositories.Executions.{get_execution, update_execution}
use qiankun.Engine.World.{World, Host}
use qiankun.Scheduler.Attempt.{
  Outcome, Opening, Running, Closing, Conduct, AttemptExecutor, Provider, Ending, start_fields,
  finalize, run_ending, open_ending, try_block, close_session, after_try, execute, count_session,
  effective_timeout,
}

abbrev pub find_execution : ℕ → List TaskExecution → Option TaskExecution
find_execution = find_row (λ x. x.id)

-- The row is there, with this status and an end time.
abbrev pub IsSettled : ExecutionStatus → ℕ → World → Type 0
IsSettled s id w =
    (x : TaskExecution) × (find_execution id w.db.executions ≡ some x)
    × (x.status ≡ s)
    × (is_some x.finished_at ≡ true)

module _ (h : Host) (executor : AttemptExecutor) (id started_at : ℕ) where
  finalize-IsSettled :
      (o : Outcome) (w : World) (x : TaskExecution)
      → find_execution id w.db.executions ≡ some x
      → ((finalize h id started_at o w).0 ≡ ok tt)
        × IsSettled o.status id (finalize h id started_at o w).1
  unfolding finalize get_execution update_execution
  finalize-IsSettled o w x found = rw found (
    refl,
    (_, find_row-change_row_self (λ r. r.id) id _ x w.db.executions (λ r. refl) found, refl, refl),
  )

-- The teardown ends without an exception.
abbrev pub IsQuiet : Closing → Type 0
IsQuiet Closing.closed = Unit
IsQuiet Closing.close_timed_out = Unit
IsQuiet _ = ⊥

-- A cancelled attempt does not come to the teardown.
abbrev pub IsQuietIf : Option ExecutionStatus → Closing → Type 0
IsQuietIf none closing = Unit
IsQuietIf (some _) closing = IsQuiet closing

count_session-db : (session : Bool) (w : World) → (count_session session w).db ≡ w.db
count_session-db true w = refl
count_session-db false w = refl

-- The status that the provider's run decides; `none` is a cancellation.
abbrev pub run_verdict : Running → Option ExecutionStatus
run_verdict (Running.returned r) =
    some (if r.success then ExecutionStatus.completed else ExecutionStatus.failed)
run_verdict Running.timed_out = some ExecutionStatus.timeout
run_verdict (Running.raised _ _) = some ExecutionStatus.failed
run_verdict Running.interrupted = none

abbrev pub open_verdict : Opening → Running → Option ExecutionStatus
open_verdict Opening.opened running = run_verdict running
open_verdict (Opening.open_raised _ _) running = some ExecutionStatus.failed
open_verdict Opening.open_cancelled running = none

-- The status that an attempt should end with: what the provider's run decides, but failed where a
-- browser is needed and there is none or it cannot be opened.
abbrev pub verdict : AttemptExecutor → Provider → Conduct → Option ExecutionStatus
verdict executor provider c =
    if provider.needs_browser
    then if executor.has_browser_runtime
      then open_verdict c.opening c.running
      else some ExecutionStatus.failed
    else run_verdict c.running

abbrev Fits : Option ExecutionStatus → Ending → Type 0
Fits (some s) (Ending.done o) = (o.status ≡ s) × (is_terminal s ≡ true)
Fits (some s) (Ending.unavailable o) = (o.status ≡ s) × (is_terminal s ≡ true)
Fits none (Ending.stopped o) = o.status ≡ ExecutionStatus.cancelled
Fits _ _ = ⊥

run_ending-Fits :
    (h : Host) (timeout : ℕ) (r : Running) → Fits (run_verdict r) (run_ending h timeout r)
unfolding run_ending
run_ending-Fits h timeout (Running.returned r) =
    (refl, if-elim (λ s. is_terminal s ≡ true) r.success (λ _. refl) (λ _. refl))
run_ending-Fits h timeout Running.timed_out = (refl, refl)
run_ending-Fits h timeout (Running.raised e t) = (refl, refl)
run_ending-Fits h timeout Running.interrupted = refl

open_ending-Fits :
    (h : Host) (timeout : ℕ) (o : Opening) (r : Running) (c : Closing)
    → Fits
        (open_verdict o r)
        (open_ending h timeout (record { opening = o; running = r; closing = c })).1
unfolding open_ending
open_ending-Fits h timeout Opening.opened r c = run_ending-Fits h timeout r
open_ending-Fits h timeout (Opening.open_raised e t) r c = (refl, refl)
open_ending-Fits h timeout Opening.open_cancelled r c = refl

try_block-Fits :
    (h : Host) (executor : AttemptExecutor) (task : Task) (provider : Provider) (c : Conduct)
    → Fits (verdict executor provider c) (try_block h executor task provider c).1
unfolding try_block
try_block-Fits h executor task provider c = elim (Bool-cases provider.needs_browser) [
  | inr plain ↦ simp plain (run_ending-Fits h (effective_timeout executor task) c.running)
  | inl browser ↦ elim (Bool-cases executor.has_browser_runtime) [
    | inl attached ↦
        simp (browser, attached)
          (open_ending-Fits h (effective_timeout executor task) c.opening c.running c.closing)
    | inr missing ↦ simp (browser, missing) (refl, refl)
  ]
]

module _ (h : Host) (executor : AttemptExecutor) (id started_at : ℕ) where
  close_session-quiet :
      (session : Bool) (closing : Closing) (w : World)
      → IsQuiet closing
      → ((close_session h executor id session closing w).0 ≡ ok tt)
        × ((close_session h executor id session closing w).1.db ≡ w.db)
  unfolding close_session
  close_session-quiet false closing w q = (refl, refl)
  close_session-quiet true Closing.closed w q = (refl, refl)
  close_session-quiet true Closing.close_timed_out w q = (refl, refl)
  close_session-quiet true Closing.close_raised w q = absurd q
  close_session-quiet true Closing.close_cancelled w q = absurd q

  -- The result of the attempt, and the row that it leaves in the session.
  abbrev pub Ends : Option ExecutionStatus → Result ExecutionStatus × World → Type 0
  Ends (some s) r = (r.0 ≡ ok s) × (is_terminal s ≡ true) × IsSettled s id r.1
  Ends none r = (r.0 ≡ err Error.cancelled) × IsSettled ExecutionStatus.cancelled id r.1

  after_try-Ends :
      (v : Option ExecutionStatus) (session : Bool) (ending : Ending) (closing : Closing)
      (w : World) (x : TaskExecution)
      → find_execution id w.db.executions ≡ some x
      → IsQuietIf v closing
      → Fits v ending
      → Ends v (after_try h executor id started_at closing session ending w)
  unfolding after_try
  after_try-Ends (some s) session (Ending.done o) closing w x found quiet (same, terminal) =
      let (passed, db_kept) = close_session-quiet session closing w quiet in
      let w₁ = (close_session h executor id session closing w).1 in
      let (fine, settled) = finalize-IsSettled h executor id started_at o w₁ x (rw db_kept found) in
      rw passed
        (rw fine (ap ok same, terminal, (settled.0, settled.1, settled.2 ∙ same, settled.3)))
  after_try-Ends (some s) session (Ending.unavailable o) closing w x found quiet (same, terminal) =
      let (fine, settled) = finalize-IsSettled h executor id started_at o w x found in
      rw fine (ap ok same, terminal, (settled.0, settled.1, settled.2 ∙ same, settled.3))
  after_try-Ends (some s) session (Ending.stopped o) closing w x found quiet fits = absurd fits
  after_try-Ends none session (Ending.stopped o) closing w x found quiet same =
      let (fine, settled) = finalize-IsSettled h executor id started_at o w x found in
      rw fine (refl, (settled.0, settled.1, settled.2 ∙ same, settled.3))
  after_try-Ends none session (Ending.done o) closing w x found quiet fits = absurd fits
  after_try-Ends none session (Ending.unavailable o) closing w x found quiet fits = absurd fits

-- One attempt on a row that is there. Where the provider's run decides a status and the teardown of
-- the browser session ends without an exception, the attempt returns that status, which is terminal,
-- and the row has it, with its end time. Where the attempt is cancelled it raises the cancellation,
-- and within the transaction the row is cancelled, with its end time.
pub execute-Ends :
    (h : Host) (executor : AttemptExecutor) (task : Task) (x row : TaskExecution)
    (provider : Provider) (trigger : String) (c : Conduct) (w : World)
    → find_execution x.id w.db.executions ≡ some row
    → IsQuietIf (verdict executor provider c) c.closing
    → Ends h executor x.id
        (h.clock w.reads)
        (verdict executor provider c)
        (execute h executor task x provider trigger c w)
unfolding execute update_execution
execute-Ends h executor task x row provider trigger c w found quiet =
    let started_at = h.clock w.reads in
    let (session, ending) = try_block h executor task provider c in
    after_try-Ends h executor x.id started_at (verdict executor provider c) session ending c.closing
      _ (start_fields started_at row)
      (rw count_session-db
        (find_row-change_row_self (λ r. r.id) x.id _ row w.db.executions (λ r. refl) found))
      quiet (try_block-Fits h executor task provider c)
