-- ===== src/Scheduler/Attempt/Lost.antt =====
-- What the transaction around `execute` of scheduler/attempt.py keeps of an attempt that raises.
use qiankun.Prelude.{
  subst, inl, inr, arith, Option-cases, ℕ, ◌+◌, ◌≡◌, refl, ◌∙◌, ap, String, true, none, some,
}
use qiankun.Prelude.Exec.{Error, Result, ok, err}
use qiankun.Runtime.Enums.{ExecutionStatus}
use qiankun.Infrastructure.Database.{Task, TaskExecution, Db}
use qiankun.Infrastructure.Repositories.Executions.{get_execution, update_execution}
use qiankun.Engine.World.{World, Host, in_transaction, close_transaction}
use qiankun.Scheduler.Attempt.{
  Outcome, Opening, Running, Closing, Conduct, AttemptExecutor, Provider, Ending, finalize,
  run_ending, open_ending, try_block, after_try, cancelled_outcome, execute, effective_timeout,
}
use qiankun.Scheduler.Attempt.Terminal.{
  find_execution, verdict, run_verdict, IsQuietIf, Ends, execute-Ends,
}

close_transaction-err :
    {A : Type 0} (before : Db) (r : Result A) (w : World) (e : Error)
    → r ≡ err e
    → (close_transaction before r w).1.db ≡ before
close_transaction-err before (ok a) w e h = cc
close_transaction-err before (err e') w e h = refl

close_transaction-result :
    {A : Type 0} (before : Db) (r : Result A) (w : World) → (close_transaction before r w).0 ≡ r
close_transaction-result before (ok a) w = refl
close_transaction-result before (err e) w = refl

abbrev attempt :
    Host
    → AttemptExecutor
    → Task
    → TaskExecution
    → Provider
    → String
    → Conduct
    → World
    → Result ExecutionStatus × World
attempt h executor task x provider trigger c =
    in_transaction (execute h executor task x provider trigger c)

-- A cancelled attempt leaves the database as it found it: the transaction that holds the cancelled
-- row of `_finalize` is not committed, so that row, its logs and its end time are lost.
pub cancelled_attempt_lost :
    (h : Host) (executor : AttemptExecutor) (task : Task) (x row : TaskExecution)
    (provider : Provider) (trigger : String) (c : Conduct) (w : World)
    → find_execution x.id w.db.executions ≡ some row
    → verdict executor provider c ≡ none
    → let r = in_transaction (execute h executor task x provider trigger c) w in
      (r.0 ≡ err Error.cancelled) × (r.1.db ≡ w.db)
cancelled_attempt_lost h executor task x row provider trigger c w found cancelled =
    let quiet : IsQuietIf (verdict executor provider c) c.closing = rw cancelled tt in
    let ends = execute-Ends h executor task x row provider trigger c w found quiet in
    let raised : (execute h executor task x provider trigger c w).0 ≡ err Error.cancelled =
      (subst
        (λ v.
          Ends h executor x.id (h.clock w.reads) v (execute h executor task x provider trigger c w))
        cancelled ends).0 in
    (
      close_transaction-result w.db (execute h executor task x provider trigger c w).0 _ ∙ raised,
      close_transaction-err w.db _ _ Error.cancelled raised,
    )

module _ (h : Host) (executor : AttemptExecutor) (task : Task) (provider : Provider) (c : Conduct)
    (browser : provider.needs_browser ≡ true) (attached : executor.has_browser_runtime ≡ true)
    (opened : c.opening ≡ Opening.opened) where
  try_block-opened :
      try_block h executor task provider c
      ≡ (true, run_ending h (effective_timeout executor task) c.running)
  unfolding try_block open_ending
  try_block-opened = ground arith

finalize-result :
    (h : Host) (id started_at : ℕ) (o : Outcome) (w : World)
    → ((finalize h id started_at o w).0 ≡ ok tt)
      × ((finalize h id started_at o w).1.open_sessions ≡ w.open_sessions)
unfolding finalize get_execution update_execution
finalize-result h id started_at o w = elim (Option-cases (find_execution id w.db.executions)) [
  | inl missing ↦ rw missing (refl, refl)
  | inr (row, found) ↦ rw found (refl, refl)
]

after_try-interrupted :
    (h : Host) (executor : AttemptExecutor) (id started_at : ℕ) (closing : Closing) (o : Outcome)
    (w : World)
    → (after_try h executor id started_at closing true (Ending.stopped o) w).1.open_sessions
      ≡ w.open_sessions
unfolding after_try
after_try-interrupted h executor id started_at closing o w =
    let (fine, same) = finalize-result h id started_at o w in rw fine same

-- An attempt that is cancelled while its provider runs with a browser session ends without the
-- teardown of that session: it is still open when the attempt raises.
cancelled_attempt_leaves_session :
    (h : Host) (executor : AttemptExecutor) (task : Task) (x : TaskExecution) (provider : Provider)
    (trigger : String) (c : Conduct) (w : World)
    → provider.needs_browser ≡ true
    → executor.has_browser_runtime ≡ true
    → c.opening ≡ Opening.opened
    → c.running ≡ Running.interrupted
    → (execute h executor task x provider trigger c w).1.open_sessions ≡ w.open_sessions + 1
unfolding execute update_execution run_ending
cancelled_attempt_leaves_session h executor task x provider trigger c w browser attached opened
      stopped =
    let block : try_block h executor task provider c ≡ (true, Ending.stopped cancelled_outcome) =
      try_block-opened h executor task provider c browser attached opened
      ∙ ap (λ r. (true, run_ending h (effective_timeout executor task) r)) stopped in
    rw block (after_try-interrupted h executor x.id (h.clock w.reads) c.closing cancelled_outcome _)

run_ending-done :
    (h : Host) (timeout : ℕ) (r : Running) (s : ExecutionStatus)
    → run_verdict r ≡ some s
    → (o : Outcome) × (run_ending h timeout r ≡ Ending.done o)
unfolding run_ending
run_ending-done h timeout (Running.returned r) s v = (_, refl)
run_ending-done h timeout Running.timed_out s v = (_, refl)
run_ending-done h timeout (Running.raised e t) s v = (_, refl)
run_ending-done h timeout Running.interrupted s v = cc

teardown_raises :
    (h : Host) (executor : AttemptExecutor) (task : Task) (x : TaskExecution) (provider : Provider)
    (trigger : String) (c : Conduct) (w : World) (s : ExecutionStatus)
    → provider.needs_browser ≡ true
    → executor.has_browser_runtime ≡ true
    → c.opening ≡ Opening.opened
    → run_verdict c.running ≡ some s
    → c.closing ≡ Closing.close_raised
    → (execute h executor task x provider trigger c w).0 ≡ err Error.unexpected
unfolding execute update_execution after_try
teardown_raises h executor task x provider trigger c w s browser attached opened v closing =
    let (o, ended) = run_ending-done h (effective_timeout executor task) c.running s v in
    let block : try_block h executor task provider c ≡ (true, Ending.done o) =
      try_block-opened h executor task provider c browser attached opened
      ∙ ap (λ e. (true, e)) ended in
    rw block (simp closing refl)

-- An exception of the session's teardown passes through `execute` before the terminal write:
-- whatever status the provider's run has decided, the attempt raises, and the transaction leaves
-- the database as the attempt found it.
failing_teardown_loses_result :
    (h : Host) (executor : AttemptExecutor) (task : Task) (x : TaskExecution) (provider : Provider)
    (trigger : String) (c : Conduct) (w : World) (s : ExecutionStatus)
    → provider.needs_browser ≡ true
    → executor.has_browser_runtime ≡ true
    → c.opening ≡ Opening.opened
    → run_verdict c.running ≡ some s
    → c.closing ≡ Closing.close_raised
    → let r = in_transaction (execute h executor task x provider trigger c) w in
      (r.0 ≡ err Error.unexpected) × (r.1.db ≡ w.db)
failing_teardown_loses_result h executor task x provider trigger c w s browser attached opened v
      closing =
    let raised =
      teardown_raises h executor task x provider trigger c w s browser attached opened v closing in
    (
      close_transaction-result w.db (execute h executor task x provider trigger c w).0 _ ∙ raised,
      close_transaction-err w.db _ _ Error.unexpected raised,
    )
