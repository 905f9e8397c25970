-- ===== src/Scheduler/Runner/Round.antt =====
-- What the parts of a round add to `task_executions`: one row for a new retry, and nothing else.
use qiankun.Prelude.{
  arith, ℕ, ◌+◌, ◌≡◌, refl, inl, inr, String, Bool, true, false, Option, none, some, Option-cases,
  Bool-cases, if◌then◌else◌,
}
use qiankun.Prelude.Exec.{Exec, pure}
use qiankun.Runtime.Enums.{ExecutionStatus, TriggerType}
use qiankun.Infrastructure.Database.{Task, TaskExecution}
use qiankun.Infrastructure.Database.Rows.{find_row}
use qiankun.Infrastructure.Repositories.Tasks.{get_task}
use qiankun.Infrastructure.Repositories.Executions.{get_execution, update_execution, add_execution}
use qiankun.Engine.World.{EventType, World, Host}
use qiankun.Scheduler.Attempt.{
  Outcome, Closing, Ending, Conduct, AttemptExecutor, Provider, finalize, close_session, after_try,
  execute, count_session, try_block,
}
use qiankun.Scheduler.Runner.{
  TaskRunner, load_pair, write_missing_provider, fail_missing_provider, run_attempt, run_found,
  create_retry, trigger_name, sleep_between, publish_event, new_execution,
}
use qiankun.Scheduler.Runner.Kept.{
  Grows, Grows-refl, Grows-mono, Grows-trans, GrowsBy, ok-fueled, still-GrowsBy, >>=-GrowsBy,
  in_transaction-GrowsBy, update_execution-Grows, add_execution-Grows, publish_event-GrowsBy,
}

finalize-GrowsBy :
    (h : Host) (id started_at : ℕ) (o : Outcome) (w : World)
    → GrowsBy 0 (finalize h id started_at o) w
unfolding finalize get_execution update_execution
finalize-GrowsBy h id started_at o w =
    elim (Option-cases (find_row (λ x. x.id) id w.db.executions)) [
      | inl e ↦ record { kept = rw e (Grows-refl w.db); fueled = rw e (ok-fueled tt) }
      | inr (x, e) ↦ record {
        kept = rw e (update_execution-Grows id _ w.db);
        fueled = rw e (ok-fueled tt);
      }
    ]

close_session-GrowsBy :
    (h : Host) (executor : AttemptExecutor) (id : ℕ) (session : Bool) (c : Closing) (w : World)
    → GrowsBy 0 (close_session h executor id session c) w
unfolding close_session
close_session-GrowsBy h executor id false c w = still-GrowsBy refl (ok-fueled tt)
close_session-GrowsBy h executor id true Closing.closed w = still-GrowsBy refl (ok-fueled tt)
close_session-GrowsBy h executor id true Closing.close_timed_out w =
    still-GrowsBy refl (ok-fueled tt)
close_session-GrowsBy h executor id true Closing.close_raised w = still-GrowsBy refl λ e. cc
close_session-GrowsBy h executor id true Closing.close_cancelled w = still-GrowsBy refl λ e. cc

after_try-GrowsBy :
    (h : Host) (executor : AttemptExecutor) (id started_at : ℕ) (c : Closing) (session : Bool)
    (e : Ending) (w : World)
    → GrowsBy 0 (after_try h executor id started_at c session e) w
unfolding after_try
after_try-GrowsBy h executor id started_at c session (Ending.unavailable o) w =
    >>=-GrowsBy 0 0 (finalize-GrowsBy h id started_at o w) (λ _ _. still-GrowsBy refl (ok-fueled _))
after_try-GrowsBy h executor id started_at c session (Ending.stopped o) w =
    >>=-GrowsBy 0 0 (finalize-GrowsBy h id started_at o w) (λ _ _. still-GrowsBy refl λ e. cc)
after_try-GrowsBy h executor id started_at c session (Ending.done o) w =
    >>=-GrowsBy 0 0 (close_session-GrowsBy h executor id session c w) (λ _ _.
      >>=-GrowsBy 0 0 (finalize-GrowsBy h id started_at o _)
        (λ _ _. record { kept = Grows-refl _; fueled = ok-fueled _ }))

-- The rest of a call after steps that only write into rows.
from-GrowsBy :
    {A : Type 0} (n : ℕ) (c d : Exec World A) (w v : World)
    → Grows 0 w.db v.db
    → d w ≡ c v
    → GrowsBy n c v
    → GrowsBy n d w
from-GrowsBy n c d w v g e rest = record {
  kept = rw e (
      Grows-mono (0 + n) n w.db (c v).1.db (omega arith) (Grows-trans 0 n w.db v.db _ g rest.kept));
  fueled = rw e rest.fueled;
}

count_session-db : (session : Bool) (w : World) → (count_session session w).db ≡ w.db
count_session-db true w = refl
count_session-db false w = refl

pub execute-GrowsBy :
    (h : Host) (executor : AttemptExecutor) (task : Task) (x : TaskExecution) (provider : Provider)
    (trigger : String) (c : Conduct) (w : World)
    → GrowsBy 0 (execute h executor task x provider trigger c) w
unfolding execute update_execution
execute-GrowsBy h executor task x provider trigger c w =
    let (session, ending) = try_block h executor task provider c in
    from-GrowsBy 0 (after_try h executor x.id (h.clock w.reads) c.closing session ending) _ w _
      (rw count_session-db (update_execution-Grows x.id _ w.db)) refl
      (after_try-GrowsBy h executor x.id (h.clock w.reads) c.closing session ending _)

module _ (r : TaskRunner) where
  pub load_pair-GrowsBy : (task_id id : ℕ) (w : World) → GrowsBy 0 (load_pair r task_id id) w
  unfolding load_pair get_task get_execution
  load_pair-GrowsBy task_id id w = still-GrowsBy refl (ok-fueled _)

  write_missing_provider-GrowsBy :
      (id : ℕ) (provider : String) (w : World) → GrowsBy 0 (write_missing_provider r id provider) w
  unfolding write_missing_provider get_execution update_execution
  write_missing_provider-GrowsBy id provider w =
      elim (Option-cases (find_row (λ x. x.id) id w.db.executions)) [
        | inl e ↦ record { kept = rw e (Grows-refl w.db); fueled = rw e (ok-fueled false) }
        | inr (x, e) ↦ record {
          kept = rw e (update_execution-Grows x.id _ w.db);
          fueled = rw e (ok-fueled true);
        }
      ]

  pub fail_missing_provider-GrowsBy :
      (task_id id : ℕ) (provider : String) (w : World)
      → GrowsBy 0 (fail_missing_provider r task_id id provider) w
  unfolding fail_missing_provider
  fail_missing_provider-GrowsBy task_id id provider w =
      >>=-GrowsBy 0 0 (write_missing_provider-GrowsBy id provider w) λ written _. publish written _
    where
      publish :
          (written : Bool) (v : World)
          → GrowsBy 0
              (if written
                then publish_event r (EventType.finished ExecutionStatus.failed) id task_id
                else pure tt)
              v
      publish true v =
          publish_event-GrowsBy r (EventType.finished ExecutionStatus.failed) id task_id v
      publish false v = still-GrowsBy refl (ok-fueled tt)

  run_found-GrowsBy :
      (t : Option Task) (x : Option TaskExecution) (provider : Provider) (trigger : TriggerType)
      (attempt : ℕ) (w : World)
      → GrowsBy 0 (run_found r provider trigger attempt t x) w
  unfolding run_found
  run_found-GrowsBy none x provider trigger attempt w = still-GrowsBy refl (ok-fueled _)
  run_found-GrowsBy (some t) none provider trigger attempt w = still-GrowsBy refl (ok-fueled _)
  run_found-GrowsBy (some t) (some x) provider trigger attempt w =
      >>=-GrowsBy 0 0
        (execute-GrowsBy r.host r.executor t x provider (trigger_name trigger) (r.conduct attempt)
          w)
        (λ _ _. still-GrowsBy refl (ok-fueled _))

  pub run_attempt-GrowsBy :
      (task_id id : ℕ) (provider : Provider) (trigger : TriggerType) (attempt : ℕ) (w : World)
      → GrowsBy 0 (run_attempt r task_id id provider trigger attempt) w
  unfolding run_attempt get_task get_execution
  run_attempt-GrowsBy task_id id provider trigger attempt w =
      let t = find_row (λ t. t.id) task_id w.db.tasks in
      let x = find_row (λ x. x.id) id w.db.executions in
      let closed = in_transaction-GrowsBy 0 (run_found-GrowsBy t x provider trigger attempt w) in
      record { kept = closed.kept; fueled = closed.fueled }

  pub sleep_between-GrowsBy : (attempt : ℕ) (w : World) → GrowsBy 0 (sleep_between r attempt) w
  sleep_between-GrowsBy attempt w = elim (Bool-cases (r.sleep_cancelled attempt)) [
    | inl e ↦ record { kept = simp e (Grows-refl w.db); fueled = simp e λ h. cc }
    | inr e ↦ record { kept = simp e (Grows-refl w.db); fueled = simp e (ok-fueled tt) }
  ]

pub create_retry-GrowsBy :
    (task_id attempt id : ℕ) (w : World) → GrowsBy 1 (create_retry task_id attempt id) w
unfolding create_retry get_task add_execution
create_retry-GrowsBy task_id attempt id w =
    elim (Option-cases (find_row (λ t. t.id) task_id w.db.tasks)) [
      | inl e ↦ record {
        kept = rw e (Grows-mono 0 1 w.db w.db (omega arith) (Grows-refl w.db));
        fueled = rw e λ h. cc;
      }
      | inr (t, e) ↦ record {
        kept =
            rw e (add_execution-Grows (new_execution t TriggerType.retry attempt (some id)) w.db);
        fueled = rw e (ok-fueled _);
      }
    ]
