-- ===== src/Scheduler/Runner/Retries.antt =====
-- How often a run goes through the loop of scheduler/runner.py, and how many rows it adds.
use qiankun.Prelude.{
  ℕ, zero, suc, ◌+◌, ◌-◌, ◌≤◌, ◌<◌, ◌≡◌, ◌≢◌, refl, ◌∙◌, Bool, true, false, ◌||◌, Option, none,
  some, arith, leb, leb-false→lt, maybe,
}
use qiankun.Prelude.Lists.{length}
use qiankun.Prelude.Exec.{Error, err, Exec, pure}
use qiankun.Runtime.Enums.{ExecutionStatus, TriggerType}
use qiankun.Infrastructure.Database.{Task, TaskExecution}
use qiankun.Infrastructure.Database.Rows.{find_row}
use qiankun.Infrastructure.Repositories.Tasks.{get_task}
use qiankun.Infrastructure.Repositories.Executions.{get_execution}
use qiankun.Engine.World.{EventType, World}
use qiankun.Scheduler.Attempt.{Provider}
use qiankun.Scheduler.Runner.{
  TaskRunner, create_retry, sleep_between, end_round, after_attempt, run_round, start_round,
  run_loop, run_existing, run_attempt, publish_event, fail_missing_provider, load_pair, ends_run,
}
use qiankun.Scheduler.Runner.Kept.{
  retries_of, Grows-mono, GrowsBy, ok-fueled, still-GrowsBy, >>=-GrowsBy, publish_event-GrowsBy,
}
use qiankun.Scheduler.Runner.Round.{
  create_retry-GrowsBy, sleep_between-GrowsBy, run_attempt-GrowsBy, fail_missing_provider-GrowsBy,
}

GrowsBy-mono :
    {A : Type 0} (m n : ℕ) {c : Exec World A} {w : World} → m ≤ n → GrowsBy m c w → GrowsBy n c w
GrowsBy-mono m n {c} {w} le g = record {
  kept = Grows-mono m n w.db (c w).1.db le g.kept;
  fueled = g.fueled;
}

module _ (r : TaskRunner) (task_id limit attempt : ℕ) (again : ℕ → Exec World Unit)
    (rest : (id : ℕ) (w : World)
      → attempt < limit
      → retries_of task_id w.db ≡ some limit
      → GrowsBy (limit - (attempt + 1)) (again id) w) where
  end_round-GrowsBy :
      (stop : Bool) (id : ℕ) (w : World)
      → retries_of task_id w.db ≡ some limit
      → (stop ≡ false → attempt < limit)
      → GrowsBy (limit - attempt) (end_round r stop task_id attempt id again) w
  unfolding end_round
  end_round-GrowsBy true id w same below =
      GrowsBy-mono 0 (limit - attempt) (omega arith) (still-GrowsBy refl (ok-fueled tt))
  end_round-GrowsBy false id w same below =
      let created = create_retry-GrowsBy task_id (attempt + 1) id w in
      let v = (create_retry task_id (attempt + 1) id w).1 in
      let slept = sleep_between-GrowsBy r attempt v in
      let u = (sleep_between r attempt v).1 in
      let kept = slept.kept.retries task_id ∙ created.kept.retries task_id ∙ same in
      GrowsBy-mono (1 + (0 + (limit - (attempt + 1)))) (limit - attempt) (omega (arith, below refl))
        (>>=-GrowsBy 1 (0 + (limit - (attempt + 1))) created λ next_id _.
          >>=-GrowsBy 0 (limit - (attempt + 1)) slept λ _ _. rest next_id u (below refl) kept)

  after_attempt-GrowsBy :
      (task : Task) (id : ℕ) (status : ExecutionStatus) (w : World)
      → task.max_retries ≡ limit
      → retries_of task_id w.db ≡ some limit
      → GrowsBy (limit - attempt) (after_attempt r task_id task attempt id again status) w
  unfolding after_attempt
  after_attempt-GrowsBy task id status w here same =
      let published = publish_event-GrowsBy r (EventType.finished status) id task_id w in
      let v = (publish_event r (EventType.finished status) id task_id w).1 in
      GrowsBy-mono (0 + (limit - attempt)) (limit - attempt) (omega arith) (
        >>=-GrowsBy 0 (limit - attempt) published λ _ _.
          end_round-GrowsBy (ends_run r status || leb task.max_retries attempt) id v
            (published.kept.retries task_id ∙ same)
            λ no. omega (
              arith,
              here,
              leb-false→lt task.max_retries attempt
                  (or-false (ends_run r status) (leb task.max_retries attempt) no),
            ))
    where
      or-false : (a b : Bool) → (a || b) ≡ false → b ≡ false
      or-false true b e = cc
      or-false false b e = e

  run_round-GrowsBy :
      (task : Task) (provider : Provider) (trigger : TriggerType) (id : ℕ) (w : World)
      → task.max_retries ≡ limit
      → retries_of task_id w.db ≡ some limit
      → GrowsBy (limit - attempt) (run_round r task_id task provider trigger attempt id again) w
  unfolding run_round
  run_round-GrowsBy task provider trigger id w here same =
      let published = publish_event-GrowsBy r EventType.started id task_id w in
      let v = (publish_event r EventType.started id task_id w).1 in
      let attempted = run_attempt-GrowsBy r task_id id provider trigger attempt v in
      let u = (run_attempt r task_id id provider trigger attempt v).1 in
      let kept = attempted.kept.retries task_id ∙ published.kept.retries task_id ∙ same in
      GrowsBy-mono (0 + (0 + (limit - attempt))) (limit - attempt) (omega arith) (
        >>=-GrowsBy 0 (0 + (limit - attempt)) published
          λ _ _. >>=-GrowsBy 0 (limit - attempt) attempted λ status _. ended status u kept)
    where
      ended :
          (status : Option ExecutionStatus) (u : World)
          → retries_of task_id u.db ≡ some limit
          → GrowsBy
              (limit - attempt)
              (maybe status (pure tt) (after_attempt r task_id task attempt id again))
              u
      ended none u kept =
          GrowsBy-mono 0 (limit - attempt) (omega arith) (still-GrowsBy refl (ok-fueled tt))
      ended (some status) u kept = after_attempt-GrowsBy task id status u here kept

  start_round-GrowsBy :
      (trigger : TriggerType) (id : ℕ) (w : World)
      → retries_of task_id w.db ≡ some limit
      → GrowsBy (limit - attempt) (start_round r task_id trigger attempt id again) w
  unfolding start_round load_pair get_task get_execution
  start_round-GrowsBy trigger id w same =
      let g =
        started (find_row (λ t. t.id) task_id w.db.tasks) (find_row (λ x. x.id) id w.db.executions)
          refl in
      record { kept = g.kept; fueled = g.fueled }
    where
      stop : GrowsBy (limit - attempt) (pure tt) w
      stop = GrowsBy-mono 0 (limit - attempt) (omega arith) (still-GrowsBy refl (ok-fueled tt))

      provided :
          (task : Task) (provider : Option Provider)
          → task.max_retries ≡ limit
          → GrowsBy
              (limit - attempt)
              (maybe provider
                (fail_missing_provider r task_id id task.provider)
                λ p. run_round r task_id task p trigger attempt id again)
              w
      provided task none here =
          GrowsBy-mono 0 (limit - attempt) (omega arith)
            (fail_missing_provider-GrowsBy r task_id id task.provider w)
      provided task (some p) here = run_round-GrowsBy task p trigger id w here same

      started :
          (t : Option Task) (x : Option TaskExecution)
          → find_row (λ t. t.id) task_id w.db.tasks ≡ t
          → GrowsBy
              (limit - attempt)
              (maybe t (pure tt) λ task. maybe x (pure tt) λ _.
                maybe
                  (r.provider task.provider)
                  (fail_missing_provider r task_id id task.provider)
                  λ p. run_round r task_id task p trigger attempt id again)
              w
      started none x e = stop
      started (some t) none e = stop
      started (some t) (some x) e = provided t (r.provider t.provider) (limit_of t e)
        where
          limit_of :
              (t : Task) → find_row (λ t. t.id) task_id w.db.tasks ≡ some t → t.max_retries ≡ limit
          limit_of t e = cc

run_loop-GrowsBy :
    (r : TaskRunner) (task_id limit fuel : ℕ) (trigger : TriggerType) (attempt id : ℕ) (w : World)
    → limit - attempt < fuel
    → retries_of task_id w.db ≡ some limit
    → GrowsBy (limit - attempt) (run_loop r fuel task_id trigger attempt id) w
unfolding run_loop
run_loop-GrowsBy r task_id limit zero trigger attempt id w lt same = absurd (omega (arith, lt))
run_loop-GrowsBy r task_id limit (suc fuel) trigger attempt id w lt same =
    start_round-GrowsBy r task_id limit attempt _
      (λ next_id v below kept.
        run_loop-GrowsBy r task_id limit fuel TriggerType.retry (attempt + 1) next_id v
          (omega (arith, lt, below)) kept)
      trigger id w same

-- A run of a task that exists ends with fuel above its retry limit, and adds at most that many
-- rows to `task_executions`, however its attempts end.
pub run_existing_bounded :
    (r : TaskRunner) (fuel task_id id : ℕ) (trigger : TriggerType) (task : Task) (w : World)
    → find_row (λ t. t.id) task_id w.db.tasks ≡ some task
    → task.max_retries < fuel
    → let (result, w') = run_existing r fuel task_id id trigger w in
      (result ≢ err Error.out_of_fuel)
      × (length w'.db.executions ≤ length w.db.executions + task.max_retries)
unfolding run_existing
run_existing_bounded r fuel task_id id trigger task w found lt =
    let g =
      run_loop-GrowsBy r task_id task.max_retries fuel trigger 0 id w (omega (arith, lt))
        (rw found refl) in
    (g.fueled, omega (arith, g.kept.rows))
