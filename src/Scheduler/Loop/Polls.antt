-- ===== src/Scheduler/Loop/Polls.antt =====
-- What a poll of scheduler.py leaves of the tasks that run.
use qiankun.Prelude.{
  ℕ, ◌≡◌, refl, subst, ◌∙◌, arith, Bool, true, false, Option, none, some, List, [], ◌∷◌, map,
  maybe-elim, Bool-cases, inl, inr, ◌==◌, if◌then◌else◌, leb,
}
use qiankun.Prelude.Lists.{All, All-take, All-keep_if, keep_if, contains}
use qiankun.Prelude.Exec.{
  Error, Exec, Result, ok, err, lift, Ensures, continue, settle, transaction, >>=-Ensures,
  lift-Ensures,
}
use qiankun.Infrastructure.Database.{Task, Db}
use qiankun.Infrastructure.Repositories.Tasks.{
  is_due, sort_by_run, get_due_tasks, claim_due_task, advance_claimed,
}
use qiankun.Infrastructure.Repositories.Tasks.DueOrder.{sort_by_run-All}
use qiankun.Scheduler.Calculator.{Cron, calculate_next_run_time}
use qiankun.Scheduler.Policy.{ClaimedTask, add_claimed, claim_one, claim_all, schedule_due_tasks}
use qiankun.Scheduler.Registration.{
  RunningTaskState, TaskScheduler, lookup_running, set_running, register, begin_poll, end_poll,
  available_slots,
}
use qiankun.Scheduler.Loop.{Service, session, poll, poll_slots, register_claimed}

module _ (P : ℕ → Type 0) (cron : Cron) (now : ℕ) where
  abbrev AreClaimed : List ClaimedTask → Db → Type 0
  AreClaimed claimed db = All (λ c. P c.task_id) claimed

  add_claimed-All :
      (task : Task) (at new : ℕ) (hit : Bool) (others : List ClaimedTask)
      → P task.id
      → All (λ c. P c.task_id) others
      → All (λ c. P c.task_id) (add_claimed task at new hit others)
  unfolding add_claimed
  add_claimed-All task at new true others p h = (p, h)
  add_claimed-All task at new false others p h = h

  claim_one-AreClaimed :
      (task : Task) (rest : Exec Db (List ClaimedTask)) (at : ℕ) (db : Db)
      → P task.id
      → ((t : Db) → Ensures AreClaimed (rest t))
      → Ensures AreClaimed (claim_one cron now task rest at db)
  unfolding claim_one claim_due_task
  claim_one-AreClaimed task rest at db p ih =
      let next = calculate_next_run_time cron task.cron_expression at (some now) in
      >>=-Ensures (λ _ _. Unit {0}) AreClaimed (lift next) _ db
        (lift-Ensures (λ _ _. Unit {0}) next db (λ new e. tt))
        λ new t _.
          let moved = advance_claimed task.id at new t.tasks in
          let t' = record t { tasks = moved.0 } in
          >>=-Ensures AreClaimed AreClaimed rest _ t' (ih t')
            λ others after h. add_claimed-All task at new moved.1 others p h

  claim_all-AreClaimed :
      (candidates : List Task) (db : Db)
      → All (λ t. P t.id) candidates
      → Ensures AreClaimed (claim_all cron now candidates db)
  unfolding claim_all
  claim_all-AreClaimed [] db h = tt
  claim_all-AreClaimed (task ∷ candidates) db (p, h) =
      maybe-elim (λ (m : Exec Db (List ClaimedTask)). Ensures AreClaimed (m db)) task.next_run_time
        (λ _. claim_all-AreClaimed candidates db h)
        λ at _.
          claim_one-AreClaimed task (claim_all cron now candidates) at db p
            (λ t. claim_all-AreClaimed candidates t h)

  schedule_due_tasks-AreClaimed :
      (exclude_ids : List ℕ) (available_slots : ℕ) (db : Db)
      → ((t : Task) → is_due now exclude_ids t ≡ true → P t.id)
      → Ensures AreClaimed (schedule_due_tasks cron now exclude_ids available_slots db)
  unfolding schedule_due_tasks get_due_tasks
  schedule_due_tasks-AreClaimed exclude_ids available_slots db h =
      let rows = keep_if (is_due now exclude_ids) db.tasks in
      claim_all-AreClaimed _ db (
        All-take (λ t. P t.id) available_slots (sort_by_run rows)
          (sort_by_run-All (λ t. P t.id) rows
            (All-keep_if (λ t. P t.id) (is_due now exclude_ids) h db.tasks)))

-- The identifiers of the registrations
abbrev ids : List (ℕ × RunningTaskState) → List ℕ
ids d = map (λ r. r.0) d

is_due-not_excluded :
    (now : ℕ) (exclude_ids : List ℕ) (t : Task)
    → is_due now exclude_ids t ≡ true
    → contains t.id exclude_ids ≡ false
unfolding is_due
is_due-not_excluded now exclude_ids t h = ground arith

lookup_running-ids :
    (k : ℕ) (d : List (ℕ × RunningTaskState)) (r : RunningTaskState) (j : ℕ)
    → lookup_running k d ≡ some r
    → contains j (ids d) ≡ false
    → (j == k) ≡ false
lookup_running-ids k [] r j h c = cc
lookup_running-ids k ((i, s) ∷ d) r j h c = elim (Bool-cases (i == k)) [
  | inl hit ↦ ground arith
  | inr miss ↦ lookup_running-ids k d r j (rw miss at h) (ground arith)
]

lookup_running-set_running :
    (k j : ℕ) (s : RunningTaskState) (d : List (ℕ × RunningTaskState))
    → (j == k) ≡ false
    → lookup_running k (set_running j s d) ≡ lookup_running k d
lookup_running-set_running k j s [] ne = rw ne refl
lookup_running-set_running k j s ((i, old) ∷ d) ne = elim (Bool-cases (i == j)) [
  | inl same ↦ rw same (let other : (i == k) ≡ false = ground arith in rw other refl)
  | inr differ ↦
      let ih = lookup_running-set_running k j s d ne in
      rw differ (elim (Bool-cases (i == k)) [ inl e ↦ rw e refl | inr e ↦ rw e ih ])
]

lookup_running-end_poll :
    (k : ℕ) (claimed : List ClaimedTask) (s : TaskScheduler)
    → All (λ c. (c.task_id == k) ≡ false) claimed
    → lookup_running k (end_poll (map (λ c. c.task_id) claimed) s).running_tasks
      ≡ lookup_running k s.running_tasks
unfolding end_poll register
lookup_running-end_poll k [] s h = refl
lookup_running-end_poll k (c ∷ claimed) s (ne, h) =
    lookup_running-end_poll k claimed (register c.task_id s) h
    ∙ lookup_running-set_running k c.task_id _ s.running_tasks ne

-- A call that leaves every registration that is there as it is.
pub record KeepsRunning (k : ℕ) (r : RunningTaskState) (before after : Service) : Type 0 where
  pub still :
      lookup_running k before.scheduler.running_tasks ≡ some r
      → lookup_running k after.scheduler.running_tasks ≡ some r

pub session-KeepsRunning :
    {A : Type 0} (k : ℕ) (r : RunningTaskState) (fault : Option Error) (m : Exec Db A) (v : Service)
    → KeepsRunning k r v (session fault m v).1
session-KeepsRunning k r none m v = record { still = λ h. h }
session-KeepsRunning k r (some e) m v = record { still = λ h. h }

registered-KeepsRunning :
    (k : ℕ) (r : RunningTaskState) (result : Result (List ClaimedTask)) (v : Service)
    → (lookup_running k v.scheduler.running_tasks ≡ some r
        → (claimed : List ClaimedTask) → result ≡ ok claimed
        → All (λ c. (c.task_id == k) ≡ false) claimed)
    → KeepsRunning k r v (continue result register_claimed v).1
unfolding register_claimed
registered-KeepsRunning k r (ok claimed) v others = record {
  still = λ h. lookup_running-end_poll k claimed v.scheduler (others h claimed refl) ∙ h;
}
registered-KeepsRunning k r (err e) v others = record { still = λ h. h }

module _ (cron : Cron) (now : ℕ) (k : ℕ) (r : RunningTaskState) where
  -- The result of the transaction names no task that runs.
  claimed-others :
      (v : Service) (slots : ℕ) (claimed : List ClaimedTask)
      → lookup_running k v.scheduler.running_tasks ≡ some r
      → (transaction (schedule_due_tasks cron now (ids v.scheduler.running_tasks) slots) v.db).0
        ≡ ok claimed
      → All (λ c. (c.task_id == k) ≡ false) claimed
  claimed-others v slots claimed h e =
      let running = ids v.scheduler.running_tasks in
      settled (schedule_due_tasks cron now running slots v.db)
        (schedule_due_tasks-AreClaimed (λ j. (j == k) ≡ false) cron now running slots v.db
          (λ t due.
            lookup_running-ids k v.scheduler.running_tasks r t.id h
              (is_due-not_excluded now running t due)))
        e
    where
      settled :
          (x : Result (List ClaimedTask) × Db)
          → Ensures (λ claimed _. All (λ c. (c.task_id == k) ≡ false) claimed) x
          → (settle v.db x.0 x.1).0 ≡ ok claimed
          → All (λ c. (c.task_id == k) ≡ false) claimed
      settled (ok found, db) q e =
          subst (λ r. Ensures (λ claimed _. All (λ c. (c.task_id == k) ≡ false) claimed) (r, db)) e
            q
      settled (err e', db) q e = cc

  poll_slots-KeepsRunning :
      (fault : Option Error) (found : Option (List ℕ × ℕ)) (v : Service)
      → ((running : List ℕ) (slots : ℕ)
          → found ≡ some (running, slots)
          → running ≡ ids v.scheduler.running_tasks)
      → KeepsRunning k r v (poll_slots cron now fault found v).1
  unfolding poll_slots
  poll_slots-KeepsRunning fault none v same = record { still = λ h. h }
  poll_slots-KeepsRunning (some e) (some (running, slots)) v same = record { still = λ h. h }
  poll_slots-KeepsRunning none (some (running, slots)) v same =
      let (result, db) = transaction (schedule_due_tasks cron now running slots) v.db in
      let registered =
        registered-KeepsRunning k r result (record v { db = db })
          (λ h claimed e. claimed-others v slots claimed h (rw (same running slots refl) at e)) in
      record { still = registered.still }

  pub poll-KeepsRunning :
      (fault : Option Error) (v : Service) → KeepsRunning k r v (poll cron now fault v).1
  unfolding poll begin_poll
  poll-KeepsRunning fault v =
      poll_slots-KeepsRunning fault (begin_poll v.scheduler) v
        (λ running slots e. begun (leb (available_slots v.scheduler) 0) e)
    where
      begun :
          (full : Bool) {running : List ℕ} {slots : ℕ}
          → (let here : Option (List ℕ × ℕ) =
                some (ids v.scheduler.running_tasks, available_slots v.scheduler) in
              (if full then none else here) ≡ some (running, slots))
          → running ≡ ids v.scheduler.running_tasks
      begun true e = cc
      begun false e = cc
