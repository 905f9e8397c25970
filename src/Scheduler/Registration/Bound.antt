-- ===== src/Scheduler/Registration/Bound.antt =====
-- How many tasks scheduler.py lets run at a time.
use qiankun.Prelude.{
  ℕ, suc, ◌+◌, ◌≤◌, ◌≡◌, refl, arith, Bool, true, false, Option, none, some, List, [], ◌∷◌, map,
  leb, ◌==◌, Bool-cases, inl, inr, is_some, not, leb-false→lt, subst, ◌||◌, maybe-elim, if-elim,
}
use qiankun.Prelude.Lists.{length, length-keep_if_le}
use qiankun.Prelude.Exec.{Error, Result, ok, err}
use qiankun.Scheduler.Registration.{
  RunningTaskState, TaskScheduler, new_scheduler, lookup_running, set_running, change_running,
  available_slots, register, begin_poll, end_poll, execute_task_now, set_ready, mark_cancelling,
  cancel_task, cancel_by_execution, finished, is_active,
}

-- At most the configured number of tasks is registered.
abbrev pub IsBounded : TaskScheduler → Type 0
IsBounded s = length s.running_tasks ≤ s.max_concurrent_tasks

-- What the scheduler does, where nothing comes between the two halves of a poll: it registers no more
-- tasks than it has found slots for.
pub data Step (s : TaskScheduler) : TaskScheduler → Type 0 where
  polled :
      (ids claimed : List ℕ) (slots : ℕ)
      → begin_poll s ≡ some (ids, slots)
      → length claimed ≤ slots
      → Step s (end_poll claimed s)
  triggered : (task_id : ℕ) (t : TaskScheduler) → execute_task_now task_id s ≡ ok t → Step s t
  created : (task_id execution_id : ℕ) → Step s (set_ready task_id execution_id s)
  cancelled : (task_id : ℕ) → Step s (cancel_task task_id s).1
  cancelled_by_execution :
      (execution_id task_id : ℕ) → Step s (cancel_by_execution execution_id task_id s).1
  ended : (task : ℕ) → Step s (finished task s)

pub data Reach (s : TaskScheduler) : TaskScheduler → Type 0 where
  here : Reach s s
  next : {t u : TaskScheduler} → Reach s t → Step t u → Reach s u

length-set_running :
    (k : ℕ) (r : RunningTaskState) (d : List (ℕ × RunningTaskState))
    → length (set_running k r d) ≤ suc (length d)
length-set_running k r [] = omega arith
length-set_running k r (x ∷ d) = ground (arith, length-set_running k r d)

length-change_running :
    (k : ℕ) (f : RunningTaskState → RunningTaskState) (d : List (ℕ × RunningTaskState))
    → length (change_running k f d) ≡ length d
length-change_running k f [] = refl
length-change_running k f (x ∷ d) = omega (arith, length-change_running k f d)

end_poll_le :
    (claimed : List ℕ) (s : TaskScheduler)
    → (length (end_poll claimed s).running_tasks ≤ length s.running_tasks + length claimed)
      × ((end_poll claimed s).max_concurrent_tasks ≡ s.max_concurrent_tasks)
unfolding end_poll register
end_poll_le [] s = (omega arith, refl)
end_poll_le (k ∷ claimed) s =
    let ih = end_poll_le claimed (register k s) in
    (omega (arith, ih.0, length-set_running k _ s.running_tasks), ih.1)

mark_cancelling-IsBounded :
    (task_id : ℕ) (s : TaskScheduler) → IsBounded s → IsBounded (mark_cancelling task_id s)
mark_cancelling-IsBounded task_id s h =
    omega (
      arith,
      h,
      length-change_running task_id (λ r. record r { cancelling = true }) s.running_tasks,
    )

or-false : (a b : Bool) → (a || b) ≡ false → b ≡ false
or-false true b e = cc
or-false false b e = e

triggered-IsBounded :
    (task_id : ℕ) (s t : TaskScheduler)
    → execute_task_now task_id s ≡ ok t
    → IsBounded s
    → IsBounded t
unfolding execute_task_now register
triggered-IsBounded task_id s t e h =
    let busy = is_some (lookup_running task_id s.running_tasks) in
    elim (Bool-cases (busy || leb (available_slots s) 0)) [
      | inl refused ↦
          cc (
            let e' : Path (Result TaskScheduler) (err Error.conflict) (ok t) = rw refused at e in
            e')
      | inr accepted ↦
          let e' : Path (Result TaskScheduler) (ok (register task_id s)) (ok t) =
            rw accepted at e in
          let same : register task_id s ≡ t = cc in
          let free =
            leb-false→lt (available_slots s) 0
              (or-false busy (leb (available_slots s) 0) accepted) in
          subst IsBounded same (omega (arith, free, length-set_running task_id _ s.running_tasks))
    ]

Step-IsBounded : {s t : TaskScheduler} → Step s t → IsBounded s → IsBounded t
unfolding begin_poll execute_task_now register set_ready cancel_task cancel_by_execution finished
Step-IsBounded {s} (polled ids claimed slots begun few) h =
    let (le, same) = end_poll_le claimed s in
    elim (Bool-cases (leb (available_slots s) 0)) [
      | inl full ↦
          cc (let h' : Path (Option (List ℕ × ℕ)) none (some (ids, slots)) = rw full at begun in h')
      | inr free ↦
          let h' : Path (Option (List ℕ × ℕ))
              (some (map (λ r. r.0) s.running_tasks, available_slots s)) (some (ids, slots)) =
            rw free at begun in
          let eq : available_slots s ≡ slots = cc in omega (arith, le, same, few, eq, h)
    ]
Step-IsBounded {s} (triggered task_id t e) h = triggered-IsBounded task_id s t e h
Step-IsBounded {s} (created task_id execution_id) h = omega (
  arith,
  h,
  length-change_running task_id (λ r. record r { execution_id = some execution_id; ready = true })
      s.running_tasks,
)
Step-IsBounded {s} (cancelled task_id) h =
    maybe-elim (λ (r : Bool × TaskScheduler). IsBounded r.1)
      (lookup_running task_id s.running_tasks) (λ _. h) λ r _. mark_cancelling-IsBounded task_id s h
Step-IsBounded {s} (cancelled_by_execution execution_id task_id) h =
    maybe-elim (λ (r : Bool × TaskScheduler). IsBounded r.1)
      (lookup_running task_id s.running_tasks) (λ _. h)
      λ r _.
        if-elim (λ (r : Bool × TaskScheduler). IsBounded r.1) (is_active execution_id r)
          (λ _. mark_cancelling-IsBounded task_id s h) (λ _. h)
Step-IsBounded {s} (ended task) h = omega (
  arith,
  h,
  length-keep_if_le (λ (r : ℕ × RunningTaskState). not ((r.1).asyncio_task == task))
      s.running_tasks,
)

run-IsBounded : {s t : TaskScheduler} → IsBounded s → Reach s t → IsBounded t
run-IsBounded h here = h
run-IsBounded h (next r step) = Step-IsBounded step (run-IsBounded h r)

-- Whatever polls, manual triggers, cancellations and ends of tasks follow each other, where
-- nothing comes between the two halves of a poll and a poll claims no more tasks than it has found
-- slots: at most `max_concurrent_tasks` tasks are registered at any time.
pub Reach-IsBounded : (max : ℕ) (s : TaskScheduler) → Reach (new_scheduler max) s → IsBounded s
Reach-IsBounded max s r = run-IsBounded (omega arith) r
