-- ===== src/Scheduler/Loop/Cancellation.antt =====
-- Nothing in a round of the loop of scheduler.py raises a cancellation, if none comes from outside.
use qiankun.Prelude.{
  ℕ, zero, suc, ◌≡◌, refl, String, Bool, true, false, Option, none, some, List, [], ◌∷◌, maybe-elim,
  if-elim, leb, is_some, not, if◌then◌else◌,
}
use qiankun.Prelude.Exec.{
  Error, Exec, Result, ok, err, lift, gets, pure, continue, settle, transaction, ◌>>=◌,
}
use qiankun.Infrastructure.Database.{Task, Db}
use qiankun.Infrastructure.Repositories.{list_rows}
use qiankun.Infrastructure.Repositories.Tasks.{get_due_tasks, claim_due_task, update_task}
use qiankun.Scheduler.Calculator.{
  Cron, skip_missed, skip_points, first_point, calculate_next_run_time,
}
use qiankun.Scheduler.Policy.{
  ClaimedTask, add_claimed, claim_one, claim_all, schedule_due_tasks, fill_one, fill_all,
  fill_missing_next_run_time,
}
use qiankun.Scheduler.Registration.{begin_poll}
use qiankun.Scheduler.Loop.{
  session, poll, poll_slots, register_claimed, Round, loop_body, is_cancelled,
}

-- What is no cancellation
abbrev pub goes_on : {A : Type 0} → Result A → Bool
goes_on (ok a) = true
goes_on (err e) = not (is_cancelled e)

pub record GoesOn {S A : Type 0} (c : Exec S A) : Type 0 where
  pub goes : (s : S) → goes_on (c s).0 ≡ true

continue-goes_on :
    {S A B : Type 0} (r : Result A) (f : A → Exec S B) (s : S)
    → goes_on r ≡ true
    → ((a : A) → GoesOn (f a))
    → goes_on (continue r f s).0 ≡ true
continue-goes_on (ok a) f s h rest = (rest a).goes s
continue-goes_on (err e) f s h rest = h

>>=-GoesOn :
    {S A B : Type 0} (c : Exec S A) (f : A → Exec S B)
    → GoesOn c
    → ((a : A) → GoesOn (f a))
    → GoesOn (c >>= f)
>>=-GoesOn c f h rest = record { goes = λ s. continue-goes_on (c s).0 f (c s).1 (h.goes s) rest }

transaction-GoesOn : {S A : Type 0} (c : Exec S A) → GoesOn c → GoesOn (transaction c)
transaction-GoesOn c h = record { goes = λ s. settled s (c s) (h.goes s) }
  where
    settled :
        {S A : Type 0} (s : S) (x : Result A × S)
        → goes_on x.0 ≡ true
        → goes_on (settle s x.0 x.1).0 ≡ true
    settled s (ok a, t) h = h
    settled s (err e, t) h = h

module _ (cron : Cron) where
  skip_missed-goes_on :
      (e : String) (fuel minimum next : ℕ) → goes_on (skip_missed cron e fuel minimum next) ≡ true
  unfolding skip_missed
  skip_missed-goes_on e zero minimum next = refl
  skip_missed-goes_on e (suc fuel) minimum next =
      if-elim (λ (r : Result ℕ). goes_on r ≡ true) (leb next minimum)
        (λ _.
          maybe-elim (λ (r : Result ℕ). goes_on r ≡ true) (cron.get_next e next) (λ _. refl)
            (λ n _. skip_missed-goes_on e fuel minimum n))
        (λ _. refl)

  calculate-goes_on :
      (e : String) (base : ℕ) (minimum : Option ℕ)
      → goes_on (calculate_next_run_time cron e base minimum) ≡ true
  unfolding calculate_next_run_time first_point skip_points
  calculate-goes_on e base minimum =
      if-elim (λ (r : Result ℕ). goes_on r ≡ true) (cron.parses e)
        (λ _. from_point minimum (cron.get_next e base)) (λ _. refl)
    where
      from_point : (minimum next : Option ℕ) → goes_on (first_point cron e minimum next) ≡ true
      from_point minimum none = refl
      from_point none (some next) = refl
      from_point (some m) (some next) = skip_missed-goes_on e (suc (suc m)) m next

  claim_all-GoesOn : (now : ℕ) (candidates : List Task) → GoesOn (claim_all cron now candidates)
  unfolding claim_all claim_one claim_due_task
  claim_all-GoesOn now [] = record { goes = λ s. refl }
  claim_all-GoesOn now (task ∷ candidates) =
      let rest = claim_all cron now candidates in
      let ih = claim_all-GoesOn now candidates in
      maybe-elim (λ (m : Exec Db (List ClaimedTask)). GoesOn m) task.next_run_time (λ _. ih)
        λ at _.
          let next = calculate_next_run_time cron task.cron_expression at (some now) in
          >>=-GoesOn (lift next) _
            (record { goes = λ s. calculate-goes_on task.cron_expression at (some now) })
            λ new.
              >>=-GoesOn (claim_due_task task.id at new) _ (record { goes = λ s. refl })
                λ hit.
                  >>=-GoesOn rest (λ others. pure (add_claimed task at new hit others)) ih
                    (λ others. record { goes = λ s. refl })

  schedule_due_tasks-GoesOn :
      (now : ℕ) (running : List ℕ) (slots : ℕ) → GoesOn (schedule_due_tasks cron now running slots)
  unfolding schedule_due_tasks get_due_tasks
  schedule_due_tasks-GoesOn now running slots =
      >>=-GoesOn (get_due_tasks now running slots) (claim_all cron now)
        (record { goes = λ s. refl }) (claim_all-GoesOn now)

  fill_one-GoesOn : (now : ℕ) (task : Task) → GoesOn (fill_one cron now task)
  unfolding fill_one update_task
  fill_one-GoesOn now task =
      >>=-GoesOn (lift (calculate_next_run_time cron task.cron_expression now none)) _
        (record { goes = λ s. calculate-goes_on task.cron_expression now none })
        (λ next. record { goes = λ s. refl })

  fill_all-GoesOn : (now : ℕ) (rows : List Task) → GoesOn (fill_all cron now rows)
  unfolding fill_all
  fill_all-GoesOn now [] = record { goes = λ s. refl }
  fill_all-GoesOn now (task ∷ rows) =
      >>=-GoesOn (if is_some task.next_run_time then pure 0 else fill_one cron now task) _
        (if-elim (λ (m : Exec Db ℕ). GoesOn m) (is_some task.next_run_time)
          (λ _. record { goes = λ s. refl }) (λ _. fill_one-GoesOn now task))
        (λ here.
          >>=-GoesOn (fill_all cron now rows) _ (fill_all-GoesOn now rows)
            (λ others. record { goes = λ s. refl }))

  fill_missing-GoesOn : (now : ℕ) → GoesOn (fill_missing_next_run_time cron now)
  unfolding fill_missing_next_run_time
  fill_missing-GoesOn now =
      >>=-GoesOn (gets (λ db. (list_rows 0 1000 (λ (t : Task). t.enabled) db.tasks).0))
        (fill_all cron now) (record { goes = λ s. refl }) (fill_all-GoesOn now)

-- No cancellation, that is
abbrev is_fault : Option Error → Bool
is_fault none = true
is_fault (some e) = not (is_cancelled e)

session-GoesOn :
    {A : Type 0} (fault : Option Error) (c : Exec Db A)
    → is_fault fault ≡ true
    → GoesOn c
    → GoesOn (session fault c)
session-GoesOn none c f h = record { goes = λ s. (transaction-GoesOn c h).goes s.db }
session-GoesOn (some e) c f h = record { goes = λ s. f }

-- A round in which nothing is cancelled
pub record IsUncancelled (r : Round) : Type 0 where
  pub claims : is_fault r.claim_fault ≡ true
  pub fills : is_fault r.fill_fault ≡ true
  pub sleeps : r.sleep_cancelled ≡ false

module _ (cron : Cron) where
  poll_slots-GoesOn :
      (now : ℕ) (fault : Option Error) (found : Option (List ℕ × ℕ))
      → is_fault fault ≡ true
      → GoesOn (poll_slots cron now fault found)
  unfolding poll_slots register_claimed
  poll_slots-GoesOn now fault none h = record { goes = λ s. refl }
  poll_slots-GoesOn now fault (some (running, slots)) h =
      >>=-GoesOn (session fault (schedule_due_tasks cron now running slots)) register_claimed
        (session-GoesOn fault (schedule_due_tasks cron now running slots) h
          (schedule_due_tasks-GoesOn cron now running slots))
        (λ claimed. record { goes = λ s. refl })

  pub loop_body-GoesOn : (r : Round) → IsUncancelled r → GoesOn (loop_body cron r)
  unfolding loop_body poll
  loop_body-GoesOn r h =
      >>=-GoesOn (poll cron r.now r.claim_fault)
        (λ _. session r.fill_fault (fill_missing_next_run_time cron r.fill_now))
        (record {
          goes =
              λ s. (poll_slots-GoesOn r.now r.claim_fault (begin_poll s.scheduler) h.claims).goes s;
        })
        (λ _.
          session-GoesOn r.fill_fault (fill_missing_next_run_time cron r.fill_now) h.fills
            (fill_missing-GoesOn cron r.fill_now))
