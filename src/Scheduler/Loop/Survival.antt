-- ===== src/Scheduler/Loop/Survival.antt =====
-- The loop of scheduler.py goes on, whatever its rounds meet.
use qiankun.Prelude.{
  ℕ, zero, suc, ◌+◌, ◌^◌, ◌≤◌, ◌≡◌, refl, arith, true, false, some, List, [], ◌∷◌, Bool-cases, ◌⊎◌,
  inl, inr, not,
}
use qiankun.Prelude.Lists.{length, All, All-append, length-append}
use qiankun.Prelude.Exec.{Error, Result, ok, err, continue}
use qiankun.Scheduler.Calculator.{Cron}
use qiankun.Scheduler.Policy.{fill_missing_next_run_time}
use qiankun.Scheduler.Registration.{RunningTaskState, lookup_running, backoff}
use qiankun.Scheduler.Loop.{
  Service, session, poll, Round, loop_body, Looping, sleep, is_cancelled, after_body, loop_round,
  schedule_loop,
}
use qiankun.Scheduler.Loop.Polls.{KeepsRunning, session-KeepsRunning, poll-KeepsRunning}
use qiankun.Scheduler.Loop.Cancellation.{goes_on, IsUncancelled, loop_body-GoesOn}

module _ (cron : Cron) where
  loop_body-KeepsRunning :
      (k : ℕ) (state : RunningTaskState) (r : Round) (v : Service)
      → KeepsRunning k state v (loop_body cron r v).1
  unfolding loop_body
  loop_body-KeepsRunning k state r v =
      let (result, t) = poll cron r.now r.claim_fault v in
      let first = poll-KeepsRunning cron r.now k state r.claim_fault v in then_fills result t first
    where
      then_fills :
          (result : Result ℕ) (t : Service)
          → KeepsRunning k state v t
          → KeepsRunning k state v
              (continue result
                (λ _. session r.fill_fault (fill_missing_next_run_time cron r.fill_now))
                t).1
      then_fills (ok n) t h =
          let fill =
            session-KeepsRunning k state r.fill_fault (fill_missing_next_run_time cron r.fill_now)
              t in
          record { still = λ e. fill.still (h.still e) }
      then_fills (err e) t h = h

-- A sleep of the interval, or of a minute to five
abbrev pub IsWait : ℕ → ℕ → Type 0
IsWait interval seconds = (seconds ≡ interval) ⊎ ((60 ≤ seconds) × (seconds ≤ 300))

one_le_pow : (n : ℕ) → 1 ≤ 2 ^ n
one_le_pow zero = omega arith
one_le_pow (suc n) = omega (arith, one_le_pow n)

backoff-IsWait : (interval n : ℕ) → IsWait interval (backoff (suc n))
backoff-IsWait interval n = inr (omega (arith, one_le_pow n), omega arith)

-- What some rounds leave: the loop is still there, with one sleep for each, and so is every task that ran.
record Goes (interval : ℕ) (rounds : ℕ) (before : Looping) (x : Result (Unit {0}) × Looping)
    : Type 0 where
  on : x.0 ≡ ok tt
  slept : length x.1.waits ≡ length before.waits + rounds
  waits : All (IsWait interval) before.waits → All (IsWait interval) x.1.waits
  running :
      (k : ℕ) (r : RunningTaskState)
      → lookup_running k before.service.scheduler.running_tasks ≡ some r
      → lookup_running k x.1.service.scheduler.running_tasks ≡ some r

uncancelled : (e : Error) → not (is_cancelled e) ≡ true → is_cancelled e ≡ false
uncancelled e h = elim (Bool-cases (is_cancelled e)) [ inl hit ↦ cc | inr miss ↦ miss ]

slept-Goes :
    (interval seconds n : ℕ) (l : Looping)
    → IsWait interval seconds
    → Goes interval 1 l (sleep false seconds (record l { consecutive_errors = n }))
slept-Goes interval seconds n l w = record {
  on = refl;
  slept = length-append l.waits (seconds ∷ []);
  waits = λ h. All-append (IsWait interval) l.waits (seconds ∷ []) h (w, tt);
  running = λ k r e. e;
}

after_body-Goes :
    (interval : ℕ) (result : Result ℕ) (l : Looping)
    → goes_on result ≡ true
    → Goes interval 1 l (after_body interval false result l)
unfolding after_body
after_body-Goes interval (ok n) l h = slept-Goes interval interval 0 l (inl refl)
after_body-Goes interval (err e) l h =
    let n = suc l.consecutive_errors in
    rw (uncancelled e h)
      (slept-Goes interval (backoff n) n l (backoff-IsWait interval l.consecutive_errors))

module _ (cron : Cron) (interval : ℕ) where
  loop_round-Goes :
      (r : Round) (l : Looping) → IsUncancelled r → Goes interval 1 l (loop_round cron interval r l)
  unfolding loop_round
  loop_round-Goes r l h =
      let (result, v) = loop_body cron r l.service in
      let g =
        after_body-Goes interval result (record l { service = v })
          ((loop_body-GoesOn cron r h).goes l.service) in
      rw h.sleeps record {
        on = g.on;
        slept = g.slept;
        waits = g.waits;
        running = λ k state e.
            g.running k state ((loop_body-KeepsRunning cron k state r l.service).still e);
      }

  schedule_loop-Goes :
      (rounds : List Round) (l : Looping)
      → All IsUncancelled rounds
      → Goes interval (length rounds) l (schedule_loop cron interval rounds l)
  unfolding schedule_loop
  schedule_loop-Goes [] l h = record {
    on = refl;
    slept = omega arith;
    waits = λ a. a;
    running = λ k r e. e;
  }
  schedule_loop-Goes (r ∷ rounds) l (first, others) =
      let g = loop_round-Goes r l first in
      let g' = schedule_loop-Goes rounds (loop_round cron interval r l).1 others in
      rw (g.on) record {
        on = g'.on;
        slept = omega (arith, g.slept, g'.slept);
        waits = λ a. g'.waits (g.waits a);
        running = λ k state e. g'.running k state (g.running k state e);
      }

-- The loop of the scheduler goes on for as many rounds as nothing cancels, whatever exceptions the
-- database and croniter raise in them. It sleeps once in each round, for the interval or, after an
-- exception, for 60 to 300 seconds; and every task that is registered as running at the start is so at the
-- end, with the same registration, so the polls start no task that runs.
pub schedule_loop_survives :
    (cron : Cron) (interval : ℕ) (rounds : List Round) (l : Looping)
    → All IsUncancelled rounds
    → All (IsWait interval) l.waits
    → (let after = schedule_loop cron interval rounds l in
        (after.0 ≡ ok tt)
        × (length after.1.waits ≡ length l.waits + length rounds)
        × All (IsWait interval) after.1.waits
        × ((k : ℕ) (r : RunningTaskState)
            → lookup_running k l.service.scheduler.running_tasks ≡ some r
            → lookup_running k after.1.service.scheduler.running_tasks ≡ some r))
schedule_loop_survives cron interval rounds l h w =
    let g = schedule_loop-Goes cron interval rounds l h in (g.on, g.slept, g.waits w, g.running)
