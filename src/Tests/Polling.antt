-- ===== src/Tests/Polling.antt =====
-- The loop of the scheduler and a request to it, at concrete inputs.
use qiankun.Prelude.{ℕ, ◌≡◌, refl, true, false, some, none, [], ◌∷◌, ◌+◌}
use qiankun.Prelude.Lists.{length, All}
use qiankun.Prelude.Exec.{Error, Exec, ok, pure}
use qiankun.Scheduler.Registration.{RunningTaskState, TaskScheduler, lookup_running, begin_poll}
use qiankun.Scheduler.Loop.{Service, Round, Looping, schedule_loop}
use qiankun.Scheduler.Loop.Cancellation.{IsUncancelled}
use qiankun.Scheduler.Loop.Survival.{IsWait, schedule_loop_survives}
use qiankun.Tests.{tables, every_minute}

abbrev running : RunningTaskState
running = record { asyncio_task = 0; execution_id = some 7; ready = true; cancelling = false }

-- Task 9 runs.
abbrev busy : TaskScheduler
busy = record { max_concurrent_tasks = 3; running_tasks = (9, running) ∷ []; next_task = 1 }

abbrev begun : Looping
begun = record {
  service = record { db = tables; scheduler = busy; should_stop = false };
  consecutive_errors = 0;
  waits = [];
}

abbrev good : Round
good = record {
  now = 1000000000;
  fill_now = 1000000001;
  claim_fault = none;
  fill_fault = none;
  sleep_cancelled = false;
}

-- The database is away.
abbrev bad : Round
bad = record good { claim_fault = some Error.unexpected }

good-IsUncancelled : IsUncancelled good
good-IsUncancelled = record { claims = refl; fills = refl; sleeps = refl }

bad-IsUncancelled : IsUncancelled bad
bad-IsUncancelled = record { claims = refl; fills = refl; sleeps = refl }

schedule_loop_survives_example :
    (let after = schedule_loop every_minute 5 (bad ∷ bad ∷ good ∷ []) begun in
      (after.0 ≡ ok tt)
      × (length after.1.waits ≡ 0 + 3)
      × All (IsWait 5) after.1.waits
      × ((k : ℕ) (r : RunningTaskState)
          → lookup_running k busy.running_tasks ≡ some r
          → lookup_running k after.1.service.scheduler.running_tasks ≡ some r))
schedule_loop_survives_example =
    schedule_loop_survives every_minute 5 (bad ∷ bad ∷ good ∷ []) begun
      (bad-IsUncancelled, (bad-IsUncancelled, (good-IsUncancelled, tt))) tt

-- Two failures double the sleep, and a good round is followed by the interval.
waits_run : (schedule_loop every_minute 5 (bad ∷ bad ∷ []) begun).1.waits ≡ 60 ∷ 120 ∷ []
unfolding schedule_loop begin_poll
waits_run = refl

-- The run ends while the request waits.
abbrev quiet : Exec Service Unit
quiet = pure tt
