-- ===== src/Application/Container/Ending.antt =====
-- The end of the program in app/application/container.py and app/infrastructure/database/engine.py, and
-- `create`, whose failures lead to it. `meanwhile` is what happens while a running task ends.
use qiankun.Prelude.{true, false, Option, none, some, if◌then◌else◌}
use qiankun.Prelude.Exec.{Result, ok, err, Exec, pure, raise, gets, modify, ◌>>=◌, ◌>>◌}
use qiankun.Application.Container.{Container, Startup, raise_fault, initialize}
use qiankun.Application.Triggers.{stop}
use qiankun.Scheduler.Registration.{TaskScheduler}
use qiankun.Scheduler.Loop.{Service, is_cancelled}

-- `await self.scheduler.stop()` and what it catches; there may be no scheduler yet.
abbrev pub stop_scheduler : (Service → Service) → Option TaskScheduler → Container → Container
stop_scheduler meanwhile none c = c
stop_scheduler meanwhile (some scheduler) c =
    let v =
      stop meanwhile (record { db = c.site.db; scheduler = scheduler; should_stop = false }) in
    record c { site = record (c.site) { db = v.db }; scheduler = some v.scheduler; looping = false }

-- `Database.shutdown`
unfoldable pub shutdown_database : Startup → Exec Container Unit
shutdown_database s = do
  locked ← gets (λ c. c.locked)
  raise_fault (if locked then s.unlock_fault else none)
  modify (λ c. record c { locked = false })
  raise_fault s.dispose_fault
  modify (λ c. record c { disposed = true })

-- `shutdown`
unfoldable pub shutdown : Startup → (Service → Service) → Exec Container Unit
unfolding stop shutdown_database
shutdown s meanwhile = do
  modify (λ c. stop_scheduler meanwhile c.scheduler c)
  raise_fault s.http_fault
  shutdown_database s

-- `except Exception` of `create`
abbrev pub or_shutdown : Startup → Result (Unit {0}) → Exec Container Unit
or_shutdown s (ok _) = pure tt
or_shutdown s (err e) = if is_cancelled e then raise e else (shutdown s (λ v. v) >> raise e)

-- `create`
unfoldable pub create : Startup → Exec Container Unit
unfolding initialize shutdown
create s c = let (r, after) = initialize s c in or_shutdown s r after
