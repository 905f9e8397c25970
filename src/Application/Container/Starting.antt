-- ===== src/Application/Container/Starting.antt =====
-- How the start of the program in app/application/container.py ends.
use qiankun.Prelude.{
  ◌≡◌, refl, sym, subst, Bool, true, false, not, Option, none, some, Bool-cases, Option-cases, inl,
  inr,
}
use qiankun.Prelude.Exec.{Error, Result, ok, err, raise, modify, continue, ◌>>◌}
use qiankun.Infrastructure.Database.{Db}
use qiankun.Infrastructure.Repositories.Executions.{cancel_orphan_running}
use qiankun.Application.Settings.Bootstrap.{bootstrap}
use qiankun.Application.Configuration.{SystemBaseSettings, LoggingSettings}
use qiankun.Application.Container.{
  Container, Startup, on_tables, configure, acquire_lock, effective_logging, effective_system_base,
  read_setting, refresh_browser, configure_stored, load_providers, build_scheduler,
  restore_dependencies, start_with, start_loop, steps, initialize,
}
use qiankun.Application.Container.Ending.{
  stop_scheduler, shutdown_database, shutdown, or_shutdown, create,
}
use qiankun.Application.Container.Steps.{
  Frame, frame, Quiet, >>=-Quiet, on_tables-Quiet, raise_if-Quiet, attempt-Quiet, IsIdle, Ends,
  Goes, Quiet-Goes, >>-Goes, Chain, run_steps_nil-Chain, run_steps_cons-Chain,
  run_steps-Quiet-Chain,
}
use qiankun.Scheduler.Registration.{TaskScheduler, new_scheduler}
use qiankun.Scheduler.Loop.{Service, is_cancelled, recover_orphans, start as start_scheduler}

module _ (s : Startup) where
  configure-Quiet : (options : LoggingSettings) → Quiet (configure s options)
  unfolding configure
  configure-Quiet options = record { quiet = λ c. refl }

  configure_stored-Quiet : Quiet (configure_stored s)
  unfolding configure_stored
  configure_stored-Quiet =
      >>=-Quiet (on_tables (effective_logging s)) (configure s)
        (on_tables-Quiet (effective_logging s)) configure-Quiet

  load_providers-Quiet : Quiet (load_providers s)
  unfolding load_providers
  load_providers-Quiet = record { quiet = λ c. refl }

  restore_dependencies-Quiet : Quiet (restore_dependencies s)
  unfolding restore_dependencies
  restore_dependencies-Quiet = attempt-Quiet _ (record { quiet = λ c. refl })

refresh_browser-Quiet : Quiet refresh_browser
unfolding refresh_browser
refresh_browser-Quiet =
    >>=-Quiet (on_tables (read_setting "browser" "cdp")) _
      (on_tables-Quiet (read_setting "browser" "cdp")) (λ value. record { quiet = λ c. refl })

abbrev IsLocked : Frame → Type 0
IsLocked f = IsIdle f × (f.locked ≡ true)

-- The scheduler is the one of the settings that were accepted.
abbrev pub IsScheduled : Frame → Type 0
IsScheduled f =
    (b : SystemBaseSettings) × (f.base ≡ some b)
    × (f.scheduler ≡ some (new_scheduler b.concurrency))

abbrev IsBuilt : Frame → Type 0
IsBuilt f = IsLocked f × IsScheduled f

abbrev pub IsRunning : Frame → Type 0
IsRunning f = (f.looping ≡ true) × (f.locked ≡ true) × IsScheduled f

module _ (s : Startup) where
  acquire_lock-Goes : Goes IsIdle IsLocked (acquire_lock s)
  acquire_lock-Goes =
      >>-Goes IsIdle IsIdle IsLocked _ _
        (Quiet-Goes IsIdle _ (λ g idle. idle)
          (raise_if-Quiet (not s.lock_free) Error.runtime_initialization))
        (record { goes = λ c idle. (idle, refl) })

  build-Ends :
      (o : Result SystemBaseSettings × Db) (c : Container)
      → IsLocked (frame c)
      → Ends IsBuilt (
          continue o.0
            (λ base. modify (λ c. record c {
              base = some base;
              scheduler = some (new_scheduler base.concurrency);
            }))
            (record c { site = record (c.site) { db = o.1 } }))
  build-Ends (ok base, db) c (idle, locked) = ((idle, locked), (base, refl, refl))
  build-Ends (err e, db) c (idle, locked) = idle

  build_scheduler-Goes : Goes IsLocked IsBuilt (build_scheduler s)
  unfolding build_scheduler
  build_scheduler-Goes = record { goes = λ c q. build-Ends (effective_system_base s c.site.db) c q }

  start_loop-Goes : Goes IsBuilt IsRunning (start_loop s)
  unfolding start_loop start_scheduler recover_orphans cancel_orphan_running
  start_loop-Goes = record {
    goes = λ c ((idle, locked), (b, eb, es)).
        subst (λ (o : Option TaskScheduler). Ends IsRunning (start_with s.now o c)) (sym es)
          (refl, locked, (b, eb, refl));
  }

module _ (s : Startup) where
  steps-Chain : Chain s IsIdle IsRunning 0 (steps s)
  unfolding steps
  steps-Chain =
      run_steps-Quiet-Chain s 0 _ _ _ _ (λ g idle. idle) (configure-Quiet s s.logging_options)
        (run_steps_cons-Chain s 1 _ _ _ _ _ (λ g idle. idle) (acquire_lock-Goes s)
          (run_steps-Quiet-Chain s 2 _ _ _ _ (λ g q. q.0) (on_tables-Quiet (bootstrap _))
            (run_steps-Quiet-Chain s 3 _ _ _ _ (λ g q. q.0) (configure_stored-Quiet s)
              (run_steps-Quiet-Chain s 4 _ _ _ _ (λ g q. q.0) (load_providers-Quiet s)
                (run_steps-Quiet-Chain s 5 _ _ _ _ (λ g q. q.0) refresh_browser-Quiet
                  (run_steps_cons-Chain s 6 _ _ _ _ _ (λ g q. q.0) (build_scheduler-Goes s)
                    (run_steps-Quiet-Chain s 7 _ _ _ _ (λ g q. q.0.0) (restore_dependencies-Quiet s)
                      (run_steps-Quiet-Chain s 8 _ _ _ _ (λ g q. q.0.0) (load_providers-Quiet s)
                        (run_steps_cons-Chain s 9 _ _ _ _ _ (λ g q. q.0.0) (start_loop-Goes s)
                          (run_steps_nil-Chain s 10 IsRunning))))))))))

  initialize-Goes : Goes IsIdle IsRunning (initialize s)
  unfolding initialize
  initialize-Goes = steps-Chain.chain

module _ (s : Startup) (meanwhile : Service → Service) where
  stop_scheduler-stops :
      (c : Container) → c.looping ≡ false → (stop_scheduler meanwhile c.scheduler c).looping ≡ false
  stop_scheduler-stops c idle = elim (Option-cases c.scheduler) [
    | inl n ↦ rw n idle
    | inr (x, e) ↦ rw e refl
  ]

  shutdown_database-disposes :
      (c : Container)
      → s.unlock_fault ≡ none
      → s.dispose_fault ≡ none
      → shutdown_database s c ≡ (ok tt, record c { locked = false; disposed = true })
  unfolding shutdown_database
  shutdown_database-disposes c unlock dispose = elim (Bool-cases c.locked) [
    | inl y ↦ rw (y, unlock, dispose) refl
    | inr n ↦ rw (n, dispose) refl
  ]

-- Nothing is left behind: no lock, no loop, no connection.
abbrev pub IsClosed : Container → Type 0
IsClosed c = (c.locked ≡ false) × (c.looping ≡ false) × (c.disposed ≡ true)

-- After an exception: a cancellation is not caught.
abbrev AfterRaise : Bool → Container → Type 0
AfterRaise true c = c.looping ≡ false
AfterRaise false c = IsClosed c

abbrev pub Outcome : Result (Unit {0}) × Container → Type 0
Outcome (ok _, c) = IsRunning (frame c)
Outcome (err e, c) = AfterRaise (is_cancelled e) c

module _ (s : Startup) (http : s.http_fault ≡ none) (unlock : s.unlock_fault ≡ none)
    (dispose : s.dispose_fault ≡ none) where
  shutdown-raise-disposes :
      (e : Error) (c : Container)
      → ◌>>◌ {B = Unit {0}} (shutdown s (λ v. v)) (raise e) c ≡ (
        err e,
        record (stop_scheduler (λ v. v) c.scheduler c) { locked = false; disposed = true },
      )
  unfolding shutdown
  shutdown-raise-disposes e c =
      rw
        (
          http,
          shutdown_database-disposes s (λ v. v) (stop_scheduler (λ v. v) c.scheduler c) unlock
              dispose,
        )
        refl

  or_shutdown-Outcome :
      (o : Result (Unit {0}) × Container)
      → Ends IsRunning o
      → ((or_shutdown s o.0 o.1).0 ≡ o.0) × Outcome (or_shutdown s o.0 o.1)
  or_shutdown-Outcome (ok _, c) h = (refl, h)
  or_shutdown-Outcome (err e, c) h = elim (Bool-cases (is_cancelled e)) [
    | inl y ↦ rw (y, y) (refl, h)
    | inr n ↦
        rw (n, shutdown-raise-disposes e c, n)
          (refl, (refl, stop_scheduler-stops s (λ v. v) c h, refl))
  ]

  -- `create` on a container that runs no loop, where the end of the program raises nothing itself. It
  -- returns or raises as its start does. If it returns, then the lock is held, the loop runs, and the
  -- scheduler has the limit of the settings that were accepted. If it raises, other than by a
  -- cancellation, then neither the lock nor the loop is left, and the engine is disposed of; after a
  -- cancellation no loop is left.
  pub create-Outcome :
      (c : Container)
      → c.looping ≡ false
      → ((create s c).0 ≡ (initialize s c).0) × Outcome (create s c)
  unfolding create
  create-Outcome c idle = or_shutdown-Outcome (initialize s c) ((initialize-Goes s).goes c idle)
