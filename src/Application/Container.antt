-- ===== src/Application/Container.antt =====
-- app/application/container.py: the start of the program step by step, with `initialize` of
-- app/infrastructure/database/engine.py. The wiring of the services is left out. `Startup` is what the
-- environment and the libraries do.
pub mod Ending
pub mod Steps
pub mod Starting
pub mod Updates
pub mod Browsing
pub mod Restart
use qiankun.Prelude.{
  ℕ, zero, suc, String, Bool, true, false, not, ◌&&◌, Option, none, some, List, [], ◌∷◌, str_eq,
  maybe, is_some, if◌then◌else◌,
}
use qiankun.Prelude.Exec.{
  Error, Result, ok, err, is_ok, Exec, pure, raise, raise_if, lift, gets, modify, ◌>>=◌, ◌>>◌,
}
use qiankun.Prelude.Json.{Value, Fields, update_fields}
use qiankun.Infrastructure.Database.{SystemSetting, Db}
use qiankun.Infrastructure.Logging.{Sinks, Loguru, configure as configure_sinks}
use qiankun.Infrastructure.Plugins.Store.{Directories}
use qiankun.Runtime.Discovery.{Modules, Importer, load_packages}
use qiankun.Application.Settings.{get as get_setting, stored_fields}
use qiankun.Application.Settings.Bootstrap.{Defaults, bootstrap}
use qiankun.Application.Environment.{Site, Tools}
use qiankun.Application.Dependencies.{sync}
use qiankun.Application.Configuration.{
  Pydantic, SystemBaseSettings, validate_system_base, LoggingSettings, validate_logging,
}
use qiankun.Application.Triggers.{stop}
use qiankun.Scheduler.Registration.{TaskScheduler, new_scheduler}
use qiankun.Scheduler.Loop.{Service, is_cancelled, start as start_scheduler}

-- `ApplicationContainer`. `locked` and `disposed` are the state of the database, `sinks` that of the log,
-- and `browser_cache` is `_setting_cache[("browser", "cdp")]`.
pub record Container : Type 0 where
  pub site : Site
  pub files : Directories
  pub modules : Modules
  pub locked : Bool
  pub disposed : Bool
  pub sinks : Sinks
  pub browser_cache : Fields
  pub base : Option SystemBaseSettings
  pub scheduler : Option TaskScheduler
  pub looping : Bool

-- `base_defaults` and `logging_defaults` are the dumps of the environment's settings. `lock_free` is the answer
-- of `pg_try_advisory_lock`. An exception of a step by its
-- database, network or file is a `fault`, by the step's number; the close of the HTTP client, the
-- release of the lock and the disposal of the engine may raise too.
pub record Startup : Type 0 where
  pub pydantic : Pydantic
  pub tools : Tools
  pub run : Importer
  pub admin_hash : String
  pub base_defaults : Fields
  pub logging_options : LoggingSettings
  pub logging_defaults : Fields
  pub lock_free : Bool
  pub loguru : Loguru
  pub now : ℕ
  pub fault : ℕ → Option Error
  pub http_fault : Option Error
  pub unlock_fault : Option Error
  pub dispose_fault : Option Error

abbrev pub raise_fault : {S : Type 0} → Option Error → Exec S Unit
raise_fault none = pure tt
raise_fault (some e) = raise e

abbrev pub on_tables : {A : Type 0} → Exec Db A → Exec Container A
on_tables m c = let (r, db) = m c.site.db in (r, record c { site = record (c.site) { db = db } })

-- `loguru_logging.configure`
unfoldable pub configure : Startup → LoggingSettings → Exec Container Unit
unfolding configure_sinks
configure s options c =
    let (r, sinks) = configure_sinks s.loguru options c.sinks in (r, record c { sinks = sinks })

-- `Database.initialize`
abbrev pub acquire_lock : Startup → Exec Container Unit
acquire_lock s = do
  raise_if (not s.lock_free) Error.runtime_initialization
  modify (λ c. record c { locked = true })

-- `dict(row.get("value") or {})` of the answer, or of `{}` where `_read_setting` has caught an exception
abbrev pub value_or_empty : Result SystemSetting → Result Fields
value_or_empty (ok row) = stored_fields row.value
value_or_empty (err e) = if is_cancelled e then err e else ok Fields.end

-- `_read_setting`, with what every caller does to its answer
unfoldable pub read_setting : String → String → Exec Db Fields
unfolding get_setting
read_setting scope key db = let (r, after) = get_setting scope key db in (value_or_empty r, after)

-- `_effective_logging`
unfoldable pub effective_logging : Startup → Exec Db LoggingSettings
unfolding read_setting validate_logging
effective_logging s = do
  value ← read_setting "logging" "loguru"
  lift (validate_logging s.pydantic (update_fields s.logging_defaults value))

-- `_effective_system_base`
unfoldable pub effective_system_base : Startup → Exec Db SystemBaseSettings
unfolding read_setting validate_system_base
effective_system_base s = do
  value ← read_setting "system" "base"
  lift (validate_system_base s.pydantic (update_fields s.base_defaults value))

-- `self._setting_cache[("browser", "cdp")] = dict(row.get("value") or {})`
unfoldable pub refresh_browser : Exec Container Unit
unfolding read_setting
refresh_browser = do
  value ← on_tables (read_setting "browser" "cdp")
  modify (λ c. record c { browser_cache = value })

unfoldable pub configure_stored : Startup → Exec Container Unit
unfolding effective_logging
configure_stored s = do options ← on_tables (effective_logging s); configure s options

-- `except Exception`
abbrev pub ignore_exception : {A S : Type 0} → Result A → Exec S Unit
ignore_exception (ok a) = pure tt
ignore_exception (err e) = if is_cancelled e then raise e else pure tt

abbrev pub attempt : {A S : Type 0} → Exec S A → Exec S Unit
attempt m v = let (r, after) = m v in ignore_exception r after

-- `self.providers.load()`
unfoldable pub load_providers : Startup → Exec Container Unit
unfolding load_packages
load_providers s c =
    let (registry, modules) = load_packages s.run c.files c.modules in
    (ok tt, record c { site = record (c.site) { registry = registry }; modules = modules })

-- The scheduler of the stored settings
unfoldable pub build_scheduler : Startup → Exec Container Unit
unfolding effective_system_base
build_scheduler s = do
  base ← on_tables (effective_system_base s)
  modify (λ c. record c { base = some base; scheduler = some (new_scheduler base.concurrency) })

-- `_restore_dependencies`
unfoldable pub restore_dependencies : Startup → Exec Container Unit
unfolding sync
restore_dependencies s =
    attempt λ c. let (r, site) = sync s.tools c.site in (r, record c { site = site })

abbrev pub started : Result (Unit {0}) × Service → Exec Container Unit
started (r, v) c = (
  r,
  record c {
    site = record (c.site) { db = v.db };
    scheduler = some v.scheduler;
    looping = is_ok r;
  },
)

abbrev pub start_with : ℕ → Option TaskScheduler → Exec Container Unit
start_with now none c = (err Error.unexpected, c)
start_with now (some scheduler) c =
    started
      (start_scheduler now (record { db = c.site.db; scheduler = scheduler; should_stop = false }))
      c

-- `await self.scheduler.start()`; what it does to the tables cannot raise but by a fault.
unfoldable pub start_loop : Startup → Exec Container Unit
unfolding start_scheduler
start_loop s c = start_with s.now c.scheduler c

-- The steps of `_initialize`
unfoldable pub steps : Startup → List (Exec Container Unit)
unfolding bootstrap configure_stored load_providers refresh_browser build_scheduler
    restore_dependencies start_loop
steps s =
    configure s s.logging_options
    ∷ acquire_lock s
    ∷ on_tables (
        bootstrap (record {
          admin_password_hash = s.admin_hash;
          system_base = Value.dict s.base_defaults;
          logging_loguru = Value.dict s.logging_defaults;
        }))
    ∷ configure_stored s
    ∷ load_providers s
    ∷ refresh_browser
    ∷ build_scheduler s
    ∷ restore_dependencies s
    ∷ load_providers s
    ∷ start_loop s
    ∷ []

unfoldable pub run_steps : Startup → ℕ → List (Exec Container Unit) → Exec Container Unit
run_steps s n [] = pure tt
run_steps s n (step ∷ rest) = do raise_fault (s.fault n); step; run_steps s (suc n) rest

-- `_initialize`
unfoldable pub initialize : Startup → Exec Container Unit
unfolding steps run_steps
initialize s = run_steps s zero (steps s)
