-- ===== src/Lib.antt =====
-- Qiankun: a task scheduler with cron schedules, retries, live logs and notifications. This library
-- models the scheduling engine of the program and the services around it, and proves what they
-- promise.
--
-- The parts, and where they are:
--   * Prelude: methods that change a state and may raise (Exec, with the exceptions of
--     app/core/exceptions.py), JSON values, lists over the native numbers.
--   * Runtime: app/runtime. Enums (enums.py), Logger (`redact` of logger.py), LogStream
--     (execution/log_stream.py: histories, subscriptions, eviction), Registry
--     (provider/registry.py: names of providers) and Discovery (provider/discovery.py: the walk over
--     the providers package, with Python's module cache as a state).
--   * Infrastructure: app/infrastructure. Database and Repositories (database: the three tables are
--     lists of rows in the order of insertion; a repository method is an action on the database),
--     Auth (auth/jwt.py), Plugins (plugins/dependencies.py and plugins/store.py), Browser (the address
--     in browser/cdp.py) and Logging (logging/loguru.py).
--   * Scheduler: app/application/services/scheduler. Calculator (calculator.py), Policy (policy.py),
--     Attempt (attempt.py), Runner (runner.py, and `_run_with_concurrency` of scheduler.py),
--     Registration (the running tasks of scheduler.py, as steps) and Loop (its polls and its loop).
--   * Engine: the state that a run reads and writes (World), the event bus (app/runtime/event.py) and
--     the finalizer (scheduler/finalizer.py) that the bus calls.
--   * Application: app/application/services. Tasks (task.py), Executions
--     (execution.py, with ../pagination.py; Follow is its `stream_logs`), Settings
--     (system_setting.py; Bootstrap is what a start writes), Stats (stats.py), Environment and
--     Dependencies (dependency.py), Providers (provider.py), Auth (auth.py), and Triggers (the requests
--     of the services that reach the scheduler, and `stop`). Configuration is app/core/config.py
--     and Container app/application/container.py, with app/infrastructure/database/engine.py: its
--     start as a list of steps, Ending its end, Updates a write of a setting with the hook after it.
--   * Api: app/api. Middleware is middleware.py, in the order of app/main.py.
--   * Providers: app/providers/probe. ProbeConfig (config.py), ProbeChecks and Probe (main.py).
--   * Tests: concrete inputs.
--
-- A run goes through the parts in this order: Policy claims the due tasks in one transaction; Runner
-- creates an execution row and goes round its loop; each round emits an event, has Attempt execute the
-- provider in a transaction of its own, and emits the terminal event, on which the log stream closes
-- the execution's log and the finalizer writes `last_run_time` and notifies.
--
-- Identifiers are numbers that the database gives out in turn, and times are numbers of microseconds.
-- The clock is a sequence of readings. An exception in a transaction restores the tables and nothing
-- else. What a provider, a browser session and a cancellation do during an attempt is the attempt's
-- `Conduct`; croniter, the regular expressions, the parsing of integers, the registry of providers and
-- the notification drivers are parameters. No other request writes while a run goes on.
--
-- Two loops run on fuel. The loop over missed cron points has one more round than the number of the
-- minimum time, which is enough as each point is later than the one before. The retry loop is given
-- its fuel from outside, and one more than the task's retry limit is enough.
--
-- The generator of the log endpoint is cut where it yields or waits, and the stream may change in between.
-- What the client libraries do while the probe checks a target is the target's conduct; PyJWT, Argon2, uv,
-- the packaging library, `urlsplit` and the running of a provider's source are parameters.
--
-- The start of the program is its steps in their order, each of which the database, the network or a file
-- may fail before it begins. What pydantic reads out of a value, loguru and `urllib.parse` are parameters.
--
-- Not modelled: the semaphore of scheduler.py, the routes and their schemas, the wiring of the services in
-- the container, the reading of the environment, the connections of the browser, the drivers of
-- notification, the HTTP client and the migrations, which are glue, input and output for the most part;
-- and of provider.py the trial run and the static checks of `validate`.
pub mod Api
pub mod Application
pub mod Engine
pub mod Infrastructure
pub mod Prelude
pub mod Providers
pub mod Runtime
pub mod Scheduler
pub mod Tests
