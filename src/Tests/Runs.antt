-- ===== src/Tests/Runs.antt =====
-- The theorems on one attempt, on a run, and on the log stream, at concrete inputs.
use qiankun.Prelude.{str_eq, ◌+◌, ◌≤◌, ◌≡◌, ◌≢◌, refl, String, Bool, false, some, [], arith}
use qiankun.Prelude.Lists.{length}
use qiankun.Prelude.Exec.{Error, err}
use qiankun.Prelude.Json.{Value, Fields, empty_dict}
use qiankun.Runtime.Enums.{TriggerType}
use qiankun.Runtime.Logger.{redact}
use qiankun.Runtime.Logger.Masking.{IsMasked, redact-IsMasked}
use qiankun.Runtime.LogStream.{ExecutionLogStream, new_stream, publish, subscribe}
use qiankun.Runtime.LogStream.Invariant.{IsWellFormed}
use qiankun.Runtime.LogStream.Runs.{Step, Reach, Reach-IsWellFormed}
use qiankun.Runtime.LogStream.Delivery.{published}
use qiankun.Engine.World.{in_transaction}
use qiankun.Scheduler.Attempt.{Conduct, Running, execute}
use qiankun.Scheduler.Attempt.Terminal.{verdict, Ends, execute-Ends}
use qiankun.Scheduler.Attempt.Lost.{cancelled_attempt_lost}
use qiankun.Scheduler.Runner.{TaskRunner, run_existing}
use qiankun.Scheduler.Runner.Retries.{run_existing_bounded}
use qiankun.Tests.{
  machine, masking, report, waiting, start, with_browser, browsing, smooth, stopped,
}

execute-Ends_example :
    Ends machine with_browser 10 1000000
      (verdict with_browser browsing smooth)
      (execute machine with_browser report waiting browsing "auto" smooth start)
execute-Ends_example =
    execute-Ends machine with_browser report waiting waiting browsing "auto" smooth start refl tt

cancelled_attempt_lost_example :
    let r =
      in_transaction (execute machine with_browser report waiting browsing "auto" stopped) start in
    (r.0 ≡ err Error.cancelled) × (r.1.db ≡ start.db)
cancelled_attempt_lost_example =
    cancelled_attempt_lost machine with_browser report waiting waiting browsing "auto" stopped start
      refl refl

abbrev failing : Conduct
failing = record smooth { running = Running.raised "ValueError: no" "trace" }

abbrev runner : TaskRunner
runner = record {
  host = machine;
  has_driver = λ channel. false;
  executor = with_browser;
  provider = λ name. some browsing;
  conduct = λ attempt. failing;
  sleep_cancelled = λ attempt. false;
}

run_existing_bounded_example :
    let (result, w) = run_existing runner 3 1 10 TriggerType.auto start in
    (result ≢ err Error.out_of_fuel) × (length w.db.executions ≤ length start.db.executions + 2)
run_existing_bounded_example =
    run_existing_bounded runner 3 1 10 TriggerType.auto report start refl (omega arith)

redact-IsMasked_example :
    IsMasked masking []
      (redact masking [] (Value.dict (Fields.field "token" (Value.str "secret") Fields.end)))
redact-IsMasked_example =
    redact-IsMasked masking [] (Value.dict (Fields.field "token" (Value.str "secret") Fields.end))

abbrev listened : ExecutionLogStream
listened = (subscribe 7 (new_stream 2 2 2)).1

Reach-IsWellFormed_example : IsWellFormed (publish masking "t" 7 "INFO" "hello" empty_dict listened)
Reach-IsWellFormed_example =
    Reach-IsWellFormed 2 2 2 (publish masking "t" 7 "INFO" "hello" empty_dict listened) (
      Reach.next (Reach.next Reach.here (Step.subscribed 7))
        (Step.published masking "t" 7 "INFO" "hello" empty_dict))

abbrev has_telegram : String → Bool
has_telegram = str_eq "telegram"
