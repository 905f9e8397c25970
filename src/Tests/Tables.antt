-- ===== src/Tests/Tables.antt =====
-- The theorems on the tables, the schedule and the services, at concrete inputs.
use qiankun.Prelude.{ℕ, ◌≡◌, refl, true, false, none, some, List, [], ◌∷◌, ◌++◌, arith}
use qiankun.Prelude.Lists.{length, All}
use qiankun.Prelude.Exec.{ok, Ensures}
use qiankun.Runtime.Enums.{is_terminal}
use qiankun.Infrastructure.Database.{TaskExecution, Db}
use qiankun.Infrastructure.Database.Rows.{find_row}
use qiankun.Infrastructure.Repositories.Tasks.{
  get_due_tasks, claim_due_task, advance_claimed, is_claimable, is_due, sort_by_run, insert_by_run,
  runs_before,
}
use qiankun.Infrastructure.Repositories.Tasks.Claim.{claim_due_task_once}
use qiankun.Infrastructure.Repositories.Executions.{cancel_orphan_running}
use qiankun.Infrastructure.Repositories.Executions.Orphans.{cancel_orphan_running-IsRecovered}
use qiankun.Scheduler.Calculator.{calculate_next_run_time, first_point, skip_points, skip_missed}
use qiankun.Scheduler.Calculator.Firings.{
  IsFirstAfter, calculate_next_run_time-IsFirstAfter, calculate_next_run_time_total,
}
use qiankun.Scheduler.Policy.{ClaimedTask, schedule_due_tasks, claim_all, claim_one, add_claimed}
use qiankun.Scheduler.Policy.Claims.{IsClaimReport, schedule_due_tasks-IsClaimReport}
use qiankun.Application.Tasks.{TaskValues, update, create}
use qiankun.Application.Tasks.Schedule.{
  IsScheduled, AllScheduled, update-AllScheduled, create-AllScheduled,
}
use qiankun.Tests.{machine, every_minute, every_minute-IsAdvancing, report, paused, tables, start}

skips_to_160 : calculate_next_run_time every_minute "* * * * *" 40 (some 130) ≡ ok 160
unfolding calculate_next_run_time first_point skip_points skip_missed
skips_to_160 = refl

calculate_next_run_time-IsFirstAfter_example : IsFirstAfter every_minute "* * * * *" 40 130 160
calculate_next_run_time-IsFirstAfter_example =
    calculate_next_run_time-IsFirstAfter every_minute "* * * * *" 40 130 160 skips_to_160

calculate_next_run_time_total_example :
    (n : ℕ) × (calculate_next_run_time every_minute "* * * * *" 40 (some 130) ≡ ok n)
calculate_next_run_time_total_example =
    calculate_next_run_time_total every_minute "* * * * *" 40 130 every_minute-IsAdvancing refl
      (λ t h. cc)

abbrev claims : List ClaimedTask
claims =
    record { task_id = 1; scheduled_at = 100; task = record report { next_run_time = some 160 } }
    ∷ []

abbrev claimed_tables : Db
claimed_tables = record tables { tasks = record report { next_run_time = some 160 } ∷ paused ∷ [] }

claims_report : schedule_due_tasks every_minute 120 [] 5 tables ≡ (ok claims, claimed_tables)
unfolding schedule_due_tasks claim_all claim_one add_claimed get_due_tasks claim_due_task
    advance_claimed is_claimable is_due sort_by_run insert_by_run runs_before
    calculate_next_run_time first_point skip_points skip_missed
claims_report = refl

schedule_due_tasks-IsClaimReport_example : IsClaimReport 120 5 tables claims claimed_tables
schedule_due_tasks-IsClaimReport_example =
    schedule_due_tasks-IsClaimReport every_minute 120 [] 5 tables claimed_tables claims
      (refl, (refl, tt)) claims_report

claim_due_task_once_example :
    (claim_due_task 1 100 220 (claim_due_task 1 100 160 tables).1).0 ≡ ok false
claim_due_task_once_example = claim_due_task_once 1 100 160 220 tables (λ e. omega arith)

cancel_orphan_running-IsRecovered_example :
    let after = (cancel_orphan_running "restarted" 50 tables).1 in
    All (λ x. is_terminal x.status ≡ true) after.executions
    × ((id : ℕ) (x : TaskExecution)
        → find_row (λ x. x.id) id tables.executions ≡ some x
        → is_terminal x.status ≡ true
        → find_row (λ x. x.id) id after.executions ≡ some x)
    × (length after.executions ≡ length tables.executions)
cancel_orphan_running-IsRecovered_example = cancel_orphan_running-IsRecovered "restarted" 50 tables

abbrev no_values : TaskValues
no_values = record {
  name = none;
  provider = none;
  config = none;
  cron_expression = none;
  enabled = none;
  timeout = none;
  max_retries = none;
  retry_interval_seconds = none;
  notification_config = none;
}

update-AllScheduled_example :
    Ensures
      (λ _ v. AllScheduled v)
      (update machine every_minute (λ _. true) 2 (record no_values { enabled = some true }) start)
update-AllScheduled_example =
    update-AllScheduled machine every_minute (λ _. true) 2
      (record no_values { enabled = some true }) start (refl, (refl, tt)) (refl, (refl, tt))

abbrev new_values : TaskValues
new_values = record no_values {
  name = some "new";
  provider = some "probe";
  cron_expression = some "* * * * *";
}

create-AllScheduled_example :
    Ensures
      (λ t v. IsScheduled t × AllScheduled v × (v.db.tasks ≡ start.db.tasks ++ t ∷ []))
      (create machine every_minute (λ _. true) new_values start)
create-AllScheduled_example =
    create-AllScheduled machine every_minute (λ _. true) new_values start (refl, (refl, tt))
