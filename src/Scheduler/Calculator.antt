-- ===== src/Scheduler/Calculator.antt =====
-- app/application/services/scheduler/calculator.py: the next run of a cron expression.
pub mod Firings
use qiankun.Prelude.{
  ℕ, zero, suc, ◌<◌, ◌≡◌, String, Bool, true, false, Option, none, some, leb, maybe, if◌then◌else◌,
}
use qiankun.Prelude.Exec.{Error, Result, ok, err}

-- The package `croniter`. `parses` says whether `croniter(expression)` is accepted, and
-- `get_next e t` is the first time after `t` that `e` fires; `none` when it raises because it
-- finds no such date. A call of `get_next` moves the iterator to the time that it returns.
pub record Cron : Type 0 where
  pub parses : String → Bool
  pub get_next : String → ℕ → Option ℕ

-- What croniter documents: the next time is later than the one it starts from.
pub record IsAdvancing (cron : Cron) : Type 0 where
  pub advances : (e : String) (t n : ℕ) → cron.get_next e t ≡ some n → t < n

-- `validate_cron`
unfoldable pub validate_cron : Cron → String → Result (Unit {0})
validate_cron cron expression = if cron.parses expression then ok tt else err Error.validation

-- `while next_run_time <= minimum_time: next_run_time = cron.get_next(datetime)`
unfoldable pub skip_missed : Cron → String → ℕ → ℕ → ℕ → Result ℕ
skip_missed cron expression zero minimum_time next = err Error.out_of_fuel
skip_missed cron expression (suc fuel) minimum_time next =
    let rest =
      maybe (cron.get_next expression next) (err Error.unexpected)
        (skip_missed cron expression fuel minimum_time) in
    if leb next minimum_time then rest else ok next

-- The fuel counts the rounds: each moves `next` up by one at least, and it starts above zero.
unfoldable pub skip_points : Cron → String → Option ℕ → ℕ → Result ℕ
unfolding skip_missed
skip_points cron expression none next = ok next
skip_points cron expression (some minimum_time) next =
    skip_missed cron expression (suc (suc minimum_time)) minimum_time next

unfoldable pub first_point : Cron → String → Option ℕ → Option ℕ → Result ℕ
unfolding skip_points
first_point cron expression minimum_time none = err Error.unexpected
first_point cron expression minimum_time (some next) = skip_points cron expression minimum_time next

-- `calculate_next_run_time`; croniter's own exceptions are no `AppException`.
unfoldable pub calculate_next_run_time : Cron → String → ℕ → Option ℕ → Result ℕ
unfolding first_point
calculate_next_run_time cron expression base_time minimum_time =
    if cron.parses expression
    then first_point cron expression minimum_time (cron.get_next expression base_time)
    else err Error.unexpected
