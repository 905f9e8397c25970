-- ===== src/Tests/Services.antt =====
-- The theorems on the services around the scheduling engine, at concrete inputs.
use qiankun.Prelude.{ℕ, ◌≡◌, ◌≢◌, refl, true, none, some, List, [], ◌∷◌, str_eq}
use qiankun.Prelude.Exec.{ok}
use qiankun.Prelude.Json.{Value, Fields}
use qiankun.Infrastructure.Database.{SystemSetting}
use qiankun.Infrastructure.Database.Rows.{find_row}
use qiankun.Application.Executions.{delete}
use qiankun.Application.Executions.Deletion.{delete_answer, delete-Answers}
use qiankun.Application.Settings.{Hashing, merge_secrets, redact_secrets}
use qiankun.Application.Settings.Echo.{merge_secrets-redact_secrets}
use qiankun.Prelude.Lists.{length}
use qiankun.Runtime.Registry.{DiscoveredProvider}
use qiankun.Prelude.{arith}
use qiankun.Scheduler.Registration.{
  TaskScheduler, new_scheduler, begin_poll, end_poll, set_ready, execute_task_now, register,
}
use qiankun.Scheduler.Registration.Bound.{IsBounded, Step, Reach, Reach-IsBounded}
use qiankun.Tests.{tables}

delete-Answers_example :
    let found = find_row (λ x. x.id) 11 tables.executions in
    let (result, after) = delete 11 tables in
    (result ≡ delete_answer found)
    × (result ≢ ok tt → after ≡ tables)
    × (result ≡ ok tt → find_row (λ x. x.id) 11 after.executions ≡ none)
    × ((j : ℕ)
        → j ≢ 11
        → find_row (λ x. x.id) j after.executions ≡ find_row (λ x. x.id) j tables.executions)
delete-Answers_example = delete-Answers 11 tables

abbrev pub hashing : Hashing
hashing = record { is_hash = str_eq "$argon2id$x"; hash = λ p. "$argon2id$y"; show = λ v. "value" }

abbrev credentials : Fields
credentials = Fields.field "username" (Value.str "admin") (
    Fields.field "password" (Value.str "$argon2id$x")
      (Fields.field "token" (Value.str "") Fields.end))

abbrev admin : SystemSetting
admin = record {
  scope = "auth";
  key = "admin";
  type = "object";
  value = Value.dict credentials;
  enabled = true;
  description = "";
}

merge_secrets-redact_secrets_example :
    merge_secrets hashing (some admin) (redact_secrets credentials) ≡ ok credentials
merge_secrets-redact_secrets_example =
    merge_secrets-redact_secrets hashing admin credentials refl
      (refl, λ h. cc, (refl, λ h. ("$argon2id$x", refl, refl), (refl, λ h. cc, tt)))

abbrev discoveries : List DiscoveredProvider
discoveries =
    record { directory = "broken"; provider_type = none; issues = "no class" ∷ [] }
    ∷ record { directory = "probe"; provider_type = some "probe"; issues = [] }
    ∷ record { directory = "probe_copy"; provider_type = some "probe"; issues = [] }
    ∷ []

abbrev polled_once : TaskScheduler
polled_once = end_poll (1 ∷ []) (new_scheduler 2)

empty_poll : begin_poll (new_scheduler 2) ≡ some ([], 2)
unfolding begin_poll
empty_poll = refl

Reach-IsBounded_example : IsBounded (set_ready 1 10 polled_once)
Reach-IsBounded_example = Reach-IsBounded 2 (set_ready 1 10 polled_once) (
    Reach.next (Reach.next Reach.here (Step.polled [] (1 ∷ []) 2 empty_poll (omega arith)))
      (Step.created 1 10))

-- A trigger between the two halves of a poll: two tasks run where one may.
interleaved_poll :
    (begin_poll (new_scheduler 1) ≡ some ([], 1))
    × ((t : TaskScheduler) × (execute_task_now 7 (new_scheduler 1) ≡ ok t)
        × (length (end_poll (1 ∷ []) t).running_tasks ≡ 2))
unfolding begin_poll execute_task_now end_poll register
interleaved_poll = (refl, (_, refl, refl))
