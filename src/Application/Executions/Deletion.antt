-- ===== src/Application/Executions/Deletion.antt =====
-- `delete` of application/services/execution.py, on every branch.
use qiankun.Prelude.{
  ℕ, ◌≡◌, ◌≢◌, refl, Option, none, some, Option-cases, Bool-cases, inl, inr, if◌then◌else◌,
}
use qiankun.Prelude.Exec.{Error, Result, ok, err}
use qiankun.Runtime.Enums.{is_terminal}
use qiankun.Infrastructure.Database.{TaskExecution, Db}
use qiankun.Infrastructure.Database.Rows.{
  find_row, find_row-key, find_row-delete_row_self, find_row-delete_row_ne,
}
use qiankun.Infrastructure.Repositories.Executions.{get_execution, delete_execution}
use qiankun.Application.Executions.{get, delete, delete_row_if}

-- What `delete` has to answer.
abbrev pub delete_answer : Option TaskExecution → Result (Unit {0})
delete_answer none = err Error.not_found
delete_answer (some x) = if is_terminal x.status then ok tt else err Error.conflict

-- Deleting an execution is refused as missing without the row, and as a conflict while the row is
-- not terminal; then the tables stay. Otherwise the row is gone and every other one stays.
pub delete-Answers :
    (id : ℕ) (db : Db)
    → let found = find_row (λ x. x.id) id db.executions in
      let (result, after) = delete id db in
      (result ≡ delete_answer found)
      × (result ≢ ok tt → after ≡ db)
      × (result ≡ ok tt → find_row (λ x. x.id) id after.executions ≡ none)
      × ((j : ℕ)
          → j ≢ id
          → find_row (λ x. x.id) j after.executions ≡ find_row (λ x. x.id) j db.executions)
unfolding delete get get_execution delete_execution delete_row_if
delete-Answers id db = elim (Option-cases (find_row (λ x. x.id) id db.executions)) [
  | inl e ↦ rw e (refl, λ no. refl, λ h. cc, λ j ne. refl)
  | inr (x, e) ↦ elim (Bool-cases (is_terminal x.status)) [
    | inr busy ↦ rw (e, busy) (refl, λ no. refl, λ h. cc, λ j ne. refl)
    | inl done ↦
        rw (e, done, e, find_row-key (λ x. x.id) id x db.executions e)
          (
            refl,
            λ no. absurd (no refl),
            λ h. find_row-delete_row_self (λ x. x.id) id db.executions,
            λ j ne. find_row-delete_row_ne (λ x. x.id) j id db.executions ne,
          )
  ]
]
