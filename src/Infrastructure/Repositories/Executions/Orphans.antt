-- ===== src/Infrastructure/Repositories/Executions/Orphans.antt =====
-- What `cancel_orphan_running` of repositories/task_execution.py leaves behind.
use qiankun.Prelude.{
  ℕ, ◌≡◌, refl, sym, ◌∙◌, arith, String, Bool, true, false, not, ◌||◌, some, List, [], ◌∷◌, map,
  ◌==◌, Bool-cases, inl, inr,
}
use qiankun.Prelude.Lists.{length, All}
use qiankun.Runtime.Enums.{ExecutionStatus, is_terminal, status_value}
use qiankun.Infrastructure.Database.{TaskExecution, Db}
use qiankun.Infrastructure.Database.Rows.{find_row}
use qiankun.Infrastructure.Repositories.Executions.{is_orphan, cancel_orphan, cancel_orphan_running}

is_orphan-is_terminal : (x : TaskExecution) → is_orphan x ≡ not (is_terminal x.status)
is_orphan-is_terminal x = go x.status
  where
    go :
        (s : ExecutionStatus)
        → ((status_value s == 0) || (status_value s == 1)) ≡ not (is_terminal s)
    go ExecutionStatus.pending = refl
    go ExecutionStatus.running = refl
    go ExecutionStatus.completed = refl
    go ExecutionStatus.failed = refl
    go ExecutionStatus.cancelled = refl
    go ExecutionStatus.timeout = refl

cancel_orphan-is_terminal :
    (message : String) (now : ℕ) (x : TaskExecution)
    → is_terminal (cancel_orphan message now x).status ≡ true
unfolding cancel_orphan
cancel_orphan-is_terminal message now x = elim (Bool-cases (is_orphan x)) [
  | inl e ↦ rw e refl
  | inr e ↦ rw e (not_false (is_terminal x.status) (sym (is_orphan-is_terminal x) ∙ e))
]
  where
    not_false : (b : Bool) → not b ≡ false → b ≡ true
    not_false true e = refl
    not_false false e = cc

All-terminal :
    (message : String) (now : ℕ) (xs : List TaskExecution)
    → All (λ x. is_terminal x.status ≡ true) (map (cancel_orphan message now) xs)
All-terminal message now [] = tt
All-terminal message now (x ∷ xs) =
    (cancel_orphan-is_terminal message now x, All-terminal message now xs)

cancel_orphan-id :
    (message : String) (now : ℕ) (x : TaskExecution) → (cancel_orphan message now x).id ≡ x.id
unfolding cancel_orphan
cancel_orphan-id message now x = elim (Bool-cases (is_orphan x)) [
  | inl e ↦ rw e refl
  | inr e ↦ rw e refl
]

cancel_orphan_terminal :
    (message : String) (now : ℕ) (x : TaskExecution)
    → is_terminal x.status ≡ true
    → cancel_orphan message now x ≡ x
unfolding cancel_orphan
cancel_orphan_terminal message now x e = rw is_orphan-is_terminal (rw e refl)

find-cancel_orphan :
    (message : String) (now id : ℕ) (x : TaskExecution) (xs : List TaskExecution)
    → find_row (λ x. x.id) id xs ≡ some x
    → is_terminal x.status ≡ true
    → find_row (λ x. x.id) id (map (cancel_orphan message now) xs) ≡ some x
find-cancel_orphan message now id x [] found e = cc
find-cancel_orphan message now id x (y ∷ xs) found e = ground (
  arith,
  cancel_orphan-id message now y,
  cancel_orphan_terminal message now y,
  find-cancel_orphan message now id x xs,
)

-- Recovery at the start leaves no PENDING or RUNNING row: every row is terminal afterwards, a row
-- that was terminal stays exactly as it was, and no row is added or dropped.
pub cancel_orphan_running-IsRecovered :
    (message : String) (now : ℕ) (db : Db)
    → let after = (cancel_orphan_running message now db).1 in
      All (λ x. is_terminal x.status ≡ true) after.executions
      × ((id : ℕ) (x : TaskExecution)
          → find_row (λ x. x.id) id db.executions ≡ some x
          → is_terminal x.status ≡ true
          → find_row (λ x. x.id) id after.executions ≡ some x)
      × (length after.executions ≡ length db.executions)
unfolding cancel_orphan_running
cancel_orphan_running-IsRecovered message now db = (
  All-terminal message now db.executions,
  λ id x found e. find-cancel_orphan message now id x db.executions found e,
  length-map db.executions,
)
  where
    length-map : (xs : List TaskExecution) → length (map (cancel_orphan message now) xs) ≡ length xs
    length-map [] = refl
    length-map (x ∷ xs) = omega (arith, length-map xs)
