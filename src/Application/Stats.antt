-- ===== src/Application/Stats.antt =====
-- app/application/services/stats.py: the counters of the overview.
use qiankun.Prelude.{ℕ, ◌+◌, ◌≡◌, refl, arith, List, [], ◌∷◌, ◌==◌}
use qiankun.Prelude.Lists.{length, keep_if}
use qiankun.Runtime.Enums.{ExecutionStatus, status_value}
use qiankun.Infrastructure.Database.{TaskExecution, Db}

pub record Overview : Type 0 where
  pub tasks_total : ℕ
  pub tasks_enabled : ℕ
  pub executions_total : ℕ
  pub pending : ℕ
  pub running : ℕ
  pub completed : ℕ
  pub failed : ℕ
  pub cancelled : ℕ
  pub timeout : ℕ

-- `by_status.get(value, 0)`: a group is the rows with its status, and an empty group is missing.
abbrev pub count_status : ℕ → List TaskExecution → ℕ
count_status value xs = length (keep_if (λ x. status_value x.status == value) xs)

-- `overview`; the groups are those of the statuses that there are, so the sum of the groups is
-- that of the six counters.
unfoldable pub overview : Db → Overview
overview db = record {
  tasks_total = length db.tasks;
  tasks_enabled = length (keep_if (λ t. t.enabled) db.tasks);
  executions_total =
      count_status 0 db.executions
      + count_status 1 db.executions
      + count_status 2 db.executions
      + count_status 3 db.executions
      + count_status 4 db.executions
      + count_status 5 db.executions;
  pending = count_status 0 db.executions;
  running = count_status 1 db.executions;
  completed = count_status 2 db.executions;
  failed = count_status 3 db.executions;
  cancelled = count_status 4 db.executions;
  timeout = count_status 5 db.executions;
}

counted :
    (s : ExecutionStatus) (x : TaskExecution) (xs : List TaskExecution)
    → x.status ≡ s
    → count_status 0 (x ∷ xs)
        + count_status 1 (x ∷ xs)
        + count_status 2 (x ∷ xs)
        + count_status 3 (x ∷ xs)
        + count_status 4 (x ∷ xs)
        + count_status 5 (x ∷ xs)
      ≡ count_status 0 xs
        + count_status 1 xs
        + count_status 2 xs
        + count_status 3 xs
        + count_status 4 xs
        + count_status 5 xs
        + 1
counted ExecutionStatus.pending x xs e = simp e (omega arith)
counted ExecutionStatus.running x xs e = simp e (omega arith)
counted ExecutionStatus.completed x xs e = simp e (omega arith)
counted ExecutionStatus.failed x xs e = simp e (omega arith)
counted ExecutionStatus.cancelled x xs e = simp e (omega arith)
counted ExecutionStatus.timeout x xs e = simp e (omega arith)

all_counted :
    (xs : List TaskExecution)
    → count_status 0 xs
        + count_status 1 xs
        + count_status 2 xs
        + count_status 3 xs
        + count_status 4 xs
        + count_status 5 xs
      ≡ length xs
all_counted [] = omega arith
all_counted (x ∷ xs) = omega (arith, counted x.status x xs refl, all_counted xs)

-- The groups of the overview leave out no execution: their sum is the number of rows.
overview-length : (db : Db) → (overview db).executions_total ≡ length db.executions
unfolding overview
overview-length db = all_counted db.executions
