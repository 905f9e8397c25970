-- ===== src/Infrastructure/Repositories.antt =====
-- app/infrastructure/database/repositories: the queries on the three tables. Each is an action on
-- the database; a statement sees what the statements before it have flushed.
pub mod Tasks
pub mod Executions
pub mod Settings
use mathlib.Core.List.{reverse}
use qiankun.Prelude.{ℕ, Bool, List}
use qiankun.Prelude.Lists.{length, take, drop, keep_if}

-- `Repository.list` without `order_by`: newest first, one page of it, and the number of all rows
-- that meet the conditions.
abbrev pub list_rows {ℓ} : {R : Type ℓ} → ℕ → ℕ → (R → Bool) → List R → List R × ℕ
list_rows offset limit condition rows =
    let found = keep_if condition rows in (take limit (drop offset (reverse found)), length found)
