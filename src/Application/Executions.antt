-- ===== src/Application/Executions.antt =====
-- app/application/services/execution.py, with app/application/pagination.py: the history of
-- executions and its endpoints. `cancel` is in Application.Triggers.
pub mod Deletion
pub mod Follow
pub mod Pages
use qiankun.Prelude.{
  ℕ, ◌+◌, ◌-◌, ◌*◌, ◌/◌, String, Bool, true, false, not, ◌&&◌, Option, none, some, List, [], ◌∷◌,
  map, maybe, ◌==◌, if◌then◌else◌,
}
use qiankun.Prelude.Lists.{take, drop, length, keep_if}
use qiankun.Prelude.Exec.{Error, Exec, ok, pure, gets, or_raise, raise_if, transaction, ◌>>=◌, ◌>>◌}
use qiankun.Prelude.Json.{Value}
use qiankun.Runtime.Enums.{ExecutionStatus, TriggerType, is_terminal, status_value}
use qiankun.Runtime.LogStream.{ExecutionLogStream, history, terminal}
use qiankun.Infrastructure.Database.{TaskExecution, Db}
use qiankun.Infrastructure.Repositories.{list_rows}
use qiankun.Infrastructure.Repositories.Executions.{get_execution, delete_execution}

-- `Page`
pub record Page {ℓ} (A : Type ℓ) : Type ℓ where
  pub items : List A
  pub total : ℕ
  pub page : ℕ
  pub page_size : ℕ

-- `Page.total_pages`; a page size of zero does not pass the request's schema.
abbrev pub total_pages {ℓ} : {A : Type ℓ} → Page A → ℕ
total_pages p = if p.total == 0 then 0 else (p.total + p.page_size - 1) / p.page_size

-- `paginate`
abbrev pub paginate {ℓ} : {A : Type ℓ} → List A → ℕ → ℕ → ℕ → Page A
paginate items total page page_size = record {
  items = items;
  total = total;
  page = page;
  page_size = page_size;
}

-- `int(trigger_type)`
abbrev pub trigger_value : TriggerType → ℕ
trigger_value TriggerType.auto = 0
trigger_value TriggerType.manual = 1
trigger_value TriggerType.retry = 2

-- The filters of `list`: a missing one lets every row through.
unfoldable pub is_listed : Option ℕ → Option ExecutionStatus → Option ℕ → TaskExecution → Bool
is_listed task_id status trigger_type x =
    maybe task_id true (λ id. x.task_id == id)
    && maybe status true (λ s. status_value x.status == status_value s)
    && maybe trigger_type true (λ t. trigger_value x.trigger_type == t)

-- `list`; a page below one does not pass the request's schema.
unfoldable pub list_executions :
    ℕ → ℕ → Option ℕ → Option ExecutionStatus → Option ℕ → Exec Db (Page TaskExecution)
unfolding is_listed
list_executions page page_size task_id status trigger_type = do
  found ← gets (λ db.
      list_rows ((page - 1) * page_size) page_size (is_listed task_id status trigger_type)
        db.executions)
  pure (paginate found.0 found.1 page page_size)

-- `get`
unfoldable pub get : ℕ → Exec Db TaskExecution
get execution_id = do found ← get_execution execution_id; or_raise found Error.not_found

-- The second transaction of `delete`.
unfoldable pub delete_row_if : Option TaskExecution → Exec Db Unit
delete_row_if none = pure tt
delete_row_if (some row) = delete_execution row.id

-- `delete`
unfoldable pub delete : ℕ → Exec Db Unit
unfolding get delete_row_if
delete execution_id = do
  execution ← get execution_id
  raise_if (not (is_terminal execution.status)) Error.conflict
  transaction do row ← get_execution execution_id; delete_row_if row

-- `logs`: the lines in memory, and the terminal frame's content.
unfoldable pub logs : ℕ → ExecutionLogStream → (List Value × Option Value) × ExecutionLogStream
unfolding history terminal
logs execution_id s =
    let (entries, s') = history execution_id s in
    let (frame, s'') = terminal execution_id s' in
    ((map (λ e. e.content) entries, maybe frame none (λ f. some f.content)), s'')
