-- ===== src/Application/Tasks.antt =====
-- app/application/services/task.py: the task service. `has_provider` is `name in self.registry`.
-- `list`, `run` and `cancel` are in Application.Triggers.
pub mod Schedule
use qiankun.Prelude.{
  ℕ, zero, suc, ◌+◌, String, Bool, true, false, not, ◌&&◌, ◌||◌, Option, none, some, List, [], ◌∷◌,
  str_eq, maybe, is_some, if◌then◌else◌,
}
use qiankun.Prelude.Lists.{any_of, all_of}
use qiankun.Prelude.Exec.{
  Error, Result, ok, err, and_then, Exec, pure, raise, lift, or_raise, raise_if, ◌>>=◌, ◌>>◌,
}
use qiankun.Prelude.Json.{JsonInt, Value, Fields, get_field, to_list, empty_dict}
use qiankun.Infrastructure.Database.{Task, Db}
use qiankun.Infrastructure.Repositories.{list_rows}
use qiankun.Infrastructure.Repositories.Tasks.{get_task, add_task, update_task, delete_task}
use qiankun.Engine.World.{World, Host, utc_now, on_db, in_transaction}
use qiankun.Engine.Finalizer.{strategy_of}
use qiankun.Scheduler.Calculator.{Cron, validate_cron, calculate_next_run_time}

-- The payload after the null entries have been dropped: `none` is a missing key. A null `timeout`
-- is kept, and is `some none`.
pub record TaskValues : Type 0 where
  pub name : Option String
  pub provider : Option String
  pub config : Option Value
  pub cron_expression : Option String
  pub enabled : Option Bool
  pub timeout : Option (Option JsonInt)
  pub max_retries : Option JsonInt
  pub retry_interval_seconds : Option JsonInt
  pub notification_config : Option Value

-- `raise ValidationError` unless the condition holds
abbrev pub require : Bool → Result (Unit {0})
require true = ok tt
require false = err Error.validation

-- `if not values.get(field_name)`
abbrev pub is_given : Option String → Bool
is_given none = false
is_given (some text) = not (str_eq text "")

abbrev pub is_negative : JsonInt → Bool
is_negative (JsonInt.nonnegative _) = false
is_negative (JsonInt.negative _) = true

abbrev pub is_positive : JsonInt → Bool
is_positive (JsonInt.nonnegative zero) = false
is_positive (JsonInt.nonnegative (suc _)) = true
is_positive (JsonInt.negative _) = false

abbrev pub is_dict : Value → Bool
is_dict (Value.dict _) = true
is_dict _ = false

abbrev pub is_str : Value → Bool
is_str (Value.str _) = true
is_str _ = false

-- `isinstance(channels, list)` and every entry a string
abbrev pub is_text_list : Value → Bool
is_text_list (Value.list items) = all_of is_str (to_list items)
is_text_list _ = false

-- `strategy is None` or `NotifyStrategy(int(strategy))` does not raise
abbrev pub is_strategy : Host → Value → Bool
is_strategy h Value.null = true
is_strategy h raw = is_some (strategy_of h raw)

-- `_validate_notification_config`
unfoldable pub validate_notification_config : Host → Value → Result (Unit {0})
validate_notification_config h (Value.dict fields) =
    and_then (require (maybe (get_field "channels" fields) true is_text_list))
      λ _. require (maybe (get_field "strategy" fields) true (is_strategy h))
validate_notification_config h _ = err Error.validation

-- `_validate_payload`
unfoldable pub validate_payload :
    Host → Cron → (String → Bool) → Bool → TaskValues → Result (Unit {0})
unfolding validate_notification_config validate_cron
validate_payload h cron has_provider creating values =
    and_then
      (require (
        not creating
        || (is_given values.name && is_given values.provider && is_given values.cron_expression)))
      λ _. and_then (require (maybe values.provider true has_provider)) λ _.
        and_then (maybe values.cron_expression (ok tt) (validate_cron cron)) λ _.
          and_then (require (maybe values.config true is_dict)) λ _.
            and_then (maybe values.notification_config (ok tt) (validate_notification_config h))
              λ _.
                and_then
                  (require (maybe values.timeout true (λ given. maybe given true is_positive)))
                  λ _.
                    and_then (require (maybe values.max_retries true (λ n. not (is_negative n))))
                      λ _. require (maybe values.retry_interval_seconds true is_positive)

-- `uow.tasks.list(0, 1, Task.name == name)`, as whether it finds a row
unfoldable pub name_taken : String → Exec Db Bool
name_taken name db = (ok (any_of (λ t. str_eq t.name name) db.tasks), db)

-- A number that has passed its check.
abbrev pub to_natural : JsonInt → ℕ
to_natural (JsonInt.nonnegative n) = n
to_natural (JsonInt.negative _) = 0

abbrev pub or_else {ℓ} : {A : Type ℓ} → Option A → A → A
or_else none old = old
or_else (some new) old = new

-- `calculate_next_run_time(cron, utc_now())`
unfoldable pub next_from_now : Host → Cron → String → Exec World ℕ
unfolding calculate_next_run_time
next_from_now h cron expression = do
  now ← utc_now h
  lift (calculate_next_run_time cron expression now none)

-- The columns that the payload sets, over those of `t`; `next` is the new `next_run_time`, if it
-- is among them.
unfoldable pub apply_values : TaskValues → Option (Option ℕ) → Task → Task
apply_values v next t = record t {
  name = or_else v.name t.name;
  provider = or_else v.provider t.provider;
  config = or_else v.config t.config;
  cron_expression = or_else v.cron_expression t.cron_expression;
  enabled = or_else v.enabled t.enabled;
  timeout = maybe v.timeout t.timeout (λ given. maybe given none (λ n. some (to_natural n)));
  max_retries = maybe v.max_retries t.max_retries to_natural;
  retry_interval_seconds = maybe v.retry_interval_seconds t.retry_interval_seconds to_natural;
  notification_config = or_else v.notification_config t.notification_config;
  next_run_time = or_else next t.next_run_time;
}

-- The server's defaults of the columns.
abbrev pub default_task : Task
default_task = record {
  id = 0;
  name = "";
  provider = "";
  config = empty_dict;
  cron_expression = "";
  enabled = true;
  timeout = none;
  max_retries = 0;
  retry_interval_seconds = 60;
  notification_config = empty_dict;
  next_run_time = none;
  last_run_time = none;
}

-- `values["next_run_time"] = calculate_next_run_time(cron, utc_now())`
unfoldable pub set_next : Host → Cron → String → Exec World (Option (Option ℕ))
unfolding next_from_now
set_next h cron expression = do next ← next_from_now h cron expression; pure (some (some next))

-- The new `next_run_time` of `create`.
unfoldable pub first_run : Host → Cron → Bool → String → Exec World (Option (Option ℕ))
unfolding set_next
first_run h cron enabled expression = if enabled then set_next h cron expression else pure none

-- `create`
unfoldable pub create : Host → Cron → (String → Bool) → TaskValues → Exec World Task
unfolding validate_payload name_taken apply_values first_run
create h cron has_provider values = do
  lift (validate_payload h cron has_provider true values)
  in_transaction do
    taken ← on_db (name_taken (or_else values.name ""))
    raise_if taken Error.conflict
    next ← first_run h cron (or_else values.enabled true) (or_else values.cron_expression "")
    on_db (add_task (apply_values values next default_task))

-- The new `next_run_time` of `update`, if it is set.
unfoldable pub recompute :
    Host → Cron → Task → Option Bool → Option String → Exec World (Option (Option ℕ))
unfolding set_next
recompute h cron task (some false) expression = pure (some none)
recompute h cron task (some true) expression =
    set_next h cron (or_else expression task.cron_expression)
recompute h cron task none none = pure none
recompute h cron task none (some expression) =
    if task.enabled then set_next h cron expression else pure none

-- `if "name" in values and values["name"] != task.name`
unfoldable pub refuse_taken : Task → Option String → Exec World Unit
unfolding name_taken
refuse_taken task none = pure tt
refuse_taken task (some name) =
    if str_eq name task.name
    then pure tt
    else do taken ← on_db (name_taken name); raise_if taken Error.conflict

-- `update` after `uow.tasks.get`
unfoldable pub update_found : Host → Cron → TaskValues → Option Task → Exec World Unit
unfolding apply_values recompute refuse_taken
update_found h cron values none = raise Error.not_found
update_found h cron values (some task) = do
  refuse_taken task values.name
  next ← recompute h cron task values.enabled values.cron_expression
  on_db (update_task task.id (apply_values values next))

-- `update`
unfoldable pub update : Host → Cron → (String → Bool) → ℕ → TaskValues → Exec World Unit
unfolding validate_payload update_found
update h cron has_provider task_id values = do
  lift (validate_payload h cron has_provider false values)
  in_transaction do found ← on_db (get_task task_id); update_found h cron values found

-- `set_enabled` after `uow.tasks.get`
unfoldable pub set_enabled_found : Host → Cron → Bool → Option Task → Exec World Unit
unfolding recompute
set_enabled_found h cron enabled none = raise Error.not_found
set_enabled_found h cron enabled (some task) = do
  next ← recompute h cron task (some enabled) none
  on_db (
      update_task task.id
        (λ t. record t { enabled = enabled; next_run_time = or_else next t.next_run_time }))

-- `set_enabled`
unfoldable pub set_enabled : Host → Cron → ℕ → Bool → Exec World Unit
unfolding set_enabled_found
set_enabled h cron task_id enabled =
    in_transaction do found ← on_db (get_task task_id); set_enabled_found h cron enabled found

-- `delete`, after `scheduler.cancel_task`
unfoldable pub delete : ℕ → Exec World Unit
delete task_id = in_transaction do
  found ← on_db (get_task task_id)
  task ← or_raise found Error.not_found
  on_db (delete_task task.id)
