-- ===== src/Engine/Finalizer.antt =====
-- app/application/services/scheduler/finalizer.py: last_run_time and notifications after terminal
-- events; with `NotificationRuntime.send` of app/runtime/notification/base.py.
pub mod Channels
use qiankun.Prelude.{
  ℕ, ◌+◌, String, Bool, true, false, not, ◌&&◌, ◌||◌, Option, none, some, List, [], ◌∷◌, ◌++◌, map,
  str_eq, maybe, is_some, if◌then◌else◌,
}
use qiankun.Prelude.Lists.{any_of}
use qiankun.Prelude.Exec.{Exec, pure, modify, ◌>>=◌, ◌>>◌}
use qiankun.Prelude.Json.{Value, Values, Fields, JsonInt, get_field, to_list, empty_dict}
use qiankun.Prelude.Text.{fstring, join}
use qiankun.Runtime.Enums.{
  ExecutionStatus, is_terminal, NotifyStrategy, strategy_of_value, status_name,
}
use qiankun.Infrastructure.Database.{Task, TaskExecution, SystemSetting, Db}
use qiankun.Infrastructure.Repositories.Tasks.{get_task, update_task}
use qiankun.Infrastructure.Repositories.Executions.{get_execution}
use qiankun.Infrastructure.Repositories.Settings.{by_key}
use qiankun.Engine.World.{Event, EventType, Delivery, World, Host, utc_now, on_db, in_transaction}

-- `policy.get(key)`, on `dict(task.notification_config or {})`; a missing key and a null both
-- give `None`.
abbrev pub policy_get : String → Value → Option Value
policy_get key (Value.dict fields) =
    maybe (get_field key fields) none (λ v. elim v [ Value.null ↦ none | other ↦ some other ])
policy_get key _ = none

-- `int(raw)`; `none` is a `TypeError` or a `ValueError`.
abbrev pub to_int : Host → Value → Option JsonInt
to_int h (Value.int n) = some n
to_int h (Value.bool true) = some (JsonInt.nonnegative 1)
to_int h (Value.bool false) = some (JsonInt.nonnegative 0)
to_int h (Value.str text) = h.parse_int text
to_int h _ = none

-- `NotifyStrategy(int(raw))`
abbrev pub strategy_of : Host → Value → Option NotifyStrategy
strategy_of h raw =
    maybe (to_int h raw) none
      (λ n. elim n [ JsonInt.nonnegative k ↦ strategy_of_value k | JsonInt.negative k ↦ none ])

abbrev pub is_text : String → Value → Bool
is_text text (Value.str s) = str_eq s text
is_text text _ = false

-- `status if condition else None`, as the condition
unfoldable pub strategy_notifies : NotifyStrategy → ExecutionStatus → Bool
strategy_notifies NotifyStrategy.never status = false
strategy_notifies NotifyStrategy.always status = true
strategy_notifies NotifyStrategy.on_success ExecutionStatus.completed = true
strategy_notifies NotifyStrategy.on_success _ = false
strategy_notifies NotifyStrategy.on_failure ExecutionStatus.failed = true
strategy_notifies NotifyStrategy.on_failure ExecutionStatus.timeout = true
strategy_notifies NotifyStrategy.on_failure ExecutionStatus.cancelled = true
strategy_notifies NotifyStrategy.on_failure _ = false

-- `status in {"failed", "timeout"}`
abbrev pub is_failure : ExecutionStatus → Bool
is_failure ExecutionStatus.failed = true
is_failure ExecutionStatus.timeout = true
is_failure _ = false

-- The policy without a strategy: the statuses listed under "on", or failures.
unfoldable pub listed_notifies : Option Value → ExecutionStatus → Bool
listed_notifies (some (Value.list items)) status =
    any_of (is_text (status_name status)) (to_list items)
listed_notifies _ status = is_failure status

-- `_strategy`: whether this status notifies.
unfoldable pub notifies : Host → Value → ExecutionStatus → Bool
unfolding strategy_notifies listed_notifies
notifies h policy status =
    maybe (policy_get "strategy" policy) (listed_notifies (policy_get "on" policy) status)
      (λ raw. maybe (strategy_of h raw) false (λ strategy. strategy_notifies strategy status))

-- `list(policy.get("channels") or [])`; the service lets only texts in.
abbrev pub texts_of : List Value → List String
texts_of [] = []
texts_of (Value.str s ∷ vs) = s ∷ texts_of vs
texts_of (_ ∷ vs) = texts_of vs

abbrev pub channels_of : Value → List String
channels_of policy =
    maybe (policy_get "channels" policy) []
      (λ v. elim v [ Value.list items ↦ texts_of (to_list items) | _ ↦ [] ])

-- `if execution.result_message:`
abbrev pub line_if : String → Option String → List String
line_if label none = []
line_if label (some text) = if str_eq text "" then [] else fstring (label ∷ text ∷ []) ∷ []

-- `_content`
unfoldable pub content_of : Host → TaskExecution → ExecutionStatus → String
content_of h x status = join "\n" (
    fstring ("状态: " ∷ status_name status ∷ [])
      ∷ fstring ("执行ID: " ∷ h.show_uuid x.id ∷ [])
      ∷ line_if "结果: " x.result_message
    ++ line_if "错误: " x.error_message)

-- `dict(setting.value or {})`
abbrev pub dict_or_empty : Value → Value
dict_or_empty (Value.dict fields) = Value.dict fields
dict_or_empty _ = empty_dict

abbrev pub usable_config : Option SystemSetting → Option Value
usable_config none = none
usable_config (some setting) = if setting.enabled then some (dict_or_empty setting.value) else none

-- `for channel in channels`: the channels with an enabled setting, with their configurations.
unfoldable pub usable_channels : List String → Exec Db (List (String × Value))
usable_channels [] = pure []
usable_channels (channel ∷ channels) = do
  setting ← by_key "notification" channel
  others ← usable_channels channels
  pure (maybe (usable_config setting) others (λ config. (channel, config) ∷ others))

-- `zip(channels, results)`: the channels that the log names as failed. A delivery raises exactly
-- when its channel has no driver (`NotificationRuntime.send`); other errors are results.
unfoldable pub warned : (String → Bool) → List String → List (String × Value) → List String
warned has_driver [] configs = []
warned has_driver (channel ∷ channels) [] = []
warned has_driver (channel ∷ channels) ((sent_to, _) ∷ configs) =
    let rest = warned has_driver channels configs in
    if has_driver sent_to then rest else channel ∷ rest

-- The deliveries that reach a driver.
unfoldable pub deliveries_of :
    (String → Bool) → String → String → List (String × Value) → List Delivery
deliveries_of has_driver title content [] = []
deliveries_of has_driver title content ((channel, config) ∷ configs) =
    let rest = deliveries_of has_driver title content configs in
    if has_driver channel
    then record { channel = channel; config = config; title = title; content = content } ∷ rest
    else rest

-- The rest of `_dispatch` with both rows at hand.
unfoldable pub deliver_all :
    Host → (String → Bool) → Task → TaskExecution → ExecutionStatus → Exec World (List String)
unfolding usable_channels warned deliveries_of content_of
deliver_all h has_driver task x status = do
  let channels = channels_of task.notification_config
  configs ← on_db (usable_channels channels)
  let title = fstring ("任务 " ∷ task.name ∷ " " ∷ status_name status ∷ [])
  modify (λ w. record w {
    deliveries = w.deliveries ++ deliveries_of has_driver title (content_of h x status) configs;
  })
  pure (warned has_driver channels configs)

-- `_dispatch` after its two reads.
unfoldable pub deliver_if :
    Host
    → (String → Bool)
    → ExecutionStatus
    → Option Task
    → Option TaskExecution
    → Exec World (List String)
unfolding deliver_all notifies
deliver_if h has_driver status (some task) (some x) =
    if notifies h task.notification_config status
    then deliver_all h has_driver task x status
    else pure []
deliver_if h has_driver status _ _ = pure []

-- `_dispatch`; the result is the channels that a warning names.
unfoldable pub dispatch :
    Host → (String → Bool) → ℕ → ℕ → ExecutionStatus → Exec World (List String)
unfolding deliver_if
dispatch h has_driver task_id execution_id status = in_transaction do
  found_task ← on_db (get_task task_id)
  found ← on_db (get_execution execution_id)
  deliver_if h has_driver status found_task found

-- `_touch_last_run`
unfoldable pub touch_last_run : Host → ℕ → Exec World Unit
touch_last_run h task_id = in_transaction do
  found ← on_db (get_task task_id)
  maybe found (pure tt) λ task. do
    now ← utc_now h
    on_db (update_task task.id (λ t. record t { last_run_time = some now }))

-- The rest of `handle_event` after its two guards.
unfoldable pub finish_run :
    Host → (String → Bool) → ℕ → ℕ → ExecutionStatus → Exec World (List String)
unfolding touch_last_run dispatch
finish_run h has_driver task_id execution_id status = do
  touch_last_run h task_id
  dispatch h has_driver task_id execution_id status

unfoldable pub handle_finished :
    Host → (String → Bool) → ExecutionStatus → Option ℕ → Option ℕ → Exec World (List String)
unfolding finish_run
handle_finished h has_driver status (some execution_id) (some task_id) =
    if is_terminal status then finish_run h has_driver task_id execution_id status else pure []
handle_finished h has_driver status _ _ = pure []

-- `handle_event`: only terminal events, with both identifiers, are processed.
unfoldable pub handle_event : Host → (String → Bool) → Event → Exec World (List String)
unfolding handle_finished
handle_event h has_driver event = elim event.type [
  | EventType.started ↦ pure []
  | EventType.finished status ↦ handle_finished h has_driver status event.execution_id event.task_id
]
