-- ===== src/Runtime/LogStream.antt =====
-- app/runtime/execution/log_stream.py: bounded log history and SSE subscriptions per execution.
-- The `OrderedDict` is its items, the key moved last standing last. Queue objects are shared by
-- the stream and its readers, so they live in a store of their own (`queues`), and a set of
-- subscribers holds their numbers. `handle_terminal` and `publish` run inside one event loop and
-- never wait, so each is one step.
pub mod Trim
pub mod Invariant
pub mod Delivery
pub mod Terminals
pub mod Runs
use qiankun.Prelude.{
  ℕ, zero, suc, ◌+◌, ◌-◌, String, Bool, true, false, not, ◌&&◌, ◌||◌, Option, none, some, List, [],
  ◌∷◌, ◌++◌, map, ltb, leb, ◌==◌, str_eq, maybe, is_some, if◌then◌else◌,
}
use qiankun.Prelude.Lists.{length, drop, contains}
use qiankun.Prelude.Json.{Value, Values, Fields, empty_dict}
use qiankun.Runtime.Logger.{Patterns, redact}

-- The `event` field of a frame: "log", "completed" or "failed".
pub data EventName : Type 0 where
  log completed failed : EventName

pub record LogStreamEvent : Type 0 where
  pub id : ℕ
  pub event : EventName
  pub content : Value

pub record ExecutionLogs : Type 0 where
  pub entries : List LogStreamEvent
  pub terminal : Option LogStreamEvent
  pub subscribers : List ℕ

pub record ExecutionLogStream : Type 0 where
  pub history_size : ℕ
  pub max_executions : ℕ
  pub queue_size : ℕ
  pub logs : List (ℕ × ExecutionLogs)
  pub sequence : ℕ
  pub queues : ℕ → List LogStreamEvent
  pub next_queue : ℕ

abbrev pub no_logs : ExecutionLogs
no_logs = record { entries = []; terminal = none; subscribers = [] }

-- `ExecutionLogStream(history_size, max_executions, queue_size)`
abbrev pub new_stream : ℕ → ℕ → ℕ → ExecutionLogStream
new_stream history_size max_executions queue_size = record {
  history_size = history_size;
  max_executions = max_executions;
  queue_size = queue_size;
  logs = [];
  sequence = 0;
  queues = λ _. [];
  next_queue = 0;
}

abbrev pub lookup_logs : ℕ → List (ℕ × ExecutionLogs) → Option ExecutionLogs
lookup_logs k [] = none
lookup_logs k ((j, v) ∷ d) = let rest = lookup_logs k d in if j == k then some v else rest

abbrev pub without_logs : ℕ → List (ℕ × ExecutionLogs) → List (ℕ × ExecutionLogs)
without_logs k [] = []
without_logs k ((j, v) ∷ d) = let rest = without_logs k d in if j == k then rest else (j, v) ∷ rest

-- A write through the object that the dict holds under `k`.
abbrev pub change_logs :
    ℕ → (ExecutionLogs → ExecutionLogs) → List (ℕ × ExecutionLogs) → List (ℕ × ExecutionLogs)
change_logs k f [] = []
change_logs k f ((j, v) ∷ d) = (j, if j == k then f v else v) ∷ change_logs k f d

abbrev pub is_empty {ℓ} : {A : Type ℓ} → List A → Bool
is_empty [] = true
is_empty (_ ∷ _) = false

-- `_trim`: the loop over `list(self._logs)[:-1]`, with the number of entries that are left. The
-- `break` ends it; the last entry is never looked at.
unfoldable pub trim_from : ℕ → ℕ → List (ℕ × ExecutionLogs) → List (ℕ × ExecutionLogs)
trim_from max size [] = []
trim_from max size (x ∷ []) = x ∷ []
trim_from max size (x ∷ y ∷ d) =
    let evict = is_empty (x.1).subscribers in
    let rest = trim_from max (if evict then size - 1 else size) (y ∷ d) in
    if leb size max then x ∷ y ∷ d else if evict then rest else x ∷ rest

unfoldable pub trim : ℕ → List (ℕ × ExecutionLogs) → List (ℕ × ExecutionLogs)
unfolding trim_from
trim max d = trim_from max (length d) d

-- `_get`: the entry under the key is created or refreshed, and stands last.
unfoldable pub get_logs : ℕ → ExecutionLogStream → ExecutionLogStream
unfolding trim
get_logs id s =
    let entry = maybe (lookup_logs id s.logs) no_logs (λ l. l) in
    record s { logs = trim s.max_executions (without_logs id s.logs ++ (id, entry) ∷ []) }

-- The object that `_get` returns.
abbrev pub logs_of : ℕ → ExecutionLogStream → ExecutionLogs
logs_of id s = maybe (lookup_logs id s.logs) no_logs (λ l. l)

-- `deque(maxlen=size).append`
abbrev pub append_bounded {ℓ} : {A : Type ℓ} → ℕ → List A → A → List A
append_bounded size xs x = let ys = xs ++ x ∷ [] in drop (length ys - size) ys

-- `asyncio.Queue(maxsize).full`; a size of zero is no bound.
abbrev pub is_full : ℕ → List LogStreamEvent → Bool
is_full maxsize q = ltb 0 maxsize && leb maxsize (length q)

abbrev pub overflow_frame : ℕ → LogStreamEvent
overflow_frame id = record {
  id = id;
  event = EventName.failed;
  content = Value.dict (
      Fields.field "code" (Value.str "log_stream_overflow") (
        Fields.field "message" (Value.str "Log consumption too slow, reconnect to read history")
          Fields.end));
}

-- What `_broadcast` leaves in the queue of one subscriber.
abbrev pub deliver : ℕ → LogStreamEvent → List LogStreamEvent → List LogStreamEvent
deliver maxsize entry q =
    if is_full maxsize q then overflow_frame entry.id ∷ [] else q ++ entry ∷ []

-- `_broadcast`: the queues after it, and the subscribers that stay. The queues of a set of
-- subscribers are distinct objects, so their order does not matter.
abbrev pub broadcast_queues :
    ℕ → LogStreamEvent → List ℕ → (ℕ → List LogStreamEvent) → ℕ → List LogStreamEvent
broadcast_queues maxsize entry subscribers queues q =
    if contains q subscribers then deliver maxsize entry (queues q) else queues q

abbrev pub stay_subscribed : ℕ → (ℕ → List LogStreamEvent) → List ℕ → List ℕ
stay_subscribed maxsize queues [] = []
stay_subscribed maxsize queues (q ∷ qs) =
    let rest = stay_subscribed maxsize queues qs in
    if is_full maxsize (queues q) then rest else q ∷ rest

-- The end of `publish` and of `handle_terminal`: `f` writes the frame into the entry of `id`.
unfoldable pub emit_frame :
    ℕ → LogStreamEvent → (ExecutionLogs → ExecutionLogs) → ExecutionLogStream → ExecutionLogStream
emit_frame id frame f s =
    let l = logs_of id s in
    record s {
      sequence = frame.id;
      logs =
          change_logs id
            (λ x. record (f x) {
              subscribers = stay_subscribed s.queue_size s.queues x.subscribers;
            })
            s.logs;
      queues = broadcast_queues s.queue_size frame l.subscribers s.queues;
    }

-- The dict that `publish` builds.
abbrev pub log_payload : String → String → String → Value → Value
log_payload timestamp level message context = Value.dict (
    Fields.field "timestamp" (Value.str timestamp) (
      Fields.field "level" (Value.str level)
        (Fields.field "message" (Value.str message) (Fields.field "context" context Fields.end))))

-- `logs.entries.append(entry)`
abbrev pub add_entry : ℕ → LogStreamEvent → ExecutionLogs → ExecutionLogs
add_entry history_size entry l = record l { entries = append_bounded history_size l.entries entry }

-- `logs.terminal = terminal`
abbrev pub set_terminal : LogStreamEvent → ExecutionLogs → ExecutionLogs
set_terminal frame l = record l { terminal = some frame }

-- `publish`, with the text of `utc_now().isoformat()`
unfoldable pub publish :
    Patterns → String → ℕ → String → String → Value → ExecutionLogStream → ExecutionLogStream
unfolding get_logs emit_frame redact
publish p timestamp id level message context s =
    let s' = get_logs id s in
    let entry : LogStreamEvent = record {
      id = s'.sequence + 1;
      event = EventName.log;
      content = redact p [] (log_payload timestamp level message context);
    } in
    emit_frame id entry (add_entry s'.history_size entry) s'

-- `"completed" if status in {"completed", "cancelled"} else "failed"`
abbrev pub terminal_name : String → EventName
terminal_name status =
    if str_eq status "completed" || str_eq status "cancelled"
    then EventName.completed
    else EventName.failed

-- The dict that `handle_terminal` builds; the second text is `str(execution_id)`.
abbrev pub terminal_payload : String → Value → Value
terminal_payload status id_text =
    Value.dict
      (Fields.field "status" (Value.str status) (Fields.field "execution_id" id_text Fields.end))

-- `handle_terminal`
unfoldable pub handle_terminal : ℕ → String → Value → ExecutionLogStream → ExecutionLogStream
unfolding get_logs emit_frame
handle_terminal id status id_text s =
    let s' = get_logs id s in
    let frame : LogStreamEvent = record {
      id = s'.sequence + 1;
      event = terminal_name status;
      content = terminal_payload status id_text;
    } in
    emit_frame id frame (set_terminal frame) s'

-- `history`
unfoldable pub history : ℕ → ExecutionLogStream → List LogStreamEvent × ExecutionLogStream
unfolding get_logs
history id s = let s' = get_logs id s in ((logs_of id s').entries, s')

-- `terminal`
unfoldable pub terminal : ℕ → ExecutionLogStream → Option LogStreamEvent × ExecutionLogStream
unfolding get_logs
terminal id s = let s' = get_logs id s in ((logs_of id s').terminal, s')

-- `{"event": "terminal", **logs.terminal.data}`
abbrev pub terminal_entry : Value → Value
terminal_entry (Value.dict fields) = Value.dict (Fields.field "event" (Value.str "terminal") fields)
terminal_entry other = other

-- `collect`
unfoldable pub collect : ℕ → ExecutionLogStream → List Value × ExecutionLogStream
unfolding get_logs
collect id s =
    let s' = get_logs id s in
    let l = logs_of id s' in
    (map (λ e. e.content) l.entries ++ maybe l.terminal [] (λ t. terminal_entry t.content ∷ []), s')

-- `subscribe`, up to the `yield`: the new queue is empty.
unfoldable pub subscribe : ℕ → ExecutionLogStream → ℕ × ExecutionLogStream
unfolding get_logs
subscribe id s =
    let s' = get_logs id s in
    let q = s'.next_queue in
    (
      q,
      record s' {
        logs = change_logs id (λ l. record l { subscribers = l.subscribers ++ q ∷ [] }) s'.logs;
        queues = λ j. if j == q then [] else s'.queues j;
        next_queue = q + 1;
      },
    )

-- `queue.get()` of a reader, which leaves the rest of its queue
abbrev pub pop : ℕ → List LogStreamEvent → ExecutionLogStream → ExecutionLogStream
pop q rest s = record s { queues = λ j. if j == q then rest else s.queues j }

abbrev pub discard : ℕ → List ℕ → List ℕ
discard q [] = []
discard q (x ∷ xs) = let rest = discard q xs in if x == q then rest else x ∷ rest

-- The `finally` of `subscribe`
unfoldable pub unsubscribe : ℕ → ℕ → ExecutionLogStream → ExecutionLogStream
unfolding trim
unsubscribe id q s = record s {
  logs =
      trim s.max_executions
        (change_logs id (λ l. record l { subscribers = discard q l.subscribers }) s.logs);
}
