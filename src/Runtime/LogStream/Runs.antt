-- ===== src/Runtime/LogStream/Runs.antt =====
-- Every stream that the operations of runtime/execution/log_stream.py lead to.
use qiankun.Prelude.{ℕ, ◌≤◌, ◌⊎◌, ◌≡◌, String, List, ◌∷◌}
use qiankun.Prelude.Lists.{length}
use qiankun.Prelude.Json.{Value}
use qiankun.Runtime.Logger.{Patterns}
use qiankun.Runtime.LogStream.{
  LogStreamEvent, ExecutionLogStream, pop, new_stream, get_logs, publish, handle_terminal,
  subscribe, unsubscribe,
}
use qiankun.Runtime.LogStream.Trim.{AllButLastWatched, trim_caps}
use qiankun.Runtime.LogStream.Invariant.{
  IsWellFormed, new_stream-IsWellFormed, get_logs-IsWellFormed, publish-IsWellFormed,
  handle_terminal-IsWellFormed, pop-IsWellFormed, subscribe-IsWellFormed, unsubscribe-IsWellFormed,
}

-- One call of the stream, or a reader that takes the first frame of its queue. `history`, `terminal` and `collect` change it as `_get` does.
pub data Step (s : ExecutionLogStream) : ExecutionLogStream → Type 0 where
  read : (id : ℕ) → Step s (get_logs id s)
  published :
      (p : Patterns) (timestamp : String) (id : ℕ) (level message : String) (context : Value)
      → Step s (publish p timestamp id level message context s)
  ended :
      (id : ℕ) (status : String) (id_text : Value) → Step s (handle_terminal id status id_text s)
  subscribed : (id : ℕ) → Step s (subscribe id s).1
  unsubscribed : (id q : ℕ) → Step s (unsubscribe id q s)
  taken :
      (q : ℕ) (e : LogStreamEvent) (rest : List LogStreamEvent)
      → s.queues q ≡ e ∷ rest
      → Step s (pop q rest s)

pub data Reach (s : ExecutionLogStream) : ExecutionLogStream → Type 0 where
  here : Reach s s
  next : {t u : ExecutionLogStream} → Reach s t → Step t u → Reach s u

Step-IsWellFormed : {s t : ExecutionLogStream} → Step s t → IsWellFormed s → IsWellFormed t
Step-IsWellFormed {s} (read id) w = get_logs-IsWellFormed id s w
Step-IsWellFormed {s} (published p timestamp id level message context) w =
    publish-IsWellFormed p timestamp id level message context s w
Step-IsWellFormed {s} (ended id status id_text) w =
    handle_terminal-IsWellFormed id status id_text s w
Step-IsWellFormed {s} (subscribed id) w = subscribe-IsWellFormed id s w
Step-IsWellFormed {s} (unsubscribed id q) w = unsubscribe-IsWellFormed id q s w
Step-IsWellFormed {s} (taken q e rest h) w = pop-IsWellFormed q e rest s h w

run-IsWellFormed : {s t : ExecutionLogStream} → IsWellFormed s → Reach s t → IsWellFormed t
run-IsWellFormed w here = w
run-IsWellFormed w (next r step) = Step-IsWellFormed step (run-IsWellFormed w r)

-- Whatever calls are made on a new stream, whatever frames readers take from their queues, and in
-- whatever order: every history holds at most
-- `history_size` lines and every queue of bounded size at most `queue_size` frames, and in each of
-- them the ids grow and stay up to the sequence number of the stream.
pub Reach-IsWellFormed :
    (history_size max_executions queue_size : ℕ) (s : ExecutionLogStream)
    → Reach (new_stream history_size max_executions queue_size) s
    → IsWellFormed s
Reach-IsWellFormed history_size max_executions queue_size s r =
    run-IsWellFormed (new_stream-IsWellFormed history_size max_executions queue_size) r

-- After any access to an execution, the stream holds at most `max_executions` executions unless
-- every one but the newest has a subscriber.
get_logs_caps :
    (id : ℕ) (s : ExecutionLogStream)
    → (length (get_logs id s).logs ≤ s.max_executions) ⊎ AllButLastWatched (get_logs id s).logs
unfolding get_logs
get_logs_caps id s = trim_caps s.max_executions _
