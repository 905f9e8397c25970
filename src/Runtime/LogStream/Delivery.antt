-- ===== src/Runtime/LogStream/Delivery.antt =====
-- What `publish` of runtime/execution/log_stream.py adds to the history of its execution and to
-- the queues of the subscribers.
use qiankun.Prelude.{ℕ, ◌+◌, ◌≡◌, refl, ap, String, none, some, List, [], ◌∷◌, arith, maybe}
use qiankun.Prelude.Json.{Value}
use qiankun.Runtime.Logger.{Patterns, redact}
use qiankun.Runtime.LogStream.{
  LogStreamEvent, ExecutionLogs, ExecutionLogStream, EventName, no_logs, lookup_logs, without_logs,
  change_logs, log_payload, logs_of, get_logs, history, terminal, handle_terminal, terminal_name,
  terminal_payload,
}
use qiankun.Runtime.LogStream.Trim.{trim-lookup_last, Entry}

lookup-without_logs : (k : ℕ) (d : List Entry) → lookup_logs k (without_logs k d) ≡ none
lookup-without_logs k [] = refl
lookup-without_logs k (x ∷ d) = ground (arith, lookup-without_logs k d)

lookup-change_logs :
    (k : ℕ) (f : ExecutionLogs → ExecutionLogs) (d : List Entry) (l : ExecutionLogs)
    → lookup_logs k d ≡ some l
    → lookup_logs k (change_logs k f d) ≡ some (f l)
lookup-change_logs k f [] l h = cc
lookup-change_logs k f (x ∷ d) l h = ground (arith, lookup-change_logs k f d l)

lookup-get_logs :
    (id : ℕ) (s : ExecutionLogStream) → lookup_logs id (get_logs id s).logs ≡ some (logs_of id s)
unfolding get_logs
lookup-get_logs id s =
    trim-lookup_last s.max_executions id (without_logs id s.logs) (logs_of id s)
      (lookup-without_logs id s.logs)

-- `_get` returns the object that stood under the key, also when it evicts others.
logs_of-get_logs : (id : ℕ) (s : ExecutionLogStream) → logs_of id (get_logs id s) ≡ logs_of id s
logs_of-get_logs id s = ap (λ o. maybe o no_logs (λ l. l)) (lookup-get_logs id s)

-- The frame that `publish` builds.
abbrev pub published : Patterns → String → String → String → Value → ℕ → LogStreamEvent
published p timestamp level message context sequence = record {
  id = sequence + 1;
  event = EventName.log;
  content = redact p [] (log_payload timestamp level message context);
}

terminal-handle_terminal :
    (id : ℕ) (status : String) (id_text : Value) (s : ExecutionLogStream)
    → (logs_of id (handle_terminal id status id_text s)).terminal
      ≡ some (record {
        id = s.sequence + 1;
        event = terminal_name status;
        content = terminal_payload status id_text;
      })
unfolding handle_terminal
terminal-handle_terminal id status id_text s =
    rw (lookup-change_logs id _ (get_logs id s).logs (logs_of id s) (lookup-get_logs id s))

entries-handle_terminal :
    (id : ℕ) (status : String) (id_text : Value) (s : ExecutionLogStream)
    → (logs_of id (handle_terminal id status id_text s)).entries ≡ (logs_of id s).entries
unfolding handle_terminal
entries-handle_terminal id status id_text s =
    rw (lookup-change_logs id _ (get_logs id s).logs (logs_of id s) (lookup-get_logs id s))

-- After the terminal frame a late reader finds it, under the name "completed" exactly for the
-- statuses completed and cancelled, and the history is what it was.
handle_terminal_late_reader :
    (id : ℕ) (status : String) (id_text : Value) (s : ExecutionLogStream)
    → let s' = handle_terminal id status id_text s in
      ((terminal id s').0
        ≡ some (record {
          id = s.sequence + 1;
          event = terminal_name status;
          content = terminal_payload status id_text;
        }))
      × ((history id s').0 ≡ (history id s).0)
unfolding terminal history
handle_terminal_late_reader id status id_text s =
    let s' = handle_terminal id status id_text s in
    (
      rw (logs_of-get_logs id s') (terminal-handle_terminal id status id_text s),
      rw (logs_of-get_logs id s', logs_of-get_logs id s)
          (entries-handle_terminal id status id_text s),
    )
