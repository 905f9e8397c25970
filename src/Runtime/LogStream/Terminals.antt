-- ===== src/Runtime/LogStream/Terminals.antt =====
-- The frames that runtime/execution/log_stream.py holds: the terminal ones are no lines, and the
-- numbers of the lines are positive.
use qiankun.Prelude.{
  ℕ, zero, suc, ◌+◌, ◌<◌, arith, ◌≢◌, String, Option, List, [], ◌∷◌, str_eq, ◌||◌, maybe,
  Bool-cases, inl, inr,
}
use qiankun.Prelude.Lists.{All, All-append, drop}
use qiankun.Runtime.Logger.{redact}
use qiankun.Runtime.LogStream.{
  EventName, LogStreamEvent, ExecutionLogs, ExecutionLogStream, new_stream, logs_of, get_logs,
  emit_frame, publish, handle_terminal, subscribe, unsubscribe, terminal, history, append_bounded,
  terminal_name, terminal_payload, log_payload, add_entry, set_terminal,
}
use qiankun.Runtime.LogStream.Trim.{Entry, trim-All}
use qiankun.Runtime.LogStream.Invariant.{without_logs-All, lookup_logs-All, change_logs-All}
use qiankun.Runtime.LogStream.Runs.{Step, Reach}

abbrev pub IsNotice : Option LogStreamEvent → Type 0
IsNotice t = maybe t Unit (λ e. e.event ≢ EventName.log)

-- The numbers start with one.
abbrev pub ArePositive : List LogStreamEvent → Type 0
ArePositive = All (λ e. 0 < e.id)

abbrev Notice : Entry → Type 0
Notice x = IsNotice (x.1).terminal × ArePositive (x.1).entries

-- Every terminal frame that the stream holds is a notice, and every line has a number.
abbrev pub HasNotices : ExecutionLogStream → Type 0
HasNotices s = All Notice s.logs

get_logs-HasNotices : (id : ℕ) (s : ExecutionLogStream) → HasNotices s → HasNotices (get_logs id s)
unfolding get_logs
get_logs-HasNotices id s h =
    let kept = without_logs-All Notice id s.logs h in
    let entry = lookup_logs-All Notice id s.logs (λ j. (tt, tt)) (λ i j l n. n) h in
    trim-All Notice s.max_executions _ (All-append Notice _ _ kept (entry, tt))

emit_frame-HasNotices :
    (id : ℕ) (frame : LogStreamEvent) (f : ExecutionLogs → ExecutionLogs) (s : ExecutionLogStream)
    → ((j : ℕ) (l : ExecutionLogs) → Notice (j, l) → Notice (j, f l))
    → HasNotices s
    → HasNotices (emit_frame id frame f s)
unfolding emit_frame
emit_frame-HasNotices id frame f s write h =
    change_logs-All Notice Notice id _ s.logs (λ x n. n) (λ j l n. write j l n) h

drop-ArePositive : (k : ℕ) (xs : List LogStreamEvent) → ArePositive xs → ArePositive (drop k xs)
drop-ArePositive zero xs h = h
drop-ArePositive (suc k) [] h = tt
drop-ArePositive (suc k) (x ∷ xs) h = drop-ArePositive k xs h.1

append_bounded-ArePositive :
    (size : ℕ) (xs : List LogStreamEvent) (e : LogStreamEvent)
    → 0 < e.id
    → ArePositive xs
    → ArePositive (append_bounded size xs e)
append_bounded-ArePositive size xs e pos h =
    drop-ArePositive _ _ (All-append (λ x. 0 < x.id) xs (e ∷ []) h (pos, tt))

terminal_name-ne : (status : String) → terminal_name status ≢ EventName.log
terminal_name-ne status =
    elim (Bool-cases (str_eq status "completed" || str_eq status "cancelled")) [
      | inl e ↦ rw e (λ no. cc)
      | inr e ↦ rw e (λ no. cc)
    ]

pub Step-HasNotices : {s t : ExecutionLogStream} → Step s t → HasNotices s → HasNotices t
unfolding publish handle_terminal subscribe unsubscribe
Step-HasNotices {s} (Step.read id) h = get_logs-HasNotices id s h
Step-HasNotices {s} (Step.published p timestamp id level message context) h =
    let s' = get_logs id s in
    let entry : LogStreamEvent = record {
      id = s'.sequence + 1;
      event = EventName.log;
      content = redact p [] (log_payload timestamp level message context);
    } in
    emit_frame-HasNotices id entry (add_entry s'.history_size entry) s'
      (λ j l (n, p).
        (n, append_bounded-ArePositive s'.history_size l.entries entry (omega arith) p))
      (get_logs-HasNotices id s h)
Step-HasNotices {s} (Step.ended id status id_text) h =
    let s' = get_logs id s in
    let frame : LogStreamEvent = record {
      id = s'.sequence + 1;
      event = terminal_name status;
      content = terminal_payload status id_text;
    } in
    emit_frame-HasNotices id frame (set_terminal frame) s'
      (λ j l (n, p). (terminal_name-ne status, p)) (get_logs-HasNotices id s h)
Step-HasNotices {s} (Step.subscribed id) h =
    change_logs-All Notice Notice id _ (get_logs id s).logs (λ x n. n) (λ j l n. n)
      (get_logs-HasNotices id s h)
Step-HasNotices {s} (Step.unsubscribed id q) h =
    trim-All Notice s.max_executions _
      (change_logs-All Notice Notice id _ s.logs (λ x n. n) (λ j l n. n) h)
Step-HasNotices {s} (Step.taken q e rest same) h = h

run-HasNotices : {s t : ExecutionLogStream} → HasNotices s → Reach s t → HasNotices t
run-HasNotices h Reach.here = h
run-HasNotices h (Reach.next r step) = Step-HasNotices step (run-HasNotices h r)

pub Reach-HasNotices :
    (history_size max_executions queue_size : ℕ) (s : ExecutionLogStream)
    → Reach (new_stream history_size max_executions queue_size) s
    → HasNotices s
Reach-HasNotices history_size max_executions queue_size s r = run-HasNotices tt r

-- What `terminal` and `history` give.
module _ (id : ℕ) (s : ExecutionLogStream) (h : HasNotices s) where
  read-Notice : Notice (id, logs_of id (get_logs id s))
  read-Notice =
      lookup_logs-All Notice id (get_logs id s).logs (λ j. (tt, tt)) (λ i j l n. n)
        (get_logs-HasNotices id s h)

  pub terminal-IsNotice : IsNotice (terminal id s).0
  unfolding terminal
  terminal-IsNotice = read-Notice.0

  pub history-ArePositive : ArePositive (history id s).0
  unfolding history
  history-ArePositive = read-Notice.1
