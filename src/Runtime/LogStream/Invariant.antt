-- ===== src/Runtime/LogStream/Invariant.antt =====
-- The invariant of the stream of runtime/execution/log_stream.py: bounds, and the order of ids.
use qiankun.Prelude.{
  ℕ, zero, suc, ◌+◌, ◌-◌, ◌≤◌, ◌<◌, ◌≡◌, String, List, [], ◌∷◌, ◌++◌, arith, ◌==◌, maybe, if-elim,
  subst,
}
use qiankun.Prelude.Lists.{length, All, drop, contains, length-append, All-append, All-mono}
use qiankun.Prelude.Json.{Value}
use qiankun.Runtime.Logger.{Patterns, redact}
use qiankun.Runtime.LogStream.{
  LogStreamEvent, ExecutionLogs, ExecutionLogStream, no_logs, lookup_logs, without_logs,
  change_logs, append_bounded, is_full, deliver, logs_of, get_logs, emit_frame, publish, EventName,
  log_payload, add_entry, set_terminal, terminal_name, terminal_payload, handle_terminal, subscribe,
  unsubscribe, new_stream, pop,
}
use qiankun.Runtime.LogStream.Trim.{Entry, trim-All}

-- The ids of the frames grow from each to the next.
abbrev pub IsIncreasing : List LogStreamEvent → Type 0
IsIncreasing [] = Unit
IsIncreasing (x ∷ xs) = All (λ y. x.id < y.id) xs × IsIncreasing xs

abbrev pub AtMost : ℕ → List LogStreamEvent → Type 0
AtMost n = All (λ e. e.id ≤ n)

-- Frames in order, none of them later than `n`.
abbrev pub InOrder : ℕ → List LogStreamEvent → Type 0
InOrder n xs = IsIncreasing xs × AtMost n xs

AtMost-mono : (n m : ℕ) (xs : List LogStreamEvent) → n ≤ m → AtMost n xs → AtMost m xs
AtMost-mono n m xs le h =
    All-mono (λ e. e.id ≤ n) (λ e. e.id ≤ m) (λ e (k : e.id ≤ n). omega arith) xs h

pub InOrder-mono : (n m : ℕ) (xs : List LogStreamEvent) → n ≤ m → InOrder n xs → InOrder m xs
InOrder-mono n m xs le h = (h.0, AtMost-mono n m xs le h.1)

IsIncreasing-snoc :
    (n : ℕ) (xs : List LogStreamEvent) (e : LogStreamEvent)
    → n < e.id
    → InOrder n xs
    → IsIncreasing (xs ++ e ∷ [])
IsIncreasing-snoc n [] e lt h = (tt, tt)
IsIncreasing-snoc n (x ∷ xs) e lt ((first, rest), (x_le, xs_le)) = (
  All-append (λ y. x.id < y.id) xs (e ∷ []) first (omega arith),
  IsIncreasing-snoc n xs e lt (rest, xs_le),
)

-- A frame with a later number may be put behind frames in order.
pub InOrder-snoc :
    (n : ℕ) (xs : List LogStreamEvent) (e : LogStreamEvent)
    → n < e.id
    → InOrder n xs
    → InOrder e.id (xs ++ e ∷ [])
InOrder-snoc n xs e next h = (
  IsIncreasing-snoc n xs e next h,
  All-append (λ x. x.id ≤ e.id) xs (e ∷ []) (AtMost-mono n e.id xs (omega arith) h.1) (omega arith),
)

InOrder-drop : (n k : ℕ) (xs : List LogStreamEvent) → InOrder n xs → InOrder n (drop k xs)
InOrder-drop n zero xs h = h
InOrder-drop n (suc k) [] h = (tt, tt)
InOrder-drop n (suc k) (x ∷ xs) ((_, rest), (_, le)) = InOrder-drop n k xs (rest, le)

length-drop : {A : Type 0} (k : ℕ) (xs : List A) → length (drop k xs) ≡ length xs - k
length-drop zero xs = omega arith
length-drop (suc k) [] = omega arith
length-drop (suc k) (x ∷ xs) = omega (arith, length-drop k xs)

-- `deque.append` keeps the bound of the deque.
length-append_bounded :
    {A : Type 0} (size : ℕ) (xs : List A) (x : A) → length (append_bounded size xs x) ≤ size
length-append_bounded size xs x =
    omega (arith, length-drop (length (xs ++ x ∷ []) - size) (xs ++ x ∷ []))

-- The retained history of one execution: bounded, and in order.
abbrev pub HistoryOk : ℕ → ℕ → Entry → Type 0
HistoryOk history_size sequence x =
    (length (x.1).entries ≤ history_size) × InOrder sequence (x.1).entries

-- What every queue holds: frames in order, within the size of the queue if it has one.
abbrev pub QueueOk : ℕ → ℕ → List LogStreamEvent → Type 0
QueueOk queue_size sequence q = InOrder sequence q × (0 < queue_size → length q ≤ queue_size)

pub record IsWellFormed (s : ExecutionLogStream) : Type 0 where
  pub histories : All (HistoryOk s.history_size s.sequence) s.logs
  pub queued : (q : ℕ) → QueueOk s.queue_size s.sequence (s.queues q)

pub new_stream-IsWellFormed :
    (history_size max_executions queue_size : ℕ)
    → IsWellFormed (new_stream history_size max_executions queue_size)
new_stream-IsWellFormed h m q = record {
  histories = tt;
  queued = λ j. ((tt, tt), λ _. omega arith);
}

module _ (P : Entry → Type 0) where
  pub without_logs-All : (k : ℕ) (d : List Entry) → All P d → All P (without_logs k d)
  without_logs-All k [] h = tt
  without_logs-All k (x ∷ d) h =
      let ih = without_logs-All k d h.1 in if-elim (All P) (x.0 == k) (λ _. ih) (λ _. (h.0, ih))

  pub lookup_logs-All :
      (k : ℕ) (d : List Entry)
      → ((j : ℕ) → P (j, no_logs))
      → ((i j : ℕ) (l : ExecutionLogs) → P (i, l) → P (j, l))
      → All P d
      → P (k, maybe (lookup_logs k d) no_logs (λ l. l))
  lookup_logs-All k [] fresh any h = fresh k
  lookup_logs-All k ((j, l) ∷ d) fresh any h =
      let ih = lookup_logs-All k d fresh any h.1 in
      if-elim (λ o. P (k, maybe o no_logs (λ l. l))) (j == k) (λ _. any j k l h.0) (λ _. ih)

module _ (P Q : Entry → Type 0) where
  pub change_logs-All :
      (k : ℕ) (f : ExecutionLogs → ExecutionLogs) (d : List Entry)
      → ((x : Entry) → P x → Q x)
      → ((j : ℕ) (l : ExecutionLogs) → P (j, l) → Q (j, f l))
      → All P d
      → All Q (change_logs k f d)
  change_logs-All k f [] same new h = tt
  change_logs-All k f ((j, l) ∷ d) same new h = (
    if-elim (λ l'. Q (j, l')) (j == k) (λ _. new j l h.0) (λ _. same (j, l) h.0),
    change_logs-All k f d same new h.1,
  )

pub get_logs-IsWellFormed :
    (id : ℕ) (s : ExecutionLogStream) → IsWellFormed s → IsWellFormed (get_logs id s)
unfolding get_logs
get_logs-IsWellFormed id s w =
    let P = HistoryOk s.history_size s.sequence in
    let kept = without_logs-All P id s.logs w.histories in
    let entry = lookup_logs-All P id s.logs (λ j. omega arith) (λ i j l h. h) w.histories in
    record {
      histories =
          trim-All P s.max_executions _ (All-append P (without_logs id s.logs) _ kept (entry, tt));
      queued = w.queued;
    }

deliver-QueueOk :
    (size sequence : ℕ) (e : LogStreamEvent) (q : List LogStreamEvent)
    → sequence < e.id
    → QueueOk size sequence q
    → QueueOk size e.id (deliver size e q)
deliver-QueueOk size sequence e q next (order, short) =
    if-elim (QueueOk size e.id) (is_full size q)
      (λ full. (((tt, tt), (omega arith, tt)), λ pos. omega arith))
      λ room.
        (InOrder-snoc sequence q e next order, λ pos. ground (arith, length-append q (e ∷ [])))

emit_frame-IsWellFormed :
    (id : ℕ) (frame : LogStreamEvent) (f : ExecutionLogs → ExecutionLogs) (s : ExecutionLogStream)
    → s.sequence < frame.id
    → ((j : ℕ) (l : ExecutionLogs)
        → HistoryOk s.history_size s.sequence (j, l)
        → HistoryOk s.history_size frame.id (j, f l))
    → IsWellFormed s
    → IsWellFormed (emit_frame id frame f s)
unfolding emit_frame
emit_frame-IsWellFormed id frame f s next write w = record {
  histories =
      change_logs-All (HistoryOk s.history_size s.sequence) (HistoryOk s.history_size frame.id) id _
        s.logs
        (λ x (fits, order).
          (fits, InOrder-mono s.sequence frame.id (x.1).entries (omega arith) order))
        write w.histories;
  queued = λ q.
      if-elim (QueueOk s.queue_size frame.id) (contains q (logs_of id s).subscribers)
        (λ _. deliver-QueueOk s.queue_size s.sequence frame (s.queues q) next (w.queued q))
        (λ _. (
          InOrder-mono s.sequence frame.id (s.queues q) (omega arith) (w.queued q).0,
          (w.queued q).1,
        ));
}

-- Publishing keeps every history within its bound and in the order of ids, and every queue too.
pub publish-IsWellFormed :
    (p : Patterns) (timestamp : String) (id : ℕ) (level message : String) (context : Value)
    (s : ExecutionLogStream)
    → IsWellFormed s
    → IsWellFormed (publish p timestamp id level message context s)
unfolding publish
publish-IsWellFormed p timestamp id level message context s w =
    let s' = get_logs id s in
    let entry : LogStreamEvent = record {
      id = s'.sequence + 1;
      event = EventName.log;
      content = redact p [] (log_payload timestamp level message context);
    } in
    emit_frame-IsWellFormed id entry (add_entry s'.history_size entry) s' (omega arith)
      (λ j l (fits, order). (
        length-append_bounded s'.history_size l.entries entry,
        InOrder-drop entry.id _ _ (InOrder-snoc s'.sequence l.entries entry (omega arith) order),
      ))
      (get_logs-IsWellFormed id s w)

-- So does the terminal frame.
pub handle_terminal-IsWellFormed :
    (id : ℕ) (status : String) (id_text : Value) (s : ExecutionLogStream)
    → IsWellFormed s
    → IsWellFormed (handle_terminal id status id_text s)
unfolding handle_terminal
handle_terminal-IsWellFormed id status id_text s w =
    let s' = get_logs id s in
    let frame : LogStreamEvent = record {
      id = s'.sequence + 1;
      event = terminal_name status;
      content = terminal_payload status id_text;
    } in
    emit_frame-IsWellFormed id frame (set_terminal frame) s' (omega arith)
      (λ j l (fits, order). (fits, InOrder-mono s'.sequence frame.id l.entries (omega arith) order))
      (get_logs-IsWellFormed id s w)

-- So do a new subscription, which starts with an empty queue, and the end of one.
pub subscribe-IsWellFormed :
    (id : ℕ) (s : ExecutionLogStream) → IsWellFormed s → IsWellFormed (subscribe id s).1
unfolding subscribe
subscribe-IsWellFormed id s w =
    let s' = get_logs id s in
    let w' = get_logs-IsWellFormed id s w in
    let P = HistoryOk s'.history_size s'.sequence in
    record {
      histories = change_logs-All P P id _ s'.logs (λ x h. h) (λ j l h. h) w'.histories;
      queued = λ q.
          if-elim (QueueOk s'.queue_size s'.sequence) (q == s'.next_queue)
            (λ _. ((tt, tt), λ pos. omega arith)) (λ _. w'.queued q);
    }

pub unsubscribe-IsWellFormed :
    (id q : ℕ) (s : ExecutionLogStream) → IsWellFormed s → IsWellFormed (unsubscribe id q s)
unfolding unsubscribe
unsubscribe-IsWellFormed id q s w =
    let P = HistoryOk s.history_size s.sequence in
    record {
      histories =
          trim-All P s.max_executions _
            (change_logs-All P P id _ s.logs (λ x h. h) (λ j l h. h) w.histories);
      queued = w.queued;
    }

pop-QueueOk :
    (size sequence : ℕ) (e : LogStreamEvent) (q rest : List LogStreamEvent)
    → q ≡ e ∷ rest
    → QueueOk size sequence q
    → QueueOk size sequence rest
pop-QueueOk size sequence e q rest h ok =
    let (((_, later), (_, low)), short) = subst (QueueOk size sequence) h ok in
    ((later, low), λ pos. omega (arith, short pos))

-- So does a reader that takes the first frame of its queue.
pub pop-IsWellFormed :
    (q : ℕ) (e : LogStreamEvent) (rest : List LogStreamEvent) (s : ExecutionLogStream)
    → s.queues q ≡ e ∷ rest
    → IsWellFormed s
    → IsWellFormed (pop q rest s)
pop-IsWellFormed q e rest s h w = record {
  histories = w.histories;
  queued = λ j.
      if-elim (QueueOk s.queue_size s.sequence) (j == q)
        (λ _. pop-QueueOk s.queue_size s.sequence e (s.queues q) rest h (w.queued q))
        (λ _. w.queued j);
}
