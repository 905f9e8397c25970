-- ===== src/Application/Executions/Follow/Order.antt =====
-- The order of the lines that a client of the log endpoint of execution.py is sent.
use Prim.Native.Nat.{max}
use mathlib.Core.List.{append-nil}
use qiankun.Prelude.{
  ap, ltb, ◌||◌, ◌∙◌, ◌≢◌, ℕ, ◌<◌, ◌≤◌, ◌≡◌, refl, arith, Bool, true, false, Option, none, some,
  List, [], ◌∷◌, ◌++◌, Bool-cases, inl, inr, if◌then◌else◌,
}
use qiankun.Prelude.Lists.{All, All-mono}
use qiankun.Runtime.LogStream.{
  EventName, LogStreamEvent, ExecutionLogStream, get_logs, subscribe, history, terminal, new_stream,
}
use qiankun.Runtime.LogStream.Invariant.{
  IsIncreasing, InOrder, InOrder-mono, InOrder-snoc, IsWellFormed, HistoryOk, lookup_logs-All,
  get_logs-IsWellFormed, subscribe-IsWellFormed,
}
use qiankun.Runtime.LogStream.Runs.{Step, Reach, Reach-IsWellFormed}
use qiankun.Runtime.LogStream.Terminals.{
  IsNotice, HasNotices, Step-HasNotices, Reach-HasNotices, terminal-IsNotice, history-ArePositive,
}
use qiankun.Application.Executions.Follow.{
  Chunk, Phase, Reader, Wake, open_reader, is_new, is_final, after_replay, take_frame, resume_at,
  resume, ping_at, is_failed, wake, wake_all,
}

abbrev line_if : EventName → LogStreamEvent → List LogStreamEvent → List LogStreamEvent
line_if EventName.log e rest = e ∷ rest
line_if EventName.completed e rest = rest
line_if EventName.failed e rest = rest

-- The lines among what was sent.
abbrev pub lines_of : List Chunk → List LogStreamEvent
lines_of [] = []
lines_of (Chunk.ping ∷ cs) = lines_of cs
lines_of (Chunk.frame e ∷ cs) = line_if e.event e (lines_of cs)

-- The history that is still to be sent comes after everything that was.
abbrev Upcoming : ℕ → Phase → Type 0
Upcoming last (Phase.replaying rest) = IsIncreasing rest × All (λ e. last < e.id) rest
Upcoming last _ = Unit

record Ordered (r : Reader) : Type 0 where
  lines : InOrder r.last_id (lines_of r.sent)
  upcoming : Upcoming r.last_id r.phase

lines_of-ping : (cs : List Chunk) → lines_of (cs ++ Chunk.ping ∷ []) ≡ lines_of cs
lines_of-ping [] = refl
lines_of-ping (Chunk.ping ∷ cs) = lines_of-ping cs
lines_of-ping (Chunk.frame e ∷ cs) = ap (line_if e.event e) (lines_of-ping cs)

line_if-append :
    (n : EventName) (e : LogStreamEvent) (xs ys : List LogStreamEvent)
    → line_if n e (xs ++ ys) ≡ line_if n e xs ++ ys
line_if-append EventName.log e xs ys = refl
line_if-append EventName.completed e xs ys = refl
line_if-append EventName.failed e xs ys = refl

lines_of-frame :
    (cs : List Chunk) (e : LogStreamEvent)
    → lines_of (cs ++ Chunk.frame e ∷ []) ≡ lines_of cs ++ line_if e.event e []
lines_of-frame [] e = refl
lines_of-frame (Chunk.ping ∷ cs) e = lines_of-frame cs e
lines_of-frame (Chunk.frame d ∷ cs) e =
    ap (line_if d.event d) (lines_of-frame cs e)
    ∙ line_if-append d.event d (lines_of cs) (line_if e.event e [])

InOrder-line_if :
    (n : EventName) (last m : ℕ) (e : LogStreamEvent) (xs : List LogStreamEvent)
    → last ≤ m
    → e.id ≤ m
    → (n ≡ EventName.log → last < e.id)
    → InOrder last xs
    → InOrder m (xs ++ line_if n e [])
InOrder-line_if EventName.log last m e xs le le' new h =
    InOrder-mono e.id m (xs ++ e ∷ []) le' (InOrder-snoc last xs e (new refl) h)
InOrder-line_if EventName.completed last m e xs le le' new h =
    rw append-nil (InOrder-mono last m xs le h)
InOrder-line_if EventName.failed last m e xs le le' new h =
    rw append-nil (InOrder-mono last m xs le h)

-- A frame that is sent, where a line among them is a new one.
send-InOrder :
    (e : LogStreamEvent) (r : Reader)
    → (e.event ≡ EventName.log → r.last_id < e.id)
    → InOrder r.last_id (lines_of r.sent)
    → InOrder (max r.last_id e.id) (lines_of (r.sent ++ Chunk.frame e ∷ []))
send-InOrder e r new h = rw (lines_of-frame r.sent e) (
    InOrder-line_if e.event r.last_id (max r.last_id e.id) e (lines_of r.sent) (omega arith)
      (omega arith) new h)

is_new-lt :
    (n : EventName) (last id : ℕ)
    → (ltb last id || is_failed n) ≡ true
    → n ≡ EventName.log
    → last < id
is_new-lt EventName.log last id h e = ground arith
is_new-lt EventName.completed last id h e = cc
is_new-lt EventName.failed last id h e = cc

not_replaying : (b : Bool) (last : ℕ) → Upcoming last (if b then Phase.closing else Phase.following)
not_replaying true last = tt
not_replaying false last = tt

take_frame-Ordered :
    (q : List LogStreamEvent) (r : Reader) (s : ExecutionLogStream)
    → Ordered r
    → Ordered (take_frame q r s).0
unfolding take_frame
take_frame-Ordered [] r s h = h
take_frame-Ordered (e ∷ rest) r s h = elim (Bool-cases (is_new r.last_id e)) [
  | inr old ↦ rw old h
  | inl new ↦ rw new (record {
    lines = send-InOrder e r (is_new-lt e.event r.last_id e.id new) h.lines;
    upcoming = not_replaying (is_final e.event) (max r.last_id e.id);
  })
]

Upcoming-next :
    (last : ℕ) (e : LogStreamEvent) (rest : List LogStreamEvent)
    → Upcoming last (Phase.replaying (e ∷ rest))
    → Upcoming (max last e.id) (Phase.replaying rest)
Upcoming-next last e rest ((later, increasing), (first, _)) = (
  increasing,
  All-mono (λ x. e.id < x.id) (λ x. max last e.id < x.id) (λ x (k : e.id < x.id). omega arith) rest
      later,
)

line_if-none : (n : EventName) (e : LogStreamEvent) → n ≢ EventName.log → line_if n e [] ≡ []
line_if-none EventName.log e h = absurd (h refl)
line_if-none EventName.completed e h = refl
line_if-none EventName.failed e h = refl

after_replay-Ordered :
    (t : Option LogStreamEvent) (r : Reader) → IsNotice t → Ordered r → Ordered (after_replay t r)
after_replay-Ordered none r n h = record { lines = h.lines; upcoming = tt }
after_replay-Ordered (some t) r n h = record {
  lines = rw (lines_of-frame r.sent t, line_if-none t.event t n, append-nil) h.lines;
  upcoming = tt;
}

resume_at-Ordered :
    (p : Phase) (r : Reader) (s : ExecutionLogStream)
    → Upcoming r.last_id p
    → HasNotices s
    → Ordered r
    → Ordered (resume_at p r s).0
unfolding resume_at
resume_at-Ordered (Phase.replaying []) r s u n h =
    after_replay-Ordered (terminal r.execution_id s).0 r (terminal-IsNotice r.execution_id s n) h
resume_at-Ordered (Phase.replaying (e ∷ rest)) r s u n h = record {
  lines = send-InOrder e r (λ _. u.1.0) h.lines;
  upcoming = Upcoming-next r.last_id e rest u;
}
resume_at-Ordered Phase.following r s u n h = take_frame-Ordered (s.queues r.queue) r s h
resume_at-Ordered Phase.closing r s u n h = record { lines = h.lines; upcoming = tt }
resume_at-Ordered Phase.ended r s u n h = h

ping_at-Ordered : (p : Phase) (r : Reader) → Ordered r → Ordered (ping_at p r)
ping_at-Ordered (Phase.replaying rest) r h = h
ping_at-Ordered Phase.following r h = record {
  lines = rw (lines_of-ping r.sent) h.lines;
  upcoming = h.upcoming;
}
ping_at-Ordered Phase.closing r h = h
ping_at-Ordered Phase.ended r h = h

-- A stream that calls on a new one have led to.
abbrev pub IsReached : ExecutionLogStream → Type 0
IsReached s =
    (history_size : ℕ) × (max_executions : ℕ) × (queue_size : ℕ) × Reach
      (new_stream history_size max_executions queue_size) s

abbrev pub IsReachedAt : Wake → Type 0
IsReachedAt (Wake.stepped s) = IsReached s
IsReachedAt Wake.timed_out = Unit

wake-Ordered : (w : Wake) (r : Reader) → IsReachedAt w → Ordered r → Ordered (wake w r)
unfolding resume
wake-Ordered (Wake.stepped s) r (hs, me, qs, reached) h =
    resume_at-Ordered r.phase r s h.upcoming (Reach-HasNotices hs me qs s reached) h
wake-Ordered Wake.timed_out r reached h = ping_at-Ordered r.phase r h

wake_all-Ordered :
    (ws : List Wake) (r : Reader) → All IsReachedAt ws → Ordered r → Ordered (wake_all ws r)
unfolding wake_all
wake_all-Ordered [] r reached h = h
wake_all-Ordered (w ∷ ws) r reached h =
    wake_all-Ordered ws (wake w r) reached.1 (wake-Ordered w r reached.0 h)

history-IsIncreasing :
    (id : ℕ) (s : ExecutionLogStream) → IsWellFormed s → IsIncreasing (history id s).0
unfolding history
history-IsIncreasing id s w =
    let s' = get_logs id s in
    let w' = get_logs-IsWellFormed id s w in
    (lookup_logs-All (HistoryOk s'.history_size s'.sequence) id s'.logs (λ j. omega arith)
      (λ i j l h. h) w'.histories).1.0

-- Whatever calls of the stream, timeouts and steps of other readers come between the steps of a reader that
-- was opened on a stream: the lines that the client is sent have growing ids, so that none is sent
-- twice and none out of order, although the snapshot of the history and the queue overlap.
pub wake_all-IsIncreasing :
    (id : ℕ) (s : ExecutionLogStream) (ws : List Wake)
    → IsReached s
    → All IsReachedAt ws
    → IsIncreasing (lines_of (wake_all ws (open_reader id s).0).sent)
unfolding open_reader
wake_all-IsIncreasing id s ws (hs, me, qs, reached) others =
    let (r, s') = open_reader id s in
    let subscribed = (subscribe id s).1 in
    let numbered =
      Step-HasNotices {s = s} (Step.subscribed id) (Reach-HasNotices hs me qs s reached) in
    let start : Ordered r = record {
      lines = (tt, tt);
      upcoming = (
        history-IsIncreasing id subscribed
            (subscribe-IsWellFormed id s (Reach-IsWellFormed hs me qs s reached)),
        history-ArePositive id subscribed numbered,
      );
    } in
    (wake_all-Ordered ws r others start).lines.0
