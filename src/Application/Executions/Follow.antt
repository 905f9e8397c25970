-- ===== src/Application/Executions/Follow.antt =====
-- `stream_logs` of app/application/services/execution.py: the generator behind the log endpoint. It
-- is cut where it yields or waits: a step goes from one such point to the next, and anything may
-- happen to the stream in between.
pub mod Order
pub mod Delivery
use Prim.Native.Nat.{max}
use qiankun.Prelude.{
  ℕ, zero, suc, Bool, true, false, not, ◌&&◌, ◌||◌, Option, none, some, List, [], ◌∷◌, ◌++◌, ltb,
  leb, ◌==◌, maybe, if◌then◌else◌,
}
use qiankun.Runtime.LogStream.{
  EventName, LogStreamEvent, ExecutionLogStream, subscribe, history, terminal, unsubscribe, pop,
}

-- What the generator yields: an encoded frame, or `": ping\n\n"`.
pub data Chunk : Type 0 where
  frame : LogStreamEvent → Chunk
  ping : Chunk

-- Where it stands: in the loop over the history with what is left of it, in the loop over the queue,
-- at a `return`, or at its end.
pub data Phase : Type 0 where
  replaying : List LogStreamEvent → Phase
  following closing ended : Phase

pub record Reader : Type 0 where
  pub execution_id : ℕ
  pub queue : ℕ
  pub phase : Phase
  pub last_id : ℕ
  pub sent : List Chunk

-- The start of the generator, for an execution that exists: nothing comes between the subscription and
-- the snapshot of the history.
unfoldable pub open_reader : ℕ → ExecutionLogStream → Reader × ExecutionLogStream
unfolding subscribe history
open_reader id s =
    let (q, s') = subscribe id s in
    let (entries, s'') = history id s' in
    (
      record {
        execution_id = id;
        queue = q;
        phase = Phase.replaying entries;
        last_id = 0;
        sent = [];
      },
      s'',
    )

-- `entry.event != "failed"` is its negation.
abbrev pub is_failed : EventName → Bool
is_failed EventName.failed = true
is_failed _ = false

-- `entry.event in {"completed", "failed"}`
abbrev pub is_final : EventName → Bool
is_final EventName.log = false
is_final _ = true

-- `yield entry.encode()` with the update of `last_id`
abbrev pub send : LogStreamEvent → Phase → Reader → Reader
send e phase r = record r {
  phase = phase;
  last_id = max r.last_id e.id;
  sent = r.sent ++ Chunk.frame e ∷ [];
}

-- The end of the replay: the terminal frame, if there is one by now, and the `return`.
abbrev pub after_replay : Option LogStreamEvent → Reader → Reader
after_replay none r = record r { phase = Phase.following }
after_replay (some t) r = record r { phase = Phase.closing; sent = r.sent ++ Chunk.frame t ∷ [] }

-- `entry.id <= last_id and entry.event != "failed"` is its negation.
abbrev pub is_new : ℕ → LogStreamEvent → Bool
is_new last_id e = ltb last_id e.id || is_failed e.event

-- One round of `while True` with what the queue holds; an empty queue is waited for.
unfoldable pub take_frame :
    List LogStreamEvent → Reader → ExecutionLogStream → Reader × ExecutionLogStream
take_frame [] r s = (r, s)
take_frame (e ∷ rest) r s = (
  if is_new r.last_id e
      then send e (if is_final e.event then Phase.closing else Phase.following) r
      else r,
  pop r.queue rest s,
)

unfoldable pub resume_at : Phase → Reader → ExecutionLogStream → Reader × ExecutionLogStream
unfolding terminal take_frame unsubscribe
resume_at (Phase.replaying []) r s =
    let (t, s') = terminal r.execution_id s in (after_replay t r, s')
resume_at (Phase.replaying (e ∷ rest)) r s = (send e (Phase.replaying rest) r, s)
resume_at Phase.following r s = take_frame (s.queues r.queue) r s
resume_at Phase.closing r s =
    (record r { phase = Phase.ended }, unsubscribe r.execution_id r.queue s)
resume_at Phase.ended r s = (r, s)

-- A step of the generator.
unfoldable pub resume : Reader → ExecutionLogStream → Reader × ExecutionLogStream
unfolding resume_at
resume r s = resume_at r.phase r s

-- `except TimeoutError` while it waits for the queue
abbrev pub ping_at : Phase → Reader → Reader
ping_at Phase.following r = record r { sent = r.sent ++ Chunk.ping ∷ [] }
ping_at _ r = r

-- What happens to the generator: a step, with the stream as it is by then, or a timeout.
pub data Wake : Type 0 where
  stepped : ExecutionLogStream → Wake
  timed_out : Wake

abbrev pub wake : Wake → Reader → Reader
wake (Wake.stepped s) r = (resume r s).0
wake Wake.timed_out r = ping_at r.phase r

unfoldable pub wake_all : List Wake → Reader → Reader
unfolding resume
wake_all [] r = r
wake_all (w ∷ ws) r = wake_all ws (wake w r)

-- Steps with nothing in between.
unfoldable pub resumes : ℕ → Reader → ExecutionLogStream → Reader × ExecutionLogStream
unfolding resume
resumes zero r s = (r, s)
resumes (suc n) r s = let (r', s') = resume r s in resumes n r' s'
