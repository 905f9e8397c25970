-- ===== src/Tests/Follow.antt =====
-- The theorems on the log endpoint, at concrete inputs.
use qiankun.Prelude.{ℕ, ◌≡◌, refl, some, arith, [], ◌∷◌}
use qiankun.Prelude.Json.{Value, empty_dict}
use qiankun.Prelude.Lists.{length}
use qiankun.Runtime.LogStream.{
  LogStreamEvent, EventName, ExecutionLogStream, new_stream, publish, handle_terminal, terminal,
  terminal_payload,
}
use qiankun.Runtime.LogStream.Runs.{Reach, Step}
use qiankun.Runtime.LogStream.Invariant.{IsIncreasing}
use qiankun.Application.Executions.Follow.{
  Chunk, Phase, Reader, Wake, open_reader, resumes, wake_all,
}
use qiankun.Application.Executions.Follow.Order.{lines_of, wake_all-IsIncreasing}
use qiankun.Application.Executions.Follow.Delivery.{Drains, resumes-Drains, wake_all_ignores_queue}
use qiankun.Tests.{masking}

-- A stream with one line, and what the run publishes while a client replays it.
abbrev empty_stream : ExecutionLogStream
empty_stream = new_stream 4 4 4

abbrev first_line : ExecutionLogStream
first_line = publish masking "12:00" 7 "INFO" "one" empty_dict empty_stream

abbrev opened : Reader
opened = (open_reader 7 first_line).0

abbrev second_line : ExecutionLogStream
second_line = publish masking "12:01" 7 "INFO" "two" empty_dict (open_reader 7 first_line).1

abbrev all_done : ExecutionLogStream
all_done = handle_terminal 7 "completed" (Value.str "id") second_line

first_reached : Reach empty_stream first_line
first_reached = Reach.next Reach.here (Step.published masking "12:00" 7 "INFO" "one" empty_dict)

wake_all-IsIncreasing_example : IsIncreasing (
    lines_of
      (wake_all
        (Wake.stepped first_line ∷ Wake.timed_out ∷ Wake.stepped first_line ∷ [])
        opened).sent)
wake_all-IsIncreasing_example =
    wake_all-IsIncreasing 7 first_line
      (Wake.stepped first_line ∷ Wake.timed_out ∷ Wake.stepped first_line ∷ [])
      (4, 4, 4, first_reached) ((4, 4, 4, first_reached), (tt, ((4, 4, 4, first_reached), tt)))

abbrev line : ℕ → LogStreamEvent
line id = record { id = id; event = EventName.log; content = empty_dict }

abbrev last : LogStreamEvent
last = record { id = 3; event = EventName.completed; content = empty_dict }

abbrev waiting_reader : Reader
waiting_reader = record {
  execution_id = 7;
  queue = 0;
  phase = Phase.following;
  last_id = 1;
  sent = [];
}

abbrev with_queue : ExecutionLogStream
with_queue = record empty_stream { queues = λ q. line 1 ∷ line 2 ∷ last ∷ [] }

resumes-Drains_example :
    Drains (line 1 ∷ line 2 ∷ last ∷ []) waiting_reader (resumes 3 waiting_reader with_queue).0
resumes-Drains_example = resumes-Drains waiting_reader with_queue refl (omega arith)

abbrev replayed : Reader
replayed = record waiting_reader { phase = Phase.replaying [] }

abbrev done_frame : LogStreamEvent
done_frame = record {
  id = 3;
  event = EventName.completed;
  content = terminal_payload "completed" (Value.str "id");
}

has_ended : (terminal 7 all_done).0 ≡ some done_frame
unfolding terminal handle_terminal publish open_reader
has_ended = refl

wake_all_ignores_queue_example :
    (wake_all (Wake.stepped all_done ∷ Wake.stepped all_done ∷ []) replayed).sent
    ≡ Chunk.frame done_frame ∷ []
wake_all_ignores_queue_example =
    wake_all_ignores_queue replayed all_done done_frame (Wake.stepped all_done ∷ []) refl has_ended

-- The client that replays one line while the second one is published and the run ends is sent the first
-- line and the terminal frame.
lost_line :
    length
      (wake_all
        (Wake.stepped first_line ∷ Wake.stepped all_done ∷ Wake.stepped all_done ∷ [])
        opened).sent
    ≡ 2
unfolding wake_all open_reader publish handle_terminal
lost_line = refl
