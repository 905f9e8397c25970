-- ===== src/Engine/Bus.antt =====
-- app/runtime/event.py, wired as app/application/container.py wires it: the stream handler first,
-- then the finalizer. Neither of them raises in the model, and `emit` would swallow it.
use qiankun.Prelude.{String, Bool, [], ◌∷◌, ◌++◌, maybe, if◌then◌else◌}
use qiankun.Prelude.Exec.{Exec, ok}
use qiankun.Prelude.Json.{Value}
use qiankun.Runtime.Enums.{is_terminal, status_name}
use qiankun.Runtime.LogStream.{handle_terminal}
use qiankun.Engine.World.{Event, EventType, World, Host}
use qiankun.Engine.Finalizer.{handle_event}

-- `_StreamHandler.handle_event`
unfoldable pub handle_stream_event : Host → Event → World → World
handle_stream_event h event w = elim event.type [
  | EventType.started ↦ w
  | EventType.finished status ↦ maybe event.execution_id w λ id.
      (if is_terminal status
        then record w {
          stream = handle_terminal id (status_name status) (Value.str (h.show_uuid id)) w.stream;
        }
        else w)
]

-- `EventBus.emit`: an exception of a handler is dropped, and what it has done stays.
unfoldable pub emit : Host → (String → Bool) → Event → Exec World Unit
unfolding handle_stream_event handle_event
emit h has_driver event w =
    let w₁ = record w { events = w.events ++ event ∷ [] } in
    let w₂ = handle_stream_event h event w₁ in (ok tt, (handle_event h has_driver event w₂).1)
