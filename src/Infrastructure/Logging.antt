-- ===== src/Infrastructure/Logging.antt =====
-- app/infrastructure/logging/loguru.py: the sinks of the log, which loguru numbers in turn.
use qiankun.Prelude.{
  ℕ, suc, String, Bool, not, ◌==◌, Option, none, some, List, [], ◌∷◌, ◌++◌, str_eq, if◌then◌else◌,
}
use qiankun.Prelude.Exec.{Error, Exec, pure, gets, modify, raise_if, ◌>>=◌, ◌>>◌}
use qiankun.Prelude.Lists.{keep_if}
use qiankun.Application.Configuration.{LoggingSettings}

pub data Sink : Type 0 where
  console : String → Sink
  file : LoggingSettings → Sink

-- What loguru takes as a sink, and where directories can be made
pub record Loguru : Type 0 where
  pub takes : Sink → Bool
  pub mkdir : String → Bool

-- The handlers of `logger`, with `_CONSOLE_ID` and `_FILE_ID`
pub record Sinks : Type 0 where
  pub handlers : List (ℕ × Sink)
  pub next_handler : ℕ
  pub console_id : Option ℕ
  pub file_id : Option ℕ

-- The module as it is loaded
abbrev pub no_sinks : Sinks
no_sinks = record { handlers = []; next_handler = 0; console_id = none; file_id = none }

-- `logger.add`, which answers by the number of the new sink
unfoldable pub add_sink : Loguru → Sink → Exec Sinks ℕ
add_sink l sink = do
  raise_if (not (l.takes sink)) Error.unexpected
  id ← gets (λ g. g.next_handler)
  modify (λ g. record g { handlers = g.handlers ++ (id, sink) ∷ []; next_handler = suc id })
  pure id

-- `if settings.directory`
unfoldable pub add_file : Loguru → LoggingSettings → Exec Sinks (Option ℕ)
unfolding add_sink
add_file l options = if str_eq options.directory "" then pure none else do
  raise_if (not (l.mkdir options.directory)) Error.unexpected
  id ← add_sink l (Sink.file options)
  pure (some id)

-- `logger.remove`; a sink that is not there is passed over.
unfoldable pub remove_sink : Option ℕ → List (ℕ × Sink) → List (ℕ × Sink)
remove_sink none handlers = handlers
remove_sink (some id) handlers = keep_if (λ h. not (h.0 == id)) handlers

-- `configure`
unfoldable pub configure : Loguru → LoggingSettings → Exec Sinks Unit
unfolding add_sink add_file remove_sink
configure l options = do
  new_console ← add_sink l (Sink.console options.level)
  new_file ← add_file l options
  modify (λ g. record g {
    handlers = remove_sink g.file_id (remove_sink g.console_id g.handlers);
    console_id = some new_console;
    file_id = new_file;
  })
