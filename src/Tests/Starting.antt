-- ===== src/Tests/Starting.antt =====
-- The theorems on the start of the program and on its settings, at concrete inputs.
use qiankun.Prelude.{
  ℕ, ◌==◌, if◌then◌else◌, ◌≡◌, refl, String, true, false, none, some, [], ◌∷◌, str_eq,
}
use qiankun.Prelude.Exec.{Error, ok, err}
use qiankun.Prelude.Json.{JsonInt, Value, Fields}
use qiankun.Infrastructure.Database.{SystemSetting, Db}
use qiankun.Infrastructure.Repositories.Settings.{by_key, add_setting}
use qiankun.Infrastructure.Repositories.Executions.{cancel_orphan_running}
use qiankun.Infrastructure.Browser.{Urls, add_token, open_endpoint}
use qiankun.Infrastructure.Logging.{no_sinks, Loguru, Sink, Sinks, configure as configure_sinks}
use qiankun.Application.Settings.{placeholder}
use qiankun.Application.Settings.Bootstrap.{seed_rows}
use qiankun.Application.Configuration.{Pydantic, SystemBaseSettings, accepts_fields}
use qiankun.Application.Configuration.Accepted.{AreWithin}
use qiankun.Application.Container.{
  Container, Startup, configure, effective_system_base, refresh_browser, initialize,
}
use qiankun.Application.Container.Ending.{create}
use qiankun.Application.Container.Starting.{Outcome, create-Outcome}
use qiankun.Application.Container.Browsing.{refresh_browser_redacts_token}
use qiankun.Application.Container.Restart.{put_setting-AreWithin}
use qiankun.Application.Container.Updates.{put_setting}
use qiankun.Tests.{tables}
use qiankun.Tests.Plugins.{tools, empty_site, sources, running}
use qiankun.Tests.Services.{hashing}

-- Whole numbers are read as they are, also for the interval.
abbrev pydantic : Pydantic
pydantic = record {
  as_int = λ v. elim v [ Value.int n ↦ some n | _ ↦ none ];
  as_float = λ v. elim v [ Value.int n ↦ some n | _ ↦ none ];
  has_unit = str_eq "1 MB";
}

abbrev number : String → ℕ → Fields → Fields
number key n rest = Fields.field key (Value.int (JsonInt.nonnegative n)) rest

abbrev base_defaults : Fields
base_defaults = number "interval_seconds" 5000 (number "max_concurrent_tasks" 10 Fields.end)

abbrev ready : Startup
ready = record {
  pydantic = pydantic;
  tools = tools;
  run = running;
  admin_hash = "$argon2id$x";
  base_defaults = base_defaults;
  logging_options = record {
    level = "INFO";
    rotation = "1 MB";
    retention = "1 MB";
    directory = "logs";
  };
  logging_defaults = Fields.end;
  lock_free = true;
  loguru = record { takes = λ sink. true; mkdir = λ directory. true };
  now = 1000;
  fault = λ n. none;
  http_fault = none;
  unlock_fault = none;
  dispose_fault = none;
}

-- The database goes away before the step that builds the scheduler.
abbrev failing : Startup
failing = record ready { fault = λ n. if n == 6 then some Error.unexpected else none }

abbrev fresh : Container
fresh = record {
  site = empty_site;
  files = sources;
  modules = [];
  locked = false;
  disposed = false;
  sinks = no_sinks;
  browser_cache = Fields.end;
  base = none;
  scheduler = none;
  looping = false;
}

create-Outcome_example :
    ((create failing fresh).0 ≡ (initialize failing fresh).0) × Outcome (create failing fresh)
create-Outcome_example = create-Outcome failing refl refl refl fresh refl

-- Without a fault the program starts.
ready_starts : (create ready fresh).0 ≡ ok tt
unfolding create seed_rows cancel_orphan_running configure
ready_starts = refl

-- A browser with a token
abbrev remote : SystemSetting
remote = record {
  scope = "browser";
  key = "cdp";
  type = "object";
  value = Value.dict (
      Fields.field "endpoint" (Value.str "ws://host")
        (Fields.field "token" (Value.str "secret") Fields.end));
  enabled = true;
  description = "";
}

abbrev urls : Urls
urls = record {
  urlsplit = λ t. record { scheme = ""; netloc = ""; path = t; query = ""; fragment = "" };
  parse_qsl = λ t. [];
  urlencode = λ pairs. elim pairs [ [] ↦ "" | (k, v) ∷ rest ↦ v ];
  urlunsplit = λ u. u.query;
  show = λ v. "value";
}

abbrev browsing : Container
browsing = record fresh {
  site = record empty_site { db = record tables { settings = remote ∷ [] } };
}

refresh_browser_redacts_token_example :
    ((refresh_browser browsing).0 ≡ ok tt)
    × (open_endpoint urls (refresh_browser browsing).1.browser_cache
        ≡ ok (add_token urls "ws://host" placeholder))
refresh_browser_redacts_token_example =
    refresh_browser_redacts_token urls browsing remote
      (Fields.field "endpoint" (Value.str "ws://host")
        (Fields.field "token" (Value.str "secret") Fields.end))
      "ws://host" (Value.str "secret") refl refl refl refl refl

abbrev wanted : Fields
wanted = number "max_concurrent_tasks" 3 Fields.end

abbrev settled : SystemSetting
settled = record {
  scope = "system";
  key = "base";
  type = "object";
  value = Value.dict wanted;
  enabled = true;
  description = "";
}

abbrev rewritten : Db
rewritten = record tables { settings = settled ∷ [] }

abbrev configured : Container
configured = record fresh { site = record empty_site { db = rewritten } }

wanted_written :
    put_setting ready hashing "system" "base" "object" (Value.dict wanted) true none fresh
    ≡ (ok (settled, true), configured)
unfolding put_setting accepts_fields by_key add_setting
wanted_written = refl

defaults_accepted : accepts_fields pydantic base_defaults ≡ true
unfolding accepts_fields
defaults_accepted = refl

put_setting-AreWithin_example :
    (true ≡ true)
    × (configured.scheduler ≡ fresh.scheduler)
    × (configured.base ≡ fresh.base)
    × ((b : SystemBaseSettings) × (effective_system_base ready configured.site.db
          ≡ (ok b, configured.site.db))
        × AreWithin b)
put_setting-AreWithin_example =
    put_setting-AreWithin ready hashing "object" (Value.dict wanted) true none fresh configured
      settled true defaults_accepted wanted_written

-- Where the new file is refused, the old sinks stay and the new console sink stays beside them.
abbrev no_files : Loguru
no_files = record {
  takes = λ sink. elim sink [ Sink.console level ↦ true | Sink.file options ↦ false ];
  mkdir = λ directory. true;
}

abbrev one_console : Sinks
one_console = record {
  handlers = (0, Sink.console "INFO") ∷ [];
  next_handler = 1;
  console_id = some 0;
  file_id = none;
}

failed_configure_adds_console : configure_sinks no_files ready.logging_options one_console ≡ (
  err Error.unexpected,
  record one_console {
    handlers = (0, Sink.console "INFO") ∷ (1, Sink.console "INFO") ∷ [];
    next_handler = 2;
  },
)
unfolding configure_sinks
failed_configure_adds_console = refl
