-- ===== src/Application/Container/Updates.antt =====
-- `put` of app/application/services/system_setting.py as the program runs it: the schema of the row, the hook
-- of app/application/container.py after the write, and the flag for a restart.
use qiankun.Prelude.{String, Bool, false, ◌&&◌, Option, none, some, str_eq, if◌then◌else◌}
use qiankun.Prelude.Exec.{is_ok, Exec, pure, ◌>>=◌, ◌>>◌}
use qiankun.Prelude.Json.{Value}
use qiankun.Infrastructure.Database.{SystemSetting}
use qiankun.Application.Settings.{Hashing, put}
use qiankun.Application.Configuration.{Pydantic, base_schema, validate_logging}
use qiankun.Application.Container.{
  Container, Startup, on_tables, attempt, refresh_browser, configure_stored,
}

-- `_on_setting_updated`
unfoldable pub on_setting_updated : Startup → String → String → Exec Container Unit
unfolding refresh_browser configure_stored
on_setting_updated s scope key =
    if str_eq scope "browser" && str_eq key "cdp"
    then refresh_browser
    else if str_eq scope "logging" && str_eq key "loguru"
    then attempt (configure_stored s)
    else pure tt

abbrev pub logging_schema : Pydantic → Value → Bool
unfolding validate_logging
logging_schema p (Value.dict fields) = is_ok (validate_logging p fields)
logging_schema p _ = false

-- `SETTING_SCHEMAS`
abbrev pub setting_schema : Pydantic → String → String → Option (Value → Bool)
setting_schema p scope key =
    if str_eq scope "system" && str_eq key "base"
    then some (base_schema p)
    else if str_eq scope "logging" && str_eq key "loguru"
    then some (logging_schema p)
    else none

-- `RESTART_KEYS`
abbrev pub needs_restart : String → String → Bool
needs_restart scope key = str_eq scope "system" && str_eq key "base"

-- The row of the answer, and its `restart_required`
unfoldable pub put_setting :
    Startup
    → Hashing
    → String
    → String
    → String
    → Value
    → Bool
    → Option String
    → Exec Container (SystemSetting × Bool)
unfolding put on_setting_updated
put_setting s h scope key type v enabled description = do
  row ← on_tables (put h (setting_schema s.pydantic scope key) scope key type v enabled description)
  on_setting_updated s scope key
  pure (row, needs_restart scope key)
