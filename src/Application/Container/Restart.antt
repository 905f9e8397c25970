-- ===== src/Application/Container/Restart.antt =====
-- A write of the row (system, base) by app/application/services/system_setting.py, and the start after it
-- of app/application/container.py.
use qiankun.Prelude.{◌≡◌, refl, String, Bool, true, Option, some}
use qiankun.Prelude.Exec.{Result, ok, err, Ensures, Ensures-eq-ok, >>=-Ensures, pure, ◌>>◌}
use qiankun.Prelude.Json.{Value, update_fields}
use qiankun.Infrastructure.Database.{SystemSetting, Db}
use qiankun.Infrastructure.Repositories.Settings.{by_key}
use qiankun.Application.Settings.{Hashing, redact_row, put, get as get_setting}
use qiankun.Application.Configuration.{
  Pydantic, interval_seconds, max_concurrent_tasks, default_timeout, cleanup_timeout,
  accepts_fields, SystemBaseSettings, validate_system_base, base_schema,
}
use qiankun.Application.Configuration.Accepted.{
  AreWithin, IsSettled, knob_value-IsWithin, redact_secrets-accepted, accepts_fields-update_fields,
}
use qiankun.Application.Container.{
  Container, Startup, on_tables, read_setting, effective_system_base,
}
use qiankun.Application.Container.Updates.{on_setting_updated, put_setting}
use qiankun.Application.Configuration.Written.{put-IsSettled}

effective_system_base-AreWithin :
    (s : Startup) (db : Db)
    → accepts_fields s.pydantic s.base_defaults ≡ true
    → IsSettled s.pydantic db
    → (b : SystemBaseSettings) × (effective_system_base s db ≡ (ok b, db)) × AreWithin b
unfolding effective_system_base read_setting get_setting by_key redact_row validate_system_base
effective_system_base-AreWithin s db defaults (row, fields, found, is_dict, accepted) =
    let p = s.pydantic in
    let merged = update_fields s.base_defaults fields in
    rw
      (
        found,
        is_dict,
        redact_secrets-accepted p fields accepted,
        accepts_fields-update_fields p s.base_defaults fields defaults accepted,
      )
      (
        _,
        refl,
        (
          knob_value-IsWithin p interval_seconds merged,
          knob_value-IsWithin p max_concurrent_tasks merged,
          knob_value-IsWithin p default_timeout merged,
          knob_value-IsWithin p cleanup_timeout merged,
        ),
      )

on_tables-Ensures :
    (P : SystemSetting → Db → Type 0) (c : Container) (o : Result SystemSetting × Db)
    → Ensures P o
    → Ensures
        (λ (row : SystemSetting) (after : Container).
          P row after.site.db × (after.base ≡ c.base) × (after.scheduler ≡ c.scheduler))
        (o.0, record c { site = record (c.site) { db = o.1 } })
on_tables-Ensures P c (ok row, db) h = (h, refl, refl)
on_tables-Ensures P c (err e, db) h = tt

abbrev IsWritten : Pydantic → Container → SystemSetting × Bool → Container → Type 0
IsWritten p c answer after =
    IsSettled p after.site.db
    × (after.base ≡ c.base)
    × (after.scheduler ≡ c.scheduler)
    × (answer.1 ≡ true)

put_setting-IsWritten :
    (s : Startup) (h : Hashing) (type : String) (v : Value) (enabled : Bool)
    (description : Option String) (c : Container)
    → Ensures
        (IsWritten s.pydantic c)
        (put_setting s h "system" "base" type v enabled description c)
unfolding put_setting on_setting_updated
put_setting-IsWritten s h type v enabled description c =
    >>=-Ensures
      (λ _ after.
        IsSettled s.pydantic after.site.db
        × (after.base ≡ c.base)
        × (after.scheduler ≡ c.scheduler))
      (IsWritten s.pydantic c)
      (on_tables (put h (some (base_schema s.pydantic)) "system" "base" type v enabled description))
      (λ row. on_setting_updated s "system" "base" >> pure (row, true)) c
      (on_tables-Ensures (λ _ after. IsSettled s.pydantic after) c _
        (put-IsSettled s.pydantic h type enabled description v c.site.db))
      (λ row after (settled, base, scheduler). (settled, base, scheduler, refl))

-- A write of the row (system, base) that ends asks for a restart and leaves the running scheduler and its
-- settings alone. From the tables it leaves the next start reads its settings without an exception, and
-- every setting is within its bounds, where the settings of the environment pass the schema.
pub put_setting-AreWithin :
    (s : Startup) (h : Hashing) (type : String) (v : Value) (enabled : Bool)
    (description : Option String) (c after : Container) (row : SystemSetting)
    (restart_required : Bool)
    → accepts_fields s.pydantic s.base_defaults ≡ true
    → put_setting s h "system" "base" type v enabled description c
      ≡ (ok (row, restart_required), after)
    → (restart_required ≡ true)
      × (after.scheduler ≡ c.scheduler)
      × (after.base ≡ c.base)
      × ((b : SystemBaseSettings) × (effective_system_base s after.site.db ≡ (ok b, after.site.db))
          × AreWithin b)
put_setting-AreWithin s h type v enabled description c after row restart_required defaults written =
    let (settled, base, scheduler, restart) =
      Ensures-eq-ok (IsWritten s.pydantic c) _ (row, restart_required) after
        (put_setting-IsWritten s h type v enabled description c) written in
    (restart, scheduler, base, effective_system_base-AreWithin s after.site.db defaults settled)
