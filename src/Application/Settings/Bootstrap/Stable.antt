-- ===== src/Application/Settings/Bootstrap/Stable.antt =====
-- What `bootstrap` of system_setting.py leaves of a setting, and of a second start.
use qiankun.Prelude.{◌≡◌, String, true, some}
use qiankun.Infrastructure.Database.{SystemSetting, Db}
use qiankun.Infrastructure.Repositories.Settings.{find_setting}
use qiankun.Application.Settings.Bootstrap.{Defaults, seeded, is_filled, seed_rows, bootstrap}

-- A setting that is there and has a value.
IsFilled : String → String → Db → Type 0
IsFilled scope key db =
    (r : SystemSetting) × (find_setting scope key db.settings ≡ some r) × (is_filled r.value ≡ true)

module _ (d d' : Defaults) (db : Db) where
  rows : Db
  rows = (seed_rows (seeded d) db).1

  after : Db
  after = (bootstrap d db).1
