-- ===== src/Infrastructure/Repositories/Settings.antt =====
-- app/infrastructure/database/repositories/system_setting.py: rows with the key (scope, key).
pub mod Lookup
use qiankun.Prelude.{
  String, Bool, ◌&&◌, Option, none, some, List, [], ◌∷◌, ◌++◌, str_eq, if◌then◌else◌,
}
use qiankun.Prelude.Exec.{Exec, ok}
use qiankun.Infrastructure.Database.{SystemSetting, Db}

abbrev pub has_key : String → String → SystemSetting → Bool
has_key scope key r = str_eq r.scope scope && str_eq r.key key

abbrev pub find_setting : String → String → List SystemSetting → Option SystemSetting
find_setting scope key [] = none
find_setting scope key (r ∷ rs) =
    let rest = find_setting scope key rs in if has_key scope key r then some r else rest

abbrev pub change_setting :
    String → String → (SystemSetting → SystemSetting) → List SystemSetting → List SystemSetting
change_setting scope key f [] = []
change_setting scope key f (r ∷ rs) =
    (if has_key scope key r then f r else r) ∷ change_setting scope key f rs

-- `by_key`
unfoldable pub by_key : String → String → Exec Db (Option SystemSetting)
by_key scope key db = (ok (find_setting scope key db.settings), db)

-- `uow.system_settings.add`
unfoldable pub add_setting : SystemSetting → Exec Db SystemSetting
add_setting row db = (ok row, record db { settings = db.settings ++ row ∷ [] })

-- `uow.system_settings.update(row, values)` on the row with the given key
unfoldable pub update_setting : String → String → (SystemSetting → SystemSetting) → Exec Db Unit
update_setting scope key values db =
    (ok tt, record db { settings = change_setting scope key values db.settings })
