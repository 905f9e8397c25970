-- ===== src/Application/Settings/Bootstrap.antt =====
-- `bootstrap` and `list` of app/application/services/system_setting.py: the rows that every start of the
-- program makes sure of, and one page of the settings.
pub mod Stable
use qiankun.Prelude.{
  ℕ, ◌-◌, ◌*◌, String, Bool, true, false, ◌&&◌, ◌||◌, Option, none, some, List, [], ◌∷◌, ◌++◌, map,
  maybe, str_eq, if◌then◌else◌,
}
use qiankun.Prelude.Exec.{Exec, pure, gets, ◌>>=◌, ◌>>◌, transaction}
use qiankun.Prelude.Lists.{keep_if, take, drop, length}
use qiankun.Prelude.Codes.{codes, codes_le, sort_by}
use qiankun.Prelude.Json.{Value, Fields}
use qiankun.Infrastructure.Database.{SystemSetting, Db}
use qiankun.Infrastructure.Repositories.Settings.{by_key, add_setting, update_setting}
use qiankun.Application.Settings.{redact_row}
use qiankun.Application.Executions.{Page, paginate}

-- An entry of `seeded`.
pub record Seed : Type 0 where
  pub scope : String
  pub key : String
  pub value : Value
  pub description : String

abbrev text : String → String → Fields → Fields
text key value rest = Fields.field key (Value.str value) rest

abbrev disabled : Fields → Value
disabled rest = Value.dict (Fields.field "enabled" (Value.bool false) rest)

-- `STATIC_DEFAULTS`
abbrev pub static_defaults : List Seed
static_defaults =
    record {
      scope = "browser";
      key = "cdp";
      value = disabled (text "endpoint" "" (text "token" "" Fields.end));
      description = "远程 CDP 浏览器连接";
    }
    ∷ record {
      scope = "notification";
      key = "telegram";
      value = disabled (text "bot_token" "" (text "chat_id" "" Fields.end));
      description = "TG 通知渠道";
    }
    ∷ record {
      scope = "notification";
      key = "webhook";
      value = disabled (text "url" "" Fields.end);
      description = "Webhook 通知渠道";
    }
    ∷ []

-- The arguments of `bootstrap`.
pub record Defaults : Type 0 where
  pub admin_password_hash : String
  pub system_base : Value
  pub logging_loguru : Value

-- `seeded`
abbrev pub seeded : Defaults → List Seed
seeded d =
    record {
      scope = "system";
      key = "base";
      value = d.system_base;
      description = "系统基础配置 (调度与执行参数, 重启生效)";
    }
    ∷ record {
      scope = "logging";
      key = "loguru";
      value = d.logging_loguru;
      description = "日志输出与保留策略 (保存后热更新)";
    }
    ∷ static_defaults

-- `isinstance(row.value, dict) and row.value`
abbrev pub is_filled : Value → Bool
is_filled (Value.dict (Fields.field _ _ _)) = true
is_filled _ = false

abbrev pub seed_setting : Seed → SystemSetting
seed_setting e = record {
  scope = e.scope;
  key = e.key;
  type = "object";
  value = e.value;
  enabled = true;
  description = e.description;
}

-- `{"value": dict(value)}`
abbrev pub set_value : Value → SystemSetting → SystemSetting
set_value value row = record row { value = value }

unfoldable pub write_seed : Seed → Option SystemSetting → Exec Db Unit
unfolding add_setting update_setting
write_seed e none = do add_setting (seed_setting e); pure tt
write_seed e (some row) =
    if is_filled row.value then pure tt else update_setting e.scope e.key (set_value e.value)

-- The body of the loop of `bootstrap`
unfoldable pub seed_row : Seed → Exec Db Unit
unfolding by_key write_seed
seed_row e = do row ← by_key e.scope e.key; write_seed e row

unfoldable pub seed_rows : List Seed → Exec Db Unit
unfolding seed_row
seed_rows [] = pure tt
seed_rows (e ∷ es) = do seed_row e; seed_rows es

abbrev pub admin_value : String → Value
admin_value hash = Value.dict (text "username" "admin" (text "password" hash Fields.end))

abbrev pub admin_setting : String → SystemSetting
admin_setting hash = record {
  scope = "auth";
  key = "admin";
  type = "object";
  value = admin_value hash;
  enabled = true;
  description = "管理员凭证 (Argon2id)";
}

unfoldable pub write_admin : String → Option SystemSetting → Exec Db Unit
unfolding add_setting
write_admin hash none = do add_setting (admin_setting hash); pure tt
write_admin hash (some row) = pure tt

-- `bootstrap`
unfoldable pub bootstrap : Defaults → Exec Db Unit
unfolding by_key write_admin
bootstrap d =
    transaction do
      seed_rows (seeded d)
      admin ← by_key "auth" "admin"
      write_admin d.admin_password_hash admin

-- `order_by(SystemSetting.scope.asc(), SystemSetting.key.asc())`, by code points
abbrev pub row_le : SystemSetting → SystemSetting → Bool
row_le a b =
    if str_eq a.scope b.scope
    then codes_le (codes a.key) (codes b.key)
    else codes_le (codes a.scope) (codes b.scope)

-- `SystemSettingRepository.list`
abbrev pub list_settings : ℕ → ℕ → Option String → List SystemSetting → List SystemSetting × ℕ
list_settings offset limit scope rows =
    let found = keep_if (λ r. maybe scope true (λ s. str_eq r.scope s)) rows in
    (take limit (drop offset (sort_by row_le found)), length found)

-- `list`
unfoldable pub list : ℕ → ℕ → Option String → Exec Db (Page SystemSetting)
unfolding redact_row
list page page_size scope = do
  found ← gets (λ db. list_settings ((page - 1) * page_size) page_size scope db.settings)
  pure (paginate (map redact_row found.0) found.1 page page_size)
