-- ===== src/Application/Environment.antt =====
-- What app/application/services/dependency.py reads and writes: the manifest and the last state in
-- system_settings, the registry of providers, and the calls of uv.
use qiankun.Prelude.{ℕ, ◌+◌, String, true, Option, none, some, List, [], ◌∷◌, ◌++◌, map, maybe}
use qiankun.Prelude.Exec.{Error, Exec, ok, pure, raise, ◌>>=◌, ◌>>◌}
use qiankun.Prelude.Json.{Value, Fields, get_field, to_list, from_list, update_fields}
use qiankun.Prelude.Codes.{codes, codes_le, sort_by}
use qiankun.Runtime.Registry.{ProviderRegistry}
use qiankun.Infrastructure.Database.{SystemSetting, Db}
use qiankun.Infrastructure.Repositories.Settings.{by_key, add_setting, update_setting}
use qiankun.Infrastructure.Plugins.Dependencies.{
  Packaging, Distribution, Command, UvResult, UvOutcome, outcome_of,
}

-- What the service reads and writes. `commands` are the calls of uv so far.
pub record Site : Type 0 where
  pub db : Db
  pub distributions : List Distribution
  pub registry : ProviderRegistry
  pub commands : List Command
  pub reads : ℕ

-- What it takes from uv, from Python and from the clock. `reload` is `registry.reload()` in an
-- environment, and `none` is its exception; `now` is `utc_now().isoformat()`.
pub record Tools : Type 0 where
  pub packaging : Packaging
  pub uv : Command → List Distribution → UvResult × List Distribution
  pub reload : List Distribution → ProviderRegistry → Option ProviderRegistry
  pub now : ℕ → String
  pub show_int : ℕ → String
  pub show : Value → String
  pub show_name : List ℕ → String

abbrev pub scope : String
scope = "dependencies"

abbrev pub manifest_key : String
manifest_key = "extra"

abbrev pub state_key : String
state_key = "state"

-- A transaction of its own around statements that do not raise.
abbrev pub on_tables : {A : Type 0} → Exec Db A → Exec Site A
on_tables m w = let (r, d) = m w.db in (r, record w { db = d })

-- `str(spec)`
abbrev pub to_text : (Value → String) → Value → String
to_text show (Value.str text) = text
to_text show other = show other

-- `value.get("packages", [])` of a row, with its two guards
abbrev pub packages_of : (Value → String) → Value → List String
packages_of show (Value.dict fields) =
    maybe (get_field "packages" fields) []
      (λ v. elim v [ Value.list items ↦ map (to_text show) (to_list items) | _ ↦ [] ])
packages_of show _ = []

-- `_packages`
unfoldable pub packages : Tools → Exec Site (List String)
packages t = do
  row ← on_tables (by_key scope manifest_key)
  pure (maybe row [] (λ r. packages_of t.show r.value))

abbrev pub state_of : Value → Fields
state_of (Value.dict fields) = fields
state_of _ = Fields.end

-- `_state`
unfoldable pub state : Exec Site Fields
state = do
  row ← on_tables (by_key scope state_key)
  pure (maybe row Fields.end (λ r. state_of r.value))

-- A row that is made on first use, and the columns that a later write sets.
abbrev pub new_row : String → String → Value → SystemSetting
new_row key description value = record {
  scope = scope;
  key = key;
  type = "object";
  value = value;
  enabled = true;
  description = description;
}

abbrev pub overwrite : Value → SystemSetting → SystemSetting
overwrite value row = record row { type = "object"; value = value; enabled = true }

-- The write of `_write_manifest` and of `_save_state`.
unfoldable pub write_row : String → String → Value → Option SystemSetting → Exec Db Unit
write_row key description value none = do add_setting (new_row key description value); pure tt
write_row key description value (some row) = update_setting scope key (overwrite value)

unfoldable pub save_value : String → String → Value → Exec Db Unit
unfolding write_row
save_value key description value = do row ← by_key scope key; write_row key description value row

abbrev pub manifest_value : List String → Value
manifest_value specs =
    Value.dict
      (Fields.field "packages" (Value.list (from_list (map (λ s. Value.str s) specs))) Fields.end)

-- `_write_manifest`
unfoldable pub write_manifest : List String → Exec Site Unit
unfolding save_value
write_manifest specs = on_tables (save_value manifest_key "自定义依赖清单" (manifest_value specs))

-- `_save_state`
unfoldable pub save_state : Fields → Exec Site Unit
unfolding save_value state
save_state new = do
  old ← state
  on_tables (save_value state_key "最近一次依赖安装结果" (Value.dict (update_fields old new)))

abbrev pub utc_now : Tools → Exec Site String
utc_now t w = (ok (t.now w.reads), record w { reads = w.reads + 1 })

-- `{"last_error": …, "last_sync_at": …}`
abbrev pub outcome_fields : String → String → Fields → Fields
outcome_fields error at rest =
    Fields.field "last_error" (Value.str error) (Fields.field "last_sync_at" (Value.str at) rest)

-- `self.registry.names()`
abbrev pub registry_names : ProviderRegistry → List String
registry_names r = sort_by (λ a b. codes_le (codes a) (codes b)) (map (λ p. p.0) r.providers)

-- `_reload_registry`: an exception leaves the registry as it was.
unfoldable pub reload_registry : Tools → Exec Site (List String)
reload_registry t w =
    maybe (t.reload w.distributions w.registry) (ok [], w)
      λ r. (ok (registry_names r), record w { registry = r })

-- `dependencies.install` and `uninstall`
unfoldable pub run_uv : Tools → Command → Exec Site UvOutcome
run_uv t command w =
    let (result, distributions) = t.uv command w.distributions in
    (
      ok (outcome_of t.show_int result),
      record w { distributions = distributions; commands = w.commands ++ command ∷ [] },
    )

-- `except DependencyError`
unfoldable pub after_uv : Tools → UvOutcome → Exec Site String
unfolding save_state
after_uv t (UvOutcome.failed error) = do
  at ← utc_now t
  save_state (outcome_fields error at Fields.end)
  raise Error.validation
after_uv t (UvOutcome.succeeded output) = pure output

unfoldable pub run_or_fail : Tools → Command → Exec Site String
unfolding run_uv after_uv
run_or_fail t command = do outcome ← run_uv t command; after_uv t outcome
