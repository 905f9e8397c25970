-- ===== src/Application/Dependencies.antt =====
-- app/application/services/dependency.py: the manifest of extra packages, and their installation.
-- Every method holds one lock while it changes anything, so a call is one step.
pub mod Manifest
pub mod Changes
pub mod Replay
pub mod Commands
pub mod Safety
use qiankun.Prelude.{
  ℕ, ◌+◌, String, Bool, true, false, not, ◌&&◌, Option, none, some, List, [], ◌∷◌, ◌++◌, map,
  str_eq, ◌==◌, maybe, is_some, if◌then◌else◌,
}
use qiankun.Prelude.Lists.{length, keep_if, any_of}
use qiankun.Prelude.Exec.{Error, Exec, ok, pure, raise, raise_if, gets, modify, ◌>>=◌, ◌>>◌}
use qiankun.Prelude.Json.{Value, Values, Fields, get_field, to_list, from_list, update_fields}
use qiankun.Prelude.Text.{fstring, join}
use qiankun.Prelude.Codes.{codes, same_codes, is_blank, strip, last_chars, codes_le, sort_by}
use qiankun.Runtime.Registry.{ProviderRegistry}
use qiankun.Infrastructure.Database.{SystemSetting, Db}
use qiankun.Infrastructure.Repositories.Settings.{by_key, add_setting, update_setting}
use qiankun.Infrastructure.Plugins.Dependencies.{
  Packaging, Distribution, Command, UvResult, UvOutcome, outcome_of, Description, describe,
  normalize, package_name, validate_specs, is_protected, installed_packages, lookup_name,
}
use qiankun.Application.Environment.{
  Site, Tools, scope, manifest_key, state_key, on_tables, to_text, packages_of, packages, state_of,
  state, new_row, overwrite, write_row, save_value, manifest_value, write_manifest, save_state,
  utc_now, outcome_fields, registry_names, reload_registry, run_uv, after_uv, run_or_fail,
}

-- `_merge`
unfoldable pub merge : List String → List String → List String
unfolding package_name
merge current incoming =
    keep_if (λ s. not (any_of (λ i. same_codes (package_name i) (package_name s)) incoming)) current
    ++ incoming

-- `f"{name} {previous} -> {current}"`
abbrev pub changed_version : Tools → List ℕ → Option String → Option String → Option String
changed_version t name (some previous) (some current) =
    if str_eq previous current
    then none
    else some (fstring (t.show_name name ∷ " " ∷ previous ∷ " -> " ∷ current ∷ []))
changed_version t name _ _ = none

-- `_changed_versions`
unfoldable pub changed_versions :
    Tools → List (List ℕ × String) → List (List ℕ × String) → List String → List String
unfolding package_name
changed_versions t before after [] = []
changed_versions t before after (spec ∷ specs) =
    maybe
      (changed_version t (package_name spec) (lookup_name (package_name spec) before)
        (lookup_name (package_name spec) after))
      (changed_versions t before after specs) (λ line. line ∷ changed_versions t before after specs)

-- The answer of `add` and of `remove`; `restart_required` is `none` where the dict has no such key.
pub record Snapshot : Type 0 where
  pub description : Description
  pub state : Fields
  pub reloaded_providers : List String
  pub restart_required : Option (List String)

abbrev pub texts_value : List String → Value
texts_value ts = Value.list (from_list (map (λ s. Value.str s) ts))

-- The end of a call that uv has carried out: the state, and the answer.
unfoldable pub finish :
    Tools → List String → List String → List String → Option (List String) → Exec Site Snapshot
unfolding save_state describe
finish t specs reloaded restart answered = do
  at ← utc_now t
  save_state
      (outcome_fields "" at (Fields.field "restart_required" (texts_value restart) Fields.end))
  distributions ← gets (λ w. w.distributions)
  now ← state
  pure (record {
    description = describe t.packaging distributions specs;
    state = now;
    reloaded_providers = reloaded;
    restart_required = answered;
  })

abbrev pub is_nil {ℓ} : {A : Type ℓ} → List A → Bool
is_nil [] = true
is_nil (_ ∷ _) = false

-- `[spec.strip() for spec in specs if spec.strip()]`
abbrev pub clean : List String → List String
clean specs = keep_if (λ s. not (is_blank s)) (map strip specs)

-- `add`, inside the lock, after the installation
unfoldable pub record_added :
    Tools → List String → List (List ℕ × String) → List String → Exec Site Snapshot
unfolding write_manifest reload_registry merge changed_versions installed_packages finish
record_added t current before cleaned = do
  write_manifest (merge current cleaned)
  reloaded ← reload_registry t
  after ← gets (λ w. installed_packages w.distributions)
  let restart = changed_versions t before after cleaned
  finish t (merge current cleaned) reloaded restart (some restart)

-- `add`, inside the lock
unfoldable pub add_cleaned : Tools → List String → Exec Site Snapshot
unfolding packages run_or_fail installed_packages record_added
add_cleaned t cleaned = do
  current ← packages t
  before ← gets (λ w. installed_packages w.distributions)
  run_or_fail t (Command.install cleaned)
  record_added t current before cleaned

-- `add`
unfoldable pub add : Tools → List String → Exec Site Snapshot
unfolding validate_specs add_cleaned
add t specs = do
  let cleaned = clean specs
  raise_if (is_nil cleaned) Error.validation
  raise_if (not (is_nil (validate_specs cleaned))) Error.validation
  add_cleaned t cleaned

-- `[spec for spec in current if package_name(spec) != spec_name]`
unfoldable pub without_package : List ℕ → List String → List String
unfolding package_name
without_package name specs = keep_if (λ s. not (same_codes (package_name s) name)) specs

-- `remove`, inside the lock, after the removal
unfoldable pub record_removed : Tools → List String → Exec Site Snapshot
unfolding write_manifest reload_registry finish
record_removed t rest = do
  write_manifest rest
  reloaded ← reload_registry t
  finish t rest reloaded [] none

-- `remove`, inside the lock
unfoldable pub remove_named : Tools → List ℕ → Exec Site Snapshot
unfolding packages run_or_fail without_package record_removed
remove_named t name = do
  current ← packages t
  raise_if (length (without_package name current) == length current) Error.validation
  run_or_fail t (Command.uninstall (name ∷ []))
  record_removed t (without_package name current)

-- `remove`
unfoldable pub remove : Tools → String → Exec Site Snapshot
unfolding is_protected package_name remove_named
remove t spec = do
  let name = package_name spec
  raise_if (is_nil name) Error.validation
  raise_if (is_protected name) Error.conflict
  remove_named t name

-- The answer of `sync`.
pub record Synced : Type 0 where
  pub installed : List String
  pub message : Option String
  pub output : Option String
  pub reloaded_providers : List String

abbrev pub nothing_to_do : String → Synced
nothing_to_do message = record {
  installed = [];
  message = some message;
  output = none;
  reloaded_providers = [];
}

-- The specs of the manifest whose package is not there.
unfoldable pub missing_specs : List Distribution → List String → List String
unfolding installed_packages package_name
missing_specs distributions specs =
    keep_if (λ s. not (is_some (lookup_name (package_name s) (installed_packages distributions))))
      specs

-- `sync` after the installation
unfoldable pub record_installed : Tools → List String → String → List String → Exec Site Synced
unfolding save_state
record_installed t missing output reloaded = do
  at ← utc_now t
  save_state (outcome_fields "" at (Fields.field "restart_required" (texts_value []) Fields.end))
  pure (record {
    installed = missing;
    message = none;
    output = some (last_chars 2000 output);
    reloaded_providers = reloaded;
  })

-- `sync` with something to install
unfoldable pub install_missing : Tools → List String → Exec Site Synced
unfolding run_or_fail reload_registry record_installed
install_missing t missing = do
  output ← run_or_fail t (Command.install missing)
  reloaded ← reload_registry t
  record_installed t missing output reloaded

-- `sync` with a manifest that validates
unfoldable pub sync_missing : Tools → List String → Exec Site Synced
unfolding install_missing
sync_missing t missing =
    if is_nil missing then pure (nothing_to_do "依赖已就绪") else install_missing t missing

-- `if problems` of `sync`
unfoldable pub refuse_manifest : Tools → List String → Exec Site Unit
unfolding save_state
refuse_manifest t [] = pure tt
refuse_manifest t (problem ∷ problems) = do
  at ← utc_now t
  save_state (outcome_fields (join "; " (problem ∷ problems)) at Fields.end)
  raise Error.validation

-- `sync` with a manifest that is not empty
unfoldable pub sync_specs : Tools → List String → Exec Site Synced
unfolding validate_specs refuse_manifest missing_specs sync_missing
sync_specs t current = do
  refuse_manifest t (validate_specs current)
  distributions ← gets (λ w. w.distributions)
  sync_missing t (missing_specs distributions current)

-- `sync`
unfoldable pub sync : Tools → Exec Site Synced
unfolding packages sync_specs
sync t = do
  current ← packages t
  if is_nil current then pure (nothing_to_do "清单为空") else sync_specs t current
