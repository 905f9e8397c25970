-- ===== src/Application/Dependencies/Manifest.antt =====
-- The manifest of dependency.py as a function from package names to specs.
use qiankun.Prelude.{
  ◌+◌, ◌≡◌, refl, ap, ◌∙◌, String, true, false, Option, none, some, List, [], ◌∷◌, str_eq, maybe,
  Option-cases, inl, inr,
}
use qiankun.Prelude.Exec.{Error, Result, ok, err, is_ok, Exec, raise, continue, ◌>>=◌}
use qiankun.Prelude.Json.{Value, Fields}
use qiankun.Infrastructure.Database.{SystemSetting, Db}
use qiankun.Infrastructure.Repositories.Settings.{
  has_key, find_setting, by_key, add_setting, update_setting,
}
use qiankun.Infrastructure.Repositories.Settings.Lookup.{
  has_key_self, has_key_ne, find_setting-change_setting_self, find_setting-change_setting_ne,
  find_setting-append_self, find_setting-append_ne,
}
use qiankun.Infrastructure.Plugins.Dependencies.{Command, UvOutcome}
use qiankun.Application.Environment.{
  Site, Tools, scope, manifest_key, state_key, packages_of, packages, save_value, write_row,
  new_row, overwrite, manifest_value, write_manifest, save_state, state, run_or_fail, run_uv,
  after_uv, reload_registry, outcome_fields,
}
use qiankun.Application.Dependencies.{finish, texts_value}

-- The value of one row of this scope.
abbrev pub value_at : String → Db → Option Value
value_at key db = maybe (find_setting scope key db.settings) none (λ r. some r.value)

new_row-has_key :
    (key description : String) (v : Value) → has_key scope key (new_row key description v) ≡ true
new_row-has_key key description v = has_key_self scope key (new_row key description v) refl refl

save_value-value_at :
    (key description : String) (v : Value) (db : Db)
    → value_at key (save_value key description v db).1 ≡ some v
unfolding save_value by_key write_row add_setting update_setting
save_value-value_at key description v db =
    elim (Option-cases (find_setting scope key db.settings)) [
      | inl e ↦ rw e (
          ap (λ (o : Option SystemSetting). maybe o none (λ r. some r.value))
            (find_setting-append_self scope key (new_row key description v) db.settings
              (new_row-has_key key description v) e))
      | inr (row, e) ↦ rw e (
          ap (λ (o : Option SystemSetting). maybe o none (λ r. some r.value))
            (find_setting-change_setting_self scope key (overwrite v) row db.settings
              (λ r. (refl, refl)) e))
    ]

save_value-value_at_ne :
    (key key' description : String) (v : Value) (db : Db)
    → str_eq key key' ≡ false
    → str_eq key' key ≡ false
    → value_at key (save_value key' description v db).1 ≡ value_at key db
unfolding save_value by_key write_row add_setting update_setting
save_value-value_at_ne key key' description v db ne ne' =
    elim (Option-cases (find_setting scope key' db.settings)) [
      | inl e ↦ rw e (
          ap (λ (o : Option SystemSetting). maybe o none (λ r. some r.value))
            (find_setting-append_ne scope key (new_row key' description v) db.settings (
              has_key_ne scope key' key (new_row key' description v) ne'
                (new_row-has_key key' description v))))
      | inr (row, e) ↦ rw e (
          ap (λ (o : Option SystemSetting). maybe o none (λ r. some r.value))
            (find_setting-change_setting_ne scope key key' (overwrite v) db.settings
              (λ r. (refl, refl)) ne))
    ]

-- The specs that `_packages` reads.
abbrev pub manifest_of : Tools → Site → List String
manifest_of t w = maybe (value_at manifest_key w.db) [] (packages_of t.show)

pub packages-manifest_of : (t : Tools) (w : Site) → packages t w ≡ (ok (manifest_of t w), w)
unfolding packages by_key
packages-manifest_of t w = elim (Option-cases (find_setting scope manifest_key w.db.settings)) [
  | inl e ↦ rw e refl
  | inr (row, e) ↦ rw e refl
]

read_back :
    (show : Value → String) (specs : List String) → packages_of show (manifest_value specs) ≡ specs
read_back show [] = refl
read_back show (s ∷ specs) = ap (λ rest. s ∷ rest) (read_back show specs)

-- What is written is what is read back.
pub write_manifest-manifest_of :
    (t : Tools) (specs : List String) (w : Site) → manifest_of t (write_manifest specs w).1 ≡ specs
unfolding write_manifest
write_manifest-manifest_of t specs w =
    ap (λ (o : Option Value). maybe o [] (packages_of t.show))
      (save_value-value_at manifest_key "自定义依赖清单" (manifest_value specs) w.db)
    ∙ read_back t.show specs

-- A step that leaves the manifest alone, whether it returns or raises.
pub record Keeps {A : Type 0} (t : Tools) (c : Exec Site A) (w : Site) : Type 0 where
  pub kept : manifest_of t (c w).1 ≡ manifest_of t w

pub >>=-Keeps :
    {A B : Type 0} (t : Tools) {c : Exec Site A} {f : A → Exec Site B} {w : Site}
    → Keeps t c w
    → ((a : A) → Keeps t (f a) (c w).1)
    → Keeps t (c >>= f) w
>>=-Keeps {A} {B} t {c} {f} {w} k rest = record {
  kept = go (c w).0 (c w).1 k.kept (λ a. (rest a).kept);
}
  where
    go :
        (r : Result A) (v : Site)
        → manifest_of t v ≡ manifest_of t w
        → ((a : A) → manifest_of t (f a v).1 ≡ manifest_of t v)
        → manifest_of t (continue r f v).1 ≡ manifest_of t w
    go (ok a) v e h = h a ∙ e
    go (err x) v e h = e

pub save_state-Keeps : (t : Tools) (new : Fields) (w : Site) → Keeps t (save_state new) w
unfolding save_state state by_key
save_state-Keeps t new w = record {
  kept =
      ap (λ (o : Option Value). maybe o [] (packages_of t.show))
        (save_value-value_at_ne manifest_key state_key "最近一次依赖安装结果" _ w.db refl refl);
}

after_uv-Keeps : (t : Tools) (o : UvOutcome) (w : Site) → Keeps t (after_uv t o) w
unfolding after_uv
after_uv-Keeps t (UvOutcome.failed error) w =
    let at = t.now w.reads in
    let v : Site = record w { reads = w.reads + 1 } in
    let saved = save_state-Keeps t (outcome_fields error at Fields.end) v in
    let both =
      >>=-Keeps t {f = λ _. raise {A = String} Error.validation} saved
        (λ _. record { kept = refl }) in
    record { kept = both.kept }
after_uv-Keeps t (UvOutcome.succeeded output) w = record { kept = refl }

pub run_or_fail-Keeps :
    (t : Tools) (command : Command) (w : Site) → Keeps t (run_or_fail t command) w
unfolding run_or_fail run_uv
run_or_fail-Keeps t command w =
    let ran = after_uv-Keeps t _ (run_uv t command w).1 in record { kept = ran.kept }

pub reload_registry-Keeps : (t : Tools) (w : Site) → Keeps t (reload_registry t) w
unfolding reload_registry
reload_registry-Keeps t w = elim (Option-cases (t.reload w.distributions w.registry)) [
  | inl e ↦ record { kept = rw e refl }
  | inr (r, e) ↦ record { kept = rw e refl }
]

save_value-ok :
    (key description : String) (v : Value) (db : Db) → (save_value key description v db).0 ≡ ok tt
unfolding save_value by_key write_row add_setting update_setting
save_value-ok key description v db = elim (Option-cases (find_setting scope key db.settings)) [
  | inl e ↦ rw e refl
  | inr (row, e) ↦ rw e refl
]

pub save_state-ok : (new : Fields) (w : Site) → (save_state new w).0 ≡ ok tt
unfolding save_state state by_key
save_state-ok new w = save_value-ok state_key "最近一次依赖安装结果" _ w.db

pub write_manifest-ok : (specs : List String) (w : Site) → (write_manifest specs w).0 ≡ ok tt
unfolding write_manifest
write_manifest-ok specs w = save_value-ok manifest_key "自定义依赖清单" (manifest_value specs) w.db

-- The end of a call returns, and leaves the manifest alone.
pub record Closes {A : Type 0} (t : Tools) (c : Exec Site A) (w : Site) : Type 0 where
  pub closes : is_ok (c w).0 ≡ true
  pub kept : manifest_of t (c w).1 ≡ manifest_of t w

pub finish-Closes :
    (t : Tools) (specs reloaded restart : List String) (answered : Option (List String)) (w : Site)
    → Closes t (finish t specs reloaded restart answered) w
unfolding finish state by_key
finish-Closes t specs reloaded restart answered w =
    let v : Site = record w { reads = w.reads + 1 } in
    let new =
      outcome_fields "" (t.now w.reads)
        (Fields.field "restart_required" (texts_value restart) Fields.end) in
    record {
      closes = rw (save_state-ok new v) refl;
      kept = rw (save_state-ok new v) (save_state-Keeps t new v).kept;
    }
