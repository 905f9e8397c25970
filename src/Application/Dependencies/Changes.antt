-- ===== src/Application/Dependencies/Changes.antt =====
-- What a call of add, remove or sync of dependency.py does to the manifest.
use qiankun.Prelude.{
  ℕ, ◌+◌, ◌≡◌, refl, sym, ap, ◌∙◌, String, Bool, true, false, not, none, some, List, [], ◌∷◌,
  if◌then◌else◌, Option-cases, inl, inr, ◌==◌,
}
use qiankun.Prelude.Lists.{length}
use qiankun.Prelude.Exec.{
  Error, Result, ok, err, is_ok, Exec, pure, raise_if, continue, ◌>>=◌, ◌>>◌,
}
use qiankun.Prelude.Text.{join}
use qiankun.Prelude.Json.{Fields}
use qiankun.Infrastructure.Plugins.Dependencies.{
  package_name, Command, validate_specs, is_protected, installed_packages,
}
use qiankun.Application.Environment.{
  Site, Tools, write_manifest, run_or_fail, reload_registry, outcome_fields, registry_names,
}
use qiankun.Application.Dependencies.{
  merge, without_package, add, add_cleaned, record_added, remove, remove_named, record_removed,
  sync, sync_specs, sync_missing, install_missing, record_installed, refuse_manifest, finish, clean,
  is_nil, missing_specs, changed_versions, Synced, texts_value, nothing_to_do,
}
use qiankun.Application.Dependencies.Manifest.{
  manifest_of, packages-manifest_of, write_manifest-manifest_of, write_manifest-ok, Keeps,
  run_or_fail-Keeps, reload_registry-Keeps, save_state-Keeps, >>=-Keeps, save_state-ok,
  finish-Closes,
}

-- A call changes the manifest by `f` where it returns, and not at all where it raises.
pub record Changes {A : Type 0} (t : Tools) (c : Exec Site A) (f : List String → List String)
    (w : Site) : Type 0 where
  pub changed :
      manifest_of t (c w).1 ≡ (if is_ok (c w).0 then f (manifest_of t w) else manifest_of t w)

-- A call is followed by another after a first step that leaves the manifest alone.
after-Changes :
    {A B : Type 0} (t : Tools) (r : Result A) (d : A → Exec Site B) (f : List String → List String)
    (w v : Site)
    → manifest_of t v ≡ manifest_of t w
    → ((a : A) → Changes t (d a) f v)
    → Changes t (λ (_ : Site). continue r d v) f w
after-Changes t (ok a) d f w v e h = record {
  changed = (h a).changed ∙ ap (λ m. if is_ok (d a v).0 then f m else m) e;
}
after-Changes t (err x) d f w v e h = record { changed = e }

closing :
    {A : Type 0} (r : Result A) (v w : Site) (t : Tools) (new : List String)
    (f : List String → List String)
    → is_ok r ≡ true
    → manifest_of t v ≡ new
    → new ≡ f (manifest_of t w)
    → manifest_of t v ≡ (if is_ok r then f (manifest_of t w) else manifest_of t w)
closing r v w t new f e m h = rw e (m ∙ h)

pub reload_registry-ok :
    (t : Tools) (w : Site) → (a : List String) × ((reload_registry t w).0 ≡ ok a)
unfolding reload_registry
reload_registry-ok t w = elim (Option-cases (t.reload w.distributions w.registry)) [
  | inl e ↦ ([], rw e refl)
  | inr (r, e) ↦ (registry_names r, rw e refl)
]

record_added-Changes :
    (t : Tools) (current : List String) (before : List (List ℕ × String)) (cleaned : List String)
    (w : Site)
    → current ≡ manifest_of t w
    → Changes t (record_added t current before cleaned) (λ m. merge m cleaned) w
unfolding record_added
record_added-Changes t current before cleaned w e =
    let new = merge current cleaned in
    let v = (write_manifest new w).1 in
    let u = (reload_registry t v).1 in
    let (names, named) = reload_registry-ok t v in
    let restart = changed_versions t before (installed_packages u.distributions) cleaned in
    let end = finish-Closes t new names restart (some restart) u in
    let last = finish t new names restart (some restart) u in
    record {
      changed =
          rw (write_manifest-ok new w, named)
            (closing last.0 last.1 w t new (λ m. merge m cleaned) end.closes
              (end.kept ∙ ((reload_registry-Keeps t v).kept ∙ write_manifest-manifest_of t new w))
              (ap (λ m. merge m cleaned) e));
    }

record_removed-Changes :
    (t : Tools) (name : List ℕ) (rest : List String) (w : Site)
    → rest ≡ without_package name (manifest_of t w)
    → Changes t (record_removed t rest) (without_package name) w
unfolding record_removed
record_removed-Changes t name rest w e =
    let v = (write_manifest rest w).1 in
    let u = (reload_registry t v).1 in
    let (names, named) = reload_registry-ok t v in
    let end = finish-Closes t rest names [] none u in
    let last = finish t rest names [] none u in
    record {
      changed =
          rw (write_manifest-ok rest w, named)
            (closing last.0 last.1 w t rest (without_package name) end.closes
              (end.kept ∙ ((reload_registry-Keeps t v).kept ∙ write_manifest-manifest_of t rest w))
              e);
    }

add_cleaned-Changes :
    (t : Tools) (cleaned : List String) (w : Site)
    → Changes t (add_cleaned t cleaned) (λ m. merge m cleaned) w
unfolding add_cleaned
add_cleaned-Changes t cleaned w =
    let current = manifest_of t w in
    let before = installed_packages w.distributions in
    let ran = run_or_fail t (Command.install cleaned) w in
    let kept = (run_or_fail-Keeps t (Command.install cleaned) w).kept in
    let all =
      after-Changes t ran.0 (λ _. record_added t current before cleaned) (λ m. merge m cleaned) w
        ran.1 kept (λ _. record_added-Changes t current before cleaned ran.1 (sym kept)) in
    record { changed = rw (packages-manifest_of t w) all.changed }

guarded-Changes :
    {A : Type 0} (t : Tools) (b : Bool) (e : Error) (c : Exec Site A)
    (f : List String → List String) (w : Site)
    → Changes t c f w
    → Changes t (raise_if b e >> c) f w
guarded-Changes t true e c f w h = record { changed = refl }
guarded-Changes t false e c f w h = record { changed = h.changed }

pub add-Changes :
    (t : Tools) (specs : List String) (w : Site)
    → Changes t (add t specs) (λ m. merge m (clean specs)) w
unfolding add
add-Changes t specs w =
    let cleaned = clean specs in
    let inner =
      guarded-Changes t (not (is_nil (validate_specs cleaned))) Error.validation
        (add_cleaned t cleaned) (λ m. merge m cleaned) w (add_cleaned-Changes t cleaned w) in
    let outer =
      guarded-Changes t (is_nil cleaned) Error.validation _ (λ m. merge m cleaned) w inner in
    record { changed = outer.changed }

remove_named-Changes :
    (t : Tools) (name : List ℕ) (w : Site)
    → Changes t (remove_named t name) (without_package name) w
unfolding remove_named
remove_named-Changes t name w =
    let rest = without_package name (manifest_of t w) in
    let command = Command.uninstall (name ∷ []) in
    let ran = run_or_fail t command w in
    let kept = (run_or_fail-Keeps t command w).kept in
    let removed =
      after-Changes t ran.0 (λ _. record_removed t rest) (without_package name) w ran.1 kept
        (λ _. record_removed-Changes t name rest ran.1 (ap (without_package name) (sym kept))) in
    let guarded =
      guarded-Changes t (length rest == length (manifest_of t w)) Error.validation
        (run_or_fail t command >> record_removed t rest) (without_package name) w
        (record { changed = removed.changed }) in
    record { changed = rw (packages-manifest_of t w) guarded.changed }

pub remove-Changes :
    (t : Tools) (spec : String) (w : Site)
    → Changes t (remove t spec) (without_package (package_name spec)) w
unfolding remove
remove-Changes t spec w =
    let name = package_name spec in
    let inner =
      guarded-Changes t (is_protected name) Error.conflict (remove_named t name)
        (without_package name) w (remove_named-Changes t name w) in
    let outer = guarded-Changes t (is_nil name) Error.validation _ (without_package name) w inner in
    record { changed = outer.changed }

refuse_manifest-Keeps :
    (t : Tools) (problems : List String) (w : Site) → Keeps t (refuse_manifest t problems) w
unfolding refuse_manifest
refuse_manifest-Keeps t [] w = record { kept = refl }
refuse_manifest-Keeps t (p ∷ ps) w =
    let v : Site = record w { reads = w.reads + 1 } in
    let new = outcome_fields (join "; " (p ∷ ps)) (t.now w.reads) Fields.end in
    record { kept = rw (save_state-ok new v) (save_state-Keeps t new v).kept }

installed-Keeps :
    (t : Tools) (missing : List String) (output : String) (reloaded : List String) (w : Site)
    → Keeps t (record_installed t missing output reloaded) w
unfolding record_installed
installed-Keeps t missing output reloaded w =
    let v : Site = record w { reads = w.reads + 1 } in
    let new =
      outcome_fields "" (t.now w.reads)
        (Fields.field "restart_required" (texts_value []) Fields.end) in
    record { kept = rw (save_state-ok new v) (save_state-Keeps t new v).kept }

install_missing-Keeps :
    (t : Tools) (missing : List String) (w : Site) → Keeps t (install_missing t missing) w
unfolding install_missing
install_missing-Keeps t missing w =
    let all =
      >>=-Keeps t
        {f = λ output. reload_registry t >>= λ reloaded. record_installed t missing output reloaded}
        (run_or_fail-Keeps t (Command.install missing) w)
        (λ output.
          >>=-Keeps t {f = λ reloaded. record_installed t missing output reloaded}
            (reload_registry-Keeps t (run_or_fail t (Command.install missing) w).1)
            (λ reloaded. installed-Keeps t missing output reloaded _)) in
    record { kept = all.kept }

sync_missing-Keeps :
    (t : Tools) (missing : List String) (w : Site) → Keeps t (sync_missing t missing) w
unfolding sync_missing
sync_missing-Keeps t [] w = record { kept = refl }
sync_missing-Keeps t (m ∷ ms) w = record { kept = (install_missing-Keeps t (m ∷ ms) w).kept }

sync_specs-Keeps : (t : Tools) (current : List String) (w : Site) → Keeps t (sync_specs t current) w
unfolding sync_specs
sync_specs-Keeps t current w =
    let rest : Site → Exec Site Synced =
      λ v. sync_missing t (missing_specs v.distributions current) in
    let all =
      >>=-Keeps t {f = λ _ v. rest v v} (refuse_manifest-Keeps t (validate_specs current) w) (λ _.
        let k = sync_missing-Keeps t _ (refuse_manifest t (validate_specs current) w).1 in
        record { kept = k.kept }) in
    record { kept = all.kept }

not_empty-Keeps :
    (t : Tools) (current : List String) (w : Site)
    → Keeps t (if is_nil current then pure (nothing_to_do "清单为空") else sync_specs t current) w
not_empty-Keeps t [] w = record { kept = refl }
not_empty-Keeps t (s ∷ ss) w = record { kept = (sync_specs-Keeps t (s ∷ ss) w).kept }

pub sync-Keeps : (t : Tools) (w : Site) → Keeps t (sync t) w
unfolding sync
sync-Keeps t w = record {
  kept = rw (packages-manifest_of t w) (not_empty-Keeps t (manifest_of t w) w).kept;
}
