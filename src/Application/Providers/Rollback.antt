-- ===== src/Application/Providers/Rollback.antt =====
-- `update` of provider.py: the new source, or on any failure the old one.
use qiankun.Prelude.{
  ◌≡◌, refl, ◌∙◌, String, true, not, [], maybe, Option-cases, Bool-cases, inl, inr,
}
use qiankun.Prelude.Exec.{
  Error, Result, ok, err, Exec, pure, raise_if, >>=-Preserves, raise_if-Preserves, ◌>>=◌, ◌>>◌,
}
use qiankun.Infrastructure.Plugins.Store.{
  Directories, is_reserved, is_provider_name, validate_name, main_of, read,
}
use qiankun.Runtime.Registry.{lookup_text, has_provider}
use qiankun.Application.Providers.{
  Plugins, Loader, Descriptor, on_files, activate, reload_registry, safe_read, or_empty, has_issues,
}

pub read-files : (name : String) (files : Directories) → (read name files).1 ≡ files
unfolding read validate_name
read-files name files = elim (Bool-cases (is_reserved name)) [
  | inl e ↦ rw e refl
  | inr e ↦ elim (Bool-cases (is_provider_name name)) [
    | inr i ↦ rw (e, i) refl
    | inl i ↦ elim (Option-cases (main_of name files)) [
      | inl m ↦ rw (e, i, m) refl
      | inr (text, m) ↦ rw (e, i, m) refl
    ]
  ]
]

or_empty-files : (r : Result String) (files : Directories) → (or_empty r files).1 ≡ files
or_empty-files (ok text) files = refl
or_empty-files (err Error.not_found) files = refl
or_empty-files (err Error.validation) files = refl
or_empty-files (err Error.conflict) files = refl
or_empty-files (err Error.app_error) files = refl
or_empty-files (err Error.auth) files = refl
or_empty-files (err Error.forbidden) files = refl
or_empty-files (err Error.runtime_initialization) files = refl
or_empty-files (err Error.unexpected) files = refl
or_empty-files (err Error.cancelled) files = refl
or_empty-files (err Error.out_of_fuel) files = refl

pub safe_read-files : (name : String) (files : Directories) → (safe_read name files).1 ≡ files
unfolding safe_read
safe_read-files name files =
    let (r, after) = read name files in or_empty-files r after ∙ read-files name files

pub activate-files :
    (l : Loader) (name : String) (p : Plugins) → (activate l name p).1.files ≡ p.files
unfolding activate reload_registry
activate-files l name p =
    let HasFiles : Plugins → Type 0 = λ q. q.files ≡ p.files in
    let q = (reload_registry l p).1 in
    let entry : String → Exec Plugins Descriptor =
      λ code. pure (record { name = name; valid = true; issues = []; code = code }) in
    let last =
      >>=-Preserves HasFiles (on_files (safe_read name)) entry q
        (record { preserved = λ e. safe_read-files name q.files ∙ e })
        (λ code. record { preserved = λ e. e }) in
    let loaded =
      raise_if-Preserves HasFiles (not (has_provider q.registry name)) Error.validation
        (on_files (safe_read name) >>= entry) q (λ _. last) in
    let issues = maybe (lookup_text name q.registry.issues) [] (λ issues. issues) in
    let all =
      raise_if-Preserves HasFiles (has_issues issues) Error.validation
        (λ v.
          (raise_if (not (has_provider v.registry name)) Error.validation
              >> (on_files (safe_read name) >>= entry))
            v)
        q (λ _. record { preserved = loaded.preserved }) in
    all.preserved refl
