-- ===== src/Application/Providers/Names.antt =====
-- Which directories provider.py can change: those with the name of a provider, and no others.
use qiankun.Prelude.{
  ◌≡◌, refl, ap, sym, ◌∙◌, subst, String, Bool, true, false, not, ◌&&◌, Option, str_eq, is_some,
  Option-cases, Bool-cases, inl, inr, ◌==◌,
}
use qiankun.Prelude.Exec.{
  Error, Result, ok, err, Exec, raise, raise_if, Preserves, >>=-Preserves, raise_if-Preserves,
  ◌>>=◌, ◌>>◌,
}
use qiankun.Infrastructure.Plugins.Store.{
  Disk, Directory, Directories, is_reserved, is_provider_name, validate_name, main_of, exists, read,
  write, delete as delete_source, make_package,
}
use qiankun.Infrastructure.Plugins.Store.Lookup.{
  str_eq→eq, lookup_text-set_text_ne, lookup_text-remove_text_ne,
}
use qiankun.Runtime.Registry.{lookup_text}
use qiankun.Application.Providers.{
  Plugins, Loader, Descriptor, on_files, create, update, delete, activate, activate_or_restore,
  or_restore, load_registry, count_tasks,
}
use qiankun.Application.Providers.Rollback.{activate-files, read-files}

-- A directory name that the store accepts.
abbrev pub may_hold_provider : String → Bool
may_hold_provider name = not (is_reserved name) && is_provider_name name

-- The accepted names differ from every other name.
differs :
    (name other : String)
    → is_reserved name ≡ false
    → is_provider_name name ≡ true
    → may_hold_provider other ≡ false
    → str_eq name other ≡ false
differs name other e i bad = elim (Bool-cases (str_eq name other)) [
  | inr miss ↦ miss
  | inl hit ↦
      let bad' : may_hold_provider name ≡ false =
        subst (λ o. may_hold_provider o ≡ false) (sym (str_eq→eq name other hit)) bad in
      cc (let h : true ≡ false = rw (e, i) at bad' in h)
]

write-lookup_text :
    (disk : Disk) (name text other : String) (files : Directories)
    → may_hold_provider other ≡ false
    → lookup_text other (write disk name text files).1 ≡ lookup_text other files
unfolding write validate_name
write-lookup_text disk name text other files bad = elim (Bool-cases (is_reserved name)) [
  | inl e ↦ rw e refl
  | inr e ↦ elim (Bool-cases (is_provider_name name)) [
    | inr i ↦ rw (e, i) refl
    | inl i ↦
        let ne = differs name other e i bad in
        let made = lookup_text-set_text_ne name other _ files ne in
        elim (Bool-cases (disk.parse text)) [
          | inr s ↦ rw (e, i, s) refl
          | inl s ↦ elim (Bool-cases (disk.writes name text)) [
            | inr w ↦ rw (e, i, s, w) made
            | inl w ↦
                rw (e, i, s, w)
                  (lookup_text-set_text_ne name other _ (make_package name files) ne ∙ made)
          ]
        ]
  ]
]

delete_source-lookup_text :
    (name other : String) (files : Directories)
    → may_hold_provider other ≡ false
    → lookup_text other (delete_source name files).1 ≡ lookup_text other files
unfolding delete_source validate_name
delete_source-lookup_text name other files bad = elim (Bool-cases (is_reserved name)) [
  | inl e ↦ rw e refl
  | inr e ↦ elim (Bool-cases (is_provider_name name)) [
    | inr i ↦ rw (e, i) refl
    | inl i ↦ elim (Option-cases (lookup_text name files)) [
      | inl d ↦ rw (e, i, d) refl
      | inr (d, there) ↦
          rw (e, i, there)
            (lookup_text-remove_text_ne name other files (differs name other e i bad))
    ]
  ]
]

-- A step that does not touch one directory.
module _ (l : Loader) (other : String) (before : Option Directory)
    (bad : may_hold_provider other ≡ false) where
  unfoldable pub Untouched : Plugins → Type 0
  Untouched p = lookup_text other p.files ≡ before

  write-Untouched :
      (name text : String) (p : Plugins) → Preserves Untouched (on_files (write l.disk name text)) p
  unfolding Untouched
  write-Untouched name text p = record {
    preserved = λ u. write-lookup_text l.disk name text other p.files bad ∙ u;
  }

  activate-Untouched : (name : String) (p : Plugins) → Preserves Untouched (activate l name) p
  unfolding Untouched
  activate-Untouched name p = record {
    preserved = λ u. ap (λ f. lookup_text other f) (activate-files l name p) ∙ u;
  }

  or_restore-Untouched :
      (name previous : String) (r : Result Descriptor) (p : Plugins)
      → Preserves Untouched (or_restore l name previous r) p
  unfolding Untouched or_restore load_registry
  or_restore-Untouched name previous (ok entry) p = record { preserved = λ u. u }
  or_restore-Untouched name previous (err e) p =
      let rest : Exec Plugins Descriptor = load_registry l >> raise e in
      let all =
        >>=-Preserves Untouched (on_files (write l.disk name previous)) (λ _. rest) p
          (write-Untouched name previous p) (λ _. record { preserved = λ u. u }) in
      record { preserved = all.preserved }

  pub create-Untouched :
      (name code : String) (p : Plugins) → Preserves Untouched (create l name code) p
  unfolding Untouched create exists
  create-Untouched name code p =
      let all =
        raise_if-Preserves Untouched (is_some (main_of name p.files)) Error.conflict
          (on_files (write l.disk name code) >> activate l name) p
          (λ _.
            >>=-Preserves Untouched (on_files (write l.disk name code)) (λ _. activate l name) p
              (write-Untouched name code p) (λ _. activate-Untouched name _)) in
      record { preserved = all.preserved }

  activate_or_restore-Untouched :
      (name previous : String) (p : Plugins)
      → Preserves Untouched (activate_or_restore l name previous) p
  unfolding Untouched activate_or_restore
  activate_or_restore-Untouched name previous p =
      let (r, q) = activate l name p in
      record {
        preserved = λ u.
            (or_restore-Untouched name previous r q).preserved
              ((activate-Untouched name p).preserved u);
      }

  pub update-Untouched :
      (name code : String) (p : Plugins) → Preserves Untouched (update l name code) p
  unfolding Untouched update exists
  update-Untouched name code p =
      let written : String → Exec Plugins Descriptor =
        λ previous. on_files (write l.disk name code) >> activate_or_restore l name previous in
      let all =
        raise_if-Preserves Untouched (not (is_some (main_of name p.files))) Error.not_found
          (on_files (read name) >>= written) p
          (λ _.
            >>=-Preserves Untouched (on_files (read name)) written p
              (record {
                preserved = λ u. ap (λ f. lookup_text other f) (read-files name p.files) ∙ u;
              })
              (λ previous.
                >>=-Preserves Untouched (on_files (write l.disk name code))
                  (λ _. activate_or_restore l name previous) _ (write-Untouched name code _)
                  (λ _. activate_or_restore-Untouched name previous _))) in
      record { preserved = all.preserved }

  pub delete-Untouched : (name : String) (p : Plugins) → Preserves Untouched (delete l name) p
  unfolding Untouched delete exists load_registry
  delete-Untouched name p =
      let last =
        >>=-Preserves Untouched (on_files (delete_source name)) (λ _. load_registry l) p
          (record { preserved = λ u. delete_source-lookup_text name other p.files bad ∙ u })
          (λ _. record { preserved = λ u. u }) in
      let used =
        raise_if-Preserves Untouched (not (count_tasks name p.tasks == 0)) Error.conflict
          (on_files (delete_source name) >> load_registry l) p (λ _. last) in
      let there =
        raise_if-Preserves Untouched (not (is_some (main_of name p.files))) Error.not_found
          (λ v.
            (raise_if (not (count_tasks name v.tasks == 0)) Error.conflict
                >> (on_files (delete_source name) >> load_registry l))
              v)
          p (λ _. record { preserved = used.preserved }) in
      let all =
        raise_if-Preserves Untouched (is_reserved name) Error.conflict
          (λ v.
            (raise_if (not (is_some (main_of name v.files))) Error.not_found >> (λ v.
                (raise_if (not (count_tasks name v.tasks == 0)) Error.conflict
                    >> (on_files (delete_source name) >> load_registry l))
                  v))
              v)
          p (λ _. record { preserved = there.preserved }) in
      record { preserved = all.preserved }
