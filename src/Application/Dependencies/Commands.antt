-- ===== src/Application/Dependencies/Commands.antt =====
-- What add, remove and sync of dependency.py ask of uv: never a package of the program itself.
use qiankun.Prelude.{
  ℕ, ◌+◌, ◌≡◌, refl, String, Bool, true, false, not, Option, none, some, List, [], ◌∷◌,
  Option-cases, Bool-cases, inl, inr, ◌==◌,
}
use qiankun.Prelude.Lists.{All, All-append, length}
use qiankun.Prelude.Exec.{Error, Result, ok, err, Exec, raise_if, continue, ◌>>=◌, ◌>>◌}
use qiankun.Prelude.Json.{Fields}
use qiankun.Prelude.Codes.{strip, is_blank, codes}
use qiankun.Infrastructure.Repositories.Settings.{by_key}
use qiankun.Infrastructure.Plugins.Dependencies.{
  package_name, Command, UvOutcome, validate_specs, problem_of, matches_spec, is_protected,
  installed_packages,
}
use qiankun.Application.Environment.{
  Site, Tools, write_manifest, save_state, run_or_fail, run_uv, after_uv, reload_registry,
  outcome_fields, state,
}
use qiankun.Application.Dependencies.{
  merge, without_package, add, add_cleaned, record_added, remove, remove_named, record_removed,
  record_installed, finish, clean, is_nil, changed_versions, texts_value, Snapshot,
}
use qiankun.Application.Dependencies.Manifest.{packages-manifest_of, manifest_of, save_state-ok}

pub IsUnprotected : String → Type 0
unfolding is_protected package_name
IsUnprotected spec = is_protected (package_name (strip spec)) ≡ false

-- A command of uv names no package of `PROTECTED_PACKAGES`.
unfoldable pub SparesCore : Command → Type 0
SparesCore (Command.install specs) = All IsUnprotected specs
SparesCore (Command.uninstall names) = All (λ name. is_protected name ≡ false) names

-- A step after which every command so far still spares the core, if it did before.
pub record Spares {A : Type 0} (c : Exec Site A) (w : Site) : Type 0 where
  pub spares : All SparesCore w.commands → All SparesCore (c w).1.commands

pub >>=-Spares :
    {A B : Type 0} (c : Exec Site A) (f : A → Exec Site B) (w : Site)
    → Spares c w
    → ((a : A) → Spares (f a) (c w).1)
    → Spares (c >>= f) w
>>=-Spares {A} {B} c f w h rest = record {
  spares = λ s. go (c w).0 (c w).1 (h.spares s) (λ a. (rest a).spares);
}
  where
    go :
        (r : Result A) (v : Site)
        → All SparesCore v.commands
        → ((a : A) → All SparesCore v.commands → All SparesCore (f a v).1.commands)
        → All SparesCore (continue r f v).1.commands
    go (ok a) v s k = k a s
    go (err x) v s k = s

-- A guard of which the rest may use that it did not fire.
guarded-Spares :
    {A : Type 0} (b : Bool) (e : Error) (c : Exec Site A) (w : Site)
    → (b ≡ false → Spares c w)
    → Spares (raise_if b e >> c) w
guarded-Spares true e c w h = record { spares = λ s. s }
guarded-Spares false e c w h = record { spares = (h refl).spares }

pub reload_registry-Spares : (t : Tools) (w : Site) → Spares (reload_registry t) w
unfolding reload_registry
reload_registry-Spares t w = elim (Option-cases (t.reload w.distributions w.registry)) [
  | inl e ↦ record { spares = λ s. rw e s }
  | inr (r, e) ↦ record { spares = λ s. rw e s }
]

after_uv-Spares : (t : Tools) (o : UvOutcome) (w : Site) → Spares (after_uv t o) w
unfolding after_uv save_state by_key
after_uv-Spares t (UvOutcome.failed error) w =
    let v : Site = record w { reads = w.reads + 1 } in
    record {
      spares = λ s. rw (save_state-ok (outcome_fields error (t.now w.reads) Fields.end) v) s;
    }
after_uv-Spares t (UvOutcome.succeeded output) w = record { spares = λ s. s }

pub run_or_fail-Spares :
    (t : Tools) (command : Command) (w : Site)
    → SparesCore command
    → Spares (run_or_fail t command) w
unfolding run_or_fail run_uv
run_or_fail-Spares t command w safe =
    let after = after_uv-Spares t _ (run_uv t command w).1 in
    record {
      spares = λ s. after.spares (All-append SparesCore w.commands (command ∷ []) s (safe, tt));
    }

finish-Spares :
    (t : Tools) (specs reloaded restart : List String) (answered : Option (List String)) (w : Site)
    → Spares (finish t specs reloaded restart answered) w
unfolding finish save_state state by_key
finish-Spares t specs reloaded restart answered w =
    let v : Site = record w { reads = w.reads + 1 } in
    let new =
      outcome_fields "" (t.now w.reads)
        (Fields.field "restart_required" (texts_value restart) Fields.end) in
    record { spares = λ s. rw (save_state-ok new v) s }

pub record_installed-Spares :
    (t : Tools) (missing : List String) (output : String) (reloaded : List String) (w : Site)
    → Spares (record_installed t missing output reloaded) w
unfolding record_installed save_state by_key
record_installed-Spares t missing output reloaded w =
    let v : Site = record w { reads = w.reads + 1 } in
    let new =
      outcome_fields "" (t.now w.reads)
        (Fields.field "restart_required" (texts_value []) Fields.end) in
    record { spares = λ s. rw (save_state-ok new v) s }

-- What follows the write of the manifest.
rest-Spares :
    (t : Tools) (specs : List String) (w : Site) (f : List String → Exec Site Snapshot)
    → ((reloaded : List String) (v : Site) → Spares (f reloaded) v)
    → Spares (write_manifest specs >> (reload_registry t >>= f)) w
unfolding write_manifest
rest-Spares t specs w f h =
    >>=-Spares (write_manifest specs) (λ _. reload_registry t >>= f) w (record { spares = λ s. s })
      (λ _.
        >>=-Spares (reload_registry t) f _ (reload_registry-Spares t _) (λ reloaded. h reloaded _))

record_added-Spares :
    (t : Tools) (current : List String) (before : List (List ℕ × String)) (cleaned : List String)
    (w : Site)
    → Spares (record_added t current before cleaned) w
unfolding record_added
record_added-Spares t current before cleaned w =
    let new = merge current cleaned in
    let all =
      rest-Spares t new w
        (λ reloaded v.
          let restart = changed_versions t before (installed_packages v.distributions) cleaned in
          finish t new reloaded restart (some restart) v)
        (λ reloaded v.
          let restart = changed_versions t before (installed_packages v.distributions) cleaned in
          record { spares = (finish-Spares t new reloaded restart (some restart) v).spares }) in
    record { spares = all.spares }

record_removed-Spares :
    (t : Tools) (rest : List String) (w : Site) → Spares (record_removed t rest) w
unfolding record_removed
record_removed-Spares t rest w =
    let all =
      rest-Spares t rest w (λ reloaded. finish t rest reloaded [] none)
        (λ reloaded v. finish-Spares t rest reloaded [] none v) in
    record { spares = all.spares }

problem_of-none : (spec : String) → problem_of spec ≡ none → IsUnprotected spec
unfolding problem_of IsUnprotected
problem_of-none spec h = elim (Bool-cases (is_blank (strip spec))) [
  | inl e ↦ cc (let h' = rw e at h in h')
  | inr e ↦ elim (Bool-cases (matches_spec false (codes (strip spec)))) [
    | inl m ↦ elim (Bool-cases (is_protected (package_name (strip spec)))) [
      | inl p ↦ cc (let h' = rw (e, m, p) at h in h')
      | inr p ↦ p
    ]
    | inr m ↦ cc (let h' = rw (e, m) at h in h')
  ]
]

pub validate_specs-All : (specs : List String) → validate_specs specs ≡ [] → All IsUnprotected specs
unfolding validate_specs
validate_specs-All [] h = tt
validate_specs-All (s ∷ ss) h = elim (Option-cases (problem_of s)) [
  | inl e ↦ (problem_of-none s e, validate_specs-All ss (rw e at h))
  | inr (problem, e) ↦ cc (let h' = rw e at h in h')
]

is_nil→eq : (xs : List String) → not (is_nil xs) ≡ false → xs ≡ []
is_nil→eq [] h = refl
is_nil→eq (x ∷ xs) h = cc

add_cleaned-Spares :
    (t : Tools) (cleaned : List String) (w : Site)
    → All IsUnprotected cleaned
    → Spares (add_cleaned t cleaned) w
unfolding add_cleaned SparesCore
add_cleaned-Spares t cleaned w safe =
    let current = manifest_of t w in
    let before = installed_packages w.distributions in
    let all =
      >>=-Spares (run_or_fail t (Command.install cleaned))
        (λ _. record_added t current before cleaned) w
        (run_or_fail-Spares t (Command.install cleaned) w safe)
        (λ _. record_added-Spares t current before cleaned _) in
    record { spares = rw (packages-manifest_of t w) all.spares }

pub add-Spares : (t : Tools) (specs : List String) (w : Site) → Spares (add t specs) w
unfolding add
add-Spares t specs w =
    let cleaned = clean specs in
    let problems = not (is_nil (validate_specs cleaned)) in
    let all =
      guarded-Spares (is_nil cleaned) Error.validation
        (raise_if problems Error.validation >> add_cleaned t cleaned) w
        (λ _.
          guarded-Spares problems Error.validation (add_cleaned t cleaned) w
            (λ e. add_cleaned-Spares t cleaned w (validate_specs-All cleaned (is_nil→eq _ e)))) in
    record { spares = all.spares }

remove_named-Spares :
    (t : Tools) (name : List ℕ) (w : Site)
    → is_protected name ≡ false
    → Spares (remove_named t name) w
unfolding remove_named SparesCore
remove_named-Spares t name w safe =
    let current = manifest_of t w in
    let rest = without_package name current in
    let command = Command.uninstall (name ∷ []) in
    let all =
      guarded-Spares (length rest == length current) Error.validation
        (run_or_fail t command >> record_removed t rest) w
        (λ _.
          >>=-Spares (run_or_fail t command) (λ _. record_removed t rest) w
            (run_or_fail-Spares t command w (safe, tt)) (λ _. record_removed-Spares t rest _)) in
    record { spares = rw (packages-manifest_of t w) all.spares }

pub remove-Spares : (t : Tools) (spec : String) (w : Site) → Spares (remove t spec) w
unfolding remove
remove-Spares t spec w =
    let name = package_name spec in
    let all =
      guarded-Spares (is_nil name) Error.validation
        (raise_if (is_protected name) Error.conflict >> remove_named t name) w
        (λ _.
          guarded-Spares (is_protected name) Error.conflict (remove_named t name) w
            (remove_named-Spares t name w)) in
    record { spares = all.spares }
