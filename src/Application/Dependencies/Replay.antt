-- ===== src/Application/Dependencies/Replay.antt =====
-- A run of add, remove and sync of dependency.py against an abstract manifest: a function from
-- package names to the specs that name the package.
use mathlib.Core.Path.{fun_ext}
use qiankun.Prelude.{
  ℕ, ◌≡◌, refl, subst, ap, ◌∙◌, String, Bool, true, false, not, List, [], ◌∷◌, ◌++◌, if◌then◌else◌,
  Bool-cases, inl, inr,
}
use qiankun.Prelude.Lists.{keep_if, any_of}
use qiankun.Prelude.Exec.{is_ok}
use qiankun.Prelude.Codes.{same_codes, same_codes→eq, same_codes_refl}
use qiankun.Infrastructure.Plugins.Dependencies.{package_name}
use qiankun.Application.Environment.{Site, Tools}
use qiankun.Application.Dependencies.{merge, without_package, add, remove, sync, clean}
use qiankun.Application.Dependencies.Manifest.{manifest_of}
use qiankun.Application.Dependencies.Changes.{add-Changes, remove-Changes, sync-Keeps}

pub data Call : Type 0 where
  add_call : List String → Call
  remove_call : String → Call
  sync_call : Call

-- A call of the service: whether it returned, and the state that it left.
unfoldable pub perform : Tools → Call → Site → Bool × Site
perform t (Call.add_call specs) w = let (r, v) = add t specs w in (is_ok r, v)
perform t (Call.remove_call spec) w = let (r, v) = remove t spec w in (is_ok r, v)
perform t Call.sync_call w = let (r, v) = sync t w in (is_ok r, v)

unfoldable pub run_calls : Tools → List Call → Site → Site
unfolding perform
run_calls t [] w = w
run_calls t (c ∷ cs) w = run_calls t cs (perform t c w).1

-- The specs of one package, and whether there is one.
abbrev pub specs_of : List ℕ → List String → List String
specs_of name specs = keep_if (λ s. same_codes (package_name s) name) specs

abbrev pub names_package : List ℕ → List String → Bool
names_package name specs = any_of (λ s. same_codes (package_name s) name) specs

abbrev pub View : Type 0
View = List ℕ → List String

-- What a call that returns does to the abstract manifest: `add` replaces the entries of the packages
-- that it names, `remove` empties one, `sync` changes none.
unfoldable pub change : Call → View → View
change (Call.add_call specs) m name =
    if names_package name (clean specs) then specs_of name (clean specs) else m name
change (Call.remove_call spec) m name = if same_codes (package_name spec) name then [] else m name
change Call.sync_call m name = m name

-- The abstract manifest after a run, given which calls returned.
unfoldable pub replay : Tools → List Call → Site → View → View
unfolding perform change
replay t [] w m = m
replay t (c ∷ cs) w m =
    let (returned, v) = perform t c w in replay t cs v (if returned then change c m else m)

differ : (a b : List ℕ) → same_codes b a ≡ false → same_codes a b ≡ false
differ a b h = elim (Bool-cases (same_codes a b)) [
  | inl e ↦
      let same = same_codes→eq a b e in
      cc (let h' : true ≡ false = rw (same, same_codes_refl b) at h in h')
  | inr e ↦ e
]

append_nil : (xs : List String) → xs ++ [] ≡ xs
append_nil [] = refl
append_nil (x ∷ xs) = ap (λ rest. x ∷ rest) (append_nil xs)

specs_of-append :
    (name : List ℕ) (xs ys : List String)
    → specs_of name (xs ++ ys) ≡ specs_of name xs ++ specs_of name ys
specs_of-append name [] ys = refl
specs_of-append name (x ∷ xs) ys = elim (Bool-cases (same_codes (package_name x) name)) [
  | inl e ↦ rw e (ap (λ rest. x ∷ rest) (specs_of-append name xs ys))
  | inr e ↦ rw e (specs_of-append name xs ys)
]

specs_of-absent :
    (name : List ℕ) (specs : List String)
    → names_package name specs ≡ false
    → specs_of name specs ≡ []
specs_of-absent name [] h = refl
specs_of-absent name (x ∷ xs) h = elim (Bool-cases (same_codes (package_name x) name)) [
  | inl e ↦ cc (let h' : true ≡ false = rw e at h in h')
  | inr e ↦ rw e (specs_of-absent name xs (rw e at h))
]

-- The entries that `merge` keeps.
specs_of-kept :
    (name : List ℕ) (current incoming : List String)
    → specs_of name (keep_if (λ s. not (names_package (package_name s) incoming)) current)
      ≡ (if names_package name incoming then [] else specs_of name current)
specs_of-kept name [] incoming = elim (Bool-cases (names_package name incoming)) [
  | inl e ↦ rw e refl
  | inr e ↦ rw e refl
]
specs_of-kept name (x ∷ xs) incoming =
    let ih = specs_of-kept name xs incoming in
    elim (Bool-cases (same_codes (package_name x) name)) [
      | inl e ↦
          let same : package_name x ≡ name = same_codes→eq _ _ e in
          elim (Bool-cases (names_package name incoming)) [
            | inl n ↦ rw (same, n) (ih ∙ rw n refl)
            | inr n ↦
                rw (same, n, same, same_codes_refl name) (ap (λ rest. x ∷ rest) (ih ∙ rw n refl))
          ]
      | inr e ↦ elim (Bool-cases (names_package (package_name x) incoming)) [
        | inl n ↦ rw (n, e) ih
        | inr n ↦ rw (n, e) ih
      ]
    ]

specs_of-merge :
    (name : List ℕ) (current incoming : List String)
    → specs_of name (merge current incoming)
      ≡ (if names_package name incoming then specs_of name incoming else specs_of name current)
unfolding merge
specs_of-merge name current incoming =
    let kept = keep_if (λ s. not (names_package (package_name s) incoming)) current in
    specs_of-append name kept incoming
    ∙ (rw (specs_of-kept name current incoming) (elim (Bool-cases (names_package name incoming)) [
      | inl e ↦ rw e refl
      | inr e ↦ rw (e, specs_of-absent name incoming e) (append_nil (specs_of name current))
    ]))

specs_of-without_package :
    (name removed : List ℕ) (specs : List String)
    → specs_of name (without_package removed specs)
      ≡ (if same_codes removed name then [] else specs_of name specs)
unfolding without_package
specs_of-without_package name removed [] = elim (Bool-cases (same_codes removed name)) [
  | inl e ↦ rw e refl
  | inr e ↦ rw e refl
]
specs_of-without_package name removed (x ∷ xs) =
    let ih = specs_of-without_package name removed xs in
    elim (Bool-cases (same_codes (package_name x) removed)) [
      | inl e ↦
          let same : package_name x ≡ removed = same_codes→eq _ _ e in
          elim (Bool-cases (same_codes removed name)) [
            | inl n ↦ rw (e, n) (ih ∙ rw n refl)
            | inr n ↦ rw (e, n, same, n) (ih ∙ rw n refl)
          ]
      | inr e ↦ elim (Bool-cases (same_codes (package_name x) name)) [
        | inl n ↦
            let same : package_name x ≡ name = same_codes→eq _ _ n in
            let other : same_codes removed name ≡ false =
              differ removed name (subst (λ p. same_codes p removed ≡ false) same e) in
            rw (e, n, other) (ap (λ rest. x ∷ rest) (ih ∙ rw other refl))
        | inr n ↦ rw (e, n) ih
      ]
    ]

-- One call changes the entries of a package as the abstract call does.
perform-change :
    (t : Tools) (c : Call) (w : Site)
    → (let (returned, v) = perform t c w in
        let m : View = λ name. specs_of name (manifest_of t w) in
        (λ name. specs_of name (manifest_of t v)) ≡ (if returned then change c m else m))
unfolding perform change
perform-change t (Call.add_call specs) w =
    let step = (add-Changes t specs w).changed in
    elim (Bool-cases (is_ok (add t specs w).0)) [
      | inl e ↦ rw (step, e) (fun_ext (λ name. specs_of-merge name (manifest_of t w) (clean specs)))
      | inr e ↦ rw (step, e) refl
    ]
perform-change t (Call.remove_call spec) w =
    let step = (remove-Changes t spec w).changed in
    elim (Bool-cases (is_ok (remove t spec w).0)) [
      | inl e ↦
          rw (step, e)
            (fun_ext (λ name. specs_of-without_package name (package_name spec) (manifest_of t w)))
      | inr e ↦ rw (step, e) refl
    ]
perform-change t Call.sync_call w =
    let step = (sync-Keeps t w).kept in
    elim (Bool-cases (is_ok (sync t w).0)) [ inl e ↦ rw (step, e) refl | inr e ↦ rw (step, e) refl ]

-- After any run of add, remove and sync, the specs of the stored manifest that name a package are
-- those of the abstract manifest that the same calls leave: a call that returned has replaced the
-- entries of the packages that it names, has emptied the one that it removes or, for a sync, has
-- changed nothing, and a call that raised has changed nothing.
pub run_calls-replay :
    (t : Tools) (calls : List Call) (w : Site) (name : List ℕ)
    → specs_of name (manifest_of t (run_calls t calls w))
      ≡ replay t calls w (λ name. specs_of name (manifest_of t w)) name
unfolding run_calls replay
run_calls-replay t [] w name = refl
run_calls-replay t (c ∷ cs) w name =
    let v = (perform t c w).1 in
    run_calls-replay t cs v name ∙ ap (λ m. replay t cs v m name) (perform-change t c w)
