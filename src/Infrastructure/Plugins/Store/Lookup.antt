-- ===== src/Infrastructure/Plugins/Store/Lookup.antt =====
-- Reading a directory of store.py after a write or a removal.
use text.Mathlib.TextPositions.{eq_refl}
use qiankun.Prelude.{
  ◌≡◌, refl, subst, sym, String, true, false, none, some, List, [], ◌∷◌, str_eq, eq_iff, arith,
  Bool-cases, Option-cases, inl, inr, if◌then◌else◌,
}
use qiankun.Runtime.Registry.{lookup_text, set_text}
use qiankun.Infrastructure.Plugins.Store.{
  Directory, Directories, main_of, make_package, put_main, with_package, remove_text,
}

pub str_eq→eq : (a b : String) → str_eq a b ≡ true → a ≡ b
str_eq→eq a b e = ground (arith, eq_iff a b)

pub str_eq-false_sym : (a b : String) → str_eq a b ≡ false → str_eq b a ≡ false
str_eq-false_sym a b e = ground (arith, eq_iff a b, eq_iff b a)

module _ {ℓ} {A : Type ℓ} where
  pub lookup_text-set_text_self :
      (key : String) (a : A) (d : List (String × A)) → lookup_text key (set_text key a d) ≡ some a
  lookup_text-set_text_self key a [] = rw (eq_refl key) refl
  lookup_text-set_text_self key a ((k, b) ∷ d) = elim (Bool-cases (str_eq k key)) [
    | inl e ↦ rw (e, e) refl
    | inr e ↦ rw (e, e) (lookup_text-set_text_self key a d)
  ]

  pub lookup_text-set_text_ne :
      (key other : String) (a : A) (d : List (String × A))
      → str_eq key other ≡ false
      → lookup_text other (set_text key a d) ≡ lookup_text other d
  lookup_text-set_text_ne key other a [] ne = rw ne refl
  lookup_text-set_text_ne key other a ((k, b) ∷ d) ne = elim (Bool-cases (str_eq k key)) [
    | inl e ↦
        let miss : str_eq k other ≡ false =
          subst (λ x. str_eq x other ≡ false) (sym (str_eq→eq k key e)) ne in
        rw (e, miss) refl
    | inr e ↦ elim (Bool-cases (str_eq k other)) [
      | inl h ↦ rw (e, h) refl
      | inr h ↦ rw (e, h) (lookup_text-set_text_ne key other a d ne)
    ]
  ]

  pub lookup_text-remove_text_self :
      (key : String) (d : List (String × A)) → lookup_text key (remove_text key d) ≡ none
  lookup_text-remove_text_self key [] = refl
  lookup_text-remove_text_self key ((k, b) ∷ d) = elim (Bool-cases (str_eq k key)) [
    | inl e ↦ rw e (lookup_text-remove_text_self key d)
    | inr e ↦ rw (e, e) (lookup_text-remove_text_self key d)
  ]

  pub lookup_text-remove_text_ne :
      (key other : String) (d : List (String × A))
      → str_eq key other ≡ false
      → lookup_text other (remove_text key d) ≡ lookup_text other d
  lookup_text-remove_text_ne key other [] ne = refl
  lookup_text-remove_text_ne key other ((k, b) ∷ d) ne = elim (Bool-cases (str_eq k key)) [
    | inl e ↦
        let miss : str_eq k other ≡ false =
          subst (λ x. str_eq x other ≡ false) (sym (str_eq→eq k key e)) ne in
        rw (e, miss) (lookup_text-remove_text_ne key other d ne)
    | inr e ↦ elim (Bool-cases (str_eq k other)) [
      | inl h ↦ rw (e, h) refl
      | inr h ↦ rw (e, h) (lookup_text-remove_text_ne key other d ne)
    ]
  ]

-- Making the package of a directory changes no `main.py`.
pub main_of-make_package :
    (name other : String) (files : Directories)
    → main_of other (make_package name files) ≡ main_of other files
main_of-make_package name other files =
    let d = with_package name (lookup_text name files) in
    elim (Bool-cases (str_eq name other)) [
      | inl e ↦
          subst (λ o. main_of o (make_package name files) ≡ main_of o files)
            (str_eq→eq name other e)
            (rw (lookup_text-set_text_self name d files)
              (elim (Option-cases (lookup_text name files)) [
                | inl none_there ↦ rw none_there refl
                | inr (x, there) ↦ rw there refl
              ]))
      | inr e ↦ rw (lookup_text-set_text_ne name other d files e) refl
    ]

pub main_of-put_main :
    (name other text : String) (files : Directories)
    → main_of other (put_main name text files)
      ≡ (if str_eq name other then some text else main_of other files)
main_of-put_main name other text files =
    let d : Directory = record (with_package name (lookup_text name files)) { main = some text } in
    elim (Bool-cases (str_eq name other)) [
      | inl e ↦ rw e (
          subst (λ o. main_of o (put_main name text files) ≡ some text) (str_eq→eq name other e)
            (rw (lookup_text-set_text_self name d files) refl))
      | inr e ↦ rw (e, lookup_text-set_text_ne name other d files e) refl
    ]
