-- ===== src/Application/Settings/Echo.antt =====
-- A client of system_setting.py that sends back what it has read.
use qiankun.Prelude.{
  ◌≡◌, refl, String, Bool, true, false, not, ◌&&◌, some, str_eq, if◌then◌else◌, Bool-cases, inl,
  inr, eq_iff, subst,
}
use qiankun.Prelude.Exec.{ok}
use qiankun.Prelude.Json.{Value, Fields, get_field}
use qiankun.Infrastructure.Database.{SystemSetting}
use qiankun.Application.Settings.{
  Hashing, is_secret, is_truthy, is_placeholder, placeholder, redact_secrets, keep_hash,
  merge_field, hash_field, merge_fields, merge_secrets,
}

-- Each key finds its own value in `stored`, as the keys of a dict do, and a password is a hash.
abbrev pub AreStored : Hashing → Fields → Fields → Type 0
AreStored h stored Fields.end = Unit
AreStored h stored (Fields.field key v fields) =
    (get_field key stored ≡ some v)
    × (str_eq key "password" ≡ true → (p : String) × (v ≡ Value.str p) × (h.is_hash p ≡ true))
    × AreStored h stored fields

same_text : (a b : String) → str_eq a b ≡ true → a ≡ b
same_text a b e = (eq_iff a b).0 e

falsy-is_placeholder : (v : Value) → is_truthy v ≡ false → is_placeholder v ≡ false
falsy-is_placeholder (Value.str text) e = elim (Bool-cases (str_eq text "")) [
  | inl empty ↦ rw (same_text text "" empty) refl
  | inr full ↦ cc (let e' : true ≡ false = rw full at e in e')
]
falsy-is_placeholder Value.null e = refl
falsy-is_placeholder (Value.bool b) e = refl
falsy-is_placeholder (Value.int n) e = refl
falsy-is_placeholder (Value.list items) e = refl
falsy-is_placeholder (Value.dict fields) e = refl

module _ (h : Hashing) (stored : Fields) (key : String) (v : Value)
    (found : get_field key stored ≡ some v)
    (hashed : str_eq key "password" ≡ true
      → (p : String) × (v ≡ Value.str p) × (h.is_hash p ≡ true)) where
  -- A value that was not replaced goes through.
  kept_field :
      (if str_eq key "password" then keep_hash h (get_field "password" stored) v else ok v) ≡ ok v
  kept_field = elim (Bool-cases (str_eq key "password")) [
    | inl e ↦
        let (p, is_text, is_hashed) = hashed e in
        let here : get_field "password" stored ≡ some v =
          subst (λ k. get_field k stored ≡ some v) (same_text key "password" e) found in
        rw (e, here, is_text, is_hashed) refl
    | inr e ↦ rw e refl
  ]

  merge_field-redacted :
      merge_field h stored key (if is_secret key && is_truthy v then Value.str placeholder else v)
      ≡ ok v
  unfolding merge_field
  merge_field-redacted = elim (Bool-cases (is_secret key)) [
    | inr plain ↦ rw plain kept_field
    | inl secret ↦ elim (Bool-cases (is_truthy v)) [
      | inl full ↦ rw (secret, full, found) refl
      | inr empty ↦ rw (secret, empty, falsy-is_placeholder v empty) kept_field
    ]
  ]

  hash_field-stored : hash_field h key v ≡ v
  unfolding hash_field
  hash_field-stored = elim (Bool-cases (str_eq key "password")) [
    | inl e ↦
        let (p, is_text, is_hashed) = hashed e in
        rw (e, is_text, is_hashed) (never (is_truthy (Value.str p)) _ _)
    | inr e ↦ rw e refl
  ]
    where
      never : (b : Bool) (x y : Value) → (if b && not true then x else y) ≡ y
      never true x y = refl
      never false x y = refl

merge_fields-redact_secrets :
    (h : Hashing) (stored fields : Fields)
    → AreStored h stored fields
    → merge_fields h stored (redact_secrets fields) ≡ ok fields
unfolding merge_fields redact_secrets
merge_fields-redact_secrets h stored Fields.end known = refl
merge_fields-redact_secrets h stored (Fields.field key v fields) known =
    let merged = merge_field-redacted h stored key v known.0 known.1 in
    let same = hash_field-stored h stored key v known.0 known.1 in
    rw (merged, merge_fields-redact_secrets h stored fields known.2, same) refl

-- A client that sends back a setting as it has read it, with the placeholders, changes nothing:
-- the merge gives every stored field, the secrets included, where the stored value is a dict and
-- its password, if it has one, is a hash.
pub merge_secrets-redact_secrets :
    (h : Hashing) (row : SystemSetting) (fields : Fields)
    → row.value ≡ Value.dict fields
    → AreStored h fields fields
    → merge_secrets h (some row) (redact_secrets fields) ≡ ok fields
unfolding merge_secrets
merge_secrets-redact_secrets h row fields is_dict known =
    simp is_dict (merge_fields-redact_secrets h fields fields known)
