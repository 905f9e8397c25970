-- ===== src/Application/Configuration/Written.antt =====
-- What a write of the row (system, base) by app/application/services/system_setting.py leaves in the tables.
use qiankun.Prelude.{
  ◌≡◌, refl, String, Bool, true, false, Option, none, some, List, [], ◌∷◌, str_eq, ◌&&◌, inl, inr,
  Bool-cases, Option-cases,
}
use qiankun.Prelude.Exec.{Result, ok, Result-cases, Ensures}
use qiankun.Prelude.Json.{Value, Fields}
use qiankun.Infrastructure.Database.{SystemSetting, Db}
use qiankun.Infrastructure.Repositories.Settings.{
  by_key, has_key, find_setting, change_setting, add_setting, update_setting,
}
use qiankun.Infrastructure.Repositories.Settings.Lookup.{find_setting-append_self}
use qiankun.Application.Settings.{
  Hashing, has_type, stored_fields, merge_secrets, merge_value, validate_schema, store, put,
}
use qiankun.Application.Configuration.{Pydantic, accepts_fields, base_schema}
use qiankun.Application.Configuration.Accepted.{IsSettled, merge_fields-accepted}

find_setting-has_key :
    (scope key : String) (row : SystemSetting) (rows : List SystemSetting)
    → find_setting scope key rows ≡ some row
    → has_key scope key row ≡ true
find_setting-has_key scope key row [] h = cc
find_setting-has_key scope key row (x ∷ rows) h = elim (Bool-cases (has_key scope key x)) [
  | inl hit ↦
      let held : some x ≡ some row = rw hit at h in let same : x ≡ row = cc in rw same at hit
  | inr miss ↦ find_setting-has_key scope key row rows (rw miss at h)
]

find_setting-replaced :
    (scope key : String) (row new : SystemSetting) (rows : List SystemSetting)
    → has_key scope key new ≡ true
    → find_setting scope key rows ≡ some row
    → find_setting scope key (change_setting scope key (λ _. new) rows) ≡ some new
find_setting-replaced scope key row new [] h found = cc
find_setting-replaced scope key row new (x ∷ rows) h found =
    elim (Bool-cases (has_key scope key x)) [
      | inl hit ↦ rw (hit, h) refl
      | inr miss ↦
          rw (miss, miss) (find_setting-replaced scope key row new rows h (rw miss at found))
    ]

no_dict : (b : Bool) → (b && false) ≡ false
no_dict true = refl
no_dict false = refl

module _ (p : Pydantic) (h : Hashing) (type : String) (enabled : Bool)
    (description : Option String) where
  -- The transaction of `put`
  abbrev put_base : Value → Db → Result SystemSetting × Db
  put_base v = put h (some (base_schema p)) "system" "base" type v enabled description

  put_new-IsSettled :
      (incoming : Fields) (db : Db)
      → str_eq type "object" ≡ true
      → accepts_fields p incoming ≡ true
      → find_setting "system" "base" db.settings ≡ none
      → Ensures (λ _ after. IsSettled p after) (put_base (Value.dict incoming) db)
  unfolding put validate_schema by_key merge_value merge_secrets store add_setting
  put_new-IsSettled incoming db object accepted absent =
      rw (object, accepted, absent)
        (
          _,
          incoming,
          find_setting-append_self "system" "base" _ db.settings refl absent,
          refl,
          accepted,
        )

  put_old-IsSettled :
      (incoming stored : Fields) (row : SystemSetting) (db : Db)
      → str_eq type "object" ≡ true
      → accepts_fields p incoming ≡ true
      → find_setting "system" "base" db.settings ≡ some row
      → stored_fields row.value ≡ ok stored
      → Ensures (λ _ after. IsSettled p after) (put_base (Value.dict incoming) db)
  unfolding put validate_schema by_key merge_value merge_secrets store update_setting
  put_old-IsSettled incoming stored row db object accepted found is_stored =
      rw (object, accepted, found, is_stored, merge_fields-accepted p h stored incoming accepted)
        (
          _,
          incoming,
          find_setting-replaced "system" "base" row _ db.settings
              (find_setting-has_key "system" "base" row db.settings found) found,
          refl,
          accepted,
        )

  put_refused :
      (v : Value) (db : Db)
      → (str_eq type "object" && has_type "object" v && base_schema p v) ≡ false
      → Ensures (λ _ after. IsSettled p after) (put_base v db)
  unfolding put validate_schema
  put_refused v db refused = elim (Bool-cases (has_type type v)) [
    | inl y ↦ rw (y, refused) tt
    | inr n ↦ rw n tt
  ]

  put_accepted-IsSettled :
      (incoming : Fields) (db : Db)
      → str_eq type "object" ≡ true
      → accepts_fields p incoming ≡ true
      → Ensures (λ _ after. IsSettled p after) (put_base (Value.dict incoming) db)
  unfolding put validate_schema by_key merge_value merge_secrets
  put_accepted-IsSettled incoming db object accepted =
      elim (Option-cases (find_setting "system" "base" db.settings)) [
        | inl absent ↦ put_new-IsSettled incoming db object accepted absent
        | inr (row, found) ↦ elim (Result-cases (stored_fields row.value)) [
          | inl (stored, is_stored) ↦
              put_old-IsSettled incoming stored row db object accepted found is_stored
          | inr (e, is_error) ↦ rw (object, accepted, found, is_error) tt
        ]
      ]

  pub put-IsSettled : (v : Value) (db : Db) → Ensures (λ _ after. IsSettled p after) (put_base v db)
  put-IsSettled (Value.dict incoming) db = elim (Bool-cases (str_eq type "object")) [
    | inr n ↦ put_refused (Value.dict incoming) db (rw n refl)
    | inl object ↦ elim (Bool-cases (accepts_fields p incoming)) [
      | inl accepted ↦ put_accepted-IsSettled incoming db object accepted
      | inr refused ↦ put_refused (Value.dict incoming) db (rw (object, refused) refl)
    ]
  ]
  put-IsSettled Value.null db =
      put_refused Value.null db (no_dict (str_eq type "object" && has_type "object" Value.null))
  put-IsSettled (Value.bool b) db =
      put_refused (Value.bool b) db
        (no_dict (str_eq type "object" && has_type "object" (Value.bool b)))
  put-IsSettled (Value.int n) db =
      put_refused (Value.int n) db
        (no_dict (str_eq type "object" && has_type "object" (Value.int n)))
  put-IsSettled (Value.str text) db =
      put_refused (Value.str text) db
        (no_dict (str_eq type "object" && has_type "object" (Value.str text)))
  put-IsSettled (Value.list items) db =
      put_refused (Value.list items) db
        (no_dict (str_eq type "object" && has_type "object" (Value.list items)))
