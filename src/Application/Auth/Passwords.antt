-- ===== src/Application/Auth/Passwords.antt =====
-- A changed password of auth.py, and the logins after it.
use Prim.Native.String
use qiankun.Prelude.{
  ℕ, ◌≡◌, refl, String, true, false, ◌&&◌, some, str_eq, ltb, maybe, if◌then◌else◌, Bool-cases,
  Option-cases, inl, inr,
}
use qiankun.Prelude.Exec.{Error, ok, err, is_ok, Result-cases}
use qiankun.Prelude.Json.{Value}
use qiankun.Prelude.Codes.{is_blank}
use qiankun.Infrastructure.Database.{SystemSetting, Db}
use qiankun.Infrastructure.Repositories.Settings.{by_key, find_setting, update_setting}
use qiankun.Infrastructure.Repositories.Settings.Lookup.{find_setting-change_setting_self}
use qiankun.Infrastructure.Auth.{JwtSettings, TokenLibrary}
use qiankun.Application.Auth.{
  PasswordLibrary, login, check_login, credentials, change_password, new_credentials, store_value,
  issue, text_field, to_fields,
}

-- `login` of a row that `change_password` has written.
login-new_credentials :
    (a : PasswordLibrary) (j : TokenLibrary) (s : JwtSettings) (now : ℕ)
    (username password name attempt : String) (row : SystemSetting) (db : Db)
    → is_blank username ≡ false
    → is_blank (a.hash password) ≡ false
    → find_setting "auth" "admin" db.settings
      ≡ some (store_value (new_credentials a username password) row)
    → (login a j s now name attempt db).0
      ≡ maybe (a.verify (a.hash password) attempt) (err Error.unexpected) λ matches.
        if str_eq name username && matches then ok (issue j s name now) else err Error.auth
unfolding login credentials check_login by_key
login-new_credentials a j s now username password name attempt row db u h found =
    elim (Option-cases (a.verify (a.hash password) attempt)) [
      | inl e ↦ rw (found, u, h, e) refl
      | inr (matches, e) ↦ elim (Bool-cases (str_eq name username && matches)) [
        | inl k ↦ rw (found, u, h, e, k) refl
        | inr k ↦ rw (found, u, h, e, k) refl
      ]
    ]

stored :
    (v : Value) (row : SystemSetting) (db : Db)
    → find_setting "auth" "admin" db.settings ≡ some row
    → find_setting "auth" "admin" (update_setting "auth" "admin" (store_value v) db).1.settings
      ≡ some (store_value v row)
unfolding update_setting
stored v row db found =
    find_setting-change_setting_self "auth" "admin" (store_value v) row db.settings
      (λ r. (refl, refl)) found

-- After a change of the password that returned, a login answers by the new password alone: with the
-- user name of the change and an attempt that Argon2 matches with the hash of the new password it
-- returns the two tokens, with another name or an attempt that does not match it is refused, and
-- an exception of Argon2 leaves it.
pub change_password-login :
    (a : PasswordLibrary) (j : TokenLibrary) (s : JwtSettings) (now : ℕ)
    (username old new name attempt : String) (db : Db)
    → is_blank username ≡ false
    → is_blank (a.hash new) ≡ false
    → is_ok (change_password a username old new db).0 ≡ true
    → (login a j s now name attempt (change_password a username old new db).1).0
      ≡ maybe (a.verify (a.hash new) attempt) (err Error.unexpected) λ matches.
        if str_eq name username && matches then ok (issue j s name now) else err Error.auth
unfolding change_password credentials by_key
change_password-login a j s now username old new name attempt db u h done =
    elim (Bool-cases (ltb (String.count new) 8)) [
      | inl short ↦ cc (let no : false ≡ true = rw short at done in no)
      | inr long ↦ elim (Option-cases (find_setting "auth" "admin" db.settings)) [
        | inl none_there ↦ cc (let no : false ≡ true = rw (long, none_there) at done in no)
        | inr (row, there) ↦ elim (Result-cases (to_fields a row.value)) [
          | inr (x, bad) ↦ cc (let no : false ≡ true = rw (long, there, bad) at done in no)
          | inl (fields, good) ↦
              elim (Option-cases (a.verify (text_field a "password" fields) old)) [
                | inl bad ↦ cc (let no : false ≡ true = rw (long, there, good, bad) at done in no)
                | inr (matches, v) ↦ elim (Bool-cases matches) [
                  | inr bad ↦
                      cc (let no : false ≡ true = rw (long, there, good, v, bad) at done in no)
                  | inl same ↦
                      rw (long, there, good, v, same, there)
                        (login-new_credentials a j s now username new name attempt row _ u h
                          (stored (new_credentials a username new) row db there))
                ]
              ]
        ]
      ]
    ]
