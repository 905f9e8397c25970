-- ===== src/Application/Auth.antt =====
-- app/application/services/auth.py: login against the row auth/admin, new tokens, a new password.
pub mod Passwords
pub mod Sessions
use Prim.Native.String
use qiankun.Prelude.{
  ℕ, String, Bool, true, false, not, ◌&&◌, ◌||◌, Option, none, some, str_eq, ltb, maybe,
  if◌then◌else◌,
}
use qiankun.Prelude.Exec.{
  Error, Result, ok, err, Exec, pure, raise, raise_if, lift, or_raise, ◌>>=◌, ◌>>◌,
}
use qiankun.Prelude.Json.{Value, Fields, get_field}
use qiankun.Prelude.Codes.{is_blank}
use qiankun.Infrastructure.Database.{SystemSetting, Db}
use qiankun.Infrastructure.Repositories.Settings.{by_key, update_setting}
use qiankun.Infrastructure.Auth.{JwtSettings, TokenLibrary, create}
use qiankun.Application.Settings.{is_truthy}

-- Argon2: `hash`, and `verify` of a hash and a text, which returns true, has a mismatch (`some false`) or
-- has another exception (`none`). `show` is `str` of what is no text; `items` is `dict(…)` of what is
-- no dict and is not empty, and `none` is its exception.
pub record PasswordLibrary : Type 0 where
  pub hash : String → String
  pub verify : String → String → Option Bool
  pub show : Value → String
  pub items : Value → Option Fields

-- `verify_password` of app/infrastructure/auth/password.py
abbrev pub verify_password : PasswordLibrary → String → String → Result Bool
verify_password a plain hashed = maybe (a.verify hashed plain) (err Error.unexpected) ok

-- `dict(row.value or {})`
abbrev pub to_fields : PasswordLibrary → Value → Result Fields
to_fields a (Value.dict fields) = ok fields
to_fields a other =
    if is_truthy other then maybe (a.items other) (err Error.unexpected) ok else ok Fields.end

abbrev pub fields_of : PasswordLibrary → Option SystemSetting → Exec Db (Option Fields)
fields_of a none = pure none
fields_of a (some row) = do fields ← lift (to_fields a row.value); pure (some fields)

-- `_credentials`
unfoldable pub credentials : PasswordLibrary → Exec Db (Option Fields)
unfolding by_key
credentials a = do row ← by_key "auth" "admin"; fields_of a row

-- `str(credentials.get(key, ""))`
abbrev pub text_field : PasswordLibrary → String → Fields → String
text_field a key fields =
    maybe (get_field key fields) "" (λ v. elim v [ Value.str text ↦ text | other ↦ a.show other ])

-- The answer of `login` and of `refresh`; `token_type` is always "bearer".
pub record TokenPair : Type 0 where
  pub access_token : String
  pub refresh_token : String

abbrev pub issue : TokenLibrary → JwtSettings → String → ℕ → TokenPair
issue j s username now = record {
  access_token = create j s false username now;
  refresh_token = create j s true username now;
}

-- `login` of a stored name and hash
unfoldable pub check_login :
    PasswordLibrary
    → TokenLibrary
    → JwtSettings
    → ℕ
    → String
    → String
    → String
    → String
    → Exec Db TokenPair
unfolding create
check_login a j s now username password stored_username stored_hash = do
  raise_if (is_blank stored_username || is_blank stored_hash) Error.auth
  password_ok ← lift (verify_password a password stored_hash)
  raise_if (not (str_eq username stored_username && password_ok)) Error.auth
  pure (issue j s username now)

-- `login` at a time
unfoldable pub login :
    PasswordLibrary → TokenLibrary → JwtSettings → ℕ → String → String → Exec Db TokenPair
unfolding credentials check_login
login a j s now username password = do
  stored ← credentials a
  fields ← or_raise stored Error.auth
  check_login a j s now username password (text_field a "username" fields)
      (text_field a "password" fields)

-- `credentials.get("enabled", True)`
abbrev pub is_enabled : Fields → Bool
is_enabled fields = maybe (get_field "enabled" fields) true is_truthy

-- `refresh` at a time
unfoldable pub refresh :
    PasswordLibrary → TokenLibrary → JwtSettings → ℕ → String → Exec Db TokenPair
unfolding credentials create
refresh a j s now username = do
  stored ← credentials a
  raise_if (not (maybe stored false is_enabled)) Error.auth
  pure (issue j s username now)

abbrev pub new_credentials : PasswordLibrary → String → String → Value
new_credentials a username password = Value.dict (
    Fields.field "username" (Value.str username)
      (Fields.field "password" (Value.str (a.hash password)) Fields.end))

-- `uow.system_settings.update(row, {"value": …})`
abbrev pub store_value : Value → SystemSetting → SystemSetting
store_value value row = record row { value = value }

-- `change_password`
unfoldable pub change_password : PasswordLibrary → String → String → String → Exec Db Unit
unfolding credentials by_key update_setting
change_password a username old_password new_password = do
  raise_if (ltb (String.count new_password) 8) Error.auth
  stored ← credentials a
  fields ← or_raise stored Error.auth
  matches ← lift (verify_password a old_password (text_field a "password" fields))
  raise_if (not matches) Error.auth
  row ← by_key "auth" "admin"
  or_raise row Error.not_found
  update_setting "auth" "admin" (store_value (new_credentials a username new_password))
