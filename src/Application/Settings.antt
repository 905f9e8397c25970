-- ===== src/Application/Settings.antt =====
-- app/application/services/system_setting.py: reading and writing one setting. `Hashing` is
-- app/infrastructure/auth/password.py over Argon2; `accepts` is the schema of a row, where it has
-- one. The hook after an update and the flag `restart_required` are in Container.Updates.
pub mod Echo
pub mod Bootstrap
use qiankun.Prelude.{
  ℕ, zero, String, Bool, true, false, not, ◌&&◌, ◌||◌, Option, none, some, List, [], ◌∷◌, str_eq,
  maybe, if◌then◌else◌,
}
use qiankun.Prelude.Exec.{
  Error, Result, ok, err, and_then, Exec, pure, lift, or_raise, raise_if, transaction, ◌>>=◌, ◌>>◌,
}
use qiankun.Prelude.Json.{JsonInt, Value, Values, Fields, get_field, empty_dict}
use qiankun.Infrastructure.Database.{SystemSetting, Db}
use qiankun.Infrastructure.Repositories.Settings.{by_key, add_setting, update_setting}

-- `is_hash p` is `p.startswith("$argon2")`, `hash` is `hash_password`, and `show` is `str` on what
-- is no text.
pub record Hashing : Type 0 where
  pub is_hash : String → Bool
  pub hash : String → String
  pub show : Value → String

abbrev pub placeholder : String
placeholder = "[REDACTED]"

-- `key in SECRET_FIELDS`
abbrev pub is_secret : String → Bool
is_secret key =
    str_eq key "password" || str_eq key "bot_token" || str_eq key "token" || str_eq key "api_key"

-- `if v`
abbrev pub is_truthy : Value → Bool
is_truthy Value.null = false
is_truthy (Value.bool b) = b
is_truthy (Value.int (JsonInt.nonnegative zero)) = false
is_truthy (Value.int _) = true
is_truthy (Value.str text) = not (str_eq text "")
is_truthy (Value.list Values.nil) = false
is_truthy (Value.list _) = true
is_truthy (Value.dict Fields.end) = false
is_truthy (Value.dict _) = true

-- `value == REDACTED`
abbrev pub is_placeholder : Value → Bool
is_placeholder (Value.str text) = str_eq text placeholder
is_placeholder _ = false

-- `_redact_row` on the fields of a dict
unfoldable pub redact_secrets : Fields → Fields
redact_secrets Fields.end = Fields.end
redact_secrets (Fields.field key v fields) =
    Fields.field key (if is_secret key && is_truthy v then Value.str placeholder else v)
      (redact_secrets fields)

abbrev pub redact_value : Value → Value
redact_value (Value.dict fields) = Value.dict (redact_secrets fields)
redact_value other = other

-- `_redact_row`
unfoldable pub redact_row : SystemSetting → SystemSetting
unfolding redact_secrets
redact_row row = record row { value = redact_value row.value }

-- `dict(row.value or {})`; what is no dict is an exception, except for a list of pairs, which the
-- model does not tell from other lists.
abbrev pub stored_fields : Value → Result Fields
stored_fields (Value.dict fields) = ok fields
stored_fields other = if is_truthy other then err Error.unexpected else ok Fields.end

-- `stored_value["password"]` if it is a hash, and the new value otherwise.
abbrev pub keep_hash : Hashing → Option Value → Value → Result Value
keep_hash h none v = ok v
keep_hash h (some (Value.str p)) v = ok (if h.is_hash p then Value.str p else v)
keep_hash h (some _) v = err Error.unexpected

-- The body of the first loop of `_merge_secrets`.
unfoldable pub merge_field : Hashing → Fields → String → Value → Result Value
merge_field h stored key v =
    if is_secret key && is_placeholder v
    then ok (maybe (get_field key stored) (Value.str "") (λ old. old))
    else if str_eq key "password"
    then keep_hash h (get_field "password" stored) v
    else ok v

abbrev pub to_text : Hashing → Value → String
to_text h (Value.str text) = text
to_text h other = h.show other

-- The body of the second loop.
unfoldable pub hash_field : Hashing → String → Value → Value
hash_field h key v =
    if str_eq key "password" && is_truthy v && not (h.is_hash (to_text h v))
    then Value.str (h.hash (to_text h v))
    else v

-- Both loops of `_merge_secrets`: the second one changes the entry of one key only.
unfoldable pub merge_fields : Hashing → Fields → Fields → Result Fields
unfolding merge_field hash_field
merge_fields h stored Fields.end = ok Fields.end
merge_fields h stored (Fields.field key v incoming) =
    and_then (merge_field h stored key v) λ merged.
      and_then (merge_fields h stored incoming)
        λ rest. ok (Fields.field key (hash_field h key merged) rest)

-- `_merge_secrets`
unfoldable pub merge_secrets : Hashing → Option SystemSetting → Fields → Result Fields
unfolding merge_fields
merge_secrets h none incoming = ok incoming
merge_secrets h (some row) incoming =
    and_then (stored_fields row.value) λ stored. merge_fields h stored incoming

-- `type(value) is expected[type]`
abbrev pub has_type : String → Value → Bool
has_type type (Value.dict _) = str_eq type "object"
has_type type (Value.str _) = str_eq type "string"
has_type type (Value.int _) = str_eq type "integer"
has_type type (Value.bool _) = str_eq type "boolean"
has_type type (Value.list _) = str_eq type "array"
has_type type Value.null = false

-- `_validate_schema`; `none` is a row without a schema.
unfoldable pub validate_schema : Option (Value → Bool) → String → Value → Result (Unit {0})
validate_schema none type v = ok tt
validate_schema (some accepts) type v =
    if str_eq type "object" && has_type "object" v && accepts v then ok tt else err Error.validation

-- `if isinstance(stored, dict): stored = await self._merge_secrets(row, stored)`
unfoldable pub merge_value : Hashing → Option SystemSetting → Value → Result Value
unfolding merge_secrets
merge_value h row (Value.dict incoming) =
    and_then (merge_secrets h row incoming) λ merged. ok (Value.dict merged)
merge_value h row other = ok other

-- The write of `put`; `description` is `none` where the payload has none.
unfoldable pub store :
    String
    → String
    → String
    → Value
    → Bool
    → Option String
    → Option SystemSetting
    → Exec Db SystemSetting
store scope key type v enabled description none = add_setting (record {
  scope = scope;
  key = key;
  type = type;
  value = v;
  enabled = enabled;
  description = maybe description "" (λ d. d);
})
store scope key type v enabled description (some row) = do
  let new : SystemSetting = record row {
    type = type;
    value = v;
    enabled = enabled;
    description = maybe description row.description (λ d. d);
  }
  update_setting scope key (λ _. new)
  pure new

-- `put`
unfoldable pub put :
    Hashing
    → Option (Value → Bool)
    → String
    → String
    → String
    → Value
    → Bool
    → Option String
    → Exec Db SystemSetting
unfolding redact_row validate_schema merge_value store
put h schema scope key type v enabled description = do
  raise_if (not (has_type type v)) Error.validation
  lift (validate_schema schema type v)
  transaction do
    row ← by_key scope key
    merged ← lift (merge_value h row v)
    written ← store scope key type merged enabled description row
    pure (redact_row written)

-- `get`
unfoldable pub get : String → String → Exec Db SystemSetting
unfolding redact_row
get scope key = do
  found ← by_key scope key
  row ← or_raise found Error.not_found
  pure (redact_row row)
