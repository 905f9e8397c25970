-- ===== src/Runtime/Logger.antt =====
-- app/runtime/logger.py: masking credentials in logs, events and results.
pub mod Masking
use qiankun.Prelude.{String, Bool, not, ◌&&◌, List, [], ◌∷◌, str_eq, if◌then◌else◌}
use qiankun.Prelude.Json.{Value, Values, Fields}

-- The package `re` on the three patterns of the module, and `str.replace`.
-- `key_search` is `_KEY.search`, `sub_url` is `_URL.sub` and `sub_value` is `_VALUE.sub`.
pub record Patterns : Type 0 where
  pub key_search : String → Bool
  pub sub_url : String → String
  pub sub_value : String → String
  pub replace : String → String → String → String

abbrev pub redacted : String
redacted = "[REDACTED]"

-- `for secret in secrets or []`
unfoldable pub replace_secrets : Patterns → List String → String → String
replace_secrets p [] text = text
replace_secrets p (secret ∷ secrets) text = replace_secrets p secrets (
    if not (str_eq secret "") && not (str_eq secret redacted)
    then p.replace secret redacted text
    else text)

abbrev pub redact_text : Patterns → List String → String → String
redact_text p secrets value = replace_secrets p secrets (p.sub_value (p.sub_url value))

-- `redact`: a dict, a list or a text; every other value is returned as it is.
unfoldable mutual
  pub redact : Patterns → List String → Value → Value
  redact p secrets (Value.dict fields) = Value.dict (redact_fields p secrets fields)
  redact p secrets (Value.list items) = Value.list (redact_items p secrets items)
  redact p secrets (Value.str text) = Value.str (redact_text p secrets text)
  redact p secrets Value.null = Value.null
  redact p secrets (Value.bool b) = Value.bool b
  redact p secrets (Value.int n) = Value.int n

  pub redact_items : Patterns → List String → Values → Values
  redact_items p secrets Values.nil = Values.nil
  redact_items p secrets (Values.cons item items) =
      Values.cons (redact p secrets item) (redact_items p secrets items)

  pub redact_fields : Patterns → List String → Fields → Fields
  redact_fields p secrets Fields.end = Fields.end
  redact_fields p secrets (Fields.field key item fields) =
      Fields.field key (if p.key_search key then Value.str redacted else redact p secrets item)
        (redact_fields p secrets fields)
