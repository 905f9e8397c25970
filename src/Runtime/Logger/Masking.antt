-- ===== src/Runtime/Logger/Masking.antt =====
-- What `redact` of runtime/logger.py guarantees of any value.
use qiankun.Prelude.{◌≡◌, refl, String, true, false, List}
use qiankun.Prelude.Json.{Value, Values, Fields}
use qiankun.Runtime.Logger.{Patterns, redacted, redact_text, redact, redact_items, redact_fields}

-- Under every key that looks like a credential stands the placeholder, at any depth, and every
-- other text is one that the masking of texts has produced.
mutual
  pub IsMasked : Patterns → List String → Value → Type 0
  IsMasked p secrets (Value.dict fields) = AreFieldsMasked p secrets fields
  IsMasked p secrets (Value.list items) = AreItemsMasked p secrets items
  IsMasked p secrets (Value.str text) = (raw : String) × (text ≡ redact_text p secrets raw)
  IsMasked p secrets Value.null = Unit
  IsMasked p secrets (Value.bool b) = Unit
  IsMasked p secrets (Value.int n) = Unit

  pub AreItemsMasked : Patterns → List String → Values → Type 0
  AreItemsMasked p secrets Values.nil = Unit
  AreItemsMasked p secrets (Values.cons item items) =
      IsMasked p secrets item × AreItemsMasked p secrets items

  pub AreFieldsMasked : Patterns → List String → Fields → Type 0
  AreFieldsMasked p secrets Fields.end = Unit
  AreFieldsMasked p secrets (Fields.field key item fields) =
      (p.key_search key ≡ true → item ≡ Value.str redacted)
      × (p.key_search key ≡ false → IsMasked p secrets item)
      × AreFieldsMasked p secrets fields

mutual
  unfolding redact redact_items redact_fields IsMasked AreItemsMasked AreFieldsMasked

  redact-IsMasked_mutual :
      (p : Patterns) (secrets : List String) (v : Value) → IsMasked p secrets (redact p secrets v)
  redact-IsMasked_mutual p secrets (Value.dict fields) = fields-masked p secrets fields
  redact-IsMasked_mutual p secrets (Value.list items) = items-masked p secrets items
  redact-IsMasked_mutual p secrets (Value.str text) = (text, refl)
  redact-IsMasked_mutual p secrets Value.null = tt
  redact-IsMasked_mutual p secrets (Value.bool b) = tt
  redact-IsMasked_mutual p secrets (Value.int n) = tt

  items-masked :
      (p : Patterns) (secrets : List String) (vs : Values)
      → AreItemsMasked p secrets (redact_items p secrets vs)
  items-masked p secrets Values.nil = tt
  items-masked p secrets (Values.cons item items) =
      (redact-IsMasked_mutual p secrets item, items-masked p secrets items)

  fields-masked :
      (p : Patterns) (secrets : List String) (fs : Fields)
      → AreFieldsMasked p secrets (redact_fields p secrets fs)
  fields-masked p secrets Fields.end = tt
  fields-masked p secrets (Fields.field key item fields) = (
    λ looks_secret. rw looks_secret,
    λ plain. rw plain (redact-IsMasked_mutual p secrets item),
    fields-masked p secrets fields,
  )

-- Whatever the value, `redact` leaves nothing but the placeholder under a credential-like key, at
-- any depth, and no text that has not gone through the masking of texts.
pub redact-IsMasked :
    (p : Patterns) (secrets : List String) (v : Value) → IsMasked p secrets (redact p secrets v)
redact-IsMasked p secrets v = redact-IsMasked_mutual p secrets v
