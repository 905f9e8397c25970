-- ===== src/Application/Configuration/Accepted.antt =====
-- A write of the row (system, base) and the settings that the next start reads from it.
use qiankun.Prelude.{
  ℕ, ◌≡◌, refl, sym, subst, String, Bool, true, false, Option, none, some, str_eq, eq_iff, ◌&&◌,
  inl, inr, Bool-cases, Option-cases, arith,
}
use qiankun.Prelude.Exec.{ok}
use qiankun.Prelude.Json.{JsonInt, Value, Fields, get_field, set_field, update_fields}
use qiankun.Infrastructure.Database.{SystemSetting, Db}
use qiankun.Infrastructure.Repositories.Settings.{find_setting}
use qiankun.Application.Settings.{
  Hashing, is_secret, redact_secrets, merge_field, hash_field, merge_fields,
}
use qiankun.Application.Configuration.{
  Pydantic, Knob, interval_seconds, max_concurrent_tasks, default_timeout, cleanup_timeout,
  knob_name, named, default_of, is_within, in_bounds, read_knob, is_accepted, accepts_fields,
  knob_value, SystemBaseSettings,
}

-- A number of a field is within the bounds of the field.
abbrev pub IsWithin : Knob → ℕ → Type 0
IsWithin knob n = is_within knob n ≡ true

abbrev pub AreWithin : SystemBaseSettings → Type 0
AreWithin b =
    IsWithin interval_seconds b.interval
    × IsWithin max_concurrent_tasks b.concurrency
    × IsWithin default_timeout b.timeout
    × IsWithin cleanup_timeout b.cleanup

default_of-IsWithin : (knob : Knob) → IsWithin knob (default_of knob)
default_of-IsWithin interval_seconds = refl
default_of-IsWithin max_concurrent_tasks = refl
default_of-IsWithin default_timeout = refl
default_of-IsWithin cleanup_timeout = refl

in_bounds-IsWithin :
    (knob : Knob) (o : Option JsonInt) (n : ℕ) → in_bounds knob o ≡ some n → IsWithin knob n
in_bounds-IsWithin knob none n h = cc
in_bounds-IsWithin knob (some (JsonInt.negative m)) n h = cc
in_bounds-IsWithin knob (some (JsonInt.nonnegative m)) n h = elim (Bool-cases (is_within knob m)) [
  | inl y ↦
      let held : some m ≡ some n = rw y at h in
      let same : m ≡ n = cc in subst (IsWithin knob) same y
  | inr f ↦ cc (let held : none ≡ some n = rw f at h in held)
]

pub knob_value-IsWithin :
    (p : Pydantic) (knob : Knob) (fs : Fields) → IsWithin knob (knob_value p knob fs)
knob_value-IsWithin p knob fs = elim (Option-cases (get_field (knob_name knob) fs)) [
  | inl absent ↦ rw absent (default_of-IsWithin knob)
  | inr (v, there) ↦ elim (Option-cases (read_knob p knob v)) [
    | inl bad ↦ rw (there, bad) (default_of-IsWithin knob)
    | inr (n, good) ↦ rw (there, good) (in_bounds-IsWithin knob _ n good)
  ]
]

named-knob_name : (key : String) (knob : Knob) → named key ≡ some knob → knob_name knob ≡ key
named-knob_name key knob h = ground (
  arith,
  eq_iff key "interval_seconds",
  eq_iff key "max_concurrent_tasks",
  eq_iff key "default_timeout",
  eq_iff key "cleanup_timeout",
)

knob_name-plain : (knob : Knob) → is_secret (knob_name knob) ≡ false
knob_name-plain interval_seconds = refl
knob_name-plain max_concurrent_tasks = refl
knob_name-plain default_timeout = refl
knob_name-plain cleanup_timeout = refl

is_accepted-plain :
    (p : Pydantic) (key : String) (v : Value) → is_accepted p key v ≡ true → is_secret key ≡ false
is_accepted-plain p key v h = elim (Option-cases (named key)) [
  | inl nothing ↦ cc (let bad : false ≡ true = rw nothing at h in bad)
  | inr (knob, is_knob) ↦
      subst (λ (k : String). is_secret k ≡ false) (named-knob_name key knob is_knob)
        (knob_name-plain knob)
]

-- What two tests accept together each of them accepts.
both : (a b : Bool) → (a && b) ≡ true → (a ≡ true) × (b ≡ true)
both true b h = (refl, h)
both false b h = cc

plain-password : (key : String) → is_secret key ≡ false → str_eq key "password" ≡ false
plain-password key h = elim (Bool-cases (str_eq key "password")) [
  | inl y ↦ cc (let bad : true ≡ false = rw y at h in bad)
  | inr n ↦ n
]

module _ (p : Pydantic) where
  pub redact_secrets-accepted : (fs : Fields) → accepts_fields p fs ≡ true → redact_secrets fs ≡ fs
  unfolding accepts_fields redact_secrets
  redact_secrets-accepted Fields.end h = refl
  redact_secrets-accepted (Fields.field key v fs) h =
      let (one, others) = both (is_accepted p key v) (accepts_fields p fs) h in
      rw (is_accepted-plain p key v one, redact_secrets-accepted fs others) refl

  pub merge_fields-accepted :
      (h : Hashing) (stored fs : Fields)
      → accepts_fields p fs ≡ true
      → merge_fields h stored fs ≡ ok fs
  unfolding accepts_fields merge_fields merge_field hash_field
  merge_fields-accepted h stored Fields.end accepted = refl
  merge_fields-accepted h stored (Fields.field key v fs) accepted =
      let (one, others) = both (is_accepted p key v) (accepts_fields p fs) accepted in
      let plain = is_accepted-plain p key v one in
      rw (plain, plain-password key plain, merge_fields-accepted h stored fs others) refl

  accepts_fields-set_field :
      (key : String) (v : Value) (fs : Fields)
      → is_accepted p key v ≡ true
      → accepts_fields p fs ≡ true
      → accepts_fields p (set_field key v fs) ≡ true
  unfolding accepts_fields
  accepts_fields-set_field key v Fields.end one h = rw one refl
  accepts_fields-set_field key v (Fields.field j w fs) one h =
      let (first, others) = both (is_accepted p j w) (accepts_fields p fs) h in
      elim (Bool-cases (str_eq j key)) [
        | inl e ↦
            let same : key ≡ j = sym ((eq_iff j key).0 e) in
            let here : is_accepted p j v ≡ true =
              subst (λ (k : String). is_accepted p k v ≡ true) same one in
            rw (e, here, others) refl
        | inr n ↦ rw (n, first, accepts_fields-set_field key v fs one others) refl
      ]

  pub accepts_fields-update_fields :
      (old new : Fields)
      → accepts_fields p old ≡ true
      → accepts_fields p new ≡ true
      → accepts_fields p (update_fields old new) ≡ true
  unfolding accepts_fields
  accepts_fields-update_fields old Fields.end h k = h
  accepts_fields-update_fields old (Fields.field key v new) h k =
      let (one, others) = both (is_accepted p key v) (accepts_fields p new) k in
      accepts_fields-update_fields (set_field key v old) new
        (accepts_fields-set_field key v old one h) others

  -- The row (system, base) is one that the schema accepts.
  abbrev pub IsSettled : Db → Type 0
  IsSettled db =
      (row : SystemSetting) × (fields : Fields) × (find_setting "system" "base" db.settings
        ≡ some row)
      × (row.value ≡ Value.dict fields)
      × (accepts_fields p fields ≡ true)
