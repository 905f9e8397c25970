-- ===== src/Application/Configuration.antt =====
-- app/core/config.py: the knobs of the scheduler and of the runtime, as they stand in a row of the settings,
-- and the options of the log. What pydantic reads out of a value is a parameter; the bounds are the
-- source's.
pub mod Accepted
pub mod Written
use qiankun.Prelude.{
  ℕ, zero, suc, String, Bool, true, false, ◌&&◌, Option, none, some, List, [], ◌∷◌, str_eq, leb,
  maybe, is_some, if◌then◌else◌,
}
use qiankun.Prelude.Exec.{Error, Result, ok, err, Exec, pure, lift, ◌>>=◌, and_then}
use qiankun.Prelude.Json.{JsonInt, Value, Fields, get_field, update_fields}
use qiankun.Infrastructure.Database.{SystemSetting, Db}
use qiankun.Application.Settings.{get as get_setting, stored_fields}

-- `as_int` is pydantic's `int`, and `as_float` its `float` in thousandths, other floats being left out; `has_unit` is the pattern of
-- `check_units` on a text.
pub record Pydantic : Type 0 where
  pub as_int : Value → Option JsonInt
  pub as_float : Value → Option JsonInt
  pub has_unit : String → Bool

-- The fields of `SystemBaseSettings`
pub data Knob : Type 0 where
  interval_seconds max_concurrent_tasks default_timeout cleanup_timeout : Knob

abbrev pub knob_name : Knob → String
knob_name interval_seconds = "interval_seconds"
knob_name max_concurrent_tasks = "max_concurrent_tasks"
knob_name default_timeout = "default_timeout"
knob_name cleanup_timeout = "cleanup_timeout"

-- `extra="forbid"`: any other key is refused.
abbrev pub named : String → Option Knob
named key =
    if str_eq key "interval_seconds"
    then some interval_seconds
    else if str_eq key "max_concurrent_tasks"
    then some max_concurrent_tasks
    else if str_eq key "default_timeout"
    then some default_timeout
    else if str_eq key "cleanup_timeout"
    then some cleanup_timeout
    else none

-- `Field(default=…)`; the interval is in thousandths of a second.
abbrev pub default_of : Knob → ℕ
default_of interval_seconds = 5000
default_of max_concurrent_tasks = 10
default_of default_timeout = 300
default_of cleanup_timeout = 30

-- `ge=…` and `le=…`
abbrev pub lower_limit : Knob → ℕ
lower_limit interval_seconds = 1000
lower_limit _ = 1

abbrev pub upper_limit : Knob → Option ℕ
upper_limit default_timeout = some 86400
upper_limit cleanup_timeout = some 600
upper_limit _ = none

abbrev pub is_within : Knob → ℕ → Bool
is_within knob n = leb (lower_limit knob) n && maybe (upper_limit knob) true (λ top. leb n top)

abbrev pub as_number : Pydantic → Knob → Value → Option JsonInt
as_number p interval_seconds v = p.as_float v
as_number p _ v = p.as_int v

-- One field: its number, if it is accepted.
abbrev pub in_bounds : Knob → Option JsonInt → Option ℕ
in_bounds knob none = none
in_bounds knob (some (JsonInt.negative n)) = none
in_bounds knob (some (JsonInt.nonnegative n)) = if is_within knob n then some n else none

abbrev pub read_knob : Pydantic → Knob → Value → Option ℕ
read_knob p knob v = in_bounds knob (as_number p knob v)

abbrev pub is_accepted : Pydantic → String → Value → Bool
is_accepted p key v = maybe (named key) false (λ knob. is_some (read_knob p knob v))

-- Every entry is a field, and is accepted.
unfoldable pub accepts_fields : Pydantic → Fields → Bool
accepts_fields p Fields.end = true
accepts_fields p (Fields.field key v fs) = is_accepted p key v && accepts_fields p fs

abbrev pub knob_value : Pydantic → Knob → Fields → ℕ
knob_value p knob fs =
    maybe (get_field (knob_name knob) fs) (default_of knob)
      (λ v. maybe (read_knob p knob v) (default_of knob) (λ n. n))

pub record SystemBaseSettings : Type 0 where
  pub interval : ℕ
  pub concurrency : ℕ
  pub timeout : ℕ
  pub cleanup : ℕ

-- `SystemBaseSettings.model_validate`; its exception is none of `core/exceptions.py`.
unfoldable pub validate_system_base : Pydantic → Fields → Result SystemBaseSettings
unfolding accepts_fields
validate_system_base p fs =
    if accepts_fields p fs
    then ok (record {
      interval = knob_value p interval_seconds fs;
      concurrency = knob_value p max_concurrent_tasks fs;
      timeout = knob_value p default_timeout fs;
      cleanup = knob_value p cleanup_timeout fs;
    })
    else err Error.unexpected

-- `SETTING_SCHEMAS[("system", "base")]`, as `put` asks it
abbrev pub base_schema : Pydantic → Value → Bool
base_schema p (Value.dict fs) = accepts_fields p fs
base_schema p _ = false

-- A text field of `LoggingSettings`: `check` is its validator, and the default is not validated.
abbrev pub read_text : (String → Bool) → String → String → Fields → Result String
read_text check key default fs = maybe (get_field key fs) (ok default) λ v. elim v [
  | Value.str text ↦ if check text then ok text else err Error.unexpected
  | _ ↦ err Error.unexpected
]

pub record LoggingSettings : Type 0 where
  pub level : String
  pub rotation : String
  pub retention : String
  pub directory : String

-- `LoggingSettings.model_validate`; other keys are ignored, and `check_units` is on two fields.
unfoldable pub validate_logging : Pydantic → Fields → Result LoggingSettings
validate_logging p fs = and_then (read_text (λ text. true) "level" "INFO" fs) λ level.
    and_then (read_text p.has_unit "rotation" "100 MB" fs) λ rotation.
      and_then (read_text p.has_unit "retention" "30 days" fs) λ retention.
        and_then (read_text (λ text. true) "directory" "logs" fs) λ directory. ok (record {
          level = level;
          rotation = rotation;
          retention = retention;
          directory = directory;
        })
