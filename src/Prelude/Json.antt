-- ===== src/Prelude/Json.antt =====
-- The JSON values that the JSONB columns and the payloads hold. A Python dict is its items in
-- order, with string keys.
use qiankun.Prelude.{ℕ, String, Bool, Option, none, some, List, [], ◌∷◌, str_eq, if◌then◌else◌}

-- `negative n` is -(n + 1).
pub data JsonInt : Type 0 where
  nonnegative negative : ℕ → JsonInt

mutual
  pub data Value : Type 0 where
    null : Value
    bool : Bool → Value
    int : JsonInt → Value
    str : String → Value
    list : Values → Value
    dict : Fields → Value

  pub data Values : Type 0 where
    nil : Values
    cons : Value → Values → Values

  pub data Fields : Type 0 where
    end : Fields
    field : String → Value → Fields → Fields

-- `d.get(k)`
abbrev pub get_field : String → Fields → Option Value
get_field k end = none
get_field k (field j v fs) = let rest = get_field k fs in if str_eq j k then some v else rest

-- `list(xs)`
abbrev pub to_list : Values → List Value
to_list nil = []
to_list (cons v vs) = v ∷ to_list vs

-- The empty object `{}`.
abbrev pub empty_dict : Value
empty_dict = dict end

-- `[*xs]` as a JSON array
abbrev pub from_list : List Value → Values
from_list [] = nil
from_list (v ∷ vs) = cons v (from_list vs)

-- `d[k] = v`
abbrev pub set_field : String → Value → Fields → Fields
set_field k v end = field k v end
set_field k v (field j w fs) =
    let rest = set_field k v fs in if str_eq j k then field j v fs else field j w rest

-- `{**old, **new}`
abbrev pub update_fields : Fields → Fields → Fields
update_fields old end = old
update_fields old (field k v new) = update_fields (set_field k v old) new
