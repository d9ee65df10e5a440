-- ===== src/Models/Json.antt =====
-- `serde_json::Value`, the public enumeration of the crate, with its documented accessors. A number
-- is kept as `num` where `as_u64` returns it, and by its text otherwise.
use docx_mcp.Base.{
  ℕ, suc, max, Bool, true, false, is_some, Option, none, some, List, [], ◌∷◌, ◌==◌, if◌then◌else◌,
  list_eq, nat_eq,
}
use docx_mcp.Text.{Text}

mutual
  pub data Value : Type 0 where
    null : Value
    bool : Bool → Value
    num : ℕ → Value
    other_num : Text → Value
    str : Text → Value
    arr : Items → Value
    obj : Fields → Value

  pub data Items : Type 0 where
    nil : Items
    cons : Value → Items → Items

  pub data Fields : Type 0 where
    end : Fields
    field : Text → Value → Fields → Fields

abbrev pub get_field : Text → Fields → Option Value
get_field k end = none
get_field k (field j v fs) = if k == j then some v else get_field k fs

-- `map.insert(k, v)`
abbrev pub put_field : Text → Value → Fields → Fields
put_field k v end = field k v end
put_field k v (field j w fs) = if k == j then field j v fs else field j w (put_field k v fs)

-- `value.get(key)`
abbrev pub get_value : Value → Text → Option Value
get_value (obj fs) k = get_field k fs
get_value _ k = none

-- `as_str`, `as_u64`, `as_bool`, `as_array`, `is_null` and `contains_key`.
abbrev pub as_str : Value → Option Text
as_str (str t) = some t
as_str _ = none

abbrev pub as_u64 : Value → Option ℕ
as_u64 (num n) = some n
as_u64 _ = none

abbrev pub as_bool : Value → Option Bool
as_bool (bool b) = some b
as_bool _ = none

abbrev pub item_list : Items → List Value
item_list nil = []
item_list (cons v vs) = v ∷ item_list vs

abbrev pub as_array : Value → Option (List Value)
as_array (arr vs) = some (item_list vs)
as_array _ = none

abbrev pub is_null : Value → Bool
is_null null = true
is_null _ = false

abbrev pub contains_key : Text → Fields → Bool
contains_key k fs = is_some (get_field k fs)

-- The first key, where there is one.
abbrev pub first_key : Fields → Option Text
first_key end = none
first_key (field k v fs) = some k

-- How deep a value is nested.
unfoldable mutual
  pub depth : Value → ℕ
  depth null = 1
  depth (bool b) = 1
  depth (num n) = 1
  depth (other_num t) = 1
  depth (str t) = 1
  depth (arr vs) = suc (depth_items vs)
  depth (obj fs) = suc (depth_fields fs)

  pub depth_items : Items → ℕ
  depth_items nil = 0
  depth_items (cons v vs) = max (depth v) (depth_items vs)

  pub depth_fields : Fields → ℕ
  depth_fields end = 0
  depth_fields (field k v fs) = max (depth v) (depth_fields fs)
