-- ===== src/Rustdoc/Types.antt =====
-- Types of rustdoc JSON as text: `type_to_string` and the functions it tries in turn.
--
-- Each of these functions recurses through `type_to_string`; here it takes that as its first argument.
-- `type_to_string` itself runs on fuel.
pub mod Depth
pub mod Printed
pub mod Syntax
use docx_mcp.Base.{
  ℕ, zero, suc, Bool, true, false, not, Option, none, some, List, [], ◌∷◌, ◌++◌, if◌then◌else◌,
  is_empty, filter_map, or_option, unwrap_or, ◌>>=◌,
}
use docx_mcp.Text.{Text, codes, join}
use docx_mcp.Models.{Value, get_value, as_str, as_bool, as_array, depth}

unfoldable pub primitive_type : Value → Option Text
primitive_type value = get_value value (codes "primitive") >>= as_str

unfoldable pub generic_type : Value → Option Text
generic_type value = get_value value (codes "generic") >>= as_str

-- The pieces of `item.get("type")`, `item.get("lifetime")` and `item.get("const")`, in this order.
unfoldable pub type_arg : (Value → Option Text) → Value → Option Text
type_arg render item = or_option (get_value item (codes "type") >>= render) (
    or_option (get_value item (codes "lifetime") >>= as_str)
      (get_value item (codes "const") >>= as_str))

abbrev pub angle_brackets : List Text → Text
angle_brackets rendered =
    if is_empty rendered then [] else codes "<" ++ (join rendered (codes ", ") ++ codes ">")

unfoldable pub arg_items : Option Value → Option (List Value)
arg_items none = none
arg_items (some args) = get_value args (codes "angle_bracketed") >>= λ angle.
    get_value angle (codes "args") >>= as_array

unfoldable pub format_type_args : (Value → Option Text) → Option Value → Text
unfolding type_arg
format_type_args render args = elim (arg_items args) [
  | none ↦ []
  | some items ↦ angle_brackets (filter_map (type_arg render) items)
]

unfoldable pub trait_bound_to_string : (Value → Option Text) → Value → Option Text
unfolding format_type_args
trait_bound_to_string render value = do
  trait_bound ← get_value value (codes "trait_bound")
  trait_path ← get_value trait_bound (codes "trait")
  path ← get_value trait_path (codes "path") >>= as_str
  some (path ++ format_type_args render (get_value trait_path (codes "args")))

unfoldable pub resolved_path_type : (Value → Option Text) → Value → Option Text
unfolding format_type_args
resolved_path_type render value = do
  resolved ← get_value value (codes "resolved_path")
  path ← get_value resolved (codes "path") >>= as_str
  some (path ++ format_type_args render (get_value resolved (codes "args")))

abbrev pub flag : Value → Text → Bool
flag value key = unwrap_or (get_value value key >>= as_bool) false

unfoldable pub borrowed_ref_type : (Value → Option Text) → Value → Option Text
borrowed_ref_type render value = do
  borrowed ← get_value value (codes "borrowed_ref")
  inner ← get_value borrowed (codes "type") >>= render
  some (if flag borrowed (codes "is_mutable") then codes "&mut " ++ inner else codes "&" ++ inner)

unfoldable pub raw_pointer_type : (Value → Option Text) → Value → Option Text
raw_pointer_type render value = do
  raw ← get_value value (codes "raw_pointer")
  inner ← get_value raw (codes "type") >>= render
  some (if flag raw (codes "is_mutable") then codes "*mut " ++ inner else codes "*const " ++ inner)

unfoldable pub tuple_type : (Value → Option Text) → Value → Option Text
tuple_type render value = do
  tuple ← get_value value (codes "tuple") >>= as_array
  some (codes "(" ++ (join (filter_map render tuple) (codes ", ") ++ codes ")"))

unfoldable pub slice_type : (Value → Option Text) → Value → Option Text
slice_type render value = do
  inner ← get_value value (codes "slice") >>= render
  some (codes "[" ++ (inner ++ codes "]"))

unfoldable pub array_type : (Value → Option Text) → Value → Option Text
array_type render value = do
  array ← get_value value (codes "array")
  inner ← get_value array (codes "type") >>= render
  let len = unwrap_or (get_value array (codes "len") >>= as_str) []
  some (
      if is_empty len
      then codes "[" ++ (inner ++ codes "]")
      else codes "[" ++ (inner ++ (codes "; " ++ (len ++ codes "]"))))

abbrev pub bounded : Text → Text → Text
bounded keyword bounds = if is_empty bounds then keyword else keyword ++ (codes " " ++ bounds)

unfoldable pub impl_trait_type : (Value → Option Text) → Value → Option Text
unfolding trait_bound_to_string
impl_trait_type render value = do
  impl_trait ← get_value value (codes "impl_trait") >>= as_array
  some (
      bounded (codes "impl")
        (join (filter_map (trait_bound_to_string render) impl_trait) (codes " + ")))

unfoldable pub dyn_trait_type : (Value → Option Text) → Value → Option Text
unfolding trait_bound_to_string
dyn_trait_type render value = do
  dyn_trait ← get_value value (codes "dyn_trait")
  let traits = unwrap_or (get_value dyn_trait (codes "traits") >>= as_array) []
  some (
      bounded (codes "dyn") (join (filter_map (trait_bound_to_string render) traits) (codes " + ")))

abbrev pub qualified_text : Text → Text → Text → Option Text
qualified_text self_type trait_name name =
    if not (is_empty trait_name)
    then some (codes "<" ++ (self_type ++ (codes " as " ++ (trait_name ++ (codes ">::" ++ name)))))
    else if not (is_empty self_type)
    then some (self_type ++ (codes "::" ++ name))
    else none

unfoldable pub qualified_path_type : (Value → Option Text) → Value → Option Text
qualified_path_type render value = do
  qualified ← get_value value (codes "qualified_path")
  let name = unwrap_or (get_value qualified (codes "name") >>= as_str) []
  let self_type = unwrap_or (get_value qualified (codes "self_type") >>= render) []
  let trait_name =
      unwrap_or
        (get_value qualified (codes "trait") >>= λ inner. get_value inner (codes "path") >>= as_str)
        []
  qualified_text self_type trait_name name

-- `pair.as_array()` and `pair.get(1)`
abbrev pub second : List Value → Option Value
second (a ∷ (b ∷ rest)) = some b
second _ = none

unfoldable pub pointer_param : (Value → Option Text) → Value → Option Text
pointer_param render pair = as_array pair >>= second >>= render

unfoldable pub function_pointer_type : (Value → Option Text) → Value → Option Text
unfolding pointer_param
function_pointer_type render value = do
  fn_pointer ← get_value value (codes "function_pointer")
  decl ← get_value fn_pointer (codes "decl")
  let inputs = unwrap_or (get_value decl (codes "inputs") >>= as_array) []
  let output = unwrap_or (get_value decl (codes "output") >>= render) (codes "()")
  some (
      codes "fn("
      ++ (join (filter_map (pointer_param render) inputs) (codes ", ")
          ++ (codes ") -> " ++ output)))

-- One level of `type_to_string`: the first of the functions that answers.
unfoldable pub type_step : (Value → Option Text) → Value → Option Text
type_step render value = or_option (primitive_type value) (
    or_option (generic_type value) (
      or_option (resolved_path_type render value) (
        or_option (borrowed_ref_type render value) (
          or_option (raw_pointer_type render value) (
            or_option (tuple_type render value) (
              or_option (slice_type render value) (
                or_option (array_type render value) (
                  or_option (impl_trait_type render value) (
                    or_option (dyn_trait_type render value) (
                      or_option (qualified_path_type render value)
                        (function_pointer_type render value)))))))))))

unfoldable pub type_on_fuel : ℕ → Value → Option Text
unfolding type_step
type_on_fuel zero value = none
type_on_fuel (suc fuel) value = type_step (type_on_fuel fuel) value

-- The nesting of the value is enough fuel.
unfoldable pub type_to_string : Value → Option Text
unfolding type_on_fuel
type_to_string value = type_on_fuel (depth value) value
