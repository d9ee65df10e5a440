-- ===== src/Rustdoc/Items/Signature.antt =====
-- The parameters, the type and the signature of an item.
use docx_mcp.Base.{
  ℕ, Bool, ◌||◌, Option, none, some, List, [], ◌∷◌, ◌++◌, if◌then◌else◌, ◌==◌, list_eq, nat_eq,
  is_empty, filter_map, map, unwrap_or, ◌>>=◌,
}
use docx_mcp.Text.{Text, codes, join}
use docx_mcp.Models.{
  Value, get_field, get_value, as_str, as_u64, as_array, is_null, Param, TypeParam, TypeRef,
  type_ref, no_types, type_display,
}
use docx_mcp.Schema.{make_symbol_key}
use docx_mcp.Collections.HashMap
use docx_mcp.Rustdoc.Crate.{RustdocItem, RustdocParseOptions, inner_kind}
use docx_mcp.Rustdoc.Types.{type_to_string}

-- What `type_symbol_key` reads of the parser's state: the options and the paths of the items so far.
unfoldable pub type_symbol_key : Value → RustdocParseOptions → List (ℕ × Text) → Option Text
unfolding make_symbol_key HashMap.get
type_symbol_key value options id_to_path = do
  resolved ← get_value value (codes "resolved_path")
  id ← get_value resolved (codes "id") >>= as_u64
  path ← HashMap.get id id_to_path
  some (make_symbol_key (codes "rust") options.project_id path)

unfoldable pub type_to_ref : Value → RustdocParseOptions → List (ℕ × Text) → TypeRef
unfolding type_to_string type_symbol_key
type_to_ref value options id_to_path =
    let display = unwrap_or (type_to_string value) (codes "<unknown>") in
    type_ref (some display) (some display) (some options.language)
      (type_symbol_key value options id_to_path) no_types []

abbrev param_text : Param → Text
param_text param = elim (param.type_ref >>= type_display) [
  | none ↦ param.name
  | some ty ↦ if is_empty param.name then ty else param.name ++ (codes ": " ++ ty)
]

unfoldable pub format_function_signature : Text → List Param → Option TypeRef → Text
format_function_signature name params output =
    let sig =
      codes "fn "
      ++ (name ++ (codes "(" ++ (join (map param_text params) (codes ", ") ++ codes ")"))) in
    elim (output >>= type_display) [
      | none ↦ sig
      | some text ↦ if text == codes "()" then sig else sig ++ (codes " -> " ++ text)
    ]

-- A parameter from a pair of a name and a type; anything else is skipped.
abbrev input_pair : List Value → Option (Value × Value)
input_pair (a ∷ (b ∷ [])) = some (a, b)
input_pair _ = none

unfoldable pub input_param : RustdocParseOptions → List (ℕ × Text) → Value → Option Param
unfolding type_to_ref
input_param options id_to_path input = do
  items ← as_array input
  pair ← input_pair items
  some (record {
    name = unwrap_or (as_str pair.0) [];
    type_ref = some (type_to_ref pair.1 options id_to_path);
    default_value = none;
    is_optional = none;
  })

-- The type of an item that is not a function.
abbrev value_type : RustdocItem → Option Text → Option Value
value_type item none = none
value_type item (some kind) =
    if kind == codes "constant"
    then (get_field (codes "constant") item.inner >>= λ value. get_value value (codes "type"))
    else if kind == codes "static"
    then (get_field (codes "static") item.inner >>= λ value. get_value value (codes "type"))
    else if kind == codes "struct_field"
    then get_field (codes "struct_field") item.inner
    else if kind == codes "type_alias"
    then (get_field (codes "type_alias") item.inner >>= λ value. get_value value (codes "type"))
    else none

unfoldable pub parse_signature :
    RustdocItem
    → RustdocParseOptions
    → List (ℕ × Text)
    → Text
    → List Param × Option TypeRef × Option Text
unfolding type_to_ref input_param format_function_signature
parse_signature item options id_to_path name = elim (get_field (codes "function") item.inner) [
  | none ↦ (
    [],
    value_type item (inner_kind item) >>= (λ ty. some (type_to_ref ty options id_to_path)),
    none,
  )
  | some inner ↦ elim (get_value inner (codes "sig")) [
    | none ↦ ([], none, none)
    | some sig ↦
        let inputs = unwrap_or (get_value sig (codes "inputs") >>= as_array) [] in
        let params = filter_map (input_param options id_to_path) inputs in
        let return_type = get_value sig (codes "output") >>= λ output.
        if is_null output then none else some (type_to_ref output options id_to_path) in
        (params, return_type, some (format_function_signature name params return_type))
  ]
]

abbrev is_generic_kind : Text → Bool
is_generic_kind kind =
    kind == codes "function"
    || (kind == codes "struct"
        || (kind == codes "enum" || (kind == codes "trait" || kind == codes "type_alias")))

abbrev bound_path : Value → Option Text
bound_path bound = do
  trait_bound ← get_value bound (codes "trait_bound")
  trait_path ← get_value trait_bound (codes "trait")
  path ← get_value trait_path (codes "path")
  as_str path

abbrev param_bounds : Value → Option (List Value)
param_bounds param = do
  kind ← get_value param (codes "kind")
  type_info ← get_value kind (codes "type")
  bounds ← get_value type_info (codes "bounds")
  as_array bounds

unfoldable pub type_param : Value → Option TypeParam
type_param param = do
  name ← get_value param (codes "name") >>= as_str
  some (record {
    name = name;
    constraints = filter_map bound_path (unwrap_or (param_bounds param) []);
  })

abbrev generic_params : RustdocItem → Option (List Value)
generic_params item = do
  kind ← inner_kind item
  value ← if is_generic_kind kind then get_field kind item.inner else none
  generics ← get_value value (codes "generics")
  params ← get_value generics (codes "params")
  as_array params

unfoldable pub parse_type_params : RustdocItem → List TypeParam
unfolding type_param
parse_type_params item = filter_map type_param (unwrap_or (generic_params item) [])
