-- ===== src/Rustdoc/Types/Syntax.antt =====
-- The types of Rust, their form in rustdoc JSON, and their text in the syntax of Rust: what
-- `type_to_string` reads and writes.
use docx_mcp.Base.{ℕ, Bool, true, false, List, [], ◌∷◌, ◌++◌}
use docx_mcp.Text.{Text, codes, join}
use docx_mcp.Models.{Value, Items, Fields}

mutual
  -- A type of Rust, of the kinds below. The flag of a reference and of a pointer is `mut`; the length
  -- of an array is a first character and the rest.
  pub data RustType : Type 0 where
    primitive generic : Text → RustType
    path : Text → Args → RustType
    reference pointer : Bool → RustType → RustType
    tuple : Types → RustType
    slice : RustType → RustType
    array : RustType → ℕ → Text → RustType
    impl_trait : Bounds → RustType
    projection : RustType → ℕ → Text → Text → RustType
    function : Types → RustType → RustType

  pub data Types : Type 0 where
    no_types : Types
    one_type : RustType → Types → Types

  -- The arguments of a path.
  pub data Args : Type 0 where
    no_args : Args
    lifetime : Text → Args → Args
    type_argument : RustType → Args → Args

  -- The bounds of an `impl`, one at least; the path of each is a first character and the rest.
  pub data Bounds : Type 0 where
    last_bound : ℕ → Text → Args → Bounds
    bound : ℕ → Text → Args → Bounds → Bounds

-- `{"key": value}`
abbrev pub only : Text → Value → Value
only key value = Value.obj (Fields.field key value Fields.end)

abbrev pub both : Text → Value → Text → Value → Value
both key value key' value' =
    Value.obj (Fields.field key value (Fields.field key' value' Fields.end))

abbrev pub bracket_items : Items → Value
bracket_items items = only (codes "angle_bracketed") (only (codes "args") (Value.arr items))

abbrev pub path_value : Text → Items → Value
path_value name items = both (codes "path") (Value.str name) (codes "args") (bracket_items items)

abbrev pub bound_value : Text → Items → Value
bound_value name items = only (codes "trait_bound") (only (codes "trait") (path_value name items))

abbrev pub pointed : Bool → Value → Value
pointed is_mut value = both (codes "is_mutable") (Value.bool is_mut) (codes "type") value

abbrev pub function_value : Items → Value → Value
function_value inputs output =
    only (codes "function_pointer")
      (only (codes "decl") (both (codes "inputs") (Value.arr inputs) (codes "output") output))

abbrev pub projection_value : Value → Text → Text → Value
projection_value self_type trait_name name = only (codes "qualified_path") (
    Value.obj (
      Fields.field (codes "self_type") self_type (
        Fields.field (codes "trait") (only (codes "path") (Value.str trait_name))
          (Fields.field (codes "name") (Value.str name) Fields.end))))

-- A parameter of a function pointer, with its name.
abbrev pub param_value : Value → Value
param_value value = Value.arr (Items.cons (Value.str (codes "_")) (Items.cons value Items.nil))

-- The form of a type in rustdoc JSON.
unfoldable mutual
  pub to_json : RustType → Value
  to_json (primitive name) = only (codes "primitive") (Value.str name)
  to_json (generic name) = only (codes "generic") (Value.str name)
  to_json (path name args) = only (codes "resolved_path") (path_value name (args_json args))
  to_json (reference is_mut t) = only (codes "borrowed_ref") (pointed is_mut (to_json t))
  to_json (pointer is_mut t) = only (codes "raw_pointer") (pointed is_mut (to_json t))
  to_json (tuple ts) = only (codes "tuple") (Value.arr (types_json ts))
  to_json (slice t) = only (codes "slice") (to_json t)
  to_json (array t c cs) =
      only (codes "array") (both (codes "type") (to_json t) (codes "len") (Value.str (c ∷ cs)))
  to_json (impl_trait bounds) = only (codes "impl_trait") (Value.arr (bounds_json bounds))
  to_json (projection t c cs name) = projection_value (to_json t) (c ∷ cs) name
  to_json (function ts t) = function_value (params_json ts) (to_json t)

  pub types_json : Types → Items
  types_json no_types = Items.nil
  types_json (one_type t ts) = Items.cons (to_json t) (types_json ts)

  pub params_json : Types → Items
  params_json no_types = Items.nil
  params_json (one_type t ts) = Items.cons (param_value (to_json t)) (params_json ts)

  pub args_json : Args → Items
  args_json no_args = Items.nil
  args_json (lifetime name args) =
      Items.cons (only (codes "lifetime") (Value.str name)) (args_json args)
  args_json (type_argument t args) = Items.cons (only (codes "type") (to_json t)) (args_json args)

  pub bounds_json : Bounds → Items
  bounds_json (last_bound c name args) =
      Items.cons (bound_value (c ∷ name) (args_json args)) Items.nil
  bounds_json (bound c name args bounds) =
      Items.cons (bound_value (c ∷ name) (args_json args)) (bounds_json bounds)

-- The arguments of a path in their brackets; no brackets where there are none.
abbrev pub bracketed : List Text → Text
bracketed [] = []
bracketed (text ∷ texts) = codes "<" ++ (join (text ∷ texts) (codes ", ") ++ codes ">")

-- The text of a type in the syntax of Rust.
unfoldable mutual
  pub print : RustType → Text
  print (primitive name) = name
  print (generic name) = name
  print (path name args) = name ++ bracketed (print_args args)
  print (reference true t) = codes "&mut " ++ print t
  print (reference false t) = codes "&" ++ print t
  print (pointer true t) = codes "*mut " ++ print t
  print (pointer false t) = codes "*const " ++ print t
  print (tuple ts) = codes "(" ++ (join (print_types ts) (codes ", ") ++ codes ")")
  print (slice t) = codes "[" ++ (print t ++ codes "]")
  print (array t c cs) = codes "[" ++ (print t ++ (codes "; " ++ (c ∷ cs ++ codes "]")))
  print (impl_trait bounds) = codes "impl " ++ join (print_bounds bounds) (codes " + ")
  print (projection t c cs name) =
      codes "<" ++ (print t ++ (codes " as " ++ (c ∷ cs ++ (codes ">::" ++ name))))
  print (function ts t) =
      codes "fn(" ++ (join (print_types ts) (codes ", ") ++ (codes ") -> " ++ print t))

  pub print_types : Types → List Text
  print_types no_types = []
  print_types (one_type t ts) = print t ∷ print_types ts

  pub print_args : Args → List Text
  print_args no_args = []
  print_args (lifetime name args) = name ∷ print_args args
  print_args (type_argument t args) = print t ∷ print_args args

  pub print_bounds : Bounds → List Text
  print_bounds (last_bound c name args) = (c ∷ name ++ bracketed (print_args args)) ∷ []
  print_bounds (bound c name args bounds) =
      (c ∷ name ++ bracketed (print_args args)) ∷ print_bounds bounds
