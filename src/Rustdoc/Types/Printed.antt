-- ===== src/Rustdoc/Types/Printed.antt =====
-- `type_to_string` writes the types of Rust in the syntax of Rust.
use docx_mcp.Base.{
  ℕ, Bool, true, false, Option, none, some, List, [], ◌∷◌, ◌++◌, ◌≡◌, refl, ap, ◌∙◌, if◌then◌else◌,
  nat_eq, list_eq, is_empty, filter_map, or_option,
}
use docx_mcp.Text.{Text, codes, join}
use docx_mcp.Models.{Value, Items, item_list}
use docx_mcp.Rustdoc.Types.{
  primitive_type, generic_type, type_arg, angle_brackets, format_type_args, arg_items,
  trait_bound_to_string, resolved_path_type, borrowed_ref_type, raw_pointer_type, tuple_type,
  slice_type, array_type, impl_trait_type, qualified_path_type, pointer_param,
  function_pointer_type, type_step, type_to_string,
}
use docx_mcp.Rustdoc.Types.Syntax.{
  RustType, primitive, generic, path, reference, pointer, tuple, slice, array, impl_trait,
  projection, function, Types, no_types, one_type, Args, no_args, lifetime, type_argument, Bounds,
  last_bound, bound, only, both, bracket_items, path_value, bound_value, pointed, function_value,
  projection_value, param_value, to_json, types_json, params_json, args_json, bounds_json,
  bracketed, print, print_types, print_args, print_bounds,
}
use docx_mcp.Rustdoc.Types.Depth.{type_to_string_lem}

module _ (render : Value → Option Text) where
  brackets_text :
      (items : Items) (texts : List Text)
      → filter_map (type_arg render) (item_list items) ≡ texts
      → format_type_args render (some (bracket_items items)) ≡ bracketed texts
  unfolding format_type_args arg_items
  brackets_text items [] e = rw e refl
  brackets_text items (text ∷ texts) e = rw e refl

  primitive_step :
      (name : Text) → type_step render (only (codes "primitive") (Value.str name)) ≡ some name
  unfolding type_step primitive_type
  primitive_step name = refl

  generic_step :
      (name : Text) → type_step render (only (codes "generic") (Value.str name)) ≡ some name
  unfolding type_step primitive_type generic_type
  generic_step name = refl

  path_step :
      (name : Text) (items : Items) (texts : List Text)
      → filter_map (type_arg render) (item_list items) ≡ texts
      → type_step render (only (codes "resolved_path") (path_value name items))
        ≡ some (name ++ bracketed texts)
  unfolding type_step primitive_type generic_type resolved_path_type
  path_step name items texts e = ap (λ t. some (name ++ t)) (brackets_text items texts e)

  bound_text :
      (name : Text) (items : Items) (texts : List Text)
      → filter_map (type_arg render) (item_list items) ≡ texts
      → trait_bound_to_string render (bound_value name items) ≡ some (name ++ bracketed texts)
  unfolding trait_bound_to_string
  bound_text name items texts e = ap (λ t. some (name ++ t)) (brackets_text items texts e)

  module _ (inner : Value) (text : Text) (e : render inner ≡ some text) where
    reference_step :
        (is_mut : Bool)
        → type_step render (only (codes "borrowed_ref") (pointed is_mut inner))
          ≡ some (if is_mut then codes "&mut " ++ text else codes "&" ++ text)
    unfolding type_step primitive_type generic_type resolved_path_type borrowed_ref_type
    reference_step true = rw e refl
    reference_step false = rw e refl

    pointer_step :
        (is_mut : Bool)
        → type_step render (only (codes "raw_pointer") (pointed is_mut inner))
          ≡ some (if is_mut then codes "*mut " ++ text else codes "*const " ++ text)
    unfolding type_step primitive_type generic_type resolved_path_type borrowed_ref_type
        raw_pointer_type
    pointer_step true = rw e refl
    pointer_step false = rw e refl

    slice_step :
        type_step render (only (codes "slice") inner) ≡ some (codes "[" ++ (text ++ codes "]"))
    unfolding type_step primitive_type generic_type resolved_path_type borrowed_ref_type
        raw_pointer_type tuple_type slice_type
    slice_step = rw e refl

    array_step :
        (c : ℕ) (cs : Text)
        → type_step render
            (only (codes "array") (both (codes "type") inner (codes "len") (Value.str (c ∷ cs))))
          ≡ some (codes "[" ++ (text ++ (codes "; " ++ (c ∷ cs ++ codes "]"))))
    unfolding type_step primitive_type generic_type resolved_path_type borrowed_ref_type
        raw_pointer_type tuple_type slice_type array_type
    array_step c cs = rw e refl

    projection_step :
        (c : ℕ) (cs name : Text)
        → type_step render (projection_value inner (c ∷ cs) name)
          ≡ some (codes "<" ++ (text ++ (codes " as " ++ (c ∷ cs ++ (codes ">::" ++ name)))))
    unfolding type_step primitive_type generic_type resolved_path_type borrowed_ref_type
        raw_pointer_type tuple_type slice_type array_type impl_trait_type
        docx_mcp.Rustdoc.Types.dyn_trait_type qualified_path_type
    projection_step c cs name = rw e refl

    function_step :
        (items : Items) (texts : List Text)
        → filter_map (pointer_param render) (item_list items) ≡ texts
        → type_step render (function_value items inner)
          ≡ some (codes "fn(" ++ (join texts (codes ", ") ++ (codes ") -> " ++ text)))
    unfolding type_step primitive_type generic_type resolved_path_type borrowed_ref_type
        raw_pointer_type tuple_type slice_type array_type impl_trait_type
        docx_mcp.Rustdoc.Types.dyn_trait_type qualified_path_type function_pointer_type
    function_step items texts p = rw (e, p) refl

  tuple_step :
      (items : Items) (texts : List Text)
      → filter_map render (item_list items) ≡ texts
      → type_step render (only (codes "tuple") (Value.arr items))
        ≡ some (codes "(" ++ (join texts (codes ", ") ++ codes ")"))
  unfolding type_step primitive_type generic_type resolved_path_type borrowed_ref_type
      raw_pointer_type tuple_type
  tuple_step items texts e = rw e refl

  impl_step :
      (items : Items) (texts : List Text)
      → filter_map (trait_bound_to_string render) (item_list items) ≡ texts
      → is_empty (join texts (codes " + ")) ≡ false
      → type_step render (only (codes "impl_trait") (Value.arr items))
        ≡ some (codes "impl " ++ join texts (codes " + "))
  unfolding type_step primitive_type generic_type resolved_path_type borrowed_ref_type
      raw_pointer_type tuple_type slice_type array_type impl_trait_type
  impl_step items texts e full = rw (e, full) refl

filter_map-cons :
    (f : Value → Option Text) (v : Value) (text : Text) (vs : List Value) (texts : List Text)
    → f v ≡ some text
    → filter_map f vs ≡ texts
    → filter_map f (v ∷ vs) ≡ text ∷ texts
filter_map-cons f v text vs texts e p =
    ap (λ o. elim o [ none ↦ filter_map f vs | some y ↦ y ∷ filter_map f vs ]) e ∙ ap (◌∷◌ text) p

join-bounds : (bounds : Bounds) → is_empty (join (print_bounds bounds) (codes " + ")) ≡ false
unfolding print join
join-bounds (last_bound c name args) = refl
join-bounds (bound c name args (last_bound d name' args')) = refl
join-bounds (bound c name args (bound d name' args' bounds)) = refl

type_step-print :
    (t : RustType)
    → type_step type_to_string (to_json t) ≡ some (print t)
    → type_to_string (to_json t) ≡ some (print t)
type_step-print t e = (type_to_string_lem (to_json t)).0 ∙ e

mutual
  unfolding to_json print trait_bound_to_string pointer_param type_arg

  prints : (t : RustType) → type_to_string (to_json t) ≡ some (print t)
  prints (primitive name) = type_step-print (primitive name) (primitive_step type_to_string name)
  prints (generic name) = type_step-print (generic name) (generic_step type_to_string name)
  prints (path name args) =
      type_step-print (path name args)
        (path_step type_to_string name (args_json args) (print_args args) (prints_args args))
  prints (reference true t) =
      type_step-print (reference true t)
        (reference_step type_to_string (to_json t) (print t) (prints t) true)
  prints (reference false t) =
      type_step-print (reference false t)
        (reference_step type_to_string (to_json t) (print t) (prints t) false)
  prints (pointer true t) =
      type_step-print (pointer true t)
        (pointer_step type_to_string (to_json t) (print t) (prints t) true)
  prints (pointer false t) =
      type_step-print (pointer false t)
        (pointer_step type_to_string (to_json t) (print t) (prints t) false)
  prints (tuple ts) =
      type_step-print (tuple ts)
        (tuple_step type_to_string (types_json ts) (print_types ts) (prints_types ts))
  prints (slice t) =
      type_step-print (slice t) (slice_step type_to_string (to_json t) (print t) (prints t))
  prints (array t c cs) =
      type_step-print (array t c cs)
        (array_step type_to_string (to_json t) (print t) (prints t) c cs)
  prints (impl_trait bounds) = type_step-print (impl_trait bounds) (
      impl_step type_to_string (bounds_json bounds) (print_bounds bounds) (prints_bounds bounds)
        (join-bounds bounds))
  prints (projection t c cs name) =
      type_step-print (projection t c cs name)
        (projection_step type_to_string (to_json t) (print t) (prints t) c cs name)
  prints (function ts t) = type_step-print (function ts t) (
      function_step type_to_string (to_json t) (print t) (prints t) (params_json ts)
        (print_types ts) (prints_params ts))

  prints_types :
      (ts : Types) → filter_map type_to_string (item_list (types_json ts)) ≡ print_types ts
  prints_types no_types = refl
  prints_types (one_type t ts) =
      filter_map-cons type_to_string (to_json t) (print t) (item_list (types_json ts))
        (print_types ts) (prints t) (prints_types ts)

  prints_params :
      (ts : Types)
      → filter_map (pointer_param type_to_string) (item_list (params_json ts)) ≡ print_types ts
  prints_params no_types = refl
  prints_params (one_type t ts) =
      filter_map-cons (pointer_param type_to_string) (param_value (to_json t)) (print t)
        (item_list (params_json ts)) (print_types ts) (prints t) (prints_params ts)

  prints_args :
      (args : Args)
      → filter_map (type_arg type_to_string) (item_list (args_json args)) ≡ print_args args
  prints_args no_args = refl
  prints_args (lifetime name args) =
      filter_map-cons (type_arg type_to_string) (only (codes "lifetime") (Value.str name)) name
        (item_list (args_json args)) (print_args args) refl (prints_args args)
  prints_args (type_argument t args) =
      filter_map-cons (type_arg type_to_string) (only (codes "type") (to_json t)) (print t)
        (item_list (args_json args)) (print_args args) (ap (λ o. or_option o none) (prints t))
        (prints_args args)

  prints_bounds :
      (bounds : Bounds)
      → filter_map (trait_bound_to_string type_to_string) (item_list (bounds_json bounds))
        ≡ print_bounds bounds
  prints_bounds (last_bound c name args) =
      filter_map-cons (trait_bound_to_string type_to_string)
        (bound_value (c ∷ name) (args_json args)) (c ∷ name ++ bracketed (print_args args)) [] []
        (bound_text type_to_string (c ∷ name) (args_json args) (print_args args) (prints_args args))
        refl
  prints_bounds (bound c name args bounds) =
      filter_map-cons (trait_bound_to_string type_to_string)
        (bound_value (c ∷ name) (args_json args)) (c ∷ name ++ bracketed (print_args args))
        (item_list (bounds_json bounds)) (print_bounds bounds)
        (bound_text type_to_string (c ∷ name) (args_json args) (print_args args) (prints_args args))
        (prints_bounds bounds)
