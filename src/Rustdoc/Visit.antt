-- ===== src/Rustdoc/Visit.antt =====
-- The visitors of `ParserState`, and `RustdocJsonParser::parse` behind the reading of the JSON text.
--
-- The items form a graph, so the visit runs on fuel, which only entering an unseen module uses up.
pub mod Ends
pub mod Added
pub mod Fuel
pub mod Consistent
pub mod Cover
pub mod Reach
use docx_mcp.Base.{
  ℕ, zero, suc, Bool, true, false, not, ◌||◌, Option, none, some, List, [], ◌∷◌, ◌++◌,
  if◌then◌else◌, ◌==◌, list_eq, nat_eq, option_eq, is_empty, filter_map, unwrap_or, ◌>>=◌, length,
}
use docx_mcp.Text.{Text, codes, trim, to_decimal}
use docx_mcp.Models.{Value, get_field, get_value, as_str, as_array, Symbol, DocBlock}
use docx_mcp.Collections.HashMap
use docx_mcp.Collections.HashSet
use docx_mcp.Rustdoc.Crate.{
  RustdocParseOptions, RustdocItem, RustdocCrate, RustdocParseOutput, inner_kind, build_id_path_map,
}
use docx_mcp.Rustdoc.Keys.{make_unique_symbol_key, qualified_name_for_item}
use docx_mcp.Rustdoc.Markdown.{ParsedDocs, parse_markdown_docs}
use docx_mcp.Rustdoc.Items.{
  is_inner_kind, ids_at, module_items, struct_kind_fields, span_location, build_symbol,
  build_doc_block,
}
use docx_mcp.Rustdoc.Items.Signature.{parse_signature, parse_type_params}
use docx_mcp.Rustdoc.State.{
  Parser, ParserState, Run, visited, exhausted, no_fuel, and_then, each_id, get_item, local_item,
  item_name, docs_of, parsed_docs_of, symbol_for, doc_blocks_for, push_symbol, add_symbol,
  with_symbol, symbol_only, add_member,
}

unfoldable pub visit_struct_fields : Parser → RustdocItem → Text → ParserState → Run
unfolding add_member struct_kind_fields
visit_struct_fields p item owner_name s =
    let fields = get_field (codes "struct") item.inner >>= λ inner.
    get_value inner (codes "kind") >>= λ kind. some (struct_kind_fields kind) in
    each_id (add_member p owner_name (codes "field")) (unwrap_or fields []) s

unfoldable pub visit_enum_variants : Parser → RustdocItem → Text → ParserState → Run
unfolding add_member
visit_enum_variants p item owner_name s =
    let variants =
      get_field (codes "enum") item.inner >>= λ inner. some (ids_at (codes "variants") inner) in
    each_id (add_member p owner_name (codes "variant")) (unwrap_or variants []) s

unfoldable pub visit_trait_items : Parser → RustdocItem → Text → ParserState → Run
unfolding add_member
visit_trait_items p item owner_name s =
    let items =
      get_field (codes "trait") item.inner >>= λ inner. some (ids_at (codes "items") inner) in
    each_id (add_member p owner_name (codes "trait_item")) (unwrap_or items []) s

-- `entry(owner).or_default().push(path)` for the implementation of a trait.
abbrev pub push_trait : Text → Text → List (Text × List Text) → List (Text × List Text)
push_trait owner_name path impls =
    HashMap.insert owner_name (unwrap_or (HashMap.get owner_name impls) [] ++ path ∷ []) impls

unfoldable pub note_trait : Text → Value → ParserState → ParserState
unfolding HashMap.insert HashMap.get
note_trait owner_name impl_inner s =
    elim (get_value impl_inner (codes "trait") >>= λ trait_ref.
    get_value trait_ref (codes "path") >>= as_str) [
      | none ↦ s
      | some path ↦ record s { trait_impls = push_trait owner_name path s.trait_impls }
    ]

unfoldable pub visit_impl : Parser → Text → ℕ → ParserState → Run
unfolding local_item note_trait add_member
visit_impl p owner_name impl_id s =
    elim (local_item p impl_id >>= λ impl_item. get_field (codes "impl") impl_item.inner) [
      | none ↦ visited s
      | some impl_inner ↦
          each_id (add_member p owner_name (codes "method")) (ids_at (codes "items") impl_inner)
            (note_trait owner_name impl_inner s)
    ]

abbrev impls_of : RustdocItem → Text → List ℕ
impls_of item kind =
    unwrap_or (get_field kind item.inner >>= λ value. some (ids_at (codes "impls") value)) []

-- The ids of the impl blocks of a struct, an enum or a trait.
unfoldable pub impl_ids : RustdocItem → List ℕ
impl_ids item =
    if is_inner_kind item (codes "struct")
    then impls_of item (codes "struct")
    else if is_inner_kind item (codes "enum")
    then impls_of item (codes "enum")
    else if is_inner_kind item (codes "trait")
    then impls_of item (codes "trait")
    else []

unfoldable pub visit_impls : Parser → RustdocItem → Text → ParserState → Run
unfolding visit_impl impl_ids
visit_impls p item owner_name s = each_id (visit_impl p owner_name) (impl_ids item) s

abbrev pub child_path : List Text → RustdocItem → List Text
child_path module_path item =
    if is_empty (item_name item) then module_path else module_path ++ item_name item ∷ []

-- The arms of the `match` on the kind of an item; the last stands for every other kind and none.
pub data ItemKind : Type 0 where
  struct_kind enum_kind trait_kind function_kind type_alias_kind constant_kind static_kind
        union_kind macro_kind module_kind other_kind :
      ItemKind

unfoldable pub item_kind : RustdocItem → ItemKind
item_kind item =
    if is_inner_kind item (codes "struct")
    then struct_kind
    else if is_inner_kind item (codes "enum")
    then enum_kind
    else if is_inner_kind item (codes "trait")
    then trait_kind
    else if is_inner_kind item (codes "function")
    then function_kind
    else if is_inner_kind item (codes "type_alias")
    then type_alias_kind
    else if is_inner_kind item (codes "constant")
    then constant_kind
    else if is_inner_kind item (codes "static")
    then static_kind
    else if is_inner_kind item (codes "union")
    then union_kind
    else if is_inner_kind item (codes "macro")
    then macro_kind
    else if is_inner_kind item (codes "module")
    then module_kind
    else other_kind

-- Modules go to the visitor of modules.
unfoldable pub visit_kind :
    Parser
    → (ℕ → List Text → ParserState → Run)
    → ItemKind
    → RustdocItem
    → ℕ
    → List Text
    → ParserState
    → Run
unfolding with_symbol visit_struct_fields visit_enum_variants visit_trait_items visit_impls
visit_kind p enter struct_kind item item_id path s =
    with_symbol p item path none (codes "struct") s
      (λ name t. and_then (visit_struct_fields p item name t) (visit_impls p item name))
visit_kind p enter enum_kind item item_id path s =
    with_symbol p item path none (codes "enum") s
      (λ name t. and_then (visit_enum_variants p item name t) (visit_impls p item name))
visit_kind p enter trait_kind item item_id path s =
    with_symbol p item path none (codes "trait") s
      (λ name t. and_then (visit_trait_items p item name t) (visit_impls p item name))
visit_kind p enter function_kind item item_id path s = symbol_only p item path (codes "function") s
visit_kind p enter type_alias_kind item item_id path s =
    symbol_only p item path (codes "type_alias") s
visit_kind p enter constant_kind item item_id path s = symbol_only p item path (codes "const") s
visit_kind p enter static_kind item item_id path s = symbol_only p item path (codes "static") s
visit_kind p enter union_kind item item_id path s = symbol_only p item path (codes "union") s
visit_kind p enter macro_kind item item_id path s = symbol_only p item path (codes "macro") s
visit_kind p enter module_kind item item_id path s = enter item_id (child_path path item) s
visit_kind p enter other_kind item item_id path s = visited s

abbrev pub mark : ℕ → ParserState → ParserState
mark id s = record s { seen = HashSet.insert id s.seen }

-- What `visit_module` and `visit_item` begin with: only an unseen item of the root crate is marked as
-- seen and visited.
unfoldable pub unseen_item : Parser → ℕ → ParserState → (RustdocItem → ParserState → Run) → Run
unfolding local_item HashSet.contains HashSet.insert
unseen_item p id s visit =
    if HashSet.contains id s.seen
    then visited s
    else (elim (local_item p id) [ none ↦ visited s | some item ↦ visit item (mark id s) ])

unfoldable pub visit_item :
    Parser → (ℕ → List Text → ParserState → Run) → ℕ → List Text → ParserState → Run
unfolding unseen_item visit_kind item_kind
visit_item p enter item_id module_path s =
    unseen_item p item_id s
      (λ item t. visit_kind p enter (item_kind item) item item_id module_path t)

-- The body of the loop over the items of a module.
unfoldable pub visit_child :
    Parser → (ℕ → List Text → ParserState → Run) → List Text → ℕ → ParserState → Run
unfolding local_item visit_item
visit_child p enter module_path child_id s = elim (local_item p child_id) [
  | none ↦ visited s
  | some child ↦
      if is_inner_kind child (codes "module")
      then enter child_id (child_path module_path child) s
      else visit_item p enter child_id module_path s
]

-- The rest of `visit_module`: the module's symbol, and then its items.
unfoldable pub visit_items :
    Parser → (ℕ → List Text → ParserState → Run) → List Text → RustdocItem → ParserState → Run
unfolding with_symbol visit_child module_items
visit_items p enter module_path item s =
    with_symbol p item module_path none (codes "module") s
      (λ name t. each_id (visit_child p enter module_path) (module_items item) t)

unfoldable pub visit_module : Parser → ℕ → ℕ → List Text → ParserState → Run
unfolding unseen_item visit_items
visit_module p zero module_id module_path s = unseen_item p module_id s (λ item t. no_fuel)
visit_module p (suc fuel) module_id module_path s =
    unseen_item p module_id s (visit_items p (visit_module p fuel) module_path)

pub data Parsed : Type 0 where
  parsed : RustdocParseOutput → Parsed
  missing_root : Parsed
  unfinished : Run → Parsed

abbrev pub output_of : RustdocCrate → RustdocItem → Run → Parsed
output_of crate_doc root_item (visited s) = parsed (record {
  crate_name = root_item.name;
  crate_version = crate_doc.crate_version;
  format_version = crate_doc.format_version;
  includes_private = crate_doc.includes_private;
  symbols = s.symbols;
  doc_blocks = s.doc_blocks;
  trait_impls = s.trait_impls;
})
output_of crate_doc root_item run = unfinished run

abbrev pub parser_for : (Value → Text) → RustdocParseOptions → RustdocCrate → RustdocItem → Parser
parser_for print_json options crate_doc root_item = record {
  index = crate_doc.index;
  options = options;
  root_crate_id = root_item.crate_id;
  print_json = print_json;
}

abbrev pub start_state : RustdocCrate → RustdocItem → ParserState
start_state crate_doc root_item = record {
  id_to_path = build_id_path_map crate_doc.paths root_item.crate_id;
  symbols = [];
  doc_blocks = [];
  seen = [];
  used_symbol_keys = [];
  trait_impls = [];
}

abbrev pub root_path : Option Text → List Text
root_path none = []
root_path (some name) = name ∷ []

-- One unit of fuel for each item of the index.
abbrev pub visit_crate : (Value → Text) → RustdocParseOptions → RustdocCrate → RustdocItem → Run
visit_crate print_json options crate_doc root_item =
    visit_module (parser_for print_json options crate_doc root_item) (length crate_doc.index)
      crate_doc.root (root_path root_item.name) (start_state crate_doc root_item)

unfoldable pub parse : (Value → Text) → RustdocParseOptions → RustdocCrate → Parsed
unfolding visit_module HashMap.get build_id_path_map
parse print_json options crate_doc =
    elim (HashMap.get (to_decimal crate_doc.root) crate_doc.index) [
      | none ↦ missing_root
      | some root_item ↦
          output_of crate_doc root_item (visit_crate print_json options crate_doc root_item)
    ]
