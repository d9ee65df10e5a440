-- ===== src/Rustdoc/Items.antt =====
-- What an item of rustdoc JSON says of its symbol.
pub mod Signature
use docx_mcp.Base.{
  ℕ, Bool, true, false, not, ◌||◌, Option, none, some, List, [], ◌∷◌, ◌++◌, if◌then◌else◌, ◌==◌,
  list_eq, nat_eq, option_eq, is_empty, is_some, filter_map, or_option, unwrap_or, ◌>>=◌,
}
use docx_mcp.Text.{Text, codes, trim, strip_prefix, strip_suffix, find_char, to_decimal}
use docx_mcp.Models.{
  Value, null, bool, num, other_num, str, arr, obj, get_field, get_value, as_str, as_u64, as_bool,
  as_array, contains_key, Symbol, DocBlock, Param, TypeParam, TypeRef, AttributeRef,
}
use docx_mcp.Rustdoc.Crate.{RustdocItem, RustdocSpan, RustdocParseOptions, inner_kind}
use docx_mcp.Rustdoc.Markdown.{ParsedDocs}

abbrev pub is_inner_kind : RustdocItem → Text → Bool
is_inner_kind item kind = inner_kind item == some kind

unfoldable pub extract_ids : List Value → List ℕ
extract_ids items = filter_map as_u64 items

-- The numbers of the list at a key, none where there is no list.
abbrev pub ids_at : Text → Value → List ℕ
ids_at key value =
    unwrap_or (get_value value key >>= as_array >>= λ items. some (filter_map as_u64 items)) []

unfoldable pub module_items : RustdocItem → List ℕ
module_items item =
    unwrap_or
      (get_field (codes "module") item.inner >>= λ value. some (ids_at (codes "items") value)) []

unfoldable pub struct_kind_fields : Value → List ℕ
struct_kind_fields kind = elim (get_value kind (codes "plain")) [
  | some plain ↦ ids_at (codes "fields") plain
  | none ↦ elim (get_value kind (codes "tuple")) [
    | some tuple ↦ ids_at (codes "fields") tuple
    | none ↦ []
  ]
]

unfoldable pub span_location : RustdocItem → Option Text × Option ℕ × Option ℕ
span_location item = elim item.span [
  | none ↦ (none, none, none)
  | some span ↦ (some span.filename, some span.begin.0, some span.begin.1)
]

abbrev true_only : Option Bool → Option Bool
true_only o = o >>= λ b. if b then some true else none

-- A flag of the header of a function.
abbrev header_flag : Text → RustdocItem → Option Bool
header_flag key item = true_only (
    get_field (codes "function") item.inner >>= λ value.
    get_value value (codes "header") >>= λ header. get_value header key >>= as_bool)

unfoldable pub item_is_async : RustdocItem → Option Bool
item_is_async item = header_flag (codes "is_async") item

unfoldable pub item_is_const : RustdocItem → Option Bool
item_is_const item =
    if is_inner_kind item (codes "constant") then some true else header_flag (codes "is_const") item

unfoldable pub item_is_static : RustdocItem → Option Bool
item_is_static item = if is_inner_kind item (codes "static") then some true else none

-- `#[` or `#![` and the closing bracket taken off.
abbrev strip_brackets : Text → Text
strip_brackets raw = trim (
    unwrap_or
      (or_option (strip_prefix raw (codes "#![")) (strip_prefix raw (codes "#[")) >>= λ rest.
        strip_suffix rest (codes "]"))
      raw)

abbrev attr_name : Text → Text
attr_name inner = elim (find_char (λ c. c == 40 || c == 61) inner) [
  | none ↦ inner
  | some parts ↦ trim parts.0
]

unfoldable pub parse_attr : Value → Option AttributeRef
parse_attr attr =
    let raw =
      trim (unwrap_or (get_value attr (codes "other") >>= as_str) (unwrap_or (as_str attr) [])) in
    let inner = strip_brackets raw in
    if is_empty raw
    then none
    else if is_empty inner
    then none
    else some (record { name = attr_name inner; args = []; target = none })

unfoldable pub parse_attrs : List Value → List AttributeRef
unfolding parse_attr
parse_attrs attrs = filter_map parse_attr attrs

-- `to_string` of a JSON value is a parameter.
unfoldable pub normalize_visibility : (Value → Text) → Option Value → Option Text
normalize_visibility print_json none = none
normalize_visibility print_json (some (str text)) = some text
normalize_visibility print_json (some (obj map)) =
    if contains_key (codes "public") map
    then some (codes "public")
    else if contains_key (codes "default") map
    then some (codes "default")
    else if contains_key (codes "crate") map
    then some (codes "crate")
    else (elim (get_field (codes "restricted") map) [
      | none ↦ some (print_json (obj map))
      | some restricted ↦ elim (get_value restricted (codes "path") >>= as_str) [
        | none ↦ some (codes "restricted")
        | some path ↦ some (codes "restricted(" ++ (path ++ codes ")"))
      ]
    ])
normalize_visibility print_json (some value) = some (print_json value)

pub record SymbolParts : Type 0 where
  pub name : Text
  pub qualified_name : Text
  pub symbol_key : Text
  pub signature : Option Text
  pub params : List Param
  pub return_type : Option TypeRef
  pub type_params : List TypeParam
  pub source_path : Option Text
  pub line : Option ℕ
  pub col : Option ℕ

abbrev some_unless_empty : Text → Option Text
some_unless_empty text = if is_empty text then none else some text

unfoldable pub build_symbol :
    (Value → Text)
    → RustdocItem
    → RustdocParseOptions
    → SymbolParts
    → Option Text
    → Option ParsedDocs
    → Symbol
unfolding normalize_visibility item_is_static item_is_async item_is_const parse_attrs
build_symbol print_json item options parts kind_override parsed_docs = record {
  id = none;
  project_id = options.project_id;
  language = some options.language;
  symbol_key = parts.symbol_key;
  kind = or_option kind_override (inner_kind item);
  name = some_unless_empty parts.name;
  qualified_name = some_unless_empty parts.qualified_name;
  display_name = some_unless_empty parts.name;
  signature = parts.signature;
  signature_hash = none;
  visibility = normalize_visibility print_json item.visibility;
  is_static = item_is_static item;
  is_async = item_is_async item;
  is_const = item_is_const item;
  is_deprecated = if is_some item.deprecation then some true else none;
  since = item.deprecation >>= λ since. since;
  stability = none;
  source_path = parts.source_path;
  line = parts.line;
  col = parts.col;
  return_type = parts.return_type;
  params = parts.params;
  type_params = parts.type_params;
  attributes = parse_attrs item.attrs;
  source_ids = record { kind = codes "rustdoc_id"; value = to_decimal item.id } ∷ [];
  doc_summary = parsed_docs >>= λ docs. docs.summary;
  extra = none;
}

unfoldable pub build_doc_block : RustdocParseOptions → Text → ParsedDocs → Text → DocBlock
build_doc_block options symbol_key parsed_docs raw_docs = record {
  id = none;
  project_id = options.project_id;
  ingest_id = options.ingest_id;
  symbol_key = some symbol_key;
  language = some options.language;
  source_kind = some options.source_kind;
  doc_hash = none;
  summary = parsed_docs.summary;
  remarks = parsed_docs.remarks;
  returns = parsed_docs.returns;
  value = parsed_docs.value;
  params = parsed_docs.params;
  type_params = parsed_docs.type_params;
  exceptions = [];
  examples = parsed_docs.examples;
  notes = parsed_docs.notes;
  warnings = parsed_docs.warnings;
  safety = parsed_docs.safety;
  panics = parsed_docs.panics;
  errors = parsed_docs.errors;
  see_also = parsed_docs.see_also;
  deprecated = parsed_docs.deprecated;
  inherit_doc = none;
  sections = parsed_docs.sections;
  raw = some raw_docs;
  extra = none;
}
