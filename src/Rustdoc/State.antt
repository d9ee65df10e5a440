-- ===== src/Rustdoc/State.antt =====
-- `ParserState`, what a visit of its items returns, and `add_symbol`.
--
-- The visitors change the state and return nothing; here they return how the visit ended. The crate's
-- items, the options and the root crate do not change: they are the record `Parser`.
use docx_mcp.Base.{
  ℕ, Option, none, some, List, [], ◌∷◌, ◌++◌, if◌then◌else◌, ◌==◌, list_eq, nat_eq, option_eq,
  is_empty, unwrap_or, ◌>>=◌,
}
use docx_mcp.Text.{Text, trim, to_decimal}
use docx_mcp.Models.{Value, Symbol, DocBlock}
use docx_mcp.Collections.HashMap
use docx_mcp.Rustdoc.Crate.{RustdocParseOptions, RustdocItem}
use docx_mcp.Rustdoc.Keys.{make_unique_symbol_key, qualified_name_for_item}
use docx_mcp.Rustdoc.Markdown.{ParsedDocs, parse_markdown_docs}
use docx_mcp.Rustdoc.Items.{span_location, build_symbol, build_doc_block}
use docx_mcp.Rustdoc.Items.Signature.{parse_signature, parse_type_params}

pub record Parser : Type 0 where
  pub index : List (Text × RustdocItem)
  pub options : RustdocParseOptions
  pub root_crate_id : ℕ
  pub print_json : Value → Text

pub record ParserState : Type 0 where
  pub id_to_path : List (ℕ × Text)
  pub symbols : List Symbol
  pub doc_blocks : List DocBlock
  pub seen : List ℕ
  pub used_symbol_keys : List Text
  pub trait_impls : List (Text × List Text)

-- How a visit ends: it is done, or no key is free for a symbol, or the fuel is spent.
pub data Run : Type 0 where
  visited : ParserState → Run
  exhausted : ParserState → Run
  no_fuel : Run

abbrev pub and_then : Run → (ParserState → Run) → Run
and_then (visited s) next = next s
and_then (exhausted s) next = exhausted s
and_then no_fuel next = no_fuel

-- The `for` loops over ids.
abbrev pub each_id : (ℕ → ParserState → Run) → List ℕ → ParserState → Run
each_id visit [] s = visited s
each_id visit (id ∷ ids) s = and_then (visit id s) (each_id visit ids)

unfoldable pub get_item : Parser → ℕ → Option RustdocItem
unfolding HashMap.get
get_item p item_id = HashMap.get (to_decimal item_id) p.index

-- The item, where there is one and it is of the root crate.
unfoldable pub local_item : Parser → ℕ → Option RustdocItem
unfolding get_item
local_item p item_id =
    get_item p item_id >>= λ item. if item.crate_id == p.root_crate_id then some item else none

abbrev pub item_name : RustdocItem → Text
item_name item = unwrap_or item.name []

abbrev pub docs_of : RustdocItem → Text
docs_of item = trim (unwrap_or item.docs [])

abbrev pub parsed_docs_of : RustdocItem → Option ParsedDocs
parsed_docs_of item =
    if is_empty (docs_of item) then none else some (parse_markdown_docs (docs_of item))

-- The symbol that `add_symbol` builds, where the paths are those after the item's own is inserted.
unfoldable pub symbol_for : Parser → RustdocItem → Text → Text → Text → List (ℕ × Text) → Symbol
unfolding build_symbol parse_signature parse_type_params span_location parse_markdown_docs
symbol_for p item kind qualified_name symbol_key id_to_path =
    let (params, return_type, signature) =
      parse_signature item p.options id_to_path (item_name item) in
    let (source_path, line, col) = span_location item in
    build_symbol p.print_json item p.options
      (record {
        name = item_name item;
        qualified_name = qualified_name;
        symbol_key = symbol_key;
        signature = signature;
        params = params;
        return_type = return_type;
        type_params = parse_type_params item;
        source_path = source_path;
        line = line;
        col = col;
      })
      (some kind) (parsed_docs_of item)

abbrev pub doc_blocks_for : Parser → RustdocItem → Text → List DocBlock
doc_blocks_for p item symbol_key = elim (parsed_docs_of item) [
  | none ↦ []
  | some parsed_docs ↦ build_doc_block p.options symbol_key parsed_docs (docs_of item) ∷ []
]

-- The state after a symbol with this name and key, and these keys in use.
unfoldable pub push_symbol :
    Parser → RustdocItem → Text → Text → Text → List Text → ParserState → ParserState
unfolding symbol_for build_doc_block HashMap.insert
push_symbol p item kind qualified_name symbol_key used s =
    let id_to_path = HashMap.insert item.id qualified_name s.id_to_path in
    record s {
      id_to_path = id_to_path;
      used_symbol_keys = used;
      symbols = s.symbols ++ symbol_for p item kind qualified_name symbol_key id_to_path ∷ [];
      doc_blocks = s.doc_blocks ++ doc_blocks_for p item symbol_key;
    }

-- The name with the state after it, unless no key is free.
unfoldable pub add_symbol :
    Parser
    → RustdocItem
    → List Text
    → Option Text
    → Text
    → ParserState
    → Option (Text × ParserState)
unfolding push_symbol qualified_name_for_item make_unique_symbol_key
add_symbol p item module_path owner_name kind s =
    let qualified_name = qualified_name_for_item (item_name item) module_path owner_name in
    elim (make_unique_symbol_key s.used_symbol_keys p.options.project_id qualified_name item.id) [
      | none ↦ none
      | some fresh ↦ some (qualified_name, push_symbol p item kind qualified_name fresh.0 fresh.1 s)
    ]

-- `let qualified = self.add_symbol(…);` and what follows it.
unfoldable pub with_symbol :
    Parser
    → RustdocItem
    → List Text
    → Option Text
    → Text
    → ParserState
    → (Text → ParserState → Run)
    → Run
unfolding add_symbol
with_symbol p item module_path owner_name kind s next =
    elim (add_symbol p item module_path owner_name kind s) [
      | none ↦ exhausted s
      | some added ↦ next added.0 added.1
    ]

abbrev pub symbol_only : Parser → RustdocItem → List Text → Text → ParserState → Run
symbol_only p item module_path kind s =
    with_symbol p item module_path none kind s (λ name t. visited t)

-- The body of the loops over fields, variants and associated items.
unfoldable pub add_member : Parser → Text → Text → ℕ → ParserState → Run
unfolding local_item with_symbol
add_member p owner_name kind id s = elim (local_item p id) [
  | none ↦ visited s
  | some item ↦ with_symbol p item [] (some owner_name) kind s (λ name t. visited t)
]
