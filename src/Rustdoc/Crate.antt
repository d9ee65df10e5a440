-- ===== src/Rustdoc/Crate.antt =====
-- The records that rustdoc JSON is read into, the options and the output of the parser.
use docx_mcp.Base.{
  ℕ, ◌*◌, ◌+◌, ◌-◌, ◌^◌, Bool, ◌&&◌, Option, none, some, List, [], ◌∷◌, if◌then◌else◌, leb, ltb,
  is_empty, ◌>>=◌, ◌==◌, nat_eq,
}
use docx_mcp.Text.{Text, codes, join, strip_prefix}
use docx_mcp.Models.{Value, Fields, Symbol, DocBlock, first_key}
use docx_mcp.Collections.HashMap
use docx_mcp.Base.{unwrap_or}

pub record RustdocParseOptions : Type 0 where
  pub project_id : Text
  pub ingest_id : Option Text
  pub language : Text
  pub source_kind : Text

abbrev pub new_options : Text → RustdocParseOptions
new_options project_id = record {
  project_id = project_id;
  ingest_id = none;
  language = codes "rust";
  source_kind = codes "rustdoc_json";
}

abbrev pub with_ingest_id : Text → RustdocParseOptions → RustdocParseOptions
with_ingest_id ingest_id options = record options { ingest_id = some ingest_id }

pub record RustdocSpan : Type 0 where
  pub filename : Text
  pub begin : ℕ × ℕ

pub record RustdocItem : Type 0 where
  pub id : ℕ
  pub crate_id : ℕ
  pub name : Option Text
  pub span : Option RustdocSpan
  pub visibility : Option Value
  pub docs : Option Text
  pub deprecation : Option (Option Text)
  pub attrs : List Value
  pub inner : Fields

pub record RustdocPath : Type 0 where
  pub crate_id : ℕ
  pub path : List Text

pub record RustdocCrate : Type 0 where
  pub root : ℕ
  pub crate_version : Option Text
  pub format_version : ℕ
  pub includes_private : Bool
  pub index : List (Text × RustdocItem)
  pub paths : List (Text × RustdocPath)

pub record RustdocParseOutput : Type 0 where
  pub crate_name : Option Text
  pub crate_version : Option Text
  pub format_version : ℕ
  pub includes_private : Bool
  pub symbols : List Symbol
  pub doc_blocks : List DocBlock
  pub trait_impls : List (Text × List Text)

-- `id.parse::<u64>()`: a `+` and digits, below 2^64.
unfoldable pub parse_digits : ℕ → Text → Option ℕ
parse_digits n [] = some n
parse_digits n (c ∷ cs) =
    let rest = parse_digits (n * 10 + (c - b'0')) cs in
    if leb b'0' c && leb c b'9' then rest else none

unfoldable pub parse_u64 : Text → Option ℕ
unfolding parse_digits
parse_u64 text =
    let digits = unwrap_or (strip_prefix text (codes "+")) text in
    if is_empty digits
    then none
    else (parse_digits 0 digits >>= λ n. if ltb n (2 ^ 64) then some n else none)

unfoldable pub build_id_path_map : List (Text × RustdocPath) → ℕ → List (ℕ × Text)
unfolding parse_u64 HashMap.insert
build_id_path_map [] root_crate_id = []
build_id_path_map ((id, path) ∷ rest) root_crate_id =
    let map = build_id_path_map rest root_crate_id in
    if path.crate_id == root_crate_id
    then (elim (parse_u64 id) [
      | none ↦ map
      | some parsed_id ↦ HashMap.insert parsed_id (join path.path (codes "::")) map
    ])
    else map

-- The key of `inner`, an object of one entry.
abbrev pub inner_kind : RustdocItem → Option Text
inner_kind item = first_key item.inner
