-- ===== src/Tests/Fixtures.antt =====
-- Symbols and doc blocks of one project.
use docx_mcp.Base.{Option, none, some, List, [], ◌∷◌}
use docx_mcp.Text.{Text, codes}
use docx_mcp.Models.{Symbol, DocBlock, SeeAlso, DocSource}

abbrev pub symbol : Text → Option Text → Symbol
symbol key qualified_name = record {
  id = some key;
  project_id = codes "p";
  language = some (codes "rust");
  symbol_key = key;
  kind = none;
  name = none;
  qualified_name = qualified_name;
  display_name = none;
  signature = none;
  signature_hash = none;
  visibility = none;
  is_static = none;
  is_async = none;
  is_const = none;
  is_deprecated = none;
  since = none;
  stability = none;
  source_path = none;
  line = none;
  col = none;
  return_type = none;
  params = [];
  type_params = [];
  attributes = [];
  source_ids = [];
  doc_summary = none;
  extra = none;
}

abbrev pub outer : Symbol
outer = symbol (codes "rust|p|m") (some (codes "m"))

abbrev pub inner : Symbol
inner = symbol (codes "rust|p|m::f") (some (codes "m::f"))

abbrev pub crate_symbols : List Symbol
crate_symbols = outer ∷ inner ∷ []

abbrev pub block : Text → List SeeAlso → DocBlock
block key see_also = record {
  id = some (codes "b");
  project_id = codes "p";
  ingest_id = none;
  symbol_key = some key;
  language = some (codes "rust");
  source_kind = none;
  doc_hash = none;
  summary = none;
  remarks = none;
  returns = none;
  value = none;
  params = [];
  type_params = [];
  exceptions = [];
  examples = [];
  notes = [];
  warnings = [];
  safety = none;
  panics = none;
  errors = none;
  see_also = see_also;
  deprecated = none;
  inherit_doc = none;
  sections = [];
  raw = none;
  extra = none;
}

abbrev pub doc_source : Text → Option Text → DocSource
doc_source project_id id = record {
  id = id;
  project_id = project_id;
  ingest_id = none;
  language = none;
  source_kind = none;
  path = none;
  tool_version = none;
  hash = none;
  source_modified_at = none;
  extra = none;
}

abbrev pub link_to_m : SeeAlso
link_to_m = record { label = none; target = codes "m"; target_kind = none }
