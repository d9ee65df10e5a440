-- ===== src/Schema.antt =====
-- crates/lib/docx-store/src/schema.rs: table and relation names, record ids and symbol keys; and
-- the two functions of crates/lib/docx-core/src/control/data.rs that read a record id.
pub mod Keys
use docx_mcp.Base.{Option, List, ◌++◌}
use docx_mcp.Text.{Text, codes, strip_prefix}

abbrev pub table_project : Text
table_project = codes "project"

abbrev pub table_ingest : Text
table_ingest = codes "ingest"

abbrev pub table_doc_source : Text
table_doc_source = codes "doc_source"

abbrev pub table_symbol : Text
table_symbol = codes "symbol"

abbrev pub table_doc_block : Text
table_doc_block = codes "doc_block"

abbrev pub rel_contains : Text
rel_contains = codes "contains"

abbrev pub rel_member_of : Text
rel_member_of = codes "member_of"

abbrev pub rel_documents : Text
rel_documents = codes "documents"

abbrev pub rel_references : Text
rel_references = codes "references"

abbrev pub rel_see_also : Text
rel_see_also = codes "see_also"

abbrev pub rel_inherits : Text
rel_inherits = codes "inherits"

abbrev pub rel_implements : Text
rel_implements = codes "implements"

abbrev pub rel_returns : Text
rel_returns = codes "returns"

abbrev pub rel_param_type : Text
rel_param_type = codes "param_type"

abbrev pub rel_observed_in : Text
rel_observed_in = codes "observed_in"

abbrev pub source_kind_csharp_xml : Text
source_kind_csharp_xml = codes "csharp_xml"

abbrev pub source_kind_rustdoc_json : Text
source_kind_rustdoc_json = codes "rustdoc_json"

unfoldable pub make_record_id : Text → Text → Text
make_record_id table id = table ++ (codes ":" ++ id)

unfoldable pub make_symbol_key : Text → Text → Text → Text
make_symbol_key language project_id local_id =
    language ++ (codes "|" ++ (project_id ++ (codes "|" ++ local_id)))

unfoldable pub make_csharp_symbol_key : Text → Text → Text
unfolding make_symbol_key
make_csharp_symbol_key project_id doc_id = make_symbol_key (codes "csharp") project_id doc_id

unfoldable pub record_id_to_symbol_key : Text → Option Text
record_id_to_symbol_key record_id = strip_prefix record_id (codes "symbol:")

unfoldable pub record_id_to_doc_source_id : Text → Option Text
record_id_to_doc_source_id record_id = strip_prefix record_id (codes "doc_source:")
