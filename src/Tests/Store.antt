-- ===== src/Tests/Store.antt =====
-- The store's pure functions at small inputs.
use docx_mcp.Base.{
  none, some, List, [], ◌∷◌, ◌++◌, ◌≡◌, refl, map, nat_eq, list_eq, arith, if◌then◌else◌, is_empty,
}
use docx_mcp.Text.{
  Text, codes, trim, trim_start, trim_end, is_whitespace, lines, split_on, drop_cr, end_lines,
  strip_prefix,
}
use docx_mcp.Models.{Value, Fields, RelationRecord}
use docx_mcp.Collections.HashSet.{Distinct, contains}
use docx_mcp.Store.Schema.{
  fts_start, fts_end, empty_block, parts, invalid, split_optional_doc_block_fts_schema, text_of,
}
use docx_mcp.Store.Schema.Blocks.{split_schema_block}
use docx_mcp.Store.Glob.{
  glob_to_regex_body, glob_to_regex_body-pieces, read_regex, piece, glob_char,
}
use docx_mcp.Store.IngestIds.{
  normalize_ingest_filter_ids, normalize_ingest_filter_ids_lem, add_ingest_ids, add_ingest_id,
  push_new,
}
use docx_mcp.Store.Rows.{row_key_eq}
use docx_mcp.Ingest.Edges.{relation}

abbrev schema : Text
schema =
    codes
      "DEFINE a;\n-- OPTIONAL_DOC_BLOCK_FTS_START\nDEFINE b;\n-- OPTIONAL_DOC_BLOCK_FTS_END\nDEFINE c;\n"

split_schema_block_example : split_optional_doc_block_fts_schema schema ≡ (
    if is_empty (trim (text_of (codes "DEFINE b;" ∷ [])))
    then invalid empty_block
    else parts
        (text_of (codes "DEFINE a;" ∷ []) ++ text_of (codes "DEFINE c;" ∷ []))
        (some (trim (text_of (codes "DEFINE b;" ∷ [])))))
unfolding lines split_on drop_cr end_lines trim trim_start is_whitespace
split_schema_block_example =
    split_schema_block schema fts_start fts_end (codes "DEFINE a;" ∷ []) (codes "DEFINE b;" ∷ [])
      (codes "DEFINE c;" ∷ []) refl refl refl
      (((λ e. ground (arith, e)), (λ e. ground (arith, e))), tt)
      (((λ e. ground (arith, e)), (λ e. ground (arith, e))), tt)
      (((λ e. ground (arith, e)), (λ e. ground (arith, e))), tt)

glob_to_regex_body-pieces_example :
    read_regex (glob_to_regex_body (codes "a*.b")) ≡ some (map piece (codes "a*.b"))
glob_to_regex_body-pieces_example = glob_to_regex_body-pieces (codes "a*.b")

glob_run : glob_to_regex_body (codes "a*.b") ≡ codes "a.*\\.b"
unfolding glob_to_regex_body glob_char contains
glob_run = refl

abbrev filter_ids : List Text
filter_ids = codes " p::i " ∷ codes "i" ∷ codes " " ∷ codes "j" ∷ []

normalize_ingest_filter_ids_lem_example :
    Distinct (normalize_ingest_filter_ids (codes "p") filter_ids)
normalize_ingest_filter_ids_lem_example = (normalize_ingest_filter_ids_lem (codes "p") filter_ids).0

normalized_filter :
    normalize_ingest_filter_ids (codes "p") filter_ids ≡ codes "p::i" ∷ codes "i" ∷ codes "j" ∷ []
unfolding normalize_ingest_filter_ids add_ingest_ids add_ingest_id push_new contains trim trim_start
    trim_end is_whitespace strip_prefix
normalized_filter = refl

abbrev row : Text → RelationRecord
row target = relation (codes "symbol:a") target (codes "p") none none

abbrev noted : Fields
noted = Fields.field (codes "note") (Value.num 1) Fields.end
