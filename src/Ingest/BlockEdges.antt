-- ===== src/Ingest/BlockEdges.antt =====
-- `resolve_symbol_reference` and `build_doc_block_relations`: `see also`, inheritance and exception
-- references of doc blocks.
pub mod References
use docx_mcp.Base.{
  ℕ, Bool, ◌&&◌, Option, none, some, List, [], ◌∷◌, ◌++◌, nat_eq, list_eq, filter_map, is_empty,
  ◌>>=◌, or_option, if◌then◌else◌, ◌==◌,
}
use docx_mcp.Text.{Text, codes}
use docx_mcp.Models.{
  Symbol, DocBlock, SeeAlso, DocInherit, DocException, type_symbol_key, RelationRecord,
}
use docx_mcp.Schema.{make_symbol_key, make_csharp_symbol_key}
use docx_mcp.Collections.HashMap
use docx_mcp.Ingest.Edges.{relation, symbol_record, symbol_by_key}
use docx_mcp.Ingest.SymbolEdges.{push_edge}

pub record DocBlockRelations : Type 0 where
  pub see_also : List RelationRecord
  pub inherits : List RelationRecord
  pub references : List RelationRecord

abbrev pub no_block_relations : DocBlockRelations
no_block_relations = record { see_also = []; inherits = []; references = [] }

-- `DocBlockRelations::is_empty`
abbrev pub block_relations_is_empty : DocBlockRelations → Bool
block_relations_is_empty r = is_empty r.see_also && is_empty r.inherits && is_empty r.references

-- The key that a target has in a language.
abbrev pub language_key : Option Text → Text → Text → Option Text
language_key none project_id target = none
language_key (some language) project_id target =
    if language == codes "csharp"
    then some (make_csharp_symbol_key project_id target)
    else if language == codes "rust"
    then some (make_symbol_key (codes "rust") project_id target)
    else none

unfoldable pub resolve_symbol_reference :
    Text → Option Text → Text → List (Text × Text) → Option Text
resolve_symbol_reference target language project_id by_key = elim (HashMap.get target by_key) [
  | some id ↦ some id
  | none ↦ language_key language project_id target >>= λ key. HashMap.get key by_key
]

-- What the loop has at hand for one block.
pub record Context : Type 0 where
  pub by_key : List (Text × Text)
  pub project_id : Text
  pub ingest_id : Option Text
  pub language : Option Text
  pub symbol_id : Text

abbrev pub edge_to : Context → Text → Option Text → RelationRecord
edge_to c target_id kind =
    relation (symbol_record c.symbol_id) (symbol_record target_id) c.project_id c.ingest_id kind

unfoldable pub see_also_edge : Context → SeeAlso → Option RelationRecord
unfolding resolve_symbol_reference
see_also_edge c link = do
  target_id ← resolve_symbol_reference link.target c.language c.project_id c.by_key
  some (edge_to c target_id link.target_kind)

unfoldable pub inherit_edge : Context → Option DocInherit → Option RelationRecord
unfolding resolve_symbol_reference
inherit_edge c inherit_doc = do
  inherit ← inherit_doc
  target ← or_option inherit.cref inherit.path
  target_id ← resolve_symbol_reference target c.language c.project_id c.by_key
  some (edge_to c target_id (some (codes "inheritdoc")))

unfoldable pub exception_edge : Context → DocException → Option RelationRecord
exception_edge c exception = do
  ty ← exception.type_ref
  key ← type_symbol_key ty
  target_id ← HashMap.get key c.by_key
  some (edge_to c target_id (some (codes "exception")))

unfoldable pub add_block : Context → DocBlock → DocBlockRelations → DocBlockRelations
unfolding see_also_edge inherit_edge exception_edge
add_block c block r = record {
  see_also = r.see_also ++ filter_map (see_also_edge c) block.see_also;
  inherits = push_edge r.inherits (inherit_edge c block.inherit_doc);
  references = r.references ++ filter_map (exception_edge c) block.exceptions;
}

-- The symbol of a block: the id that its key has.
unfoldable pub block_symbol : List (Text × Text) → DocBlock → Option Text
block_symbol by_key block = do key ← block.symbol_key; HashMap.get key by_key

unfoldable pub relate_block :
    List (Text × Text)
    → Text
    → Option Text
    → Option Text
    → DocBlock
    → DocBlockRelations
    → DocBlockRelations
unfolding add_block
relate_block by_key project_id ingest_id none block r = r
relate_block by_key project_id ingest_id (some symbol_id) block r =
    add_block
      (record {
        by_key = by_key;
        project_id = project_id;
        ingest_id = ingest_id;
        language = block.language;
        symbol_id = symbol_id;
      })
      block r

unfoldable pub relate_blocks :
    List (Text × Text) → Text → Option Text → List DocBlock → DocBlockRelations → DocBlockRelations
unfolding relate_block block_symbol
relate_blocks by_key project_id ingest_id [] r = r
relate_blocks by_key project_id ingest_id (block ∷ blocks) r =
    relate_blocks by_key project_id ingest_id blocks
      (relate_block by_key project_id ingest_id (block_symbol by_key block) block r)

unfoldable pub build_doc_block_relations :
    List Symbol → List DocBlock → Text → Option Text → DocBlockRelations
unfolding relate_blocks symbol_by_key
build_doc_block_relations symbols blocks project_id ingest_id =
    relate_blocks (symbol_by_key symbols) project_id ingest_id blocks no_block_relations
