-- ===== src/Ingest/Pipeline.antt =====
-- `ingest_rustdoc_json` and what it calls in the store, over the statements of Store/Session.
--
-- Parameters: the database, the reader and the printer of JSON (serde_json), the file system, the clock,
-- and Unicode lower-casing.
pub mod Keeps
pub mod Counts
pub mod Last
use docx_mcp.Base.{
  ℕ, Bool, true, false, ◌||◌, not, Option, none, some, List, [], ◌∷◌, ◌++◌, if◌then◌else◌, is_empty,
  is_some, length, nat_eq, list_eq,
}
use docx_mcp.Text.{Text, codes, trim}
use docx_mcp.Models.{
  Value, bool, num, obj, end, field, Project, Ingest, DocSource, Symbol, DocBlock, RelationRecord,
}
use docx_mcp.Schema.{
  rel_documents, rel_member_of, rel_contains, rel_returns, rel_param_type, rel_implements,
  rel_see_also, rel_inherits, rel_references, rel_observed_in, source_kind_rustdoc_json,
}
use docx_mcp.Collections.HashMap
use docx_mcp.Store.Session.{
  Database, Session, StoreError, Reply, ok, failed, Action, return, raise, resume, ◌>>=◌, run_each,
  get_project, put_project, create_ingest, create_doc_source, upsert_symbol, create_doc_blocks,
  create_relations,
}
use docx_mcp.Control.Projects.{ProjectUpsertRequest, upsert_project}
use docx_mcp.Ingest.Payload.{Read, Payload, payload, invalid_input, resolve_ingest_payload}
use docx_mcp.Ingest.Dedupe.{dedupe_symbols}
use docx_mcp.Ingest.Edges.{build_documents_edges, build_observed_in_edges}
use docx_mcp.Ingest.SymbolEdges.{SymbolRelations, relations_is_empty, build_symbol_relations}
use docx_mcp.Ingest.BlockEdges.{
  DocBlockRelations, block_relations_is_empty, build_doc_block_relations,
}
use docx_mcp.Rustdoc.Crate.{
  RustdocParseOptions, RustdocCrate, RustdocParseOutput, new_options, with_ingest_id,
}
use docx_mcp.Rustdoc.Visit.{Parsed, parsed, missing_root, unfinished, parse}

pub record RustdocIngestRequest : Type 0 where
  pub project_id : Text
  pub json : Option Text
  pub json_path : Option Text
  pub ingest_id : Option Text
  pub source_path : Option Text
  pub source_modified_at : Option Text
  pub tool_version : Option Text
  pub source_hash : Option Text

pub record RustdocIngestReport : Type 0 where
  pub crate_name : Option Text
  pub symbol_count : ℕ
  pub doc_block_count : ℕ
  pub documents_edge_count : ℕ
  pub doc_source_id : Option Text

pub record DocSourceInput : Type 0 where
  pub project_id : Text
  pub ingest_id : Option Text
  pub language : Text
  pub source_kind : Text
  pub source_path : Option Text
  pub tool_version : Option Text
  pub source_hash : Option Text
  pub source_modified_at : Option Text
  pub extra : Option Value

-- `ControlError`: an error of the store, an invalid input of the control plane, or of the parser, whose
-- thread also fails where it does not finish.
pub data IngestError : Type 0 where
  store : StoreError → IngestError
  invalid : Text → IngestError
  rustdoc_parse : Text → IngestError

abbrev pub Control : Type 0 → Type 0
Control = Action IngestError

abbrev pub as_store_error :
    {A : Type 0} → Reply StoreError A × Session → Reply IngestError A × Session
as_store_error (ok a, s) = (ok a, s)
as_store_error (failed e, s) = (failed (store e), s)

abbrev pub stored : {A : Type 0} → Action StoreError A → Control A
stored m s = as_store_error (m s)

pub record World : Type 0 where
  pub db : Database
  pub read_json : Text → Reply Text RustdocCrate
  pub print_json : Value → Text
  pub read_file : Text → Read
  pub now : Text
  pub to_lowercase : Text → Text

abbrev pub project_required : Text
project_required = codes "project_id is required"

module _ (w : World) where
  abbrev pub put_merged : Option Project → Control Project
  put_merged none = raise (invalid project_required)
  put_merged (some project) = stored (put_project w.db project)

  unfoldable pub upsert_request : ProjectUpsertRequest → Control Project
  unfolding get_project put_project upsert_project
  upsert_request request =
      if is_empty (trim request.project_id)
      then raise (invalid project_required)
      else (stored (get_project w.db request.project_id) >>= λ found.
          put_merged (upsert_project w.to_lowercase found request))

  unfoldable pub store_symbols : List Symbol → Control (List Symbol)
  unfolding dedupe_symbols run_each upsert_symbol
  store_symbols symbols =
      run_each (λ symbol. stored (upsert_symbol w.db symbol)) (dedupe_symbols symbols)

  abbrev pub has_source : DocSourceInput → Bool
  has_source input =
      is_some input.source_path
      || (is_some input.tool_version
          || (is_some input.source_hash
              || (is_some input.source_modified_at || is_some input.extra)))

  abbrev pub source_record : DocSourceInput → DocSource
  source_record input = record {
    id = none;
    project_id = input.project_id;
    ingest_id = input.ingest_id;
    language = some input.language;
    source_kind = some input.source_kind;
    path = input.source_path;
    tool_version = input.tool_version;
    hash = input.source_hash;
    source_modified_at = input.source_modified_at;
    extra = input.extra;
  }

  unfoldable pub create_doc_source_if_needed : DocSourceInput → Control (Option Text)
  unfolding create_doc_source
  create_doc_source_if_needed input =
      if not (has_source input)
      then return none
      else (stored (create_doc_source w.db (source_record input)) >>= λ created. return created.id)

  unfoldable pub create_ingest_record :
      Text → Option Text → Option Text → Option Text → Control (Option Text)
  unfolding create_ingest
  create_ingest_record project_id ingest_id source_modified_at project_version =
      stored (
        create_ingest w.db (record {
          id = ingest_id;
          project_id = project_id;
          git_commit = none;
          git_branch = none;
          git_tag = none;
          project_version = project_version;
          source_modified_at = source_modified_at;
          ingested_at = some w.now;
          extra = none;
        }))
      >>= λ created. return created.id

  abbrev pub write_table : Text → List RelationRecord → Control Unit
  write_table table relations =
      stored (create_relations w.db table relations) >>= λ created. return tt

  abbrev pub write_some : Text → List RelationRecord → Control Unit
  write_some table relations = if is_empty relations then return tt else write_table table relations

  abbrev pub persist_symbol_tables : SymbolRelations → Control Unit
  persist_symbol_tables relations = write_table rel_member_of relations.member_of >>= λ done1.
      write_table rel_contains relations.contains >>= λ done2.
      write_table rel_returns relations.returns >>= λ done3.
      write_table rel_param_type relations.param_types >>= λ done4.
      write_some rel_implements relations.implements

  unfoldable pub persist_symbol_relations : SymbolRelations → Control Unit
  unfolding create_relations
  persist_symbol_relations relations =
      if relations_is_empty relations then return tt else persist_symbol_tables relations

  abbrev pub persist_block_tables : DocBlockRelations → Control Unit
  persist_block_tables relations = write_table rel_see_also relations.see_also >>= λ done1.
      write_table rel_inherits relations.inherits >>= λ done2.
      write_table rel_references relations.references

  unfoldable pub persist_block_relations : DocBlockRelations → Control Unit
  unfolding create_relations
  persist_block_relations relations =
      if block_relations_is_empty relations then return tt else persist_block_tables relations

  abbrev pub persist_observed : List Symbol → Text → Option Text → Option Text → Control Unit
  persist_observed symbols project_id ingest_id none = return tt
  persist_observed symbols project_id ingest_id (some doc_source_id) =
      write_some rel_observed_in
        (build_observed_in_edges symbols project_id ingest_id doc_source_id)

  unfoldable pub persist_relations :
      List Symbol
      → List DocBlock
      → Text
      → Option Text
      → Option Text
      → List (Text × List Text)
      → Control ℕ
  unfolding build_documents_edges build_symbol_relations build_doc_block_relations
      build_observed_in_edges create_relations persist_symbol_relations persist_block_relations
      HashMap.get
  persist_relations stored_symbols stored_blocks project_id ingest_id doc_source_id trait_impls =
      let documents = build_documents_edges stored_symbols stored_blocks project_id ingest_id in
      write_some rel_documents documents >>= λ done1.
      persist_symbol_relations (
        build_symbol_relations stored_symbols project_id ingest_id (λ k. HashMap.get k trait_impls))
      >>= λ done2.
          persist_block_relations
            (build_doc_block_relations stored_symbols stored_blocks project_id ingest_id)
          >>= λ done3.
              persist_observed stored_symbols project_id ingest_id doc_source_id >>= λ done4.
              return (length documents)

  abbrev pub parse_crate :
      RustdocParseOptions → Reply Text RustdocCrate → Reply IngestError RustdocParseOutput
  parse_crate options (failed message) = failed (rustdoc_parse message)
  parse_crate options (ok crate_doc) = elim (parse w.print_json options crate_doc) [
    | parsed output ↦ ok output
    | missing_root ↦ failed (rustdoc_parse (codes "missing root item"))
    | unfinished run ↦ failed (rustdoc_parse (codes "the task panicked"))
  ]

  abbrev pub upsert_crate : Text → Option Text → Control Unit
  upsert_crate project_id none = return tt
  upsert_crate project_id (some crate_name) =
      upsert_request (record {
        project_id = project_id;
        name = none;
        language = some (codes "rust");
        root_path = none;
        description = none;
        aliases = crate_name ∷ [];
      })
      >>= λ project. return tt

  abbrev pub options_for : RustdocIngestRequest → RustdocParseOptions
  options_for request = elim request.ingest_id [
    | none ↦ new_options request.project_id
    | some ingest_id ↦ with_ingest_id ingest_id (new_options request.project_id)
  ]

  abbrev pub source_input : RustdocIngestRequest → RustdocParseOutput → DocSourceInput
  source_input request output = record {
    project_id = request.project_id;
    ingest_id = request.ingest_id;
    language = codes "rust";
    source_kind = source_kind_rustdoc_json;
    source_path = request.source_path;
    tool_version = request.tool_version;
    source_hash = request.source_hash;
    source_modified_at = request.source_modified_at;
    extra = some (
        obj (
          field (codes "format_version") (num output.format_version)
            (field (codes "includes_private") (bool output.includes_private) end)));
  }

  -- What is stored of a parsed crate before the ingest record: the symbols, blocks, edges and the document source.
  unfoldable pub store_output :
      RustdocIngestRequest → RustdocParseOutput → Control RustdocIngestReport
  unfolding upsert_request store_symbols create_doc_blocks create_doc_source_if_needed
      persist_relations
  store_output request output = upsert_crate request.project_id output.crate_name >>= λ project.
      store_symbols output.symbols >>= λ stored_symbols.
      stored (create_doc_blocks w.db output.doc_blocks) >>= λ stored_blocks.
      create_doc_source_if_needed (source_input request output) >>= λ doc_source_id.
      persist_relations stored_symbols stored_blocks request.project_id request.ingest_id
        doc_source_id output.trait_impls
      >>= λ documents_edge_count. return (record {
        crate_name = output.crate_name;
        symbol_count = length stored_symbols;
        doc_block_count = length stored_blocks;
        documents_edge_count = documents_edge_count;
        doc_source_id = doc_source_id;
      })

  unfoldable pub ingest_output :
      RustdocIngestRequest → RustdocParseOutput → Control RustdocIngestReport
  unfolding store_output create_ingest_record
  ingest_output request output = store_output request output >>= λ report.
      create_ingest_record request.project_id request.ingest_id request.source_modified_at
        output.crate_version
      >>= λ ingest. return report

  abbrev pub ingest_reply :
      RustdocIngestRequest → Reply IngestError RustdocParseOutput → Control RustdocIngestReport
  ingest_reply request (failed e) = raise e
  ingest_reply request (ok output) = ingest_output request output

  abbrev pub ingest_resolved : RustdocIngestRequest → Payload → Control RustdocIngestReport
  ingest_resolved request (invalid_input message) = raise (invalid message)
  ingest_resolved request (payload json) =
      ingest_reply request (parse_crate (options_for request) (w.read_json json))

  unfoldable pub ingest_rustdoc_json : RustdocIngestRequest → Control RustdocIngestReport
  unfolding resolve_ingest_payload parse ingest_output
  ingest_rustdoc_json request =
      if is_empty (trim request.project_id)
      then raise (invalid project_required)
      else ingest_resolved request
          (resolve_ingest_payload w.read_file request.json request.json_path (codes "json"))
