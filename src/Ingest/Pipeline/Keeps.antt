-- ===== src/Ingest/Pipeline/Keeps.antt =====
-- What storing the output of the parser keeps.
use docx_mcp.Base.{
  Bool, true, false, not, Option, none, some, List, [], ◌∷◌, ◌++◌, if◌then◌else◌, is_empty, length,
  nat_eq, list_eq,
}
use docx_mcp.Text.{Text, trim}
use docx_mcp.Models.{Project, DocBlock, Symbol, RelationRecord}
use docx_mcp.Store.Session.{
  Statement, StoreError, Reply, ok, failed, Session, Action, return, raise, ◌>>=◌, set_ready,
  get_project, create_doc_source, upsert_symbol, create_doc_blocks, create_relations, put_project,
}
use docx_mcp.Store.Session.Rules.{
  Kept, Kept-resume, Kept-run_each, IsData, Kept-put_project, Kept-get_project,
  Kept-create_doc_source, Kept-upsert_symbol, Kept-create_doc_blocks, Kept-create_relations,
}
use docx_mcp.Control.Projects.{ProjectUpsertRequest, upsert_project}
use docx_mcp.Ingest.Dedupe.{dedupe_symbols}
use docx_mcp.Ingest.SymbolEdges.{SymbolRelations, relations_is_empty, build_symbol_relations}
use docx_mcp.Ingest.BlockEdges.{
  DocBlockRelations, block_relations_is_empty, build_doc_block_relations,
}
use docx_mcp.Ingest.Edges.{build_documents_edges}
use docx_mcp.Collections.HashMap
use docx_mcp.Rustdoc.Crate.{RustdocParseOutput}
use docx_mcp.Ingest.Pipeline.{
  World, Control, as_store_error, stored, put_merged, upsert_request, store_symbols, DocSourceInput,
  has_source, source_record, create_doc_source_if_needed, write_table, write_some,
  persist_symbol_tables, persist_block_tables, persist_symbol_relations, persist_block_relations,
  persist_observed, persist_relations, upsert_crate, store_output, RustdocIngestRequest,
  source_input,
}
use docx_mcp.Schema.{
  rel_documents, rel_member_of, rel_contains, rel_returns, rel_param_type, rel_implements,
  rel_see_also, rel_inherits, rel_references, rel_observed_in,
}

-- A property of the connection that an action keeps, whether it fails or not.
pub record Keeps (I : Session → Type 0) {E A : Type 0} (action : Action E A) : Type 0 where
  pub run : (s : Session) → I s → Kept I (action s)

module _ (I : Session → Type 0) {E A : Type 0} where
  Keeps-return : (a : A) → Keeps I {E = E} (return a)
  Keeps-return a = record { run = λ s h. h }

  Keeps-raise : (e : E) → Keeps I {A = A} (raise e)
  Keeps-raise e = record { run = λ s h. h }

  Keeps-if : (b : Bool) (m n : Action E A) → Keeps I m → Keeps I n → Keeps I (if b then m else n)
  Keeps-if true m n f g = f
  Keeps-if false m n f g = g

  Keeps-then :
      {B : Type 0} (m : Action E A) (next : A → Action E B)
      → Keeps I m
      → ((a : A) → Keeps I (next a))
      → Keeps I (m >>= next)
  Keeps-then m next f g = record {
    run = λ s h. Kept-resume I (m s) next (f.run s h) (λ a. (g a).run);
  }

module _ (w : World) (I : Session → Type 0)
    (on_send : (st : Statement) (s : Session)
      → IsData st
      → I s
      → I (record s { log = s.log ++ st ∷ [] }))
    (on_ready : (s : Session) → I s → I (set_ready w.db s)) where
  Keeps-stored :
      {A : Type 0} (m : Action StoreError A)
      → ((s : Session) → I s → Kept I (m s))
      → Keeps I (stored m)
  Keeps-stored m f = record { run = λ s h. through (m s) (f s h) }
    where
      through :
          {A : Type 0} (r : Reply StoreError A × Session) → Kept I r → Kept I (as_store_error r)
      through (ok a, s) h = h
      through (failed e, s) h = h

  upsert_request-Keeps : (request : ProjectUpsertRequest) → Keeps I (upsert_request w request)
  unfolding upsert_request
  upsert_request-Keeps request =
      Keeps-if I (is_empty (trim request.project_id)) _ _ (Keeps-raise I _) (
        Keeps-then I (stored (get_project w.db request.project_id)) _
          (Keeps-stored (get_project w.db request.project_id)
            (Kept-get_project w.db I on_send on_ready request.project_id))
          (λ found. merged (upsert_project w.to_lowercase found request)))
    where
      merged : (o : Option Project) → Keeps I (put_merged w o)
      merged none = Keeps-raise I _
      merged (some project) =
          Keeps-stored (put_project w.db project) (Kept-put_project w.db I on_send on_ready project)

  store_symbols-Keeps : (symbols : List Symbol) → Keeps I (store_symbols w symbols)
  unfolding store_symbols
  store_symbols-Keeps symbols = record {
    run =
        Kept-run_each I (λ symbol. stored (upsert_symbol w.db symbol))
          (λ symbol.
            (Keeps-stored (upsert_symbol w.db symbol)
              (Kept-upsert_symbol w.db I on_send on_ready symbol)).run)
          (dedupe_symbols symbols);
  }

  create_doc_source_if_needed-Keeps :
      (input : DocSourceInput) → Keeps I (create_doc_source_if_needed w input)
  unfolding create_doc_source_if_needed
  create_doc_source_if_needed-Keeps input =
      Keeps-if I (not (has_source w input)) _ _ (Keeps-return I _) (
        Keeps-then I (stored (create_doc_source w.db (source_record w input))) _
          (Keeps-stored (create_doc_source w.db (source_record w input))
            (Kept-create_doc_source w.db I on_send on_ready (source_record w input)))
          (λ created. Keeps-return I created.id))

  write_table-Keeps :
      (table : Text) (relations : List RelationRecord) → Keeps I (write_table w table relations)
  write_table-Keeps table relations =
      Keeps-then I (stored (create_relations w.db table relations)) _
        (Keeps-stored (create_relations w.db table relations)
          (Kept-create_relations w.db I on_send on_ready table relations))
        (λ created. Keeps-return I tt)

  write_some-Keeps :
      (table : Text) (relations : List RelationRecord) → Keeps I (write_some w table relations)
  write_some-Keeps table relations =
      Keeps-if I (is_empty relations) (return tt) (write_table w table relations)
        (Keeps-return I tt) (write_table-Keeps table relations)

  -- One table after another.
  next_table :
      (table : Text) (relations : List RelationRecord) (next : Unit → Control Unit)
      → Keeps I (next tt)
      → Keeps I (write_table w table relations >>= next)
  next_table table relations next f =
      Keeps-then I (write_table w table relations) next (write_table-Keeps table relations)
        (λ done. f)

  persist_symbol_relations-Keeps :
      (relations : SymbolRelations) → Keeps I (persist_symbol_relations w relations)
  unfolding persist_symbol_relations
  persist_symbol_relations-Keeps relations =
      Keeps-if I (relations_is_empty relations) (return tt) (persist_symbol_tables w relations)
        (Keeps-return I tt)
        (next_table rel_member_of relations.member_of _ (
          next_table rel_contains relations.contains _ (
            next_table rel_returns relations.returns _ (
              next_table rel_param_type relations.param_types _
                (write_some-Keeps rel_implements relations.implements)))))

  persist_block_relations-Keeps :
      (relations : DocBlockRelations) → Keeps I (persist_block_relations w relations)
  unfolding persist_block_relations
  persist_block_relations-Keeps relations =
      Keeps-if I (block_relations_is_empty relations) (return tt) (persist_block_tables w relations)
        (Keeps-return I tt)
        (next_table rel_see_also relations.see_also _ (
          next_table rel_inherits relations.inherits _
            (write_table-Keeps rel_references relations.references)))

  persist_observed-Keeps :
      (symbols : List Symbol) (project_id : Text) (ingest_id doc_source_id : Option Text)
      → Keeps I (persist_observed w symbols project_id ingest_id doc_source_id)
  persist_observed-Keeps symbols project_id ingest_id none = Keeps-return I tt
  persist_observed-Keeps symbols project_id ingest_id (some doc_source_id) =
      write_some-Keeps rel_observed_in _

  persist_relations-Keeps :
      (symbols : List Symbol) (blocks : List DocBlock) (project_id : Text)
      (ingest_id doc_source_id : Option Text) (trait_impls : List (Text × List Text))
      → Keeps I (persist_relations w symbols blocks project_id ingest_id doc_source_id trait_impls)
  unfolding persist_relations
  persist_relations-Keeps symbols blocks project_id ingest_id doc_source_id trait_impls =
      Keeps-then I (write_some w rel_documents documents) _
        (write_some-Keeps rel_documents documents)
        (λ done1.
          Keeps-then I (persist_symbol_relations w relations) _
            (persist_symbol_relations-Keeps relations)
            (λ done2.
              Keeps-then I (persist_block_relations w block_relations) _
                (persist_block_relations-Keeps block_relations)
                (λ done3.
                  Keeps-then I (persist_observed w symbols project_id ingest_id doc_source_id) _
                    (persist_observed-Keeps symbols project_id ingest_id doc_source_id)
                    (λ done4. Keeps-return I (length documents)))))
    where
      documents : List RelationRecord
      documents = build_documents_edges symbols blocks project_id ingest_id

      relations : SymbolRelations
      relations =
          build_symbol_relations symbols project_id ingest_id (λ k. HashMap.get k trait_impls)

      block_relations : DocBlockRelations
      block_relations = build_doc_block_relations symbols blocks project_id ingest_id

  upsert_crate-Keeps :
      (project_id : Text) (name : Option Text) → Keeps I (upsert_crate w project_id name)
  upsert_crate-Keeps project_id none = Keeps-return I tt
  upsert_crate-Keeps project_id (some name) =
      Keeps-then I _ _ (upsert_request-Keeps _) (λ project. Keeps-return I tt)

  pub store_output-Keeps :
      (request : RustdocIngestRequest) (output : RustdocParseOutput)
      → Keeps I (store_output w request output)
  unfolding store_output
  store_output-Keeps request output =
      Keeps-then I _ _ (upsert_crate-Keeps request.project_id output.crate_name) (λ project.
        Keeps-then I _ _ (store_symbols-Keeps output.symbols) (λ symbols.
          Keeps-then I _ _
            (Keeps-stored (create_doc_blocks w.db output.doc_blocks)
              (Kept-create_doc_blocks w.db I on_send on_ready output.doc_blocks))
            (λ blocks.
              Keeps-then I _ _ (create_doc_source_if_needed-Keeps (source_input w request output))
                (λ doc_source_id.
                  Keeps-then I _ _
                    (persist_relations-Keeps symbols blocks request.project_id request.ingest_id
                      doc_source_id output.trait_impls)
                    (λ count. Keeps-return I _)))))
