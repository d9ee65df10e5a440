-- ===== src/Ingest/Pipeline/Counts.antt =====
-- What the report of an ingest counts.
use docx_mcp.Base.{Bool, true, false, List, ◌≡◌, refl, ap, ◌∙◌, if◌then◌else◌, is_empty, length}
use docx_mcp.Text.{Text, codes, trim}
use docx_mcp.Models.{DocBlock, Symbol}
use docx_mcp.Store.Session.{
  StoreError, Reply, ok, failed, Session, Action, resume, raise, ensure_schema, create_doc_block,
  create_doc_blocks, upsert_symbol,
}
use docx_mcp.Store.Session.Rules.{
  Results, Results-resume, Results-map, AsMany, any_result, run_each-AsMany, run_all-AsMany,
}
use docx_mcp.Ingest.Payload.{Payload, payload, invalid_input, resolve_ingest_payload}
use docx_mcp.Ingest.Dedupe.{dedupe_symbols}
use docx_mcp.Ingest.Parsed.{dedupe_symbols-parse}
use docx_mcp.Rustdoc.Crate.{RustdocCrate, RustdocParseOutput}
use docx_mcp.Rustdoc.Visit.{Parsed, parsed, missing_root, unfinished, parse}
use docx_mcp.Ingest.Pipeline.{
  World, IngestError, invalid, rustdoc_parse, project_required, as_store_error, stored,
  store_symbols, create_ingest_record, create_doc_source_if_needed, source_input, upsert_crate,
  persist_relations, store_output, ingest_output, ingest_reply, ingest_resolved, parse_crate,
  options_for, ingest_rustdoc_json, RustdocIngestRequest, RustdocIngestReport,
}

module _ (w : World) where
  store_symbols-AsMany :
      (symbols : List Symbol) (s : Session)
      → AsMany (dedupe_symbols symbols) (store_symbols w symbols s)
  unfolding store_symbols
  store_symbols-AsMany symbols =
      run_each-AsMany (λ symbol. stored (upsert_symbol w.db symbol)) (dedupe_symbols symbols)

  blocks-AsMany :
      (blocks : List DocBlock) (s : Session)
      → AsMany blocks (stored (create_doc_blocks w.db blocks) s)
  unfolding create_doc_blocks
  blocks-AsMany blocks s = through (create_doc_blocks w.db blocks s) (
      Results-resume (λ a t. Unit) (λ bs t. length bs ≡ length blocks) (λ e t. Unit)
        (ensure_schema w.db s) _ (any_result (ensure_schema w.db s))
        (λ a t d. run_all-AsMany (create_doc_block w.db) blocks t))
    where
      through :
          (r : Reply StoreError (List DocBlock) × Session)
          → AsMany blocks r
          → AsMany blocks (as_store_error r)
      through (ok bs, t) h = h
      through (failed e, t) h = h

  -- The counts of a report against the output of the parser.
  abbrev Counts : RustdocParseOutput → RustdocIngestReport → Type 0
  Counts output report =
      (report.symbol_count ≡ length (dedupe_symbols output.symbols))
      × (report.doc_block_count ≡ length output.doc_blocks)
      × (report.crate_name ≡ output.crate_name)

  abbrev AnyError : IngestError → Session → Type 0
  AnyError e t = Unit

  skip :
      {A B : Type 0} (Q : B → Session → Type 0) (r : Reply IngestError A × Session)
      (next : A → Action IngestError B)
      → ((a : A) (t : Session) → Results Q AnyError (next a t))
      → Results Q AnyError (resume r next)
  skip Q r next f = Results-resume (λ a t. Unit) Q AnyError r next (any_result r) (λ a t d. f a t)

  store_output-Counts :
      (request : RustdocIngestRequest) (output : RustdocParseOutput) (s : Session)
      → Results (λ report t. Counts output report) AnyError (store_output w request output s)
  unfolding store_output
  store_output-Counts request output s =
      skip (λ report t. Counts output report)
        (upsert_crate w request.project_id output.crate_name s) _
        (λ project s1.
          Results-resume (λ ss t. length ss ≡ length (dedupe_symbols output.symbols))
            (λ report t. Counts output report) AnyError (store_symbols w output.symbols s1) _
            (store_symbols-AsMany output.symbols s1)
            (λ symbols s2 es.
              Results-resume (λ bs t. length bs ≡ length output.doc_blocks)
                (λ report t. Counts output report) AnyError
                (stored (create_doc_blocks w.db output.doc_blocks) s2) _
                (blocks-AsMany output.doc_blocks s2)
                (λ blocks s3 eb.
                  skip (λ report t. Counts output report)
                    (create_doc_source_if_needed w (source_input w request output) s3) _
                    (λ source s4.
                      skip (λ report t. Counts output report)
                        (persist_relations w symbols blocks request.project_id request.ingest_id
                          source output.trait_impls s4)
                        _ (λ count s5. (es, eb, refl))))))

  ingest_output-Counts :
      (request : RustdocIngestRequest) (output : RustdocParseOutput) (s : Session)
      → Results (λ report t. Counts output report) AnyError (ingest_output w request output s)
  unfolding ingest_output
  ingest_output-Counts request output s =
      Results-resume (λ report t. Counts output report) (λ report t. Counts output report) AnyError
        (store_output w request output s) _ (store_output-Counts request output s)
        (λ report t c.
          skip (λ r t. Counts output r)
            (create_ingest_record w request.project_id request.ingest_id request.source_modified_at
              output.crate_version t)
            _ (λ id u. c))

  -- The report counts the symbols and the doc blocks of a crate that was read.
  abbrev pub CountsAll : RustdocIngestRequest → RustdocIngestReport → Type 0
  CountsAll request report =
      (json : Text) × (crate_doc : RustdocCrate) × (output : RustdocParseOutput)
      × (resolve_ingest_payload w.read_file request.json request.json_path (codes "json")
          ≡ payload json)
      × (w.read_json json ≡ ok crate_doc)
      × (parse w.print_json (options_for w request) crate_doc ≡ parsed output)
      × (report.symbol_count ≡ length output.symbols)
      × (report.doc_block_count ≡ length output.doc_blocks)
      × (report.crate_name ≡ output.crate_name)

  -- A successful ingest has parsed the crate that the JSON of the request holds, and its report counts as many
  -- symbols and doc blocks as the parser has returned for it, and names the crate.
  pub ingest_rustdoc_json-CountsAll :
      (request : RustdocIngestRequest) (s : Session)
      → Results
          (λ report t. CountsAll request report)
          (λ e t. Unit)
          (ingest_rustdoc_json w request s)
  unfolding ingest_rustdoc_json
  ingest_rustdoc_json-CountsAll request s = checked (is_empty (trim request.project_id))
    where
      Done : Reply IngestError RustdocIngestReport × Session → Type 0
      Done = Results (λ report t. CountsAll request report) (λ e t. Unit)

      from_output :
          (json : Text) (crate_doc : RustdocCrate) (p : Parsed)
          → resolve_ingest_payload w.read_file request.json request.json_path (codes "json")
            ≡ payload json
          → w.read_json json ≡ ok crate_doc
          → parse w.print_json (options_for w request) crate_doc ≡ p
          → Done (
              ingest_reply w request
                (elim p [
                  | parsed output ↦ ok output
                  | missing_root ↦ failed (rustdoc_parse (codes "missing root item"))
                  | unfinished run ↦ failed (rustdoc_parse (codes "the task panicked"))
                ])
                s)
      from_output json crate_doc (parsed output) given held e =
          Results-map (λ report t. Counts output report) (λ report t. CountsAll request report)
            AnyError (λ e t. Unit) (ingest_output w request output s)
            (λ report t (c, b, n). (
              json,
              crate_doc,
              output,
              given,
              held,
              e,
              c
                  ∙ ap length (
                      dedupe_symbols-parse w.print_json (options_for w request) crate_doc output e),
              b,
              n,
            ))
            (λ e t u. u) (ingest_output-Counts request output s)
      from_output json crate_doc missing_root given held e = tt
      from_output json crate_doc (unfinished run) given held e = tt

      read :
          (json : Text) (r : Reply Text RustdocCrate)
          → resolve_ingest_payload w.read_file request.json request.json_path (codes "json")
            ≡ payload json
          → w.read_json json ≡ r
          → Done (ingest_reply w request (parse_crate w (options_for w request) r) s)
      read json (failed message) given held = tt
      read json (ok crate_doc) given held =
          from_output json crate_doc (parse w.print_json (options_for w request) crate_doc) given
            held refl

      resolved :
          (p : Payload)
          → resolve_ingest_payload w.read_file request.json request.json_path (codes "json") ≡ p
          → Done (ingest_resolved w request p s)
      resolved (invalid_input message) given = tt
      resolved (payload json) given = read json (w.read_json json) given refl

      checked :
          (b : Bool)
          → Done (
              (if b
                  then raise (invalid project_required)
                  else ingest_resolved w request (
                      resolve_ingest_payload w.read_file request.json request.json_path
                        (codes "json")))
                s)
      checked true = tt
      checked false =
          resolved
            (resolve_ingest_payload w.read_file request.json request.json_path (codes "json")) refl
