-- ===== src/Ingest/Pipeline/Last.antt =====
-- When the ingest record is written.
use docx_mcp.Base.{
  Bool, true, false, Option, none, some, List, [], ◌∷◌, ◌++◌, ◌≡◌, refl, sym, ap, ◌∙◌, ◌⊎◌, inl,
  inr, if◌then◌else◌, is_empty, append_assoc, append-nil, All, All-append,
}
use docx_mcp.Text.{Text, codes, trim}
use docx_mcp.Models.{Ingest}
use docx_mcp.Store.Session.{
  Statement, upsert_ingest, StoreError, surreal, Reply, ok, failed, Database, Session, resume,
  raise, execute, ensure_schema, send, ingest_with_id, ingest_id_of, create_ingest,
}
use docx_mcp.Store.Session.Rules.{Results, Results-resume, Results-map, IsData, Kept-ensure_schema}
use docx_mcp.Ingest.Payload.{Payload, payload, invalid_input, resolve_ingest_payload}
use docx_mcp.Rustdoc.Crate.{RustdocParseOutput}
use docx_mcp.Ingest.Pipeline.{
  World, IngestError, invalid, project_required, as_store_error, create_ingest_record, store_output,
  ingest_output, ingest_reply, ingest_resolved, parse_crate, options_for, ingest_rustdoc_json,
  RustdocIngestRequest, RustdocIngestReport,
}
use docx_mcp.Ingest.Pipeline.Keeps.{store_output-Keeps}

-- A log after another, with no ingest record written in between.
abbrev pub Extends : List Statement → List Statement → Type 0
Extends base log = (new : List Statement) × (log ≡ base ++ new) × All IsData new

-- The last statement wrote the ingest record, which the database accepted; and it was refused.
abbrev Recorded : (List Statement → Statement → Type 0) → List Statement → Session → Type 0
Recorded Answered base t =
    (before : List Statement) × (id : Text) × (ingest : Ingest) × Extends base before
    × (t.log ≡ before ++ upsert_ingest id ingest ∷ [])
    × Answered before (upsert_ingest id ingest)

abbrev pub Completed : Database → List Statement → Session → Type 0
Completed db = Recorded (λ before st. db.answer before st ≡ none)

abbrev pub Stopped : Database → List Statement → Session → Type 0
Stopped db base t =
    Extends base t.log
    ⊎ Recorded (λ before st. (message : Text) × (db.answer before st ≡ some message)) base t

Extends-snoc :
    (base log : List Statement) (st : Statement)
    → IsData st
    → Extends base log
    → Extends base (log ++ st ∷ [])
Extends-snoc base log st d (new, e, h) = (
  new ++ st ∷ [],
  ap (λ l. l ++ st ∷ []) e ∙ append_assoc base new (st ∷ []),
  All-append IsData new (st ∷ []) h (d, tt),
)

-- What holds of the state whatever the result.
either_way :
    {E A : Type 0} (I : Session → Type 0) (r : Reply E A × Session)
    → I r.1
    → Results (λ a. I) (λ e. I) r
either_way I (ok a, s) h = h
either_way I (failed e, s) h = h

module _ (db : Database) (base : List Statement) where
  abbrev Wrote : Session → Type 0
  Wrote s = Extends base s.log

  -- The write of the record itself.
  send-Results :
      (t : Session) (id : Text) (ingest : Ingest)
      → Wrote t
      → Results
          (λ a u. Completed db base u)
          (λ e u. Stopped db base u)
          (send db (upsert_ingest id ingest) ingest t)
  unfolding execute
  send-Results t id ingest i = answered (db.answer t.log (upsert_ingest id ingest)) refl
    where
      sent : Session
      sent = record t { log = t.log ++ upsert_ingest id ingest ∷ [] }

      answered :
          (o : Option Text)
          → db.answer t.log (upsert_ingest id ingest) ≡ o
          → Results
              (λ a u. Completed db base u)
              (λ e u. Stopped db base u)
              (resume
                (elim o as (λ x. Reply StoreError Unit × Session) [
                  | none ↦ (ok tt, sent)
                  | some message ↦ (failed (surreal message), sent)
                ])
                (λ done u. (ok ingest, u)))
      answered none e = (t.log, id, ingest, i, refl, e)
      answered (some message) e = inr (t.log, id, ingest, i, refl, (message, e))

  create_ingest-Results :
      (ingest : Ingest) (s : Session)
      → Wrote s
      → Results
          (λ stored t. Completed db base t)
          (λ e t. Stopped db base t)
          (create_ingest db ingest s)
  unfolding create_ingest
  create_ingest-Results ingest s h =
      Results-resume (λ ready. Wrote) (λ stored t. Completed db base t) (λ e t. Stopped db base t)
        (ensure_schema db s) _
        (Results-map (λ ready. Wrote) (λ ready. Wrote) (λ e. Wrote) (λ e t. Stopped db base t)
          (ensure_schema db s) (λ a t i. i) (λ e t i. inl i)
          (either_way Wrote (ensure_schema db s)
            (Kept-ensure_schema db Wrote (λ st t. Extends-snoc base t.log st) (λ t i. i) s h)))
        (λ ready t i.
          send-Results t (ingest_id_of db ingest ingest.id (db.uuid t.log))
            (ingest_with_id db ingest ingest.id (db.uuid t.log)) i)

module _ (w : World) (request : RustdocIngestRequest) (s : Session) where
  abbrev pub Ended : Reply IngestError RustdocIngestReport × Session → Type 0
  Ended = Results (λ report t. Completed w.db s.log t) (λ e t. Stopped w.db s.log t)

  create_ingest_record-Results :
      (ingest_id source_modified_at project_version : Option Text) (t : Session)
      → Extends s.log t.log
      → Results
          (λ id u. Completed w.db s.log u)
          (λ e u. Stopped w.db s.log u)
          (create_ingest_record w request.project_id ingest_id source_modified_at project_version t)
  unfolding create_ingest_record
  create_ingest_record-Results ingest_id source_modified_at project_version t i =
      created (create_ingest w.db record_ t) (create_ingest-Results w.db s.log record_ t i)
    where
      record_ : Ingest
      record_ = record {
        id = ingest_id;
        project_id = request.project_id;
        git_commit = none;
        git_branch = none;
        git_tag = none;
        project_version = project_version;
        source_modified_at = source_modified_at;
        ingested_at = some w.now;
        extra = none;
      }

      created :
          (r : Reply StoreError Ingest × Session)
          → Results (λ a u. Completed w.db s.log u) (λ e u. Stopped w.db s.log u) r
          → Results
              (λ id u. Completed w.db s.log u)
              (λ e u. Stopped w.db s.log u)
              (resume (as_store_error r) (λ ingest u. (ok ingest.id, u)))
      created (ok a, u) h = h
      created (failed e, u) h = h

  nothing_sent : Extends s.log s.log
  nothing_sent = ([], sym (append-nil s.log), tt)

  ingest_output-Results : (output : RustdocParseOutput) → Ended (ingest_output w request output s)
  unfolding ingest_output
  ingest_output-Results output =
      Results-resume (λ report t. Extends s.log t.log) (λ report t. Completed w.db s.log t)
        (λ e t. Stopped w.db s.log t) (store_output w request output s) _
        (Results-map (λ report t. Extends s.log t.log) (λ report t. Extends s.log t.log)
          (λ e t. Extends s.log t.log) (λ e t. Stopped w.db s.log t)
          (store_output w request output s) (λ a t i. i) (λ e t i. inl i)
          (either_way (λ t. Extends s.log t.log) (store_output w request output s)
            ((store_output-Keeps w (λ t. Extends s.log t.log) (λ st t. Extends-snoc s.log t.log st)
                (λ t i. i) request output).run
              s nothing_sent)))
        (λ report t i.
          Results-resume (λ id u. Completed w.db s.log u) (λ r u. Completed w.db s.log u)
            (λ e u. Stopped w.db s.log u)
            (create_ingest_record w request.project_id request.ingest_id request.source_modified_at
              output.crate_version t)
            _
            (create_ingest_record-Results request.ingest_id request.source_modified_at
              output.crate_version t i)
            (λ id u done. done))

  -- A successful ingest ends with the statement that writes its ingest record, which the database has
  -- accepted, and it has sent no ingest record before. A failed ingest has sent none, or has sent it last and the
  -- database has refused it.
  pub ingest_rustdoc_json_lem : Ended (ingest_rustdoc_json w request s)
  unfolding ingest_rustdoc_json
  ingest_rustdoc_json_lem = checked (is_empty (trim request.project_id))
    where
      replied : (r : Reply IngestError RustdocParseOutput) → Ended (ingest_reply w request r s)
      replied (failed e) = inl nothing_sent
      replied (ok output) = ingest_output-Results output

      resolved : (p : Payload) → Ended (ingest_resolved w request p s)
      resolved (invalid_input message) = inl nothing_sent
      resolved (payload json) = replied (parse_crate w (options_for w request) (w.read_json json))

      checked :
          (b : Bool)
          → Ended (
              (if b
                  then raise (invalid project_required)
                  else ingest_resolved w request (
                      resolve_ingest_payload w.read_file request.json request.json_path
                        (codes "json")))
                s)
      checked true = inl nothing_sent
      checked false =
          resolved
            (resolve_ingest_payload w.read_file request.json request.json_path (codes "json"))
