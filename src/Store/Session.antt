-- ===== src/Store/Session.antt =====
-- The writes of crates/lib/docx-core/src/store/surreal.rs as statements that are sent to the database.
--
-- The database is a parameter: what it answers to a statement, after those that it was sent before. So are
-- the ids that `Uuid::new_v4` returns, the reader of record ids, and the text of the schema. Where the
-- code starts writes together and awaits them all, they are sent in the order of the list.
pub mod Rules
use docx_mcp.Base.{
  ℕ, Bool, true, false, not, ◌==◌, list_eq, nat_eq, Option, none, some, List, [], ◌∷◌, ◌++◌,
  if◌then◌else◌, is_empty, unwrap_or,
}
use docx_mcp.Text.{Text, codes}
use docx_mcp.Models.{Project, Ingest, DocSource, Symbol, DocBlock, RelationRecord, Value}
use docx_mcp.Store.Schema.{Split, parts, invalid, SchemaError, split_optional_doc_block_fts_schema}
use docx_mcp.Store.IngestIds.{make_scoped_ingest_id, merge_ingest_extra}
use docx_mcp.Store.Rows.{ensure_non_empty, ensure_identifier}

-- What the code sends: `apply_schema`, `UPSERT $record CONTENT $data` with the id of the record, `CREATE`, and `RELATE`.
pub data Statement : Type 0 where
  schema : Text → Statement
  upsert_project_record : Text → Project → Statement
  upsert_ingest : Text → Ingest → Statement
  insert_doc_source : DocSource → Statement
  upsert_symbol_record : Text → Symbol → Statement
  insert_doc_block : DocBlock → Statement
  insert_relation : Text → RelationRecord → Statement

-- `InvalidInput` carries a message, here the field that it is about, or the fault of the schema.
pub data StoreError : Type 0 where
  surreal : Text → StoreError
  missing_field : Text → StoreError
  invalid_field : Text → StoreError
  invalid_schema : SchemaError → StoreError

pub data Reply (E A : Type 0) : Type 0 where
  ok : A → Reply E A
  failed : E → Reply E A

pub record Database : Type 0 where
  pub answer : List Statement → Statement → Option Text
  pub project_record : List Statement → Text → Reply Text (Option Project)
  pub uuid : List Statement → Text
  pub parse_simple : Text → Bool
  pub bootstrap : Text

-- The connection: whether the schema was applied, and the statements sent so far.
pub record Session : Type 0 where
  pub schema_ready : Bool
  pub log : List Statement

abbrev pub Action : Type 0 → Type 0 → Type 0
Action E A = Session → Reply E A × Session

abbrev pub return : {E A : Type 0} → A → Action E A
return a s = (ok a, s)

abbrev pub raise : {E A : Type 0} → E → Action E A
raise e s = (failed e, s)

-- What follows a `?`.
abbrev pub resume : {E A B : Type 0} → Reply E A × Session → (A → Action E B) → Reply E B × Session
resume (ok a, s) next = next a s
resume (failed e, s) next = (failed e, s)

infixl 20 ◌>>=◌
abbrev pub ◌>>=◌ : {E A B : Type 0} → Action E A → (A → Action E B) → Action E B
◌>>=◌ m next s = resume (m s) next

abbrev pub collect : {E A : Type 0} → Reply E A → Reply E (List A) → Reply E (List A)
collect (failed e) rest = failed e
collect (ok a) (failed e) = failed e
collect (ok a) (ok rest) = ok (a ∷ rest)

-- `join_all`, then `collect`: everything is run, and the first error is returned.
unfoldable pub run_all : {E A B : Type 0} → (A → Action E B) → List A → Action E (List B)
run_all run [] s = (ok [], s)
run_all run (a ∷ rest) s =
    let first = run a s in
    let others = run_all run rest first.1 in (collect first.0 others.0, others.1)

-- A loop of `push(run(item).await?)`.
unfoldable pub run_each : {E A B : Type 0} → (A → Action E B) → List A → Action E (List B)
run_each run [] s = (ok [], s)
run_each run (a ∷ rest) s =
    resume (run a s) (λ b t. resume (run_each run rest t) (λ bs u. (ok (b ∷ bs), u)))

module _ (db : Database) where
  unfoldable pub execute : Statement → Action StoreError Unit
  execute statement s =
      let sent = record s { log = s.log ++ statement ∷ [] } in
      elim (db.answer s.log statement) [
        | none ↦ (ok tt, sent)
        | some message ↦ (failed (surreal message), sent)
      ]

  abbrev pub apply_optional : Option Text → Session → Session
  apply_optional none s = s
  apply_optional (some optional) s = (execute (schema optional) s).1

  abbrev pub set_ready : Session → Session
  set_ready s = record s { schema_ready = true }

  abbrev pub bootstrap_schema : Split → Action StoreError Unit
  bootstrap_schema (invalid e) s = (failed (invalid_schema e), s)
  bootstrap_schema (parts required optional) s =
      resume (execute (schema required) s)
        (λ done t. (ok tt, set_ready (apply_optional optional t)))

  unfoldable pub ensure_schema : Action StoreError Unit
  unfolding execute split_optional_doc_block_fts_schema
  ensure_schema s =
      if s.schema_ready
      then (ok tt, s)
      else bootstrap_schema (split_optional_doc_block_fts_schema db.bootstrap) s

  -- The schema, a check, the statement, and the record back.
  abbrev pub send : {A : Type 0} → Statement → A → Action StoreError A
  send statement a s = resume (execute statement s) (λ done t. (ok a, t))

  abbrev pub require : Bool → StoreError → Action StoreError Unit
  require true e s = (ok tt, s)
  require false e s = (failed e, s)

  unfoldable pub put_project : Project → Action StoreError Project
  unfolding ensure_schema execute ensure_non_empty
  put_project project =
      let id = unwrap_or project.id project.project_id in
      let stored = record project { id = some id } in
      ensure_schema >>= λ ready.
      require (ensure_non_empty project.project_id) (missing_field (codes "project_id"))
      >>= λ checked. send (upsert_project_record id stored) stored

  abbrev pub read_reply : Reply Text (Option Project) → Action StoreError (Option Project)
  read_reply (ok found) s = (ok found, s)
  read_reply (failed message) s = (failed (surreal message), s)

  unfoldable pub get_project : Text → Action StoreError (Option Project)
  unfolding ensure_schema
  get_project project_id =
      ensure_schema >>= λ ready s. read_reply (db.project_record s.log project_id) s

  -- The id of an ingest, and its `extra` where the id that was asked for is scoped.
  abbrev pub ingest_with_id : Ingest → Option Text → Text → Ingest
  ingest_with_id ingest none uuid = record ingest { id = some uuid }
  ingest_with_id ingest (some provided) uuid =
      let id = make_scoped_ingest_id ingest.project_id provided in
      record ingest {
        id = some id;
        extra =
            if provided == id
            then ingest.extra
            else some (merge_ingest_extra ingest.extra provided);
      }

  abbrev pub ingest_id_of : Ingest → Option Text → Text → Text
  ingest_id_of ingest none uuid = uuid
  ingest_id_of ingest (some provided) uuid = make_scoped_ingest_id ingest.project_id provided

  unfoldable pub create_ingest : Ingest → Action StoreError Ingest
  unfolding ensure_schema execute make_scoped_ingest_id merge_ingest_extra
  create_ingest ingest = ensure_schema >>= λ ready s.
      let uuid = db.uuid s.log in
      let stored = ingest_with_id ingest ingest.id uuid in
      send (upsert_ingest (ingest_id_of ingest ingest.id uuid) stored) stored s

  unfoldable pub create_doc_source : DocSource → Action StoreError DocSource
  unfolding ensure_schema execute
  create_doc_source source = ensure_schema >>= λ ready s.
      let stored = record source { id = some (unwrap_or source.id (db.uuid s.log)) } in
      send (insert_doc_source stored) stored s

  unfoldable pub upsert_symbol : Symbol → Action StoreError Symbol
  unfolding ensure_schema execute ensure_non_empty
  upsert_symbol symbol =
      let id = unwrap_or symbol.id symbol.symbol_key in
      let stored = record symbol { id = some id } in
      ensure_schema >>= λ ready.
      require (ensure_non_empty symbol.symbol_key) (missing_field (codes "symbol_key"))
      >>= λ checked. send (upsert_symbol_record id stored) stored

  unfoldable pub create_doc_block : DocBlock → Action StoreError DocBlock
  unfolding ensure_schema execute
  create_doc_block block = ensure_schema >>= λ ready s.
      let stored = record block { id = some (unwrap_or block.id (db.uuid s.log)) } in
      send (insert_doc_block stored) stored s

  unfoldable pub create_doc_blocks : List DocBlock → Action StoreError (List DocBlock)
  unfolding ensure_schema run_all create_doc_block
  create_doc_blocks blocks = ensure_schema >>= λ ready. run_all create_doc_block blocks

  -- `parse_record_id`
  unfoldable pub parse_record_id : Text → Text → Action StoreError Unit
  unfolding ensure_non_empty
  parse_record_id value field =
      require (ensure_non_empty value) (missing_field field) >>= λ checked.
      require (db.parse_simple value) (invalid_field field)

  unfoldable pub create_relation : Text → RelationRecord → Action StoreError RelationRecord
  unfolding ensure_schema execute ensure_identifier parse_record_id
  create_relation table relation = ensure_schema >>= λ ready.
      require (ensure_identifier table) (invalid_field (codes "table")) >>= λ named.
      parse_record_id relation.in_id (codes "in_id") >>= λ from.
      parse_record_id relation.out_id (codes "out_id") >>= λ to.
      send (insert_relation table relation) relation

  unfoldable pub create_relations :
      Text → List RelationRecord → Action StoreError (List RelationRecord)
  unfolding run_all create_relation
  create_relations table relations =
      if is_empty relations then return [] else run_all (create_relation table) relations
