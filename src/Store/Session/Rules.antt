-- ===== src/Store/Session/Rules.antt =====
-- Rules for what holds after an action, and what every write to the store keeps.
use docx_mcp.Base.{
  Bool, true, false, Option, none, some, List, [], ◌∷◌, ◌++◌, ◌≡◌, refl, ap, length, suc, is_empty,
  Bool-cases, inl, inr, if◌then◌else◌,
}
use docx_mcp.Text.{Text, codes}
use docx_mcp.Models.{Project, DocSource, Symbol, DocBlock, RelationRecord}
use docx_mcp.Store.Schema.{Split, parts, invalid, split_optional_doc_block_fts_schema}
use docx_mcp.Store.Rows.{ensure_non_empty, ensure_identifier}
use docx_mcp.Store.Session.{
  Statement, schema, upsert_ingest, insert_relation, StoreError, surreal, missing_field,
  invalid_field, Reply, ok, failed, Database, Session, Action, resume, collect, run_all, run_each,
  execute, apply_optional, set_ready, bootstrap_schema, ensure_schema, send, require, put_project,
  read_reply, get_project, create_doc_source, upsert_symbol, create_doc_block, create_doc_blocks,
  parse_record_id, create_relation, create_relations,
}

-- After the action: `Q` of the result and the state, or `F` of the error and the state.
abbrev pub Results :
    {E A : Type 0} → (A → Session → Type 0) → (E → Session → Type 0) → Reply E A × Session → Type 0
Results Q F (ok a, s) = Q a s
Results Q F (failed e, s) = F e s

pub Results-resume :
    {E A B : Type 0} (P : A → Session → Type 0) (Q : B → Session → Type 0)
    (F : E → Session → Type 0) (r : Reply E A × Session) (next : A → Action E B)
    → Results P F r
    → ((a : A) (s : Session) → P a s → Results Q F (next a s))
    → Results Q F (resume r next)
Results-resume P Q F (ok a, s) next h f = f a s h
Results-resume P Q F (failed e, s) next h f = h

pub Results-map :
    {E A : Type 0} (P Q : A → Session → Type 0) (F G : E → Session → Type 0)
    (r : Reply E A × Session)
    → ((a : A) (s : Session) → P a s → Q a s)
    → ((e : E) (s : Session) → F e s → G e s)
    → Results P F r
    → Results Q G r
Results-map P Q F G (ok a, s) f g h = f a s h
Results-map P Q F G (failed e, s) f g h = g e s h

pub any_result : {E A : Type 0} (r : Reply E A × Session) → Results (λ a s. Unit) (λ e s. Unit) r
any_result (ok a, s) = tt
any_result (failed e, s) = tt

-- A loop and a join return one result for each item.
abbrev pub AsMany : {E A B : Type 0} → List A → Reply E (List B) × Session → Type 0
AsMany items = Results (λ bs s. length bs ≡ length items) (λ e s. Unit)

pub run_each-AsMany :
    {E A B : Type 0} (run : A → Action E B) (items : List A) (s : Session)
    → AsMany items (run_each run items s)
unfolding run_each
run_each-AsMany run [] s = refl
run_each-AsMany run (a ∷ rest) s =
    Results-resume (λ b t. Unit) (λ bs u. length bs ≡ suc (length rest)) (λ e t. Unit) (run a s) _
      (any_result (run a s))
      (λ b t tt.
        Results-resume (λ bs u. length bs ≡ length rest) (λ bs u. length bs ≡ suc (length rest))
          (λ e t. Unit) (run_each run rest t) _ (run_each-AsMany run rest t) (λ bs u e. ap suc e))

collect-AsMany :
    {E A B : Type 0} (a : A) (rest : List A) (first : Reply E B)
    (others : Reply E (List B) × Session)
    → AsMany rest others
    → AsMany (a ∷ rest) (collect first others.0, others.1)
collect-AsMany a rest (failed e) others h = tt
collect-AsMany a rest (ok b) (ok bs, s) h = ap suc h
collect-AsMany a rest (ok b) (failed e, s) h = tt

pub run_all-AsMany :
    {E A B : Type 0} (run : A → Action E B) (items : List A) (s : Session)
    → AsMany items (run_all run items s)
unfolding run_all
run_all-AsMany run [] s = refl
run_all-AsMany run (a ∷ rest) s =
    collect-AsMany a rest (run a s).0 (run_all run rest (run a s).1)
      (run_all-AsMany run rest (run a s).1)

-- A property of the state that an action keeps, whether it fails or not.
abbrev pub Kept : {E A : Type 0} → (Session → Type 0) → Reply E A × Session → Type 0
Kept I r = I r.1

pub Kept-resume :
    {E A B : Type 0} (I : Session → Type 0) (r : Reply E A × Session) (next : A → Action E B)
    → Kept I r
    → ((a : A) (s : Session) → I s → Kept I (next a s))
    → Kept I (resume r next)
Kept-resume I (ok a, s) next h f = f a s h
Kept-resume I (failed e, s) next h f = h

pub Kept-run_each :
    {E A B : Type 0} (I : Session → Type 0) (run : A → Action E B)
    → ((a : A) (s : Session) → I s → Kept I (run a s))
    → (items : List A) (s : Session) → I s
    → Kept I (run_each run items s)
unfolding run_each
Kept-run_each I run step [] s h = h
Kept-run_each I run step (a ∷ rest) s h = Kept-resume I (run a s) _ (step a s h) (λ b t i.
    Kept-resume I (run_each run rest t) _ (Kept-run_each I run step rest t i) (λ bs u j. j))

pub Kept-run_all :
    {E A B : Type 0} (I : Session → Type 0) (run : A → Action E B)
    → ((a : A) (s : Session) → I s → Kept I (run a s))
    → (items : List A) (s : Session) → I s
    → Kept I (run_all run items s)
unfolding run_all
Kept-run_all I run step [] s h = h
Kept-run_all I run step (a ∷ rest) s h = Kept-run_all I run step rest (run a s).1 (step a s h)

-- Any statement but the one that writes an ingest record.
abbrev pub IsData : Statement → Type 0
IsData (upsert_ingest id ingest) = ⊥
IsData _ = Unit

-- What sending such statements keeps, and setting the flag of the schema, every write but that of an ingest record keeps.
module _ (db : Database) (I : Session → Type 0)
    (on_send : (st : Statement) (s : Session)
      → IsData st
      → I s
      → I (record s { log = s.log ++ st ∷ [] }))
    (on_ready : (s : Session) → I s → I (set_ready db s)) where
  Kept-execute : (st : Statement) → IsData st → (s : Session) → I s → Kept I (execute db st s)
  unfolding execute
  Kept-execute st d s h = answered (db.answer s.log st)
    where
      sent : Session
      sent = record s { log = s.log ++ st ∷ [] }

      answered :
          (o : Option Text)
          → Kept I (elim o as (λ x. Reply StoreError Unit × Session) [
            | none ↦ (ok tt, sent)
            | some message ↦ (failed (surreal message), sent)
          ])
      answered none = on_send st s d h
      answered (some message) = on_send st s d h

  pub Kept-ensure_schema : (s : Session) → I s → Kept I (ensure_schema db s)
  unfolding ensure_schema
  Kept-ensure_schema s h = ready s.schema_ready
    where
      with_optional : (o : Option Text) (t : Session) → I t → I (apply_optional db o t)
      with_optional none t i = i
      with_optional (some text) t i = Kept-execute (schema text) tt t i

      split : (p : Split) → Kept I (bootstrap_schema db p s)
      split (invalid e) = h
      split (parts required optional) =
          Kept-resume I (execute db (schema required) s) _ (Kept-execute (schema required) tt s h)
            (λ done t i. on_ready (apply_optional db optional t) (with_optional optional t i))

      ready :
          (b : Bool)
          → Kept I (
              if b
              then (ok tt, s)
              else bootstrap_schema db (split_optional_doc_block_fts_schema db.bootstrap) s)
      ready true = h
      ready false = split (split_optional_doc_block_fts_schema db.bootstrap)

  Kept-send :
      {A : Type 0} (st : Statement) (a : A)
      → IsData st
      → (s : Session) → I s
      → Kept I (send db st a s)
  Kept-send st a d s h = Kept-resume I (execute db st s) _ (Kept-execute st d s h) (λ done t i. i)

  Kept-require : (b : Bool) (e : StoreError) (s : Session) → I s → Kept I (require db b e s)
  Kept-require true e s h = h
  Kept-require false e s h = h

  -- The schema, and then what keeps the property.
  after_schema :
      {A : Type 0} (next : Unit → Action StoreError A)
      → ((s : Session) → I s → Kept I (next tt s))
      → (s : Session) → I s
      → Kept I (resume (ensure_schema db s) next)
  after_schema next step s h =
      Kept-resume I (ensure_schema db s) next (Kept-ensure_schema s h) (λ done. step)

  after_check :
      {A : Type 0} (b : Bool) (e : StoreError) (next : Unit → Action StoreError A)
      → ((s : Session) → I s → Kept I (next tt s))
      → (s : Session) → I s
      → Kept I (resume (require db b e s) next)
  after_check b e next step s h =
      Kept-resume I (require db b e s) next (Kept-require b e s h) (λ done. step)

  pub Kept-put_project : (project : Project) (s : Session) → I s → Kept I (put_project db project s)
  unfolding put_project
  Kept-put_project project = after_schema _ (
      after_check (ensure_non_empty project.project_id) (missing_field (codes "project_id")) _
        (Kept-send _ _ tt))

  pub Kept-get_project : (id : Text) (s : Session) → I s → Kept I (get_project db id s)
  unfolding get_project
  Kept-get_project id = after_schema _ (λ t i. read (db.project_record t.log id) t i)
    where
      read : (r : Reply Text (Option Project)) (t : Session) → I t → Kept I (read_reply db r t)
      read (ok found) t i = i
      read (failed message) t i = i

  pub Kept-create_doc_source :
      (source : DocSource) (s : Session) → I s → Kept I (create_doc_source db source s)
  unfolding create_doc_source
  Kept-create_doc_source source = after_schema _ (λ t. Kept-send _ _ tt t)

  pub Kept-upsert_symbol :
      (symbol : Symbol) (s : Session) → I s → Kept I (upsert_symbol db symbol s)
  unfolding upsert_symbol
  Kept-upsert_symbol symbol = after_schema _ (
      after_check (ensure_non_empty symbol.symbol_key) (missing_field (codes "symbol_key")) _
        (Kept-send _ _ tt))

  Kept-create_doc_block :
      (block : DocBlock) (s : Session) → I s → Kept I (create_doc_block db block s)
  unfolding create_doc_block
  Kept-create_doc_block block = after_schema _ (λ t. Kept-send _ _ tt t)

  pub Kept-create_doc_blocks :
      (blocks : List DocBlock) (s : Session) → I s → Kept I (create_doc_blocks db blocks s)
  unfolding create_doc_blocks
  Kept-create_doc_blocks blocks =
      after_schema _ (Kept-run_all I (create_doc_block db) Kept-create_doc_block blocks)

  Kept-parse_record_id :
      (value name : Text) (s : Session) → I s → Kept I (parse_record_id db value name s)
  unfolding parse_record_id
  Kept-parse_record_id value name =
      after_check (ensure_non_empty value) (missing_field name) _
        (Kept-require (db.parse_simple value) (invalid_field name))

  Kept-create_relation :
      (table : Text) (relation : RelationRecord) (s : Session)
      → I s
      → Kept I (create_relation db table relation s)
  unfolding create_relation
  Kept-create_relation table relation = after_schema _ (
      after_check (ensure_identifier table) (invalid_field (codes "table")) _ (λ s h.
        Kept-resume I (parse_record_id db relation.in_id (codes "in_id") s) _
          (Kept-parse_record_id relation.in_id (codes "in_id") s h)
          (λ done t i.
            Kept-resume I (parse_record_id db relation.out_id (codes "out_id") t) _
              (Kept-parse_record_id relation.out_id (codes "out_id") t i)
              (λ done. Kept-send (insert_relation table relation) relation tt))))

  pub Kept-create_relations :
      (table : Text) (relations : List RelationRecord) (s : Session)
      → I s
      → Kept I (create_relations db table relations s)
  unfolding create_relations
  Kept-create_relations table relations s h = elim (Bool-cases (is_empty relations)) [
    | inl none_given ↦ rw none_given h
    | inr given ↦
        rw given
          (Kept-run_all I (create_relation db table) (Kept-create_relation table) relations s h)
  ]
