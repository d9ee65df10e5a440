-- ===== src/Ingest/BlockEdges/References.antt =====
-- What a reference resolves to, and where the edges of doc blocks lead.
use docx_mcp.Base.{
  Option, none, some, List, [], ◌∷◌, ◌≡◌, refl, subst, arith, In, inl, inr, ◌⊎◌, or_option, All,
  All-append, All-filter_map, Option-cases, nat_eq, list_eq, map,
}
use docx_mcp.Text.{Text, codes}
use docx_mcp.Models.{
  Symbol, DocBlock, RelationRecord, DocInherit, SeeAlso, DocException, type_symbol_key,
}
use docx_mcp.Collections.HashSet.{Distinct}
use docx_mcp.Collections.HashMap
use docx_mcp.Ingest.Edges.{
  symbol_record, symbol_by_key, Stored, symbol_by_key_sound, symbol_by_key_complete,
}
use docx_mcp.Ingest.SymbolEdges.{push_edge}
use docx_mcp.Ingest.BlockEdges.{
  DocBlockRelations, no_block_relations, language_key, resolve_symbol_reference, Context, edge_to,
  see_also_edge, inherit_edge, exception_edge, add_block, block_symbol, relate_block, relate_blocks,
  build_doc_block_relations,
}

-- A reference resolves only to a stored symbol, whose key is the target itself or the target's key in
-- the block's language.
pub resolve_symbol_reference_sound :
    (symbols : List Symbol) (target : Text) (language : Option Text) (project_id id : Text)
    → resolve_symbol_reference target language project_id (symbol_by_key symbols) ≡ some id
    → (s : Symbol) × In s symbols
      × (s.id ≡ some id)
      × ((s.symbol_key ≡ target) ⊎ (language_key language project_id target ≡ some s.symbol_key))
unfolding resolve_symbol_reference
resolve_symbol_reference_sound symbols target language project_id id e =
    elim (Option-cases (HashMap.get target (symbol_by_key symbols))) [
      | inr (found, f) ↦
          let (s, i, g, same) = symbol_by_key_sound symbols target id (ground arith) in
          (s, i, g, inl same)
      | inl miss ↦ elim (Option-cases (language_key language project_id target)) [
        | inl f ↦ absurd (ground arith)
        | inr (key, f) ↦
            let (s, i, g, same) = symbol_by_key_sound symbols key id (ground arith) in
            (s, i, g, inr (cc))
      ]
    ]

-- Where the symbols have distinct keys, a symbol that is stored under the target's key in the
-- language is found by the bare target, unless a stored symbol has the bare target for its key.
pub resolve_symbol_reference_complete :
    (symbols : List Symbol) (s : Symbol) (target id project_id : Text) (language : Option Text)
    → Distinct (map (λ s. s.symbol_key) symbols)
    → In s symbols
    → s.id ≡ some id
    → language_key language project_id target ≡ some s.symbol_key
    → HashMap.get target (symbol_by_key symbols) ≡ none
    → resolve_symbol_reference target language project_id (symbol_by_key symbols) ≡ some id
unfolding resolve_symbol_reference
resolve_symbol_reference_complete symbols s target id project_id language d i e key miss =
    ground (arith, symbol_by_key_complete symbols s id d i e)

-- An edge from the block's symbol to a stored one.
abbrev pub Leads : List Symbol → Text → Option Text → RelationRecord → Type 0
Leads symbols project_id ingest_id r =
    (a : Text) × (b : Text) × Stored symbols a
    × Stored symbols b
    × (r.in_id ≡ symbol_record a)
    × (r.out_id ≡ symbol_record b)
    × (r.project_id ≡ project_id)
    × (r.ingest_id ≡ ingest_id)

module _ (symbols : List Symbol) (project_id : Text) (ingest_id : Option Text) where
  abbrev pub AllLead : DocBlockRelations → Type 0
  AllLead r =
      All (Leads symbols project_id ingest_id) r.see_also
      × All (Leads symbols project_id ingest_id) r.inherits
      × All (Leads symbols project_id ingest_id) r.references

  module _ (language : Option Text) (symbol_id : Text) (st : Stored symbols symbol_id) where
    abbrev context : Context
    context = record {
      by_key = symbol_by_key symbols;
      project_id = project_id;
      ingest_id = ingest_id;
      language = language;
      symbol_id = symbol_id;
    }

    lead :
        (target : Text) (k : Option Text) (r : RelationRecord)
        → Stored symbols target
        → edge_to context target k ≡ r
        → Leads symbols project_id ingest_id r
    lead target k r s e =
        subst (Leads symbols project_id ingest_id) e
          (symbol_id, target, st, s, refl, refl, refl, refl)

    resolved :
        (target id : Text)
        → resolve_symbol_reference target language project_id (symbol_by_key symbols) ≡ some id
        → Stored symbols id
    resolved target id e =
        let (s, i, f, _) = resolve_symbol_reference_sound symbols target language project_id id e in
        (s, i, f)

    see_also_edge-Leads :
        (link : SeeAlso) (r : RelationRecord)
        → see_also_edge context link ≡ some r
        → Leads symbols project_id ingest_id r
    unfolding see_also_edge
    see_also_edge-Leads link r e =
        elim (Option-cases
          (resolve_symbol_reference link.target language project_id (symbol_by_key symbols))) [
            | inl f ↦ absurd (ground arith)
            | inr (id, f) ↦ lead id link.target_kind r (resolved link.target id f) (ground arith)
          ]

    exception_edge-Leads :
        (x : DocException) (r : RelationRecord)
        → exception_edge context x ≡ some r
        → Leads symbols project_id ingest_id r
    unfolding exception_edge
    exception_edge-Leads x r e = elim (Option-cases x.type_ref) [
      | inl f ↦ absurd (ground arith)
      | inr (ty, f) ↦ elim (Option-cases (type_symbol_key ty)) [
        | inl g ↦ absurd (ground arith)
        | inr (key, g) ↦ elim (Option-cases (HashMap.get key (symbol_by_key symbols))) [
          | inl h ↦ absurd (ground arith)
          | inr (id, h) ↦
              let (s, i, q, _) = symbol_by_key_sound symbols key id h in
              lead id (some (codes "exception")) r (s, i, q) (ground arith)
        ]
      ]
    ]

    push_inherit-Leads :
        (rs : List RelationRecord) (o : Option RelationRecord)
        → ((r : RelationRecord) → o ≡ some r → Leads symbols project_id ingest_id r)
        → All (Leads symbols project_id ingest_id) rs
        → All (Leads symbols project_id ingest_id) (push_edge rs o)
    push_inherit-Leads rs none h rest = rest
    push_inherit-Leads rs (some r) h rest = All-append _ rs (r ∷ []) rest (h r refl, tt)

    inherit_edge-Leads :
        (x : Option DocInherit) (r : RelationRecord)
        → inherit_edge context x ≡ some r
        → Leads symbols project_id ingest_id r
    unfolding inherit_edge
    inherit_edge-Leads none r e = absurd (cc)
    inherit_edge-Leads (some x) r e = elim (Option-cases (or_option x.cref x.path)) [
      | inl f ↦ absurd (ground arith)
      | inr (target, f) ↦
          elim (Option-cases
            (resolve_symbol_reference target language project_id (symbol_by_key symbols))) [
              | inl g ↦ absurd (ground arith)
              | inr (id, g) ↦
                  lead id (some (codes "inheritdoc")) r (resolved target id g) (ground arith)
            ]
    ]

    add_block-AllLead :
        (b : DocBlock) (r : DocBlockRelations) → AllLead r → AllLead (add_block context b r)
    unfolding add_block
    add_block-AllLead b r (hs, hi, hr) = (
      All-append _ r.see_also _ hs (
          All-filter_map (see_also_edge context) _ b.see_also (λ x e f. see_also_edge-Leads x e f)),
      push_inherit-Leads r.inherits (inherit_edge context b.inherit_doc)
          (λ x f. inherit_edge-Leads b.inherit_doc x f) hi,
      All-append _ r.references _ hr (
          All-filter_map (exception_edge context) _ b.exceptions
            (λ x e f. exception_edge-Leads x e f)),
    )

  relate_block-AllLead :
      (id : Option Text) (b : DocBlock) (r : DocBlockRelations)
      → ((x : Text) → id ≡ some x → Stored symbols x)
      → AllLead r
      → AllLead (relate_block (symbol_by_key symbols) project_id ingest_id id b r)
  unfolding relate_block
  relate_block-AllLead none b r st h = h
  relate_block-AllLead (some id) b r st h = add_block-AllLead b.language id (st id refl) b r h

  block_symbol-Stored :
      (b : DocBlock) (x : Text) → block_symbol (symbol_by_key symbols) b ≡ some x → Stored symbols x
  unfolding block_symbol
  block_symbol-Stored b x e = elim (Option-cases b.symbol_key) [
    | inl f ↦ absurd (ground arith)
    | inr (key, f) ↦
        let (s, i, q, _) = symbol_by_key_sound symbols key x (ground arith) in (s, i, q)
  ]

  relate_blocks-AllLead :
      (bs : List DocBlock) (r : DocBlockRelations)
      → AllLead r
      → AllLead (relate_blocks (symbol_by_key symbols) project_id ingest_id bs r)
  unfolding relate_blocks
  relate_blocks-AllLead [] r h = h
  relate_blocks-AllLead (b ∷ bs) r h =
      relate_blocks-AllLead bs _ (
        relate_block-AllLead (block_symbol (symbol_by_key symbols) b) b r (block_symbol-Stored b) h)

  -- Every edge of a doc block runs from a stored symbol to a stored symbol, and carries the project
  -- and the ingest of the request.
  pub build_doc_block_relations-AllLead :
      (blocks : List DocBlock)
      → AllLead (build_doc_block_relations symbols blocks project_id ingest_id)
  unfolding build_doc_block_relations
  build_doc_block_relations-AllLead blocks =
      relate_blocks-AllLead blocks no_block_relations (tt, tt, tt)
