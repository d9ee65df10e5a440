-- ===== src/Ingest/Edges.antt =====
-- `build_documents_edges` and `build_observed_in_edges`, and the symbol map that the edge builders
-- share.
use docx_mcp.Base.{
  false, Option, none, some, List, [], ◌∷◌, ◌≡◌, refl, ap, sym, ◌∙◌, arith, nat_eq, list_eq,
  if◌then◌else◌, map, In, inl, inr, ◌⊎◌, filter_map, In-filter_map, filter_map-In, ◌↔◌, eq_iff,
  ◌==◌, Option-cases, Bool-cases,
}
use docx_mcp.Text.{Text, codes}
use docx_mcp.Models.{Symbol, DocBlock, RelationRecord}
use docx_mcp.Schema.{table_symbol, table_doc_block, table_doc_source, make_record_id}
use docx_mcp.Collections.HashSet.{contains, Distinct}
use docx_mcp.Collections.HashMap

-- A record that all builders write alike: no id, no extra data.
abbrev pub relation : Text → Text → Text → Option Text → Option Text → RelationRecord
relation in_id out_id project_id ingest_id kind = record {
  id = none;
  in_id = in_id;
  out_id = out_id;
  project_id = project_id;
  ingest_id = ingest_id;
  kind = kind;
  extra = none;
}

abbrev pub symbol_record : Text → Text
symbol_record = make_record_id table_symbol

-- `if let Some(id) = symbol.id { map.insert(symbol.symbol_key, id) }`
unfoldable pub add_id : Text → Option Text → List (Text × Text) → List (Text × Text)
add_id key none m = m
add_id key (some id) m = HashMap.insert key id m

unfoldable pub add_key : List (Text × Text) → Symbol → List (Text × Text)
unfolding add_id
add_key m s = add_id s.symbol_key s.id m

unfoldable pub add_keys : List (Text × Text) → List Symbol → List (Text × Text)
unfolding add_key
add_keys m [] = m
add_keys m (s ∷ ss) = add_keys (add_key m s) ss

-- The map of `build_documents_edges` holds record ids; the builders below look ids up and make the
-- record ids from them.
unfoldable pub symbol_by_key : List Symbol → List (Text × Text)
unfolding add_keys
symbol_by_key symbols = add_keys [] symbols

unfoldable pub documents_edge :
    List (Text × Text) → Text → Option Text → DocBlock → Option RelationRecord
documents_edge by_key project_id ingest_id block = elim block.id [
  | none ↦ none
  | some block_id ↦ elim block.symbol_key [
    | none ↦ none
    | some symbol_key ↦ elim (HashMap.get symbol_key by_key) [
      | none ↦ none
      | some symbol_id ↦ some (
          relation (make_record_id table_doc_block block_id) (symbol_record symbol_id) project_id
            ingest_id none)
    ]
  ]
]

unfoldable pub build_documents_edges :
    List Symbol → List DocBlock → Text → Option Text → List RelationRecord
unfolding documents_edge symbol_by_key
build_documents_edges symbols blocks project_id ingest_id =
    filter_map (documents_edge (symbol_by_key symbols) project_id ingest_id) blocks

unfoldable pub observed_in_edge : Text → Option Text → Text → Symbol → Option RelationRecord
observed_in_edge project_id ingest_id doc_source_record symbol = elim symbol.id [
  | none ↦ none
  | some symbol_id ↦ some (
      relation (symbol_record symbol_id) doc_source_record project_id ingest_id
        (some (codes "doc_source")))
]

unfoldable pub build_observed_in_edges :
    List Symbol → Text → Option Text → Text → List RelationRecord
unfolding observed_in_edge
build_observed_in_edges symbols project_id ingest_id doc_source_id =
    filter_map
      (observed_in_edge project_id ingest_id (make_record_id table_doc_source doc_source_id))
      symbols

-- A stored symbol that has the id.
abbrev pub Stored : List Symbol → Text → Type 0
Stored symbols id = (s : Symbol) × In s symbols × (s.id ≡ some id)

abbrev pub added : Text → Option Text → Text → Option Text → Option Text
added key none k old = old
added key (some id) k old = if k == key then some id else old

pub get-add_id :
    (m : List (Text × Text)) (key : Text) (id : Option Text) (k : Text)
    → HashMap.get k (add_id key id m) ≡ added key id k (HashMap.get k m)
unfolding add_id
get-add_id m key none k = refl
get-add_id m key (some id) k = HashMap.get-insert key k id m

get-add_key :
    (m : List (Text × Text)) (s : Symbol) (k : Text)
    → HashMap.get k (add_key m s) ≡ added s.symbol_key s.id k (HashMap.get k m)
unfolding add_key
get-add_key m s k = get-add_id m s.symbol_key s.id k

-- The map holds the ids that it had, and those of the symbols.
add_keys_sound :
    (m : List (Text × Text)) (ss : List Symbol) (k id : Text)
    → HashMap.get k (add_keys m ss) ≡ some id
    → (HashMap.get k m ≡ some id) ⊎ ((s : Symbol) × In s ss × (s.id ≡ some id) × (s.symbol_key ≡ k))
unfolding add_keys
add_keys_sound m [] k id e = inl e
add_keys_sound m (s ∷ ss) k id e = elim (add_keys_sound (add_key m s) ss k id e) [
  | inr (t, i, f, g) ↦ inr (t, inr i, f, g)
  | inl f ↦ elim (Option-cases s.id) [
    | inl g ↦ inl (ground (arith, get-add_key m s k))
    | inr (id', g) ↦ elim (Bool-cases (k == s.symbol_key)) [
      | inl same ↦
          inr
            (s, inl refl, ground (arith, get-add_key m s k), ground (arith, eq_iff k s.symbol_key))
      | inr other ↦ inl (ground (arith, get-add_key m s k))
    ]
  ]
]

-- An id that the map returns for a key is that of a stored symbol with the key.
pub symbol_by_key_sound :
    (ss : List Symbol) (k id : Text)
    → HashMap.get k (symbol_by_key ss) ≡ some id
    → (s : Symbol) × In s ss × (s.id ≡ some id) × (s.symbol_key ≡ k)
unfolding symbol_by_key
symbol_by_key_sound ss k id e = elim (add_keys_sound [] ss k id e) [
  | inl f ↦ absurd (unfold HashMap.get in cc)
  | inr found ↦ found
]

add_keys_keep :
    (m : List (Text × Text)) (ss : List Symbol) (k : Text)
    → contains k (map (λ s. s.symbol_key) ss) ≡ false
    → HashMap.get k (add_keys m ss) ≡ HashMap.get k m
unfolding add_keys contains
add_keys_keep m [] k h = refl
add_keys_keep m (s ∷ ss) k h = ground (
  arith,
  add_keys_keep (add_key m s) ss k,
  get-add_key m s k,
  eq_iff k s.symbol_key,
  Option-cases s.id,
)

add_keys_complete :
    (m : List (Text × Text)) (ss : List Symbol) (s : Symbol) (id : Text)
    → Distinct (map (λ s. s.symbol_key) ss)
    → In s ss
    → s.id ≡ some id
    → HashMap.get s.symbol_key (add_keys m ss) ≡ some id
unfolding add_keys
add_keys_complete m [] s id d i e = absurd i
add_keys_complete m (t ∷ ss) s id (h, d) (inr i) e = add_keys_complete (add_key m t) ss s id d i e
add_keys_complete m (t ∷ ss) s id (h, d) (inl p) e =
    let f : t.id ≡ some id = ap (λ (u : Symbol). u.id) (sym p) ∙ e in
    let same : s.symbol_key ≡ t.symbol_key = ap (λ (u : Symbol). u.symbol_key) p in
    ap (λ k. HashMap.get k (add_keys (add_key m t) ss)) same
    ∙ add_keys_keep (add_key m t) ss t.symbol_key h
    ∙ ground (arith, get-add_key m t t.symbol_key, eq_iff t.symbol_key t.symbol_key)

-- Where the keys are distinct, the map returns every stored symbol's id for its key.
pub symbol_by_key_complete :
    (ss : List Symbol) (s : Symbol) (id : Text)
    → Distinct (map (λ s. s.symbol_key) ss)
    → In s ss
    → s.id ≡ some id
    → HashMap.get s.symbol_key (symbol_by_key ss) ≡ some id
unfolding symbol_by_key
symbol_by_key_complete ss s id d i e = add_keys_complete [] ss s id d i e

-- The block and the symbol that an edge joins.
abbrev pub Documents : List Symbol → List DocBlock → Text → Option Text → RelationRecord → Type 0
Documents symbols blocks project_id ingest_id r =
    (b : DocBlock) × (s : Symbol) × (block_id : Text) × (id : Text) × In b blocks
    × In s symbols
    × (b.id ≡ some block_id)
    × (s.id ≡ some id)
    × (b.symbol_key ≡ some s.symbol_key)
    × (r
        ≡ relation (make_record_id table_doc_block block_id) (symbol_record id) project_id ingest_id
            none)

documents_edge_sound :
    (by_key : List (Text × Text)) (project_id : Text) (ingest_id : Option Text) (b : DocBlock)
    (r : RelationRecord)
    → documents_edge by_key project_id ingest_id b ≡ some r
    → (block_id : Text) × (key : Text) × (id : Text) × (b.id ≡ some block_id)
      × (b.symbol_key ≡ some key)
      × (HashMap.get key by_key ≡ some id)
      × (r
          ≡ relation
              (make_record_id table_doc_block block_id)
              (symbol_record id)
              project_id
              ingest_id
              none)
unfolding documents_edge
documents_edge_sound by_key project_id ingest_id b r e = elim (Option-cases b.id) [
  | inl f ↦ absurd (ground arith)
  | inr (block_id, f) ↦ elim (Option-cases b.symbol_key) [
    | inl g ↦ absurd (ground arith)
    | inr (key, g) ↦ elim (Option-cases (HashMap.get key by_key)) [
      | inl h ↦ absurd (ground arith)
      | inr (id, h) ↦ (block_id, key, id, f, g, h, ground arith)
    ]
  ]
]

module _ (symbols : List Symbol) (blocks : List DocBlock) (project_id : Text)
    (ingest_id : Option Text) where
  -- Every `documents` edge runs from a stored block to a stored symbol with the block's key.
  build_documents_edges_sound :
      (r : RelationRecord)
      → In r (build_documents_edges symbols blocks project_id ingest_id)
      → Documents symbols blocks project_id ingest_id r
  unfolding build_documents_edges
  build_documents_edges_sound r i =
      let (b, j, e) = In-filter_map _ r blocks i in
      let (block_id, key, id, f, g, h, p) =
        documents_edge_sound (symbol_by_key symbols) project_id ingest_id b r e in
      let (s, k, q, same) = symbol_by_key_sound symbols key id h in
      (b, s, block_id, id, j, k, f, q, cc, p)

  build_documents_edges_complete :
      (r : RelationRecord)
      → Distinct (map (λ s. s.symbol_key) symbols)
      → Documents symbols blocks project_id ingest_id r
      → In r (build_documents_edges symbols blocks project_id ingest_id)
  unfolding build_documents_edges documents_edge
  build_documents_edges_complete r d (b, s, block_id, id, j, k, f, q, same, p) =
      filter_map-In _ b r blocks j (ground (arith, symbol_by_key_complete symbols s id d k q))

  -- Where the symbols have distinct keys, the `documents` edges are exactly those from a stored block
  -- to the stored symbol with the block's key, both with ids.
  pub build_documents_edges_lem :
      (r : RelationRecord)
      → Distinct (map (λ s. s.symbol_key) symbols)
      → In r (build_documents_edges symbols blocks project_id ingest_id)
        ↔ Documents symbols blocks project_id ingest_id r
  build_documents_edges_lem r d =
      (build_documents_edges_sound r, build_documents_edges_complete r d)

  -- The `observed_in` edges are exactly those from a stored symbol with an id to the source.
  pub build_observed_in_edges_lem :
      (doc_source_id : Text) (r : RelationRecord)
      → In r (build_observed_in_edges symbols project_id ingest_id doc_source_id) ↔ (
          (id : Text) × Stored symbols id
          × (r
              ≡ relation
                  (symbol_record id)
                  (make_record_id table_doc_source doc_source_id)
                  project_id
                  ingest_id
                  (some (codes "doc_source"))))
  unfolding build_observed_in_edges observed_in_edge
  build_observed_in_edges_lem doc_source_id r = (
    λ i.
        let (s, j, e) = In-filter_map _ r symbols i in
        elim (Option-cases s.id) [
          | inl f ↦ absurd (ground arith)
          | inr (id, f) ↦ (id, (s, j, f), ground arith)
        ],
    λ found. let (id, (s, j, f), p) = found in filter_map-In _ s r symbols j (ground arith),
  )
