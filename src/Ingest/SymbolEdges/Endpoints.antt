-- ===== src/Ingest/SymbolEdges/Endpoints.antt =====
-- Every edge that is built from symbols joins two stored symbols.
use docx_mcp.Base.{
  Option, none, some, List, [], ◌∷◌, ◌≡◌, refl, subst, arith, In, inl, inr, ◌⊎◌, All, All-append,
  All-filter_map, Option-cases, Bool-cases, ◌==◌, nat_eq, list_eq,
}
use docx_mcp.Text.{Text, codes, rsplit_once}
use docx_mcp.Models.{Symbol, RelationRecord, TypeRef, Param, type_symbol_key}
use docx_mcp.Schema.{make_symbol_key}
use docx_mcp.Collections.HashMap
use docx_mcp.Ingest.Edges.{relation, symbol_record, Stored, symbol_by_key_sound, get-add_id}
use docx_mcp.Ingest.SymbolEdges.{
  SymbolRelations, no_relations, Lookup, add_qualified, qualified_from, symbol_by_qualified,
  parent_of, type_target, param_edge, trait_edge, trait_paths, push_edge, edge_between, add_edges,
  relate, relate_all, lookup_in, build_symbol_relations,
}

-- An edge between two stored symbols, for the project and ingest at hand.
abbrev pub Joins : List Symbol → Lookup → RelationRecord → Type 0
Joins symbols l r =
    (a : Text) × (b : Text) × Stored symbols a
    × Stored symbols b
    × (r.in_id ≡ symbol_record a)
    × (r.out_id ≡ symbol_record b)
    × (r.project_id ≡ l.project_id)
    × (r.ingest_id ≡ l.ingest_id)

pub record AllJoin (symbols : List Symbol) (l : Lookup) (r : SymbolRelations) : Type 0 where
  pub member_of : All (Joins symbols l) r.member_of
  pub contains : All (Joins symbols l) r.contains
  pub returns : All (Joins symbols l) r.returns
  pub param_types : All (Joins symbols l) r.param_types
  pub implements : All (Joins symbols l) r.implements

-- The maps return ids of stored symbols.
record IsSound (symbols : List Symbol) (l : Lookup) : Type 0 where
  by_qualified : (k id : Text) → HashMap.get k l.by_qualified ≡ some id → Stored symbols id
  by_key : (k id : Text) → HashMap.get k l.by_key ≡ some id → Stored symbols id

add_qualified_sound :
    (m : List (Text × Text)) (s : Symbol) (k id : Text)
    → HashMap.get k (add_qualified s.qualified_name s.id m) ≡ some id
    → (HashMap.get k m ≡ some id) ⊎ (s.id ≡ some id)
unfolding add_qualified
add_qualified_sound m s k id e = elim (Option-cases s.qualified_name) [
  | inl f ↦ inl (ground arith)
  | inr (q, f) ↦ elim (Option-cases s.id) [
    | inl g ↦ inl (ground (arith, get-add_id m q s.id k))
    | inr (id', g) ↦ elim (Bool-cases (k == q)) [
      | inl same ↦ inr (ground (arith, get-add_id m q s.id k))
      | inr other ↦ inl (ground (arith, get-add_id m q s.id k))
    ]
  ]
]

qualified_from_sound :
    (m : List (Text × Text)) (ss : List Symbol) (k id : Text)
    → HashMap.get k (qualified_from m ss) ≡ some id
    → (HashMap.get k m ≡ some id) ⊎ Stored ss id
unfolding qualified_from
qualified_from_sound m [] k id e = inl e
qualified_from_sound m (s ∷ ss) k id e =
    elim (qualified_from_sound (add_qualified s.qualified_name s.id m) ss k id e) [
      | inr (t, i, f) ↦ inr (t, inr i, f)
      | inl f ↦ elim (add_qualified_sound m s k id f) [
        | inl g ↦ inl g
        | inr g ↦ inr (s, inl refl, g)
      ]
    ]

lookup_in-IsSound :
    (symbols : List Symbol) (project_id : Text) (ingest_id : Option Text)
    (trait_impls : Text → Option (List Text))
    → IsSound symbols (lookup_in symbols project_id ingest_id trait_impls)
unfolding symbol_by_qualified
lookup_in-IsSound symbols project_id ingest_id trait_impls = record {
  by_qualified = λ k id e. elim (qualified_from_sound [] symbols k id e) [
    | inl f ↦ absurd (unfold HashMap.get in cc)
    | inr found ↦ found
  ];
  by_key = λ k id e. let (s, i, f, g) = symbol_by_key_sound symbols k id e in (s, i, f);
}

module _ {symbols : List Symbol} (l : Lookup) (v : IsSound symbols l) where
  parent_of-Stored : (s : Symbol) (p : Text) → parent_of l s ≡ some p → Stored symbols p
  unfolding parent_of
  parent_of-Stored s p e = elim (Option-cases s.qualified_name) [
    | inl f ↦ absurd (ground arith)
    | inr (q, f) ↦ elim (Option-cases (rsplit_once q (codes "::"))) [
      | inl g ↦ absurd (ground arith)
      | inr (pair, g) ↦ v.by_qualified pair.0 p (ground arith)
    ]
  ]

  type_target-Stored : (t : Option TypeRef) (p : Text) → type_target l t ≡ some p → Stored symbols p
  unfolding type_target
  type_target-Stored none p e = absurd (cc)
  type_target-Stored (some ty) p e = elim (Option-cases (type_symbol_key ty)) [
    | inl f ↦ absurd (ground arith)
    | inr (key, f) ↦ v.by_key key p (ground arith)
  ]

  join :
      (a b : Text) (k : Option Text)
      → Stored symbols a
      → Stored symbols b
      → Joins symbols l (relation (symbol_record a) (symbol_record b) l.project_id l.ingest_id k)
  join a b k sa sb = (a, b, sa, sb, refl, refl, refl, refl)

  push-Joins :
      (rs : List RelationRecord) (a b : Option Text)
      → ((x : Text) → a ≡ some x → Stored symbols x)
      → ((x : Text) → b ≡ some x → Stored symbols x)
      → All (Joins symbols l) rs
      → All (Joins symbols l) (push_edge rs (edge_between l a b))
  push-Joins rs none b ha hb h = h
  push-Joins rs (some a) none ha hb h = h
  push-Joins rs (some a) (some b) ha hb h =
      All-append _ rs _ h (join a b none (ha a refl) (hb b refl), tt)

  param_edge-Joins :
      (id : Text) (p : Param) (r : RelationRecord)
      → Stored symbols id
      → param_edge l id p ≡ some r
      → Joins symbols l r
  unfolding param_edge
  param_edge-Joins id p r st e = elim (Option-cases (type_target l p.type_ref)) [
    | inl f ↦ absurd (ground arith)
    | inr (target, f) ↦
        let same : relation (symbol_record id) (symbol_record target) l.project_id l.ingest_id
              (some p.name)
            ≡ r =
          ground arith in
        subst (Joins symbols l) same
          (join id target (some p.name) st (type_target-Stored p.type_ref target f))
  ]

  trait_edge-Joins :
      (id path : Text) (r : RelationRecord)
      → Stored symbols id
      → trait_edge l id path ≡ some r
      → Joins symbols l r
  unfolding trait_edge
  trait_edge-Joins id path r st e =
      elim (Option-cases
        (HashMap.get (make_symbol_key (codes "rust") l.project_id path) l.by_key)) [
          | inl f ↦ absurd (ground arith)
          | inr (target, f) ↦
              let same : relation (symbol_record id) (symbol_record target) l.project_id l.ingest_id
                    (some (codes "trait_impl"))
                  ≡ r =
                ground arith in
              subst (Joins symbols l) same
                (join id target (some (codes "trait_impl")) st (v.by_key _ target f))
        ]

  add_edges-AllJoin :
      (id : Text) (s : Symbol) (r : SymbolRelations)
      → Stored symbols id
      → AllJoin symbols l r
      → AllJoin symbols l (add_edges l id s r)
  unfolding add_edges
  add_edges-AllJoin id s r st h =
      let own : (x : Text) → some id ≡ some x → Stored symbols x =
        λ x e. subst (Stored symbols) (cc) st in
      let parent : (x : Text) → parent_of l s ≡ some x → Stored symbols x = parent_of-Stored s in
      record {
        member_of = push-Joins r.member_of (some id) (parent_of l s) own parent h.member_of;
        contains = push-Joins r.contains (parent_of l s) (some id) parent own h.contains;
        returns =
            push-Joins r.returns (some id) (type_target l s.return_type) own
              (type_target-Stored s.return_type) h.returns;
        param_types =
            All-append _ r.param_types _ h.param_types
              (All-filter_map (param_edge l id) _ s.params (λ p e f. param_edge-Joins id p e st f));
        implements = All-append _ r.implements _ h.implements (
            All-filter_map (trait_edge l id) _ (trait_paths l s.qualified_name)
              (λ p e f. trait_edge-Joins id p e st f));
      }

  relate_all-AllJoin :
      (ss : List Symbol) (r : SymbolRelations)
      → ((s : Symbol) → In s ss → In s symbols)
      → AllJoin symbols l r
      → AllJoin symbols l (relate_all l ss r)
  unfolding relate_all relate
  relate_all-AllJoin [] r sub h = h
  relate_all-AllJoin (s ∷ ss) r sub h = elim (Option-cases s.id) [
    | inl e ↦ simp e (relate_all-AllJoin ss r (λ t i. sub t (inr i)) h)
    | inr (id, e) ↦ simp e (
        relate_all-AllJoin ss (add_edges l id s r) (λ t i. sub t (inr i))
          (add_edges-AllJoin id s r (s, sub s (inl refl), e) h))
  ]

-- Every edge of the five kinds runs between two stored symbols, and carries the project and the
-- ingest of the request.
pub build_symbol_relations-AllJoin :
    (symbols : List Symbol) (project_id : Text) (ingest_id : Option Text)
    (trait_impls : Text → Option (List Text))
    → AllJoin symbols
        (lookup_in symbols project_id ingest_id trait_impls)
        (build_symbol_relations symbols project_id ingest_id trait_impls)
unfolding build_symbol_relations
build_symbol_relations-AllJoin symbols project_id ingest_id trait_impls =
    relate_all-AllJoin (lookup_in symbols project_id ingest_id trait_impls)
      (lookup_in-IsSound symbols project_id ingest_id trait_impls) symbols no_relations (λ s i. i)
      (record { member_of = tt; contains = tt; returns = tt; param_types = tt; implements = tt })
