-- ===== src/Ingest/SymbolEdges/Mirror.antt =====
-- The `contains` edges are the `member_of` edges the other way round.
use mathlib.Core.List.{map-append}
use docx_mcp.Base.{Option, none, some, List, [], ◌∷◌, ◌≡◌, refl, ap, ◌∙◌, map}
use docx_mcp.Text.{Text}
use docx_mcp.Models.{Symbol, RelationRecord}
use docx_mcp.Ingest.SymbolEdges.{
  SymbolRelations, no_relations, Lookup, parent_of, push_edge, edge_between, relate, relate_all,
  lookup_in, build_symbol_relations,
}

-- An edge with its ends exchanged.
abbrev pub mirror : RelationRecord → RelationRecord
mirror r = record r { in_id = r.out_id; out_id = r.in_id }

abbrev IsMirrored : SymbolRelations → Type 0
IsMirrored r = r.contains ≡ map mirror r.member_of

push_mirror :
    (l : Lookup) (rs : List RelationRecord) (a b : Option Text)
    → push_edge (map mirror rs) (edge_between l b a)
      ≡ map mirror (push_edge rs (edge_between l a b))
push_mirror l rs none none = refl
push_mirror l rs none (some b) = refl
push_mirror l rs (some a) none = refl
push_mirror l rs (some a) (some b) = rw map-append

relate-IsMirrored :
    (l : Lookup) (id : Option Text) (s : Symbol) (r : SymbolRelations)
    → IsMirrored r
    → IsMirrored (relate l id s r)
unfolding relate
relate-IsMirrored l none s r h = h
relate-IsMirrored l (some id) s r h =
    ap (λ rs. push_edge rs (edge_between l (parent_of l s) (some id))) h
    ∙ push_mirror l r.member_of (some id) (parent_of l s)

relate_all-IsMirrored :
    (l : Lookup) (ss : List Symbol) (r : SymbolRelations)
    → IsMirrored r
    → IsMirrored (relate_all l ss r)
unfolding relate_all
relate_all-IsMirrored l [] r h = h
relate_all-IsMirrored l (s ∷ ss) r h =
    relate_all-IsMirrored l ss (relate l s.id s r) (relate-IsMirrored l s.id s r h)

-- Containment and membership are two views of one relation: the `contains` edges are the `member_of`
-- edges in the same order with their ends exchanged.
pub build_symbol_relations-mirror :
    (symbols : List Symbol) (project_id : Text) (ingest_id : Option Text)
    (trait_impls : Text → Option (List Text))
    → let r = build_symbol_relations symbols project_id ingest_id trait_impls in
      r.contains ≡ map mirror r.member_of
unfolding build_symbol_relations
build_symbol_relations-mirror symbols project_id ingest_id trait_impls =
    relate_all-IsMirrored (lookup_in symbols project_id ingest_id trait_impls) symbols no_relations
      refl
