-- ===== src/Ingest/SymbolEdges.antt =====
-- `build_symbol_relations`: membership, containment, type references and trait implementations. A
-- lookup in the map of trait implementations is the function `trait_impls`.
pub mod Mirror
pub mod Endpoints
use docx_mcp.Base.{
  ℕ, Bool, ◌&&◌, Option, none, some, List, [], ◌∷◌, ◌++◌, nat_eq, list_eq, filter_map, is_empty,
  unwrap_or, ◌>>=◌,
}
use docx_mcp.Text.{Text, codes, rsplit_once}
use docx_mcp.Models.{Symbol, Param, TypeRef, type_symbol_key, RelationRecord}
use docx_mcp.Schema.{make_symbol_key}
use docx_mcp.Collections.HashMap
use docx_mcp.Ingest.Edges.{relation, symbol_record, symbol_by_key, add_id}

pub record SymbolRelations : Type 0 where
  pub member_of : List RelationRecord
  pub contains : List RelationRecord
  pub returns : List RelationRecord
  pub param_types : List RelationRecord
  pub implements : List RelationRecord

abbrev pub no_relations : SymbolRelations
no_relations = record {
  member_of = [];
  contains = [];
  returns = [];
  param_types = [];
  implements = [];
}

-- `SymbolRelations::is_empty`
abbrev pub relations_is_empty : SymbolRelations → Bool
relations_is_empty r =
    is_empty r.member_of
    && is_empty r.contains
    && is_empty r.returns
    && is_empty r.param_types
    && is_empty r.implements

-- The ids of the symbols that have a qualified name, by that name.
unfoldable pub add_qualified : Option Text → Option Text → List (Text × Text) → List (Text × Text)
unfolding add_id
add_qualified none id m = m
add_qualified (some qualified_name) id m = add_id qualified_name id m

unfoldable pub qualified_from : List (Text × Text) → List Symbol → List (Text × Text)
unfolding add_qualified
qualified_from m [] = m
qualified_from m (s ∷ ss) = qualified_from (add_qualified s.qualified_name s.id m) ss

unfoldable pub symbol_by_qualified : List Symbol → List (Text × Text)
unfolding qualified_from
symbol_by_qualified symbols = qualified_from [] symbols

-- The maps and the arguments that every edge is built from.
pub record Lookup : Type 0 where
  pub by_qualified : List (Text × Text)
  pub by_key : List (Text × Text)
  pub project_id : Text
  pub ingest_id : Option Text
  pub trait_impls : Text → Option (List Text)

-- The id of the symbol that encloses a qualified name.
unfoldable pub parent_of : Lookup → Symbol → Option Text
parent_of l s = do
  qualified ← s.qualified_name
  pair ← rsplit_once qualified (codes "::")
  HashMap.get pair.0 l.by_qualified

unfoldable pub type_target : Lookup → Option TypeRef → Option Text
type_target l t = do ty ← t; key ← type_symbol_key ty; HashMap.get key l.by_key

unfoldable pub param_edge : Lookup → Text → Param → Option RelationRecord
unfolding type_target
param_edge l symbol_id param = do
  target ← type_target l param.type_ref
  some (
      relation (symbol_record symbol_id) (symbol_record target) l.project_id l.ingest_id
        (some param.name))

unfoldable pub trait_edge : Lookup → Text → Text → Option RelationRecord
trait_edge l symbol_id trait_path = do
  trait_id ← HashMap.get (make_symbol_key (codes "rust") l.project_id trait_path) l.by_key
  some (
      relation (symbol_record symbol_id) (symbol_record trait_id) l.project_id l.ingest_id
        (some (codes "trait_impl")))

-- The trait paths that are known for a symbol.
unfoldable pub trait_paths : Lookup → Option Text → List Text
trait_paths l none = []
trait_paths l (some qualified_name) = unwrap_or (l.trait_impls qualified_name) []

-- `push` where the option holds a value.
abbrev pub push_edge : List RelationRecord → Option RelationRecord → List RelationRecord
push_edge rs none = rs
push_edge rs (some r) = rs ++ r ∷ []

abbrev pub edge_between : Lookup → Option Text → Option Text → Option RelationRecord
edge_between l (some in_id) (some out_id) =
    some (relation (symbol_record in_id) (symbol_record out_id) l.project_id l.ingest_id none)
edge_between l none out_id = none
edge_between l (some in_id) none = none

-- What the loop pushes for one symbol with an id.
unfoldable pub add_edges : Lookup → Text → Symbol → SymbolRelations → SymbolRelations
unfolding parent_of type_target param_edge trait_edge trait_paths
add_edges l symbol_id s r =
    let parent = parent_of l s in
    record {
      member_of = push_edge r.member_of (edge_between l (some symbol_id) parent);
      contains = push_edge r.contains (edge_between l parent (some symbol_id));
      returns = push_edge r.returns (edge_between l (some symbol_id) (type_target l s.return_type));
      param_types = r.param_types ++ filter_map (param_edge l symbol_id) s.params;
      implements =
          r.implements ++ filter_map (trait_edge l symbol_id) (trait_paths l s.qualified_name);
    }

unfoldable pub relate : Lookup → Option Text → Symbol → SymbolRelations → SymbolRelations
unfolding add_edges
relate l none s r = r
relate l (some symbol_id) s r = add_edges l symbol_id s r

unfoldable pub relate_all : Lookup → List Symbol → SymbolRelations → SymbolRelations
unfolding relate
relate_all l [] r = r
relate_all l (s ∷ ss) r = relate_all l ss (relate l s.id s r)

abbrev pub lookup_in : List Symbol → Text → Option Text → (Text → Option (List Text)) → Lookup
lookup_in symbols project_id ingest_id trait_impls = record {
  by_qualified = symbol_by_qualified symbols;
  by_key = symbol_by_key symbols;
  project_id = project_id;
  ingest_id = ingest_id;
  trait_impls = trait_impls;
}

unfoldable pub build_symbol_relations :
    List Symbol → Text → Option Text → (Text → Option (List Text)) → SymbolRelations
unfolding relate_all symbol_by_qualified symbol_by_key
build_symbol_relations symbols project_id ingest_id trait_impls =
    relate_all (lookup_in symbols project_id ingest_id trait_impls) symbols no_relations
