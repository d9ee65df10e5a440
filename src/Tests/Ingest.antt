-- ===== src/Tests/Ingest.antt =====
-- The edges of a module and a function in it, and unique symbol keys.
use docx_mcp.Base.{none, some, [], ◌∷◌, ◌≡◌, refl, inl, map, In, ◌⊎◌, ◌↔◌, nat_eq, list_eq, arith}
use docx_mcp.Text.{Text, codes, contains_char}
use docx_mcp.Models.{Symbol, RelationRecord}
use docx_mcp.Schema.{make_symbol_key, make_record_id, table_doc_block, table_doc_source}
use docx_mcp.Schema.Keys.{make_symbol_key-injective}
use docx_mcp.Rustdoc.Keys.{make_unique_symbol_key, make_unique_symbol_key-IsFresh, IsFresh}
use docx_mcp.Collections.HashSet.{contains}
use docx_mcp.Collections.HashMap
use docx_mcp.Ingest.Dedupe.{dedupe_symbols, dedupe_symbols_lem}
use docx_mcp.Ingest.Edges.{
  symbol_by_key, build_documents_edges, build_documents_edges_lem, build_observed_in_edges,
  build_observed_in_edges_lem, Documents, Stored, relation, symbol_record, add_keys, add_key,
  add_id,
}
use docx_mcp.Ingest.SymbolEdges.{build_symbol_relations, lookup_in}
use docx_mcp.Ingest.SymbolEdges.Endpoints.{AllJoin, build_symbol_relations-AllJoin}
use docx_mcp.Ingest.SymbolEdges.Mirror.{mirror, build_symbol_relations-mirror}
use docx_mcp.Ingest.BlockEdges.{resolve_symbol_reference, language_key, build_doc_block_relations}
use docx_mcp.Ingest.BlockEdges.References.{
  AllLead, resolve_symbol_reference_sound, resolve_symbol_reference_complete,
  build_doc_block_relations-AllLead,
}
use docx_mcp.Tests.Fixtures.{outer, inner, crate_symbols, block, link_to_m}

dedupe_symbols_lem_example :
    dedupe_symbols (dedupe_symbols (outer ∷ inner ∷ outer ∷ []))
    ≡ dedupe_symbols (outer ∷ inner ∷ outer ∷ [])
dedupe_symbols_lem_example = (dedupe_symbols_lem (outer ∷ inner ∷ outer ∷ [])).3

build_symbol_relations-AllJoin_example :
    AllJoin crate_symbols
      (lookup_in crate_symbols (codes "p") none (λ key. none))
      (build_symbol_relations crate_symbols (codes "p") none (λ key. none))
build_symbol_relations-AllJoin_example =
    build_symbol_relations-AllJoin crate_symbols (codes "p") none (λ key. none)

build_symbol_relations-mirror_example :
    (build_symbol_relations crate_symbols (codes "p") none (λ key. none)).contains
    ≡ map mirror (build_symbol_relations crate_symbols (codes "p") none (λ key. none)).member_of
build_symbol_relations-mirror_example =
    build_symbol_relations-mirror crate_symbols (codes "p") none (λ key. none)

resolve_symbol_reference_sound_example :
    (s : Symbol) × In s crate_symbols
    × (s.id ≡ some (codes "rust|p|m"))
    × ((s.symbol_key ≡ codes "m")
        ⊎ (language_key (some (codes "rust")) (codes "p") (codes "m") ≡ some s.symbol_key))
unfolding resolve_symbol_reference symbol_by_key add_keys add_key add_id HashMap.get HashMap.insert
    make_symbol_key
resolve_symbol_reference_sound_example =
    resolve_symbol_reference_sound crate_symbols (codes "m") (some (codes "rust")) (codes "p")
      (codes "rust|p|m") refl

resolve_symbol_reference_complete_example :
    resolve_symbol_reference
      (codes "m")
      (some (codes "rust"))
      (codes "p")
      (symbol_by_key crate_symbols)
    ≡ some (codes "rust|p|m")
unfolding symbol_by_key add_keys add_key add_id HashMap.get HashMap.insert make_symbol_key contains
resolve_symbol_reference_complete_example =
    resolve_symbol_reference_complete crate_symbols outer (codes "m") (codes "rust|p|m") (codes "p")
      (some (codes "rust")) (refl, (refl, tt)) (inl refl) refl refl refl

build_doc_block_relations-AllLead_example : AllLead crate_symbols (codes "p") none (
    build_doc_block_relations crate_symbols
      (block (codes "rust|p|m::f") (link_to_m ∷ []) ∷ [])
      (codes "p")
      none)
build_doc_block_relations-AllLead_example =
    build_doc_block_relations-AllLead crate_symbols (codes "p") none
      (block (codes "rust|p|m::f") (link_to_m ∷ []) ∷ [])

make_symbol_key-injective_example : codes "p" ≡ codes "p"
unfolding contains_char
make_symbol_key-injective_example =
    (make_symbol_key-injective (codes "rust") (codes "rust") (codes "p") (codes "p") (codes "m")
      (codes "m") refl refl refl refl refl).1

make_unique_symbol_key-IsFresh_example :
    (key : Text) × (make_unique_symbol_key (codes "rust|p|m" ∷ []) (codes "p") (codes "m") 3
      ≡ some (key, key ∷ codes "rust|p|m" ∷ []))
    × IsFresh (codes "rust|p|m" ∷ []) (make_symbol_key (codes "rust") (codes "p") (codes "m")) key
make_unique_symbol_key-IsFresh_example =
    make_unique_symbol_key-IsFresh (codes "rust|p|m" ∷ []) (codes "p") (codes "m") 3 (omega arith)

abbrev documents_m : RelationRecord
documents_m =
    relation (make_record_id table_doc_block (codes "b")) (symbol_record (codes "rust|p|m"))
      (codes "p") none none

build_documents_edges_lem_example :
    In documents_m
      (build_documents_edges crate_symbols (block (codes "rust|p|m") [] ∷ []) (codes "p") none)
    ↔ Documents crate_symbols (block (codes "rust|p|m") [] ∷ []) (codes "p") none documents_m
unfolding contains
build_documents_edges_lem_example =
    build_documents_edges_lem crate_symbols (block (codes "rust|p|m") [] ∷ []) (codes "p") none
      documents_m (refl, (refl, tt))

build_observed_in_edges_lem_example :
    In documents_m (build_observed_in_edges crate_symbols (codes "p") none (codes "src")) ↔ (
      (id : Text) × Stored crate_symbols id
      × (documents_m
          ≡ relation
              (symbol_record id)
              (make_record_id table_doc_source (codes "src"))
              (codes "p")
              none
              (some (codes "doc_source"))))
build_observed_in_edges_lem_example =
    build_observed_in_edges_lem crate_symbols [] (codes "p") none (codes "src") documents_m
