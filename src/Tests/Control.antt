-- ===== src/Tests/Control.antt =====
-- The control plane's pure functions at small inputs; lower-casing is that of ASCII.
use docx_mcp.Base.{
  Bool, true, false, Option, none, some, List, [], ◌∷◌, ◌++◌, ◌≡◌, refl, sym, ap, ◌∙◌, map, is_none,
  is_empty, nat_eq, list_eq, arith, if◌then◌else◌, ◌==◌, eq_sound,
}
use docx_mcp.Text.{Text, codes, trim, to_ascii_lowercase}
use docx_mcp.Models.{Symbol, DocSource}
use docx_mcp.Collections.HashSet.{Distinct}
use docx_mcp.Control.Projects.{
  ProjectUpsertRequest, new_project, merge_aliases, search_values, upsert_project,
}
use docx_mcp.Control.Projects.Aliases.{IsAdded, has_key, merge_aliases_lem}
use docx_mcp.Control.Projects.SearchText.{search_values_lem}
use docx_mcp.Control.Projects.Upsert.{upsert_project_lem}
use docx_mcp.Control.Search.{
  SearchSymbolsAdvancedRequest, merge_doc_sources, merge_doc_sources_lem, doc_key,
}
use docx_mcp.Control.Adjacency.{Adjacency, related_symbols, related_symbols_lem, IsFaithful}
use docx_mcp.Ingest.Edges.{relation}
use docx_mcp.Tests.Fixtures.{outer, inner, doc_source}

merge_aliases_lem_example :
    (added : List Text) × (merge_aliases to_ascii_lowercase
        (codes "Api" ∷ [])
        (codes " api " ∷ codes "Web" ∷ [])
      ≡ (codes "Api" ∷ []) ++ added)
    × IsAdded to_ascii_lowercase
        (has_key to_ascii_lowercase (codes "Api" ∷ []))
        (codes " api " ∷ codes "Web" ∷ [])
        added
merge_aliases_lem_example =
    merge_aliases_lem to_ascii_lowercase (codes "Api" ∷ []) (codes " api " ∷ codes "Web" ∷ [])

search_values_lem_example : Distinct (search_values to_ascii_lowercase (new_project (codes "P")))
search_values_lem_example = (search_values_lem to_ascii_lowercase (new_project (codes "P"))).0

abbrev upsert : ProjectUpsertRequest
upsert = record {
  project_id = codes "P";
  name = none;
  language = none;
  root_path = none;
  description = none;
  aliases = codes "Web" ∷ [];
}

upsert_project_lem_example :
    is_none (upsert_project to_ascii_lowercase (some (new_project (codes "P"))) upsert)
    ≡ is_empty (trim (codes "P"))
upsert_project_lem_example =
    (upsert_project_lem to_ascii_lowercase (some (new_project (codes "P"))) upsert
      (λ p e. ground (arith, e))).0

abbrev by_name : SearchSymbolsAdvancedRequest
by_name = record {
  name = some (codes " ");
  qualified_name = some (codes "m");
  symbol_key = none;
  signature = none;
}

abbrev from_blocks : List DocSource
from_blocks = doc_source (codes "p") (some (codes "b")) ∷ doc_source (codes "p") none ∷ []

abbrev from_observed : List DocSource
from_observed =
    doc_source (codes "p") (some (codes "b")) ∷ doc_source (codes "p") (some (codes "a")) ∷ []

merge_doc_sources_lem_example : Distinct (
    map doc_key
      (merge_doc_sources from_blocks from_observed
        (record { from_doc_blocks = 2; from_observed_in = 2; deduped_total = 0 })).0)
merge_doc_sources_lem_example =
    (merge_doc_sources_lem from_blocks from_observed
      (record { from_doc_blocks = 2; from_observed_in = 2; deduped_total = 0 })).1

-- A store that has the two symbols.
abbrev get_symbol : Text → Option Symbol
get_symbol k =
    if k == codes "rust|p|m"
    then some outer
    else if k == codes "rust|p|m::f"
    then some inner
    else none

abbrev key_or_empty : Option Symbol → Text
key_or_empty none = []
key_or_empty (some s) = s.symbol_key

found_key :
    (k : Text) (s : Symbol) (first second : Bool)
    → (first ≡ true → k ≡ codes "rust|p|m")
    → (second ≡ true → k ≡ codes "rust|p|m::f")
    → (if first then some outer else if second then some inner else none) ≡ some s
    → s.symbol_key ≡ k
found_key k s true second p q e = sym (ap (λ o. key_or_empty o) e) ∙ sym (p refl)
found_key k s false true p q e = sym (ap (λ o. key_or_empty o) e) ∙ sym (q refl)
found_key k s false false p q e = ground (arith, e)

get_symbol-IsFaithful : IsFaithful get_symbol
get_symbol-IsFaithful k s e =
    found_key k s (k == codes "rust|p|m") (k == codes "rust|p|m::f") (eq_sound k (codes "rust|p|m"))
      (eq_sound k (codes "rust|p|m::f")) e

abbrev adjacency : Adjacency
adjacency = record {
  member_of =
      relation (codes "symbol:rust|p|m::f") (codes "symbol:rust|p|m") (codes "p") none none ∷ [];
  contains = [];
  returns = [];
  param_types = [];
  see_also = [];
  inherits = [];
  references = [];
  observed_in =
      relation (codes "symbol:rust|p|m::f") (codes "doc_source:s") (codes "p") none none ∷ [];
}

related_symbols_lem_example :
    Distinct (map (λ s. s.symbol_key) (related_symbols get_symbol adjacency))
related_symbols_lem_example = (related_symbols_lem get_symbol adjacency get_symbol-IsFaithful).1
