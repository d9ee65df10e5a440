-- ===== src/Control/Search.antt =====
-- Symbol search and document sources of crates/lib/docx-core/src/control/data.rs:
-- `SearchSymbolsAdvancedRequest`, the guard of `search_symbols_advanced`, and `merge_doc_sources`.
use docx_mcp.Base.{
  ℕ, ◌+◌, Bool, true, false, ◌||◌, not, Option, none, some, List, [], ◌++◌, ◌≡◌, refl, ap, ◌∙◌,
  arith, if◌then◌else◌, nat_eq, list_eq, is_empty, is_none, unwrap_or, map, map-append, ltb, length,
  subst, fun_ext, Option-cases, inl, inr,
}
use docx_mcp.Text.{Text, codes, trim}
use docx_mcp.Collections.HashSet.{contains, Distinct, contains-append}
use docx_mcp.Collections.KeepFirst.{keep_first, keep_first-Distinct, contains-keep_first}
use docx_mcp.Collections.Sort.{
  sort_by, IsSorted, sort_by-IsSorted, contains-sort_by, sort_by-Distinct,
}
use docx_mcp.Models.{DocSource, Symbol}

unfoldable pub normalize_optional : Option Text → Option Text
normalize_optional none = none
normalize_optional (some inner) = if is_empty (trim inner) then none else some (trim inner)

pub record SearchSymbolsAdvancedRequest : Type 0 where
  pub name : Option Text
  pub qualified_name : Option Text
  pub symbol_key : Option Text
  pub signature : Option Text

unfoldable pub normalized : SearchSymbolsAdvancedRequest → SearchSymbolsAdvancedRequest
normalized r = record {
  name = normalize_optional r.name;
  qualified_name = normalize_optional r.qualified_name;
  symbol_key = normalize_optional r.symbol_key;
  signature = normalize_optional r.signature;
}

abbrev pub one_if_some : Option Text → ℕ
one_if_some none = 0
one_if_some (some value) = 1

unfoldable pub active_filter_count : SearchSymbolsAdvancedRequest → ℕ
active_filter_count r =
    one_if_some r.name
    + one_if_some r.qualified_name
    + one_if_some r.symbol_key
    + one_if_some r.signature

abbrev pub advanced_search_min_filters : ℕ
advanced_search_min_filters = 1

pub record SearchSymbolsAdvancedResult : Type 0 where
  pub symbols : List Symbol
  pub total_returned : ℕ
  pub applied_filters : SearchSymbolsAdvancedRequest

-- `query` is the store's search; none is the `InvalidInput` error.
unfoldable pub search_symbols_advanced :
    (SearchSymbolsAdvancedRequest → List Symbol)
    → SearchSymbolsAdvancedRequest
    → Option SearchSymbolsAdvancedResult
unfolding normalized active_filter_count
search_symbols_advanced query request =
    if ltb (active_filter_count (normalized request)) advanced_search_min_filters
    then none
    else some (record {
      symbols = query (normalized request);
      total_returned = length (query (normalized request));
      applied_filters = normalized request;
    })

-- A filter is given when it has a character that is not blank.
unfoldable pub is_given : Option Text → Bool
is_given none = false
is_given (some value) = not (is_empty (trim value))

one_if_some-normalize_optional :
    (value : Option Text)
    → one_if_some (normalize_optional value) ≡ (if is_given value then 1 else 0)
unfolding normalize_optional is_given
one_if_some-normalize_optional none = refl
one_if_some-normalize_optional (some value) = ground arith

guarded : {A : Type 0} (b : Bool) {x r : A} → (if b then none else some x) ≡ some r → x ≡ r
guarded true e = ground (arith, e)
guarded false e = ground (arith, e)

-- An advanced search is refused exactly when none of its four filters has a character that is not blank;
-- otherwise the count that it reports is the number of the symbols it returns, and these are what the
-- store finds for the normalized filters.
pub search_symbols_advanced_lem :
    (query : SearchSymbolsAdvancedRequest → List Symbol) (request : SearchSymbolsAdvancedRequest)
    → (is_none (search_symbols_advanced query request)
        ≡ not (
            is_given request.name
            || (is_given request.qualified_name
                || (is_given request.symbol_key || is_given request.signature))))
      × ((r : SearchSymbolsAdvancedResult)
          → search_symbols_advanced query request ≡ some r
          → (r.total_returned ≡ length r.symbols) × (r.symbols ≡ query r.applied_filters))
unfolding search_symbols_advanced active_filter_count normalized
search_symbols_advanced_lem query request = (
  ground (
    arith,
    one_if_some-normalize_optional request.name,
    one_if_some-normalize_optional request.qualified_name,
    one_if_some-normalize_optional request.symbol_key,
    one_if_some-normalize_optional request.signature,
  ),
  λ r e.
      subst (λ a. (a.total_returned ≡ length a.symbols) × (a.symbols ≡ query a.applied_filters))
        (guarded (ltb (active_filter_count (normalized request)) 1) e) (refl, refl),
)

pub record DocSourceHydrationSummary : Type 0 where
  pub from_doc_blocks : ℕ
  pub from_observed_in : ℕ
  pub deduped_total : ℕ

-- The key of the set.
abbrev pub source_key : DocSource → Text
source_key source = unwrap_or source.id (codes "missing:" ++ source.project_id)

-- The key of the order.
abbrev pub sort_key : DocSource → Text
sort_key source = unwrap_or source.id []

unfoldable pub merge_doc_sources :
    List DocSource
    → List DocSource
    → DocSourceHydrationSummary
    → List DocSource × DocSourceHydrationSummary
merge_doc_sources from_doc_blocks from_observed_in summary =
    let all = sort_by sort_key (keep_first source_key [] (from_doc_blocks ++ from_observed_in)) in
    (all, record summary { deduped_total = length all })

-- What tells a document source apart: its id, or its project where it has none.
abbrev pub doc_key : DocSource → Text
doc_key source = elim source.id [ some id ↦ id | none ↦ codes "missing:" ++ source.project_id ]

source_key-doc_key : source_key ≡ doc_key
source_key-doc_key =
    fun_ext
      (λ source. elim (Option-cases source.id) [ inl e ↦ rw e refl | inr (id, e) ↦ rw e refl ])

merged_by_source_key :
    (blocks observed : List DocSource) (summary : DocSourceHydrationSummary)
    → Distinct (map source_key (merge_doc_sources blocks observed summary).0)
      × ((k : Text)
          → contains k (map source_key (merge_doc_sources blocks observed summary).0)
            ≡ (contains k (map source_key blocks) || contains k (map source_key observed)))
unfolding merge_doc_sources
merged_by_source_key blocks observed summary = (
  sort_by-Distinct sort_key source_key _ (keep_first-Distinct source_key [] (blocks ++ observed)),
  λ k.
      contains-sort_by sort_key source_key k _
      ∙ contains-keep_first source_key k [] (blocks ++ observed) (unfold contains in refl)
      ∙ ap (contains k) (map-append source_key blocks observed)
      ∙ contains-append k (map source_key blocks) (map source_key observed),
)

-- Merged document sources are sorted by id and have distinct keys, which are their ids, or name the
-- project of one without an id; a key is among them exactly when it is
-- among the sources of the doc blocks or the observed ones; the summary counts them, and is otherwise
-- the one given.
pub merge_doc_sources_lem :
    (blocks observed : List DocSource) (summary : DocSourceHydrationSummary)
    → IsSorted sort_key (merge_doc_sources blocks observed summary).0
      × Distinct (map doc_key (merge_doc_sources blocks observed summary).0)
      × ((k : Text)
          → contains k (map doc_key (merge_doc_sources blocks observed summary).0)
            ≡ (contains k (map doc_key blocks) || contains k (map doc_key observed)))
      × ((merge_doc_sources blocks observed summary).1
          ≡ record summary { deduped_total = length (merge_doc_sources blocks observed summary).0 })
unfolding merge_doc_sources
merge_doc_sources_lem blocks observed summary =
    let (distinct, union) =
      subst
        (λ key.
          Distinct (map key (merge_doc_sources blocks observed summary).0)
          × ((k : Text)
              → contains k (map key (merge_doc_sources blocks observed summary).0)
                ≡ (contains k (map key blocks) || contains k (map key observed))))
        source_key-doc_key (merged_by_source_key blocks observed summary) in
    (sort_by-IsSorted sort_key _, distinct, union, refl)
