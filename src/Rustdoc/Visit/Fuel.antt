-- ===== src/Rustdoc/Visit/Fuel.antt =====
-- The fuel of the visit: each module that is entered is one item fewer to see.
use docx_mcp.Base.{
  ℕ, zero, suc, ◌+◌, ◌≤◌, ◌<◌, false, nat_eq, list_eq, eq_iff, Option, none, some, List, [], ◌∷◌,
  if◌then◌else◌, Bool-cases, inl, inr, ◌≡◌, refl, ◌∙◌, arith, length, map,
}
use docx_mcp.Text.{Text, to_decimal, to_decimal-injective}
use docx_mcp.Models.{Value}
use docx_mcp.Collections.HashSet
use docx_mcp.Collections.HashSet.{contains}
use docx_mcp.Collections.HashMap.{get}
use docx_mcp.Rustdoc.Crate.{RustdocItem, RustdocCrate, RustdocParseOptions}
use docx_mcp.Rustdoc.State.{
  Parser, ParserState, Run, visited, exhausted, no_fuel, get_item, local_item, push_symbol,
  add_symbol,
}
use docx_mcp.Rustdoc.Visit.{
  mark, Parsed, parsed, missing_root, unfinished, parse, parser_for, start_state, visit_crate,
  output_of, note_trait, visit_items, visit_module,
}
use docx_mcp.Rustdoc.Visit.Added.{IsSpent, Added-add_symbol, note_trait_cases}
use docx_mcp.Rustdoc.Visit.Ends.{Ends, Added, Ends-map, Ends-unseen_item, Ends-visit_items}

-- The entries of an index whose key is not among some keys.
abbrev unseen_in : List (Text × RustdocItem) → List Text → ℕ
unseen_in [] seen = 0
unseen_in ((k, item) ∷ index) seen = (if contains k seen then 0 else 1) + unseen_in index seen

abbrev pub unseen : Parser → ParserState → ℕ
unseen p s = unseen_in p.index (map to_decimal s.seen)

unseen_in-more :
    (index : List (Text × RustdocItem)) (k : Text) (seen : List Text)
    → unseen_in index (k ∷ seen) ≤ unseen_in index seen
unfolding contains
unseen_in-more [] k seen = omega arith
unseen_in-more ((j, item) ∷ index) k seen = ground (arith, unseen_in-more index k seen)

unseen_in-get :
    (index : List (Text × RustdocItem)) (k : Text) (seen : List Text) (item : RustdocItem)
    → get k index ≡ some item
    → contains k seen ≡ false
    → unseen_in index (k ∷ seen) < unseen_in index seen
unfolding contains get
unseen_in-get [] k seen item h new = absurd (cc)
unseen_in-get ((j, found) ∷ index) k seen item h new =
    ground
      (arith, unseen_in-get index k seen item, unseen_in-more index k seen, eq_iff k j, eq_iff j k)

contains-to_decimal :
    (id : ℕ) (ids : List ℕ) → contains (to_decimal id) (map to_decimal ids) ≡ contains id ids
unfolding contains
contains-to_decimal id [] = refl
contains-to_decimal id (j ∷ ids) = ground (
  arith,
  contains-to_decimal id ids,
  to_decimal-injective id j,
  eq_iff (to_decimal id) (to_decimal j),
  eq_iff id j,
)

local_item-get :
    (p : Parser) (id : ℕ) (item : RustdocItem)
    → local_item p id ≡ some item
    → get (to_decimal id) p.index ≡ some item
unfolding local_item get_item
local_item-get p id item h = ground arith

unseen-mark : (p : Parser) (id : ℕ) (s : ParserState) → unseen p (mark id s) ≤ unseen p s
unfolding HashSet.insert
unseen-mark p id s = elim (Bool-cases (contains id s.seen)) [
  | inl old ↦ rw old (omega arith)
  | inr new ↦ rw new (unseen_in-more p.index (to_decimal id) (map to_decimal s.seen))
]

unseen-mark_new :
    (p : Parser) (id : ℕ) (s : ParserState) (item : RustdocItem)
    → contains id s.seen ≡ false
    → local_item p id ≡ some item
    → unseen p (mark id s) < unseen p s
unfolding HashSet.insert
unseen-mark_new p id s item new h = rw new (
    unseen_in-get p.index (to_decimal id) (map to_decimal s.seen) item (local_item-get p id item h)
      (contains-to_decimal id s.seen ∙ new))

abbrev Within : Parser → ℕ → ParserState → Type 0
Within p n s = unseen p s ≤ n

module _ (p : Parser) where
  on_add :
      (n : ℕ) (item : RustdocItem) (path : List Text) (owner : Option Text) (kind : Text)
      (s : ParserState)
      → Within p n s
      → Added (Within p n) IsSpent s (add_symbol p item path owner kind s)
  on_add n item path owner kind s h =
      Added-add_symbol (Within p n) p item path owner kind s
        (λ name key fresh. unfold push_symbol in h)

  on_trait :
      (n : ℕ) (owner : Text) (impl_inner : Value) (s : ParserState)
      → Within p n s
      → Within p n (note_trait owner impl_inner s)
  on_trait n owner impl_inner s h = note_trait_cases (Within p n) owner impl_inner s h (λ impls. h)

  -- Fuel for each item that is unseen when the visit begins is enough.
  pub visit_module-Ends :
      (n fuel id : ℕ) (path : List Text) (s : ParserState)
      → Within p n s
      → n ≤ fuel
      → Ends (Within p n) IsSpent ⊥ (visit_module p fuel id path s)
  unfolding visit_module
  visit_module-Ends n zero id path s h le =
      Ends-unseen_item (Within p n) IsSpent ⊥ p id s (λ item t. no_fuel) (λ skip. h)
        (λ item new e. omega (arith, unseen-mark_new p id s item new e))
  visit_module-Ends zero (suc fuel) id path s h le =
      Ends-unseen_item (Within p zero) IsSpent ⊥ p id s (visit_items p (visit_module p fuel) path)
        (λ skip. h) (λ item new e. absurd (omega (arith, unseen-mark_new p id s item new e)))
  visit_module-Ends (suc n) (suc fuel) id path s h le =
      Ends-unseen_item (Within p (suc n)) IsSpent ⊥ p id s
        (visit_items p (visit_module p fuel) path) (λ skip. h)
        (λ item new e.
          Ends-map (Within p n) (Within p (suc n)) IsSpent IsSpent ⊥
            (visit_items p (visit_module p fuel) path item (mark id s)) (λ t le. omega arith)
            (λ t spent. spent)
            (Ends-visit_items (Within p n) IsSpent ⊥ p (on_add n) (on_trait n)
              (λ j t small. omega (arith, unseen-mark p j t)) (visit_module p fuel)
              (λ j path t small. visit_module-Ends n fuel j path t small (omega arith)) path item
              (mark id s) (omega (arith, unseen-mark_new p id s item new e))))

-- How the parser ends: with an output, without one where the root is not in the index, or where the
-- `u32` ordinals of the keys are spent.
abbrev pub Finishes : RustdocCrate → Parsed → Type 0
Finishes crate_doc (parsed output) = Unit
Finishes crate_doc missing_root = get (to_decimal crate_doc.root) crate_doc.index ≡ none
Finishes crate_doc (unfinished (exhausted s)) = IsSpent s
Finishes crate_doc (unfinished (visited s)) = ⊥
Finishes crate_doc (unfinished no_fuel) = ⊥

unseen_in-nil : (index : List (Text × RustdocItem)) → unseen_in index [] ≤ length index
unfolding contains
unseen_in-nil [] = omega arith
unseen_in-nil ((k, item) ∷ index) = ground (arith, unseen_in-nil index)

-- The visit of a crate ends, whatever cycles its items have: the parser returns an output,
-- unless the root is missing in the index, or the keys in use are so many that the ordinals
-- of `make_unique_symbol_key` may run out, 2^32 - 2 at least.
pub parse-Finishes :
    (print_json : Value → Text) (options : RustdocParseOptions) (crate_doc : RustdocCrate)
    → Finishes crate_doc (parse print_json options crate_doc)
unfolding parse
parse-Finishes print_json options crate_doc =
    from_root (get (to_decimal crate_doc.root) crate_doc.index) refl
  where
    ending :
        (root_item : RustdocItem) (r : Run)
        → Ends
            (Within (parser_for print_json options crate_doc root_item) (length crate_doc.index))
            IsSpent
            ⊥
            r
        → Finishes crate_doc (output_of crate_doc root_item r)
    ending root_item (visited s) h = tt
    ending root_item (exhausted s) h = h
    ending root_item no_fuel h = h

    from_root :
        (o : Option RustdocItem)
        → get (to_decimal crate_doc.root) crate_doc.index ≡ o
        → Finishes crate_doc (elim o [
          | none ↦ missing_root
          | some root_item ↦
              output_of crate_doc root_item (visit_crate print_json options crate_doc root_item)
        ])
    from_root none e = e
    from_root (some root_item) e = ending root_item _ (
        visit_module-Ends (parser_for print_json options crate_doc root_item)
          (length crate_doc.index) (length crate_doc.index) crate_doc.root _
          (start_state crate_doc root_item) (unseen_in-nil crate_doc.index) (omega arith))
