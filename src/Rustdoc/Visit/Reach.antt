-- ===== src/Rustdoc/Visit/Reach.antt =====
-- The items of a crate that the parser returns a symbol for.
use docx_mcp.Base.{
  ℕ, true, false, [], ◌∷◌, nat_eq, list_eq, eq_refl, some, ◌≡◌, refl, subst, In, length,
}
use docx_mcp.Text.{Text, codes, to_decimal}
use docx_mcp.Models.{Value, Symbol}
use docx_mcp.Collections.HashSet.{contains}
use docx_mcp.Collections.HashMap.{get}
use docx_mcp.Rustdoc.Crate.{RustdocItem, RustdocCrate, RustdocParseOptions, RustdocParseOutput}
use docx_mcp.Rustdoc.Items.{is_inner_kind, module_items}
use docx_mcp.Rustdoc.State.{
  Parser, ParserState, Run, visited, exhausted, no_fuel, get_item, local_item,
}
use docx_mcp.Rustdoc.Visit.{
  parse, parsed, output_of, visit_crate, parser_for, root_path, start_state,
}
use docx_mcp.Rustdoc.Visit.Added.{IsSpent}
use docx_mcp.Rustdoc.Visit.Ends.{Ends}
use docx_mcp.Rustdoc.Visit.Cover.{gets_symbol, local, Post, visit_module-Post}

-- The items below a root: the root, and the items of the root crate in a module that is below it.
pub data IsBelow (p : Parser) (root : ℕ) : ℕ → Type 0 where
  at_root : IsBelow p root root
  in_module :
      (parent id : ℕ) (item : RustdocItem)
      → IsBelow p root parent
      → local_item p parent ≡ some item
      → is_inner_kind item (codes "module") ≡ true
      → In id (module_items item)
      → local p id ≡ true
      → IsBelow p root id

below_seen :
    (p : Parser) (root id : ℕ) (s t : ParserState)
    → ((j : ℕ) → contains j s.seen ≡ false)
    → local p root ≡ true
    → Post p root s t
    → IsBelow p root id
    → contains id t.seen ≡ true
below_seen p root id s t none_seen l (st, h) at_root = h l
below_seen p root id s t none_seen l (st, h) (in_module parent j item b e m i here) =
    (st.1 parent item (below_seen p root parent s t none_seen l (st, h) b) (none_seen parent) e).1 m
      j i here

-- A symbol of the output that is made from the item.
abbrev pub IsListed : RustdocItem → RustdocParseOutput → Type 0
IsListed item output =
    (y : Symbol) × In y output.symbols
    × (y.source_ids ≡ record { kind = codes "rustdoc_id"; value = to_decimal item.id } ∷ [])

-- Every item below the root of a parsed crate, through modules of the root crate, that is a module or of
-- another kind that the visitor makes symbols for, has a symbol in the output, with the item's id as its source.
pub parse-IsListed :
    (print_json : Value → Text) (options : RustdocParseOptions) (crate_doc : RustdocCrate)
    (root_item item : RustdocItem) (id : ℕ) (output : RustdocParseOutput)
    → get (to_decimal crate_doc.root) crate_doc.index ≡ some root_item
    → parse print_json options crate_doc ≡ parsed output
    → IsBelow (parser_for print_json options crate_doc root_item) crate_doc.root id
    → local_item (parser_for print_json options crate_doc root_item) id ≡ some item
    → gets_symbol item ≡ true
    → IsListed item output
unfolding parse
parse-IsListed print_json options crate_doc root_item item id output found h below here own =
    ending (visit_crate print_json options crate_doc root_item)
      (visit_module-Post p (length crate_doc.index) crate_doc.root (root_path root_item.name)
        (start_state crate_doc root_item))
      (rw (found, parse) at h)
  where
    p : Parser
    p = parser_for print_json options crate_doc root_item

    root_local : local p crate_doc.root ≡ true
    root_local = unfold local_item get_item in rw (found, eq_refl root_item.crate_id) refl

    ending :
        (r : Run)
        → Ends (Post p crate_doc.root (start_state crate_doc root_item)) IsSpent Unit r
        → output_of crate_doc root_item r ≡ parsed output
        → IsListed item output
    ending (visited t) post e =
        subst (λ q. elim q [ parsed o ↦ IsListed item o | _ ↦ Unit ]) e
          ((post.0.1 id item
              (below_seen p crate_doc.root id (start_state crate_doc root_item) t
                (λ j. unfold contains in refl) root_local post below)
              (unfold contains in refl) here).0
            own)
    ending (exhausted s) post e = absurd (cc)
    ending no_fuel post e = absurd (cc)
