-- ===== src/Rustdoc/Visit/Consistent.antt =====
-- What the symbols and the doc blocks of a visit have in common.
use docx_mcp.Base.{
  ℕ, true, ◌||◌, list_eq, nat_eq, ◌==◌, eq_refl, Option, none, some, List, [], ◌∷◌, ◌++◌, ◌≡◌, refl,
  ap, sym, ◌∙◌, subst, length, unwrap_or, arith, map, map-append, All, All-append,
}
use docx_mcp.Text.{Text, codes, starts_with, to_decimal}
use docx_mcp.Models.{Value, Symbol, DocBlock}
use docx_mcp.Schema.{make_symbol_key}
use docx_mcp.Collections.HashSet.{contains, Distinct, Distinct-snoc, contains-append}
use docx_mcp.Collections.HashMap
use docx_mcp.Rustdoc.Crate.{RustdocItem, RustdocParseOptions, RustdocCrate, RustdocParseOutput}
use docx_mcp.Rustdoc.Items.{build_symbol, build_doc_block}
use docx_mcp.Rustdoc.Keys.{IsFresh}
use docx_mcp.Rustdoc.Markdown.{ParsedDocs}
use docx_mcp.Rustdoc.State.{
  Parser, ParserState, Run, visited, exhausted, no_fuel, symbol_for, push_symbol, add_symbol,
  doc_blocks_for, docs_of, parsed_docs_of,
}
use docx_mcp.Rustdoc.Visit.{
  mark, note_trait, visit_module, parse, Parsed, parsed, missing_root, output_of, visit_crate,
  parser_for, root_path, start_state,
}
use docx_mcp.Rustdoc.Visit.Added.{IsSpent, Added-add_symbol, note_trait_cases}
use docx_mcp.Rustdoc.Visit.Ends.{Ends, Added, Ends-visit_module}

abbrev pub symbol_keys : List Symbol → List Text
symbol_keys = map (λ y. y.symbol_key)

-- The symbol is of the project and language of the options, and its key extends that of its qualified name.
abbrev pub IsOwn : RustdocParseOptions → Symbol → Type 0
IsOwn options y =
    (y.project_id ≡ options.project_id)
    × (y.language ≡ some options.language)
    × (starts_with y.symbol_key
          (make_symbol_key (codes "rust") options.project_id (unwrap_or y.qualified_name []))
        ≡ true)

-- The doc block names the key of a symbol.
abbrev pub IsAttached : List Symbol → DocBlock → Type 0
IsAttached symbols b =
    (key : Text) × (b.symbol_key ≡ some key) × (contains key (symbol_keys symbols) ≡ true)

pub record Consistent (options : RustdocParseOptions) (symbols : List Symbol)
    (doc_blocks : List DocBlock) : Type 0 where
  pub distinct : Distinct (symbol_keys symbols)
  pub own : All (IsOwn options) symbols
  pub attached : All (IsAttached symbols) doc_blocks

-- The invariant: besides, the keys in use are those of the symbols.
pub record Invariant (options : RustdocParseOptions) (s : ParserState) : Type 0 where
  pub consistent : Consistent options s.symbols s.doc_blocks
  pub used : (key : Text) → contains key s.used_symbol_keys ≡ contains key (symbol_keys s.symbols)

symbol_key_of :
    (p : Parser) (item : RustdocItem) (kind name key : Text) (paths : List (ℕ × Text))
    → (symbol_for p item kind name key paths).symbol_key ≡ key
unfolding symbol_for build_symbol
symbol_key_of p item kind name key paths = refl

symbol_for-IsOwn :
    (p : Parser) (item : RustdocItem) (kind name key : Text) (paths : List (ℕ × Text))
    → starts_with key (make_symbol_key (codes "rust") p.options.project_id name) ≡ true
    → IsOwn p.options (symbol_for p item kind name key paths)
unfolding symbol_for build_symbol
symbol_for-IsOwn p item kind [] key paths h = (refl, refl, h)
symbol_for-IsOwn p item kind (c ∷ name) key paths h = (refl, refl, h)

-- The keys after one more symbol with the key.
keys-snoc :
    (p : Parser) (item : RustdocItem) (kind name key : Text) (paths : List (ℕ × Text))
    (symbols : List Symbol)
    → symbol_keys (symbols ++ symbol_for p item kind name key paths ∷ [])
      ≡ symbol_keys symbols ++ key ∷ []
keys-snoc p item kind name key paths symbols =
    map-append (λ y. y.symbol_key) symbols (symbol_for p item kind name key paths ∷ [])
    ∙ ap (λ k. symbol_keys symbols ++ k ∷ []) (symbol_key_of p item kind name key paths)

IsAttached-more :
    (symbols more : List Symbol) (bs : List DocBlock)
    → All (IsAttached symbols) bs
    → All (IsAttached (symbols ++ more)) bs
IsAttached-more symbols more [] h = tt
IsAttached-more symbols more (b ∷ bs) ((key, e, c), h) = (
  (
    key,
    e,
    ground (
      arith,
      map-append (λ (y : Symbol). y.symbol_key) symbols more,
      contains-append key (symbol_keys symbols) (symbol_keys more),
    ),
  ),
  IsAttached-more symbols more bs h,
)

doc_blocks_for-IsAttached :
    (p : Parser) (item : RustdocItem) (key : Text) (symbols : List Symbol)
    → contains key (symbol_keys symbols) ≡ true
    → All (IsAttached symbols) (doc_blocks_for p item key)
unfolding build_doc_block
doc_blocks_for-IsAttached p item key symbols h = docs (parsed_docs_of item)
  where
    docs :
        (o : Option ParsedDocs)
        → All (IsAttached symbols) (elim o [
          | none ↦ []
          | some parsed_docs ↦ build_doc_block p.options key parsed_docs (docs_of item) ∷ []
        ])
    docs none = tt
    docs (some parsed_docs) = ((key, refl, h), tt)

contains-snoc :
    (k key : Text) (keys : List Text)
    → contains k (keys ++ key ∷ []) ≡ (k == key || contains k keys)
unfolding contains
contains-snoc k key keys = ground (arith, contains-append k keys (key ∷ []))

contains-cons :
    (k key : Text) (keys : List Text) → contains k (key ∷ keys) ≡ (k == key || contains k keys)
unfolding contains
contains-cons k key keys = refl

push-Invariant :
    (p : Parser) (item : RustdocItem) (kind name key : Text) (s : ParserState)
    → Invariant p.options s
    → IsFresh s.used_symbol_keys (make_symbol_key (codes "rust") p.options.project_id name) key
    → Invariant p.options (push_symbol p item kind name key (key ∷ s.used_symbol_keys) s)
unfolding push_symbol
push-Invariant p item kind name key s i (fresh, extends) = record {
  consistent = record {
    distinct = rw keys (
        Distinct-snoc (symbol_keys s.symbols) key i.consistent.distinct (sym (i.used key) ∙ fresh));
    own =
        All-append (IsOwn p.options) s.symbols (y ∷ []) i.consistent.own
          (symbol_for-IsOwn p item kind name key paths extends, tt);
    attached =
        All-append (IsAttached (s.symbols ++ y ∷ [])) s.doc_blocks (doc_blocks_for p item key)
          (IsAttached-more s.symbols (y ∷ []) s.doc_blocks i.consistent.attached)
          (doc_blocks_for-IsAttached p item key (s.symbols ++ y ∷ [])
            (ground (arith, keys, contains-snoc key key (symbol_keys s.symbols), eq_refl key)));
  };
  used = λ k. more_used k;
}
  where
    paths : List (ℕ × Text)
    paths = HashMap.insert item.id name s.id_to_path

    y : Symbol
    y = symbol_for p item kind name key paths

    keys : symbol_keys (s.symbols ++ y ∷ []) ≡ symbol_keys s.symbols ++ key ∷ []
    keys = keys-snoc p item kind name key paths s.symbols

    more_used :
        (k : Text)
        → contains k (key ∷ s.used_symbol_keys) ≡ contains k (symbol_keys (s.symbols ++ y ∷ []))
    more_used k =
        contains-cons k key s.used_symbol_keys
        ∙ ap (λ b. k == key || b) (i.used k)
        ∙ sym (ap (contains k) keys ∙ contains-snoc k key (symbol_keys s.symbols))

module _ (p : Parser) where
  on_add :
      (item : RustdocItem) (path : List Text) (owner : Option Text) (kind : Text) (s : ParserState)
      → Invariant p.options s
      → Added (Invariant p.options) IsSpent s (add_symbol p item path owner kind s)
  on_add item path owner kind s i =
      Added-add_symbol (Invariant p.options) p item path owner kind s
        (λ name key fresh. push-Invariant p item kind name key s i fresh)

  on_trait :
      (owner : Text) (impl_inner : Value) (s : ParserState)
      → Invariant p.options s
      → Invariant p.options (note_trait owner impl_inner s)
  on_trait owner impl_inner s i =
      note_trait_cases (Invariant p.options) owner impl_inner s i
        (λ impls. record { consistent = i.consistent; used = i.used })

  on_mark : (id : ℕ) (s : ParserState) → Invariant p.options s → Invariant p.options (mark id s)
  on_mark id s i = record { consistent = i.consistent; used = i.used }

  visit_module-Invariant :
      (fuel id : ℕ) (path : List Text) (s : ParserState)
      → Invariant p.options s
      → Ends (Invariant p.options) IsSpent Unit (visit_module p fuel id path s)
  visit_module-Invariant =
      Ends-visit_module (Invariant p.options) IsSpent Unit p on_add on_trait on_mark tt

start-Invariant :
    (options : RustdocParseOptions) (crate_doc : RustdocCrate) (root_item : RustdocItem)
    → Invariant options (start_state crate_doc root_item)
unfolding contains
start-Invariant options crate_doc root_item = record {
  consistent = record { distinct = tt; own = tt; attached = tt };
  used = λ key. refl;
}

abbrev OutputConsistent : RustdocParseOptions → Parsed → Type 0
OutputConsistent options (parsed output) = Consistent options output.symbols output.doc_blocks
OutputConsistent options _ = Unit

-- The symbols of a parsed crate have different keys; each is of the options' project and language, and
-- its key extends the plain key of its qualified name; each doc block is attached to one of
-- them.
pub parse-Consistent :
    (print_json : Value → Text) (options : RustdocParseOptions) (crate_doc : RustdocCrate)
    (output : RustdocParseOutput)
    → parse print_json options crate_doc ≡ parsed output
    → Consistent options output.symbols output.doc_blocks
unfolding parse
parse-Consistent print_json options crate_doc output =
    from_root (HashMap.get (to_decimal crate_doc.root) crate_doc.index)
  where
    ending :
        (root_item : RustdocItem) (r : Run)
        → Ends (Invariant options) IsSpent Unit r
        → output_of crate_doc root_item r ≡ parsed output
        → Consistent options output.symbols output.doc_blocks
    ending root_item (visited s) i e = subst (OutputConsistent options) e i.consistent
    ending root_item (exhausted s) i e = absurd (cc)
    ending root_item no_fuel i e = absurd (cc)

    from_root :
        (o : Option RustdocItem)
        → (elim o [
          | none ↦ missing_root
          | some root_item ↦
              output_of crate_doc root_item (visit_crate print_json options crate_doc root_item)
        ])
          ≡ parsed output
        → Consistent options output.symbols output.doc_blocks
    from_root none e = absurd (cc)
    from_root (some root_item) e =
        ending root_item _
          (visit_module-Invariant (parser_for print_json options crate_doc root_item)
            (length crate_doc.index) crate_doc.root (root_path root_item.name)
            (start_state crate_doc root_item) (start-Invariant options crate_doc root_item))
          e
