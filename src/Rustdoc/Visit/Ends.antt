-- ===== src/Rustdoc/Visit/Ends.antt =====
-- Rules for how a visit ends, and what every visitor below `visit_module` keeps.
use docx_mcp.Base.{
  ℕ, zero, suc, Bool, true, false, nat_eq, Option, none, some, List, [], ◌∷◌, if◌then◌else◌,
  Bool-cases, inl, inr, ◌⊎◌, ◌≡◌, refl, ◌>>=◌,
}
use docx_mcp.Text.{Text}
use docx_mcp.Text.{codes}
use docx_mcp.Models.{Value, get_field}
use docx_mcp.Collections.HashSet
use docx_mcp.Rustdoc.Crate.{RustdocItem}
use docx_mcp.Rustdoc.Items.{ids_at, module_items, is_inner_kind}
use docx_mcp.Rustdoc.State.{
  Parser, ParserState, Run, visited, exhausted, no_fuel, and_then, each_id, local_item, add_symbol,
  with_symbol, symbol_only, add_member,
}
use docx_mcp.Rustdoc.Visit.{
  mark, visit_struct_fields, visit_enum_variants, visit_trait_items, note_trait, visit_impl,
  impl_ids, visit_impls, child_path, visit_kind, unseen_item, visit_item, visit_child, visit_items,
  visit_module, ItemKind, item_kind, struct_kind, enum_kind, trait_kind, function_kind,
  type_alias_kind, constant_kind, static_kind, union_kind, macro_kind, module_kind, other_kind,
}

-- Whether `visit_kind` adds a symbol for the item itself.
abbrev pub has_symbol : ItemKind → Bool
has_symbol module_kind = false
has_symbol other_kind = false
has_symbol _ = true

-- The visit ends in a state with `P`, or for want of a key in one with `E`; the fuel is spent only under `N`.
abbrev pub Ends : (ParserState → Type 0) → (ParserState → Type 0) → Type 0 → Run → Type 0
Ends P E N (visited s) = P s
Ends P E N (exhausted s) = E s
Ends P E N no_fuel = N

abbrev pub Added :
    (ParserState → Type 0)
    → (ParserState → Type 0)
    → ParserState
    → Option (Text × ParserState)
    → Type 0
Added P E s none = E s
Added P E s (some added) = P added.1

pub Ends-map :
    (P Q E F : ParserState → Type 0) (N : Type 0) (r : Run)
    → ((s : ParserState) → P s → Q s)
    → ((s : ParserState) → E s → F s)
    → Ends P E N r
    → Ends Q F N r
Ends-map P Q E F N (visited s) f g h = f s h
Ends-map P Q E F N (exhausted s) f g h = g s h
Ends-map P Q E F N no_fuel f g h = h

pub Ends-and_then :
    (P Q E : ParserState → Type 0) (N : Type 0) (r : Run) (next : ParserState → Run)
    → Ends P E N r
    → ((s : ParserState) → P s → Ends Q E N (next s))
    → Ends Q E N (and_then r next)
Ends-and_then P Q E N (visited s) next h f = f s h
Ends-and_then P Q E N (exhausted s) next h f = h
Ends-and_then P Q E N no_fuel next h f = h

module _ (P E : ParserState → Type 0) (N : Type 0) where
  pub Ends-each_id :
      (visit : ℕ → ParserState → Run)
      → ((id : ℕ) (s : ParserState) → P s → Ends P E N (visit id s))
      → (ids : List ℕ) (s : ParserState) → P s
      → Ends P E N (each_id visit ids s)
  Ends-each_id visit step [] s h = h
  Ends-each_id visit step (id ∷ ids) s h =
      Ends-and_then P P E N (visit id s) (each_id visit ids) (step id s h)
        (λ t. Ends-each_id visit step ids t)

  pub Ends-with_symbol :
      (Q : ParserState → Type 0) (p : Parser) (item : RustdocItem) (path : List Text)
      (owner : Option Text) (kind : Text) (s : ParserState) (next : Text → ParserState → Run)
      → Added Q E s (add_symbol p item path owner kind s)
      → ((name : Text) (t : ParserState) → Q t → Ends P E N (next name t))
      → Ends P E N (with_symbol p item path owner kind s next)
  unfolding with_symbol
  Ends-with_symbol Q p item path owner kind s next h f =
      added (add_symbol p item path owner kind s) h
    where
      added :
          (o : Option (Text × ParserState))
          → Added Q E s o
          → Ends P E N (elim o [ none ↦ exhausted s | some r ↦ next r.0 r.1 ])
      added none e = e
      added (some r) q = f r.0 r.1 q

  module _ (p : Parser)
      (on_add : (item : RustdocItem) (path : List Text) (owner : Option Text) (kind : Text)
          (s : ParserState)
        → P s
        → Added P E s (add_symbol p item path owner kind s))
      (on_trait : (owner : Text) (impl_inner : Value) (s : ParserState)
        → P s
        → P (note_trait owner impl_inner s)) where
    pub Ends-add_member :
        (owner kind : Text) (id : ℕ) (s : ParserState)
        → P s
        → Ends P E N (add_member p owner kind id s)
    unfolding add_member
    Ends-add_member owner kind id s h = member (local_item p id)
      where
        member :
            (o : Option RustdocItem)
            → Ends P E N (elim o [
              | none ↦ visited s
              | some item ↦ with_symbol p item [] (some owner) kind s (λ name t. visited t)
            ])
        member none = h
        member (some item) =
            Ends-with_symbol P p item [] (some owner) kind s (λ name t. visited t)
              (on_add item [] (some owner) kind s h) (λ name t q. q)

    members :
        (owner kind : Text) (ids : List ℕ) (s : ParserState)
        → P s
        → Ends P E N (each_id (add_member p owner kind) ids s)
    members owner kind = Ends-each_id (add_member p owner kind) (Ends-add_member owner kind)

    Ends-visit_impl :
        (owner : Text) (id : ℕ) (s : ParserState) → P s → Ends P E N (visit_impl p owner id s)
    unfolding visit_impl
    Ends-visit_impl owner id s h =
        impl (local_item p id >>= λ impl_item. get_field (codes "impl") impl_item.inner)
      where
        impl :
            (o : Option Value)
            → Ends P E N (elim o [
              | none ↦ visited s
              | some impl_inner ↦
                  each_id
                    (add_member p owner (codes "method"))
                    (ids_at (codes "items") impl_inner)
                    (note_trait owner impl_inner s)
            ])
        impl none = h
        impl (some impl_inner) =
            members owner (codes "method") (ids_at (codes "items") impl_inner)
              (note_trait owner impl_inner s) (on_trait owner impl_inner s h)

    Ends-visit_impls :
        (item : RustdocItem) (name : Text) (s : ParserState)
        → P s
        → Ends P E N (visit_impls p item name s)
    unfolding visit_impls
    Ends-visit_impls item name =
        Ends-each_id (visit_impl p name) (Ends-visit_impl name) (impl_ids item)

    Ends-visit_struct_fields :
        (item : RustdocItem) (name : Text) (s : ParserState)
        → P s
        → Ends P E N (visit_struct_fields p item name s)
    unfolding visit_struct_fields
    Ends-visit_struct_fields item name = members name (codes "field") _

    Ends-visit_enum_variants :
        (item : RustdocItem) (name : Text) (s : ParserState)
        → P s
        → Ends P E N (visit_enum_variants p item name s)
    unfolding visit_enum_variants
    Ends-visit_enum_variants item name = members name (codes "variant") _

    Ends-visit_trait_items :
        (item : RustdocItem) (name : Text) (s : ParserState)
        → P s
        → Ends P E N (visit_trait_items p item name s)
    unfolding visit_trait_items
    Ends-visit_trait_items item name = members name (codes "trait_item") _

    module _ (item : RustdocItem) (path : List Text) (s : ParserState)
        (first : (kind : Text) → Added P E s (add_symbol p item path none kind s)) where
      only : (kind : Text) → Ends P E N (symbol_only p item path kind s)
      only kind =
          Ends-with_symbol P p item path none kind s (λ name t. visited t) (first kind)
            (λ name t q. q)

      -- The arm of a kind with members of its own and impl blocks.
      with_impls :
          (visit : Text → ParserState → Run) (kind : Text)
          → ((name : Text) (t : ParserState) → P t → Ends P E N (visit name t))
          → Ends P E N (
              with_symbol p item path none kind s
                (λ name t. and_then (visit name t) (visit_impls p item name)))
      with_impls visit kind f =
          Ends-with_symbol P p item path none kind s
            (λ name t. and_then (visit name t) (visit_impls p item name)) (first kind)
            (λ name t q.
              Ends-and_then P P E N (visit name t) (visit_impls p item name) (f name t q)
                (Ends-visit_impls item name))

    -- The first symbol establishes the property, unless the kind has none.
    pub Ends-visit_kind :
        (enter : ℕ → List Text → ParserState → Run) (k : ItemKind) (item : RustdocItem) (id : ℕ)
        (path : List Text) (s : ParserState)
        → ((path : List Text) (t : ParserState) → P t → Ends P E N (enter id path t))
        → (has_symbol k ≡ true → (kind : Text) → Added P E s (add_symbol p item path none kind s))
        → (has_symbol k ≡ false → P s)
        → Ends P E N (visit_kind p enter k item id path s)
    unfolding visit_kind
    Ends-visit_kind enter struct_kind item id path s on_enter first silent =
        with_impls item path s (first refl) (visit_struct_fields p item) (codes "struct")
          (Ends-visit_struct_fields item)
    Ends-visit_kind enter enum_kind item id path s on_enter first silent =
        with_impls item path s (first refl) (visit_enum_variants p item) (codes "enum")
          (Ends-visit_enum_variants item)
    Ends-visit_kind enter trait_kind item id path s on_enter first silent =
        with_impls item path s (first refl) (visit_trait_items p item) (codes "trait")
          (Ends-visit_trait_items item)
    Ends-visit_kind enter function_kind item id path s on_enter first silent =
        only item path s (first refl) (codes "function")
    Ends-visit_kind enter type_alias_kind item id path s on_enter first silent =
        only item path s (first refl) (codes "type_alias")
    Ends-visit_kind enter constant_kind item id path s on_enter first silent =
        only item path s (first refl) (codes "const")
    Ends-visit_kind enter static_kind item id path s on_enter first silent =
        only item path s (first refl) (codes "static")
    Ends-visit_kind enter union_kind item id path s on_enter first silent =
        only item path s (first refl) (codes "union")
    Ends-visit_kind enter macro_kind item id path s on_enter first silent =
        only item path s (first refl) (codes "macro")
    Ends-visit_kind enter module_kind item id path s on_enter first silent =
        on_enter (child_path path item) s (silent refl)
    Ends-visit_kind enter other_kind item id path s on_enter first silent = silent refl

  -- What an unseen item of the root crate is visited for, from the state where it is marked.
  pub Ends-unseen_item :
      (p : Parser) (id : ℕ) (s : ParserState) (visit : RustdocItem → ParserState → Run)
      → ((HashSet.contains id s.seen ≡ true) ⊎ (local_item p id ≡ none) → P s)
      → ((item : RustdocItem)
          → HashSet.contains id s.seen ≡ false
          → local_item p id ≡ some item
          → Ends P E N (visit item (mark id s)))
      → Ends P E N (unseen_item p id s visit)
  unfolding unseen_item
  Ends-unseen_item p id s visit h f = elim (Bool-cases (HashSet.contains id s.seen)) [
    | inl seen ↦ rw seen (h (inl seen))
    | inr new ↦ rw new (found new (local_item p id) refl)
  ]
    where
      found :
          HashSet.contains id s.seen ≡ false
          → (o : Option RustdocItem) → local_item p id ≡ o
          → Ends P E N (elim o [ none ↦ visited s | some item ↦ visit item (mark id s) ])
      found new none e = h (inr e)
      found new (some item) e = f item new e

  -- A property kept also by marking an item as seen is kept by the visit of a child, and of a module.
  module _ (p : Parser)
      (on_add : (item : RustdocItem) (path : List Text) (owner : Option Text) (kind : Text)
          (s : ParserState)
        → P s
        → Added P E s (add_symbol p item path owner kind s))
      (on_trait : (owner : Text) (impl_inner : Value) (s : ParserState)
        → P s
        → P (note_trait owner impl_inner s))
      (on_mark : (id : ℕ) (s : ParserState) → P s → P (mark id s)) where
    pub Ends-visit_child :
        (enter : ℕ → List Text → ParserState → Run)
        → ((id : ℕ) (path : List Text) (s : ParserState) → P s → Ends P E N (enter id path s))
        → (path : List Text) (id : ℕ) (s : ParserState) → P s
        → Ends P E N (visit_child p enter path id s)
    unfolding visit_child visit_item
    Ends-visit_child enter on_enter path id s h = child (local_item p id)
      where
        as_item : Ends P E N (visit_item p enter id path s)
        as_item =
            Ends-unseen_item p id s (λ item t. visit_kind p enter (item_kind item) item id path t)
              (λ skip. h)
              (λ item new e.
                Ends-visit_kind p on_add on_trait enter (item_kind item) item id path (mark id s)
                  (on_enter id) (λ k kind. on_add item path none kind (mark id s) (on_mark id s h))
                  (λ k. on_mark id s h))

        child :
            (o : Option RustdocItem)
            → Ends P E N (elim o [
              | none ↦ visited s
              | some item ↦
                  if is_inner_kind item (codes "module")
                  then enter id (child_path path item) s
                  else visit_item p enter id path s
            ])
        child none = h
        child (some item) = elim (Bool-cases (is_inner_kind item (codes "module"))) [
          | inl m ↦ rw m (on_enter id (child_path path item) s h)
          | inr other ↦ rw other as_item
        ]

    pub Ends-visit_items :
        (enter : ℕ → List Text → ParserState → Run)
        → ((id : ℕ) (path : List Text) (s : ParserState) → P s → Ends P E N (enter id path s))
        → (path : List Text) (item : RustdocItem) (s : ParserState) → P s
        → Ends P E N (visit_items p enter path item s)
    unfolding visit_items
    Ends-visit_items enter on_enter path item s h =
        Ends-with_symbol P p item path none (codes "module") s
          (λ name t. each_id (visit_child p enter path) (module_items item) t)
          (on_add item path none (codes "module") s h)
          (λ name.
            Ends-each_id (visit_child p enter path) (Ends-visit_child enter on_enter path)
              (module_items item))

    pub Ends-visit_module :
        N
        → (fuel id : ℕ) (path : List Text) (s : ParserState) → P s
        → Ends P E N (visit_module p fuel id path s)
    unfolding visit_module
    Ends-visit_module spent zero id path s h =
        Ends-unseen_item p id s (λ item t. no_fuel) (λ skip. h) (λ item new e. spent)
    Ends-visit_module spent (suc fuel) id path s h =
        Ends-unseen_item p id s (visit_items p (visit_module p fuel) path) (λ skip. h)
          (λ item new e.
            Ends-visit_items (visit_module p fuel) (Ends-visit_module spent fuel) path item
              (mark id s) (on_mark id s h))
