-- ===== src/Rustdoc/Visit/Cover.antt =====
-- Which items the visit of a crate reaches.
use docx_mcp.Base.{
  ℕ, zero, suc, Bool, true, false, ◌||◌, nat_eq, ◌==◌, eq_iff, eq_sound, Option, none, some, List,
  [], ◌∷◌, if◌then◌else◌, Bool-cases, inl, inr, ◌⊎◌, ◌≡◌, refl, sym, subst, arith, In,
  In-append_left, In-append_right, is_some,
}
use docx_mcp.Text.{Text, codes, to_decimal}
use docx_mcp.Models.{Symbol}
use docx_mcp.Collections.HashMap
use docx_mcp.Collections.HashSet
use docx_mcp.Collections.HashSet.{contains}
use docx_mcp.Rustdoc.Crate.{RustdocItem}
use docx_mcp.Rustdoc.Items.{is_inner_kind, module_items, build_symbol}
use docx_mcp.Rustdoc.State.{
  Parser, ParserState, Run, visited, no_fuel, local_item, symbol_for, push_symbol, each_id,
}
use docx_mcp.Rustdoc.Visit.{
  mark, item_kind, child_path, unseen_item, visit_kind, visit_item, visit_child, visit_items,
  visit_module,
}
use docx_mcp.Rustdoc.Visit.Added.{IsSpent, Added-add_symbol, note_trait_cases}
use docx_mcp.Rustdoc.Visit.Ends.{
  Ends, has_symbol, Ends-map, Ends-and_then, Ends-unseen_item, Ends-visit_kind, Ends-with_symbol,
}

-- A symbol made from the item.
abbrev pub HasSymbol : RustdocItem → ParserState → Type 0
HasSymbol item s =
    (y : Symbol) × In y s.symbols
    × (y.source_ids ≡ record { kind = codes "rustdoc_id"; value = to_decimal item.id } ∷ [])

abbrev pub Grows : ParserState → ParserState → Type 0
Grows s t =
    ((id : ℕ) → contains id s.seen ≡ true → contains id t.seen ≡ true)
    × ((y : Symbol) → In y s.symbols → In y t.symbols)

Grows-refl : (s : ParserState) → Grows s s
Grows-refl s = (λ id h. h, λ y h. h)

Grows-trans : (s t u : ParserState) → Grows s t → Grows t u → Grows s u
Grows-trans s t u (f, g) (h, k) = (λ id i. h id (f id i), λ y i. k y (g y i))

abbrev pub local : Parser → ℕ → Bool
local p id = is_some (local_item p id)

abbrev pub gets_symbol : RustdocItem → Bool
gets_symbol item = is_inner_kind item (codes "module") || has_symbol (item_kind item)

-- An item that was visited: it has its symbol, and a module's items of the root crate are seen.
abbrev pub Done : Parser → RustdocItem → ParserState → Type 0
Done p item t =
    (gets_symbol item ≡ true → HasSymbol item t)
    × (is_inner_kind item (codes "module") ≡ true
        → (id : ℕ) → In id (module_items item)
        → local p id ≡ true
        → contains id t.seen ≡ true)

Done-Grows :
    (p : Parser) (item : RustdocItem) (t u : ParserState)
    → Grows t u
    → Done p item t
    → Done p item u
Done-Grows p item t u (f, g) (d, e) =
    (λ h. let (y, i, same) = d h in (y, g y i, same), λ m id i l. f id (e m id i l))

-- The items that are new in the second state are done there.
abbrev pub Closed : Parser → ParserState → ParserState → Type 0
Closed p s t =
    (id : ℕ) (item : RustdocItem)
    → contains id t.seen ≡ true
    → contains id s.seen ≡ false
    → local_item p id ≡ some item
    → Done p item t

-- What a visit does, from one state to the other.
abbrev pub Step : Parser → ParserState → ParserState → Type 0
Step p s t = Grows s t × Closed p s t

Step-refl : (p : Parser) (s : ParserState) → Step p s s
Step-refl p s = (Grows-refl s, λ id item new old e. absurd (cc))

Step-trans : (p : Parser) (s t u : ParserState) → Step p s t → Step p t u → Step p s u
Step-trans p s t u (g, c) (h, d) = (
  Grows-trans s t u g h,
  λ id item new old e. elim (Bool-cases (contains id t.seen)) [
    | inl seen ↦ Done-Grows p item t u h (c id item seen old e)
    | inr later ↦ d id item new later e
  ],
)

-- The visit of an id, from a state: a step after which the id is seen, where it is an item of the root crate.
abbrev pub Post : Parser → ℕ → ParserState → ParserState → Type 0
Post p id s t = Step p s t × (local p id ≡ true → contains id t.seen ≡ true)

each_id-Post :
    (p : Parser) (visit : ℕ → ParserState → Run)
    → ((id : ℕ) (s : ParserState) → Ends (Post p id s) IsSpent Unit (visit id s))
    → (ids : List ℕ) (s : ParserState)
    → Ends
        (λ t. Step p s t × ((id : ℕ) → In id ids → local p id ≡ true → contains id t.seen ≡ true))
        IsSpent
        Unit
        (each_id visit ids s)
each_id-Post p visit step [] s = (Step-refl p s, λ id i. absurd i)
each_id-Post p visit step (j ∷ ids) s =
    Ends-and_then _ _ IsSpent Unit (visit j s) (each_id visit ids) (step j s) (λ t (st, sj).
      Ends-map _ _ IsSpent IsSpent Unit (each_id visit ids t)
        (λ u (tu, f). (
          Step-trans p s t u st tu,
          λ id i l. elim i [
            | inl e ↦ tu.0.0 id (
                subst (λ x. contains x t.seen ≡ true) (sym e)
                  (sj (subst (λ x. local p x ≡ true) e l)))
            | inr later ↦ f id later l
          ],
        ))
        (λ u e. e) (each_id-Post p visit step ids t))

-- What the visit of one item leaves as it is, and whether it has given the item its symbol.
abbrev Kept : RustdocItem → Bool → ParserState → ParserState → Type 0
Kept item given s t =
    (t.seen ≡ s.seen)
    × ((y : Symbol) → In y s.symbols → In y t.symbols)
    × (given ≡ true → HasSymbol item t)

symbol_for_source :
    (p : Parser) (item : RustdocItem) (kind name key : Text) (paths : List (ℕ × Text))
    → (symbol_for p item kind name key paths).source_ids
      ≡ record { kind = codes "rustdoc_id"; value = to_decimal item.id } ∷ []
unfolding symbol_for build_symbol
symbol_for_source p item kind name key paths = refl

push-Kept :
    (p : Parser) (own item : RustdocItem) (given : Bool) (kind name key : Text) (used : List Text)
    (s t : ParserState)
    → Kept own given s t
    → Kept own given s (push_symbol p item kind name key used t)
unfolding push_symbol
push-Kept p own item given kind name key used s t (e, g, h) = (
  e,
  λ y i. In-append_left y t.symbols _ (g y i),
  λ b. let (y, i, same) = h b in (y, In-append_left y t.symbols _ i, same),
)

push-Kept_own :
    (p : Parser) (item : RustdocItem) (given : Bool) (kind name key : Text) (used : List Text)
    (s : ParserState)
    → Kept item given s (push_symbol p item kind name key used s)
unfolding push_symbol
push-Kept_own p item given kind name key used s = (
  refl,
  λ y i. In-append_left y s.symbols _ i,
  λ b.
      let paths = HashMap.insert item.id name s.id_to_path in
      (
        symbol_for p item kind name key paths,
        In-append_right _ s.symbols _ (inl refl),
        symbol_for_source p item kind name key paths,
      ),
)

Kept-Grows :
    (item : RustdocItem) (given : Bool) (s t : ParserState) → Kept item given s t → Grows s t
Kept-Grows item given s t (e, g, h) = (λ id i. subst (λ seen. contains id seen ≡ true) (sym e) i, g)

seen-mark :
    (id j : ℕ) (s : ParserState) → contains j (mark id s).seen ≡ (j == id || contains j s.seen)
seen-mark id j s = HashSet.contains-insert j id s.seen

same_item :
    (p : Parser) (id j : ℕ) (item other : RustdocItem)
    → local_item p id ≡ some item
    → local_item p j ≡ some other
    → j ≡ id
    → item ≡ other
same_item p id j item other e e' h = cc

-- An item that was unseen is marked, and then given its symbol, and so on: a step that only adds that item
-- and what comes after.
marked-Post :
    (p : Parser) (id : ℕ) (item : RustdocItem) (s t : ParserState)
    → contains id s.seen ≡ false
    → local_item p id ≡ some item
    → Step p (mark id s) t
    → Done p item t
    → Post p id s t
marked-Post p id item s t new e ((f, g), c) d = (
  (
    (λ j h. f j (ground (arith, seen-mark id j s)), g),
    λ j other seen old e'. elim (Bool-cases (j == id)) [
      | inl same ↦
          subst (λ (o : RustdocItem). Done p o t)
            (same_item p id j item other e e' (eq_sound j id same)) d
      | inr differs ↦ c j other seen (ground (arith, seen-mark id j s)) e'
    ],
  ),
  λ l. f id (ground (arith, seen-mark id id s, eq_iff id id)),
)

bool_conflict : {b : Bool} → b ≡ true → b ≡ false → ⊥
bool_conflict h h' = cc

Kept-Step :
    (p : Parser) (item : RustdocItem) (given : Bool) (s t : ParserState)
    → Kept item given s t
    → Step p s t
Kept-Step p item given s t k = (
  Kept-Grows item given s t k,
  λ id other seen old e.
      absurd (bool_conflict (subst (λ ids. contains id ids ≡ true) k.0 seen) old),
)

visit_module-seen :
    (p : Parser) (fuel id : ℕ) (path : List Text) (s : ParserState)
    → contains id s.seen ≡ true
    → visit_module p fuel id path s ≡ visited s
unfolding visit_module unseen_item
visit_module-seen p zero id path s h = rw h refl
visit_module-seen p (suc fuel) id path s h = rw h refl

-- Nothing is done for an item that is seen or not of the root crate.
skipped-Post :
    (p : Parser) (id : ℕ) (s : ParserState)
    → (contains id s.seen ≡ true) ⊎ (local_item p id ≡ none)
    → Post p id s s
skipped-Post p id s (inl h) = (Step-refl p s, λ l. h)
skipped-Post p id s (inr e) = (Step-refl p s, λ l. absurd (not_local p id e l))
  where
    not_local : (p : Parser) (id : ℕ) → local_item p id ≡ none → local p id ≡ true → ⊥
    not_local p id e l = ground arith

has-mark : (id : ℕ) (s : ParserState) → contains id (mark id s).seen ≡ true
has-mark id s = ground (arith, seen-mark id id s, eq_iff id id)

-- The visit of an item that is marked, where modules are not entered again.
visit_kind-Kept :
    (p : Parser) (fuel id : ℕ) (path : List Text) (s : ParserState) (item : RustdocItem)
    → Ends
        (Kept item (has_symbol (item_kind item)) (mark id s))
        IsSpent
        Unit
        (visit_kind p (visit_module p fuel) (item_kind item) item id path (mark id s))
visit_kind-Kept p fuel id path s item =
    Ends-visit_kind (Kept item given (mark id s)) IsSpent Unit p
      (λ other path owner kind t k.
        Added-add_symbol (Kept item given (mark id s)) p other path owner kind t (λ name key fresh.
          push-Kept p item other given kind name key (key ∷ t.used_symbol_keys) (mark id s) t k))
      (λ owner impl_inner t k.
        note_trait_cases (Kept item given (mark id s)) owner impl_inner t k (λ impls. k))
      (visit_module p fuel) (item_kind item) item id path (mark id s)
      (λ path t k.
        subst (Ends (Kept item given (mark id s)) IsSpent Unit)
          (sym (
            visit_module-seen p fuel id path t
              (subst (λ ids. contains id ids ≡ true) (sym k.0) (has-mark id s))))
          k)
      (λ own kind.
        Added-add_symbol (Kept item given (mark id s)) p item path none kind (mark id s)
          (λ name key fresh.
            push-Kept_own p item given kind name key (key ∷ s.used_symbol_keys) (mark id s)))
      (λ silent. (refl, λ y i. i, λ own. absurd (bool_conflict own silent)))
  where
    given : Bool
    given = has_symbol (item_kind item)

own_symbol :
    (item : RustdocItem)
    → is_inner_kind item (codes "module") ≡ false
    → gets_symbol item ≡ true
    → has_symbol (item_kind item) ≡ true
own_symbol item plain own = rw plain at own

visit_item-Post :
    (p : Parser) (fuel id : ℕ) (path : List Text) (s : ParserState) (item : RustdocItem)
    → local_item p id ≡ some item
    → is_inner_kind item (codes "module") ≡ false
    → Ends (Post p id s) IsSpent Unit (visit_item p (visit_module p fuel) id path s)
unfolding visit_item
visit_item-Post p fuel id path s item e plain =
    Ends-unseen_item (Post p id s) IsSpent Unit p id s
      (λ found t. visit_kind p (visit_module p fuel) (item_kind found) found id path t)
      (skipped-Post p id s)
      (λ found new e'.
        subst
          (λ (o : RustdocItem).
            Ends (Post p id s) IsSpent Unit
              (visit_kind p (visit_module p fuel) (item_kind o) o id path (mark id s)))
          (same_item p id id item found e e' refl)
          (Ends-map _ _ IsSpent IsSpent Unit
            (visit_kind p (visit_module p fuel) (item_kind item) item id path (mark id s))
            (λ t k.
              marked-Post p id item s t new e
                (Kept-Step p item (has_symbol (item_kind item)) (mark id s) t k)
                (λ own. k.2 (own_symbol item plain own), λ m. absurd (bool_conflict m plain)))
            (λ t e. e) (visit_kind-Kept p fuel id path s item)))

visit_child-Post :
    (p : Parser) (fuel : ℕ) (path : List Text)
    → ((id : ℕ) (path : List Text) (s : ParserState)
        → Ends (Post p id s) IsSpent Unit (visit_module p fuel id path s))
    → (id : ℕ) (s : ParserState)
    → Ends (Post p id s) IsSpent Unit (visit_child p (visit_module p fuel) path id s)
unfolding visit_child
visit_child-Post p fuel path ih id s = child (local_item p id) refl
  where
    child :
        (o : Option RustdocItem)
        → local_item p id ≡ o
        → Ends (Post p id s) IsSpent Unit (elim o [
          | none ↦ visited s
          | some item ↦
              if is_inner_kind item (codes "module")
              then visit_module p fuel id (child_path path item) s
              else visit_item p (visit_module p fuel) id path s
        ])
    child none e = skipped-Post p id s (inr e)
    child (some item) e = elim (Bool-cases (is_inner_kind item (codes "module"))) [
      | inl m ↦ rw m (ih id (child_path path item) s)
      | inr other ↦ rw other (visit_item-Post p fuel id path s item e other)
    ]

visit_items-Post :
    (p : Parser) (fuel id : ℕ) (path : List Text) (s : ParserState) (item : RustdocItem)
    → ((id : ℕ) (path : List Text) (s : ParserState)
        → Ends (Post p id s) IsSpent Unit (visit_module p fuel id path s))
    → contains id s.seen ≡ false
    → local_item p id ≡ some item
    → Ends (Post p id s) IsSpent Unit (visit_items p (visit_module p fuel) path item (mark id s))
unfolding visit_items
visit_items-Post p fuel id path s item ih new e =
    Ends-with_symbol (Post p id s) IsSpent Unit (Kept item true (mark id s)) p item path none
      (codes "module") (mark id s)
      (λ name t. each_id (visit_child p (visit_module p fuel) path) (module_items item) t)
      (Added-add_symbol (Kept item true (mark id s)) p item path none (codes "module") (mark id s)
        (λ name key fresh.
          push-Kept_own p item true (codes "module") name key (key ∷ s.used_symbol_keys)
            (mark id s)))
      (λ name t k.
        Ends-map _ _ IsSpent IsSpent Unit
          (each_id (visit_child p (visit_module p fuel) path) (module_items item) t)
          (λ u (st, f).
            marked-Post p id item s u new e
              (Step-trans p (mark id s) t u (Kept-Step p item true (mark id s) t k) st)
              (λ own. let (y, i, same) = k.2 refl in (y, st.0.1 y i, same), λ m. f))
          (λ u e. e)
          (each_id-Post p (visit_child p (visit_module p fuel) path)
            (visit_child-Post p fuel path ih) (module_items item) t))

pub visit_module-Post :
    (p : Parser) (fuel id : ℕ) (path : List Text) (s : ParserState)
    → Ends (Post p id s) IsSpent Unit (visit_module p fuel id path s)
unfolding visit_module
visit_module-Post p zero id path s =
    Ends-unseen_item (Post p id s) IsSpent Unit p id s (λ item t. no_fuel) (skipped-Post p id s)
      (λ item new e. tt)
visit_module-Post p (suc fuel) id path s =
    Ends-unseen_item (Post p id s) IsSpent Unit p id s (visit_items p (visit_module p fuel) path)
      (skipped-Post p id s)
      (λ item new e. visit_items-Post p fuel id path s item (visit_module-Post p fuel) new e)
