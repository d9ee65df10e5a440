-- ===== src/Rustdoc/Visit/Added.antt =====
-- When `add_symbol` has a key, and what the state is then.
use docx_mcp.Base.{
  ℕ, ◌+◌, ◌≤◌, ◌<◌, Option, none, some, List, ◌∷◌, ◌≡◌, refl, arith, length, inl, inr, subst, sym,
  ◌>>=◌, ◌⊎◌,
}
use docx_mcp.Text.{Text, codes}
use docx_mcp.Models.{Value, get_value, as_str}
use docx_mcp.Schema.{make_symbol_key}
use docx_mcp.Rustdoc.Crate.{RustdocItem}
use docx_mcp.Rustdoc.Keys.{
  u32_mod, make_unique_symbol_key, make_unique_symbol_key-IsFresh, make_unique_symbol_key_sound,
  IsFresh, qualified_name_for_item,
}
use docx_mcp.Rustdoc.State.{Parser, ParserState, item_name, push_symbol, add_symbol}
use docx_mcp.Rustdoc.Visit.{push_trait, note_trait}
use docx_mcp.Rustdoc.Visit.Ends.{Added}

-- The `u32` ordinals of the keys are spent.
abbrev pub IsSpent : ParserState → Type 0
IsSpent s = u32_mod ≤ length s.used_symbol_keys + 2

lt_cases : (m n : ℕ) → (m < n) ⊎ (n ≤ m)
lt_cases m n = omega arith

spent :
    (used : List Text) (project_id name : Text) (id : ℕ)
    → make_unique_symbol_key used project_id name id ≡ none
    → u32_mod ≤ length used + 2
spent used project_id name id e = elim (lt_cases (length used + 2) u32_mod) [
  | inl small ↦
      let (key, found, _) = make_unique_symbol_key-IsFresh used project_id name id small in
      absurd (cc)
  | inr large ↦ large
]

-- What holds of the state with the symbol under each fresh key holds after `add_symbol`, unless the keys are spent.
pub Added-add_symbol :
    (P : ParserState → Type 0) (p : Parser) (item : RustdocItem) (path : List Text)
    (owner : Option Text) (kind : Text) (s : ParserState)
    → ((name key : Text)
        → IsFresh s.used_symbol_keys (make_symbol_key (codes "rust") p.options.project_id name) key
        → P (push_symbol p item kind name key (key ∷ s.used_symbol_keys) s))
    → Added P IsSpent s (add_symbol p item path owner kind s)
unfolding add_symbol
Added-add_symbol P p item path owner kind s f =
    added (make_unique_symbol_key s.used_symbol_keys p.options.project_id name item.id) refl
  where
    name : Text
    name = qualified_name_for_item (item_name item) path owner

    added :
        (o : Option (Text × List Text))
        → make_unique_symbol_key s.used_symbol_keys p.options.project_id name item.id ≡ o
        → Added P IsSpent s (elim o [
          | none ↦ none
          | some fresh ↦ some (name, push_symbol p item kind name fresh.0 fresh.1 s)
        ])
    added none e = spent s.used_symbol_keys p.options.project_id name item.id e
    added (some (key, later)) e =
        let (fresh, pushed) =
          make_unique_symbol_key_sound s.used_symbol_keys p.options.project_id name item.id key
            later e in
        subst (λ used. P (push_symbol p item kind name key used s)) (sym pushed) (f name key fresh)

pub note_trait_cases :
    (P : ParserState → Type 0) (owner : Text) (impl_inner : Value) (s : ParserState)
    → P s
    → ((impls : List (Text × List Text)) → P (record s { trait_impls = impls }))
    → P (note_trait owner impl_inner s)
unfolding note_trait
note_trait_cases P owner impl_inner s h f = noted (
    get_value impl_inner (codes "trait") >>= λ trait_ref.
    get_value trait_ref (codes "path") >>= as_str)
  where
    noted :
        (o : Option Text)
        → P (elim o [
          | none ↦ s
          | some path ↦ record s { trait_impls = push_trait owner path s.trait_impls }
        ])
    noted none = h
    noted (some path) = f (push_trait owner path s.trait_impls)
