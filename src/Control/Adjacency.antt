-- ===== src/Control/Adjacency.antt =====
-- The symbols related to a symbol, in `get_symbol_adjacency` of
-- crates/lib/docx-core/src/control/data.rs. `get_symbol` is the answer of the store for a key: a failed
-- query and a missing symbol are both none.
use docx_mcp.Base.{
  Bool, false, ◌||◌, ◌&&◌, Option, none, some, List, [], ◌∷◌, ◌++◌, ◌≡◌, refl, ap, ◌∙◌, arith, ◌==◌,
  nat_eq, list_eq, option_eq, eq_iff, is_some, map, filter_map, Option-cases, inl, inr,
}
use docx_mcp.Text.{Text}
use docx_mcp.Models.{Symbol, RelationRecord}
use docx_mcp.Schema.{record_id_to_symbol_key}
use docx_mcp.Collections.HashSet.{contains, insert, Distinct, contains-insert}
use docx_mcp.Collections.Sort.{
  sort_by, IsSorted, sort_by-IsSorted, contains-sort_by, dedup_by, dedup_by-IsSorted,
  dedup_by-Distinct, contains-dedup_by,
}

-- The edges that the store returns for a symbol.
pub record Adjacency : Type 0 where
  pub member_of : List RelationRecord
  pub contains : List RelationRecord
  pub returns : List RelationRecord
  pub param_types : List RelationRecord
  pub see_also : List RelationRecord
  pub inherits : List RelationRecord
  pub references : List RelationRecord
  pub observed_in : List RelationRecord

-- The order of the `chain`.
abbrev pub edges : Adjacency → List RelationRecord
edges adj =
    adj.member_of
    ++ (adj.contains
        ++ (adj.returns
            ++ (adj.param_types
                ++ (adj.see_also ++ (adj.inherits ++ (adj.references ++ adj.observed_in))))))

abbrev pub insert_some : Option Text → List Text → List Text
insert_some none keys = keys
insert_some (some key) keys = insert key keys

unfoldable pub add_ends : List Text → List RelationRecord → List Text
add_ends keys [] = keys
add_ends keys (r ∷ rs) =
    add_ends
      (insert_some (record_id_to_symbol_key r.out_id)
        (insert_some (record_id_to_symbol_key r.in_id) keys))
      rs

unfoldable pub related_symbols : (Text → Option Symbol) → Adjacency → List Symbol
unfolding add_ends
related_symbols get_symbol adj =
    dedup_by (λ s. s.symbol_key)
      (sort_by (λ s. s.symbol_key) (filter_map get_symbol (add_ends [] (edges adj))))

-- Whether an edge starts or ends at the symbol record with the key.
abbrev pub is_end : Text → List RelationRecord → Bool
is_end k [] = false
is_end k (r ∷ rs) =
    (record_id_to_symbol_key r.in_id == some k || record_id_to_symbol_key r.out_id == some k)
    || is_end k rs

-- Whether one of the edges that the store returns does, of whichever relation it is.
abbrev pub is_end_of_any : Text → Adjacency → Bool
is_end_of_any k adj =
    is_end k adj.member_of
    || (is_end k adj.contains
        || (is_end k adj.returns
            || (is_end k adj.param_types
                || (is_end k adj.see_also
                    || (is_end k adj.inherits
                        || (is_end k adj.references || is_end k adj.observed_in))))))

is_end-append :
    (k : Text) (rs ts : List RelationRecord) → is_end k (rs ++ ts) ≡ (is_end k rs || is_end k ts)
is_end-append k [] ts = refl
is_end-append k (r ∷ rs) ts = ground (arith, is_end-append k rs ts)

is_end-edges : (k : Text) (adj : Adjacency) → is_end k (edges adj) ≡ is_end_of_any k adj
is_end-edges k adj =
    rw
      (
        is_end-append k adj.member_of _,
        is_end-append k adj.contains _,
        is_end-append k adj.returns _,
        is_end-append k adj.param_types _,
        is_end-append k adj.see_also _,
        is_end-append k adj.inherits _,
        is_end-append k adj.references _,
      )
      refl

contains-insert_some :
    (k : Text) (o : Option Text) (keys : List Text)
    → contains k (insert_some o keys) ≡ (o == some k || contains k keys)
contains-insert_some k none keys = refl
contains-insert_some k (some key) keys =
    ground (arith, contains-insert k key keys, eq_iff k key, eq_iff key k)

contains-add_ends :
    (k : Text) (keys : List Text) (rs : List RelationRecord)
    → contains k (add_ends keys rs) ≡ (contains k keys || is_end k rs)
unfolding add_ends
contains-add_ends k keys [] = ground arith
contains-add_ends k keys (r ∷ rs) = ground (
  arith,
  contains-add_ends k
      (insert_some (record_id_to_symbol_key r.out_id)
        (insert_some (record_id_to_symbol_key r.in_id) keys))
      rs,
  contains-insert_some k (record_id_to_symbol_key r.out_id)
      (insert_some (record_id_to_symbol_key r.in_id) keys),
  contains-insert_some k (record_id_to_symbol_key r.in_id) keys,
)

module _ (get_symbol : Text → Option Symbol) where
  -- The store returns a symbol for its own key.
  abbrev pub IsFaithful : Type 0
  IsFaithful = (k : Text) (s : Symbol) → get_symbol k ≡ some s → s.symbol_key ≡ k

  contains-found :
      (k : Text) (keys : List Text)
      → IsFaithful
      → contains k (map (λ s. s.symbol_key) (filter_map get_symbol keys))
        ≡ (contains k keys && is_some (get_symbol k))
  unfolding contains
  contains-found k [] f = refl
  contains-found k (x ∷ keys) f = elim (Option-cases (get_symbol x)) [
    | inl e ↦ ground (arith, contains-found k keys f, eq_iff k x)
    | inr (s, e) ↦ ground (arith, contains-found k keys f, eq_iff k x, f x s e)
  ]

  -- Where the store returns a symbol only for its own key: the related symbols are sorted by key and
  -- none stands twice; a key is among them exactly when an edge of one of the eight relations starts
  -- or ends at its record and the store has a symbol for it.
  pub related_symbols_lem :
      (adj : Adjacency)
      → IsFaithful
      → IsSorted (λ s. s.symbol_key) (related_symbols get_symbol adj)
        × Distinct (map (λ s. s.symbol_key) (related_symbols get_symbol adj))
        × ((k : Text)
            → contains k (map (λ s. s.symbol_key) (related_symbols get_symbol adj))
              ≡ (is_end_of_any k adj && is_some (get_symbol k)))
  unfolding related_symbols contains
  related_symbols_lem adj f = (
    dedup_by-IsSorted (λ s. s.symbol_key) _ (sort_by-IsSorted (λ s. s.symbol_key) _),
    dedup_by-Distinct (λ s. s.symbol_key) _ (sort_by-IsSorted (λ s. s.symbol_key) _),
    λ k.
        contains-dedup_by (λ s. s.symbol_key) k _
        ∙ contains-sort_by (λ s. s.symbol_key) (λ s. s.symbol_key) k _
        ∙ contains-found k (add_ends [] (edges adj)) f
        ∙ ap (λ b. b && is_some (get_symbol k))
            (contains-add_ends k [] (edges adj) ∙ is_end-edges k adj),
  )
