-- ===== src/Schema/Keys.antt =====
-- What the record ids and the symbol keys determine.
use docx_mcp.Base.{ℕ, false, none, some, [], ◌∷◌, ◌++◌, ◌≡◌, refl, arith, nat_eq, eq_iff}
use docx_mcp.Text.{Text, codes, strip_prefix, contains_char}
use docx_mcp.Schema.{
  table_symbol, table_doc_source, make_record_id, make_symbol_key, record_id_to_symbol_key,
  record_id_to_doc_source_id,
}

-- A record id is read back by the reader of its own table, and by no other.
pub record_id_readers :
    (id : Text)
    → (record_id_to_symbol_key (make_record_id table_symbol id) ≡ some id)
      × (record_id_to_doc_source_id (make_record_id table_doc_source id) ≡ some id)
      × (record_id_to_symbol_key (make_record_id table_doc_source id) ≡ none)
      × (record_id_to_doc_source_id (make_record_id table_symbol id) ≡ none)
unfolding make_record_id record_id_to_symbol_key record_id_to_doc_source_id strip_prefix
record_id_readers id = (refl, refl, refl, refl)

-- Two texts without the separator, each in front of it, are equal where what they spell is.
cut_unique :
    (b : ℕ) (s t u v : Text)
    → contains_char b s ≡ false
    → contains_char b t ≡ false
    → s ++ (b ∷ u) ≡ t ++ (b ∷ v)
    → (s ≡ t) × (u ≡ v)
unfolding contains_char
cut_unique b [] [] u v hs ht h = (refl, cc)
cut_unique b [] (d ∷ t) u v hs ht h = ground (arith, eq_iff d b)
cut_unique b (c ∷ s) [] u v hs ht h = ground (arith, eq_iff c b)
cut_unique b (c ∷ s) (d ∷ t) u v hs ht h = ground (arith, cut_unique b s t u v)

-- A symbol key determines its language, project and local id, where no language and no project id
-- holds the separator `|`.
pub make_symbol_key-injective :
    (language language' project project' local local' : Text)
    → contains_char b'|' language ≡ false
    → contains_char b'|' language' ≡ false
    → contains_char b'|' project ≡ false
    → contains_char b'|' project' ≡ false
    → make_symbol_key language project local ≡ make_symbol_key language' project' local'
    → (language ≡ language') × (project ≡ project') × (local ≡ local')
unfolding make_symbol_key
make_symbol_key-injective l l' p p' x x' hl hl' hp hp' h =
    let (el, rest) = cut_unique b'|' l l' (p ++ b'|' ∷ x) (p' ++ b'|' ∷ x') hl hl' h in
    let (ep, ex) = cut_unique b'|' p p' x x' hp hp' rest in (el, ep, ex)

-- Where a project id holds the separator, two projects share a key.
symbol_keys_collide :
    make_symbol_key (codes "rust") (codes "a|b") (codes "c")
    ≡ make_symbol_key (codes "rust") (codes "a") (codes "b|c")
unfolding make_symbol_key
symbol_keys_collide = refl
