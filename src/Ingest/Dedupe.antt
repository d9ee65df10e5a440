-- ===== src/Ingest/Dedupe.antt =====
-- `dedupe_symbols`.
use docx_mcp.Base.{
  List, [], ◌∷◌, ◌++◌, ◌≡◌, refl, sym, ◌∙◌, nat_eq, list_eq, if◌then◌else◌, map, In, append-nil,
  append_assoc, Bool-cases, inl, inr,
}
use docx_mcp.Text.{Text}
use docx_mcp.Models.{Symbol}
use docx_mcp.Collections.HashSet.{contains, Distinct}
use docx_mcp.Collections.KeepFirst.{
  keep_first, keep_first-Distinct, contains-keep_first, keep_first-keep_first, keep_first-In,
}

abbrev pub key_of : Symbol → Text
key_of s = s.symbol_key

-- The loop over `seen` and `deduped`.
unfoldable pub dedupe : List Text → List Symbol → List Symbol → List Symbol
unfolding contains
dedupe seen deduped [] = deduped
dedupe seen deduped (symbol ∷ symbols) =
    let old = dedupe seen deduped symbols in
    let new = dedupe (symbol.symbol_key ∷ seen) (deduped ++ symbol ∷ []) symbols in
    if contains symbol.symbol_key seen then old else new

unfoldable pub dedupe_symbols : List Symbol → List Symbol
unfolding dedupe
dedupe_symbols symbols = dedupe [] [] symbols

dedupe-keep_first :
    (seen : List Text) (deduped symbols : List Symbol)
    → dedupe seen deduped symbols ≡ deduped ++ keep_first key_of seen symbols
unfolding dedupe keep_first
dedupe-keep_first seen deduped [] = sym (append-nil deduped)
dedupe-keep_first seen deduped (s ∷ ss) = elim (Bool-cases (contains s.symbol_key seen)) [
  | inl old ↦ rw old (dedupe-keep_first seen deduped ss)
  | inr new ↦ rw new (
      dedupe-keep_first (s.symbol_key ∷ seen) (deduped ++ s ∷ []) ss
      ∙ append_assoc deduped (s ∷ []) (keep_first key_of (s.symbol_key ∷ seen) ss))
]

pub dedupe_symbols-keep_first :
    (symbols : List Symbol) → dedupe_symbols symbols ≡ keep_first key_of [] symbols
unfolding dedupe_symbols
dedupe_symbols-keep_first symbols = dedupe-keep_first [] [] symbols

-- The symbols that are kept have distinct keys, no key of the input is lost, each is one of the
-- input's symbols, and a second pass changes nothing.
pub dedupe_symbols_lem :
    (symbols : List Symbol)
    → Distinct (map key_of (dedupe_symbols symbols))
      × ((k : Text)
          → contains k (map key_of (dedupe_symbols symbols)) ≡ contains k (map key_of symbols))
      × ((s : Symbol) → In s (dedupe_symbols symbols) → In s symbols)
      × (dedupe_symbols (dedupe_symbols symbols) ≡ dedupe_symbols symbols)
dedupe_symbols_lem symbols =
    let same = dedupe_symbols-keep_first symbols in
    rw (same, dedupe_symbols-keep_first (keep_first key_of [] symbols))
      (
        keep_first-Distinct key_of [] symbols,
        λ k. contains-keep_first key_of k [] symbols (unfold contains in refl),
        λ s i. keep_first-In key_of s [] symbols i,
        keep_first-keep_first key_of [] symbols,
      )
