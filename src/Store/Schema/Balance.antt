-- ===== src/Store/Schema/Balance.antt =====
-- The markers are balanced after the loop.
use docx_mcp.Base.{
  true, false, List, [], ◌∷◌, ◌≡◌, ◌≢◌, refl, ap, sym, ◌∙◌, arith, nat_eq, list_eq, is_empty,
  Bool-cases, inl, inr,
}
use mathlib.Core.Bool.{xor}
use docx_mcp.Text.{Text, trim, lines}
use docx_mcp.Store.Schema.{
  unbalanced, invalid, Scan, goes_on, stops, scan_line, finish, scan_lines, scan_start,
  split_optional_doc_block_fts_schema,
}
use docx_mcp.Store.Schema.Blocks.{line_cases, step_over}

-- The loop's variables agree: an open block has been started, and outside of one the markers are
-- balanced.
abbrev IsBalanced : Scan → Type 0
IsBalanced s =
    (s.in_block ≡ true → s.found_start ≡ true) × (s.in_block ≡ false → s.found_start ≡ s.found_end)

scan_line-IsBalanced :
    (line : Text) (s s' : Scan) → IsBalanced s → scan_line line s ≡ goes_on s' → IsBalanced s'
unfolding scan_line
scan_line-IsBalanced line s s' b e = ground (arith, b.0, b.1)

scan_line-ne-unbalanced : (line : Text) (s : Scan) → scan_line line s ≢ stops unbalanced
unfolding scan_line
scan_line-ne-unbalanced line s = ground arith

ends :
    (s : Scan)
    → s.in_block ≡ false
    → s.found_start ≡ true
    → s.found_end ≡ true
    → finish s ≢ invalid unbalanced
unfolding finish xor
ends s out f g =
    rw (out, f, g)
      (elim (is_empty (trim s.optional)) [ true ↦ ground arith | false ↦ ground arith ])

ends_plain :
    (s : Scan)
    → s.in_block ≡ false
    → s.found_start ≡ false
    → s.found_end ≡ false
    → finish s ≢ invalid unbalanced
unfolding finish xor
ends_plain s out f g = rw (out, f, g) (ground arith)

finish-ne-unbalanced : (s : Scan) → IsBalanced s → finish s ≢ invalid unbalanced
unfolding finish xor
finish-ne-unbalanced s b = elim (Bool-cases s.in_block) [
  | inl inside_block ↦ ground arith
  | inr out ↦ elim (Bool-cases s.found_start) [
    | inl f ↦ let g : s.found_end ≡ true = sym (b.1 out) ∙ f in ends s out f g
    | inr f ↦ let g : s.found_end ≡ false = sym (b.1 out) ∙ f in ends_plain s out f g
  ]
]

scan_lines-ne-unbalanced :
    (ls : List Text) (s : Scan) → IsBalanced s → scan_lines ls s ≢ invalid unbalanced
unfolding scan_lines
scan_lines-ne-unbalanced [] s b = finish-ne-unbalanced s b
scan_lines-ne-unbalanced (l ∷ ls) s b = elim (line_cases (scan_line l s)) [
  | inl (e, stopped) ↦
      rw (stopped, scan_lines)
        (λ same. scan_line-ne-unbalanced l s (stopped ∙ ap stops (ground arith)))
  | inr (s', on) ↦
      rw (step_over l ls s s' on)
        (scan_lines-ne-unbalanced ls s' (scan_line-IsBalanced l s s' b on))
]

-- The markers are never found unbalanced after the loop: the error for that is unreachable.
pub split_schema-ne-unbalanced :
    (schema : Text) → split_optional_doc_block_fts_schema schema ≢ invalid unbalanced
unfolding split_optional_doc_block_fts_schema
split_schema-ne-unbalanced schema =
    scan_lines-ne-unbalanced (lines schema) scan_start ((λ e. ground arith), (λ e. refl))
