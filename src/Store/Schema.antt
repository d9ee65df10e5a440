-- ===== src/Store/Schema.antt =====
-- `split_optional_doc_block_fts_schema`: the bootstrap schema in two parts.
pub mod Blocks
pub mod Balance
use docx_mcp.Base.{
  Bool, true, false, ◌||◌, not, Option, none, some, List, [], ◌∷◌, ◌++◌, ◌≡◌, ◌≢◌, refl, ap, sym,
  ◌∙◌, arith, if◌then◌else◌, ◌==◌, nat_eq, list_eq, eq_iff, is_empty, All, Bool-cases, ◌⊎◌, inl,
  inr, append_assoc, append-nil, ne_eq, subst,
}
use mathlib.Core.Bool.{xor}
use docx_mcp.Text.{Text, codes, trim, lines}

abbrev pub fts_start : Text
fts_start = codes "-- OPTIONAL_DOC_BLOCK_FTS_START"

abbrev pub fts_end : Text
fts_end = codes "-- OPTIONAL_DOC_BLOCK_FTS_END"

-- The messages of the `InvalidInput` errors.
pub data SchemaError : Type 0 where
  start_repeated end_before_start end_missing unbalanced empty_block : SchemaError

pub data Split : Type 0 where
  parts : Text → Option Text → Split
  invalid : SchemaError → Split

-- The variables of the loop.
pub record Scan : Type 0 where
  pub required : Text
  pub optional : Text
  pub in_block : Bool
  pub found_start : Bool
  pub found_end : Bool

abbrev pub with_newline : Text → Text
with_newline line = line ++ codes "\n"

pub data Line : Type 0 where
  goes_on : Scan → Line
  stops : SchemaError → Line

-- One round of the loop.
unfoldable pub scan_line : Text → Scan → Line
scan_line line s =
    let trimmed = trim line in
    if trimmed == fts_start
    then if s.in_block || s.found_start
      then stops start_repeated
      else goes_on (record s { found_start = true; in_block = true })
    else if trimmed == fts_end
    then if not s.in_block
      then stops end_before_start
      else goes_on (record s { found_end = true; in_block = false })
    else if s.in_block
    then goes_on (record s { optional = s.optional ++ with_newline line })
    else goes_on (record s { required = s.required ++ with_newline line })

-- After the loop.
unfoldable pub finish : Scan → Split
finish s =
    if s.in_block
    then invalid end_missing
    else if xor s.found_start s.found_end
    then invalid unbalanced
    else if not s.found_start
    then parts s.required none
    else if is_empty (trim s.optional)
    then invalid empty_block
    else parts s.required (some (trim s.optional))

unfoldable pub scan_lines : List Text → Scan → Split
unfolding scan_line finish
scan_lines [] s = finish s
scan_lines (line ∷ rest) s = elim (scan_line line s) [
  | stops e ↦ invalid e
  | goes_on s' ↦ scan_lines rest s'
]

abbrev pub scan_start : Scan
scan_start = record {
  required = [];
  optional = [];
  in_block = false;
  found_start = false;
  found_end = false;
}

unfoldable pub split_optional_doc_block_fts_schema : Text → Split
unfolding scan_lines
split_optional_doc_block_fts_schema schema = scan_lines (lines schema) scan_start

-- A line that is no marker.
abbrev pub IsPlain : Text → Type 0
IsPlain line = (trim line ≢ fts_start) × (trim line ≢ fts_end)

-- The lines, each with its line end.
abbrev pub text_of : List Text → Text
text_of [] = []
text_of (line ∷ rest) = with_newline line ++ text_of rest
