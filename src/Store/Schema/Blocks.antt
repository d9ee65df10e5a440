-- ===== src/Store/Schema/Blocks.antt =====
-- What stands in and around the optional block of the schema.
use docx_mcp.Base.{
  true, false, none, some, List, [], ◌∷◌, ◌++◌, ◌≡◌, ◌≢◌, refl, ap, sym, ◌∙◌, arith, if◌then◌else◌,
  nat_eq, list_eq, eq_iff, is_empty, All, ◌⊎◌, inl, inr, append_assoc, append-nil, ne_eq, subst,
}
use mathlib.Core.Bool.{xor}
use docx_mcp.Text.{Text, trim, lines}
use docx_mcp.Store.Schema.{
  fts_start, fts_end, SchemaError, empty_block, parts, invalid, Scan, with_newline, Line, goes_on,
  stops, scan_line, finish, scan_lines, scan_start, split_optional_doc_block_fts_schema, IsPlain,
  text_of,
}

markers_differ : fts_end ≢ fts_start
markers_differ same = ground arith

pub line_cases : (r : Line) → ((e : SchemaError) × (r ≡ stops e)) ⊎ ((s : Scan) × (r ≡ goes_on s))
line_cases (stops e) = inl (e, refl)
line_cases (goes_on s) = inr (s, refl)

plain_outside :
    (line : Text) (s : Scan)
    → IsPlain line
    → s.in_block ≡ false
    → scan_line line s ≡ goes_on (record s { required = s.required ++ with_newline line })
unfolding scan_line
plain_outside line s p out =
    ground (arith, ne_eq (trim line) fts_start p.0, ne_eq (trim line) fts_end p.1)

plain_inside :
    (line : Text) (s : Scan)
    → IsPlain line
    → s.in_block ≡ true
    → scan_line line s ≡ goes_on (record s { optional = s.optional ++ with_newline line })
unfolding scan_line
plain_inside line s p out =
    ground (arith, ne_eq (trim line) fts_start p.0, ne_eq (trim line) fts_end p.1)

pub step_over :
    (line : Text) (rest : List Text) (s s' : Scan)
    → scan_line line s ≡ goes_on s'
    → scan_lines (line ∷ rest) s ≡ scan_lines rest s'
unfolding scan_lines
step_over line rest s s' e = ground arith

outside :
    (ls rest : List Text) (s : Scan)
    → All IsPlain ls
    → s.in_block ≡ false
    → scan_lines (ls ++ rest) s ≡ scan_lines rest (record s { required = s.required ++ text_of ls })
outside [] rest s p out =
    ap (λ t. scan_lines rest (record s { required = t })) (sym (append-nil s.required))
outside (l ∷ ls) rest s (p, ps) out =
    step_over l (ls ++ rest) s _ (plain_outside l s p out)
    ∙ outside ls rest (record s { required = s.required ++ with_newline l }) ps out
    ∙ ap (λ t. scan_lines rest (record s { required = t }))
        (append_assoc s.required (with_newline l) (text_of ls))

inside :
    (ls rest : List Text) (s : Scan)
    → All IsPlain ls
    → s.in_block ≡ true
    → scan_lines (ls ++ rest) s ≡ scan_lines rest (record s { optional = s.optional ++ text_of ls })
inside [] rest s p out =
    ap (λ t. scan_lines rest (record s { optional = t })) (sym (append-nil s.optional))
inside (l ∷ ls) rest s (p, ps) out =
    step_over l (ls ++ rest) s _ (plain_inside l s p out)
    ∙ inside ls rest (record s { optional = s.optional ++ with_newline l }) ps out
    ∙ ap (λ t. scan_lines rest (record s { optional = t }))
        (append_assoc s.optional (with_newline l) (text_of ls))

opens :
    (line : Text) (s : Scan)
    → trim line ≡ fts_start
    → s.in_block ≡ false
    → s.found_start ≡ false
    → scan_line line s ≡ goes_on (record s { found_start = true; in_block = true })
unfolding scan_line
opens line s e out first = ground (arith, eq_iff (trim line) fts_start)

closes :
    (line : Text) (s : Scan)
    → trim line ≡ fts_end
    → s.in_block ≡ true
    → scan_line line s ≡ goes_on (record s { found_end = true; in_block = false })
unfolding scan_line
closes line s e is_in = ground (
  arith,
  eq_iff (trim line) fts_end,
  ne_eq (trim line) fts_start (λ same. markers_differ (sym e ∙ same)),
)

finish_plain :
    (required : Text) → finish (record scan_start { required = required }) ≡ parts required none
unfolding finish xor
finish_plain required = refl

finish_block :
    (required optional : Text)
    → finish (record {
      required = required;
      optional = optional;
      in_block = false;
      found_start = true;
      found_end = true;
    })
      ≡ (if is_empty (trim optional)
          then invalid empty_block
          else parts required (some (trim optional)))
unfolding finish xor
finish_block required optional = refl

-- A schema without markers is required as a whole.
pub split_schema_plain :
    (schema : Text)
    → All IsPlain (lines schema)
    → split_optional_doc_block_fts_schema schema ≡ parts (text_of (lines schema)) none
unfolding split_optional_doc_block_fts_schema
split_schema_plain schema p =
    subst (λ ls. scan_lines ls scan_start ≡ parts (text_of (lines schema)) none)
      (append-nil (lines schema))
      (outside (lines schema) [] scan_start p refl
        ∙ (unfold scan_lines in finish_plain (text_of (lines schema))))

-- Before the start marker, between the markers, and after the end marker.
abbrev before_block : Text → Scan
before_block required = record scan_start { required = required }

abbrev opened : Text → Text → Scan
opened required optional = record {
  required = required;
  optional = optional;
  in_block = true;
  found_start = true;
  found_end = false;
}

abbrev closed : Text → Text → Scan
closed required optional = record {
  required = required;
  optional = optional;
  in_block = false;
  found_start = true;
  found_end = true;
}

-- Where the schema's lines are a start marker and an end marker with lines before, between and after
-- that are no markers: what stands between is optional, trimmed, and what stands around is required;
-- a blank text between is refused.
pub split_schema_block :
    (schema opening closing : Text) (before block after : List Text)
    → lines schema ≡ before ++ (opening ∷ (block ++ (closing ∷ after)))
    → trim opening ≡ fts_start
    → trim closing ≡ fts_end
    → All IsPlain before
    → All IsPlain block
    → All IsPlain after
    → split_optional_doc_block_fts_schema schema ≡ (
        if is_empty (trim (text_of block))
        then invalid empty_block
        else parts (text_of before ++ text_of after) (some (trim (text_of block))))
unfolding split_optional_doc_block_fts_schema
split_schema_block schema opening closing before block after e o c pb pm pa =
    ap (λ ls. scan_lines ls scan_start) e
    ∙ outside before (opening ∷ (block ++ (closing ∷ after))) scan_start pb refl
    ∙ step_over opening (block ++ (closing ∷ after)) (before_block (text_of before))
        (opened (text_of before) []) (opens opening (before_block (text_of before)) o refl refl)
    ∙ inside block (closing ∷ after) (opened (text_of before) []) pm refl
    ∙ step_over closing after (opened (text_of before) (text_of block))
        (closed (text_of before) (text_of block))
        (closes closing (opened (text_of before) (text_of block)) c refl)
    ∙ ap (λ ls. scan_lines ls (closed (text_of before) (text_of block))) (sym (append-nil after))
    ∙ outside after [] (closed (text_of before) (text_of block)) pa refl
    ∙ (unfold scan_lines in finish_block (text_of before ++ text_of after) (text_of block))
