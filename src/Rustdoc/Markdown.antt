-- ===== src/Rustdoc/Markdown.antt =====
-- `parse_markdown_docs` and what it calls: the sections of a doc comment.
pub mod Sections
pub mod Fields
pub mod Links
use docx_mcp.Base.{
  ℕ, Bool, true, false, ◌||◌, ◌&&◌, not, Option, none, some, List, [], ◌∷◌, ◌++◌, if◌then◌else◌,
  ◌==◌, nat_eq, list_eq, is_empty, is_some, filter_map, map, or_option, unwrap_or, ◌>>=◌,
}
use mathlib.Core.List.{reverse}
use docx_mcp.Text.{
  Text, codes, trim, trim_start, trim_end, starts_with, strip_prefix, split_once, find_char, join,
  lines, replace_crlf, to_ascii_lowercase,
}
use docx_mcp.Models.{DocParam, DocTypeParam, DocExample, SeeAlso, DocSection}
use docx_mcp.Rustdoc.Entries.{
  fence, drop_while, trim_matches, some_unless_blank, ExampleScan, example_start, example_of,
  close_example, drop_fences, open_example, scan_example_line, scan_examples, extract_examples,
  split_item, split_param_item, is_bullet, bullet_item, parse_param_section,
  parse_type_param_section, after_char, parse_markdown_link, link_to, plain_target,
  parse_see_also_line, see_also_item, one_or_none, parse_see_also_section,
}

pub record ParsedDocs : Type 0 where
  pub summary : Option Text
  pub remarks : Option Text
  pub returns : Option Text
  pub value : Option Text
  pub errors : Option Text
  pub panics : Option Text
  pub safety : Option Text
  pub deprecated : Option Text
  pub params : List DocParam
  pub type_params : List DocTypeParam
  pub examples : List DocExample
  pub notes : List Text
  pub warnings : List Text
  pub see_also : List SeeAlso
  pub sections : List DocSection

unfoldable pub parse_heading : Text → Option Text
unfolding drop_while
parse_heading line =
    let trimmed = trim line in
    let rest = trim_start (drop_while (λ c. c == 35) trimmed) in
    if not (starts_with trimmed (codes "#"))
    then none
    else if is_empty rest
    then none
    else some rest

-- The variables of the loop in `split_sections`.
pub record SectionScan : Type 0 where
  pub preamble : List Text
  pub sections : List (Text × Text)
  pub current_title : Option Text
  pub current_body : List Text
  pub in_code : Bool

abbrev pub section_start : SectionScan
section_start = record {
  preamble = [];
  sections = [];
  current_title = none;
  current_body = [];
  in_code = false;
}

abbrev pub joined : List Text → Text
joined body = trim (join body (codes "\n"))

unfoldable pub push_line : Text → SectionScan → SectionScan
push_line line s =
    if is_some s.current_title
    then record s { current_body = s.current_body ++ line ∷ [] }
    else record s { preamble = s.preamble ++ line ∷ [] }

abbrev pub close_section : Option Text → List Text → List (Text × Text) → List (Text × Text)
close_section none body sections = sections
close_section (some active) body sections = sections ++ (active, joined body) ∷ []

-- The body is cleared where a section was open; it is empty where none was.
unfoldable pub open_section : Text → SectionScan → SectionScan
open_section title s = record s {
  sections = close_section s.current_title s.current_body s.sections;
  current_title = some title;
  current_body = if is_some s.current_title then [] else s.current_body;
}

-- One round of the loop.
unfoldable pub scan_section_line : Text → SectionScan → SectionScan
unfolding push_line open_section
scan_section_line line s =
    let trimmed = trim_start line in
    if starts_with trimmed fence
    then record (push_line line s) { in_code = not s.in_code }
    else if s.in_code
    then push_line line s
    else (elim (parse_heading trimmed) [
      | some title ↦ open_section title s
      | none ↦ push_line line s
    ])

unfoldable pub scan_sections : List Text → SectionScan → SectionScan
unfolding scan_section_line
scan_sections [] s = s
scan_sections (line ∷ rest) s = scan_sections rest (scan_section_line line s)

unfoldable pub split_section_lines : List Text → Text × List (Text × Text)
unfolding scan_sections
split_section_lines doc =
    let s = scan_sections doc section_start in
    (joined s.preamble, close_section s.current_title s.current_body s.sections)

unfoldable pub split_sections : Text → Text × List (Text × Text)
unfolding split_section_lines
split_sections doc = split_section_lines (lines doc)

-- `split("\n\n")`
unfoldable pub split_paragraphs : Text → List Text
split_paragraphs [] = [] ∷ []
split_paragraphs (c ∷ []) = (c ∷ []) ∷ []
split_paragraphs (c ∷ (d ∷ rest)) =
    let after = split_paragraphs rest in
    let next = split_paragraphs (d ∷ rest) in
    if c == 10 && d == 10
    then [] ∷ after
    else (elim next [ [] ↦ (c ∷ []) ∷ [] | p ∷ ps ↦ (c ∷ p) ∷ ps ])

abbrev pub summary_remarks : List Text → Option Text × Option Text
summary_remarks [] = (none, none)
summary_remarks (p ∷ ps) =
    (some p, (if is_empty (join ps (codes "\n\n")) then none else some (join ps (codes "\n\n"))))

unfoldable pub split_summary_remarks : Text → Option Text × Option Text
unfolding split_paragraphs
split_summary_remarks preamble =
    summary_remarks (filter_map some_unless_blank (split_paragraphs preamble))

-- What the title of a section, trimmed and in lower case, stands for.
pub data SectionKind : Type 0 where
  errors panics safety returns value deprecated examples notes warnings see_also params type_params
        other :
      SectionKind

unfoldable pub section_kind : Text → SectionKind
section_kind title =
    let t = to_ascii_lowercase (trim title) in
    if t == codes "errors"
    then errors
    else if t == codes "panics"
    then panics
    else if t == codes "safety"
    then safety
    else if t == codes "returns"
    then returns
    else if t == codes "value"
    then value
    else if t == codes "deprecated"
    then deprecated
    else if t == codes "examples" || t == codes "example"
    then examples
    else if t == codes "notes" || t == codes "note"
    then notes
    else if t == codes "warnings" || t == codes "warning"
    then warnings
    else if t == codes "see also" || (t == codes "seealso" || t == codes "see-also")
    then see_also
    else if t == codes "arguments"
        || (t == codes "args" || (t == codes "parameters" || t == codes "params"))
    then params
    else if t == codes "type parameters"
        || (t == codes "type params" || (t == codes "typeparam" || t == codes "typeparams"))
    then type_params
    else other

-- The `match` on the title.
unfoldable pub put_section : SectionKind → Text → Text → ParsedDocs → ParsedDocs
put_section errors title body p = record p { errors = some body }
put_section panics title body p = record p { panics = some body }
put_section safety title body p = record p { safety = some body }
put_section returns title body p = record p { returns = some body }
put_section value title body p = record p { value = some body }
put_section deprecated title body p = record p { deprecated = some body }
put_section examples title body p = record p { examples = extract_examples body }
put_section notes title body p = record p { notes = p.notes ++ body ∷ [] }
put_section warnings title body p = record p { warnings = p.warnings ++ body ∷ [] }
put_section see_also title body p = record p { see_also = parse_see_also_section body }
put_section params title body p = record p { params = parse_param_section body }
put_section type_params title body p = record p { type_params = parse_type_param_section body }
put_section other title body p = record p {
  sections = p.sections ++ record { title = title; body = body } ∷ [];
}

unfoldable pub add_sections : List (Text × Text) → ParsedDocs → ParsedDocs
unfolding put_section section_kind
add_sections [] p = p
add_sections ((title, body) ∷ rest) p =
    add_sections rest
      (if is_empty (trim body) then p else put_section (section_kind title) title (trim body) p)

abbrev pub no_docs : Option Text × Option Text → ParsedDocs
no_docs (summary, remarks) = record {
  summary = summary;
  remarks = remarks;
  returns = none;
  value = none;
  errors = none;
  panics = none;
  safety = none;
  deprecated = none;
  params = [];
  type_params = [];
  examples = [];
  notes = [];
  warnings = [];
  see_also = [];
  sections = [];
}

unfoldable pub parse_markdown_docs : Text → ParsedDocs
unfolding split_sections split_summary_remarks add_sections
parse_markdown_docs raw =
    let (preamble, sections) = split_sections (replace_crlf raw) in
    add_sections sections (no_docs (split_summary_remarks preamble))
