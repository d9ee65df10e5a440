-- ===== src/Rustdoc/Markdown/Sections.antt =====
-- Where the sections of a doc comment begin and end.
use docx_mcp.Base.{
  Bool, true, false, ◌||◌, ◌&&◌, not, some, List, [], ◌∷◌, ◌++◌, ◌≡◌, refl, ap, ◌∙◌, arith,
  if◌then◌else◌, is_none, map, All, append_assoc, append-nil,
}
use docx_mcp.Text.{Text, trim_start, starts_with}
use docx_mcp.Rustdoc.Entries.{fence}
use docx_mcp.Rustdoc.Markdown.{
  SectionScan, section_start, joined, push_line, close_section, open_section, parse_heading,
  scan_section_line, scan_sections, split_section_lines,
}

abbrev pub is_fence : Text → Bool
is_fence line = starts_with (trim_start line) fence

-- Lines without a heading outside of code, which start in code where the flag is set and end outside.
abbrev pub is_body : Bool → List Text → Bool
is_body in_code [] = not in_code
is_body in_code (l ∷ ls) =
    if is_fence l
    then is_body (not in_code) ls
    else (in_code || is_none (parse_heading (trim_start l))) && is_body in_code ls

-- A section: its heading line, the title in that, and the lines up to the next heading.
pub record Part : Type 0 where
  pub heading : Text
  pub title : Text
  pub body : List Text

abbrev pub IsPart : Part → Type 0
IsPart p =
    (is_fence p.heading ≡ false)
    × (parse_heading (trim_start p.heading) ≡ some p.title)
    × (is_body false p.body ≡ true)

abbrev pub part_lines : List Part → List Text
part_lines [] = []
part_lines (p ∷ ps) = p.heading ∷ (p.body ++ part_lines ps)

abbrev pub section_of : Part → Text × Text
section_of p = (p.title, joined p.body)

-- The loop before the first heading, and in a section.
abbrev before : List Text → Bool → SectionScan
before preamble in_code = record section_start { preamble = preamble; in_code = in_code }

abbrev within : List Text → List (Text × Text) → Text → List Text → Bool → SectionScan
within preamble sections title body in_code = record {
  preamble = preamble;
  sections = sections;
  current_title = some title;
  current_body = body;
  in_code = in_code;
}

abbrev result : SectionScan → Text × List (Text × Text)
result s = (joined s.preamble, close_section s.current_title s.current_body s.sections)

-- Whether the loop is in code after a line.
abbrev toggled : Text → Bool → Bool
toggled l in_code = if is_fence l then not in_code else in_code

body_step :
    (l : Text) (ls : List Text) (b : Bool)
    → is_body b (l ∷ ls) ≡ true
    → is_body (toggled l b) ls ≡ true
body_step l ls b h = ground (arith, h)

before_line :
    (l : Text) (ls pre : List Text) (b : Bool)
    → is_body b (l ∷ ls) ≡ true
    → scan_section_line l (before pre b) ≡ before (pre ++ l ∷ []) (toggled l b)
unfolding scan_section_line push_line
before_line l ls pre b h = ground (arith, h)

within_line :
    (l : Text) (ls pre : List Text) (secs : List (Text × Text)) (title : Text) (body : List Text)
    (b : Bool)
    → is_body b (l ∷ ls) ≡ true
    → scan_section_line l (within pre secs title body b)
      ≡ within pre secs title (body ++ l ∷ []) (toggled l b)
unfolding scan_section_line push_line
within_line l ls pre secs title body b h = ground (arith, h)

not-true : (b : Bool) → not b ≡ true → b ≡ false
not-true b h = ground (arith, h)

before_lines :
    (ls rest pre : List Text) (b : Bool)
    → is_body b ls ≡ true
    → scan_sections (ls ++ rest) (before pre b) ≡ scan_sections rest (before (pre ++ ls) false)
unfolding scan_sections
before_lines [] rest pre b h = rw (not-true b h, append-nil) refl
before_lines (l ∷ ls) rest pre b h =
    ap (scan_sections (ls ++ rest)) (before_line l ls pre b h)
    ∙ before_lines ls rest (pre ++ l ∷ []) (toggled l b) (body_step l ls b h)
    ∙ ap (λ t. scan_sections rest (before t false)) (append_assoc pre (l ∷ []) ls)

within_lines :
    (ls rest pre : List Text) (secs : List (Text × Text)) (title : Text) (body : List Text)
    (b : Bool)
    → is_body b ls ≡ true
    → scan_sections (ls ++ rest) (within pre secs title body b)
      ≡ scan_sections rest (within pre secs title (body ++ ls) false)
unfolding scan_sections
within_lines [] rest pre secs title body b h = rw (not-true b h, append-nil) refl
within_lines (l ∷ ls) rest pre secs title body b h =
    ap (scan_sections (ls ++ rest)) (within_line l ls pre secs title body b h)
    ∙ within_lines ls rest pre secs title (body ++ l ∷ []) (toggled l b) (body_step l ls b h)
    ∙ ap (λ t. scan_sections rest (within pre secs title t false)) (append_assoc body (l ∷ []) ls)

heading_within :
    (p : Part) (pre : List Text) (secs : List (Text × Text)) (title : Text) (body : List Text)
    → IsPart p
    → scan_section_line p.heading (within pre secs title body false)
      ≡ within pre (secs ++ (title, joined body) ∷ []) p.title [] false
unfolding scan_section_line open_section
heading_within p pre secs title body (f, t, b) = rw (f, t) refl

heading_before :
    (p : Part) (pre : List Text)
    → IsPart p
    → scan_section_line p.heading (before pre false) ≡ within pre [] p.title [] false
unfolding scan_section_line open_section
heading_before p pre (f, t, b) = rw (f, t) refl

parts_within :
    (ps : List Part) (pre : List Text) (secs : List (Text × Text)) (title : Text) (body : List Text)
    → All IsPart ps
    → result (scan_sections (part_lines ps) (within pre secs title body false))
      ≡ (joined pre, secs ++ (title, joined body) ∷ map section_of ps)
unfolding scan_sections
parts_within [] pre secs title body h = refl
parts_within (p ∷ ps) pre secs title body (hp, h) =
    ap (λ s. result (scan_sections (p.body ++ part_lines ps) s))
      (heading_within p pre secs title body hp)
    ∙ ap result (
        within_lines p.body (part_lines ps) pre (secs ++ (title, joined body) ∷ []) p.title [] false
          hp.2)
    ∙ parts_within ps pre (secs ++ (title, joined body) ∷ []) p.title p.body h
    ∙ ap (λ t. (joined pre, t))
        (append_assoc secs ((title, joined body) ∷ []) (section_of p ∷ map section_of ps))

parts_before :
    (ps : List Part) (pre : List Text)
    → All IsPart ps
    → result (scan_sections (part_lines ps) (before pre false)) ≡ (joined pre, map section_of ps)
unfolding scan_sections
parts_before [] pre h = refl
parts_before (p ∷ ps) pre (hp, h) =
    ap (λ s. result (scan_sections (p.body ++ part_lines ps) s)) (heading_before p pre hp)
    ∙ ap result (within_lines p.body (part_lines ps) pre [] p.title [] false hp.2)
    ∙ parts_within ps pre [] p.title p.body h

-- A doc comment of lines without a heading, followed by sections, is split into these: the text before
-- the first heading, and for each section its title and its text, both trimmed. A line that looks like
-- a heading inside of a code block begins no section.
pub split_section_lines_lem :
    (pre : List Text) (parts : List Part)
    → is_body false pre ≡ true
    → All IsPart parts
    → split_section_lines (pre ++ part_lines parts) ≡ (joined pre, map section_of parts)
unfolding split_section_lines
split_section_lines_lem pre parts h hs =
    ap result (before_lines pre (part_lines parts) [] false h) ∙ parts_before parts pre hs
