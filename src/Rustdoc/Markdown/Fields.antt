-- ===== src/Rustdoc/Markdown/Fields.antt =====
-- What the sections of a doc comment become.
use docx_mcp.Base.{
  Bool, true, false, ◌&&◌, not, Option, none, some, List, [], ◌∷◌, ◌++◌, ◌≡◌, refl, ap, sym, ◌∙◌,
  if◌then◌else◌, is_empty, map, filter_map, All, Bool-cases, inl, inr, append_assoc, append-nil,
  subst,
}
use docx_mcp.Text.{Text, trim, lines, replace_crlf}
use docx_mcp.Models.{DocSection}
use docx_mcp.Rustdoc.Markdown.{
  ParsedDocs, SectionKind, errors, panics, safety, returns, value, deprecated, examples, notes,
  warnings, see_also, params, type_params, other, joined, section_kind, put_section, add_sections,
  no_docs, parse_markdown_docs, split_sections, split_section_lines, split_summary_remarks,
}
use docx_mcp.Rustdoc.Markdown.Sections.{
  Part, IsPart, is_body, part_lines, section_of, split_section_lines_lem,
}

abbrev is_errors : SectionKind → Bool
is_errors errors = true
is_errors _ = false

abbrev is_panics : SectionKind → Bool
is_panics panics = true
is_panics _ = false

abbrev is_safety : SectionKind → Bool
is_safety safety = true
is_safety _ = false

abbrev is_returns : SectionKind → Bool
is_returns returns = true
is_returns _ = false

abbrev is_value : SectionKind → Bool
is_value value = true
is_value _ = false

abbrev is_deprecated : SectionKind → Bool
is_deprecated deprecated = true
is_deprecated _ = false

abbrev is_notes : SectionKind → Bool
is_notes notes = true
is_notes _ = false

abbrev is_warnings : SectionKind → Bool
is_warnings warnings = true
is_warnings _ = false

abbrev is_other : SectionKind → Bool
is_other other = true
is_other _ = false

-- The section counts for a test of its kind: it does not where its text is blank.
abbrev counts : (SectionKind → Bool) → Text × Text → Bool
counts test (title, body) = not (is_empty (trim body)) && test (section_kind title)

-- The text of the last section that counts, or the old one.
abbrev pub last_body : (SectionKind → Bool) → List (Text × Text) → Option Text → Option Text
last_body test [] old = old
last_body test (s ∷ rest) old = last_body test rest (if counts test s then some (trim s.1) else old)

-- The texts of all sections that count, in order; and the sections themselves.
abbrev pub bodies : (SectionKind → Bool) → List (Text × Text) → List Text
bodies test = filter_map (λ s. if counts test s then some (trim s.1) else none)

abbrev pub others : List (Text × Text) → List DocSection
others =
    filter_map
      (λ s. if counts is_other s then some (record { title = s.0; body = trim s.1 }) else none)

-- What the sections make of the fields, from the fields before.
pub record IsFilled (secs : List (Text × Text)) (p q : ParsedDocs) : Type 0 where
  pub summary : q.summary ≡ p.summary
  pub remarks : q.remarks ≡ p.remarks
  pub errors : q.errors ≡ last_body is_errors secs p.errors
  pub panics : q.panics ≡ last_body is_panics secs p.panics
  pub safety : q.safety ≡ last_body is_safety secs p.safety
  pub returns : q.returns ≡ last_body is_returns secs p.returns
  pub value : q.value ≡ last_body is_value secs p.value
  pub deprecated : q.deprecated ≡ last_body is_deprecated secs p.deprecated
  pub notes : q.notes ≡ p.notes ++ bodies is_notes secs
  pub warnings : q.warnings ≡ p.warnings ++ bodies is_warnings secs
  pub sections : q.sections ≡ p.sections ++ others secs

put_step :
    (k : SectionKind) (title body : Text) (p : ParsedDocs)
    → let q = put_section k title body p in
      (q.summary ≡ p.summary)
      × (q.remarks ≡ p.remarks)
      × (q.errors ≡ (if is_errors k then some body else p.errors))
      × (q.panics ≡ (if is_panics k then some body else p.panics))
      × (q.safety ≡ (if is_safety k then some body else p.safety))
      × (q.returns ≡ (if is_returns k then some body else p.returns))
      × (q.value ≡ (if is_value k then some body else p.value))
      × (q.deprecated ≡ (if is_deprecated k then some body else p.deprecated))
      × (q.notes ≡ (if is_notes k then p.notes ++ body ∷ [] else p.notes))
      × (q.warnings ≡ (if is_warnings k then p.warnings ++ body ∷ [] else p.warnings))
      × (q.sections ≡ (
          if is_other k
          then p.sections ++ record { title = title; body = body } ∷ []
          else p.sections))
unfolding put_section
put_step errors title body p = (refl, refl, refl, refl, refl, refl, refl, refl, refl, refl, refl)
put_step panics title body p = (refl, refl, refl, refl, refl, refl, refl, refl, refl, refl, refl)
put_step safety title body p = (refl, refl, refl, refl, refl, refl, refl, refl, refl, refl, refl)
put_step returns title body p = (refl, refl, refl, refl, refl, refl, refl, refl, refl, refl, refl)
put_step value title body p = (refl, refl, refl, refl, refl, refl, refl, refl, refl, refl, refl)
put_step deprecated title body p =
    (refl, refl, refl, refl, refl, refl, refl, refl, refl, refl, refl)
put_step examples title body p = (refl, refl, refl, refl, refl, refl, refl, refl, refl, refl, refl)
put_step notes title body p = (refl, refl, refl, refl, refl, refl, refl, refl, refl, refl, refl)
put_step warnings title body p = (refl, refl, refl, refl, refl, refl, refl, refl, refl, refl, refl)
put_step see_also title body p = (refl, refl, refl, refl, refl, refl, refl, refl, refl, refl, refl)
put_step params title body p = (refl, refl, refl, refl, refl, refl, refl, refl, refl, refl, refl)
put_step type_params title body p =
    (refl, refl, refl, refl, refl, refl, refl, refl, refl, refl, refl)
put_step other title body p = (refl, refl, refl, refl, refl, refl, refl, refl, refl, refl, refl)

-- A field that only the last section of one kind sets, and one to which every section of its kind adds.
last_field :
    (test : SectionKind → Bool) (get : ParsedDocs → Option Text)
    → ((k : SectionKind) (title body : Text) (p : ParsedDocs)
        → get (put_section k title body p) ≡ (if test k then some body else get p))
    → (secs : List (Text × Text)) (p : ParsedDocs)
    → get (add_sections secs p) ≡ last_body test secs (get p)
unfolding add_sections
last_field test get step [] p = refl
last_field test get step ((title, body) ∷ rest) p = elim (Bool-cases (is_empty (trim body))) [
  | inl blank ↦ rw (blank) (last_field test get step rest p)
  | inr full ↦ rw (full) (
      last_field test get step rest (put_section (section_kind title) title (trim body) p)
      ∙ ap (last_body test rest) (step (section_kind title) title (trim body) p))
]

same_field :
    (get : ParsedDocs → Option Text)
    → ((k : SectionKind) (title body : Text) (p : ParsedDocs)
        → get (put_section k title body p) ≡ get p)
    → (secs : List (Text × Text)) (p : ParsedDocs) → get (add_sections secs p) ≡ get p
unfolding add_sections
same_field get step [] p = refl
same_field get step ((title, body) ∷ rest) p = elim (Bool-cases (is_empty (trim body))) [
  | inl blank ↦ rw (blank) (same_field get step rest p)
  | inr full ↦ rw (full) (
      same_field get step rest (put_section (section_kind title) title (trim body) p)
      ∙ step (section_kind title) title (trim body) p)
]

all_field :
    {A : Type 0} (test : SectionKind → Bool) (get : ParsedDocs → List A) (of : Text → Text → A)
    → ((k : SectionKind) (title body : Text) (p : ParsedDocs)
        → get (put_section k title body p)
          ≡ (if test k then get p ++ of title body ∷ [] else get p))
    → (secs : List (Text × Text)) (p : ParsedDocs)
    → get (add_sections secs p)
      ≡ get p ++ filter_map (λ s. if counts test s then some (of s.0 (trim s.1)) else none) secs
unfolding add_sections
all_field test get of step [] p = sym (append-nil (get p))
all_field test get of step ((title, body) ∷ rest) p = elim (Bool-cases (is_empty (trim body))) [
  | inl blank ↦ rw (blank, filter_map) (all_field test get of step rest p)
  | inr full ↦ elim (Bool-cases (test (section_kind title))) [
    | inl same ↦
        rw (full, same, filter_map)
          (all_field test get of step rest (put_section (section_kind title) title (trim body) p)
            ∙ ap
                (λ t.
                  t
                  ++ filter_map (λ s. if counts test s then some (of s.0 (trim s.1)) else none)
                      rest)
                (put_same title body p same)
            ∙ append_assoc (get p) (of title (trim body) ∷ []) _)
    | inr differs ↦
        rw (full, differs, filter_map)
          (all_field test get of step rest (put_section (section_kind title) title (trim body) p)
            ∙ ap
                (λ t.
                  t
                  ++ filter_map (λ s. if counts test s then some (of s.0 (trim s.1)) else none)
                      rest)
                (put_other title body p differs))
  ]
]
  where
    put_same :
        (title body : Text) (p : ParsedDocs)
        → test (section_kind title) ≡ true
        → get (put_section (section_kind title) title (trim body) p)
          ≡ get p ++ of title (trim body) ∷ []
    put_same title body p same =
        step (section_kind title) title (trim body) p
        ∙ ap (λ b. if b then get p ++ of title (trim body) ∷ [] else get p) same

    put_other :
        (title body : Text) (p : ParsedDocs)
        → test (section_kind title) ≡ false
        → get (put_section (section_kind title) title (trim body) p) ≡ get p
    put_other title body p differs =
        step (section_kind title) title (trim body) p
        ∙ ap (λ b. if b then get p ++ of title (trim body) ∷ [] else get p) differs

-- The loop over the sections fills the fields.
add_sections-IsFilled :
    (secs : List (Text × Text)) (p : ParsedDocs) → IsFilled secs p (add_sections secs p)
add_sections-IsFilled secs p = record {
  summary = same_field (λ q. q.summary) (λ k t b q. (put_step k t b q).0) secs p;
  remarks = same_field (λ q. q.remarks) (λ k t b q. (put_step k t b q).1) secs p;
  errors = last_field is_errors (λ q. q.errors) (λ k t b q. (put_step k t b q).2) secs p;
  panics = last_field is_panics (λ q. q.panics) (λ k t b q. (put_step k t b q).3) secs p;
  safety = last_field is_safety (λ q. q.safety) (λ k t b q. (put_step k t b q).4) secs p;
  returns = last_field is_returns (λ q. q.returns) (λ k t b q. (put_step k t b q).5) secs p;
  value = last_field is_value (λ q. q.value) (λ k t b q. (put_step k t b q).6) secs p;
  deprecated =
      last_field is_deprecated (λ q. q.deprecated) (λ k t b q. (put_step k t b q).7) secs p;
  notes = all_field is_notes (λ q. q.notes) (λ t b. b) (λ k t b q. (put_step k t b q).8) secs p;
  warnings =
      all_field is_warnings (λ q. q.warnings) (λ t b. b) (λ k t b q. (put_step k t b q).9) secs p;
  sections =
      all_field is_other (λ q. q.sections) (λ t b. record { title = t; body = b })
        (λ k t b q. (put_step k t b q).10) secs p;
}

-- A doc comment of a preamble without headings and then sections is parsed into the summary and the
-- remarks of the preamble, and for each kind of section into its trimmed text: that of the last section of the
-- kind for errors, panics, safety, returns, value and deprecated, those of all of them in order for
-- notes and warnings, and title and text of each section of another title. A section
-- with a blank text counts for nothing.
pub parse_markdown_docs-IsFilled :
    (raw : Text) (pre : List Text) (parts : List Part)
    → lines (replace_crlf raw) ≡ pre ++ part_lines parts
    → is_body false pre ≡ true
    → All IsPart parts
    → IsFilled
        (map section_of parts)
        (no_docs (split_summary_remarks (joined pre)))
        (parse_markdown_docs raw)
unfolding parse_markdown_docs split_sections
parse_markdown_docs-IsFilled raw pre parts e h hs =
    subst
      (λ (t : Text × List (Text × Text)).
        IsFilled (map section_of parts) (no_docs (split_summary_remarks (joined pre)))
          (add_sections t.1 (no_docs (split_summary_remarks t.0))))
      (sym (ap split_section_lines e ∙ split_section_lines_lem pre parts h hs))
      (add_sections-IsFilled (map section_of parts) (no_docs (split_summary_remarks (joined pre))))
