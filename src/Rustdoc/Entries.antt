-- ===== src/Rustdoc/Entries.antt =====
-- What the sections of a doc comment hold: examples, parameters, and links.
use docx_mcp.Base.{
  ℕ, Bool, true, false, ◌||◌, ◌&&◌, not, Option, none, some, List, [], ◌∷◌, ◌++◌, if◌then◌else◌,
  ◌==◌, nat_eq, list_eq, is_empty, filter_map, or_option, unwrap_or, ◌>>=◌,
}
use mathlib.Core.List.{reverse}
use docx_mcp.Text.{
  Text, codes, trim, trim_start, starts_with, strip_prefix, split_once, join, lines,
}
use docx_mcp.Models.{DocParam, DocTypeParam, DocExample, SeeAlso}

abbrev pub fence : Text
fence = codes "```"

-- `trim_start_matches` of one character, and the trimming of both ends.
unfoldable pub drop_while : (ℕ → Bool) → Text → Text
drop_while test [] = []
drop_while test (c ∷ cs) = let rest = drop_while test cs in if test c then rest else c ∷ cs

unfoldable pub trim_matches : ℕ → Text → Text
unfolding drop_while
trim_matches c value = reverse (drop_while (λ d. d == c) (reverse (drop_while (λ d. d == c) value)))

abbrev pub some_unless_blank : Text → Option Text
some_unless_blank part = if is_empty (trim part) then none else some (trim part)

-- The variables of the loop in `extract_examples`.
pub record ExampleScan : Type 0 where
  pub examples : List DocExample
  pub in_code : Bool
  pub current_lang : Option Text
  pub current_code : List Text

abbrev pub example_start : ExampleScan
example_start = record { examples = []; in_code = false; current_lang = none; current_code = [] }

abbrev pub example_of : Option Text → Text → DocExample
example_of lang code = record { lang = lang; code = some code; caption = none }

unfoldable pub close_example : ExampleScan → ExampleScan
close_example s =
    let code = join s.current_code (codes "\n") in
    if is_empty (trim code) then record s { current_code = []; in_code = false } else record s {
      examples = s.examples ++ example_of s.current_lang code ∷ [];
      current_lang = none;
      current_code = [];
      in_code = false;
    }

-- `trim_start_matches("```").trim()`, which drops the mark as often as it stands there.
unfoldable pub drop_fences : Text → Text
drop_fences [] = []
drop_fences (a ∷ []) = a ∷ []
drop_fences (a ∷ (b ∷ [])) = a ∷ b ∷ []
drop_fences (a ∷ (b ∷ (c ∷ rest))) =
    let dropped = drop_fences rest in
    if a == 96 && b == 96 && c == 96 then dropped else a ∷ b ∷ c ∷ rest

unfoldable pub open_example : Text → ExampleScan → ExampleScan
unfolding drop_fences
open_example trimmed s = record s {
  current_lang = some_unless_blank (drop_fences trimmed);
  in_code = true;
}

unfoldable pub scan_example_line : Text → ExampleScan → ExampleScan
unfolding close_example open_example
scan_example_line line s =
    let trimmed = trim_start line in
    if starts_with trimmed fence
    then (if s.in_code then close_example s else open_example trimmed s)
    else if s.in_code
    then record s { current_code = s.current_code ++ line ∷ [] }
    else s

unfoldable pub scan_examples : List Text → ExampleScan → ExampleScan
unfolding scan_example_line
scan_examples [] s = s
scan_examples (line ∷ rest) s = scan_examples rest (scan_example_line line s)

unfoldable pub extract_examples : Text → List DocExample
unfolding scan_examples
extract_examples body =
    let examples = (scan_examples (lines body) example_start).examples in
    if not (is_empty examples)
    then examples
    else if is_empty (trim body)
    then []
    else example_of none (trim body) ∷ []

-- The parts of `item` around the first colon, or else around the first ` - `.
unfoldable pub split_item : Text → Text × Option Text
split_item item = elim (split_once item (codes ":")) [
  | some parts ↦ (parts.0, some parts.1)
  | none ↦ elim (split_once item (codes " - ")) [
    | some parts ↦ (parts.0, some parts.1)
    | none ↦ (item, none)
  ]
]

unfoldable pub split_param_item : Text → Option (Text × Option Text)
unfolding split_item trim_matches
split_param_item item =
    let name = trim_matches 96 (trim (split_item item).0) in
    if is_empty name then none else some (name, (split_item item).1 >>= some_unless_blank)

abbrev pub is_bullet : ℕ → Bool
is_bullet c = c == 45 || c == 42

-- What a line of a list of parameters says.
unfoldable pub bullet_item : Text → Option (Text × Option Text)
unfolding split_param_item drop_while
bullet_item line =
    let trimmed = trim line in
    let item = trim (drop_while is_bullet trimmed) in
    if not (starts_with trimmed (codes "-") || starts_with trimmed (codes "*"))
    then none
    else if is_empty item
    then none
    else split_param_item item

unfoldable pub parse_param_section : Text → List DocParam
unfolding bullet_item
parse_param_section body =
    filter_map
      (λ line.
        bullet_item line >>= λ p. some (record { name = p.0; description = p.1; type_ref = none }))
      (lines body)

unfoldable pub parse_type_param_section : Text → List DocTypeParam
unfolding bullet_item
parse_type_param_section body =
    filter_map (λ line. bullet_item line >>= λ p. some (record { name = p.0; description = p.1 }))
      (lines body)

-- `text.find(ch)` with the text after it
unfoldable pub after_char : ℕ → Text → Option Text
after_char b [] = none
after_char b (c ∷ cs) = let rest = after_char b cs in if c == b then some cs else rest

unfoldable pub parse_markdown_link : Text → Option (Text × Text)
unfolding after_char
parse_markdown_link text = do
  remainder ← after_char 91 text
  parts ← split_once remainder (codes "](")
  closed ← split_once parts.1 (codes ")")
  if is_empty (trim parts.0) || is_empty (trim closed.0)
      then none
      else some (trim parts.0, trim closed.0)

abbrev pub link_to : Text × Text → SeeAlso
link_to pair = record {
  label = some pair.0;
  target = pair.1;
  target_kind = some (codes "markdown");
}

abbrev pub plain_target : Text → SeeAlso
plain_target target = record { label = none; target = target; target_kind = some (codes "text") }

unfoldable pub parse_see_also_line : Text → Option SeeAlso
unfolding parse_markdown_link
parse_see_also_line text =
    if is_empty (trim text) then none else (elim (parse_markdown_link (trim text)) [
      | some pair ↦ some (link_to pair)
      | none ↦ some (plain_target (trim text))
    ])

unfoldable pub see_also_item : Text → Option SeeAlso
unfolding parse_see_also_line
see_also_item line =
    let trimmed = trim line in
    if is_empty trimmed
    then none
    else parse_see_also_line (
        unwrap_or
          (or_option (strip_prefix trimmed (codes "- ")) (strip_prefix trimmed (codes "* ")))
          trimmed)

abbrev pub one_or_none : Option SeeAlso → List SeeAlso
one_or_none none = []
one_or_none (some see) = see ∷ []

unfoldable pub parse_see_also_section : Text → List SeeAlso
unfolding see_also_item
parse_see_also_section body =
    let entries = filter_map see_also_item (lines body) in
    if is_empty entries then one_or_none (parse_see_also_line (trim body)) else entries
