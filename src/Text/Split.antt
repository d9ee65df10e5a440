-- ===== src/Text/Split.antt =====
-- Splitting, joining and searching.
use mathlib.Core.List.{reverse}
use docx_mcp.Base.{
  ℕ, Bool, false, ◌&&◌, ◌||◌, Option, none, some, List, [], ◌∷◌, ◌++◌, ◌≡◌, ◌+◌, arith, leb, ◌==◌,
  if◌then◌else◌, map, nat_eq, inl, inr, Option-cases,
}
use docx_mcp.Text.Trim.{Text, strip_prefix, strip_prefix_sound}

-- `parts.join(sep)`
unfoldable pub join : List Text → Text → Text
join [] sep = []
join (p ∷ []) sep = p
join (p ∷ q ∷ ps) sep = p ++ (sep ++ join (q ∷ ps) sep)

-- `value.split_once(sep)` for a separator that is not empty: the parts around its first occurrence.
unfoldable pub split_once : Text → Text → Option (Text × Text)
unfolding strip_prefix
split_once [] sep = none
split_once (c ∷ s) sep = elim (strip_prefix (c ∷ s) sep) [
  | some rest ↦ some ([], rest)
  | none ↦ elim (split_once s sep) [ none ↦ none | some pair ↦ some (c ∷ pair.0, pair.1) ]
]

-- `value.rsplit_once(sep)`: the parts around its last occurrence.
unfoldable pub rsplit_once : Text → Text → Option (Text × Text)
unfolding split_once
rsplit_once s sep = elim (split_once (reverse s) (reverse sep)) [
  | none ↦ none
  | some pair ↦ some (reverse pair.1, reverse pair.0)
]

-- `value.find(|ch| test)`, as the parts before the character and from it on.
unfoldable pub find_char : (ℕ → Bool) → Text → Option (Text × Text)
find_char test [] = none
find_char test (c ∷ s) =
    let rest = find_char test s in
    if test c
    then some ([], c ∷ s)
    else (elim rest [ none ↦ none | some pair ↦ some (c ∷ pair.0, pair.1) ])

unfoldable pub contains_char : ℕ → Text → Bool
contains_char b [] = false
contains_char b (c ∷ s) = c == b || contains_char b s

-- The parts of a text between the characters of a class; there is always one.
unfoldable pub split_on : (ℕ → Bool) → Text → List Text
split_on test [] = [] ∷ []
split_on test (c ∷ s) =
    let rest = split_on test s in
    if test c then [] ∷ rest else (elim rest [ [] ↦ (c ∷ []) ∷ [] | p ∷ ps ↦ (c ∷ p) ∷ ps ])

-- A line without the `\r` that `lines` drops with the line end.
unfoldable pub drop_cr : Text → Text
drop_cr [] = []
drop_cr (c ∷ []) = if c == b'\r' then [] else c ∷ []
drop_cr (c ∷ d ∷ s) = c ∷ drop_cr (d ∷ s)

-- The pieces of `split_inclusive('\n')` without their line ends: a last empty piece is no line, and
-- only a line that had its `\n` loses a `\r`.
unfoldable pub end_lines : List Text → List Text
unfolding drop_cr
end_lines [] = []
end_lines ([] ∷ []) = []
end_lines ((c ∷ s) ∷ []) = (c ∷ s) ∷ []
end_lines (p ∷ q ∷ ps) = drop_cr p ∷ end_lines (q ∷ ps)

-- `value.lines()`
unfoldable pub lines : Text → List Text
unfolding split_on end_lines
lines s = end_lines (split_on (λ c. c == b'\n') s)

unfoldable pub to_ascii_lowercase : Text → Text
to_ascii_lowercase = map (λ c. if leb b'A' c && leb c b'Z' then c + 32 else c)

-- `value.replace("\r\n", "\n")`
unfoldable pub replace_crlf : Text → Text
replace_crlf [] = []
replace_crlf (c ∷ []) = c ∷ []
replace_crlf (c ∷ d ∷ s) =
    let skip = replace_crlf (d ∷ s) in if c == b'\r' && d == b'\n' then skip else c ∷ skip

-- The parts spell the text.
pub split_once_sound : (s sep a b : Text) → split_once s sep ≡ some (a, b) → s ≡ a ++ (sep ++ b)
unfolding split_once
split_once_sound [] sep a b h = cc
split_once_sound (c ∷ s) sep a b h = elim (Option-cases (strip_prefix (c ∷ s) sep)) [
  | inl miss ↦ elim (Option-cases (split_once s sep)) [
    | inl stop ↦ ground arith
    | inr (pair, found) ↦ ground (arith, split_once_sound s sep pair.0 pair.1)
  ]
  | inr (rest, found) ↦ ground (arith, strip_prefix_sound (c ∷ s) sep rest)
]
