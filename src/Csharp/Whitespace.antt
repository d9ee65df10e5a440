-- ===== src/Csharp/Whitespace.antt =====
-- `collapse_whitespace`, `needs_space` and `cleanup_text`: the white space of documentation text.
use docx_mcp.Base.{
  ℕ, Bool, true, false, ◌&&◌, ◌||◌, not, Option, none, some, List, [], ◌∷◌, ◌≡◌, ◌↔◌, refl, sym, ap,
  ◌∙◌, arith, if◌then◌else◌, ◌==◌, nat_eq, is_empty,
}
use mathlib.Core.List.{reverse}
use docx_mcp.Text.{
  Text, codes, is_whitespace, trim, trim_start, trim_end, starts_with, lines, replace_crlf, join,
}

-- The loop of `collapse_whitespace`; the flag is `last_was_space`.
unfoldable pub collapse_from : Bool → Text → Text
collapse_from last_was_space [] = []
collapse_from last_was_space (c ∷ cs) =
    let spaced = collapse_from true cs in
    let plain = collapse_from false cs in
    if is_whitespace c then (if last_was_space then spaced else 32 ∷ spaced) else c ∷ plain

unfoldable pub collapse_whitespace : Text → Text
unfolding collapse_from
collapse_whitespace value = collapse_from false value

-- The lines of the loop in `cleanup_text`; the flag is `in_code_block`.
unfoldable pub cleanup_lines : Bool → List Text → List Text
unfolding collapse_whitespace
cleanup_lines in_code_block [] = []
cleanup_lines in_code_block (line ∷ rest) =
    let trimmed = trim_end line in
    let toggled = cleanup_lines (not in_code_block) rest in
    let same = cleanup_lines in_code_block rest in
    if starts_with (trim_start trimmed) (codes "```")
    then trimmed ∷ toggled
    else if in_code_block
    then trimmed ∷ same
    else trim (collapse_whitespace trimmed) ∷ same

-- `while lines.first() is empty { lines.remove(0) }`
unfoldable pub drop_blank : List Text → List Text
drop_blank [] = []
drop_blank (line ∷ rest) =
    let dropped = drop_blank rest in if is_empty line then dropped else line ∷ rest

unfoldable pub cleanup_text : Text → Text
unfolding cleanup_lines drop_blank
cleanup_text value =
    join
      (reverse
        (drop_blank (reverse (drop_blank (cleanup_lines false (lines (replace_crlf value)))))))
      (codes "\n")

-- Whether white space stands only as single blanks, none of them first where the flag is set.
abbrev pub is_collapsed : Bool → Text → Bool
is_collapsed last_was_space [] = true
is_collapsed last_was_space (c ∷ cs) =
    if is_whitespace c
    then (not last_was_space && c == 32) && is_collapsed true cs
    else is_collapsed false cs

-- The characters that are no white space.
abbrev pub visible : Text → Text
visible [] = []
visible (c ∷ cs) = if is_whitespace c then visible cs else c ∷ visible cs

blank_is_whitespace : is_whitespace 32 ≡ true
unfolding is_whitespace
blank_is_whitespace = refl

collapse_from-is_collapsed :
    (last_was_space : Bool) (value : Text)
    → is_collapsed last_was_space (collapse_from last_was_space value) ≡ true
unfolding collapse_from
collapse_from-is_collapsed l [] = refl
collapse_from-is_collapsed l (c ∷ cs) = ground (
  arith,
  collapse_from-is_collapsed true cs,
  collapse_from-is_collapsed false cs,
  blank_is_whitespace,
)

visible-collapse_from :
    (last_was_space : Bool) (value : Text)
    → visible (collapse_from last_was_space value) ≡ visible value
unfolding collapse_from
visible-collapse_from l [] = refl
visible-collapse_from l (c ∷ cs) =
    ground
      (arith, visible-collapse_from true cs, visible-collapse_from false cs, blank_is_whitespace)

collapse_from-collapsed :
    (last_was_space : Bool) (value : Text)
    → is_collapsed last_was_space value ≡ true
    → collapse_from last_was_space value ≡ value
unfolding collapse_from
collapse_from-collapsed l [] h = refl
collapse_from-collapsed l (c ∷ cs) h =
    ground (arith, collapse_from-collapsed true cs, collapse_from-collapsed false cs)

-- The characters that are no white space and the end, each with whether white space stands right
-- before it.
abbrev pub gaps : Bool → Text → List (Bool × Option ℕ)
gaps gap [] = (gap, none) ∷ []
gaps gap (c ∷ cs) = if is_whitespace c then gaps true cs else (gap, some c) ∷ gaps false cs

gaps-collapse_from :
    (last_was_space gap : Bool) (value : Text)
    → (not last_was_space || gap) ≡ true
    → gaps gap (collapse_from last_was_space value) ≡ gaps gap value
unfolding collapse_from
gaps-collapse_from l gap [] h = refl
gaps-collapse_from l gap (c ∷ cs) h =
    ground (
      arith,
      gaps-collapse_from true true cs,
      gaps-collapse_from false false cs,
      blank_is_whitespace,
    )

-- Collapsing keeps every character that is no white space, in order, and puts white space before one
-- of them, or at the end, exactly where there was some; the white space it leaves are single blanks;
-- the texts it does not change are exactly those of that form; and so doing it twice is doing it once.
pub collapse_whitespace_lem :
    (value : Text)
    → (visible (collapse_whitespace value) ≡ visible value)
      × (gaps false (collapse_whitespace value) ≡ gaps false value)
      × (is_collapsed false (collapse_whitespace value) ≡ true)
      × ((is_collapsed false value ≡ true) ↔ (collapse_whitespace value ≡ value))
      × (collapse_whitespace (collapse_whitespace value) ≡ collapse_whitespace value)
unfolding collapse_whitespace
collapse_whitespace_lem value = (
  visible-collapse_from false value,
  gaps-collapse_from false false value refl,
  collapse_from-is_collapsed false value,
  (
    collapse_from-collapsed false value,
    λ e. ap (is_collapsed false) (sym e) ∙ collapse_from-is_collapsed false value,
  ),
  collapse_from-collapsed false (collapse_from false value)
      (collapse_from-is_collapsed false value),
)
