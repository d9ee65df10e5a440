-- ===== src/Store/Glob.antt =====
-- The search patterns of crates/lib/docx-core/src/store/surreal.rs: `normalize_pattern` and
-- `glob_to_regex_body`.
use docx_mcp.Base.{
  ℕ, false, ◌||◌, Option, none, some, List, [], ◌∷◌, ◌++◌, ◌≡◌, ◌∙◌, refl, arith, Bool, true,
  if◌then◌else◌, ◌==◌, nat_eq, is_empty, map, Bool-cases, inl, inr,
}
use docx_mcp.Text.{Text, codes, trim}
use docx_mcp.Collections.HashSet.{contains}

-- `to_lowercase` of the Rust standard library follows the Unicode tables, which are not in the
-- repository.
unfoldable pub normalize_pattern : (Text → Text) → Text → Option Text
normalize_pattern to_lowercase pattern =
    let trimmed = to_lowercase (trim pattern) in if is_empty trimmed then none else some trimmed

abbrev pub escaped_chars : Text
escaped_chars = codes ".+?()[]{}|^$\\"

unfoldable pub glob_char : ℕ → Text
unfolding contains
glob_char c =
    if c == 42 then codes ".*" else if contains c escaped_chars then 92 ∷ c ∷ [] else c ∷ []

unfoldable pub glob_to_regex_body : Text → Text
unfolding glob_char
glob_to_regex_body [] = []
glob_to_regex_body (c ∷ cs) = glob_char c ++ glob_to_regex_body cs

-- A piece of a regular expression: `.*` matches any text without a line feed, and a literal the
-- one character.
pub data Piece : Type 0 where
  any_line_text : Piece
  literal : ℕ → Piece

abbrev pub piece : ℕ → Piece
piece c = if c == 42 then any_line_text else literal c

-- The operators of a regular expression: `\ . + * ? ( ) | [ ] { } ^ $`.
abbrev pub is_operator : ℕ → Bool
is_operator c =
    c == 92
    || c == 46
    || c == 43
    || c == 42
    || c == 63
    || c == 40
    || c == 41
    || c == 124
    || c == 91
    || c == 93
    || c == 123
    || c == 125
    || c == 94
    || c == 36

abbrev prepend : Piece → Option (List Piece) → Option (List Piece)
prepend p none = none
prepend p (some ps) = some (p ∷ ps)

-- Reads a regular expression made of `.*`, operators after a `\` and other characters; none for any
-- other use of an operator, and for a `\` before a character that is none.
unfoldable pub read_regex : Text → Option (List Piece)
read_regex [] = some []
read_regex (c ∷ []) = if is_operator c then none else some (literal c ∷ [])
read_regex (c ∷ d ∷ rest) =
    let after_two = read_regex rest in
    let after_one = read_regex (d ∷ rest) in
    if c == 46
    then (if d == 42 then prepend any_line_text after_two else none)
    else if c == 92
    then (if is_operator d then prepend (literal d) after_two else none)
    else (if is_operator c then none else prepend (literal c) after_one)

read_regex-any :
    (rest : Text) → read_regex (46 ∷ 42 ∷ rest) ≡ prepend any_line_text (read_regex rest)
unfolding read_regex
read_regex-any rest = refl

read_regex-escaped :
    (c : ℕ) (rest : Text)
    → is_operator c ≡ true
    → read_regex (92 ∷ c ∷ rest) ≡ prepend (literal c) (read_regex rest)
unfolding read_regex
read_regex-escaped c rest h = rw h refl

read_regex-ordinary :
    (c : ℕ) (rest : Text)
    → is_operator c ≡ false
    → read_regex (c ∷ rest) ≡ prepend (literal c) (read_regex rest)
unfolding read_regex
read_regex-ordinary c [] plain = rw plain refl
read_regex-ordinary c (d ∷ rest) plain = ground arith

-- The characters that are escaped are the operators but `*`.
operator-escaped : (c : ℕ) → (c == 42) ≡ false → is_operator c ≡ contains c escaped_chars
unfolding contains
operator-escaped c other = ground arith

-- The regular expression of a pattern reads back as the pattern: each `*` matches any text without a
-- line feed, every other character matches itself, and no operator is left in it that is not escaped.
pub glob_to_regex_body-pieces :
    (pattern : Text) → read_regex (glob_to_regex_body pattern) ≡ some (map piece pattern)
unfolding glob_to_regex_body
glob_to_regex_body-pieces [] = unfold read_regex in refl
glob_to_regex_body-pieces (c ∷ cs) = elim (Bool-cases (c == 42)) [
  | inl star ↦ rw (star, read_regex-any (glob_to_regex_body cs), glob_to_regex_body-pieces cs) refl
  | inr other ↦ elim (Bool-cases (contains c escaped_chars)) [
    | inl special ↦
        rw
          (
            other,
            special,
            read_regex-escaped c (glob_to_regex_body cs) (operator-escaped c other ∙ special),
            glob_to_regex_body-pieces cs,
          )
          refl
    | inr plain ↦
        rw
          (
            other,
            plain,
            read_regex-ordinary c (glob_to_regex_body cs) (operator-escaped c other ∙ plain),
            glob_to_regex_body-pieces cs,
          )
          refl
  ]
]
