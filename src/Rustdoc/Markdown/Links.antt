-- ===== src/Rustdoc/Markdown/Links.antt =====
-- Links in a doc comment.
use docx_mcp.Base.{
  ℕ, false, ◌||◌, Option, none, some, [], ◌∷◌, ◌++◌, ◌≡◌, refl, ap, ◌∙◌, arith, if◌then◌else◌,
  nat_eq, is_empty, ◌>>=◌, eq_refl,
}
use docx_mcp.Text.{Text, codes, trim, split_once, contains_char, strip_prefix-append}
use docx_mcp.Rustdoc.Entries.{after_char, parse_markdown_link}

after_char-append :
    (b : ℕ) (s rest : Text) → contains_char b s ≡ false → after_char b (s ++ b ∷ rest) ≡ some rest
unfolding after_char contains_char
after_char-append b [] rest h = rw (eq_refl b) refl
after_char-append b (c ∷ s) rest h = ground (arith, after_char-append b s rest)

-- The text is split where the separator starts, when its first character does not occur before.
split_once-append :
    (c : ℕ) (sep s rest : Text)
    → contains_char c s ≡ false
    → split_once (s ++ c ∷ (sep ++ rest)) (c ∷ sep) ≡ some (s, rest)
unfolding split_once contains_char
split_once-append c sep [] rest h = ground (arith, strip_prefix-append (c ∷ sep) rest)
split_once-append c sep (d ∷ s) rest h = ground (arith, split_once-append c sep s rest)

-- What follows the opening bracket.
abbrev link_after : Text → Option (Text × Text)
link_after remainder = do
  parts ← split_once remainder (codes "](")
  closed ← split_once parts.1 (codes ")")
  if is_empty (trim parts.0) || is_empty (trim closed.0)
      then none
      else some (trim parts.0, trim closed.0)

by_steps : (text : Text) → parse_markdown_link text ≡ (after_char 91 text >>= link_after)
unfolding parse_markdown_link
by_steps text = refl

-- A link `[label](target)` is found in a text, with label and target trimmed, when no bracket stands
-- before it, the label has no `]` and the target no `)`, and neither is blank.
pub parse_markdown_link-append :
    (before label target after : Text)
    → contains_char 91 before ≡ false
    → contains_char 93 label ≡ false
    → contains_char 41 target ≡ false
    → is_empty (trim label) ≡ false
    → is_empty (trim target) ≡ false
    → parse_markdown_link
        (before ++ (codes "[" ++ (label ++ (codes "](" ++ (target ++ (codes ")" ++ after))))))
      ≡ some (trim label, trim target)
parse_markdown_link-append before label target after hb hl ht el et =
    by_steps (before ++ (codes "[" ++ (label ++ (codes "](" ++ (target ++ (codes ")" ++ after))))))
    ∙ ap (λ o. o >>= link_after)
        (after_char-append 91 before (label ++ (codes "](" ++ (target ++ (codes ")" ++ after)))) hb)
    ∙ ap
        (λ o. o >>= λ parts. split_once parts.1 (codes ")") >>= λ closed.
          if is_empty (trim parts.0) || is_empty (trim closed.0)
          then none
          else some (trim parts.0, trim closed.0))
        (split_once-append 93 (40 ∷ []) label (target ++ (codes ")" ++ after)) hl)
    ∙ ap
        (λ o. o >>= λ (closed : Text × Text).
          if is_empty (trim label) || is_empty (trim closed.0)
          then none
          else some (trim label, trim closed.0))
        (split_once-append 41 [] target after ht)
    ∙ rw (el, et) refl
