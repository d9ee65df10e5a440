-- ===== src/Tests/Csharp.antt =====
-- A documentation id and a text with white space.
use docx_mcp.Base.{some, ◌≡◌, refl, nat_eq, list_eq}
use docx_mcp.Text.{codes, contains_char, is_whitespace}
use docx_mcp.Csharp.DocId.{
  parse_doc_id, parse_doc_id_lem, split_doc_id, before_parenthesis, extract_simple_name,
  is_separator,
}
use docx_mcp.Csharp.Whitespace.{collapse_whitespace, collapse_from, collapse_whitespace_lem}

parse_doc_id_lem_example :
    (parse_doc_id (codes "M:N.T.f(System.Int32)")).qualified_name ≡ some (codes "N.T.f")
unfolding contains_char
parse_doc_id_lem_example =
    (parse_doc_id_lem (codes "M") 78 (codes ".T.f") (some (codes "System.Int32)")) refl refl).1

name_of_method : (parse_doc_id (codes "M:N.T.f(System.Int32)")).name ≡ some (codes "f")
unfolding parse_doc_id split_doc_id before_parenthesis extract_simple_name is_separator
name_of_method = refl

collapse_whitespace_lem_example :
    collapse_whitespace (collapse_whitespace (codes "a \n b"))
    ≡ collapse_whitespace (codes "a \n b")
collapse_whitespace_lem_example = (collapse_whitespace_lem (codes "a \n b")).4

collapsed : collapse_whitespace (codes "a \n b") ≡ codes "a b"
unfolding collapse_whitespace collapse_from is_whitespace
collapsed = refl
