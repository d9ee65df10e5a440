-- ===== src/Tests/Rustdoc.antt =====
-- The rustdoc parser at concrete inputs.
use docx_mcp.Base.{ℕ, true, false, none, some, [], ◌∷◌, ◌++◌, ◌≡◌, refl, list_eq, nat_eq, inl}
use docx_mcp.Text.{Text, codes, trim, trim_start, starts_with, lines, replace_crlf, contains_char}
use docx_mcp.Models.{Value, num, str, arr, obj, nil, cons, end, field, depth}
use docx_mcp.Collections.HashMap.{get}
use docx_mcp.Collections.HashSet.{Distinct}
use docx_mcp.Rustdoc.Types.{type_to_string}
use docx_mcp.Rustdoc.Types.Syntax.{
  RustType, primitive, generic, path, reference, array, impl_trait, function, no_types, one_type,
  no_args, lifetime, type_argument, last_bound, bound, print,
}
use docx_mcp.Rustdoc.Entries.{parse_markdown_link}
use docx_mcp.Rustdoc.Markdown.{parse_markdown_docs, parse_heading, split_section_lines}
use docx_mcp.Rustdoc.Markdown.Sections.{Part}
use docx_mcp.Rustdoc.Markdown.Fields.{parse_markdown_docs-IsFilled}
use docx_mcp.Rustdoc.Markdown.Links.{parse_markdown_link-append}
use docx_mcp.Rustdoc.Crate.{new_options, RustdocItem, RustdocCrate, RustdocParseOutput}
use docx_mcp.Rustdoc.Items.{module_items}
use docx_mcp.Ingest.Dedupe.{dedupe_symbols}
use docx_mcp.Ingest.Parsed.{dedupe_symbols-parse}
use docx_mcp.Rustdoc.State.{local_item}
use docx_mcp.Rustdoc.Visit.{parse, parsed}
use docx_mcp.Rustdoc.Visit.Fuel.{Finishes, parse-Finishes}
use docx_mcp.Rustdoc.Visit.Consistent.{symbol_keys, parse-Consistent}
use docx_mcp.Rustdoc.Visit.Reach.{IsListed, at_root, in_module, parse-IsListed}

-- `Vec<u8>`
abbrev vec_type : Value
vec_type = obj (
    field (codes "resolved_path")
      (obj (
        field (codes "path") (str (codes "Vec")) (
          field (codes "args")
            (obj (
              field (codes "angle_bracketed")
                (obj (
                  field (codes "args")
                    (arr (
                      cons
                        (obj (
                          field (codes "type")
                            (obj (field (codes "primitive") (str (codes "u8")) end)) end))
                        nil))
                    end))
                end))
            end)))
      end)

vec_runs : type_to_string vec_type ≡ some (codes "Vec<u8>")
unfolding type_to_string depth docx_mcp.Rustdoc.Types.primitive_type
    docx_mcp.Rustdoc.Types.generic_type docx_mcp.Rustdoc.Types.resolved_path_type
    docx_mcp.Rustdoc.Types.arg_items docx_mcp.Text.join
vec_runs = refl

-- `fn(&mut Set<'a, K>, [u8; 4]) -> impl Iter<V> + Send`
abbrev rust_type : RustType
rust_type =
    function
      (one_type
        (reference true (
          path (codes "Set") (lifetime (codes "'a") (type_argument (generic (codes "K")) no_args))))
        (one_type (array (primitive (codes "u8")) 52 []) no_types))
      (impl_trait (
        bound 73 (codes "ter") (type_argument (generic (codes "V")) no_args)
          (last_bound 83 (codes "end") no_args)))

printed : print rust_type ≡ codes "fn(&mut Set<'a, K>, [u8; 4]) -> impl Iter<V> + Send"
unfolding print docx_mcp.Text.join
printed = refl

abbrev raw_docs : Text
raw_docs = codes "Adds.\n\nMore.\n# Errors\nbad\n```\n# no title\n```\n## Later\nx"

abbrev errors_part : Part
errors_part = record {
  heading = codes "# Errors";
  title = codes "Errors";
  body = codes "bad" ∷ codes "```" ∷ codes "# no title" ∷ codes "```" ∷ [];
}

abbrev later_part : Part
later_part = record { heading = codes "## Later"; title = codes "Later"; body = codes "x" ∷ [] }

parse_markdown_docs-IsFilled_example :
    (parse_markdown_docs raw_docs).errors ≡ some (codes "bad\n```\n# no title\n```")
unfolding lines replace_crlf parse_heading trim_start starts_with trim docx_mcp.Text.join
    docx_mcp.Rustdoc.Markdown.section_kind docx_mcp.Text.to_ascii_lowercase
parse_markdown_docs-IsFilled_example =
    (parse_markdown_docs-IsFilled raw_docs (codes "Adds." ∷ codes "" ∷ codes "More." ∷ [])
      (errors_part ∷ later_part ∷ []) refl refl
      ((refl, refl, refl), ((refl, refl, refl), tt))).errors

parse_markdown_link-append_example :
    parse_markdown_link (
      codes "see "
      ++ (codes "[" ++ (codes "a" ++ (codes "](" ++ (codes "b " ++ (codes ")" ++ codes " now"))))))
    ≡ some (trim (codes "a"), trim (codes "b "))
unfolding contains_char trim
parse_markdown_link-append_example =
    parse_markdown_link-append (codes "see ") (codes "a") (codes "b ") (codes " now") refl refl refl
      refl refl

-- A crate of a module with a function, a struct of one field, and itself again.
abbrev pub demo_item : ℕ → Text → Text → Text → Value → RustdocItem
demo_item id name docs kind inner = record {
  id = id;
  crate_id = 0;
  name = some name;
  span = none;
  visibility = some (str (codes "public"));
  docs = some docs;
  deprecation = none;
  attrs = [];
  inner = field kind inner end;
}

abbrev pub demo_crate : RustdocCrate
demo_crate = record {
  root = 1;
  crate_version = none;
  format_version = 40;
  includes_private = false;
  index =
      (
        codes "1",
        demo_item 1 (codes "demo") (codes "Root.") (codes "module") (
            obj (field (codes "items") (arr (cons (num 2) (cons (num 3) (cons (num 1) nil)))) end)),
      )
      ∷ (codes "2", demo_item 2 (codes "f") (codes "") (codes "function") (obj end))
      ∷ (
        codes "3",
        demo_item 3 (codes "S") (codes "A struct.") (codes "struct") (
            obj (
              field (codes "kind")
                (obj (
                  field (codes "plain") (obj (field (codes "fields") (arr (cons (num 4) nil)) end))
                    end))
                end)),
      )
      ∷ (
        codes "4",
        demo_item 4 (codes "x") (codes "") (codes "struct_field")
            (obj (field (codes "primitive") (str (codes "u8")) end)),
      )
      ∷ [];
  paths = [];
}

abbrev empty_output : RustdocParseOutput
empty_output = record {
  crate_name = none;
  crate_version = none;
  format_version = 0;
  includes_private = false;
  symbols = [];
  doc_blocks = [];
  trait_impls = [];
}

unfoldable demo_output : RustdocParseOutput
unfolding parse
demo_output = elim (parse (λ v. []) (new_options (codes "p")) demo_crate) [
  | parsed output ↦ output
  | _ ↦ empty_output
]

demo_keys :
    symbol_keys demo_output.symbols
    ≡ codes "rust|p|demo::demo"
      ∷ codes "rust|p|demo::f"
      ∷ codes "rust|p|demo::S"
      ∷ codes "rust|p|demo::S::x"
      ∷ []
unfolding demo_output docx_mcp.Text.to_decimal docx_mcp.Text.join
demo_keys = refl

demo_parses : parse (λ v. []) (new_options (codes "p")) demo_crate ≡ parsed demo_output
unfolding demo_output docx_mcp.Text.to_decimal docx_mcp.Text.join
demo_parses = refl

parse-Finishes_example : Finishes demo_crate (parse (λ v. []) (new_options (codes "p")) demo_crate)
parse-Finishes_example = parse-Finishes (λ v. []) (new_options (codes "p")) demo_crate

parse-Consistent_example : Distinct (symbol_keys demo_output.symbols)
parse-Consistent_example =
    (parse-Consistent (λ v. []) (new_options (codes "p")) demo_crate demo_output
      demo_parses).distinct

dedupe_symbols-parse_example : dedupe_symbols demo_output.symbols ≡ demo_output.symbols
dedupe_symbols-parse_example =
    dedupe_symbols-parse (λ v. []) (new_options (codes "p")) demo_crate demo_output demo_parses

abbrev root_item : RustdocItem
root_item =
    demo_item 1 (codes "demo") (codes "Root.") (codes "module")
      (obj (field (codes "items") (arr (cons (num 2) (cons (num 3) (cons (num 1) nil)))) end))

abbrev f_item : RustdocItem
f_item = demo_item 2 (codes "f") (codes "") (codes "function") (obj end)

parse-IsListed_example : IsListed f_item demo_output
unfolding get local_item module_items docx_mcp.Text.to_decimal docx_mcp.Rustdoc.Visit.item_kind
parse-IsListed_example =
    parse-IsListed (λ v. []) (new_options (codes "p")) demo_crate root_item f_item 2 demo_output
      refl demo_parses (in_module 1 2 root_item at_root refl refl (inl refl) refl) refl refl
