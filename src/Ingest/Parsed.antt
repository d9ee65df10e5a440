-- ===== src/Ingest/Parsed.antt =====
-- `dedupe_symbols` behind the rustdoc parser.
use docx_mcp.Base.{[], ◌≡◌, refl, ◌∙◌, nat_eq, list_eq}
use docx_mcp.Text.{Text}
use docx_mcp.Models.{Value}
use docx_mcp.Collections.HashSet.{contains}
use docx_mcp.Collections.KeepFirst.{keep_first-id}
use docx_mcp.Ingest.Dedupe.{key_of, dedupe_symbols, dedupe_symbols-keep_first}
use docx_mcp.Rustdoc.Crate.{RustdocParseOptions, RustdocCrate, RustdocParseOutput}
use docx_mcp.Rustdoc.Visit.{parse, parsed}
use docx_mcp.Rustdoc.Visit.Consistent.{parse-Consistent}

-- Where the rustdoc parser returns an output, the deduplication of the ingest leaves its symbols as they are.
pub dedupe_symbols-parse :
    (print_json : Value → Text) (options : RustdocParseOptions) (crate_doc : RustdocCrate)
    (output : RustdocParseOutput)
    → parse print_json options crate_doc ≡ parsed output
    → dedupe_symbols output.symbols ≡ output.symbols
dedupe_symbols-parse print_json options crate_doc output h =
    dedupe_symbols-keep_first output.symbols
    ∙ keep_first-id key_of [] output.symbols
        (parse-Consistent print_json options crate_doc output h).distinct
        (λ k i. unfold contains in refl)
