-- ===== src/Tests/Api.antt =====
-- Requests to the ingest server over an empty registry.
use docx_mcp.Base.{ℕ, true, none, some, ◌≡◌, refl, nat_eq, list_eq}
use docx_mcp.Text.{Text, codes, trim, trim_start, trim_end, is_whitespace}
use docx_mcp.Registry.{Moment, Result, new_config, new_registry}
use docx_mcp.Ingest.Payload.{contents, payload, resolve_ingest_payload}
use docx_mcp.Api.{
  Control, Call, IngestPayload, csharp_xml, report, ingest_payload, ingest_csharp, has_payload,
  require_contents, csharp_response,
}
use docx_mcp.Api.Reserved.{IsRefused, reserved_solution_lem}
use docx_mcp.Api.Agreement.{as_csharp, wrapped, ingest_payload-agrees, require_contents_lem}

abbrev at : Moment ℕ
at = record { now = 1; ping = true; build_handle = λ solution. Result.ok 7 }

abbrev call : Call ℕ
call = record { insertion = at; read = at; rebuild = at; touch = at }

abbrev control : Control ℕ ℕ Text
control = record {
  ingest_csharp_xml = λ handle request. report 1;
  ingest_rustdoc_json = λ handle request. report (codes "2");
}

abbrev body : Text → IngestPayload
body solution = record {
  solution = some solution;
  project_id = some (codes "p");
  kind = some csharp_xml;
  contents = some (codes "<doc/>");
  contents_path = none;
  ingest_id = none;
  source_path = none;
  source_modified_at = none;
  tool_version = none;
  source_hash = none;
}

reserved_solution_lem_example :
    IsRefused
      (ingest_payload new_config call control (body (codes " __discovery__ ")) new_registry)
      new_registry
unfolding trim trim_start trim_end is_whitespace
reserved_solution_lem_example =
    (reserved_solution_lem new_config call control (codes " __discovery__ ") new_registry refl).0
      (body (codes " __discovery__ ")) refl

ingest_payload-agrees_example :
    ingest_payload new_config call control (body (codes "s")) new_registry
    ≡ wrapped csharp_response
        (ingest_csharp new_config call control (as_csharp (body (codes "s"))) new_registry)
unfolding has_payload trim trim_start trim_end is_whitespace
ingest_payload-agrees_example =
    (ingest_payload-agrees new_config call control (body (codes "s")) new_registry refl).0 refl

require_contents_lem_example :
    (t : Text) × (resolve_ingest_payload
        (λ f. contents (codes "x"))
        none
        (some (codes "f.xml"))
        (codes "xml")
      ≡ payload t)
unfolding require_contents has_payload trim trim_start trim_end is_whitespace
require_contents_lem_example =
    (require_contents_lem (λ f. contents (codes "x")) none (some (codes "f.xml")) csharp_xml
        (codes "xml")).0
      refl (λ f. (codes "x", refl))
