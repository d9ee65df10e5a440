-- ===== src/Tests/Pipeline.antt =====
-- An ingest of rustdoc JSON at concrete inputs.
use docx_mcp.Base.{ℕ, true, false, none, some, [], ◌≡◌, refl}
use docx_mcp.Text.{Text, codes}
use docx_mcp.Store.Session.{Database, Session, Reply, ok, failed}
use docx_mcp.Ingest.Payload.{Read, contents}
use docx_mcp.Ingest.Pipeline.{
  World, RustdocIngestRequest, RustdocIngestReport, IngestError, ingest_rustdoc_json,
}
use docx_mcp.Ingest.Pipeline.Last.{Ended, ingest_rustdoc_json_lem}
use docx_mcp.Ingest.Pipeline.Counts.{CountsAll, ingest_rustdoc_json-CountsAll}
use docx_mcp.Store.Session.Rules.{Results}
use docx_mcp.Tests.Rustdoc.{demo_crate}

abbrev accepting : Database
accepting = record {
  answer = λ log st. none;
  project_record = λ log id. ok none;
  uuid = λ log. codes "u";
  parse_simple = λ id. true;
  bootstrap = codes "DEFINE TABLE symbol;";
}

abbrev demo_world : World
demo_world = record {
  db = accepting;
  read_json = λ json. ok demo_crate;
  print_json = λ v. [];
  read_file = λ path. contents [];
  now = codes "now";
  to_lowercase = λ t. t;
}

abbrev demo_request : RustdocIngestRequest
demo_request = record {
  project_id = codes "p";
  json = some (codes "{}");
  json_path = none;
  ingest_id = some (codes "i");
  source_path = none;
  source_modified_at = none;
  tool_version = none;
  source_hash = none;
}

abbrev fresh : Session
fresh = record { schema_ready = false; log = [] }

abbrev symbol_count : Reply IngestError RustdocIngestReport → ℕ
symbol_count (ok report) = report.symbol_count
symbol_count (failed e) = 0

demo_counts : symbol_count (ingest_rustdoc_json demo_world demo_request fresh).0 ≡ 4
unfolding ingest_rustdoc_json docx_mcp.Text.trim docx_mcp.Ingest.Payload.normalize_payload
    docx_mcp.Text.to_decimal docx_mcp.Text.join docx_mcp.Text.lines mathlib.Core.Bool.xor
    docx_mcp.Text.all_chars docx_mcp.Schema.make_record_id docx_mcp.Text.rsplit_once
    docx_mcp.Text.replace_crlf docx_mcp.Text.starts_with docx_mcp.Rustdoc.Markdown.parse_heading
demo_counts = refl

ingest_rustdoc_json_lem_example :
    Ended demo_world demo_request fresh (ingest_rustdoc_json demo_world demo_request fresh)
ingest_rustdoc_json_lem_example = ingest_rustdoc_json_lem demo_world demo_request fresh

ingest_rustdoc_json-CountsAll_example :
    Results
      (λ report t. CountsAll demo_world demo_request report)
      (λ e t. Unit)
      (ingest_rustdoc_json demo_world demo_request fresh)
ingest_rustdoc_json-CountsAll_example = ingest_rustdoc_json-CountsAll demo_world demo_request fresh
