-- ===== src/Tests/Config.antt =====
-- Arguments for a database in memory, and for one over a connection.
use docx_mcp.Base.{true, false, none, some, ◌≡◌, ◌≢◌, refl, inr, nat_eq}
use docx_mcp.Text.{codes, trim, trim_start, trim_end, is_whitespace}
use docx_mcp.Config.Accepts.{IsTaken, try_from-accepts}
use docx_mcp.Config.{
  CliArgs, config, try_from, try_from_lem, DocxConfig, from_args, filter_blank, in_memory, missing,
}

abbrev remote : CliArgs
remote = record {
  db_namespace = codes "docx";
  registry_ttl_secs = 300;
  registry_sweep_secs = none;
  registry_health_check_secs = 60;
  max_entries = none;
  enable_stdio = false;
  mcp_serve = true;
  ingest_serve = true;
  mcp_http_addr = (codes "127.0.0.1", 4020);
  ingest_addr = (codes "127.0.0.1", 4010);
  ingest_timeout_secs = 30;
  ingest_max_body_bytes = 26214400;
  db_in_memory = false;
  db_uri = some (codes "ws://db");
  db_username = some (codes "u");
  db_password = some (codes "s");
  test_mode = false;
}

try_from-accepts_example : (c : DocxConfig) × (try_from remote ≡ config c) × IsTaken remote c
unfolding trim trim_start trim_end is_whitespace
try_from-accepts_example = (try_from-accepts remote).0 (refl, inr (inr (refl, refl)))

try_from_lem_example : (from_args remote).registry_ttl ≢ some 0
unfolding trim trim_start trim_end is_whitespace filter_blank try_from missing in_memory
try_from_lem_example = (try_from_lem remote (from_args remote) refl).2
