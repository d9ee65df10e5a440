-- ===== src/Models/Records.antt =====
-- `Project`, `Ingest`, `DocSource` and `RelationRecord`.
use docx_mcp.Base.{Option, List}
use docx_mcp.Text.{Text}
use docx_mcp.Models.Json.{Value}

pub record Project : Type 0 where
  pub id : Option Text
  pub project_id : Text
  pub name : Option Text
  pub language : Option Text
  pub root_path : Option Text
  pub description : Option Text
  pub aliases : List Text
  pub search_text : Option Text
  pub extra : Option Value

pub record Ingest : Type 0 where
  pub id : Option Text
  pub project_id : Text
  pub git_commit : Option Text
  pub git_branch : Option Text
  pub git_tag : Option Text
  pub project_version : Option Text
  pub source_modified_at : Option Text
  pub ingested_at : Option Text
  pub extra : Option Value

pub record DocSource : Type 0 where
  pub id : Option Text
  pub project_id : Text
  pub ingest_id : Option Text
  pub language : Option Text
  pub source_kind : Option Text
  pub path : Option Text
  pub tool_version : Option Text
  pub hash : Option Text
  pub source_modified_at : Option Text
  pub extra : Option Value

pub record RelationRecord : Type 0 where
  pub id : Option Text
  pub in_id : Text
  pub out_id : Text
  pub project_id : Text
  pub ingest_id : Option Text
  pub kind : Option Text
  pub extra : Option Value
