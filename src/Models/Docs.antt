-- ===== src/Models/Docs.antt =====
-- `DocBlock` and what it holds.
use docx_mcp.Base.{Option, List}
use docx_mcp.Text.{Text}
use docx_mcp.Models.Json.{Value}
use docx_mcp.Models.Symbols.{TypeRef}

pub record DocParam : Type 0 where
  pub name : Text
  pub description : Option Text
  pub type_ref : Option TypeRef

pub record DocTypeParam : Type 0 where
  pub name : Text
  pub description : Option Text

pub record DocException : Type 0 where
  pub type_ref : Option TypeRef
  pub description : Option Text

pub record DocExample : Type 0 where
  pub lang : Option Text
  pub code : Option Text
  pub caption : Option Text

pub record SeeAlso : Type 0 where
  pub label : Option Text
  pub target : Text
  pub target_kind : Option Text

pub record DocInherit : Type 0 where
  pub cref : Option Text
  pub path : Option Text

pub record DocSection : Type 0 where
  pub title : Text
  pub body : Text

pub record DocBlock : Type 0 where
  pub id : Option Text
  pub project_id : Text
  pub ingest_id : Option Text
  pub symbol_key : Option Text
  pub language : Option Text
  pub source_kind : Option Text
  pub doc_hash : Option Text
  pub summary : Option Text
  pub remarks : Option Text
  pub returns : Option Text
  pub value : Option Text
  pub params : List DocParam
  pub type_params : List DocTypeParam
  pub exceptions : List DocException
  pub examples : List DocExample
  pub notes : List Text
  pub warnings : List Text
  pub safety : Option Text
  pub panics : Option Text
  pub errors : Option Text
  pub see_also : List SeeAlso
  pub deprecated : Option Text
  pub inherit_doc : Option DocInherit
  pub sections : List DocSection
  pub raw : Option Text
  pub extra : Option Value
