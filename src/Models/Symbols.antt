-- ===== src/Models/Symbols.antt =====
-- `Symbol` and what it holds.
use docx_mcp.Base.{ℕ, Bool, Option, List}
use docx_mcp.Text.{Text}
use docx_mcp.Models.Json.{Value}

-- `TypeRef` holds a list of itself, `generics`. The fields stand in the source's order: `display`,
-- `canonical`, `language`, `symbol_key`, `generics`, `modifiers`.
mutual
  pub data TypeRef : Type 0 where
    type_ref :
        Option Text → Option Text → Option Text → Option Text → TypeRefs → List Text → TypeRef

  pub data TypeRefs : Type 0 where
    no_types : TypeRefs
    more_types : TypeRef → TypeRefs → TypeRefs

abbrev pub type_display : TypeRef → Option Text
type_display (type_ref display canonical language symbol_key generics modifiers) = display

abbrev pub type_symbol_key : TypeRef → Option Text
type_symbol_key (type_ref display canonical language symbol_key generics modifiers) = symbol_key

pub record Param : Type 0 where
  pub name : Text
  pub type_ref : Option TypeRef
  pub default_value : Option Text
  pub is_optional : Option Bool

pub record TypeParam : Type 0 where
  pub name : Text
  pub constraints : List Text

pub record AttributeRef : Type 0 where
  pub name : Text
  pub args : List Text
  pub target : Option Text

pub record SourceId : Type 0 where
  pub kind : Text
  pub value : Text

pub record Symbol : Type 0 where
  pub id : Option Text
  pub project_id : Text
  pub language : Option Text
  pub symbol_key : Text
  pub kind : Option Text
  pub name : Option Text
  pub qualified_name : Option Text
  pub display_name : Option Text
  pub signature : Option Text
  pub signature_hash : Option Text
  pub visibility : Option Text
  pub is_static : Option Bool
  pub is_async : Option Bool
  pub is_const : Option Bool
  pub is_deprecated : Option Bool
  pub since : Option Text
  pub stability : Option Text
  pub source_path : Option Text
  pub line : Option ℕ
  pub col : Option ℕ
  pub return_type : Option TypeRef
  pub params : List Param
  pub type_params : List TypeParam
  pub attributes : List AttributeRef
  pub source_ids : List SourceId
  pub doc_summary : Option Text
  pub extra : Option Value
