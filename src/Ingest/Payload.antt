-- ===== src/Ingest/Payload.antt =====
-- `resolve_ingest_payload`, `normalize_payload` and `strip_bom`. The file system is the argument
-- `read_file`, the answer of `read_to_string`.
use docx_mcp.Base.{
  ℕ, Bool, Option, none, some, [], ◌∷◌, ◌++◌, if◌then◌else◌, is_empty, unwrap_or, nat_eq, list_eq,
}
use docx_mcp.Text.{Text, codes, trim, strip_prefix}

-- An error of `read_to_string`: whether its kind is `NotFound`, and how it prints.
pub record IoError : Type 0 where
  pub not_found : Bool
  pub message : Text

pub data Read : Type 0 where
  contents : Text → Read
  failure : IoError → Read

-- `Result<String, StoreError>`, whose errors here are all `InvalidInput`.
pub data Payload : Type 0 where
  payload : Text → Payload
  invalid_input : Text → Payload

unfoldable pub normalize_payload : Option Text → Option Text
normalize_payload none = none
normalize_payload (some text) = if is_empty (trim text) then none else some text

abbrev pub bom : ℕ
bom = 0xfeff

unfoldable pub strip_bom : Text → Text
strip_bom value = unwrap_or (strip_prefix value (bom ∷ [])) value

abbrev pub docker_hint : Text
docker_hint =
    codes
      "; file not found on server host. If running in Docker, mount the file into the container or send raw contents instead."

unfoldable pub read_error : Text → Text → IoError → Text
read_error field path e =
    let message =
      codes "failed to read "
      ++ (field ++ (codes "_path '" ++ (path ++ (codes "': " ++ e.message)))) in
    if e.not_found then message ++ docker_hint else message

unfoldable pub required_error : Text → Text
required_error field =
    field
    ++ (codes " is required (provide " ++ (field ++ (codes " or " ++ (field ++ codes "_path)"))))

abbrev pub from_file : Text → Text → Read → Payload
from_file field path (contents text) = payload (strip_bom text)
from_file field path (failure e) = invalid_input (read_error field path e)

unfoldable pub resolve_ingest_payload : (Text → Read) → Option Text → Option Text → Text → Payload
resolve_ingest_payload read_file raw path field = elim (normalize_payload raw) [
  | some value ↦ payload (strip_bom value)
  | none ↦ elim (normalize_payload path) [
    | some p ↦ from_file field p (read_file p)
    | none ↦ invalid_input (required_error field)
  ]
]
