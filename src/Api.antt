-- ===== src/Api.antt =====
-- The HTTP ingest server, crates/lib/docx-ingest/src/lib.rs: the request bodies, the checks, the error
-- responses and the three handlers. A handler takes the registry before the request and returns it after
-- it. The control plane's ingest functions and the timeout around them are the argument `Control`.
pub mod Agreement
pub mod Reserved
use docx_mcp.Base.{
  ℕ, Bool, true, false, ◌||◌, ◌&&◌, not, Option, none, some, List, [], ◌∷◌, ◌++◌, if◌then◌else◌,
  ◌==◌, nat_eq, list_eq, is_empty,
}
use docx_mcp.Text.{Text, codes, trim, to_decimal}
use docx_mcp.Schema.{source_kind_csharp_xml, source_kind_rustdoc_json}
use docx_mcp.Registry.{
  SolutionRegistry, SolutionRegistryConfig, Moment, RegistryError, unknown_solution,
  capacity_reached, build_failed, get_or_init, Result,
}

pub data StatusCode : Type 0 where
  bad_request not_found request_timeout internal_server_error : StatusCode

pub record ApiError : Type 0 where
  pub status : StatusCode
  pub message : Text

abbrev pub error_of : StatusCode → Text → ApiError
error_of status message = record { status = status; message = message }

abbrev pub timeout : ApiError
timeout = error_of request_timeout (codes "ingest request timed out")

abbrev pub from_registry_error : RegistryError → ApiError
from_registry_error (unknown_solution solution) =
    error_of not_found (codes "unknown solution: " ++ solution)
from_registry_error (capacity_reached max) =
    error_of internal_server_error
      (codes "solution registry capacity reached (max " ++ (to_decimal max ++ codes ")"))
from_registry_error (build_failed message) =
    error_of internal_server_error (codes "failed to build solution handle: " ++ message)

-- `ControlError`, with what the errors inside print.
pub data ControlError : Type 0 where
  invalid_input parse rustdoc_parse surreal : Text → ControlError

abbrev pub from_control_error : ControlError → ApiError
from_control_error (invalid_input message) = error_of bad_request message
from_control_error (parse message) = error_of bad_request message
from_control_error (rustdoc_parse message) = error_of bad_request message
from_control_error (surreal message) = error_of internal_server_error message

pub record CsharpIngestPayload : Type 0 where
  pub solution : Option Text
  pub project_id : Option Text
  pub xml : Option Text
  pub xml_path : Option Text
  pub ingest_id : Option Text
  pub source_path : Option Text
  pub source_modified_at : Option Text
  pub tool_version : Option Text
  pub source_hash : Option Text

pub record RustdocIngestPayload : Type 0 where
  pub solution : Option Text
  pub project_id : Option Text
  pub json : Option Text
  pub json_path : Option Text
  pub ingest_id : Option Text
  pub source_path : Option Text
  pub source_modified_at : Option Text
  pub tool_version : Option Text
  pub source_hash : Option Text

pub data IngestKind : Type 0 where
  csharp_xml rustdoc_json : IngestKind

abbrev pub kind_text : IngestKind → Text
kind_text csharp_xml = source_kind_csharp_xml
kind_text rustdoc_json = source_kind_rustdoc_json

pub record IngestPayload : Type 0 where
  pub solution : Option Text
  pub project_id : Option Text
  pub kind : Option IngestKind
  pub contents : Option Text
  pub contents_path : Option Text
  pub ingest_id : Option Text
  pub source_path : Option Text
  pub source_modified_at : Option Text
  pub tool_version : Option Text
  pub source_hash : Option Text

-- `CsharpIngestRequest` and `RustdocIngestRequest`, which differ in the names of two fields: `raw` is
-- `xml` or `json`, `raw_path` is `xml_path` or `json_path`.
pub record IngestRequest : Type 0 where
  pub project_id : Text
  pub raw : Option Text
  pub raw_path : Option Text
  pub ingest_id : Option Text
  pub source_path : Option Text
  pub source_modified_at : Option Text
  pub tool_version : Option Text
  pub source_hash : Option Text

-- `Result<A, ApiError>`
pub data Checked (A : Type 0) : Type 0 where
  valid : A → Checked A
  rejected : ApiError → Checked A

-- `?` on a check that does not touch the registry.
infixl 5 ◌>>=◌
abbrev pub ◌>>=◌ : {A B : Type 0} → Checked A → (A → Checked B) → Checked B
valid a >>= f = f a
rejected e >>= f = rejected e

abbrev pub is_required : Text → ApiError
is_required field = error_of bad_request (field ++ codes " is required")

unfoldable pub require_non_empty : Text → Option Text → Checked Text
require_non_empty field none = rejected (is_required field)
require_non_empty field (some value) =
    if is_empty (trim value) then rejected (is_required field) else valid (trim value)

unfoldable pub require_kind : Option IngestKind → Checked IngestKind
require_kind none =
    rejected (error_of bad_request (codes "kind is required (csharp_xml or rustdoc_json)"))
require_kind (some kind) = valid kind

unfoldable pub has_payload : Option Text → Bool
has_payload none = false
has_payload (some payload) = not (is_empty (trim payload))

unfoldable pub require_contents : Option Text → Option Text → IngestKind → Checked Unit
unfolding has_payload
require_contents contents contents_path kind =
    if has_payload contents || has_payload contents_path
    then valid tt
    else rejected (
        error_of bad_request (codes "contents or contents_path is required for " ++ kind_text kind))

-- What the control plane answers within the time of a request.
pub data Outcome (R : Type 0) : Type 0 where
  report : R → Outcome R
  fails : ControlError → Outcome R
  timed_out : Outcome R

abbrev pub respond : {R : Type 0} → Outcome R → Checked R
respond (report r) = valid r
respond (fails e) = rejected (from_control_error e)
respond timed_out = rejected timeout

abbrev pub map_outcome : {A B : Type 0} → (A → B) → Outcome A → Outcome B
map_outcome f (report a) = report (f a)
map_outcome f (fails e) = fails e
map_outcome f timed_out = timed_out

-- The ingest functions of a solution's control plane. `H` is the type of a handle, `C` that of
-- `CsharpIngestReport` and `R` that of `RustdocIngestReport`.
pub record Control (H C R : Type 0) : Type 0 where
  pub ingest_csharp_xml : H → IngestRequest → Outcome C
  pub ingest_rustdoc_json : H → IngestRequest → Outcome R

-- What `/ingest` answers with: a report under the kind it is of.
pub data IngestResponse (C R : Type 0) : Type 0 where
  csharp_response : C → IngestResponse C R
  rustdoc_response : R → IngestResponse C R

abbrev pub reserved_solution : Text
reserved_solution = codes "__discovery__"

-- The answers of the clock, the pings and the builder during a call of `get_or_init`.
pub record Call (H : Type 0) : Type 0 where
  pub insertion : Moment H
  pub read : Moment H
  pub rebuild : Moment H
  pub touch : Moment H

abbrev pub csharp_request : Text → CsharpIngestPayload → IngestRequest
csharp_request project_id p = record {
  project_id = project_id;
  raw = p.xml;
  raw_path = p.xml_path;
  ingest_id = p.ingest_id;
  source_path = p.source_path;
  source_modified_at = p.source_modified_at;
  tool_version = p.tool_version;
  source_hash = p.source_hash;
}

abbrev pub rustdoc_request : Text → RustdocIngestPayload → IngestRequest
rustdoc_request project_id p = record {
  project_id = project_id;
  raw = p.json;
  raw_path = p.json_path;
  ingest_id = p.ingest_id;
  source_path = p.source_path;
  source_modified_at = p.source_modified_at;
  tool_version = p.tool_version;
  source_hash = p.source_hash;
}

abbrev pub payload_request : Text → IngestPayload → IngestRequest
payload_request project_id p = record {
  project_id = project_id;
  raw = p.contents;
  raw_path = p.contents_path;
  ingest_id = p.ingest_id;
  source_path = p.source_path;
  source_modified_at = p.source_modified_at;
  tool_version = p.tool_version;
  source_hash = p.source_hash;
}

module _ {H : Type 0} where
  abbrev pub from_registry : Result H × SolutionRegistry H → Checked H × SolutionRegistry H
  from_registry (Result.ok handle, s) = (valid handle, s)
  from_registry (Result.err e, s) = (rejected (from_registry_error e), s)

  unfoldable pub control_for_solution :
      SolutionRegistryConfig → Call H → Text → SolutionRegistry H → Checked H × SolutionRegistry H
  unfolding get_or_init
  control_for_solution config call solution s =
      if is_empty (trim solution)
      then (rejected (is_required (codes "solution")), s)
      else if trim solution == reserved_solution
      then (
        rejected (
            error_of bad_request
              (codes "'" ++ (reserved_solution ++ codes "' is a reserved solution name"))),
        s,
      )
      else from_registry
          (get_or_init config call.insertion call.read call.rebuild call.touch (trim solution) s)

module _ {H R : Type 0} where
  -- The rest of a handler, once its handle is there.
  abbrev pub with_handle :
      (H → Outcome R) → Checked H × SolutionRegistry H → Checked R × SolutionRegistry H
  with_handle ingest (rejected e, s) = (rejected e, s)
  with_handle ingest (valid handle, s) = (respond (ingest handle), s)

  -- The rest of a handler, once its checks are done: the solution and what to ingest, or the error.
  unfoldable pub dispatch :
      SolutionRegistryConfig
      → Call H
      → Checked (Text × (H → Outcome R))
      → SolutionRegistry H
      → Checked R × SolutionRegistry H
  unfolding control_for_solution
  dispatch config call (rejected e) s = (rejected e, s)
  dispatch config call (valid (solution, ingest)) s =
      with_handle ingest (control_for_solution config call solution s)

module _ {H C R : Type 0} where
  unfoldable pub check_csharp :
      Control H C R → CsharpIngestPayload → Checked (Text × (H → Outcome C))
  check_csharp control p = do
    solution ← require_non_empty (codes "solution") p.solution
    project_id ← require_non_empty (codes "project_id") p.project_id
    valid (solution, λ handle. control.ingest_csharp_xml handle (csharp_request project_id p))

  unfoldable pub ingest_csharp :
      SolutionRegistryConfig
      → Call H
      → Control H C R
      → CsharpIngestPayload
      → SolutionRegistry H
      → Checked C × SolutionRegistry H
  ingest_csharp config call control p s = dispatch config call (check_csharp control p) s

  unfoldable pub check_rustdoc :
      Control H C R → RustdocIngestPayload → Checked (Text × (H → Outcome R))
  check_rustdoc control p = do
    solution ← require_non_empty (codes "solution") p.solution
    project_id ← require_non_empty (codes "project_id") p.project_id
    valid (solution, λ handle. control.ingest_rustdoc_json handle (rustdoc_request project_id p))

  unfoldable pub ingest_rustdoc :
      SolutionRegistryConfig
      → Call H
      → Control H C R
      → RustdocIngestPayload
      → SolutionRegistry H
      → Checked R × SolutionRegistry H
  ingest_rustdoc config call control p s = dispatch config call (check_rustdoc control p) s

  abbrev pub ingest_kind :
      Control H C R → IngestKind → IngestRequest → H → Outcome (IngestResponse C R)
  ingest_kind control csharp_xml request handle =
      map_outcome csharp_response (control.ingest_csharp_xml handle request)
  ingest_kind control rustdoc_json request handle =
      map_outcome rustdoc_response (control.ingest_rustdoc_json handle request)

  unfoldable pub check_payload :
      Control H C R → IngestPayload → Checked (Text × (H → Outcome (IngestResponse C R)))
  check_payload control p = do
    solution ← require_non_empty (codes "solution") p.solution
    project_id ← require_non_empty (codes "project_id") p.project_id
    kind ← require_kind p.kind
    checked ← require_contents p.contents p.contents_path kind
    valid (solution, ingest_kind control kind (payload_request project_id p))

  unfoldable pub ingest_payload :
      SolutionRegistryConfig
      → Call H
      → Control H C R
      → IngestPayload
      → SolutionRegistry H
      → Checked (IngestResponse C R) × SolutionRegistry H
  ingest_payload config call control p s = dispatch config call (check_payload control p) s
