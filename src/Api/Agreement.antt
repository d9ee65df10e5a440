-- ===== src/Api/Agreement.antt =====
-- The endpoint for both kinds and the endpoints of one kind.
use docx_mcp.Base.{
  Bool, true, false, ◌||◌, Option, none, some, ◌≡◌, ◌≢◌, ◌⊎◌, refl, ap, ◌∙◌, arith, nat_eq, list_eq,
  Option-cases, inl, inr,
}
use docx_mcp.Text.{Text, codes}
use docx_mcp.Registry.{SolutionRegistry, SolutionRegistryConfig}
use docx_mcp.Ingest.Payload.{
  resolve_ingest_payload, normalize_payload, required_error, invalid_input, payload, Read, contents,
  strip_bom,
}
use docx_mcp.Api.{
  Checked, valid, rejected, ApiError, Control, Call, IngestPayload, IngestKind, csharp_xml,
  rustdoc_json, CsharpIngestPayload, RustdocIngestPayload, require_non_empty, require_kind,
  require_contents, has_payload, check_payload, check_csharp, check_rustdoc, dispatch,
  ingest_payload, ingest_csharp, ingest_rustdoc, Outcome, report, fails, timed_out, map_outcome,
  respond, with_handle, csharp_response, rustdoc_response, control_for_solution,
}

abbrev pub as_csharp : IngestPayload → CsharpIngestPayload
as_csharp p = record {
  solution = p.solution;
  project_id = p.project_id;
  xml = p.contents;
  xml_path = p.contents_path;
  ingest_id = p.ingest_id;
  source_path = p.source_path;
  source_modified_at = p.source_modified_at;
  tool_version = p.tool_version;
  source_hash = p.source_hash;
}

abbrev pub as_rustdoc : IngestPayload → RustdocIngestPayload
as_rustdoc p = record {
  solution = p.solution;
  project_id = p.project_id;
  json = p.contents;
  json_path = p.contents_path;
  ingest_id = p.ingest_id;
  source_path = p.source_path;
  source_modified_at = p.source_modified_at;
  tool_version = p.tool_version;
  source_hash = p.source_hash;
}

contents_checked :
    (a b : Option Text) (kind : IngestKind)
    → (has_payload a || has_payload b) ≡ true
    → require_contents a b kind ≡ valid tt
unfolding require_contents
contents_checked a b kind h = rw h refl

pub Checked-cases :
    {A : Type 0} (c : Checked A) → ((a : A) × (c ≡ valid a)) ⊎ ((e : ApiError) × (c ≡ rejected e))
Checked-cases (valid a) = inl (a, refl)
Checked-cases (rejected e) = inr (e, refl)

kind_checked :
    (o : Option IngestKind) (kind : IngestKind) → o ≡ some kind → require_kind o ≡ valid kind
unfolding require_kind
kind_checked o kind e = rw e refl

-- An answer whose report is put under its kind, with the same error and the same registry.
abbrev pub wrapped :
    {H A B : Type 0} → (A → B) → Checked A × SolutionRegistry H → Checked B × SolutionRegistry H
wrapped wrap (valid a, s) = (valid (wrap a), s)
wrapped wrap (rejected e, s) = (rejected e, s)

module _ {H A B : Type 0} (wrap : A → B) where
  abbrev wrap_check : Checked (Text × (H → Outcome A)) → Checked (Text × (H → Outcome B))
  wrap_check (rejected e) = rejected e
  wrap_check (valid (solution, ingest)) =
      valid (solution, λ handle. map_outcome wrap (ingest handle))

  respond-wrapped :
      (o : Outcome A) (s : SolutionRegistry H)
      → (respond (map_outcome wrap o), s) ≡ wrapped wrap (respond o, s)
  respond-wrapped (report a) s = refl
  respond-wrapped (fails e) s = refl
  respond-wrapped timed_out s = refl

  with_handle-wrapped :
      (ingest : H → Outcome A) (answer : Checked H × SolutionRegistry H)
      → with_handle (λ handle. map_outcome wrap (ingest handle)) answer
        ≡ wrapped wrap (with_handle ingest answer)
  with_handle-wrapped ingest (rejected e, s) = refl
  with_handle-wrapped ingest (valid handle, s) = respond-wrapped (ingest handle) s

  dispatch-wrapped :
      (config : SolutionRegistryConfig) (call : Call H) (c : Checked (Text × (H → Outcome A)))
      (s : SolutionRegistry H)
      → dispatch config call (wrap_check c) s ≡ wrapped wrap (dispatch config call c s)
  unfolding dispatch
  dispatch-wrapped config call (rejected e) s = refl
  dispatch-wrapped config call (valid (solution, ingest)) s =
      with_handle-wrapped ingest (control_for_solution config call solution s)

module _ {H C R : Type 0} where
  check_payload-csharp :
      (control : Control H C R) (p : IngestPayload)
      → p.kind ≡ some csharp_xml
      → (has_payload p.contents || has_payload p.contents_path) ≡ true
      → check_payload control p ≡ wrap_check csharp_response (check_csharp control (as_csharp p))
  unfolding check_payload check_csharp
  check_payload-csharp control p k h =
      elim (Checked-cases (require_non_empty (codes "solution") p.solution)) [
        | inr (e, no_solution) ↦ rw no_solution refl
        | inl (solution, a) ↦
            elim (Checked-cases (require_non_empty (codes "project_id") p.project_id)) [
              | inr (e, no_project) ↦ rw (a, no_project) refl
              | inl (project_id, b) ↦
                  rw
                    (
                      a,
                      b,
                      kind_checked p.kind csharp_xml k,
                      contents_checked p.contents p.contents_path csharp_xml h,
                    )
                    refl
            ]
      ]

  check_payload-rustdoc :
      (control : Control H C R) (p : IngestPayload)
      → p.kind ≡ some rustdoc_json
      → (has_payload p.contents || has_payload p.contents_path) ≡ true
      → check_payload control p ≡ wrap_check rustdoc_response (check_rustdoc control (as_rustdoc p))
  unfolding check_payload check_rustdoc
  check_payload-rustdoc control p k h =
      elim (Checked-cases (require_non_empty (codes "solution") p.solution)) [
        | inr (e, no_solution) ↦ rw no_solution refl
        | inl (solution, a) ↦
            elim (Checked-cases (require_non_empty (codes "project_id") p.project_id)) [
              | inr (e, no_project) ↦ rw (a, no_project) refl
              | inl (project_id, b) ↦
                  rw
                    (
                      a,
                      b,
                      kind_checked p.kind rustdoc_json k,
                      contents_checked p.contents p.contents_path rustdoc_json h,
                    )
                    refl
            ]
      ]

  -- A body with contents, or a path to them, is answered by `/ingest` as the endpoint of its kind answers
  -- it, with the report put under that kind; an error is the same error, and the registry that is left
  -- is the same.
  pub ingest_payload-agrees :
      (config : SolutionRegistryConfig) (call : Call H) (control : Control H C R)
      (p : IngestPayload) (s : SolutionRegistry H)
      → (has_payload p.contents || has_payload p.contents_path) ≡ true
      → (p.kind ≡ some csharp_xml
          → ingest_payload config call control p s
            ≡ wrapped csharp_response (ingest_csharp config call control (as_csharp p) s))
        × (p.kind ≡ some rustdoc_json
            → ingest_payload config call control p s
              ≡ wrapped rustdoc_response (ingest_rustdoc config call control (as_rustdoc p) s))
  unfolding ingest_payload ingest_csharp ingest_rustdoc
  ingest_payload-agrees config call control p s h = (
    λ k.
        ap (λ c. dispatch config call c s) (check_payload-csharp control p k h)
        ∙ dispatch-wrapped csharp_response config call (check_csharp control (as_csharp p)) s,
    λ k.
        ap (λ c. dispatch config call c s) (check_payload-rustdoc control p k h)
        ∙ dispatch-wrapped rustdoc_response config call (check_rustdoc control (as_rustdoc p)) s,
  )

normalize-some : (o : Option Text) (t : Text) → normalize_payload o ≡ some t → has_payload o ≡ true
unfolding normalize_payload has_payload
normalize-some none t e = ground (arith, e)
normalize-some (some value) t e = ground (arith, e)

normalize-none : (o : Option Text) → normalize_payload o ≡ none → has_payload o ≡ false
unfolding normalize_payload has_payload
normalize-none none e = refl
normalize-none (some value) e = ground (arith, e)

left_or : {a : Bool} (b : Bool) → a ≡ true → (a || b) ≡ true
left_or b e = ground (arith, e)

right_or : (a : Bool) {b : Bool} → b ≡ true → (a || b) ≡ true
right_or a e = ground (arith, e)

contents_refused :
    (a b : Option Text) (kind : IngestKind)
    → has_payload a ≡ false
    → has_payload b ≡ false
    → require_contents a b kind ≢ valid tt
unfolding require_contents
contents_refused a b kind x y e = ground (arith, x, y, e)

resolve-raw :
    (read_file : Text → Read) (raw path : Option Text) (field t : Text)
    → normalize_payload raw ≡ some t
    → resolve_ingest_payload read_file raw path field ≡ payload (strip_bom t)
unfolding resolve_ingest_payload
resolve-raw read_file raw path field t a = rw (a, resolve_ingest_payload) refl

resolve-path :
    (read_file : Text → Read) (raw path : Option Text) (field f t : Text)
    → normalize_payload raw ≡ none
    → normalize_payload path ≡ some f
    → read_file f ≡ contents t
    → resolve_ingest_payload read_file raw path field ≡ payload (strip_bom t)
unfolding resolve_ingest_payload
resolve-path read_file raw path field f t a b r = rw (a, resolve_ingest_payload, b, r) refl

resolve-none :
    (read_file : Text → Read) (raw path : Option Text) (field : Text)
    → normalize_payload raw ≡ none
    → normalize_payload path ≡ none
    → resolve_ingest_payload read_file raw path field ≡ invalid_input (required_error field)
unfolding resolve_ingest_payload
resolve-none read_file raw path field a b = rw (a, resolve_ingest_payload, b) refl

-- Where every file can be read, a body that passes the check of its contents has its payload
-- resolved; and one that fails it would be refused for missing contents by the ingest too, whatever
-- can be read.
pub require_contents_lem :
    (read_file : Text → Read) (raw path : Option Text) (kind : IngestKind) (field : Text)
    → ((require_contents raw path kind ≡ valid tt)
        → ((f : Text) → (t : Text) × (read_file f ≡ contents t))
        → (t : Text) × (resolve_ingest_payload read_file raw path field ≡ payload t))
      × ((require_contents raw path kind ≢ valid tt)
          → resolve_ingest_payload read_file raw path field ≡ invalid_input (required_error field))
require_contents_lem read_file raw path kind field = elim (Option-cases (normalize_payload raw)) [
  | inr (t, a) ↦ (
    λ ok reads. (_, resolve-raw read_file raw path field t a),
    λ no. absurd (no (contents_checked raw path kind (left_or _ (normalize-some raw t a)))),
  )
  | inl a ↦ elim (Option-cases (normalize_payload path)) [
    | inr (f, b) ↦ (
      λ ok reads. let (t, r) = reads f in (_, resolve-path read_file raw path field f t a b r),
      λ no. absurd (no (contents_checked raw path kind (right_or _ (normalize-some path f b)))),
    )
    | inl b ↦ (
      λ ok reads.
          absurd (contents_refused raw path kind (normalize-none raw a) (normalize-none path b) ok),
      λ no. resolve-none read_file raw path field a b,
    )
  ]
]
