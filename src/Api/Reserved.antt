-- ===== src/Api/Reserved.antt =====
-- The requests that the ingest server refuses before it touches the registry.
use docx_mcp.Base.{
  ◌||◌, Option, none, some, ◌≡◌, ◌⊎◌, refl, ap, sym, nat_eq, list_eq, is_empty, Bool-cases, inl,
  inr, subst,
}
use docx_mcp.Text.{Text, codes, trim}
use docx_mcp.Registry.{SolutionRegistry, SolutionRegistryConfig}
use docx_mcp.Api.{
  Checked, valid, rejected, error_of, bad_request, Control, Call, IngestPayload, IngestKind,
  CsharpIngestPayload, RustdocIngestPayload, require_non_empty, require_kind, require_contents,
  has_payload, check_payload, check_csharp, check_rustdoc, dispatch, control_for_solution,
  ingest_payload, ingest_csharp, ingest_rustdoc, reserved_solution, Outcome,
}

-- A check that fails, fails with 400.
abbrev BadRequest : {A : Type 0} → Checked A → Type 0
BadRequest (valid a) = Unit
BadRequest (rejected e) = (message : Text) × (e ≡ error_of bad_request message)

checked-BadRequest :
    {A : Type 0} (c : Checked A)
    → BadRequest c
    → ((a : A) × (c ≡ valid a)) ⊎ ((message : Text) × (c ≡ rejected (error_of bad_request message)))
checked-BadRequest (valid a) h = inl (a, refl)
checked-BadRequest (rejected e) (message, p) = inr (message, ap rejected p)

require_non_empty-BadRequest :
    (field : Text) (value : Option Text) → BadRequest (require_non_empty field value)
unfolding require_non_empty
require_non_empty-BadRequest field none = (_, refl)
require_non_empty-BadRequest field (some value) = elim (Bool-cases (is_empty (trim value))) [
  | inl blank ↦ rw blank (_, refl)
  | inr full ↦ rw full tt
]

require_kind-BadRequest : (kind : Option IngestKind) → BadRequest (require_kind kind)
unfolding require_kind
require_kind-BadRequest none = (_, refl)
require_kind-BadRequest (some kind) = tt

require_contents-BadRequest :
    (a b : Option Text) (kind : IngestKind) → BadRequest (require_contents a b kind)
unfolding require_contents
require_contents-BadRequest a b kind = elim (Bool-cases (has_payload a || has_payload b)) [
  | inl given ↦ rw given tt
  | inr absent ↦ rw absent (_, refl)
]

required_solution :
    (o : Option Text) (name : Text)
    → o ≡ some name
    → trim name ≡ reserved_solution
    → require_non_empty (codes "solution") o ≡ valid reserved_solution
unfolding require_non_empty
required_solution o name e r = rw (e, require_non_empty, r) refl

module _ {H R : Type 0} where
  -- The answer is 400 and the registry is as it was.
  abbrev pub IsRefused : Checked R × SolutionRegistry H → SolutionRegistry H → Type 0
  IsRefused answer s =
      ((message : Text) × (answer.0 ≡ rejected (error_of bad_request message))) × (answer.1 ≡ s)

  -- What a check comes to when it refuses a reserved name at the latest.
  abbrev AsksReserved : Checked (Text × (H → Outcome R)) → Type 0
  AsksReserved (rejected e) = (message : Text) × (e ≡ error_of bad_request message)
  AsksReserved (valid (solution, ingest)) = solution ≡ reserved_solution

  refuses_reserved :
      (config : SolutionRegistryConfig) (call : Call H) (checked : Checked (Text × (H → Outcome R)))
      (s : SolutionRegistry H)
      → AsksReserved checked
      → IsRefused (dispatch config call checked s) s
  unfolding dispatch
  refuses_reserved config call (rejected e) s (message, p) = ((message, ap rejected p), refl)
  refuses_reserved config call (valid (solution, ingest)) s p =
      subst (λ t. IsRefused (dispatch config call (valid (t, ingest)) s) s) (sym p)
        (unfold control_for_solution trim in ((_, refl), refl))

module _ {H C R : Type 0} where
  reserved_payload :
      (control : Control H C R) (p : IngestPayload) (name : Text)
      → p.solution ≡ some name
      → trim name ≡ reserved_solution
      → AsksReserved (check_payload control p)
  unfolding check_payload
  reserved_payload control p name e r =
      rw (required_solution p.solution name e r)
        (elim (checked-BadRequest (require_non_empty (codes "project_id") p.project_id)
          (require_non_empty-BadRequest (codes "project_id") p.project_id)) [
            | inr (m, a) ↦ rw a (m, refl)
            | inl (project_id, a) ↦
                rw a
                  (elim (checked-BadRequest (require_kind p.kind)
                    (require_kind-BadRequest p.kind)) [
                      | inr (m, b) ↦ rw b (m, refl)
                      | inl (kind, b) ↦
                          rw b
                            (elim (checked-BadRequest
                              (require_contents p.contents p.contents_path kind)
                              (require_contents-BadRequest p.contents p.contents_path kind)) [
                                | inr (m, c) ↦ rw c (m, refl)
                                | inl (u, c) ↦ rw c refl
                              ])
                    ])
          ])

  reserved_csharp :
      (control : Control H C R) (p : CsharpIngestPayload) (name : Text)
      → p.solution ≡ some name
      → trim name ≡ reserved_solution
      → AsksReserved (check_csharp control p)
  unfolding check_csharp
  reserved_csharp control p name e r =
      rw (required_solution p.solution name e r)
        (elim (checked-BadRequest (require_non_empty (codes "project_id") p.project_id)
          (require_non_empty-BadRequest (codes "project_id") p.project_id)) [
            | inr (m, a) ↦ rw a (m, refl)
            | inl (project_id, a) ↦ rw a refl
          ])

  reserved_rustdoc :
      (control : Control H C R) (p : RustdocIngestPayload) (name : Text)
      → p.solution ≡ some name
      → trim name ≡ reserved_solution
      → AsksReserved (check_rustdoc control p)
  unfolding check_rustdoc
  reserved_rustdoc control p name e r =
      rw (required_solution p.solution name e r)
        (elim (checked-BadRequest (require_non_empty (codes "project_id") p.project_id)
          (require_non_empty-BadRequest (codes "project_id") p.project_id)) [
            | inr (m, a) ↦ rw a (m, refl)
            | inl (project_id, a) ↦ rw a refl
          ])

  -- Whatever else a body holds, each of the three endpoints answers one that names the reserved
  -- solution, with blanks around it or not, with 400, and leaves the registry as it was.
  pub reserved_solution_lem :
      (config : SolutionRegistryConfig) (call : Call H) (control : Control H C R) (name : Text)
      (s : SolutionRegistry H)
      → trim name ≡ reserved_solution
      → ((p : IngestPayload)
          → p.solution ≡ some name
          → IsRefused (ingest_payload config call control p s) s)
        × ((p : CsharpIngestPayload)
            → p.solution ≡ some name
            → IsRefused (ingest_csharp config call control p s) s)
        × ((p : RustdocIngestPayload)
            → p.solution ≡ some name
            → IsRefused (ingest_rustdoc config call control p s) s)
  unfolding ingest_payload ingest_csharp ingest_rustdoc
  reserved_solution_lem config call control name s r = (
    λ p e.
        refuses_reserved config call (check_payload control p) s
          (reserved_payload control p name e r),
    λ p e.
        refuses_reserved config call (check_csharp control p) s
          (reserved_csharp control p name e r),
    λ p e.
        refuses_reserved config call (check_rustdoc control p) s
          (reserved_rustdoc control p name e r),
  )
