-- ===== src/Control/Projects/Upsert.antt =====
-- What an upsert leaves of a project.
use docx_mcp.Base.{
  true, false, Option, none, some, List, [], ◌∷◌, ◌≡◌, ◌≢◌, refl, ap, sym, ◌∙◌, arith, nat_eq,
  list_eq, is_empty, is_none, is_some, unwrap_or, or_option, Bool-cases, inl, inr, subst,
}
use docx_mcp.Text.{Text, trim}
use docx_mcp.Models.{Project}
use docx_mcp.Control.Projects.{
  ProjectUpsertRequest, new_project, first, merge_aliases, with_request, with_search_text,
  upsert_project,
}
use docx_mcp.Control.Projects.SearchText.{search_text_given}

none_not_some : {A : Type 0} {a : A} → Option.none ≢ some a
none_not_some p = ground (arith, p)

some_injective : {A : Type 0} {a b : A} → some a ≡ some b → a ≡ b
some_injective p = ground (arith, p)

module _ (to_lowercase : Text → Text) where
  abbrev old_project : Option Project → ProjectUpsertRequest → Project
  old_project stored request = unwrap_or stored (new_project request.project_id)

  old_id :
      (stored : Option Project) (request : ProjectUpsertRequest)
      → ((p : Project) → stored ≡ some p → p.project_id ≡ request.project_id)
      → (old_project stored request).project_id ≡ request.project_id
  old_id none request same = refl
  old_id (some p) request same = same p refl

  named :
      (name old : Option Text) (aliases : List Text)
      → is_empty aliases ≡ false
      → is_some (or_option (or_option name old) (first aliases)) ≡ true
  named (some n) old aliases h = refl
  named none (some n) aliases h = refl
  named none none [] h = sym h
  named none none (alias ∷ rest) h = refl

  refused :
      (stored : Option Project) (request : ProjectUpsertRequest)
      → is_empty (trim request.project_id) ≡ true
      → upsert_project to_lowercase stored request ≡ none
  unfolding upsert_project
  refused stored request blank = rw blank refl

  upserted :
      (stored : Option Project) (request : ProjectUpsertRequest)
      → is_empty (trim request.project_id) ≡ false
      → upsert_project to_lowercase stored request
        ≡ some (
            with_search_text to_lowercase
              (with_request to_lowercase (old_project stored request) request))
  unfolding upsert_project
  upserted stored request full = rw full refl

  -- Where a stored project has the id of the request, an upsert is refused exactly when that id is
  -- blank; an accepted one keeps the id, has a search text, and has a name when it has an alias.
  pub upsert_project_lem :
      (stored : Option Project) (request : ProjectUpsertRequest)
      → ((p : Project) → stored ≡ some p → p.project_id ≡ request.project_id)
      → (is_none (upsert_project to_lowercase stored request) ≡ is_empty (trim request.project_id))
        × ((p : Project)
            → upsert_project to_lowercase stored request ≡ some p
            → (p.project_id ≡ request.project_id)
              × (is_some p.search_text ≡ true)
              × (is_empty p.aliases ≡ false → is_some p.name ≡ true))
  unfolding upsert_project
  upsert_project_lem stored request same = elim (Bool-cases (is_empty (trim request.project_id))) [
    | inl blank ↦
        (rw blank refl, λ p e. absurd (none_not_some (sym (refused stored request blank) ∙ e)))
    | inr full ↦ (
      rw full refl,
      λ p e.
          subst
            (λ q.
              (q.project_id ≡ request.project_id)
              × (is_some q.search_text ≡ true)
              × (is_empty q.aliases ≡ false → is_some q.name ≡ true))
            (some_injective (sym (upserted stored request full) ∙ e))
            (
              old_id stored request same,
              search_text_given to_lowercase
                  (with_request to_lowercase (old_project stored request) request)
                  (ap (λ t. is_empty (trim t)) (old_id stored request same) ∙ full),
              named request.name (old_project stored request).name
                  (merge_aliases to_lowercase (old_project stored request).aliases request.aliases),
            ),
    )
  ]
