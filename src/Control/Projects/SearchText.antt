-- ===== src/Control/Projects/SearchText.antt =====
-- The search values and the search text of a project.
use docx_mcp.Base.{
  Bool, true, false, ◌||◌, ◌&&◌, not, List, [], ◌∷◌, ◌≡◌, refl, sym, ◌∙◌, arith, ◌==◌, nat_eq,
  list_eq, eq_iff, is_empty, is_some, Bool-cases, inl, inr, Option, none, some, Option-cases,
}
use docx_mcp.Text.{Text, trim}
use docx_mcp.Collections.HashSet.{contains, Distinct, contains-append, Distinct-snoc}
use docx_mcp.Models.{Project}
use docx_mcp.Control.Projects.{
  fold_key, push_search_value, push_search_values, search_inputs, search_values,
  build_project_search_text,
}

module _ (to_lowercase : Text → Text) where
  contains-push_search_value :
      (k input : Text) (ordered : List Text)
      → contains k (push_search_value to_lowercase ordered input)
        ≡ ((not (is_empty (trim input)) && k == fold_key to_lowercase input) || contains k ordered)
  unfolding push_search_value contains
  contains-push_search_value k input ordered = ground (
    arith,
    contains-append k ordered (fold_key to_lowercase input ∷ []),
    eq_iff k (fold_key to_lowercase input),
  )

  push_search_value-Distinct :
      (input : Text) (ordered : List Text)
      → Distinct ordered
      → Distinct (push_search_value to_lowercase ordered input)
  unfolding push_search_value
  push_search_value-Distinct input ordered d = elim (Bool-cases (is_empty (trim input))) [
    | inl blank ↦ rw blank d
    | inr full ↦ elim (Bool-cases (contains (fold_key to_lowercase input) ordered)) [
      | inl old ↦ rw (full, old) d
      | inr new ↦ rw (full, new) (Distinct-snoc ordered (fold_key to_lowercase input) d new)
    ]
  ]

  push_search_values-Distinct :
      (inputs ordered : List Text)
      → Distinct ordered
      → Distinct (push_search_values to_lowercase ordered inputs)
  unfolding push_search_values
  push_search_values-Distinct [] ordered d = d
  push_search_values-Distinct (i ∷ is) ordered d =
      push_search_values-Distinct is _ (push_search_value-Distinct i ordered d)

  -- Whether `k` is the key of a text: it trimmed and in lower case, unless it is blank.
  abbrev pub is_key : Text → Text → Bool
  is_key k value = not (is_empty (trim value)) && k == to_lowercase (trim value)

  abbrev pub is_asked : Text → List Text → Bool
  is_asked k [] = false
  is_asked k (i ∷ is) = is_key k i || is_asked k is

  abbrev pub is_name_key : Text → Option Text → Bool
  is_name_key k none = false
  is_name_key k (some name) = is_key k name

  contains-push_search_values :
      (k : Text) (inputs ordered : List Text)
      → contains k (push_search_values to_lowercase ordered inputs)
        ≡ (contains k ordered || is_asked k inputs)
  unfolding push_search_values
  contains-push_search_values k [] ordered = ground arith
  contains-push_search_values k (i ∷ is) ordered = ground (
    arith,
    contains-push_search_values k is (push_search_value to_lowercase ordered i),
    contains-push_search_value k i ordered,
  )

  is_asked-search_inputs :
      (k : Text) (project : Project)
      → is_asked k (search_inputs to_lowercase project) ≡ (
          is_key k project.project_id || (is_name_key k project.name || is_asked k project.aliases))
  is_asked-search_inputs k project = elim (Option-cases project.name) [
    | inl e ↦ rw e refl
    | inr (name, e) ↦ rw e refl
  ]

  -- The search values of a project are distinct, and they are the keys of its id, its name and its
  -- aliases that are not blank, no more and no fewer.
  pub search_values_lem :
      (project : Project)
      → Distinct (search_values to_lowercase project)
        × ((k : Text)
            → contains k (search_values to_lowercase project) ≡ (
                is_key k project.project_id
                || (is_name_key k project.name || is_asked k project.aliases)))
  unfolding search_values contains
  search_values_lem project = (
    push_search_values-Distinct (search_inputs to_lowercase project) [] tt,
    λ k.
        contains-push_search_values k (search_inputs to_lowercase project) []
        ∙ is_asked-search_inputs k project,
  )

  has_values : (values : List Text) (k : Text) → contains k values ≡ true → is_empty values ≡ false
  unfolding contains
  has_values [] k h = sym h
  has_values (v ∷ vs) k h = refl

  pub search_text_given :
      (project : Project)
      → is_empty (trim project.project_id) ≡ false
      → is_some (build_project_search_text to_lowercase project) ≡ true
  unfolding build_project_search_text
  search_text_given project full =
      rw
        (has_values (search_values to_lowercase project) (fold_key to_lowercase project.project_id)
          ((search_values_lem project).1 (fold_key to_lowercase project.project_id)
            ∙ ground (
              arith,
              eq_iff (fold_key to_lowercase project.project_id)
                  (fold_key to_lowercase project.project_id),
            )))
        refl
