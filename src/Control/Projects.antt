-- ===== src/Control/Projects.antt =====
-- `upsert_project`, `merge_aliases` and `build_project_search_text` of
-- crates/lib/docx-core/src/control/metadata.rs. `to_lowercase` of the Rust standard library follows
-- the Unicode tables, which are not in the repository: it is a parameter.
pub mod Aliases
pub mod SearchText
pub mod Upsert
use docx_mcp.Base.{
  Bool, true, false, ◌||◌, ◌&&◌, not, Option, none, some, List, [], ◌∷◌, ◌++◌, ◌≡◌, ◌≢◌, refl, ap,
  sym, ◌∙◌, arith, if◌then◌else◌, ◌==◌, nat_eq, list_eq, eq_iff, is_empty, is_none, is_some,
  unwrap_or, or_option, map, All, Bool-cases, ◌⊎◌, inl, inr, append_assoc, append-nil, In, subst,
}
use docx_mcp.Text.{Text, codes, trim, join}
use docx_mcp.Collections.HashSet.{
  contains, insert, Distinct, contains-insert, contains-append, Distinct-snoc,
}
use docx_mcp.Models.{Project}

pub record ProjectUpsertRequest : Type 0 where
  pub project_id : Text
  pub name : Option Text
  pub language : Option Text
  pub root_path : Option Text
  pub description : Option Text
  pub aliases : List Text

-- The project that is created where the store has none.
abbrev pub new_project : Text → Project
new_project project_id = record {
  id = none;
  project_id = project_id;
  name = none;
  language = none;
  root_path = none;
  description = none;
  aliases = [];
  search_text = none;
  extra = none;
}

abbrev pub first : List Text → Option Text
first [] = none
first (alias ∷ rest) = some alias

module _ (to_lowercase : Text → Text) where
  -- The key by which aliases and search values are told apart.
  abbrev pub fold_key : Text → Text
  fold_key value = to_lowercase (trim value)

  -- The keys of the aliases that a project has: `seen`, before the loop.
  unfoldable pub seen_aliases : List Text → List Text
  seen_aliases [] = []
  seen_aliases (alias ∷ rest) =
      let keys = seen_aliases rest in
      if is_empty (fold_key alias) then keys else insert (fold_key alias) keys

  unfoldable pub add_aliases : List Text → List Text → List Text → List Text
  add_aliases seen target [] = target
  add_aliases seen target (alias ∷ rest) =
      let trimmed = trim alias in
      let skipped = add_aliases seen target rest in
      let pushed = add_aliases (insert (to_lowercase trimmed) seen) (target ++ trimmed ∷ []) rest in
      if is_empty trimmed
      then skipped
      else if contains (to_lowercase trimmed) seen
      then skipped
      else pushed

  unfoldable pub merge_aliases : List Text → List Text → List Text
  unfolding seen_aliases add_aliases
  merge_aliases target incoming = add_aliases (seen_aliases target) target incoming

  -- `values` and `ordered` hold the same values.
  unfoldable pub push_search_value : List Text → Text → List Text
  push_search_value ordered input =
      if is_empty (trim input)
      then ordered
      else if contains (fold_key input) ordered
      then ordered
      else ordered ++ fold_key input ∷ []

  unfoldable pub push_search_values : List Text → List Text → List Text
  unfolding push_search_value
  push_search_values ordered [] = ordered
  push_search_values ordered (input ∷ rest) =
      push_search_values (push_search_value ordered input) rest

  -- The values of the project, in the order of the calls of `push_search_value`.
  abbrev pub search_inputs : Project → List Text
  search_inputs project =
      project.project_id
      ∷ ((elim project.name [ none ↦ [] | some name ↦ name ∷ [] ]) ++ project.aliases)

  unfoldable pub search_values : Project → List Text
  unfolding push_search_values
  search_values project = push_search_values [] (search_inputs project)

  unfoldable pub build_project_search_text : Project → Option Text
  unfolding search_values
  build_project_search_text project =
      if is_empty (search_values project)
      then none
      else some (join (search_values project) (codes "|"))

  -- The project before its search text is built.
  abbrev pub with_request : Project → ProjectUpsertRequest → Project
  with_request old request =
      let aliases = merge_aliases old.aliases request.aliases in
      record old {
        name = or_option (or_option request.name old.name) (first aliases);
        language = or_option request.language old.language;
        root_path = or_option request.root_path old.root_path;
        description = or_option request.description old.description;
        aliases = aliases;
      }

  abbrev pub with_search_text : Project → Project
  with_search_text project = record project { search_text = build_project_search_text project }

  -- The project that `upsert_project` hands to the store, given what the store has; none is the
  -- error for a blank id.
  unfoldable pub upsert_project : Option Project → ProjectUpsertRequest → Option Project
  unfolding merge_aliases build_project_search_text
  upsert_project stored request =
      if is_empty (trim request.project_id)
      then none
      else some (
          with_search_text
            (with_request (unwrap_or stored (new_project request.project_id)) request))
