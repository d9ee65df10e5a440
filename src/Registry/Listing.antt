-- ===== src/Registry/Listing.antt =====
-- `list_solutions`, and what `evict_idle` and `remove_solution` leave.
use docx_mcp.Base.{
  ℕ, ◌+◌, ◌≤◌, ◌||◌, Option, none, some, List, [], ◌∷◌, ◌≡◌, refl, ap, sym, subst, ◌∙◌, arith, leb,
  nat_eq, list_eq, if◌then◌else◌, length, map, eq_iff, In, inl, inr, ◌⊎◌, All, Option-cases,
}
use docx_mcp.Text.{Text}
use docx_mcp.Collections.HashSet
use docx_mcp.Collections.HashSet.{contains, Distinct, Distinct-snoc, contains-append}
use docx_mcp.Collections.HashMap
use docx_mcp.Collections.Sort.{
  sort_by, IsSorted, sort_by-IsSorted, contains-sort_by, sort_by-Distinct,
}
use docx_mcp.Registry.{
  SolutionRegistryConfig, SolutionRegistry, SolutionEntry, idle_for, retain, evict_with, evict_idle,
}

module _ {H : Type 0} where
  -- The first entry with a live handle. The order of `map.values()` is arbitrary; it is the order of
  -- the list, which is arbitrary too.
  unfoldable pub live_handle : (ℕ → SolutionEntry H) → List (Text × ℕ) → Option H
  live_handle heap [] = none
  live_handle heap ((key, a) ∷ rest) = elim (heap a).handle [
    | some handle ↦ some handle
    | none ↦ live_handle heap rest
  ]

-- `names.extend(…)` of a set
unfoldable pub extend : List Text → List Text → List Text
extend names [] = names
extend names (k ∷ ks) = extend (HashSet.insert k names) ks

module _ {H : Type 0} where
  -- `discover` is the answer of the configured discovery function, if there is one, and
  -- `list_databases` what a handle's namespace query returns.
  unfoldable pub database_names :
      Option (List Text) → (H → List Text) → SolutionRegistry H → List Text
  unfolding live_handle
  database_names (some names) list_databases s = names
  database_names none list_databases s = elim (live_handle s.heap s.entries) [
    | some handle ↦ list_databases handle
    | none ↦ []
  ]

  unfoldable pub list_solutions :
      Option (List Text) → (H → List Text) → SolutionRegistry H → List Text
  unfolding extend database_names
  list_solutions discover list_databases s =
      sort_by (λ name. name)
        (extend (extend [] (database_names discover list_databases s)) (HashMap.keys s.entries))

insert-Distinct : (k : Text) (s : List Text) → Distinct s → Distinct (HashSet.insert k s)
unfolding HashSet.insert
insert-Distinct k s d = ground arith

extend-Distinct : (s ks : List Text) → Distinct s → Distinct (extend s ks)
unfolding extend
extend-Distinct s [] d = d
extend-Distinct s (k ∷ ks) d = extend-Distinct (HashSet.insert k s) ks (insert-Distinct k s d)

contains-extend :
    (n : Text) (s ks : List Text) → contains n (extend s ks) ≡ (contains n s || contains n ks)
unfolding extend contains
contains-extend n s [] = ground arith
contains-extend n s (k ∷ ks) =
    ground (arith, contains-extend n (HashSet.insert k s) ks, HashSet.contains-insert n k s)

map-id : (l : List Text) → map (λ n. n) l ≡ l
map-id [] = refl
map-id (x ∷ xs) = ap (◌∷◌ x) (map-id xs)

contains-sort : (n : Text) (l : List Text) → contains n (sort_by (λ m. m) l) ≡ contains n l
contains-sort n l =
    ap (contains n) (sym (map-id (sort_by (λ m. m) l)))
    ∙ contains-sort_by (λ m. m) (λ m. m) n l
    ∙ ap (contains n) (map-id l)

sort-Distinct : (l : List Text) → Distinct l → Distinct (sort_by (λ m. m) l)
sort-Distinct l d =
    subst Distinct (map-id (sort_by (λ m. m) l))
      (sort_by-Distinct (λ m. m) (λ m. m) l (subst Distinct (sym (map-id l)) d))

module _ {H : Type 0} where
  -- What the databases that were found are: the answer of the discovery function, where there is one;
  -- otherwise those that the handle of some cached entry lists, or none where no entry has a handle.
  abbrev pub IsFound :
      Option (List Text) → (H → List Text) → SolutionRegistry H → List Text → Type 0
  IsFound (some names) list_databases s found = found ≡ names
  IsFound none list_databases s found =
      ((key : Text) × (a : ℕ) × (handle : H) × In (key, a) s.entries
        × ((s.heap a).handle ≡ some handle)
        × (found ≡ list_databases handle))
      ⊎ (All (λ e. (s.heap e.1).handle ≡ none) s.entries × (found ≡ []))

  live_handle-cases :
      (heap : ℕ → SolutionEntry H) (l : List (Text × ℕ))
      → ((key : Text) × (a : ℕ) × (handle : H) × In (key, a) l
          × ((heap a).handle ≡ some handle)
          × (live_handle heap l ≡ some handle))
        ⊎ (All (λ e. (heap e.1).handle ≡ none) l × (live_handle heap l ≡ none))
  unfolding live_handle
  live_handle-cases heap [] = inr (tt, refl)
  live_handle-cases heap ((key, a) ∷ rest) = elim (Option-cases (heap a).handle) [
    | inr (handle, e) ↦ inl (key, a, handle, inl refl, e, rw (e, live_handle) refl)
    | inl e ↦ elim (live_handle-cases heap rest) [
      | inl (k, b, handle, i, h, p) ↦ inl (k, b, handle, inr i, h, rw (e, live_handle) p)
      | inr (all, p) ↦ inr ((e, all), rw (e, live_handle) p)
    ]
  ]

  database_names-IsFound :
      (discover : Option (List Text)) (list_databases : H → List Text) (s : SolutionRegistry H)
      → IsFound discover list_databases s (database_names discover list_databases s)
  unfolding database_names
  database_names-IsFound (some names) list_databases s = refl
  database_names-IsFound none list_databases s = elim (live_handle-cases s.heap s.entries) [
    | inl (k, a, handle, i, h, p) ↦ inl (k, a, handle, i, h, rw (p, database_names) refl)
    | inr (all, p) ↦ inr (all, rw (p, database_names) refl)
  ]

  -- The list is sorted, names no solution twice, and holds exactly the cached solutions and the
  -- databases that were found: those of the discovery function, where there is one, and otherwise those
  -- that some live handle lists, or none where no entry has a handle.
  pub list_solutions_lem :
      (discover : Option (List Text)) (list_databases : H → List Text) (s : SolutionRegistry H)
      → let listed = list_solutions discover list_databases s in
        IsSorted (λ name. name) listed
        × Distinct listed
        × IsFound discover list_databases s (database_names discover list_databases s)
        × ((n : Text)
            → contains n listed ≡ (
                contains n (database_names discover list_databases s)
                || contains n (HashMap.keys s.entries)))
  unfolding list_solutions
  list_solutions_lem discover list_databases s =
      let found : List Text = database_names discover list_databases s in
      let cached : List Text = HashMap.keys s.entries in
      let names : List Text = extend (extend [] found) cached in
      (
        sort_by-IsSorted (λ name. name) names,
        sort-Distinct names (extend-Distinct _ cached (extend-Distinct [] found tt)),
        database_names-IsFound discover list_databases s,
        λ n.
            contains-sort n names
            ∙ contains-extend n (extend [] found) cached
            ∙ ap (λ b. b || contains n cached)
                (contains-extend n [] found ∙ unfold contains in refl),
      )

  -- What the sweeper keeps of an entry.
  abbrev pub kept_entry : ℕ → ℕ → (ℕ → SolutionEntry H) → Option ℕ → Option ℕ
  kept_entry ttl now heap none = none
  kept_entry ttl now heap (some a) = if leb (idle_for (heap a) now) ttl then some a else none

  get-retain :
      (ttl now : ℕ) (heap : ℕ → SolutionEntry H) (n : Text) (l : List (Text × ℕ))
      → Distinct (HashMap.keys l)
      → HashMap.get n (retain ttl now heap l) ≡ kept_entry ttl now heap (HashMap.get n l)
  unfolding retain HashMap.get
  get-retain ttl now heap n [] d = refl
  get-retain ttl now heap n ((k, a) ∷ l) (h, d) =
      ground (arith, get-retain ttl now heap n l d, HashMap.get-contains k l, eq_iff n k)

  length-retain-le :
      (ttl now : ℕ) (heap : ℕ → SolutionEntry H) (l : List (Text × ℕ))
      → length (retain ttl now heap l) ≤ length l
  unfolding retain
  length-retain-le ttl now heap [] = omega arith
  length-retain-le ttl now heap ((j, a) ∷ l) = ground (arith, length-retain-le ttl now heap l)

  -- With a TTL, and a map in which no solution stands twice, a sweep keeps exactly the entries that
  -- have been idle for at most the TTL, and reports how many it dropped.
  pub evict_idle_lem :
      (config : SolutionRegistryConfig) (now ttl : ℕ) (s : SolutionRegistry H)
      → config.ttl ≡ some ttl
      → Distinct (HashMap.keys s.entries)
      → let (dropped, t) = evict_idle config now s in
        ((n : Text) → HashMap.get n t.entries ≡ kept_entry ttl now s.heap (HashMap.get n s.entries))
        × (dropped + length t.entries ≡ length s.entries)
  unfolding evict_idle
  evict_idle_lem config now ttl s e d =
      rw (e, evict_with)
        (
          λ n. get-retain ttl now s.heap n s.entries d,
          omega (arith, length-retain-le ttl now s.heap s.entries),
        )
