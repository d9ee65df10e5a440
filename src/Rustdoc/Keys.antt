-- ===== src/Rustdoc/Keys.antt =====
-- `make_unique_symbol_key` and `qualified_name_for_item`.
use docx_mcp.Base.{
  ℕ, zero, suc, ◌+◌, ◌%◌, ◌^◌, ◌<◌, true, false, Option, none, some, List, [], ◌∷◌, ◌++◌, ◌≡◌, ◌≢◌,
  refl, sym, subst, ◌∙◌, arith, ◌==◌, nat_eq, list_eq, eq_iff, if◌then◌else◌, length, is_empty,
  Bool-cases, inl, inr, append-nil,
}
use docx_mcp.Text.{
  Text, codes, join, to_decimal, to_decimal-injective, starts_with, starts_with-append,
}
use docx_mcp.Schema.{make_symbol_key}
use docx_mcp.Collections.HashSet.{contains}

abbrev pub u32_mod : ℕ
u32_mod = 2 ^ 32

-- `{base_key}#{item_id}` and `{base_key}#{item_id}_{ordinal}`
unfoldable pub with_item : Text → ℕ → Text
with_item base_key item_id = base_key ++ (codes "#" ++ to_decimal item_id)

unfoldable pub with_ordinal : Text → ℕ → ℕ → Text
with_ordinal base_key item_id ordinal =
    base_key ++ (codes "#" ++ (to_decimal item_id ++ (codes "_" ++ to_decimal ordinal)))

-- The loop over `ordinal: u32`, with fuel: the first candidate that is not in use.
unfoldable pub next_free : ℕ → List Text → Text → ℕ → ℕ → Option Text
unfolding with_ordinal contains
next_free zero used base_key item_id ordinal = none
next_free (suc fuel) used base_key item_id ordinal =
    let candidate = with_ordinal base_key item_id ordinal in
    let rest = next_free fuel used base_key item_id ((ordinal + 1) % u32_mod) in
    if contains candidate used then rest else some candidate

-- The key with the set of used keys after it. One more round than there are used keys is enough.
unfoldable pub unique_key : List Text → Text → ℕ → Option (Text × List Text)
unfolding next_free with_item contains
unique_key used base_key item_id =
    if contains base_key used
    then if contains (with_item base_key item_id) used
      then (elim (next_free (suc (length used)) used base_key item_id 1) [
        | none ↦ none
        | some key ↦ some (key, key ∷ used)
      ])
      else some (with_item base_key item_id, with_item base_key item_id ∷ used)
    else some (base_key, base_key ∷ used)

unfoldable pub make_unique_symbol_key : List Text → Text → Text → ℕ → Option (Text × List Text)
unfolding unique_key make_symbol_key
make_unique_symbol_key used project_id qualified_name item_id =
    unique_key used (make_symbol_key (codes "rust") project_id qualified_name) item_id

unfoldable pub qualified_name_for_item : Text → List Text → Option Text → Text
qualified_name_for_item name module_path none =
    if is_empty module_path
    then name
    else if is_empty name
    then join module_path (codes "::")
    else join module_path (codes "::") ++ (codes "::" ++ name)
qualified_name_for_item name module_path (some owner) =
    if is_empty name then owner else owner ++ (codes "::" ++ name)

append_cancel : (s t u : Text) → s ++ t ≡ s ++ u → t ≡ u
append_cancel [] t u h = h
append_cancel (c ∷ s) t u h = append_cancel s t u (cc)

with_ordinal-injective :
    (base_key : Text) (item_id m n : ℕ)
    → with_ordinal base_key item_id m ≡ with_ordinal base_key item_id n
    → m ≡ n
unfolding with_ordinal
with_ordinal-injective base_key item_id m n h =
    let after_base = append_cancel base_key _ _ h in
    let after_hash = append_cancel (codes "#") _ _ after_base in
    let after_item = append_cancel (to_decimal item_id) _ _ after_hash in
    to_decimal-injective m n (append_cancel (codes "_") _ _ after_item)

-- A list without one occurrence of a text.
erase : Text → List Text → List Text
erase k [] = []
erase k (x ∷ xs) = if k == x then xs else x ∷ erase k xs

length-erase :
    (k : Text) (xs : List Text) → contains k xs ≡ true → suc (length (erase k xs)) ≡ length xs
unfolding erase contains
length-erase k [] h = absurd (cc)
length-erase k (x ∷ xs) h = ground (arith, length-erase k xs)

contains-erase : (k j : Text) (xs : List Text) → j ≢ k → contains j (erase k xs) ≡ contains j xs
unfolding erase contains
contains-erase k j [] h = refl
contains-erase k j (x ∷ xs) h = ground (arith, contains-erase k j xs h, eq_iff k x, eq_iff j x)

module _ (base_key : Text) (item_id : ℕ) where
  -- A key in use that is an earlier candidate does not matter to the later rounds.
  next_free-erase :
      (fuel : ℕ) (used : List Text) (o p : ℕ)
      → o < p
      → p + fuel < u32_mod
      → next_free fuel (erase (with_ordinal base_key item_id o) used) base_key item_id p
        ≡ next_free fuel used base_key item_id p
  unfolding next_free
  next_free-erase zero used o p lt small = refl
  next_free-erase (suc fuel) used o p lt small =
      let later : (p + 1) % u32_mod ≡ p + 1 = omega arith in
      rw (
        contains-erase (with_ordinal base_key item_id o) (with_ordinal base_key item_id p) used
            (λ e. absurd (omega (arith, with_ordinal-injective base_key item_id p o e))),
        later,
        next_free-erase fuel used o (p + 1) (omega arith) (omega arith),
      )

  next_free_step :
      (fuel : ℕ) (used : List Text) (o : ℕ)
      → contains (with_ordinal base_key item_id o) used ≡ true
      → o + 1 < u32_mod
      → next_free (suc fuel) used base_key item_id o ≡ next_free fuel used base_key item_id (o + 1)
  unfolding next_free
  next_free_step fuel used o taken small =
      let later : (o + 1) % u32_mod ≡ o + 1 = omega arith in rw (taken, later)

  -- With more rounds than used keys a free candidate is found.
  next_free_total :
      (fuel : ℕ) (used : List Text) (o : ℕ)
      → length used < fuel
      → o + fuel < u32_mod
      → (key : Text) × (next_free fuel used base_key item_id o ≡ some key)
  next_free_total zero used o h small = absurd (omega arith)
  next_free_total (suc fuel) used o h small =
      elim (Bool-cases (contains (with_ordinal base_key item_id o) used)) [
        | inl taken ↦
            let (key, found) =
              next_free_total fuel (erase (with_ordinal base_key item_id o) used) (o + 1)
                (omega (arith, length-erase (with_ordinal base_key item_id o) used taken))
                (omega arith) in
            (
              key,
              next_free_step fuel used o taken (omega arith)
                  ∙ sym (next_free-erase fuel used o (o + 1) (omega arith) (omega arith))
                  ∙ found,
            )
        | inr free ↦ (with_ordinal base_key item_id o, unfold next_free in rw free)
      ]

  next_free_sound :
      (fuel : ℕ) (used : List Text) (o : ℕ) (key : Text)
      → next_free fuel used base_key item_id o ≡ some key
      → (contains key used ≡ false) × (starts_with key base_key ≡ true)
  unfolding next_free with_ordinal
  next_free_sound zero used o key h = absurd (cc)
  next_free_sound (suc fuel) used o key h = ground (
    arith,
    next_free_sound fuel used ((o + 1) % u32_mod) key,
    starts_with-append base_key (codes "#" ++ (to_decimal item_id ++ (codes "_" ++ to_decimal o))),
  )

starts_with_refl : (s : Text) → starts_with s s ≡ true
starts_with_refl s = subst (λ t. starts_with t s ≡ true) (append-nil s) (starts_with-append s [])

-- What the code promises of a key: it was not used, and it extends the plain key.
abbrev pub IsFresh : List Text → Text → Text → Type 0
IsFresh used base_key key = (contains key used ≡ false) × (starts_with key base_key ≡ true)

unique_key-IsFresh :
    (used : List Text) (base_key : Text) (item_id : ℕ)
    → length used + 2 < u32_mod
    → (key : Text) × (unique_key used base_key item_id ≡ some (key, key ∷ used))
      × IsFresh used base_key key
unfolding unique_key
unique_key-IsFresh used base_key item_id small = elim (Bool-cases (contains base_key used)) [
  | inr free ↦ (base_key, rw free, (free, starts_with_refl base_key))
  | inl taken ↦ elim (Bool-cases (contains (with_item base_key item_id) used)) [
    | inr free ↦ (
      with_item base_key item_id,
      rw (taken, free),
      (free, unfold with_item in starts_with-append base_key _),
    )
    | inl taken' ↦
        let (key, found) =
          next_free_total base_key item_id (suc (length used)) used 1 (omega arith) (omega arith) in
        (
          key,
          rw (taken, taken', found),
          next_free_sound base_key item_id (suc (length used)) used 1 key found,
        )
  ]
]

-- Below 2^32 - 2 used keys the loop ends, at a key that was not in use, that is in use from then on,
-- and that extends the plain key of the item.
pub make_unique_symbol_key-IsFresh :
    (used : List Text) (project_id qualified_name : Text) (item_id : ℕ)
    → length used + 2 < u32_mod
    → (key : Text) × (make_unique_symbol_key used project_id qualified_name item_id
        ≡ some (key, key ∷ used))
      × IsFresh used (make_symbol_key (codes "rust") project_id qualified_name) key
unfolding make_unique_symbol_key
make_unique_symbol_key-IsFresh used project_id qualified_name item_id small =
    unique_key-IsFresh used (make_symbol_key (codes "rust") project_id qualified_name) item_id small

unique_key_sound :
    (used : List Text) (base_key : Text) (item_id : ℕ) (key : Text) (later : List Text)
    → unique_key used base_key item_id ≡ some (key, later)
    → IsFresh used base_key key × (later ≡ key ∷ used)
unfolding unique_key with_item
unique_key_sound used base_key item_id key later h = ground (
  arith,
  starts_with_refl base_key,
  starts_with-append base_key (codes "#" ++ to_decimal item_id),
  next_free_sound base_key item_id (suc (length used)) used 1 key,
)

-- Whenever a key is found it is fresh and is in use from then on.
pub make_unique_symbol_key_sound :
    (used : List Text) (project_id qualified_name : Text) (item_id : ℕ) (key : Text)
    (later : List Text)
    → make_unique_symbol_key used project_id qualified_name item_id ≡ some (key, later)
    → IsFresh used (make_symbol_key (codes "rust") project_id qualified_name) key
      × (later ≡ key ∷ used)
unfolding make_unique_symbol_key
make_unique_symbol_key_sound used project_id qualified_name item_id =
    unique_key_sound used (make_symbol_key (codes "rust") project_id qualified_name) item_id
