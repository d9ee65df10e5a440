-- ===== src/Store/IngestIds.antt =====
-- The ids of ingests in crates/lib/docx-core/src/store/surreal.rs: `make_scoped_ingest_id`,
-- `normalize_ingest_filter_ids` and `merge_ingest_extra`.
use docx_mcp.Base.{
  Bool, true, false, ◌||◌, Option, none, some, List, [], ◌∷◌, ◌++◌, ◌≡◌, ◌≢◌, refl, ap, sym, ◌∙◌,
  arith, if◌then◌else◌, ◌==◌, nat_eq, list_eq, eq_iff, ne_eq, eq_sound, is_empty, Bool-cases,
  Option-cases, ◌⊎◌, inl, inr, subst, In,
}
use docx_mcp.Text.{Text, codes, trim, strip_prefix, starts_with, starts_with-append}
use docx_mcp.Collections.HashSet.{contains, Distinct, Distinct-snoc, contains-append}
use docx_mcp.Models.{Value, Fields, put_field, get_field, get_value}

-- `format!("{project_id}::")`
abbrev pub scope_prefix : Text → Text
scope_prefix project_id = project_id ++ codes "::"

unfoldable pub make_scoped_ingest_id : Text → Text → Text
make_scoped_ingest_id project_id ingest_id =
    if starts_with ingest_id (scope_prefix project_id)
    then ingest_id
    else scope_prefix project_id ++ ingest_id

-- `unique.insert(id)` before `normalized.push(id)`: the two hold the same ids.
unfoldable pub push_new : Text → List Text → List Text
push_new id normalized = if contains id normalized then normalized else normalized ++ id ∷ []

-- One round of the loop.
unfoldable pub add_ingest_id : Text → Text → List Text → List Text
unfolding push_new
add_ingest_id project_id ingest_id normalized =
    let trimmed = trim ingest_id in
    let pushed = push_new trimmed normalized in
    if is_empty trimmed then normalized else elim (strip_prefix trimmed (scope_prefix project_id)) [
      | none ↦ pushed
      | some stripped ↦ if is_empty stripped then pushed else push_new stripped pushed
    ]

unfoldable pub add_ingest_ids : Text → List Text → List Text → List Text
unfolding add_ingest_id
add_ingest_ids project_id [] normalized = normalized
add_ingest_ids project_id (i ∷ is) normalized =
    add_ingest_ids project_id is (add_ingest_id project_id i normalized)

unfoldable pub normalize_ingest_filter_ids : Text → List Text → List Text
unfolding add_ingest_ids
normalize_ingest_filter_ids project_id ingest_ids = add_ingest_ids project_id ingest_ids []

abbrev requested : Text
requested = codes "requested_ingest_id"

unfoldable pub extra_fields : Option Value → Fields
extra_fields none = Fields.end
extra_fields (some (Value.obj fields)) = fields
extra_fields (some value) = Fields.field (codes "value") value Fields.end

unfoldable pub merge_ingest_extra : Option Value → Text → Value
unfolding extra_fields
merge_ingest_extra existing requested_ingest_id = Value.obj (
    put_field (codes "requested_ingest_id") (Value.str requested_ingest_id) (extra_fields existing))

-- Scoping an id a second time changes nothing, and a scoped id starts with the project's scope.
pub make_scoped_ingest_id_lem :
    (project_id ingest_id : Text)
    → (make_scoped_ingest_id project_id (make_scoped_ingest_id project_id ingest_id)
        ≡ make_scoped_ingest_id project_id ingest_id)
      × (starts_with (make_scoped_ingest_id project_id ingest_id) (scope_prefix project_id) ≡ true)
unfolding make_scoped_ingest_id
make_scoped_ingest_id_lem project_id ingest_id =
    elim (Bool-cases (starts_with ingest_id (scope_prefix project_id))) [
      | inl scoped ↦ (rw (scoped, scoped) refl, rw scoped scoped)
      | inr new ↦ (
        rw (new, starts_with-append (scope_prefix project_id) ingest_id) refl,
        rw new (starts_with-append (scope_prefix project_id) ingest_id),
      )
    ]

-- The ids that a filter entry asks for: the id, trimmed, and what follows the project's scope in it.
abbrev pub Asks : Text → Text → Text → Type 0
Asks project_id ingest_id id =
    (id ≢ [])
    × ((trim ingest_id ≡ id) ⊎ (strip_prefix (trim ingest_id) (scope_prefix project_id) ≡ some id))

contains-push_new :
    (k id : Text) (ids : List Text) → contains k (push_new id ids) ≡ (k == id || contains k ids)
unfolding push_new contains
contains-push_new k id ids = ground (arith, contains-append k ids (id ∷ []), eq_iff k id)

push_new-Distinct : (id : Text) (ids : List Text) → Distinct ids → Distinct (push_new id ids)
unfolding push_new
push_new-Distinct id ids d = elim (Bool-cases (contains id ids)) [
  | inl old ↦ rw old d
  | inr new ↦ rw new (Distinct-snoc ids id d new)
]

add_ingest_id-Distinct :
    (project_id i : Text) (ids : List Text)
    → Distinct ids
    → Distinct (add_ingest_id project_id i ids)
unfolding add_ingest_id
add_ingest_id-Distinct project_id i ids d = elim (Bool-cases (is_empty (trim i))) [
  | inl blank ↦ rw blank d
  | inr full ↦ rw full (elim (Option-cases (strip_prefix (trim i) (scope_prefix project_id))) [
    | inl e ↦ rw e (push_new-Distinct (trim i) ids d)
    | inr (r, e) ↦ rw e (elim (Bool-cases (is_empty r)) [
      | inl b ↦ rw b (push_new-Distinct (trim i) ids d)
      | inr f ↦ rw f (push_new-Distinct r _ (push_new-Distinct (trim i) ids d))
    ])
  ])
]

add_ingest_ids-Distinct :
    (project_id : Text) (is ids : List Text)
    → Distinct ids
    → Distinct (add_ingest_ids project_id is ids)
unfolding add_ingest_ids
add_ingest_ids-Distinct project_id [] ids d = d
add_ingest_ids-Distinct project_id (i ∷ is) ids d =
    add_ingest_ids-Distinct project_id is _ (add_ingest_id-Distinct project_id i ids d)

split_or : (a b : Bool) → (a || b) ≡ true → (a ≡ true) ⊎ (b ≡ true)
split_or true b h = inl refl
split_or false b h = inr h

empty_not : {t : Text} → is_empty t ≡ false → t ≢ []
empty_not e p = ground (arith, ap is_empty p)

pushed :
    (project_id i k : Text) (ids : List Text)
    → is_empty (trim i) ≡ false
    → contains k (push_new (trim i) ids) ≡ true
    → (contains k ids ≡ true) ⊎ Asks project_id i k
pushed project_id i k ids full g =
    elim (split_or (k == trim i) (contains k ids) (sym (contains-push_new k (trim i) ids) ∙ g)) [
      | inl same ↦
          let p : k ≡ trim i = eq_sound k (trim i) same in
          inr (subst (λ t. Asks project_id i t) (sym p) (empty_not full, inl refl))
      | inr old ↦ inl old
    ]

-- What one round contributes.
contains-add_ingest_id :
    (project_id i k : Text) (ids : List Text)
    → contains k (add_ingest_id project_id i ids) ≡ true
    → (contains k ids ≡ true) ⊎ Asks project_id i k
unfolding add_ingest_id
contains-add_ingest_id project_id i k ids h = elim (Bool-cases (is_empty (trim i))) [
  | inl blank ↦ inl (rw blank at h)
  | inr full ↦ elim (Option-cases (strip_prefix (trim i) (scope_prefix project_id))) [
    | inl e ↦
        pushed project_id i k ids full
          (let g : contains k (push_new (trim i) ids) ≡ true = rw (full, e) at h in g)
    | inr (r, e) ↦ elim (Bool-cases (is_empty r)) [
      | inl b ↦
          pushed project_id i k ids full
            (let g : contains k (push_new (trim i) ids) ≡ true = rw (full, e, b) at h in g)
      | inr f ↦
          elim (split_or (k == r) (contains k (push_new (trim i) ids)) (
            let g : contains k (push_new r (push_new (trim i) ids)) ≡ true = rw (full, e, f) at h in
            sym (contains-push_new k r (push_new (trim i) ids)) ∙ g)) [
              | inl same ↦
                  let p : k ≡ r = eq_sound k r same in
                  inr (subst (λ t. Asks project_id i t) (sym p) (empty_not f, inr e))
              | inr g ↦ pushed project_id i k ids full g
            ]
    ]
  ]
]

contains-add_ingest_ids :
    (project_id : Text) (is : List Text) (k : Text) (ids : List Text)
    → contains k (add_ingest_ids project_id is ids) ≡ true
    → (contains k ids ≡ true) ⊎ ((i : Text) × In i is × Asks project_id i k)
unfolding add_ingest_ids
contains-add_ingest_ids project_id [] k ids h = inl h
contains-add_ingest_ids project_id (i ∷ is) k ids h =
    elim (contains-add_ingest_ids project_id is k (add_ingest_id project_id i ids) h) [
      | inl one ↦ elim (contains-add_ingest_id project_id i k ids one) [
        | inl old ↦ inl old
        | inr asked ↦ inr (i, inl refl, asked)
      ]
      | inr (j, m, asked) ↦ inr (j, inr m, asked)
    ]

-- The normalized filter holds no id twice, and each of its ids is one that an entry of the filter
-- asks for, trimmed or without the scope; none is empty.
pub normalize_ingest_filter_ids_lem :
    (project_id : Text) (ingest_ids : List Text)
    → Distinct (normalize_ingest_filter_ids project_id ingest_ids)
      × ((k : Text)
          → contains k (normalize_ingest_filter_ids project_id ingest_ids) ≡ true
          → (i : Text) × In i ingest_ids × Asks project_id i k)
unfolding normalize_ingest_filter_ids
normalize_ingest_filter_ids_lem project_id ingest_ids = (
  add_ingest_ids-Distinct project_id ingest_ids [] tt,
  λ k h. elim (contains-add_ingest_ids project_id ingest_ids k [] h) [
    | inl old ↦ absurd (unfold contains in ground (arith, old))
    | inr asked ↦ asked
  ],
)

get_field-put_field :
    (k j : Text) (v : Value) (fs : Fields)
    → get_field k (put_field j v fs) ≡ (if k == j then some v else get_field k fs)
get_field-put_field k j v Fields.end = refl
get_field-put_field k j v (Fields.field i w fs) =
    ground (arith, get_field-put_field k j v fs, eq_iff j i, eq_iff k j, eq_iff k i)

kept_value :
    (value : Value)
    → ((fs : Fields) → value ≢ Value.obj fs)
    → get_field (codes "value") (extra_fields (some value)) ≡ some value
unfolding extra_fields
kept_value Value.null plain = refl
kept_value (Value.bool b) plain = refl
kept_value (Value.num n) plain = refl
kept_value (Value.other_num t) plain = refl
kept_value (Value.str t) plain = refl
kept_value (Value.arr items) plain = refl
kept_value (Value.obj fs) plain = absurd (plain fs refl)

-- The merged value names the requested ingest, and keeps every other field of an object that was there;
-- a value that was there and is no object is kept under `value`.
pub merge_ingest_extra_lem :
    (id k : Text) (fields : Fields) (value : Value)
    → ((existing : Option Value)
        → get_value (merge_ingest_extra existing id) (codes "requested_ingest_id")
          ≡ some (Value.str id))
      × (k ≢ codes "requested_ingest_id"
          → get_value (merge_ingest_extra (some (Value.obj fields)) id) k ≡ get_field k fields)
      × (((fs : Fields) → value ≢ Value.obj fs)
          → get_value (merge_ingest_extra (some value) id) (codes "value") ≡ some value)
unfolding merge_ingest_extra
merge_ingest_extra_lem id k fields value = (
  λ existing. get_field-put_field requested requested (Value.str id) (extra_fields existing),
  λ other.
      get_field-put_field k requested (Value.str id) fields
      ∙ ground (arith, ne_eq k requested other),
  λ plain.
      get_field-put_field (codes "value") requested (Value.str id) (extra_fields (some value))
      ∙ kept_value value plain,
)
