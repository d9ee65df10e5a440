-- ===== src/Store/Rows.antt =====
-- `merge_relation_rows`, `ensure_identifier` and `limit_to_i64` of
-- crates/lib/docx-core/src/store/surreal.rs.
use docx_mcp.Base.{
  ℕ, ◌^◌, Bool, ◌||◌, ◌&&◌, not, Option, none, some, List, ◌++◌, ◌≡◌, refl, ap, if◌then◌else◌, Eq,
  ◌==◌, nat_eq, list_eq, pair_eq, option_eq, is_empty, map, map-append, Bool-cases, inl, inr, ltb,
  leb,
}
use docx_mcp.Text.{Text, all_chars}
use docx_mcp.Collections.HashSet.{contains, Distinct, Distinct-append, contains-append}
use docx_mcp.Collections.KeepFirst.{
  keep_first, keep_first-Distinct, keep_first-unseen, contains-keep_first,
}
use docx_mcp.Models.{RelationRecord}

abbrev pub RowKey : Type 0
RowKey = Text × (Text × Option Text)

instance abbrev pub row_key_eq : Eq RowKey
row_key_eq =
    pair_eq ⦃e = list_eq {A = ℕ}⦄
      ⦃d = pair_eq ⦃e = list_eq {A = ℕ}⦄ ⦃d = option_eq ⦃e = list_eq {A = ℕ}⦄⦄⦄

abbrev pub row_key : RelationRecord → RowKey
row_key r = (r.in_id, (r.out_id, r.kind))

unfoldable pub merge_relation_rows : List RelationRecord → List RelationRecord → List RelationRecord
merge_relation_rows left right = left ++ keep_first row_key (map row_key left) right

unfoldable pub is_ascii_alphanumeric : ℕ → Bool
is_ascii_alphanumeric c = leb 48 c && leb c 57 || leb 65 c && leb c 90 || leb 97 c && leb c 122

-- `false` is the `InvalidInput` error.
unfoldable pub ensure_non_empty : Text → Bool
ensure_non_empty value = not (is_empty value)

unfoldable pub ensure_identifier : Text → Bool
unfolding is_ascii_alphanumeric
ensure_identifier value =
    not (is_empty value || not (all_chars (λ c. is_ascii_alphanumeric c || c == 95) value))

-- `i64::try_from(limit)`
unfoldable pub limit_to_i64 : ℕ → Option ℕ
limit_to_i64 limit = if ltb limit (2 ^ 63) then some limit else none

abbrev added : List RelationRecord → List RelationRecord → List RelationRecord
added left right = keep_first row_key (map row_key left) right

contains-merge_relation_rows :
    (left right : List RelationRecord) (k : RowKey)
    → contains k (map row_key (merge_relation_rows left right))
      ≡ (contains k (map row_key left) || contains k (map row_key right))
unfolding merge_relation_rows
contains-merge_relation_rows left right k =
    rw
      (
        map-append row_key left (added left right),
        contains-append k (map row_key left) (map row_key (added left right)),
      )
      (elim (Bool-cases (contains k (map row_key left))) [
        | inl old ↦ rw old refl
        | inr new ↦
            ap (◌||◌ (contains k (map row_key left)))
              (contains-keep_first row_key k (map row_key left) right new)
      ])

merge_relation_rows-Distinct :
    (left right : List RelationRecord)
    → Distinct (map row_key left)
    → Distinct (map row_key (merge_relation_rows left right))
unfolding merge_relation_rows
merge_relation_rows-Distinct left right d = rw (map-append row_key left (added left right)) (
    Distinct-append (map row_key left) (map row_key (added left right)) d
      (keep_first-Distinct row_key (map row_key left) right)
      (λ k h. keep_first-unseen row_key k (map row_key left) right h))

-- The merged rows start with the rows on the left, and a key occurs among them exactly when it occurs
-- on the left or on the right; where the keys on the left are distinct, all keys are.
pub merge_relation_rows_lem :
    (left right : List RelationRecord)
    → ((k : RowKey)
        → contains k (map row_key (merge_relation_rows left right))
          ≡ (contains k (map row_key left) || contains k (map row_key right)))
      × ((rest : List RelationRecord) × (merge_relation_rows left right ≡ left ++ rest))
      × (Distinct (map row_key left) → Distinct (map row_key (merge_relation_rows left right)))
unfolding merge_relation_rows
merge_relation_rows_lem left right = (
  contains-merge_relation_rows left right,
  (added left right, refl),
  merge_relation_rows-Distinct left right,
)
