-- ===== src/Control/Projects/Aliases.antt =====
-- What merging aliases adds.
use docx_mcp.Base.{
  true, false, List, [], ◌∷◌, ◌++◌, ◌≡◌, ◌≢◌, refl, ap, sym, ◌∙◌, arith, nat_eq, list_eq, eq_iff,
  is_empty, map, Bool-cases, ◌⊎◌, inl, inr, append_assoc, append-nil, In, Bool, ◌||◌, ◌&&◌, not,
  ◌==◌, subst, fun_ext,
}
use docx_mcp.Text.{Text, trim}
use docx_mcp.Collections.HashSet.{contains, insert, Distinct, contains-insert}
use docx_mcp.Control.Projects.{seen_aliases, add_aliases, merge_aliases}

true_not_false : true ≢ false
true_not_false p = ground (arith, p)

-- Some of the incoming aliases that are not blank, trimmed, in their order.
pub data Picked : List Text → List Text → Type 0 where
  stop : Picked [] []
  skip :
      {alias : Text} {incoming added : List Text}
      → Picked incoming added
      → Picked (alias ∷ incoming) added
  pick :
      {alias : Text} {incoming added : List Text}
      → is_empty (trim alias) ≡ false
      → Picked incoming added
      → Picked (alias ∷ incoming) (trim alias ∷ added)

-- What `added` is to `incoming`, for keys that are taken: `added` are some of the incoming aliases that
-- are not blank; their keys are distinct and none of them was taken; and each incoming alias that is not
-- blank has a key that was taken or is the key of an alias of `added`.
pub record IsAdded (to_lowercase : Text → Text) (taken : Text → Bool) (incoming added : List Text)
    : Type 0 where
  pub picked : Picked incoming added
  pub distinct : Distinct (map to_lowercase added)
  pub fresh : (k : Text) → contains k (map to_lowercase added) ≡ true → taken k ≡ false
  pub covers :
      (alias : Text)
      → In alias incoming
      → is_empty (trim alias) ≡ false
      → (taken (to_lowercase (trim alias))
          || contains (to_lowercase (trim alias)) (map to_lowercase added))
        ≡ true

module _ (to_lowercase : Text → Text) where
  -- Whether `k` is the key of one of the aliases and not empty.
  abbrev pub has_key : List Text → Text → Bool
  has_key [] k = false
  has_key (alias ∷ rest) k =
      (not (is_empty (to_lowercase (trim alias))) && k == to_lowercase (trim alias))
      || has_key rest k

  contains-seen_aliases :
      (k : Text) (target : List Text)
      → contains k (seen_aliases to_lowercase target) ≡ has_key target k
  unfolding seen_aliases contains
  contains-seen_aliases k [] = refl
  contains-seen_aliases k (alias ∷ rest) = ground (
    arith,
    contains-seen_aliases k rest,
    contains-insert k (to_lowercase (trim alias)) (seen_aliases to_lowercase rest),
  )

  abbrev Adds : List Text → List Text → List Text → Type 0
  Adds seen target incoming =
      (added : List Text) × (add_aliases to_lowercase seen target incoming ≡ target ++ added)
      × IsAdded to_lowercase (λ k. contains k seen) incoming added

  or_left : {a : Bool} (b : Bool) → a ≡ true → (a || b) ≡ true
  or_left b e = ground (arith, e)

  or_right : (a : Bool) {b : Bool} → b ≡ true → (a || b) ≡ true
  or_right a e = ground (arith, e)

  contains_first : (k key : Text) (keys : List Text) → k ≡ key → contains k (key ∷ keys) ≡ true
  unfolding contains
  contains_first k key keys e = ground (arith, eq_iff k key)

  moved :
      (k key : Text) (seen added : List Text)
      → (contains k (insert key seen) || contains k (map to_lowercase added)) ≡ true
      → (contains k seen || contains k (key ∷ map to_lowercase added)) ≡ true
  unfolding contains
  moved k key seen added h = ground (arith, contains-insert k key seen)

  skip_alias :
      (alias : Text) (seen rest added : List Text)
      → (is_empty (trim alias) ≡ true) ⊎ (contains (to_lowercase (trim alias)) seen ≡ true)
      → IsAdded to_lowercase (λ k. contains k seen) rest added
      → IsAdded to_lowercase (λ k. contains k seen) (alias ∷ rest) added
  skip_alias alias seen rest added why a = record {
    distinct = a.distinct;
    fresh = a.fresh;
    picked = skip a.picked;
    covers = λ x i f. elim i [
      | inl p ↦ elim why [
        | inl blank ↦ absurd (true_not_false (sym blank ∙ ap (λ t. is_empty (trim t)) (sym p) ∙ f))
        | inr old ↦ or_left _ (ap (λ t. contains (to_lowercase (trim t)) seen) p ∙ old)
      ]
      | inr j ↦ a.covers x j f
    ];
  }

  push_alias :
      (alias : Text) (seen rest added : List Text)
      → is_empty (trim alias) ≡ false
      → contains (to_lowercase (trim alias)) seen ≡ false
      → IsAdded to_lowercase (λ k. contains k (insert (to_lowercase (trim alias)) seen)) rest added
      → IsAdded to_lowercase (λ k. contains k seen) (alias ∷ rest) (trim alias ∷ added)
  unfolding contains
  push_alias alias seen rest added full new a = record {
    distinct = (
      ground (
        arith,
        a.fresh (to_lowercase (trim alias)),
        contains-insert (to_lowercase (trim alias)) (to_lowercase (trim alias)) seen,
        eq_iff (to_lowercase (trim alias)) (to_lowercase (trim alias)),
      ),
      a.distinct,
    );
    fresh = λ k h. ground (
      arith,
      a.fresh k,
      contains-insert k (to_lowercase (trim alias)) seen,
      eq_iff k (to_lowercase (trim alias)),
    );
    picked = pick full a.picked;
    covers = λ x i f. elim i [
      | inl p ↦ or_right _ (contains_first _ _ _ (ap (λ t. to_lowercase (trim t)) p))
      | inr j ↦
          moved (to_lowercase (trim x)) (to_lowercase (trim alias)) seen added (a.covers x j f)
    ];
  }

  adds : (incoming seen target : List Text) → Adds seen target incoming
  unfolding add_aliases
  adds [] seen target = (
    [],
    sym (append-nil target),
    record {
      distinct = tt;
      fresh = λ k h. absurd (unfold contains in ground (arith, h));
      picked = stop;
      covers = λ x i f. absurd i;
    },
  )
  adds (alias ∷ rest) seen target = elim (Bool-cases (is_empty (trim alias))) [
    | inl blank ↦
        let (added, e, a) = adds rest seen target in
        (added, rw blank e, skip_alias alias seen rest added (inl blank) a)
    | inr full ↦ elim (Bool-cases (contains (to_lowercase (trim alias)) seen)) [
      | inl old ↦
          let (added, e, a) = adds rest seen target in
          (added, rw (full, old) e, skip_alias alias seen rest added (inr old) a)
      | inr new ↦
          let (added, e, a) =
            adds rest (insert (to_lowercase (trim alias)) seen) (target ++ trim alias ∷ []) in
          (
            trim alias ∷ added,
            rw (full, new) (e ∙ append_assoc target (trim alias ∷ []) added),
            push_alias alias seen rest added full new a,
          )
    ]
  ]

  retaken :
      {old new : Text → Bool} {incoming added : List Text}
      → ((k : Text) → old k ≡ new k)
      → IsAdded to_lowercase old incoming added
      → IsAdded to_lowercase new incoming added
  retaken {incoming = incoming} {added = added} same a =
      subst (λ taken. IsAdded to_lowercase taken incoming added) (fun_ext same) a

  -- Merging keeps the aliases that the project has, in their order, and appends some of the incoming
  -- ones, trimmed and in their order: none of them blank, no two with the same key, none with the key of
  -- an alias that was there; and each incoming alias that is not blank has the key of an alias that was
  -- there or is appended. The key of an alias is it trimmed and in lower case.
  pub merge_aliases_lem :
      (target incoming : List Text)
      → (added : List Text) × (merge_aliases to_lowercase target incoming ≡ target ++ added)
        × IsAdded to_lowercase (has_key target) incoming added
  unfolding merge_aliases
  merge_aliases_lem target incoming =
      let (added, e, a) = adds incoming (seen_aliases to_lowercase target) target in
      (added, e, retaken (λ k. contains-seen_aliases k target) a)
