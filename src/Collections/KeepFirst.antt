-- ===== src/Collections/KeepFirst.antt =====
-- The loop of `retain` and `push` behind `seen.insert(key)`: it keeps the first element of each key.
use docx_mcp.Base.{
  ◌≤◌, true, false, List, [], ◌∷◌, ◌≡◌, refl, ap, arith, Eq, if◌then◌else◌, length, map, In, inl,
  inr, ◌⊎◌, Bool-cases,
}
use docx_mcp.Collections.HashSet.{contains, insert, Distinct}

module _ {ℓ} {A K : Type ℓ} ⦃e : Eq K⦄ (key : A → K) where
  unfoldable pub keep_first : List K → List A → List A
  unfolding insert
  keep_first seen [] = []
  keep_first seen (x ∷ xs) =
      let old = keep_first seen xs in
      let new = x ∷ keep_first (key x ∷ seen) xs in if contains (key x) seen then old else new

  -- A key that was seen is not kept.
  pub keep_first-unseen :
      (k : K) (seen : List K) (xs : List A)
      → contains k seen ≡ true
      → contains k (map key (keep_first seen xs)) ≡ false
  unfolding keep_first contains
  keep_first-unseen k seen [] h = refl
  keep_first-unseen k seen (x ∷ xs) h = ground (
    arith,
    keep_first-unseen k seen xs h,
    keep_first-unseen k (key x ∷ seen) xs,
    e.beq_iff k (key x),
  )

  -- The keys that are kept are distinct.
  pub keep_first-Distinct : (seen : List K) (xs : List A) → Distinct (map key (keep_first seen xs))
  unfolding keep_first
  keep_first-Distinct seen [] = tt
  keep_first-Distinct seen (x ∷ xs) = elim (Bool-cases (contains (key x) seen)) [
    | inl old ↦ rw old (keep_first-Distinct seen xs)
    | inr new ↦ rw new (
      keep_first-unseen (key x) (key x ∷ seen) xs
          (unfold contains in ground (arith, e.beq_iff (key x) (key x))),
      keep_first-Distinct (key x ∷ seen) xs,
    )
  ]

  -- No key is lost: a key is kept exactly when it occurs and was not seen.
  pub contains-keep_first :
      (k : K) (seen : List K) (xs : List A)
      → contains k seen ≡ false
      → contains k (map key (keep_first seen xs)) ≡ contains k (map key xs)
  unfolding keep_first contains
  contains-keep_first k seen [] h = refl
  contains-keep_first k seen (x ∷ xs) h = ground (
    arith,
    contains-keep_first k seen xs h,
    contains-keep_first k (key x ∷ seen) xs,
    e.beq_iff k (key x),
  )

  pub length-keep_first-le : (seen : List K) (xs : List A) → length (keep_first seen xs) ≤ length xs
  unfolding keep_first
  length-keep_first-le seen [] = omega arith
  length-keep_first-le seen (x ∷ xs) =
      ground (arith, length-keep_first-le seen xs, length-keep_first-le (key x ∷ seen) xs)

  -- Nothing is left to drop the second time.
  pub keep_first-keep_first :
      (seen : List K) (xs : List A) → keep_first seen (keep_first seen xs) ≡ keep_first seen xs
  unfolding keep_first
  keep_first-keep_first seen [] = refl
  keep_first-keep_first seen (x ∷ xs) = elim (Bool-cases (contains (key x) seen)) [
    | inl old ↦ rw old (keep_first-keep_first seen xs)
    | inr new ↦ rw (new, new) (ap (◌∷◌ x) (keep_first-keep_first (key x ∷ seen) xs))
  ]

  -- Nothing is dropped where no key occurs twice or was seen.
  pub keep_first-id :
      (seen : List K) (xs : List A)
      → Distinct (map key xs)
      → ((k : K) → contains k (map key xs) ≡ true → contains k seen ≡ false)
      → keep_first seen xs ≡ xs
  unfolding keep_first contains
  keep_first-id seen [] d h = refl
  keep_first-id seen (x ∷ xs) (new, d) h =
      rw (h (key x) (ground (arith, e.beq_iff (key x) (key x)))) (
        ap (◌∷◌ x)
          (keep_first-id (key x ∷ seen) xs d (λ k i. ground (arith, h k, e.beq_iff k (key x)))))

  -- The first element of a new key is kept itself.
  pub keep_first-cons :
      (x : A) (seen : List K) (xs : List A)
      → contains (key x) seen ≡ false
      → keep_first seen (x ∷ xs) ≡ x ∷ keep_first (key x ∷ seen) xs
  unfolding keep_first
  keep_first-cons x seen xs h = rw h

module _ {A K : Type 0} ⦃e : Eq K⦄ (key : A → K) where
  -- Only elements of the list are kept.
  pub keep_first-In :
      (a : A) (seen : List K) (xs : List A) → In a (keep_first key seen xs) → In a xs
  unfolding keep_first
  keep_first-In a seen [] h = h
  keep_first-In a seen (x ∷ xs) h = elim (Bool-cases (contains (key x) seen)) [
    | inl old ↦ inr (keep_first-In a seen xs (rw old at h))
    | inr new ↦
        elim (let i : (a ≡ x) ⊎ In a (keep_first key (key x ∷ seen) xs) = rw new at h in i) [
          | inl p ↦ inl p
          | inr i ↦ inr (keep_first-In a (key x ∷ seen) xs i)
        ]
  ]
