-- ===== src/Collections/Sort.antt =====
-- The stable `sort_by` on a key that is a text, and `dedup_by` on the keys of neighbours. The order of
-- texts is that of their code points, as for UTF-8 bytes.
use docx_mcp.Base.{
  Bool, true, false, ◌||◌, ◌&&◌, List, [], ◌∷◌, ◌≡◌, refl, arith, if◌then◌else◌, ltb, Eq, ◌==◌,
  length, suc, eq_iff, nat_eq, list_eq, Bool-cases, inl, inr, map, ◌∙◌,
}
use docx_mcp.Text.{Text}
use docx_mcp.Collections.HashSet.{contains, Distinct}

unfoldable pub text_le : Text → Text → Bool
text_le [] t = true
text_le (a ∷ s) [] = false
text_le (a ∷ s) (b ∷ t) = ltb a b || (a == b && text_le s t)

pub text_le_refl : (s : Text) → text_le s s ≡ true
unfolding text_le
text_le_refl [] = refl
text_le_refl (a ∷ s) = ground (arith, text_le_refl s)

pub text_le_total : (s t : Text) → text_le s t ≡ false → text_le t s ≡ true
unfolding text_le
text_le_total [] t h = absurd (cc)
text_le_total (a ∷ s) [] h = refl
text_le_total (a ∷ s) (b ∷ t) h = ground (arith, text_le_total s t)

pub text_le_trans : (s t u : Text) → text_le s t ≡ true → text_le t u ≡ true → text_le s u ≡ true
unfolding text_le
text_le_trans [] t u h k = refl
text_le_trans (a ∷ s) [] u h k = absurd (cc)
text_le_trans (a ∷ s) (b ∷ t) [] h k = absurd (cc)
text_le_trans (a ∷ s) (b ∷ t) (c ∷ u) h k = ground (arith, text_le_trans s t u)

pub text_le_antisymm : (s t : Text) → text_le s t ≡ true → text_le t s ≡ true → s ≡ t
unfolding text_le
text_le_antisymm [] [] h k = refl
text_le_antisymm [] (b ∷ t) h k = absurd (cc)
text_le_antisymm (a ∷ s) [] h k = absurd (cc)
text_le_antisymm (a ∷ s) (b ∷ t) h k = ground (arith, text_le_antisymm s t)

-- Sorting by a key.
module _ {A : Type 0} (key : A → Text) where
  insert : A → List A → List A
  unfolding text_le
  insert x [] = x ∷ []
  insert x (y ∷ ys) = if text_le (key x) (key y) then x ∷ y ∷ ys else y ∷ insert x ys

  unfoldable pub sort_by : List A → List A
  unfolding insert
  sort_by [] = []
  sort_by (x ∷ xs) = insert x (sort_by xs)

  -- The first key is below all others.
  abbrev pub IsBelow : Text → List A → Type 0
  IsBelow k [] = Unit
  IsBelow k (y ∷ ys) = (text_le k (key y) ≡ true) × IsBelow k ys

  abbrev pub IsSorted : List A → Type 0
  IsSorted [] = Unit
  IsSorted (x ∷ xs) = IsBelow (key x) xs × IsSorted xs

  IsBelow-trans : (j k : Text) (xs : List A) → text_le j k ≡ true → IsBelow k xs → IsBelow j xs
  IsBelow-trans j k [] h b = tt
  IsBelow-trans j k (x ∷ xs) h (hx, b) = (text_le_trans j k (key x) h hx, IsBelow-trans j k xs h b)

  IsBelow-insert :
      (k : Text) (x : A) (xs : List A)
      → text_le k (key x) ≡ true
      → IsBelow k xs
      → IsBelow k (insert x xs)
  unfolding insert
  IsBelow-insert k x [] h b = (h, tt)
  IsBelow-insert k x (y ∷ ys) h (hy, b) = ground (arith, IsBelow-insert k x ys h b)

  insert-IsSorted : (x : A) (xs : List A) → IsSorted xs → IsSorted (insert x xs)
  unfolding insert
  insert-IsSorted x [] s = (tt, tt)
  insert-IsSorted x (y ∷ ys) (b, s) = elim (Bool-cases (text_le (key x) (key y))) [
    | inl h ↦ rw h ((h, IsBelow-trans (key x) (key y) ys h b), (b, s))
    | inr h ↦
        rw h
          (IsBelow-insert (key y) x ys (text_le_total (key x) (key y) h) b, insert-IsSorted x ys s)
  ]

  pub sort_by-IsSorted : (xs : List A) → IsSorted (sort_by xs)
  unfolding sort_by
  sort_by-IsSorted [] = tt
  sort_by-IsSorted (x ∷ xs) = insert-IsSorted x (sort_by xs) (sort_by-IsSorted xs)

  length-insert : (x : A) (xs : List A) → length (insert x xs) ≡ suc (length xs)
  unfolding insert
  length-insert x [] = refl
  length-insert x (y ∷ ys) = ground (arith, length-insert x ys)

  pub length-sort_by : (xs : List A) → length (sort_by xs) ≡ length xs
  unfolding sort_by
  length-sort_by [] = refl
  length-sort_by (x ∷ xs) = ground (arith, length-sort_by xs, length-insert x (sort_by xs))

  -- Sorting changes no key's presence, in any equality test on the keys.
  module _ {K : Type 0} ⦃e : Eq K⦄ (f : A → K) where
    contains-insert :
        (k : K) (x : A) (xs : List A)
        → contains k (map f (insert x xs)) ≡ (k == f x || contains k (map f xs))
    unfolding insert contains
    contains-insert k x [] = refl
    contains-insert k x (y ∷ ys) = ground (arith, contains-insert k x ys)

    pub contains-sort_by :
        (k : K) (xs : List A) → contains k (map f (sort_by xs)) ≡ contains k (map f xs)
    unfolding sort_by contains
    contains-sort_by k [] = refl
    contains-sort_by k (x ∷ xs) =
        ground (arith, contains-insert k x (sort_by xs), contains-sort_by k xs)

    insert-Distinct :
        (x : A) (xs : List A)
        → contains (f x) (map f xs) ≡ false
        → Distinct (map f xs)
        → Distinct (map f (insert x xs))
    unfolding insert contains
    insert-Distinct x [] h d = (refl, tt)
    insert-Distinct x (y ∷ ys) h (hy, d) = ground (
      arith,
      insert-Distinct x ys,
      contains-insert (f y) x ys,
      e.beq_iff (f x) (f y),
      e.beq_iff (f y) (f x),
    )

    pub sort_by-Distinct : (xs : List A) → Distinct (map f xs) → Distinct (map f (sort_by xs))
    unfolding sort_by
    sort_by-Distinct [] d = tt
    sort_by-Distinct (x ∷ xs) (h, d) =
        insert-Distinct x (sort_by xs) (contains-sort_by (f x) xs ∙ h) (sort_by-Distinct xs d)

-- `dedup_by` on the keys: of neighbours with equal keys the first stays.
module _ {A : Type 0} (key : A → Text) where
  unfoldable pub dedup_after : Text → List A → List A
  dedup_after k [] = []
  dedup_after k (x ∷ xs) =
      let same = dedup_after k xs in
      let other = x ∷ dedup_after (key x) xs in if key x == k then same else other

  unfoldable pub dedup_by : List A → List A
  unfolding dedup_after
  dedup_by [] = []
  dedup_by (x ∷ xs) = x ∷ dedup_after (key x) xs

  IsBelow-dedup_after :
      (j k : Text) (xs : List A) → IsBelow key j xs → IsBelow key j (dedup_after k xs)
  unfolding dedup_after
  IsBelow-dedup_after j k [] b = tt
  IsBelow-dedup_after j k (x ∷ xs) (h, b) = elim (Bool-cases (key x == k)) [
    | inl same ↦ rw same (IsBelow-dedup_after j k xs b)
    | inr other ↦ rw other (h, IsBelow-dedup_after j (key x) xs b)
  ]

  dedup_after-IsSorted :
      (k : Text) (xs : List A) → IsSorted key xs → IsSorted key (dedup_after k xs)
  unfolding dedup_after
  dedup_after-IsSorted k [] s = tt
  dedup_after-IsSorted k (x ∷ xs) (b, s) = elim (Bool-cases (key x == k)) [
    | inl same ↦ rw same (dedup_after-IsSorted k xs s)
    | inr other ↦
        rw other (IsBelow-dedup_after (key x) (key x) xs b, dedup_after-IsSorted (key x) xs s)
  ]

  pub dedup_by-IsSorted : (xs : List A) → IsSorted key xs → IsSorted key (dedup_by xs)
  unfolding dedup_by
  dedup_by-IsSorted [] s = tt
  dedup_by-IsSorted (x ∷ xs) (b, s) =
      (IsBelow-dedup_after (key x) (key x) xs b, dedup_after-IsSorted (key x) xs s)

  not_below :
      (j k : Text) (xs : List A)
      → IsBelow key j xs
      → text_le j k ≡ false
      → contains k (map key xs) ≡ false
  unfolding contains
  not_below j k [] b h = refl
  not_below j k (x ∷ xs) (g, b) h = ground (arith, not_below j k xs b h, eq_iff k (key x))

  not_kept :
      (k : Text) (xs : List A)
      → IsBelow key k xs
      → IsSorted key xs
      → contains k (map key (dedup_after k xs)) ≡ false
  unfolding dedup_after
  not_kept k [] b s = unfold contains in refl
  not_kept k (x ∷ xs) (h, b) (c, s) = elim (Bool-cases (key x == k)) [
    | inl same ↦ rw same (not_kept k xs b s)
    | inr other ↦ rw other (
        unfold contains in
        ground (
          arith,
          eq_iff k (key x),
          eq_iff (key x) k,
          text_le_antisymm (key x) k,
          not_below (key x) k (dedup_after (key x) xs) (IsBelow-dedup_after (key x) (key x) xs c),
        ))
  ]

  dedup_after-Distinct :
      (k : Text) (xs : List A) → IsSorted key xs → Distinct (map key (dedup_after k xs))
  unfolding dedup_after
  dedup_after-Distinct k [] s = tt
  dedup_after-Distinct k (x ∷ xs) (b, s) = elim (Bool-cases (key x == k)) [
    | inl same ↦ rw same (dedup_after-Distinct k xs s)
    | inr other ↦ rw other (not_kept (key x) xs b s, dedup_after-Distinct (key x) xs s)
  ]

  -- In a sorted list no key is left twice.
  pub dedup_by-Distinct : (xs : List A) → IsSorted key xs → Distinct (map key (dedup_by xs))
  unfolding dedup_by
  dedup_by-Distinct [] s = tt
  dedup_by-Distinct (x ∷ xs) (b, s) = (not_kept (key x) xs b s, dedup_after-Distinct (key x) xs s)

  contains-dedup_after :
      (j k : Text) (xs : List A)
      → (j == k || contains j (map key (dedup_after k xs))) ≡ (j == k || contains j (map key xs))
  unfolding dedup_after contains
  contains-dedup_after j k [] = refl
  contains-dedup_after j k (x ∷ xs) = ground (
    arith,
    contains-dedup_after j k xs,
    contains-dedup_after j (key x) xs,
    eq_iff j k,
    eq_iff j (key x),
    eq_iff (key x) k,
  )

  -- No key is lost.
  pub contains-dedup_by :
      (j : Text) (xs : List A) → contains j (map key (dedup_by xs)) ≡ contains j (map key xs)
  unfolding dedup_by contains
  contains-dedup_by j [] = refl
  contains-dedup_by j (x ∷ xs) = contains-dedup_after j (key x) xs
