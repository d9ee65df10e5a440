-- ===== src/Collections/HashSet.antt =====
-- A `HashSet` is the list of its elements. `set.insert(a)` returns whether `a` was new: that is
-- `not (contains a set)`, and the set afterwards is `insert a set`.
use docx_mcp.Base.{
  Bool, true, false, ◌||◌, List, [], ◌∷◌, ◌++◌, ◌≡◌, refl, arith, Eq, ◌==◌, if◌then◌else◌, In, inl,
  inr,
}

module _ {ℓ} {A : Type ℓ} ⦃e : Eq A⦄ where
  unfoldable pub contains : A → List A → Bool
  contains a [] = false
  contains a (x ∷ xs) = a == x || contains a xs

  unfoldable pub insert : A → List A → List A
  unfolding contains
  insert a xs = if contains a xs then xs else a ∷ xs

  -- No element stands twice.
  abbrev pub Distinct : List A → Type 0
  Distinct [] = Unit
  Distinct (x ∷ xs) = (contains x xs ≡ false) × Distinct xs

  pub contains-insert :
      (a b : A) (xs : List A) → contains a (insert b xs) ≡ (a == b || contains a xs)
  unfolding insert
  contains-insert a b xs = ground (arith, e.beq_iff a b)

  pub contains-append :
      (a : A) (xs ys : List A) → contains a (xs ++ ys) ≡ (contains a xs || contains a ys)
  unfolding contains
  contains-append a [] ys = refl
  contains-append a (x ∷ xs) ys = ground (arith, contains-append a xs ys)

  -- Appending a new element keeps a list free of repetitions.
  pub Distinct-snoc :
      (xs : List A) (a : A) → Distinct xs → contains a xs ≡ false → Distinct (xs ++ a ∷ [])
  unfolding contains
  Distinct-snoc [] a d h = (refl, tt)
  Distinct-snoc (x ∷ xs) a (hx, d) h = (
    ground (arith, contains-append x xs (a ∷ []), e.beq_iff a x, e.beq_iff x a),
    Distinct-snoc xs a d (ground arith),
  )

  pub Distinct-append :
      (xs ys : List A)
      → Distinct xs
      → Distinct ys
      → ((k : A) → contains k xs ≡ true → contains k ys ≡ false)
      → Distinct (xs ++ ys)
  unfolding contains
  Distinct-append [] ys dx dy apart = dy
  Distinct-append (x ∷ xs) ys (hx, dx) dy apart = (
    ground (arith, contains-append x xs ys, apart x, e.beq_iff x x),
    Distinct-append xs ys dx dy (λ k h. apart k (ground arith)),
  )

module _ {A : Type 0} ⦃e : Eq A⦄ where
  pub In-contains : (a : A) (xs : List A) → In a xs → contains a xs ≡ true
  unfolding contains
  In-contains a [] h = absurd h
  In-contains a (x ∷ xs) (inl p) = ground (arith, e.beq_iff a x)
  In-contains a (x ∷ xs) (inr h) = ground (arith, In-contains a xs h)

  pub contains-In : (a : A) (xs : List A) → contains a xs ≡ true → In a xs
  unfolding contains
  contains-In a [] h = absurd (cc)
  contains-In a (x ∷ xs) h = ground (arith, e.beq_iff a x, contains-In a xs)
