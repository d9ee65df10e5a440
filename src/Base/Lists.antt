-- ===== src/Base/Lists.antt =====
-- Lists over the native numbers, and the `Vec` and iterator functions that the source uses.
use Prim.Native.Nat.{ℕ, suc, ◌+◌, ◌≤◌}
use mathlib.Core.Path.{◌≡◌, refl, ap, sym, subst}
use mathlib.Core.Bool.{Bool, true, false}
use mathlib.Core.Option.{Option, none, some}
use mathlib.Core.List.{List, [], ◌∷◌, ◌++◌, map}
use mathlib.Core.Logic.{◌⊎◌, inl, inr}
use native.Mathlib.Omega.{arith}
use docx_mcp.Base.Tests.{Option-cases}

module _ {ℓ} {A : Type ℓ} where
  abbrev pub length : List A → ℕ
  length [] = 0
  length (x ∷ xs) = suc (length xs)

  abbrev pub is_empty : List A → Bool
  is_empty [] = true
  is_empty (x ∷ xs) = false

  pub length-append : (xs ys : List A) → length (xs ++ ys) ≡ length xs + length ys
  length-append [] ys = omega arith
  length-append (x ∷ xs) ys = omega (arith, length-append xs ys)

pub map-append :
    {A B : Type 0} (f : A → B) (xs ys : List A) → map f (xs ++ ys) ≡ map f xs ++ map f ys
map-append f [] ys = refl
map-append f (x ∷ xs) ys = ap (◌∷◌ (f x)) (map-append f xs ys)

-- Membership, by recursion, so that it computes to a sum.
module _ {A : Type 0} where
  abbrev pub In : A → List A → Type 0
  In a [] = ⊥
  In a (x ∷ xs) = (a ≡ x) ⊎ In a xs

  pub In-append_left : (a : A) (xs ys : List A) → In a xs → In a (xs ++ ys)
  In-append_left a [] ys h = absurd h
  In-append_left a (x ∷ xs) ys (inl e) = inl e
  In-append_left a (x ∷ xs) ys (inr h) = inr (In-append_left a xs ys h)

  pub In-append_right : (a : A) (xs ys : List A) → In a ys → In a (xs ++ ys)
  In-append_right a [] ys h = h
  In-append_right a (x ∷ xs) ys h = inr (In-append_right a xs ys h)

  pub In-append : (a : A) (xs ys : List A) → In a (xs ++ ys) → In a xs ⊎ In a ys
  In-append a [] ys h = inr h
  In-append a (x ∷ xs) ys (inl e) = inl (inl e)
  In-append a (x ∷ xs) ys (inr h) = elim (In-append a xs ys h) [
    | inl i ↦ inl (inr i)
    | inr j ↦ inr j
  ]

module _ {ℓ κ} {A : Type ℓ} (P : A → Type κ) where
  abbrev pub All : List A → Type κ
  All [] = Unit
  All (x ∷ xs) = P x × All xs

  pub All-append : (xs ys : List A) → All xs → All ys → All (xs ++ ys)
  All-append [] ys _ hy = hy
  All-append (x ∷ xs) ys (px, hx) hy = (px, All-append xs ys hx hy)

module _ {ℓ κ} {A : Type ℓ} {B : Type κ} where
  -- `filter_map`
  abbrev pub filter_map : (A → Option B) → List A → List B
  filter_map f [] = []
  filter_map f (x ∷ xs) = elim (f x) [ none ↦ filter_map f xs | some y ↦ y ∷ filter_map f xs ]

  pub length-filter_map : (f : A → Option B) (xs : List A) → length (filter_map f xs) ≤ length xs
  length-filter_map f [] = omega arith
  length-filter_map f (x ∷ xs) = ground (arith, length-filter_map f xs)

  pub length-map : (f : A → B) (xs : List A) → length (map f xs) ≡ length xs
  length-map f [] = refl
  length-map f (x ∷ xs) = ap suc (length-map f xs)

module _ {A : Type 0} (P : A → Type 0) where
  pub All-In : (a : A) (xs : List A) → All P xs → In a xs → P a
  All-In a [] h i = absurd i
  All-In a (x ∷ xs) (h, hs) (inl e) = subst P (sym e) h
  All-In a (x ∷ xs) (h, hs) (inr i) = All-In a xs hs i

  pub In-All : (xs : List A) → ((a : A) → In a xs → P a) → All P xs
  In-All [] h = tt
  In-All (x ∷ xs) h = (h x (inl refl), In-All xs (λ a i. h a (inr i)))

module _ {A B : Type 0} (f : A → Option B) where
  pub In-filter_map :
      (y : B) (xs : List A) → In y (filter_map f xs) → (x : A) × In x xs × (f x ≡ some y)
  In-filter_map y [] i = absurd i
  In-filter_map y (x ∷ xs) i = elim (Option-cases (f x)) [
    | inl e ↦ let (z, j, g) = In-filter_map y xs (rw (e, filter_map) at i) in (z, inr j, g)
    | inr (w, e) ↦ elim (let s : (y ≡ w) ⊎ In y (filter_map f xs) = rw (e, filter_map) at i in s) [
      | inl p ↦ (x, inl refl, rw p e)
      | inr j ↦ let (z, k, g) = In-filter_map y xs j in (z, inr k, g)
    ]
  ]

  pub filter_map-In :
      (x : A) (y : B) (xs : List A) → In x xs → f x ≡ some y → In y (filter_map f xs)
  filter_map-In x y [] i e = absurd i
  filter_map-In x y (z ∷ xs) (inl p) e =
      let g : f z ≡ some y = rw p at e in rw (g, filter_map) (inl refl)
  filter_map-In x y (z ∷ xs) (inr i) e = elim (Option-cases (f z)) [
    | inl g ↦ rw (g, filter_map) (filter_map-In x y xs i e)
    | inr (w, g) ↦ rw (g, filter_map) (inr (filter_map-In x y xs i e))
  ]

module _ {A B : Type 0} (f : A → Option B) (P : B → Type 0) where
  pub All-filter_map :
      (xs : List A) → ((x : A) (y : B) → f x ≡ some y → P y) → All P (filter_map f xs)
  All-filter_map [] h = tt
  All-filter_map (x ∷ xs) h = elim (Option-cases (f x)) [
    | inl e ↦ rw (e, filter_map) (All-filter_map xs h)
    | inr (y, e) ↦ rw (e, filter_map) (h x y e, All-filter_map xs h)
  ]
