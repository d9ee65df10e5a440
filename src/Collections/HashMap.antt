-- ===== src/Collections/HashMap.antt =====
-- A `HashMap` is an association list that holds each key once. `insert` on a key that is there
-- replaces its value.
use docx_mcp.Base.{
  suc, ◌≤◌, true, false, Option, none, some, List, [], ◌∷◌, ◌≡◌, refl, arith, Eq, ◌==◌, is_some,
  if◌then◌else◌, length, In,
}
use docx_mcp.Collections.HashSet.{contains, Distinct}

module _ {ℓ} {K V : Type ℓ} ⦃e : Eq K⦄ where
  unfoldable pub get : K → List (K × V) → Option V
  get k [] = none
  get k ((j, v) ∷ m) = if k == j then some v else get k m

  unfoldable pub insert : K → V → List (K × V) → List (K × V)
  insert k v [] = (k, v) ∷ []
  insert k v ((j, w) ∷ m) = if k == j then (j, v) ∷ m else (j, w) ∷ insert k v m

  unfoldable pub remove : K → List (K × V) → List (K × V)
  remove k [] = []
  remove k ((j, w) ∷ m) = if k == j then m else (j, w) ∷ remove k m

  abbrev pub keys : List (K × V) → List K
  keys [] = []
  keys ((k, v) ∷ m) = k ∷ keys m

  pub get-insert :
      (k j : K) (v : V) (m : List (K × V))
      → get j (insert k v m) ≡ (if j == k then some v else get j m)
  unfolding get insert
  get-insert k j v [] = refl
  get-insert k j v ((i, w) ∷ m) =
      ground (arith, get-insert k j v m, e.beq_iff k i, e.beq_iff j i, e.beq_iff j k)

  -- A key is bound exactly when it is among the keys.
  pub get-contains : (k : K) (m : List (K × V)) → is_some (get k m) ≡ contains k (keys m)
  unfolding get contains
  get-contains k [] = refl
  get-contains k ((j, v) ∷ m) = ground (arith, get-contains k m)

  pub contains-insert :
      (k j : K) (v : V) (m : List (K × V))
      → contains j (keys (insert k v m)) ≡ (if j == k then true else contains j (keys m))
  unfolding contains insert
  contains-insert k j v [] = ground arith
  contains-insert k j v ((i, w) ∷ m) =
      ground (arith, contains-insert k j v m, e.beq_iff k i, e.beq_iff j i, e.beq_iff j k)

  pub Distinct-insert :
      (k : K) (v : V) (m : List (K × V)) → Distinct (keys m) → Distinct (keys (insert k v m))
  unfolding insert
  Distinct-insert k v [] d = (unfold contains in refl, tt)
  Distinct-insert k v ((i, w) ∷ m) (h, d) =
      ground (arith, contains-insert k i v m, e.beq_iff k i, e.beq_iff i k, Distinct-insert k v m d)

  -- A new key makes the map longer by one.
  pub length-insert :
      (k : K) (v : V) (m : List (K × V))
      → length (insert k v m) ≡ (if contains k (keys m) then length m else suc (length m))
  unfolding insert contains
  length-insert k v [] = refl
  length-insert k v ((i, w) ∷ m) = ground (arith, length-insert k v m)

  pub length-remove-le : (k : K) (m : List (K × V)) → length (remove k m) ≤ length m
  unfolding remove
  length-remove-le k [] = omega arith
  length-remove-le k ((i, w) ∷ m) = ground (arith, length-remove-le k m)

  contains-remove_other :
      (k j : K) (m : List (K × V))
      → contains j (keys m) ≡ false
      → contains j (keys (remove k m)) ≡ false
  unfolding contains remove
  contains-remove_other k j [] h = refl
  contains-remove_other k j ((i, w) ∷ m) h = ground (arith, contains-remove_other k j m)

  pub Distinct-remove :
      (k : K) (m : List (K × V)) → Distinct (keys m) → Distinct (keys (remove k m))
  unfolding remove
  Distinct-remove k [] d = tt
  Distinct-remove k ((i, w) ∷ m) (h, d) =
      ground (arith, contains-remove_other k i m h, Distinct-remove k m d)

  pub get-remove :
      (k j : K) (m : List (K × V))
      → Distinct (keys m)
      → get j (remove k m) ≡ (if j == k then none else get j m)
  unfolding get remove
  get-remove k j [] d = ground arith
  get-remove k j ((i, w) ∷ m) (h, d) = ground (
    arith,
    get-remove k j m d,
    get-contains k m,
    get-contains j m,
    e.beq_iff k i,
    e.beq_iff j i,
    e.beq_iff j k,
  )

module _ {K V : Type 0} ⦃e : Eq K⦄ where
  -- What a map returns is bound in it.
  pub get-In : (k : K) (v : V) (m : List (K × V)) → get k m ≡ some v → In (k, v) m
  unfolding get
  get-In k v [] h = absurd (cc)
  get-In k v ((j, w) ∷ m) h = ground (arith, get-In k v m, e.beq_iff k j)
