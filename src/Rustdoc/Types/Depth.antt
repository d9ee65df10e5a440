-- ===== src/Rustdoc/Types/Depth.antt =====
-- The nesting of a value is enough fuel for `type_to_string`.
use docx_mcp.Base.{
  ℕ, zero, suc, ◌≤◌, ◌<◌, Option, none, some, List, [], ◌∷◌, ◌++◌, ◌≡◌, refl, ap, sym, ◌∙◌, arith,
  if◌then◌else◌, ◌==◌, list_eq, nat_eq, filter_map, or_option, is_empty, unwrap_or, ◌>>=◌, In, inl,
  inr, Option-cases, Bool-cases, subst,
}
use docx_mcp.Text.{Text, codes, join}
use docx_mcp.Models.{
  Value, Items, Fields, get_field, get_value, as_str, as_array, item_list, depth, depth_items,
  depth_fields,
}
use docx_mcp.Rustdoc.Types.{
  type_arg, arg_items, angle_brackets, format_type_args, trait_bound_to_string, resolved_path_type,
  flag, borrowed_ref_type, raw_pointer_type, tuple_type, slice_type, array_type, bounded,
  impl_trait_type, dyn_trait_type, qualified_text, qualified_path_type, second, pointer_param,
  function_pointer_type, type_step, type_on_fuel, type_to_string,
}

depth-pos : (v : Value) → 0 < depth v
unfolding depth
depth-pos Value.null = omega arith
depth-pos (Value.bool b) = omega arith
depth-pos (Value.num n) = omega arith
depth-pos (Value.other_num t) = omega arith
depth-pos (Value.str t) = omega arith
depth-pos (Value.arr vs) = omega arith
depth-pos (Value.obj fs) = omega arith

get_field-depth :
    (k : Text) (fs : Fields) (w : Value) → get_field k fs ≡ some w → depth w ≤ depth_fields fs
unfolding depth
get_field-depth k Fields.end w e = ground (arith, e)
get_field-depth k (Fields.field j v fs) w e = elim (Bool-cases (k == j)) [
  | inl same ↦ ground arith
  | inr other ↦
      let g : get_field k fs ≡ some w = rw other at e in omega (arith, get_field-depth k fs w g)
]

get_value-depth : (v : Value) (k : Text) (w : Value) → get_value v k ≡ some w → depth w < depth v
unfolding depth
get_value-depth (Value.obj fs) k w e = omega (arith, get_field-depth k fs w e)
get_value-depth Value.null k w e = ground (arith, e)
get_value-depth (Value.bool b) k w e = ground (arith, e)
get_value-depth (Value.num n) k w e = ground (arith, e)
get_value-depth (Value.other_num t) k w e = ground (arith, e)
get_value-depth (Value.str t) k w e = ground (arith, e)
get_value-depth (Value.arr vs) k w e = ground (arith, e)

item_list-depth : (vs : Items) (w : Value) → In w (item_list vs) → depth w ≤ depth_items vs
unfolding depth
item_list-depth Items.nil w i = absurd i
item_list-depth (Items.cons v vs) w (inl p) = omega (arith, ap depth p)
item_list-depth (Items.cons v vs) w (inr i) = omega (arith, item_list-depth vs w i)

as_array-depth :
    (v : Value) (vs : List Value) (w : Value) → as_array v ≡ some vs → In w vs → depth w < depth v
unfolding depth
as_array-depth (Value.arr items) vs w e i =
    let g : item_list items ≡ vs = ground (arith, e) in
    omega (arith, item_list-depth items w (subst (In w) (sym g) i))
as_array-depth Value.null vs w e i = ground (arith, e)
as_array-depth (Value.bool b) vs w e i = ground (arith, e)
as_array-depth (Value.num n) vs w e i = ground (arith, e)
as_array-depth (Value.other_num t) vs w e i = ground (arith, e)
as_array-depth (Value.str t) vs w e i = ground (arith, e)
as_array-depth (Value.obj fs) vs w e i = ground (arith, e)

bind_congr :
    {A B : Type 0} (o : Option A) {f g : A → Option B}
    → ((a : A) → o ≡ some a → f a ≡ g a)
    → (o >>= f) ≡ (o >>= g)
bind_congr none h = refl
bind_congr (some a) h = h a refl

filter_map_congr :
    {A B : Type 0} (f g : A → Option B) (xs : List A)
    → ((a : A) → In a xs → f a ≡ g a)
    → filter_map f xs ≡ filter_map g xs
filter_map_congr f g [] h = refl
filter_map_congr f g (x ∷ xs) h =
    ap (λ o. elim o [ none ↦ filter_map f xs | some y ↦ y ∷ filter_map f xs ]) (h x (inl refl))
    ∙ ap (λ ys. elim (g x) [ none ↦ ys | some y ↦ y ∷ ys ])
        (filter_map_congr f g xs (λ a i. h a (inr i)))

-- What a chain of two lookups, or of a lookup and a list, goes through.
through :
    {A B : Type 0} (o : Option A) (f : A → Option B) (b : B)
    → (o >>= f) ≡ some b
    → (a : A) × (o ≡ some a) × (f a ≡ some b)
through none f b e = ground (arith, e)
through (some a) f b e = (a, refl, e)

arg_items-depth :
    (args : Value) (items : List Value) (w : Value)
    → arg_items (some args) ≡ some items
    → In w items
    → depth w < depth args
unfolding arg_items
arg_items-depth args items w e i =
    let (angle, e1, r) = through (get_value args (codes "angle_bracketed")) _ items e in
    let (list, e2, e3) = through (get_value angle (codes "args")) as_array items r in
    omega (
      arith,
      get_value-depth args (codes "angle_bracketed") angle e1,
      get_value-depth angle (codes "args") list e2,
      as_array-depth list items w e3 i,
    )

-- The two functions agree below a nesting.
abbrev Agree : ℕ → (Value → Option Text) → (Value → Option Text) → Type 0
Agree n f g = (w : Value) → depth w < n → f w ≡ g w

module _ (f g : Value → Option Text) where
  -- Below a part of a value.
  part :
      (n : ℕ) (v : Value) (k : Text) (w : Value)
      → Agree n f g
      → depth v ≤ n
      → get_value v k ≡ some w
      → Agree (depth w) f g
  part n v k w h le e u lt = h u (omega (arith, get_value-depth v k w e))

  at_field :
      (v : Value) (k : Text) → Agree (depth v) f g → (get_value v k >>= f) ≡ (get_value v k >>= g)
  at_field v k h = bind_congr (get_value v k) (λ w e. h w (get_value-depth v k w e))

  type_arg_congr : (v : Value) → Agree (depth v) f g → type_arg f v ≡ type_arg g v
  unfolding type_arg
  type_arg_congr v h =
      ap
        (λ o. or_option o (
          or_option (get_value v (codes "lifetime") >>= as_str)
            (get_value v (codes "const") >>= as_str)))
        (at_field v (codes "type") h)

  brackets_congr :
      (args : Value)
      → Agree (depth args) f g
      → format_type_args f (some args) ≡ format_type_args g (some args)
  unfolding format_type_args
  brackets_congr args h = elim (Option-cases (arg_items (some args))) [
    | inl e ↦ rw (e, format_type_args) refl
    | inr (items, e) ↦
        rw (e, format_type_args)
          (ap angle_brackets (
            filter_map_congr (type_arg f) (type_arg g) items (λ w i.
              type_arg_congr w (λ u lt. h u (omega (arith, arg_items-depth args items w e i))))))
  ]

  format_type_args_congr :
      (v : Value) (k : Text)
      → Agree (depth v) f g
      → format_type_args f (get_value v k) ≡ format_type_args g (get_value v k)
  format_type_args_congr v k h = elim (Option-cases (get_value v k)) [
    | inl e ↦ rw e (unfold format_type_args arg_items in refl)
    | inr (args, e) ↦
        rw e (brackets_congr args (λ u lt. h u (omega (arith, get_value-depth v k args e))))
  ]

  trait_bound_congr :
      (v : Value) → Agree (depth v) f g → trait_bound_to_string f v ≡ trait_bound_to_string g v
  unfolding trait_bound_to_string
  trait_bound_congr v h = bind_congr (get_value v (codes "trait_bound")) (λ b e.
      bind_congr (get_value b (codes "trait")) (λ t e'.
        bind_congr (get_value t (codes "path") >>= as_str) (λ path _.
          ap (λ args. some (path ++ args))
            (format_type_args_congr t (codes "args") (λ u lt. h u (
              omega (
                arith,
                get_value-depth v (codes "trait_bound") b e,
                get_value-depth b (codes "trait") t e',
              )))))))

  resolved_path_congr :
      (v : Value) → Agree (depth v) f g → resolved_path_type f v ≡ resolved_path_type g v
  unfolding resolved_path_type
  resolved_path_congr v h = bind_congr (get_value v (codes "resolved_path")) (λ r e.
      bind_congr (get_value r (codes "path") >>= as_str) (λ path _.
        ap (λ args. some (path ++ args))
          (format_type_args_congr r (codes "args")
            (λ u lt. h u (omega (arith, get_value-depth v (codes "resolved_path") r e))))))

  -- A part of a part.
  below :
      (v : Value) (k : Text) (w : Value)
      → get_value v k ≡ some w
      → Agree (depth v) f g
      → Agree (depth w) f g
  below v k w e h u lt = h u (omega (arith, get_value-depth v k w e))

  borrowed_ref_congr :
      (v : Value) → Agree (depth v) f g → borrowed_ref_type f v ≡ borrowed_ref_type g v
  unfolding borrowed_ref_type
  borrowed_ref_congr v h = bind_congr (get_value v (codes "borrowed_ref")) (λ b e.
      ap
        (λ o. o >>= λ inner.
          some (if flag b (codes "is_mutable") then codes "&mut " ++ inner else codes "&" ++ inner))
        (at_field b (codes "type") (below v (codes "borrowed_ref") b e h)))

  raw_pointer_congr :
      (v : Value) → Agree (depth v) f g → raw_pointer_type f v ≡ raw_pointer_type g v
  unfolding raw_pointer_type
  raw_pointer_congr v h = bind_congr (get_value v (codes "raw_pointer")) (λ b e.
      ap
        (λ o. o >>= λ inner. some (
          if flag b (codes "is_mutable") then codes "*mut " ++ inner else codes "*const " ++ inner))
        (at_field b (codes "type") (below v (codes "raw_pointer") b e h)))

  -- The members of an array below a value.
  members_congr :
      (F G : Value → Option Text) (v : Value) (o : Option Value) (vs : List Value)
      → ((w : Value) → o ≡ some w → depth w ≤ depth v)
      → (o >>= as_array) ≡ some vs
      → ((w : Value) → Agree (depth w) f g → F w ≡ G w)
      → Agree (depth v) f g
      → filter_map F vs ≡ filter_map G vs
  members_congr F G v o vs le e c h =
      let (a, p, q) = through o as_array vs e in
      filter_map_congr F G vs
        (λ w i. c w (λ u lt. h u (omega (arith, le a p, as_array-depth a vs w q i))))

  tuple_congr : (v : Value) → Agree (depth v) f g → tuple_type f v ≡ tuple_type g v
  unfolding tuple_type
  tuple_congr v h = bind_congr (get_value v (codes "tuple") >>= as_array) (λ tuple e.
      ap (λ parts. some (codes "(" ++ (join parts (codes ", ") ++ codes ")")))
        (filter_map_congr f g tuple (λ w i.
          let (a, p, q) = through (get_value v (codes "tuple")) as_array tuple e in
          h w
            (omega (arith, get_value-depth v (codes "tuple") a p, as_array-depth a tuple w q i)))))

  slice_congr : (v : Value) → Agree (depth v) f g → slice_type f v ≡ slice_type g v
  unfolding slice_type
  slice_congr v h =
      ap (λ o. o >>= λ inner. some (codes "[" ++ (inner ++ codes "]")))
        (at_field v (codes "slice") h)

  abbrev array_text : Value → Text → Option Text
  array_text array inner =
      let len = unwrap_or (get_value array (codes "len") >>= as_str) [] in
      some (
        if is_empty len
        then codes "[" ++ (inner ++ codes "]")
        else codes "[" ++ (inner ++ (codes "; " ++ (len ++ codes "]"))))

  array_congr : (v : Value) → Agree (depth v) f g → array_type f v ≡ array_type g v
  unfolding array_type
  array_congr v h = bind_congr (get_value v (codes "array")) (λ b e.
      ap (λ o. o >>= array_text b) (at_field b (codes "type") (below v (codes "array") b e h)))

  impl_trait_congr : (v : Value) → Agree (depth v) f g → impl_trait_type f v ≡ impl_trait_type g v
  unfolding impl_trait_type
  impl_trait_congr v h = bind_congr (get_value v (codes "impl_trait") >>= as_array) (λ bounds e.
      ap (λ parts. some (bounded (codes "impl") (join parts (codes " + "))))
        (members_congr (trait_bound_to_string f) (trait_bound_to_string g) v
          (get_value v (codes "impl_trait")) bounds
          (λ w p. omega (arith, get_value-depth v (codes "impl_trait") w p)) e trait_bound_congr h))

  -- The same for a list that may be missing.
  or_none_congr :
      (F G : Value → Option Text) (v : Value) (k : Text)
      → ((w : Value) → Agree (depth w) f g → F w ≡ G w)
      → Agree (depth v) f g
      → filter_map F (unwrap_or (get_value v k >>= as_array) [])
        ≡ filter_map G (unwrap_or (get_value v k >>= as_array) [])
  or_none_congr F G v k c h = elim (Option-cases (get_value v k >>= as_array)) [
    | inl e ↦ rw e refl
    | inr (vs, e) ↦ rw e (
        members_congr F G v (get_value v k) vs (λ w p. omega (arith, get_value-depth v k w p)) e c
          h)
  ]

  dyn_trait_congr : (v : Value) → Agree (depth v) f g → dyn_trait_type f v ≡ dyn_trait_type g v
  unfolding dyn_trait_type
  dyn_trait_congr v h = bind_congr (get_value v (codes "dyn_trait")) (λ b e.
      ap (λ parts. some (bounded (codes "dyn") (join parts (codes " + "))))
        (or_none_congr (trait_bound_to_string f) (trait_bound_to_string g) b (codes "traits")
          trait_bound_congr (below v (codes "dyn_trait") b e h)))

  qualified_path_congr :
      (v : Value) → Agree (depth v) f g → qualified_path_type f v ≡ qualified_path_type g v
  unfolding qualified_path_type
  qualified_path_congr v h = bind_congr (get_value v (codes "qualified_path")) (λ b e.
      ap
        (λ o.
          qualified_text (unwrap_or o [])
            (unwrap_or
              (get_value b (codes "trait") >>= λ inner. get_value inner (codes "path") >>= as_str)
              [])
            (unwrap_or (get_value b (codes "name") >>= as_str) []))
        (at_field b (codes "self_type") (below v (codes "qualified_path") b e h)))

  second-In : (vs : List Value) (w : Value) → second vs ≡ some w → In w vs
  second-In [] w e = ground (arith, e)
  second-In (a ∷ []) w e = ground (arith, e)
  second-In (a ∷ (b ∷ rest)) w e = inr (inl (ground (arith, e)))

  pointer_param_congr : (v : Value) → Agree (depth v) f g → pointer_param f v ≡ pointer_param g v
  unfolding pointer_param
  pointer_param_congr v h = bind_congr (as_array v >>= second) (λ w e.
      let (vs, p, q) = through (as_array v) second w e in
      h w (as_array-depth v vs w p (second-In vs w q)))

  function_pointer_congr :
      (v : Value) → Agree (depth v) f g → function_pointer_type f v ≡ function_pointer_type g v
  unfolding function_pointer_type
  function_pointer_congr v h = bind_congr (get_value v (codes "function_pointer")) (λ b e.
      bind_congr (get_value b (codes "decl")) (λ d e'.
        let below_d = below b (codes "decl") d e' (below v (codes "function_pointer") b e h) in
        ap
          (λ params. some (
            codes "fn("
            ++ (join params (codes ", ")
                ++ (codes ") -> " ++ unwrap_or (get_value d (codes "output") >>= f) (codes "()")))))
          (or_none_congr (pointer_param f) (pointer_param g) d (codes "inputs") pointer_param_congr
            below_d)
        ∙ ap
            (λ o. some (
              codes "fn("
              ++ (join
                    (filter_map (pointer_param g)
                      (unwrap_or (get_value d (codes "inputs") >>= as_array) []))
                    (codes ", ")
                  ++ (codes ") -> " ++ unwrap_or o (codes "()")))))
            (at_field d (codes "output") below_d)))

  -- One level looks at parts of the value only.
  type_step_congr : (v : Value) → Agree (depth v) f g → type_step f v ≡ type_step g v
  unfolding type_step
  type_step_congr v h =
      rw
        (
          resolved_path_congr v h,
          borrowed_ref_congr v h,
          raw_pointer_congr v h,
          tuple_congr v h,
          slice_congr v h,
          array_congr v h,
          impl_trait_congr v h,
          dyn_trait_congr v h,
          qualified_path_congr v h,
          function_pointer_congr v h,
        )
        refl

same_on_fuel :
    (m n : ℕ) (v : Value) → depth v ≤ m → depth v ≤ n → type_on_fuel m v ≡ type_on_fuel n v
unfolding type_on_fuel
same_on_fuel zero n v a b = absurd (omega (arith, depth-pos v))
same_on_fuel (suc m) zero v a b = absurd (omega (arith, depth-pos v))
same_on_fuel (suc m) (suc n) v a b =
    type_step_congr (type_on_fuel m) (type_on_fuel n) v
      (λ w lt. same_on_fuel m n w (omega arith) (omega arith))

-- The fuel of `type_to_string` is enough on every value: it satisfies the equation of the recursive
-- function, one level of which is tried on the value and recurs on its parts, and more fuel gives the
-- same text.
pub type_to_string_lem :
    (value : Value)
    → (type_to_string value ≡ type_step type_to_string value)
      × ((fuel : ℕ) → depth value ≤ fuel → type_on_fuel fuel value ≡ type_to_string value)
unfolding type_to_string
type_to_string_lem value = (
  same_on_fuel (depth value) (suc (depth value)) value (omega arith) (omega arith)
      ∙ (unfold type_on_fuel in
          type_step_congr (type_on_fuel (depth value)) (λ v. type_on_fuel (depth v) v) value
            (λ w lt. same_on_fuel (depth value) (depth w) w (omega arith) (omega arith))),
  λ fuel h. same_on_fuel fuel (depth value) value h (omega arith),
)
