-- ===== src/Csharp/DocId.antt =====
-- `parse_doc_id` and `extract_simple_name`: what a documentation id such as `M:N.T.f(System.Int32)`
-- says of its symbol.
use docx_mcp.Base.{
  ℕ, Bool, false, ◌||◌, not, Option, none, some, [], ◌∷◌, ◌++◌, ◌≡◌, refl, ap, ◌∙◌, arith,
  if◌then◌else◌, ◌==◌, nat_eq, list_eq, is_empty, Bool-cases, inl, inr, ◌⊎◌, All, true,
}
use docx_mcp.Text.{Text, codes, contains_char}

pub record DocIdParts : Type 0 where
  pub kind : Option Text
  pub name : Option Text
  pub qualified_name : Option Text
  pub display_name : Option Text
  pub signature : Option Text

unfoldable pub kind_of : Text → Option Text
kind_of prefix =
    if prefix == codes "T"
    then some (codes "type")
    else if prefix == codes "M"
    then some (codes "method")
    else if prefix == codes "P"
    then some (codes "property")
    else if prefix == codes "F"
    then some (codes "field")
    else if prefix == codes "E"
    then some (codes "event")
    else if prefix == codes "N"
    then some (codes "namespace")
    else none

-- `splitn(2, ':')`, with an empty rest where there is no colon
unfoldable pub split_doc_id : Text → Text × Text
split_doc_id [] = ([], [])
split_doc_id (c ∷ cs) =
    let parts = split_doc_id cs in if c == 58 then ([], cs) else (c ∷ parts.0, parts.1)

-- `rest[..pos]` for the position of the first parenthesis, or all of it
unfoldable pub before_parenthesis : Text → Text
before_parenthesis [] = []
before_parenthesis (c ∷ cs) =
    let before = before_parenthesis cs in if c == 40 then [] else c ∷ before

unfoldable pub is_separator : ℕ → Bool
is_separator c = c == 46 || (c == 43 || c == 35)

abbrev pub has_separator : Text → Bool
has_separator [] = false
has_separator (c ∷ cs) = is_separator c || has_separator cs

-- `rsplit(['.', '+', '#']).next()`: what stands after the last separator
unfoldable pub extract_simple_name : Text → Text
extract_simple_name [] = []
extract_simple_name (c ∷ cs) =
    let name = extract_simple_name cs in
    if has_separator cs then name else if is_separator c then cs else c ∷ cs

abbrev pub some_unless_empty : Text → Text → Option Text
some_unless_empty rest value = if is_empty rest then none else some value

unfoldable pub parse_doc_id : Text → DocIdParts
parse_doc_id doc_id =
    let parts = split_doc_id doc_id in
    let qualified = before_parenthesis parts.1 in
    record {
      kind = kind_of parts.0;
      name = some_unless_empty parts.1 (extract_simple_name qualified);
      qualified_name = some_unless_empty parts.1 qualified;
      display_name = some_unless_empty parts.1 (extract_simple_name qualified);
      signature = some_unless_empty parts.1 parts.1;
    }

-- What stands before the simple name: nothing, or a text that holds a separator.
before_name : Text → Text
before_name [] = []
before_name (c ∷ cs) =
    let before = before_name cs in
    if has_separator cs then c ∷ before else if is_separator c then c ∷ [] else []

extract_simple_name-has_separator :
    (value : Text) → has_separator (extract_simple_name value) ≡ false
unfolding extract_simple_name
extract_simple_name-has_separator [] = refl
extract_simple_name-has_separator (c ∷ cs) = ground (arith, extract_simple_name-has_separator cs)

before_name-append : (value : Text) → value ≡ before_name value ++ extract_simple_name value
unfolding extract_simple_name before_name
before_name-append [] = refl
before_name-append (c ∷ cs) = elim (Bool-cases (has_separator cs)) [
  | inl more ↦ rw more (ap (◌∷◌ c) (before_name-append cs))
  | inr last ↦ elim (Bool-cases (is_separator c)) [
    | inl here ↦ rw (last, here) refl
    | inr plain ↦ rw (last, plain) refl
  ]
]

is_empty-before_name : (value : Text) → is_empty (before_name value) ≡ not (has_separator value)
unfolding before_name
is_empty-before_name [] = refl
is_empty-before_name (c ∷ cs) = ground (arith, is_empty-before_name cs)

split_doc_id-append :
    (prefix rest : Text)
    → contains_char 58 prefix ≡ false
    → split_doc_id (prefix ++ (58 ∷ rest)) ≡ (prefix, rest)
unfolding split_doc_id contains_char
split_doc_id-append [] rest h = refl
split_doc_id-append (c ∷ cs) rest h = ground (arith, split_doc_id-append cs rest)

-- The argument list of a documentation id, with its parenthesis.
abbrev pub arguments_text : Option Text → Text
arguments_text none = []
arguments_text (some arguments) = 40 ∷ arguments

before_parenthesis-append :
    (qualified : Text) (arguments : Option Text)
    → contains_char 40 qualified ≡ false
    → before_parenthesis (qualified ++ arguments_text arguments) ≡ qualified
unfolding before_parenthesis contains_char
before_parenthesis-append [] none h = refl
before_parenthesis-append [] (some arguments) h = refl
before_parenthesis-append (c ∷ cs) arguments h =
    ground (arith, before_parenthesis-append cs arguments)

-- The characters that end a part of a name: `.`, `+` and `#`.
abbrev pub EndsPart : ℕ → Type 0
EndsPart c = (c ≡ 46) ⊎ (c ≡ 43) ⊎ (c ≡ 35)

-- A name that is one part: it holds none of them.
abbrev pub IsOnePart : Text → Type 0
IsOnePart name = All (λ c. ¬ EndsPart c) name

-- A text that is empty or whose last character ends a part.
abbrev pub IsParts : Text → Type 0
IsParts before = (before ≡ []) ⊎ ((init : Text) × (c : ℕ) × (before ≡ init ++ c ∷ []) × EndsPart c)

EndsPart-is_separator : (c : ℕ) → is_separator c ≡ true → EndsPart c
unfolding is_separator
EndsPart-is_separator c h = ground arith

is_separator-EndsPart : (c : ℕ) → EndsPart c → is_separator c ≡ true
unfolding is_separator
is_separator-EndsPart c h = ground arith

IsOnePart-has_separator : (name : Text) → has_separator name ≡ false → IsOnePart name
IsOnePart-has_separator [] h = tt
IsOnePart-has_separator (c ∷ cs) h = (
  λ ends. ground (arith, is_separator-EndsPart c ends),
  IsOnePart-has_separator cs (ground arith),
)

IsParts-cons :
    (c : ℕ) (before : Text) → is_empty before ≡ false → IsParts before → IsParts (c ∷ before)
IsParts-cons c before full (inl e) = ground (arith, e)
IsParts-cons c before full (inr (init, d, e, ends)) = inr (c ∷ init, d, ap (◌∷◌ c) e, ends)

before_name-IsParts : (value : Text) → IsParts (before_name value)
unfolding before_name
before_name-IsParts [] = inl refl
before_name-IsParts (c ∷ cs) = elim (Bool-cases (has_separator cs)) [
  | inl more ↦ rw more (
      IsParts-cons c (before_name cs) (is_empty-before_name cs ∙ ap not more)
        (before_name-IsParts cs))
  | inr last ↦ elim (Bool-cases (is_separator c)) [
    | inl here ↦ rw (last, here) (inr ([], c, refl, EndsPart-is_separator c here))
    | inr plain ↦ rw (last, plain) (inl refl)
  ]
]

-- A documentation id of a prefix without a colon, a colon, a qualified name that is not empty and
-- holds no parenthesis, and perhaps arguments after an opening one, is taken apart into these: the
-- kind is that of the prefix, the qualified name is that one, the signature is it with the
-- arguments, and the name is its last part: it holds none of `.`, `+` and `#`, and what stands before
-- it in the qualified name is nothing, or ends in one of these.
pub parse_doc_id_lem :
    (prefix : Text) (c : ℕ) (cs : Text) (arguments : Option Text)
    → contains_char 58 prefix ≡ false
    → contains_char 40 (c ∷ cs) ≡ false
    → let parts = parse_doc_id (prefix ++ (58 ∷ ((c ∷ cs) ++ arguments_text arguments))) in
      (parts.kind ≡ kind_of prefix)
      × (parts.qualified_name ≡ some (c ∷ cs))
      × (parts.signature ≡ some ((c ∷ cs) ++ arguments_text arguments))
      × ((before : Text) × (name : Text) × (parts.name ≡ some name)
          × (c ∷ cs ≡ before ++ name)
          × IsOnePart name
          × IsParts before)
unfolding parse_doc_id
parse_doc_id_lem prefix c cs arguments p q =
    let split = split_doc_id-append prefix ((c ∷ cs) ++ arguments_text arguments) p in
    let qualified = before_parenthesis-append (c ∷ cs) arguments q in
    (
      ap (λ r. kind_of r.0) split,
      ap (λ r. some_unless_empty r.1 (before_parenthesis r.1)) split ∙ ap some qualified,
      ap (λ r. some_unless_empty r.1 r.1) split,
      (
        before_name (c ∷ cs),
        extract_simple_name (c ∷ cs),
        ap (λ r. some_unless_empty r.1 (extract_simple_name (before_parenthesis r.1))) split
            ∙ ap (λ t. some (extract_simple_name t)) qualified,
        before_name-append (c ∷ cs),
        IsOnePart-has_separator (extract_simple_name (c ∷ cs))
            (extract_simple_name-has_separator (c ∷ cs)),
        before_name-IsParts (c ∷ cs),
      ),
    )
