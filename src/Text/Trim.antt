-- ===== src/Text/Trim.antt =====
-- Trimming, prefixes and suffixes. White space is Unicode's `White_Space` property, which
-- `char::is_whitespace` tests.
use Prim.Native.Char.{code}
use mathlib.Core.List.{reverse}
use docx_mcp.Base.{
  ℕ, String, Bool, true, false, ◌&&◌, ◌||◌, Option, none, some, List, [], ◌∷◌, ◌++◌, ◌≡◌, refl,
  arith, leb, ◌==◌, if◌then◌else◌, eq_refl, eq_iff, nat_eq,
}

abbrev pub Text : Type 0
Text = List ℕ

-- The code points of a literal.
abbrev pub codes : String → Text
codes String.[] = []
codes (String.◌∷◌ c s) = code c ∷ codes s

unfoldable pub is_whitespace : ℕ → Bool
is_whitespace c =
    (leb 0x9 c && leb c 0xd)
    || c == 0x20
    || c == 0x85
    || c == 0xa0
    || c == 0x1680
    || (leb 0x2000 c && leb c 0x200a)
    || c == 0x2028
    || c == 0x2029
    || c == 0x202f
    || c == 0x205f
    || c == 0x3000

-- `trim_start`, `trim_end`, `trim`
unfoldable pub trim_start : Text → Text
unfolding is_whitespace
trim_start [] = []
trim_start (c ∷ s) = if is_whitespace c then trim_start s else c ∷ s

unfoldable pub trim_end : Text → Text
unfolding trim_start
trim_end s = reverse (trim_start (reverse s))

unfoldable pub trim : Text → Text
unfolding trim_end
trim s = trim_end (trim_start s)

-- `value.strip_prefix(prefix)`
unfoldable pub strip_prefix : Text → Text → Option Text
strip_prefix s [] = some s
strip_prefix [] (p ∷ ps) = none
strip_prefix (c ∷ s) (p ∷ ps) = if c == p then strip_prefix s ps else none

-- `value.strip_suffix(suffix)`
unfoldable pub strip_suffix : Text → Text → Option Text
unfolding strip_prefix
strip_suffix s p = elim (strip_prefix (reverse s) (reverse p)) [
  | none ↦ none
  | some r ↦ some (reverse r)
]

unfoldable pub starts_with : Text → Text → Bool
unfolding strip_prefix
starts_with s p = elim (strip_prefix s p) [ none ↦ false | some r ↦ true ]

-- `value.chars().all(test)`
unfoldable pub all_chars : (ℕ → Bool) → Text → Bool
all_chars test [] = true
all_chars test (c ∷ s) = test c && all_chars test s

pub strip_prefix-append : (p s : Text) → strip_prefix (p ++ s) p ≡ some s
unfolding strip_prefix
strip_prefix-append [] s = refl
strip_prefix-append (c ∷ p) s = simp eq_refl (strip_prefix-append p s)

pub strip_prefix_sound : (s p r : Text) → strip_prefix s p ≡ some r → s ≡ p ++ r
unfolding strip_prefix
strip_prefix_sound s [] r h = ground arith
strip_prefix_sound [] (p ∷ ps) r h = cc
strip_prefix_sound (c ∷ s) (p ∷ ps) r h = ground (arith, strip_prefix_sound s ps r, eq_iff c p)

pub starts_with-append : (p s : Text) → starts_with (p ++ s) p ≡ true
unfolding starts_with
starts_with-append p s = ground (arith, strip_prefix-append p s)

-- A text that starts and ends with other than white space, or is empty.
abbrev pub IsTrimmedStart : Text → Type 0
IsTrimmedStart [] = Unit
IsTrimmedStart (c ∷ s) = is_whitespace c ≡ false

pub trim_start-IsTrimmedStart : (s : Text) → IsTrimmedStart (trim_start s)
unfolding trim_start
trim_start-IsTrimmedStart [] = tt
trim_start-IsTrimmedStart (c ∷ s) = ground (arith, trim_start-IsTrimmedStart s)
