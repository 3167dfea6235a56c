-- ===== src/Strings.antt =====
-- Go strings and what the program uses of the package `strings`. A string is the list of its bytes.
-- Case and white space are those of ASCII; Go also maps letters and spaces outside ASCII.
pub mod Laws
use Prim.Native.Char.{code}
use mathlib.Core.List.{reverse}
use quepasa.Prelude.{
  ℕ, zero, suc, ◌+◌, ◌-◌, String, Bool, true, false, ◌&&◌, ◌||◌, List, [], ◌∷◌, ◌==◌, leb, length,
  drop, if◌then◌else◌,
}

abbrev pub Text : Type 0
Text = List ℕ

-- The bytes of an ASCII literal.
abbrev pub codes : String → Text
codes String.[] = []
codes (String.◌∷◌ c s) = code c ∷ codes s

-- s == t
unfoldable pub same : Text → Text → Bool
same [] [] = true
same [] (d ∷ t) = false
same (c ∷ s) [] = false
same (c ∷ s) (d ∷ t) = (c == d) && same s t

-- strings.Contains(s, c) for one byte
unfoldable pub contains : Text → ℕ → Bool
contains [] c = false
contains (d ∷ s) c = (d == c) || contains s c

-- strings.HasPrefix(s, prefix)
unfoldable pub has_prefix : Text → Text → Bool
has_prefix s [] = true
has_prefix [] (c ∷ p) = false
has_prefix (d ∷ s) (c ∷ p) = (d == c) && has_prefix s p

-- strings.HasSuffix(s, suffix)
unfoldable pub has_suffix : Text → Text → Bool
unfolding same
has_suffix s p = leb (length p) (length s) && same (drop (length s - length p) s) p

-- strings.Contains(s, sub)
unfoldable pub contains_text : Text → Text → Bool
unfolding has_prefix
contains_text [] sub = has_prefix [] sub
contains_text (c ∷ s) sub = has_prefix (c ∷ s) sub || contains_text s sub

-- strings.Replace(s, c, "", -1) for one byte
unfoldable pub without : ℕ → Text → Text
without c [] = []
without c (d ∷ s) = let rest = without c s in if d == c then rest else d ∷ rest

-- strings.TrimLeft(s, c) for one byte
unfoldable pub trim_left : Text → ℕ → Text
trim_left [] c = []
trim_left (d ∷ s) c = if d == c then trim_left s c else d ∷ s

-- strings.Trim(s, c) for one byte
unfoldable pub trim : Text → ℕ → Text
unfolding trim_left
trim s c = reverse (trim_left (reverse (trim_left s c)) c)

-- Puts a byte in front of the first part.
abbrev pub on_first : ℕ → List Text → List Text
on_first c [] = (c ∷ []) ∷ []
on_first c (part ∷ parts) = (c ∷ part) ∷ parts

-- strings.Split(s, c) for one byte
unfoldable pub split : Text → ℕ → List Text
split [] c = [] ∷ []
split (d ∷ s) c = let parts = split s c in if d == c then [] ∷ parts else on_first d parts

-- strings.Split(s, c)[0]: a split has a first part.
unfoldable pub before : Text → ℕ → Text
before [] c = []
before (d ∷ s) c = let rest = before s c in if d == c then [] else d ∷ rest

unfoldable pub is_space : ℕ → Bool
is_space c = (c == b' ') || leb 9 c && leb c 13

-- Drops white space at the left end.
unfoldable pub trim_space_left : Text → Text
unfolding is_space
trim_space_left [] = []
trim_space_left (c ∷ s) = if is_space c then trim_space_left s else c ∷ s

-- Puts a byte in front of a trimmed rest.
keep_unless_last_space : ℕ → Text → Text
unfolding is_space
keep_unless_last_space c [] = if is_space c then [] else c ∷ []
keep_unless_last_space c (d ∷ s) = c ∷ d ∷ s

-- Drops white space at the right end.
unfoldable pub trim_space_right : Text → Text
unfolding keep_unless_last_space
trim_space_right [] = []
trim_space_right (c ∷ s) = keep_unless_last_space c (trim_space_right s)

-- strings.TrimSpace(s)
unfoldable pub trim_space : Text → Text
unfolding trim_space_left trim_space_right
trim_space s = trim_space_right (trim_space_left s)

unfoldable pub upper : ℕ → ℕ
upper c = if leb b'a' c && leb c b'z' then c - 32 else c

unfoldable pub lower : ℕ → ℕ
lower c = if leb b'A' c && leb c b'Z' then c + 32 else c

-- strings.ToUpper(s)
unfoldable pub to_upper : Text → Text
unfolding upper
to_upper [] = []
to_upper (c ∷ s) = upper c ∷ to_upper s

-- strings.ToLower(s)
unfoldable pub to_lower : Text → Text
unfolding lower
to_lower [] = []
to_lower (c ∷ s) = lower c ∷ to_lower s

-- The bytes \d of a regular expression.
unfoldable pub is_digit : ℕ → Bool
is_digit c = leb b'0' c && leb c b'9'
