-- ===== src/Text.antt =====
-- The functions of the packages strings and unicode that the program calls, on code points.
pub mod Decimal
pub mod Split
pub mod Format
use clip_sync_server.Base.{
  ◌&&◌, ◌+◌, ◌==◌, Bool, List, Option, Text, [], drop, if◌then◌else◌, false, is_empty, leb, map,
  none, some, true, ◌||◌, ℕ, ◌∷◌,
}
use Prim.Native.Nat.{ℕ}

-- unicode.IsSpace.
unfoldable pub is_space : ℕ → Bool
is_space c =
    (leb 9 c && leb c 13)
    || c == 32
    || c == 0x85
    || c == 0xa0
    || c == 0x1680
    || (leb 0x2000 c && leb c 0x200a)
    || c == 0x2028
    || c == 0x2029
    || c == 0x202f
    || c == 0x205f
    || c == 0x3000

unfoldable pub trim_left : Text → Text
trim_left [] = []
trim_left (c ∷ s) = if is_space c then trim_left s else c ∷ s

unfoldable pub trim_right : Text → Text
trim_right [] = []
trim_right (c ∷ s) = let r = trim_right s in if is_empty r && is_space c then [] else c ∷ r

-- strings.TrimSpace.
unfoldable pub trim_space : Text → Text
trim_space s = trim_right (trim_left s)

-- strings.HasPrefix(s, prefix), the prefix first.
unfoldable pub has_prefix : Text → Text → Bool
has_prefix [] s = true
has_prefix (p ∷ ps) [] = false
has_prefix (p ∷ ps) (c ∷ s) = p == c && has_prefix ps s

-- What follows a prefix of that many ASCII characters: `s[n:]`.
abbrev pub after : ℕ → Text → Text
after n s = drop n s

-- unicode.ToLower on the code points whose lower case is ASCII (the Kelvin sign and the dotted
-- capital I among them); other code points stay, which an ASCII comparison cannot tell.
unfoldable pub lower_rune : ℕ → ℕ
lower_rune c =
    if leb b'A' c && leb c b'Z'
    then c + 32
    else if c == 0x130
    then b'i'
    else if c == 0x212a
    then b'k'
    else c

unfoldable pub to_lower : Text → Text
to_lower s = map lower_rune s

-- The parts before and after the first `sep`, as strings.IndexByte and two slices give them.
unfoldable pub cut : ℕ → Text → Option (Text × Text)
cut sep [] = none
cut sep (c ∷ s) =
    if c == sep
    then some ([], s)
    else elim (cut sep s) [ none ↦ none | some (a, b) ↦ some (c ∷ a, b) ]

-- strings.Split(s, sep) for a separator of one byte.
unfoldable pub split_on : ℕ → Text → List Text
split_on sep [] = [] ∷ []
split_on sep (c ∷ s) =
    let rest = split_on sep s in
    if c == sep then [] ∷ rest else elim rest [ [] ↦ (c ∷ []) ∷ [] | p ∷ ps ↦ (c ∷ p) ∷ ps ]

unfoldable pub is_digit : ℕ → Bool
is_digit c = leb b'0' c && leb c b'9'

unfoldable pub is_lower : ℕ → Bool
is_lower c = leb b'a' c && leb c b'z'

unfoldable pub is_upper : ℕ → Bool
is_upper c = leb b'A' c && leb c b'Z'

-- strings.Contains.
unfoldable pub contains : Text → Text → Bool
contains part [] = is_empty part
contains part (c ∷ s) = has_prefix part (c ∷ s) || contains part s
