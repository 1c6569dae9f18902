-- ===== src/Text/Decimal.antt =====
-- strconv.ParseInt(s, 10, 64) and strconv.Atoi: an optional sign, then digits, within int64.
use clip_sync_server.Base.{
  ◌&&◌, ◌*◌, ◌+◌, ◌-◌, ◌<◌, ◌==◌, Bool, Option, Text, [], ◌^◌, arith, if◌then◌else◌, false, leb,
  ltb, none, not, some, true, ℕ, ◌∷◌, ◌≡◌,
}
use clip_sync_server.Text.{is_digit}

abbrev pub int64_bound : ℕ
int64_bound = 2 ^ 63

-- `none` at a character that is no digit.
unfoldable pub parse_digits : ℕ → Text → Option ℕ
parse_digits acc [] = some acc
parse_digits acc (c ∷ s) =
    let rest = parse_digits (acc * 10 + (c - b'0')) s in if is_digit c then rest else none

-- The number, `true` for a minus sign. A value out of range is an error.
abbrev pub in_range : Bool → Option ℕ → Option (Bool × ℕ)
in_range minus none = none
in_range minus (some n) =
    if (if minus then leb n int64_bound else ltb n int64_bound) then some (minus, n) else none

abbrev pub signed : Bool → Text → Option (Bool × ℕ)
signed minus [] = none
signed minus (c ∷ s) = in_range minus (parse_digits 0 (c ∷ s))

unfoldable pub parse_int : Text → Option (Bool × ℕ)
parse_int [] = none
parse_int (c ∷ s) =
    if c == b'-' then signed true s else if c == b'+' then signed false s else signed false (c ∷ s)

-- The number, if it is greater than zero.
abbrev pub positive : Option (Bool × ℕ) → Option ℕ
positive none = none
positive (some (minus, n)) = if not minus && ltb 0 n then some n else none

unfoldable pub parse_positive : Text → Option ℕ
parse_positive s = positive (parse_int s)

-- What is parsed as positive is within int64.
pub parse_positive_bounds :
    (s : Text) (n : ℕ) → parse_positive s ≡ some n → (0 < n) × (n < int64_bound)
unfolding parse_positive parse_int
parse_positive_bounds [] n h = ground arith
parse_positive_bounds (c ∷ []) n h = ground arith
parse_positive_bounds (c ∷ d ∷ s) n h = ground arith
