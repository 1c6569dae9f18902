-- ===== src/Text/Format.antt =====
-- strconv.FormatInt(n, 10) of a number that is not negative.
-- The digits, with fuel: the number itself is enough, since each round divides it by ten.
use clip_sync_server.Base.{
  ◌%◌, ◌*◌, ◌+◌, ◌++◌, ◌-◌, ◌/◌, ◌<◌, Bool-cases, Text, [], ap, arith, if◌then◌else◌, inl, inr, ltb,
  some, suc, true, zero, ℕ, ◌∙◌, ◌∷◌, ◌≡◌, ◌≤◌, ◌==◌, false, refl, sym,
}
use clip_sync_server.Text.{is_digit}
use clip_sync_server.Text.Split.{is_free}
use clip_sync_server.Text.Decimal.{parse_digits}

unfoldable pub format_digits : ℕ → ℕ → Text
format_digits zero n = (n % 10 + b'0') ∷ []
format_digits (suc f) n =
    let rest = format_digits f (n / 10) in
    if ltb n 10 then (n + b'0') ∷ [] else rest ++ (n % 10 + b'0') ∷ []

unfoldable pub format_int : ℕ → Text
format_int n = format_digits n n

digit : (d : ℕ) → d < 10 → is_digit (d + b'0') ≡ true
unfolding is_digit
digit d h = ground arith

parse_digits-append :
    (acc d : ℕ) (s : Text) (m : ℕ)
    → d < 10
    → parse_digits acc s ≡ some m
    → parse_digits acc (s ++ (d + b'0') ∷ []) ≡ some (m * 10 + d)
unfolding parse_digits
parse_digits-append acc d [] m h e = ground (arith, digit d h)
parse_digits-append acc d (c ∷ s) m h e =
    ground (arith, parse_digits-append (acc * 10 + (c - b'0')) d s m h)

one_digit : (d : ℕ) → d < 10 → parse_digits 0 ((d + b'0') ∷ []) ≡ some d
unfolding parse_digits
one_digit d h = ground (arith, digit d h)

is_free-append :
    (sep : ℕ) (s : Text) (c : ℕ)
    → is_free sep s ≡ true
    → (c == sep) ≡ false
    → is_free sep (s ++ c ∷ []) ≡ true
is_free-append sep [] c h k = ground arith
is_free-append sep (d ∷ s) c h k =
    let others : is_free sep s ≡ true = ground arith in
    ground (arith, is_free-append sep s c others k)

-- Enough fuel gives digits that are read back as the number.
parse_digits-format_digits : (f n : ℕ) → n ≤ f → parse_digits 0 (format_digits f n) ≡ some n
unfolding format_digits
parse_digits-format_digits zero n h = one_digit (n % 10) (omega arith) ∙ ap some (omega arith)
parse_digits-format_digits (suc f) n h = elim (Bool-cases (ltb n 10)) [
  | inl small ↦ rw small (one_digit n (ground arith))
  | inr large ↦ rw large (
      parse_digits-append 0 (n % 10) (format_digits f (n / 10)) (n / 10) (omega arith)
        (parse_digits-format_digits f (n / 10) (ground arith))
      ∙ ap some (omega arith))
]

pub parse_digits-format_int : (n : ℕ) → parse_digits 0 (format_int n) ≡ some n
unfolding format_int
parse_digits-format_int n = parse_digits-format_digits n n (omega arith)

-- No digit is a colon.
format_digits-is_free : (f n : ℕ) → is_free b':' (format_digits f n) ≡ true
unfolding format_digits
format_digits-is_free zero n = ground arith
format_digits-is_free (suc f) n = elim (Bool-cases (ltb n 10)) [
  | inl small ↦ rw small (ground arith)
  | inr large ↦ rw large (
      is_free-append b':' (format_digits f (n / 10)) (n % 10 + b'0')
        (format_digits-is_free f (n / 10)) (ground arith))
]

pub format_int-is_free : (n : ℕ) → is_free b':' (format_int n) ≡ true
unfolding format_int
format_int-is_free n = format_digits-is_free n n

-- Two texts without the separator, each with a rest behind it, are told apart.
pub cut_free :
    (sep : ℕ) (a b s t : Text)
    → is_free sep a ≡ true
    → is_free sep b ≡ true
    → a ++ sep ∷ s ≡ b ++ sep ∷ t
    → (a ≡ b) × (s ≡ t)
cut_free sep [] [] s t h k e = (refl, cc)
cut_free sep [] (c ∷ b) s t h k e = let same_first : sep ≡ c = cc in ground arith
cut_free sep (c ∷ a) [] s t h k e = let same_first : c ≡ sep = cc in ground arith
cut_free sep (c ∷ a) (d ∷ b) s t h k e =
    let (rest, tail) = cut_free sep a b s t (ground arith) (ground arith) (cc) in
    let same_first : c ≡ d = cc in (cc, tail)

pub format_int_injective : (m n : ℕ) → format_int m ≡ format_int n → m ≡ n
format_int_injective m n e =
    let read : some m ≡ some n =
      sym (parse_digits-format_int m) ∙ ap (parse_digits 0) e ∙ parse_digits-format_int n in
    cc
