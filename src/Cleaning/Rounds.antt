-- ===== src/Cleaning/Rounds.antt =====
-- main.go: the loop that takes the leading brackets off a message ends.
use clip_sync_server.Base.{
  ◌+◌, ◌<◌, Bool, Bool-cases, Option, Option-cases, Text, [], ap, arith, false, inl, inr, length,
  none, refl, some, suc, zero, ℕ, ◌∙◌, ◌∷◌, ◌≡◌, ◌≤◌,
}
use clip_sync_server.Text.{cut}
use clip_sync_server.Cleaning.{
  is_number, leading_bracket, opened, right_bracket, skip_all, skip_blanks, strip_numbers,
}

pub length-skip_blanks : (s : Text) → length (skip_blanks s) ≤ length s
unfolding skip_blanks
length-skip_blanks [] = omega arith
length-skip_blanks (c ∷ s) = ground (arith, length-skip_blanks s)

pub length-skip_all : (p : ℕ → Bool) (s : Text) → length (skip_all p s) ≤ length s
unfolding skip_all
length-skip_all p [] = omega arith
length-skip_all p (c ∷ s) = ground (arith, length-skip_all p s)

-- What is left where a text is cut is shorter.
length-cut : (sep : ℕ) (s a b : Text) → cut sep s ≡ some (a, b) → length b < length s
unfolding cut
length-cut sep [] a b h = ground arith
length-cut sep (c ∷ s) a b h = elim (Option-cases (cut sep s)) [
  | inl missing ↦ ground arith
  | inr ((d, e), found) ↦ ground (arith, length-cut sep s d e found)
]

length-opened : (s content rest : Text) → opened s ≡ some (content, rest) → length rest < length s
length-opened [] content rest h = ground arith
length-opened (c ∷ s) content rest h = elim (Option-cases (cut right_bracket s)) [
  | inl missing ↦ ground arith
  | inr ((a, b), found) ↦ ground (arith, length-cut right_bracket s a b found, length-skip_blanks b)
]

length-leading_bracket :
    (s content rest : Text) → leading_bracket s ≡ some (content, rest) → length rest < length s
unfolding leading_bracket
length-leading_bracket s content rest h =
    omega (arith, length-opened (skip_blanks s) content rest h, length-skip_blanks s)

-- A bracket with a number stands at the start.
abbrev pub number_found : Option (Text × Text) → Bool
number_found none = false
number_found (some (content, rest)) = is_number content

abbrev pub starts_with_number : Text → Bool
starts_with_number s = number_found (leading_bracket s)

strip_numbers_ends :
    (n : ℕ) (s : Text) → length s ≤ n → starts_with_number (strip_numbers n s) ≡ false
unfolding strip_numbers
strip_numbers_ends zero [] h = unfold leading_bracket skip_blanks in refl
strip_numbers_ends zero (c ∷ s) h = ground arith
strip_numbers_ends (suc n) s h = elim (Option-cases (leading_bracket s)) [
  | inl missing ↦ rw (missing, missing) refl
  | inr ((content, rest), found) ↦ elim (Bool-cases (is_number content)) [
    | inl y ↦
        rw (found, y)
          (strip_numbers_ends n rest (omega (arith, length-leading_bracket s content rest found)))
    | inr none_left ↦ rw (found, none_left, found, none_left) refl
  ]
]

strip_numbers_more : (n : ℕ) (s : Text) → length s ≤ n → strip_numbers (suc n) s ≡ strip_numbers n s
unfolding strip_numbers
strip_numbers_more zero [] h = unfold leading_bracket skip_blanks in refl
strip_numbers_more zero (c ∷ s) h = ground arith
strip_numbers_more (suc n) s h = elim (Option-cases (leading_bracket s)) [
  | inl missing ↦ rw missing refl
  | inr ((content, rest), found) ↦ elim (Bool-cases (is_number content)) [
    | inl y ↦
        rw (found, y)
          (strip_numbers_more n rest (omega (arith, length-leading_bracket s content rest found)))
    | inr none_left ↦ rw (found, none_left) refl
  ]
]

strip_numbers_enough :
    (k : ℕ) (s : Text) → strip_numbers (k + length s) s ≡ strip_numbers (length s) s
strip_numbers_enough zero s = ap (λ n. strip_numbers n s) (omega arith)
strip_numbers_enough (suc k) s =
    let next : suc k + length s ≡ suc (k + length s) = omega arith in
    ap (λ n. strip_numbers n s) next
    ∙ strip_numbers_more (k + length s) s (omega arith)
    ∙ strip_numbers_enough k s

-- The loop that takes off the leading brackets ends: after as many rounds as the text has
-- characters more rounds change nothing, and no bracket with a number is left at the start.
pub strip_numbers_terminates :
    (k : ℕ) (s : Text)
    → (strip_numbers (k + length s) s ≡ strip_numbers (length s) s)
      × (starts_with_number (strip_numbers (k + length s) s) ≡ false)
strip_numbers_terminates k s =
    (strip_numbers_enough k s, strip_numbers_ends (k + length s) s (omega arith))

pub length-strip_numbers : (n : ℕ) (s : Text) → length (strip_numbers n s) ≤ length s
unfolding strip_numbers
length-strip_numbers zero s = omega arith
length-strip_numbers (suc n) s = elim (Option-cases (leading_bracket s)) [
  | inl missing ↦ rw missing (omega arith)
  | inr ((content, rest), found) ↦
      let shorter = length-leading_bracket s content rest found in
      let later = length-strip_numbers n rest in
      elim (Bool-cases (is_number content)) [
        | inl y ↦ rw (found, y) (omega (arith, shorter, later))
        | inr none_left ↦ rw (found, none_left) (omega arith)
      ]
]
