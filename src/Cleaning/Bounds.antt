-- ===== src/Cleaning/Bounds.antt =====
-- main.go: the cleaning of a message adds nothing.
-- The matches of an expression leave less than they found.
use clip_sync_server.Base.{
  ◌==◌, Bool, Option, Option-cases, Text, [], arith, inl, inr, length, none, refl, some, subst, suc,
  zero, ◌||◌, ℕ, ◌∷◌, ◌≡◌, ◌≤◌,
}
use clip_sync_server.Cleaning.{
  and_then, clean, count_in, expect, is_dot, is_ellipsis, merge_count1, merge_count2, remove_all,
  skip_all, skip_blanks, skip_ellipsis, strip_numbers,
}
use clip_sync_server.Text.{is_digit, trim_left, trim_right, trim_space}
use clip_sync_server.Cleaning.Rounds.{length-skip_all, length-skip_blanks, length-strip_numbers}

abbrev pub Shortens : (Text → Option Text) → Type 0
Shortens m = (s rest : Text) → m s ≡ some rest → length rest ≤ length s

length-remove_all :
    (m : Text → Option Text) (n : ℕ) (s : Text) → Shortens m → length (remove_all m n s) ≤ length s
unfolding remove_all
length-remove_all m zero s h = omega arith
length-remove_all m (suc n) [] h = omega arith
length-remove_all m (suc n) (c ∷ s) h = elim (Option-cases (m (c ∷ s))) [
  | inl missing ↦ rw missing (omega (arith, length-remove_all m n s h))
  | inr (rest, found) ↦ rw found (omega (arith, length-remove_all m n rest h, h (c ∷ s) rest found))
]

expect-Shortens : (p : ℕ → Bool) → Shortens (expect p)
expect-Shortens p [] rest h = ground arith
expect-Shortens p (c ∷ s) rest h = ground arith

and_then-Shortens :
    (s : Text) (m : Option Text) (f : Text → Option Text)
    → ((r : Text) → m ≡ some r → length r ≤ length s)
    → Shortens f
    → (rest : Text) → and_then m f ≡ some rest
    → length rest ≤ length s
and_then-Shortens s none f h k rest e = ground arith
and_then-Shortens s (some r) f h k rest e = omega (arith, h r refl, k r rest e)

count_in-Shortens : Shortens count_in
unfolding count_in
count_in-Shortens s rest h =
    and_then-Shortens s (expect is_digit (skip_blanks s))
      (λ r. some (skip_blanks (skip_all is_digit r)))
      (λ r e. omega (arith, expect-Shortens is_digit (skip_blanks s) r e, length-skip_blanks s))
      (λ r t e.
        let same : skip_blanks (skip_all is_digit r) ≡ t = ground (arith, e) in
        subst (λ x. length x ≤ length r) same
          (omega (arith, length-skip_blanks (skip_all is_digit r), length-skip_all is_digit r)))
      rest h

merge_count1-Shortens : Shortens merge_count1
unfolding merge_count1
merge_count1-Shortens s rest h =
    and_then-Shortens s (expect (λ c. c == b'[') s) _ (expect-Shortens (λ c. c == b'[') s)
      (λ a t e.
        and_then-Shortens a (count_in a) _ (count_in-Shortens a)
          (λ b u f.
            and_then-Shortens b (expect (λ c. c == 0x6761) b) _
              (expect-Shortens (λ c. c == 0x6761) b)
              (λ c v g.
                omega (
                  arith,
                  expect-Shortens (λ d. d == b']') (skip_blanks c) v g,
                  length-skip_blanks c,
                ))
              u f)
          t e)
      rest h

merge_count2-Shortens : Shortens merge_count2
unfolding merge_count2
merge_count2-Shortens s rest h =
    and_then-Shortens s (expect (λ c. c == b'[') s) _ (expect-Shortens (λ c. c == b'[') s)
      (λ a t e.
        and_then-Shortens a (expect (λ c. c == b'x' || c == b'X') a) _
          (expect-Shortens (λ c. c == b'x' || c == b'X') a)
          (λ b u f.
            and_then-Shortens b (count_in b) _ (count_in-Shortens b)
              (expect-Shortens (λ c. c == b']')) u f)
          t e)
      rest h

length-skip_ellipsis : (s : Text) → length (skip_ellipsis s) ≤ length s
unfolding skip_ellipsis
length-skip_ellipsis s =
    let at = skip_blanks s in
    ground (
      arith,
      length-skip_blanks s,
      length-skip_all is_dot at,
      length-skip_blanks (skip_all is_dot at),
      length-skip_all is_ellipsis at,
      length-skip_blanks (skip_all is_ellipsis at),
    )

length-trim_left : (s : Text) → length (trim_left s) ≤ length s
unfolding trim_left
length-trim_left [] = omega arith
length-trim_left (c ∷ s) = ground (arith, length-trim_left s)

length-trim_right : (s : Text) → length (trim_right s) ≤ length s
unfolding trim_right
length-trim_right [] = omega arith
length-trim_right (c ∷ s) = ground (arith, length-trim_right s)

-- The cleaning never makes a text longer.
pub length-clean : (s : Text) → length (clean s) ≤ length s
unfolding clean trim_space
length-clean s =
    let stripped_text = strip_numbers (length s) s in
    let once = remove_all merge_count1 (length stripped_text) stripped_text in
    let twice = remove_all merge_count2 (length once) once in
    omega (
      arith,
      length-strip_numbers (length s) s,
      length-remove_all merge_count1 (length stripped_text) stripped_text merge_count1-Shortens,
      length-remove_all merge_count2 (length once) once merge_count2-Shortens,
      length-skip_ellipsis twice,
      length-trim_left (skip_ellipsis twice),
      length-trim_right (trim_left (skip_ellipsis twice)),
    )
