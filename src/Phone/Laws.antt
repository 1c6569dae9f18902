-- ===== src/Phone/Laws.antt =====
-- What the comparison of telephone numbers decides.
use clip_sync_server.Base.{
  ◌&&◌, ◌++◌, Text, [], ap, arith, is_empty, not, refl, same, same_iff, same_refl, ℕ, ◌∷◌, ◌≡◌,
  if◌then◌else◌, sym, true, ◌∙◌,
}
use clip_sync_server.Text.{
  is_digit, is_lower, is_upper, is_space, trim_left, trim_right, trim_space,
}
use clip_sync_server.Phone.{
  normal_rune, normal_runes, normalize_phone_query, phone_equal, strip_cn, trim_space,
}

normal_runes-rune :
    (c : ℕ) (s : Text) → normal_runes (normal_rune c ++ s) ≡ normal_rune c ++ normal_runes s
unfolding normal_runes normal_rune is_digit is_lower is_upper
normal_runes-rune c s = ground arith

normal_runes_idem : (s : Text) → normal_runes (normal_runes s) ≡ normal_runes s
unfolding normal_runes
normal_runes_idem [] = refl
normal_runes_idem (c ∷ s) =
    rw (normal_runes-rune c (normal_runes s)) (ap (◌++◌ (normal_rune c)) (normal_runes_idem s))

-- White space has no part in a normal form.
normal_rune-space : (c : ℕ) → is_space c ≡ true → normal_rune c ≡ []
unfolding normal_rune is_digit is_lower is_upper is_space
normal_rune-space c h = ground arith

normal_runes-trim_left : (s : Text) → normal_runes (trim_left s) ≡ normal_runes s
unfolding normal_runes trim_left
normal_runes-trim_left [] = refl
normal_runes-trim_left (c ∷ s) = ground (arith, normal_rune-space c, normal_runes-trim_left s)

trimmed :
    (c : ℕ) (s r : Text)
    → normal_runes r ≡ normal_runes s
    → normal_runes (if is_empty r && is_space c then [] else c ∷ r)
      ≡ normal_rune c ++ normal_runes s
unfolding normal_runes
trimmed c s [] e = ground (arith, normal_rune-space c)
trimmed c s (d ∷ r) e = ap (◌++◌ (normal_rune c)) e

normal_runes-trim_right : (s : Text) → normal_runes (trim_right s) ≡ normal_runes s
unfolding normal_runes trim_right
normal_runes-trim_right [] = refl
normal_runes-trim_right (c ∷ s) = trimmed c s (trim_right s) (normal_runes-trim_right s)

normalize_phone_query-runes : (s : Text) → normalize_phone_query s ≡ normal_runes s
unfolding normalize_phone_query trim_space
normalize_phone_query-runes s = normal_runes-trim_right (trim_left s) ∙ normal_runes-trim_left s

normalize_phone_query_idem :
    (s : Text) → normalize_phone_query (normalize_phone_query s) ≡ normalize_phone_query s
normalize_phone_query_idem s =
    normalize_phone_query-runes (normalize_phone_query s)
    ∙ ap normal_runes (normalize_phone_query-runes s)
    ∙ normal_runes_idem s
    ∙ sym (normalize_phone_query-runes s)

-- Two numbers count as one exactly if both have a digit or letter and their normal forms, without
-- the country code 86 before eleven characters, are equal.
pub phone_equal_iff :
    (actual query : Text)
    → phone_equal actual query ≡ (
        not (is_empty (normalize_phone_query actual))
        && not (is_empty (normalize_phone_query query))
        && same (strip_cn (normalize_phone_query actual)) (strip_cn (normalize_phone_query query)))
unfolding phone_equal
phone_equal_iff actual query = ground (
  arith,
  same_iff (normalize_phone_query actual) (normalize_phone_query query),
  same_refl (strip_cn (normalize_phone_query actual)),
)

-- The query normalizes its filter before `phoneEqual` normalizes it again: that changes no
-- comparison.
pub phone_equal-normalize_phone_query :
    (actual query : Text)
    → phone_equal actual (normalize_phone_query query) ≡ phone_equal actual query
unfolding phone_equal
phone_equal-normalize_phone_query actual query = rw (normalize_phone_query_idem query)

-- If `phoneEqual` takes `a` for `b` and `b` for `c`, it takes `b` for `a` and `a` for `c`.
pub phone_equal_trans :
    (a b c : Text)
    → phone_equal a b ≡ true
    → phone_equal b c ≡ true
    → (phone_equal b a ≡ true) × (phone_equal a c ≡ true)
phone_equal_trans a b c h k = ground (
  arith,
  phone_equal_iff a b,
  phone_equal_iff b a,
  phone_equal_iff b c,
  phone_equal_iff a c,
  same_iff (strip_cn (normalize_phone_query a)) (strip_cn (normalize_phone_query b)),
  same_iff (strip_cn (normalize_phone_query b)) (strip_cn (normalize_phone_query a)),
  same_iff (strip_cn (normalize_phone_query b)) (strip_cn (normalize_phone_query c)),
  same_iff (strip_cn (normalize_phone_query a)) (strip_cn (normalize_phone_query c)),
)
