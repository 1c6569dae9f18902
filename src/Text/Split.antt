-- ===== src/Text/Split.antt =====
-- strings.Split on texts without the separator, and strings.HasPrefix.
-- `sep` does not occur.
use clip_sync_server.Base.{
  ◌++◌, ◌==◌, ==_refl, Bool, Text, [], any, arith, false, not, refl, true, ℕ, ◌∷◌, ◌≡◌,
}
use clip_sync_server.Text.{split_on, has_prefix}

abbrev pub is_free : ℕ → Text → Bool
is_free sep s = not (any (λ c. c == sep) s)

pub split_on_free : (sep : ℕ) (s : Text) → is_free sep s ≡ true → split_on sep s ≡ s ∷ []
unfolding split_on
split_on_free sep [] h = refl
split_on_free sep (c ∷ s) h =
    let other : (c == sep) ≡ false = ground arith in
    let later : is_free sep s ≡ true = ground arith in rw (other, split_on_free sep s later) refl

pub split_on_first :
    (sep : ℕ) (a b : Text) → is_free sep a ≡ true → split_on sep (a ++ sep ∷ b) ≡ a ∷ split_on sep b
unfolding split_on
split_on_first sep [] b h = rw (==_refl sep) refl
split_on_first sep (c ∷ a) b h =
    let other : (c == sep) ≡ false = ground arith in
    let later : is_free sep a ≡ true = ground arith in rw (other, split_on_first sep a b later) refl

pub has_prefix-append : (p s : Text) → has_prefix p (p ++ s) ≡ true
unfolding has_prefix
has_prefix-append [] s = refl
has_prefix-append (c ∷ p) s = rw (==_refl c, has_prefix-append p s) refl
