-- ===== src/Hub/Middle.antt =====
-- One connection in the middle of a list.
use clip_sync_server.Base.{◌++◌, All, Bool, List, [], any, arith, false, map, refl, true, ◌∷◌, ◌≡◌}

module _ {ℓ} {A : Type ℓ} where
  -- A map that changes one element of a list.
  pub map_only :
      (f : A → A) (xs ys : List A) (o : A)
      → All (λ d. f d ≡ d) xs
      → All (λ d. f d ≡ d) ys
      → map f (xs ++ o ∷ ys) ≡ xs ++ f o ∷ ys
  map_only f [] [] o h k = refl
  map_only f [] (y ∷ ys) o h (k, ks) = cc (k, map_only f [] ys o h ks)
  map_only f (x ∷ xs) ys o (h, hs) k = cc (h, map_only f xs ys o hs k)

  pub any_middle :
      (p : A → Bool) (xs ys : List A) (o : A) → p o ≡ true → any p (xs ++ o ∷ ys) ≡ true
  any_middle p [] ys o h = rw h
  any_middle p (x ∷ xs) ys o h = ground (arith, any_middle p xs ys o h)

  pub any_none : (p : A → Bool) (xs : List A) → All (λ d. p d ≡ false) xs → any p xs ≡ false
  any_none p [] h = refl
  any_none p (x ∷ xs) (h, hs) = rw h (any_none p xs hs)

pub All-middle {ℓ κ} :
    {A : Type ℓ} (P : A → Type κ) (xs ys : List A) (o : A) → All P (xs ++ o ∷ ys) → P o
All-middle P [] ys o (h, hs) = h
All-middle P (x ∷ xs) ys o (h, hs) = All-middle P xs ys o hs
