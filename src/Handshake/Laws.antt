-- ===== src/Handshake/Laws.antt =====
-- main.go: how the capabilities of a handshake add up, and the case of a device ID.
use clip_sync_server.Base.{
  ◌++◌, ◌==◌, ==_refl, Bool, Bool-cases, List, Option, Text, [], ap, arith, if◌then◌else◌, false,
  inl, inr, is_empty, none, refl, same, same_iff, some, sym, ℕ, ◌∙◌, ◌∷◌, ◌≡◌,
}
use clip_sync_server.Handshake.{
  add_item, add_items, is_switched_on, parse_caps, platform_from_device_id, put_cap,
}
use clip_sync_server.Text.{cut, lower_rune, split_on, to_lower, trim_left, trim_right, trim_space}

-- A nonempty list of parts: the first one and the others.
split_on-cons : (sep : ℕ) (s : Text) → (p : Text) × (ps : List Text) × (split_on sep s ≡ p ∷ ps)
unfolding split_on
split_on-cons sep [] = ([], [], refl)
split_on-cons sep (c ∷ s) =
    let (p, ps, e) = split_on-cons sep s in
    elim (Bool-cases (c == sep)) [
      | inl t ↦ ([], split_on sep s, rw t)
      | inr f ↦ (c ∷ p, ps, rw (f, e))
    ]

split_on-append :
    (sep : ℕ) (a b : Text) → split_on sep (a ++ sep ∷ b) ≡ split_on sep a ++ split_on sep b
unfolding split_on
split_on-append sep [] b = rw (==_refl sep)
split_on-append sep (c ∷ a) b =
    let (p, ps, e) = split_on-cons sep a in
    elim (Bool-cases (c == sep)) [
      | inl t ↦ rw (t, split_on-append sep a b)
      | inr f ↦ rw (f, split_on-append sep a b, e)
    ]

add_items-append :
    (xs ys : List Text) (caps : List (Text × Bool))
    → add_items (xs ++ ys) caps ≡ add_items ys (add_items xs caps)
unfolding add_items
add_items-append [] ys caps = refl
add_items-append (x ∷ xs) ys caps = add_items-append xs ys (add_item x caps)

parse_caps-items : (s : Text) → parse_caps s ≡ add_items (split_on b',' s) []
unfolding parse_caps add_items add_item split_on trim_space trim_left trim_right
parse_caps-items [] = refl
parse_caps-items (c ∷ s) = refl

-- The value of a capability.
abbrev pub cap : Text → List (Text × Bool) → Option Bool
cap k [] = none
cap k ((j, v) ∷ caps) = if same j k then some v else cap k caps

cap-put_cap :
    (k j : Text) (v : Bool) (caps : List (Text × Bool))
    → cap j (put_cap k v caps) ≡ (if same k j then some v else cap j caps)
unfolding put_cap
cap-put_cap k j v [] = refl
cap-put_cap k j v ((i, w) ∷ caps) =
    ground (arith, cap-put_cap k j v caps, same_iff i k, same_iff i j, same_iff k j)

-- Items after a comma are read after those before it, on top of their result.
pub parse_caps-append :
    (a b : Text) → parse_caps (a ++ b',' ∷ b) ≡ add_items (split_on b',' b) (parse_caps a)
parse_caps-append a b =
    parse_caps-items (a ++ b',' ∷ b)
    ∙ ap (λ items. add_items items []) (split_on-append b',' a b)
    ∙ add_items-append (split_on b',' a) (split_on b',' b) []
    ∙ ap (add_items (split_on b',' b)) (sym (parse_caps-items a))

-- An item `k=v` with a name that is not empty decides its capability, off for "0" and "false" and
-- on
-- for all else, and changes no other.
pub add_item-cap :
    (item k v j : Text) (caps : List (Text × Bool))
    → is_empty (trim_space item) ≡ false
    → cut b'=' (trim_space item) ≡ some (k, v)
    → is_empty (trim_space k) ≡ false
    → cap j (add_item item caps)
      ≡ (if same (trim_space k) j then some (is_switched_on (trim_space v)) else cap j caps)
unfolding add_item
add_item-cap item k v j caps e c n =
    rw (e, c, n) (cap-put_cap (trim_space k) j (is_switched_on (trim_space v)) caps)

lower_rune_idem : (c : ℕ) → lower_rune (lower_rune c) ≡ lower_rune c
unfolding lower_rune
lower_rune_idem c = ground arith

to_lower_idem : (s : Text) → to_lower (to_lower s) ≡ to_lower s
unfolding to_lower
to_lower_idem [] = refl
to_lower_idem (c ∷ s) = rw (lower_rune_idem c, to_lower_idem s)

-- The platform does not depend on the case in which the device ID is written.
platform_from_device_id-to_lower :
    (id : Text) → platform_from_device_id (to_lower id) ≡ platform_from_device_id id
unfolding platform_from_device_id
platform_from_device_id-to_lower id = rw (to_lower_idem id)
