-- ===== src/Device/Pages/Order.antt =====
-- store_device.go: ORDER BY `last_seen_at` DESC, on rows of different times.
use clip_sync_server.Base.{
  ◌≡◌, ◌<◌, All, List, [], ap, arith, inl, inr, length, refl, subst, sym, ℕ, ◌∙◌, ◌∷◌, ◌⊎◌,
}
use clip_sync_server.Device.Listing.{DeviceRow}

-- The row is in the list.
abbrev pub IsIn : DeviceRow → List DeviceRow → Type 0
IsIn r [] = ⊥
IsIn r (x ∷ xs) = (x ≡ r) ⊎ IsIn r xs

abbrev pub IsNewestFirst : List DeviceRow → Type 0
IsNewestFirst [] = Unit
IsNewestFirst (r ∷ rows) =
    All (λ x. x.device.last_seen_at < r.device.last_seen_at) rows × IsNewestFirst rows

-- `ys` has exactly the rows of `xs`, the newest first.
pub record IsOrdering (xs ys : List DeviceRow) : Type 0 where
  pub newest : IsNewestFirst ys
  pub same_length : length ys ≡ length xs
  pub kept : (r : DeviceRow) → IsIn r xs → IsIn r ys
  pub only : (r : DeviceRow) → IsIn r ys → IsIn r xs

older :
    (t : ℕ) (r : DeviceRow) (xs : List DeviceRow)
    → All (λ x. x.device.last_seen_at < t) xs
    → IsIn r xs
    → r.device.last_seen_at < t
older t r [] a i = absurd i
older t r (x ∷ xs) (a, as') (inl e) = subst (λ y. y.device.last_seen_at < t) e a
older t r (x ∷ xs) (a, as') (inr i) = older t r xs as' i

-- What is in both lists but not at the front is behind it in both.
behind :
    (x : DeviceRow) (xs ys : List DeviceRow)
    → All (λ y. y.device.last_seen_at < x.device.last_seen_at) xs
    → ((r : DeviceRow) → IsIn r (x ∷ xs) → IsIn r (x ∷ ys))
    → (r : DeviceRow) → IsIn r xs
    → IsIn r ys
behind x xs ys a h r i = elim (h r (inr i)) [
  | inl e ↦
      let before = older x.device.last_seen_at r xs a i in
      let no : r.device.last_seen_at < r.device.last_seen_at =
        subst (λ y. r.device.last_seen_at < y.device.last_seen_at) e before in
      absurd (omega arith)
  | inr j ↦ j
]

newest_same :
    (xs ys : List DeviceRow)
    → IsNewestFirst xs
    → IsNewestFirst ys
    → ((r : DeviceRow) → IsIn r xs → IsIn r ys)
    → ((r : DeviceRow) → IsIn r ys → IsIn r xs)
    → xs ≡ ys
newest_same [] [] a b h k = refl
newest_same [] (y ∷ ys) a b h k = absurd (k y (inl refl))
newest_same (x ∷ xs) [] a b h k = absurd (h x (inl refl))
newest_same (x ∷ xs) (y ∷ ys) (a, as') (b, bs) h k =
    let front : y ≡ x = elim (h x (inl refl)) [
      | inl e ↦ e
      | inr i ↦ elim (k y (inl refl)) [
        | inl e ↦ sym e
        | inr j ↦
            let one = older y.device.last_seen_at x ys b i in
            let other = older x.device.last_seen_at y xs a j in absurd (omega arith)
      ]
    ] in
    let h' : (r : DeviceRow) → IsIn r (x ∷ xs) → IsIn r (x ∷ ys) =
      subst (λ z. (r : DeviceRow) → IsIn r (x ∷ xs) → IsIn r (z ∷ ys)) front h in
    let k' : (r : DeviceRow) → IsIn r (x ∷ ys) → IsIn r (x ∷ xs) =
      subst (λ z. (r : DeviceRow) → IsIn r (z ∷ ys) → IsIn r (x ∷ xs)) front k in
    let b' : All (λ z. z.device.last_seen_at < x.device.last_seen_at) ys =
      subst (λ z. All (λ v. v.device.last_seen_at < z.device.last_seen_at) ys) front b in
    ap (◌∷◌ x) (newest_same xs ys as' bs (behind x xs ys a h') (behind x ys xs b' k'))
    ∙ ap (λ z. z ∷ ys) (sym front)

-- Two orderings of the same rows are the same.
pub same_ordering : (xs ys zs : List DeviceRow) → IsOrdering xs ys → IsOrdering xs zs → ys ≡ zs
same_ordering xs ys zs o p =
    newest_same ys zs o.newest p.newest (λ r i. p.kept r (o.only r i))
      (λ r i. o.kept r (p.only r i))
