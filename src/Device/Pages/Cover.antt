-- ===== src/Device/Pages/Cover.antt =====
-- admin_http.go: the pages of the device list and the online state that they show.
-- A connection that holds the device in the register of the hub.
use native.Mathlib.Nat.{zero-add, suc-add, zero-mul}
use clip_sync_server.Base.{
  ◌&&◌, ◌*◌, ◌+◌, ◌++◌, ◌==◌, Bool, List, Text, [], any, ap, arith, drop, length, refl, same, suc,
  take, zero, ℕ, ◌∷◌, ◌≡◌, ◌≤◌, ==_refl, Bool-cases, false, inl, inr, same_refl, same→eq, sym, true,
  ◌∙◌, take-nil, ◌-◌, Result, err, map, map-append, ok, select,
}
use clip_sync_server.Hub.Conn.{Client, World}
use clip_sync_server.Device.Pages.{
  all_online_device_ids, online_key, DevicePage, ListRequest, ShownDevice, admin_list_all_devices,
  requested, show_device, DeviceRow,
}
use clip_sync_server.Text.Format.{cut_free, format_int, format_int-is_free, format_int_injective}
use clip_sync_server.Device.Listing.{
  DeviceRow, list_all_devices, list_filter, matches_filter, page_limit, page_number, page_size,
  online_clause,
}
use clip_sync_server.Device.Pages.Order.{IsOrdering, same_ordering}

abbrev pub is_device_of : ℕ → Text → Client → Bool
is_device_of u device c = c.member && c.user_id == u && same c.device_id device

keys_differ :
    (u v : ℕ) (d e : Text)
    → same (online_key u d) (online_key v e) ≡ false
    → (v == u && same e d) ≡ false
keys_differ u v d e differ = elim (Bool-cases (v == u && same e d)) [
  | inl both ↦
      let owner : v ≡ u = ground arith in
      let device : e ≡ d = same→eq e d (ground arith) in
      let equal : same (online_key u d) (online_key v e) ≡ true =
        rw (owner, device) (same_refl (online_key u d)) in
      cc
  | inr differ' ↦ differ'
]

online_key-same :
    (u v : ℕ) (d e : Text) → same (online_key u d) (online_key v e) ≡ (v == u && same e d)
online_key-same u v d e = elim (Bool-cases (same (online_key u d) (online_key v e))) [
  | inl equal ↦
      let (users, devices) =
        cut_free b':' (format_int u) (format_int v) d e (format_int-is_free u)
          (format_int-is_free v) (same→eq (online_key u d) (online_key v e) equal) in
      let owner : u ≡ v = format_int_injective u v users in
      equal ∙ rw (owner, devices) (ground (arith, same_refl e, ==_refl v))
  | inr differ ↦ differ ∙ sym (keys_differ u v d e differ)
]

pub any-all_online_device_ids :
    (u : ℕ) (device : Text) (w : World)
    → any (same (online_key u device)) (all_online_device_ids w) ≡ any (is_device_of u device) w
unfolding all_online_device_ids
any-all_online_device_ids u device [] = refl
any-all_online_device_ids u device (c ∷ w) =
    ground
      (arith, any-all_online_device_ids u device w, online_key-same u c.user_id device c.device_id)

module _ {ℓ} {A : Type ℓ} where
  -- The pages of a list, the first `n` of them.
  abbrev pub pages : ℕ → ℕ → List A → List A
  pages size zero xs = []
  pages size (suc n) xs = pages size n xs ++ take size (drop (n * size) xs)

  take-add : (m n : ℕ) (xs : List A) → take (m + n) xs ≡ take m xs ++ take n (drop m xs)
  take-add zero n xs = rw zero-add refl
  take-add (suc m) n [] = rw suc-add (sym (take-nil n))
  take-add (suc m) n (x ∷ xs) = rw suc-add (ap (◌∷◌ x) (take-add m n xs))

  take_whole : (n : ℕ) (xs : List A) → length xs ≤ n → take n xs ≡ xs
  take_whole zero [] h = refl
  take_whole zero (x ∷ xs) h = ground arith
  take_whole (suc n) [] h = refl
  take_whole (suc n) (x ∷ xs) h = ap (◌∷◌ x) (take_whole n xs (omega arith))

  pages-take : (size n : ℕ) (xs : List A) → pages size n xs ≡ take (n * size) xs
  pages-take size zero xs = rw zero-mul refl
  pages-take size (suc n) xs =
      let further : suc n * size ≡ n * size + size = grind arith in
      rw (further, pages-take size n xs) (sym (take-add (n * size) size xs))

module _ (key : Text → Text) (like : Text → Text → Bool)
    (order : ℕ → List DeviceRow → List DeviceRow) where
  -- The rows of an answer.
  abbrev pub rows_of : Result ℕ DevicePage → List ShownDevice
  rows_of (err code) = []
  rows_of (ok p) = p.list

  -- The rows of the first `n` pages, one request for each, whose query orders the rows by `order`.
  abbrev pub shown_rows : ListRequest → World → List DeviceRow → ℕ → List ShownDevice
  shown_rows q w rows zero = []
  shown_rows q w rows (suc n) =
      shown_rows q w rows n
      ++ rows_of (admin_list_all_devices key like (order n) true (record q { page = suc n }) w rows)

  -- All rows that match.
  abbrev pub matching_rows : ListRequest → World → List DeviceRow → List DeviceRow
  matching_rows q w rows =
      select (matches_filter key like (order 0) (requested key like (order 0) q w)) rows

  shown_rows-pages :
      (q : ListRequest) (w : World) (rows xs : List DeviceRow)
      → ((k : ℕ) → order k (matching_rows q w rows) ≡ xs)
      → (n : ℕ) → shown_rows q w rows n ≡ map (show_device w) (pages (page_size q.page_size) n xs)
  unfolding admin_list_all_devices list_all_devices list_filter matches_filter online_clause
  shown_rows-pages q w rows xs same_order zero = refl
  shown_rows-pages q w rows xs same_order (suc n) =
      let size = page_size q.page_size in
      let is_limit : page_limit key like (order n) size ≡ size =
        unfold page_limit page_size in ground arith in
      let is_page : page_number (suc n) - 1 ≡ n = unfold page_number in ground arith in
      let asked = record q { page = suc n } in
      let here : order n
            (select (matches_filter key like (order n) (requested key like (order n) asked w)) rows)
          ≡ xs =
        same_order n in
      rw (is_limit, is_page, here, shown_rows-pages q w rows xs same_order n)
        (sym (map-append (show_device w) (pages size n xs) _))

  -- If MySQL answers, and the query of each page orders the rows that match strictly by
  -- `last_seen_at`, as it does where no two of them have the same time: for pages that hold at
  -- least all these rows, the pages one after the other, from the first on, are one list of exactly
  -- the rows that match, the newest first and none of them twice, each with the mark whether the hub
  -- holds a connection of that user and device.
  pub admin_list_all_devices_covers :
      (q : ListRequest) (w : World) (rows : List DeviceRow) (n : ℕ)
      → ((k : ℕ) → IsOrdering (matching_rows q w rows) (order k (matching_rows q w rows)))
      → length (matching_rows q w rows) ≤ n * page_size q.page_size
      → (listed : List DeviceRow) × IsOrdering (matching_rows q w rows) listed
        × (shown_rows q w rows n ≡ map (show_device w) listed)
        × ((r : DeviceRow)
            → (show_device w r).is_online
              ≡ any (is_device_of r.device.user_id r.device.device_id) w)
  unfolding show_device
  admin_list_all_devices_covers q w rows n ordered enough =
      let found = matching_rows q w rows in
      let listed = order 0 found in
      (
        listed,
        ordered 0,
        shown_rows-pages q w rows listed
              (λ k. same_ordering found (order k found) listed (ordered k) (ordered 0)) n
            ∙ ap (map (show_device w)) (
                pages-take (page_size q.page_size) n listed
                ∙ take_whole (n * page_size q.page_size) listed
                    (omega (arith, (ordered 0).same_length))),
        λ r. any-all_online_device_ids r.device.user_id r.device.device_id w,
      )
