-- ===== src/Device/Listing/Inverted.antt =====
-- store_device.go, admin_http.go: the filter on the online state while nobody is online.
use clip_sync_server.Base.{
  ◌≡◌, All, Bool, List, Text, [], arith, false, refl, select, some, true, ℕ, ◌∷◌, ◌*◌, ◌-◌, Option,
  drop, none, same, suc, take-nil, zero,
}
use clip_sync_server.Device.Listing.{
  DeviceFilter, DeviceRow, all_online_pairs, flag_param, list_all_devices, list_filter,
  matches_filter, online_clause, page_limit, page_number, page_size, pairs_for, to_lower,
}
use clip_sync_server.Hub.Conn.{World}
use clip_sync_server.Text.{to_lower}

nobody_listed : (w : World) → All (λ c. c.member ≡ false) w → all_online_pairs w ≡ []
unfolding all_online_pairs
nobody_listed [] h = refl
nobody_listed (c ∷ w) (h, hs) = ground (arith, nobody_listed w hs)

no_pairs : (flag : Option Bool) (w : World) → all_online_pairs w ≡ [] → pairs_for flag w ≡ []
no_pairs none w h = refl
no_pairs (some flag) w h = h

-- The filter without pairs.
abbrev unpaired : (page size user : ℕ) → (keyword disabled : Text) → Option Bool → DeviceFilter
unpaired page size user keyword disabled flag = record {
  keyword = keyword;
  user_id = user;
  disabled = flag_param disabled;
  online = flag;
  online_pairs = [];
  offset = (page_number page - 1) * page_size size;
  limit = page_size size;
}

list_filter-unpaired :
    (page size user : ℕ) (keyword disabled online : Text) (w : World) (flag : Option Bool)
    → all_online_pairs w ≡ []
    → flag_param online ≡ flag
    → list_filter page size user keyword disabled online w
      ≡ unpaired page size user keyword disabled flag
unfolding list_filter
list_filter-unpaired page size user keyword disabled online w flag h e =
    rw (e, no_pairs flag w h) refl

no_flag : flag_param [] ≡ none
unfolding flag_param to_lower same
no_flag = refl

drop-nil : (n : ℕ) → drop {A = DeviceRow} n [] ≡ []
drop-nil zero = refl
drop-nil (suc n) = refl

module _ (key : Text → Text) (like : Text → Text → Bool)
    (newest_first : List DeviceRow → List DeviceRow) where
  select_on :
      (page size user : ℕ) (keyword disabled : Text) (rows : List DeviceRow)
      → select
          (matches_filter key like newest_first
            (unpaired page size user keyword disabled (some true)))
          rows
        ≡ select
            (matches_filter key like newest_first (unpaired page size user keyword disabled none))
            rows
  unfolding matches_filter online_clause
  select_on page size user keyword disabled rows = refl

  select_off :
      (page size user : ℕ) (keyword disabled : Text) (rows : List DeviceRow)
      → select
          (matches_filter key like newest_first
            (unpaired page size user keyword disabled (some false)))
          rows
        ≡ []
  unfolding matches_filter online_clause
  select_off page size user keyword disabled [] = refl
  select_off page size user keyword disabled (r ∷ rows) =
      ground (arith, select_off page size user keyword disabled rows)

  -- The list for a request with these parameters.
  abbrev pub page_for :
      (page size user : ℕ)
      → (keyword disabled online : Text) → World
      → List DeviceRow
      → List DeviceRow × ℕ
  page_for page size user keyword disabled online w rows =
      list_all_devices key like newest_first (list_filter page size user keyword disabled online w)
        rows

  -- While the hub holds no connection, so that every device is offline, the filter answers the
  -- wrong way round, whatever the other parameters are: a request for the devices that are online
  -- gets the page and the total that it gets without this filter, and one for those that are
  -- offline finds none, if ordering no rows gives none.
  pub online_filter_inverted :
      (page size user : ℕ) (keyword disabled online offline : Text) (w : World)
      (rows : List DeviceRow)
      → All (λ c. c.member ≡ false) w
      → flag_param online ≡ some true
      → flag_param offline ≡ some false
      → newest_first [] ≡ []
      → (page_for page size user keyword disabled online w rows
          ≡ page_for page size user keyword disabled [] w rows)
        × (page_for page size user keyword disabled offline w rows ≡ ([], 0))
  unfolding list_all_devices
  online_filter_inverted page size user keyword disabled online offline w rows offline_all is_on
        is_off none_ordered =
      let nobody = nobody_listed w offline_all in
      let made = list_filter-unpaired page size user keyword disabled in
      (
        rw
            (
              made online w (some true) nobody is_on,
              made [] w none nobody no_flag,
              select_on page size user keyword disabled rows,
            )
            refl,
        rw
            (
              made offline w (some false) nobody is_off,
              select_off page size user keyword disabled rows,
              none_ordered,
              drop-nil ((page_number page - 1) * page_size size),
              take-nil {A = DeviceRow} (page_limit key like newest_first (page_size size)),
            )
            refl,
      )
