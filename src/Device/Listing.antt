-- ===== src/Device/Listing.antt =====
-- store_device.go: `ListAllDevices`, and the filter that `adminListAllDevices` builds for it
-- (admin_http.go).
pub mod Inverted
use clip_sync_server.Base.{
  ◌&&◌, ◌*◌, ◌-◌, ◌==◌, Bool, List, Option, Text, [], any, arith, both_or_neither, codes, count_if,
  drop, if◌then◌else◌, false, is_empty, leb, length, ltb, none, not, same, select, select-count,
  some, suc, take, true, zero, ◌||◌, ℕ, ◌∷◌, ◌≡◌, ◌≤◌,
}
use clip_sync_server.Device.{Device, is_row}
use clip_sync_server.Hub.Conn.{World}
use clip_sync_server.Text.{to_lower, trim_space}

-- A row of `devices` joined with the user's name.
pub record DeviceRow : Type 0 where
  pub device : Device
  pub username : Text

-- The zero values mean no restriction. A limit or an ID that is not positive is zero here.
pub record DeviceFilter : Type 0 where
  pub keyword : Text
  pub user_id : ℕ
  pub disabled : Option Bool
  pub online : Option Bool
  pub online_pairs : List (ℕ × Text)
  pub offset : ℕ
  pub limit : ℕ

-- The clause on `disabled`.
abbrev pub disabled_clause : Option Bool → Device → Bool
disabled_clause none d = true
disabled_clause (some flag) d = both_or_neither d.disabled flag

abbrev pub user_clause : ℕ → Device → Bool
user_clause u d = if ltb 0 u then d.user_id == u else true

-- What MySQL does with texts is a parameter: `key` is the collation of the ID column, `like s kw`
-- is `s LIKE '%kw%'`, and `newest_first` is the ORDER BY on `last_seen_at` of this one query: rows
-- of
-- the same time may come in another order at the next.
module _ (key : Text → Text) (like : Text → Text → Bool)
    (newest_first : List DeviceRow → List DeviceRow) where
  abbrev pub keyword_clause : Text → DeviceRow → Bool
  keyword_clause kw r =
      if is_empty kw
      then true
      else like r.username kw
        || like r.device.device_id kw
        || like r.device.name kw
        || like r.device.last_ip kw

  -- `ROW(d.user_id, d.device_id) IN (…)`.
  abbrev pub is_listed : List (ℕ × Text) → Device → Bool
  is_listed pairs d = any (λ p. is_row key p.0 p.1 d) pairs

  -- The two branches on `f.Online`, for a filter with and without pairs.
  unfoldable pub online_clause : Option Bool → List (ℕ × Text) → Device → Bool
  online_clause none pairs d = true
  online_clause (some flag) (p ∷ pairs) d =
      if flag then is_listed (p ∷ pairs) d else not (is_listed (p ∷ pairs) d)
  online_clause (some flag) [] d = if not flag then false else true

  unfoldable pub matches_filter : DeviceFilter → DeviceRow → Bool
  matches_filter f r =
      keyword_clause (trim_space f.keyword) r
      && disabled_clause f.disabled r.device
      && user_clause f.user_id r.device
      && online_clause f.online f.online_pairs r.device

  unfoldable pub page_limit : ℕ → ℕ
  page_limit n = if leb n 0 || ltb 500 n then 20 else n

  -- The page and the total, over the rows of the join.
  unfoldable pub list_all_devices : DeviceFilter → List DeviceRow → List DeviceRow × ℕ
  list_all_devices f rows =
      let found = select (matches_filter f) rows in
      (take (page_limit f.limit) (drop f.offset (newest_first found)), length found)

  -- With connections online, the filter on the online state is exact: it keeps the devices whose
  -- pair of user and device is, or is not, among them.
  pub online_clause_iff :
      (flag : Bool) (pairs : List (ℕ × Text)) (d : Device)
      → ltb 0 (length pairs) ≡ true
      → online_clause (some flag) pairs d ≡ both_or_neither flag (is_listed pairs d)
  unfolding online_clause
  online_clause_iff flag [] d h = cc
  online_clause_iff flag (p ∷ pairs) d h = ground arith

  length-take-le : (n : ℕ) (rows : List DeviceRow) → length (take n rows) ≤ n
  length-take-le zero rows = omega arith
  length-take-le (suc n) [] = omega arith
  length-take-le (suc n) (r ∷ rows) = omega (arith, length-take-le n rows)

  -- A page holds at most 500 rows, whatever limit is asked for, and the total counts every row
  -- that matches, on whatever page it stands.
  pub list_all_devices_bounded :
      (f : DeviceFilter) (rows : List DeviceRow)
      → (length (list_all_devices f rows).0 ≤ 500)
        × ((list_all_devices f rows).1 ≡ count_if (matches_filter f) rows)
  unfolding list_all_devices page_limit
  list_all_devices_bounded f rows = (
    ground (
      arith,
      length-take-le (page_limit f.limit)
          (drop f.offset (newest_first (select (matches_filter f) rows))),
    ),
    select-count (matches_filter f) rows,
  )

-- The parameters of the request, after strconv.Atoi; a failed or negative conversion is zero.
unfoldable pub page_number : ℕ → ℕ
page_number page = if ltb page 1 then 1 else page

unfoldable pub page_size : ℕ → ℕ
page_size n = if ltb n 1 || ltb 200 n then 20 else n

-- The switches on "true" and "false"; any other text is no restriction.
unfoldable pub flag_param : Text → Option Bool
flag_param s =
    let low = to_lower s in
    if same low (codes "true")
    then some true
    else if same low (codes "false")
    then some false
    else none

-- `hub.allOnlinePairs()`: grace placeholders are among them.
unfoldable pub all_online_pairs : World → List (ℕ × Text)
all_online_pairs [] = []
all_online_pairs (c ∷ w) =
    let rest = all_online_pairs w in if c.member then (c.user_id, c.device_id) ∷ rest else rest

abbrev pub pairs_for : Option Bool → World → List (ℕ × Text)
pairs_for none w = []
pairs_for (some flag) w = all_online_pairs w

-- The filter of a request.
unfoldable pub list_filter :
    (page size user : ℕ) → (keyword disabled online : Text) → World → DeviceFilter
list_filter page size user keyword disabled online w = record {
  keyword = keyword;
  user_id = user;
  disabled = flag_param disabled;
  online = flag_param online;
  online_pairs = pairs_for (flag_param online) w;
  offset = (page_number page - 1) * page_size size;
  limit = page_size size;
}
