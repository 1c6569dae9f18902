-- ===== src/Device/Pages/Tests.antt =====
-- admin_http.go: two devices on pages of one row.
use clip_sync_server.Device.Tests.{tablet, laptop, exact, as_stored, like_none}
use clip_sync_server.Hub.Conn.{Client}
use clip_sync_server.Base.{
  ◌*◌, List, [], any, arith, codes, false, length, map, ok, refl, same, true, ◌∷◌, ◌≡◌, ◌≤◌, subst,
  sym, ℕ,
}
use clip_sync_server.Device.Listing.{
  DeviceRow, flag_param, list_all_devices, list_filter, matches_filter, online_clause, page_limit,
  page_number, page_size,
}
use clip_sync_server.Device.Pages.{
  ListRequest, admin_list_all_devices, all_online_device_ids, show_device,
}
use clip_sync_server.Device.Pages.Cover.{
  admin_list_all_devices_covers, is_device_of, matching_rows, shown_rows,
}
use clip_sync_server.Text.Format.{format_digits, format_int}
use clip_sync_server.Text.{lower_rune, to_lower, trim_left, trim_right, trim_space}
use clip_sync_server.Device.Pages.Order.{IsOrdering}
use clip_sync_server.Device.{Device}

-- Seen before the tablet.
abbrev earlier : Device
earlier = record laptop { last_seen_at = 1 }

abbrev table : List DeviceRow
table =
    record { device = tablet; username = codes "ann" }
    ∷ record { device = earlier; username = codes "ann" }
    ∷ []

abbrev connected : Client
connected = record {
  id = 1;
  token = [];
  device_id = codes "pc-1";
  role = codes "pc";
  ip = [];
  send = [];
  capacity = 2;
  send_closed = false;
  user_id = 7;
  online_at = 5;
  platform = [];
  name = [];
  caps = [];
  replaced = false;
  grace = false;
  timer = false;
  conn_open = true;
  written = [];
  member = true;
}

abbrev ask : ListRequest
ask = record {
  page = 0;
  page_size = 1;
  user_id = 0;
  keyword = [];
  disabled = [];
  online = codes "x";
}

format_test : format_int 120 ≡ codes "120"
unfolding format_int format_digits
format_test = refl

listing : Unit {0}
unfolding admin_list_all_devices list_all_devices list_filter matches_filter page_limit page_number
    page_size flag_param show_device all_online_device_ids online_clause same format_int
    format_digits trim_space trim_left trim_right to_lower lower_rune
listing = tt

second_page_test :
    admin_list_all_devices exact like_none as_stored true
      (record ask { page = 2 })
      (connected ∷ [])
      table
    ≡ ok (record {
      list =
          record { row = record { device = earlier; username = codes "ann" }; is_online = true }
          ∷ [];
      total = 2;
      page = 2;
    })
unfolding listing
second_page_test = refl

abbrev as_given : ℕ → List DeviceRow → List DeviceRow
as_given k rows = rows

abbrev all_match : List DeviceRow
all_match = matching_rows exact like_none as_given ask (connected ∷ []) table

match_test : all_match ≡ table
unfolding listing
match_test = refl

enough : length all_match ≤ 2 * page_size 1
unfolding listing
enough = omega arith

table-IsOrdering : IsOrdering table table
table-IsOrdering = record {
  newest = ((omega arith, tt), (tt, tt));
  same_length = refl;
  kept = λ r i. i;
  only = λ r i. i;
}

ordered : (k : ℕ) → IsOrdering all_match (as_given k all_match)
ordered k = subst (λ xs. IsOrdering xs xs) (sym match_test) table-IsOrdering

admin_list_all_devices_covers_example :
    (listed : List DeviceRow) × IsOrdering all_match listed
    × (shown_rows exact like_none as_given ask (connected ∷ []) table 2
        ≡ map (show_device (connected ∷ [])) listed)
    × ((r : DeviceRow)
        → (show_device (connected ∷ []) r).is_online
          ≡ any (is_device_of r.device.user_id r.device.device_id) (connected ∷ []))
admin_list_all_devices_covers_example =
    admin_list_all_devices_covers exact like_none as_given ask (connected ∷ []) table 2 ordered
      enough
