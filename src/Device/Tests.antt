-- ===== src/Device/Tests.antt =====
-- store_device.go: tests, and the theorems at a table of one user's two devices.
use clip_sync_server.Base.{
  Bool, List, Text, [], codes, false, none, refl, same, some, true, ◌∷◌, ◌≡◌,
}
use clip_sync_server.Device.{Device, find_row, is_device_disabled, upsert_device, upsert_rows}
use clip_sync_server.Device.Listing.{DeviceFilter, DeviceRow, flag_param}
use clip_sync_server.Device.Remove.{DeviceState}
use clip_sync_server.Device.Gate.{ensure_device_allowed}
use clip_sync_server.Text.{lower_rune, to_lower}
use clip_sync_server.Device.Listing.Inverted.{online_filter_inverted, page_for}

abbrev pub exact : Text → Text
exact t = t

abbrev pub tablet : Device
tablet = record {
  user_id = 7;
  device_id = codes "tab-1";
  role = codes "mobile";
  platform = codes "android";
  name = codes "Tablet";
  last_ip = codes "10.0.0.1";
  disabled = true;
  last_seen_at = 3;
  created_at = 1;
}

abbrev pub laptop : Device
laptop = record tablet { device_id = codes "pc-1"; disabled = false }

abbrev rows : List Device
rows = tablet ∷ laptop ∷ []

abbrev state : DeviceState
state = record { rows = rows; world = [] }

abbrev listed : DeviceRow
listed = record { device = laptop; username = codes "ann" }

abbrev pub like_none : Text → Text → Bool
like_none s kw = false

abbrev pub as_stored : List DeviceRow → List DeviceRow
as_stored rs = rs

abbrev any_device : DeviceFilter
any_device = record {
  keyword = [];
  user_id = 0;
  disabled = none;
  online = none;
  online_pairs = [];
  offset = 0;
  limit = 900;
}

-- The banned tablet is refused, and a handshake does not clear its ban.
gate_test : (ensure_device_allowed exact true true 9 tablet rows).1 ≡ false
unfolding ensure_device_allowed upsert_device upsert_rows is_device_disabled find_row same
gate_test = refl

flags : (flag_param (codes "True") ≡ some true) × (flag_param (codes "false") ≡ some false)
unfolding flag_param to_lower lower_rune same
flags = (refl, refl)

online_filter_inverted_example :
    (page_for exact like_none as_stored 1 20 7 [] []
        (codes "True")
        []
        (record { device = laptop; username = [] } ∷ [])
      ≡ page_for exact like_none as_stored 1 20 7 [] [] [] []
          (record { device = laptop; username = [] } ∷ []))
    × (page_for exact like_none as_stored 1 20 7 [] []
          (codes "false")
          []
          (record { device = laptop; username = [] } ∷ [])
        ≡ ([], 0))
online_filter_inverted_example =
    online_filter_inverted exact like_none as_stored 1 20 7 [] [] (codes "True") (codes "false") []
      (record { device = laptop; username = [] } ∷ []) tt flags.0 flags.1 refl
