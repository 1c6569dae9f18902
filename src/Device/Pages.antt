-- ===== src/Device/Pages.antt =====
-- admin_http.go: `adminListAllDevices`, with the keys of the devices that are online (main.go).
mod Order
mod Cover
mod Tests
use clip_sync_server.Base.{
  ◌++◌, Bool, List, Result, Text, [], any, if◌then◌else◌, err, map, ok, same, ℕ, ◌∷◌,
}
use clip_sync_server.Device.Listing.{
  DeviceFilter, DeviceRow, list_all_devices, list_filter, page_number,
}
use clip_sync_server.Hub.Conn.{World}
use clip_sync_server.Text.Format.{format_int}

-- The key "user:device" of a device.
abbrev pub online_key : ℕ → Text → Text
online_key u device = format_int u ++ b':' ∷ device

-- `allOnlineDeviceIDs`: grace placeholders are among them.
unfoldable pub all_online_device_ids : World → List Text
all_online_device_ids [] = []
all_online_device_ids (c ∷ w) =
    let rest = all_online_device_ids w in
    if c.member then online_key c.user_id c.device_id ∷ rest else rest

-- The parameters of the request; a number that cannot be read or is negative is zero.
pub record ListRequest : Type 0 where
  pub page : ℕ
  pub page_size : ℕ
  pub user_id : ℕ
  pub keyword : Text
  pub disabled : Text
  pub online : Text

pub record ShownDevice : Type 0 where
  pub row : DeviceRow
  pub is_online : Bool

pub record DevicePage : Type 0 where
  pub list : List ShownDevice
  pub total : ℕ
  pub page : ℕ

unfoldable pub show_device : World → DeviceRow → ShownDevice
show_device w r = record {
  row = r;
  is_online = any (same (online_key r.device.user_id r.device.device_id)) (all_online_device_ids w);
}

module _ (key : Text → Text) (like : Text → Text → Bool)
    (newest_first : List DeviceRow → List DeviceRow) where
  abbrev pub requested : ListRequest → World → DeviceFilter
  requested q w = list_filter q.page q.page_size q.user_id q.keyword q.disabled q.online w

  abbrev page_of : ListRequest → World → List DeviceRow × ℕ → DevicePage
  page_of q w (found, total) = record {
    list = map (show_device w) found;
    total = total;
    page = page_number q.page;
  }

  -- `works` says whether MySQL answers; an error is a 500.
  unfoldable pub admin_list_all_devices :
      Bool → ListRequest → World → List DeviceRow → Result ℕ DevicePage
  admin_list_all_devices works q w rows =
      if works
      then ok (page_of q w (list_all_devices key like newest_first (requested q w) rows))
      else err 500
