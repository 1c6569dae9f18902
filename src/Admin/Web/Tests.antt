-- ===== src/Admin/Web/Tests.antt =====
-- admin_http.go, device_name_http.go: one device of one user.
use clip_sync_server.Admin.Tests.{phone_id, server, works}
use clip_sync_server.Admin.Web.Naming.{IsNamed, handle_rename_device-IsNamed}
use clip_sync_server.Hub.Invariant.{IsValid}
use clip_sync_server.Admin.{Server}
use clip_sync_server.Base.{
  [], any, arith, codes, err, false, is_empty, length, ok, refl, same, some, true, ◌≡◌, ◌≤◌,
}
use clip_sync_server.Admin.Web.{
  admin_create_user, admin_list_devices, handle_rename_device, int64_path_param, list_devices,
  require_admin_token,
}
use clip_sync_server.Auth.Accounts.{
  all_name_runes, is_name_rune, register_account, validate_username,
}
use clip_sync_server.Auth.Memory.{config, exact, memory, plain_crypto}
use clip_sync_server.Auth.Store.{create_user}
use clip_sync_server.Device.{find_row, is_row}
use clip_sync_server.Text.{
  has_prefix, is_digit, is_lower, is_space, is_upper, trim_left, trim_right, trim_space,
}
use clip_sync_server.Auth.Cache.{online_devices_of}
use clip_sync_server.Text.Decimal.{parse_digits, parse_int, parse_positive}

web : Unit {0}
unfolding int64_path_param parse_positive parse_int parse_digits is_digit trim_space trim_left
    trim_right is_space same find_row require_admin_token has_prefix admin_create_user
    register_account validate_username all_name_runes is_name_rune is_lower is_upper create_user
    admin_list_devices list_devices online_devices_of
web = tt

is_seven : int64_path_param (codes "7") ≡ some 7
unfolding web
is_seven = refl

id_trimmed : trim_space phone_id ≡ phone_id
unfolding web
id_trimmed = refl

name_trimmed : trim_space (codes "Phone") ≡ codes "Phone"
unfolding web
name_trimmed = refl

known : any (is_row exact 7 (trim_space phone_id)) server.devices.rows ≡ true
unfolding web
known = refl

id_given : is_empty (trim_space phone_id) ≡ false
unfolding web
id_given = refl

name_short : length (trim_space (codes " Phone ")) ≤ 32
unfolding web
name_short = omega arith

sound_hub : IsValid server.devices.world
sound_hub = record {
  sound = (record { open_channel = refl; replaced_left = refl; timed = refl }, tt);
  apart = (tt, tt);
}

handle_rename_device-IsNamed_example :
    (s' : Server memory exact plain_crypto config exact) × (handle_rename_device memory exact
        plain_crypto config exact works 9 7
        (some (phone_id, codes " Phone "))
        server
      ≡ some (s', 200))
    × IsNamed memory exact plain_crypto config exact 7
        (trim_space phone_id)
        (trim_space (codes " Phone "))
        s'
handle_rename_device-IsNamed_example =
    handle_rename_device-IsNamed memory exact plain_crypto config exact works 9 7 phone_id
      (codes " Phone ") server refl refl id_given name_short known sound_hub

guard_test :
    (require_admin_token [] (codes "Bearer x") ≡ err 503)
    × (require_admin_token (codes "k") (codes "Bearer x") ≡ err 401)
    × (require_admin_token (codes "k") (codes "Bearer k") ≡ ok tt)
unfolding web
guard_test = (refl, refl, refl)
