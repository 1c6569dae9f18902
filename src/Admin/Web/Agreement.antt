-- ===== src/Admin/Web/Agreement.antt =====
-- admin_http.go, device_name_http.go: two ways over HTTP to do the same.
use clip_sync_server.Admin.{
  AdminCommand, Outcomes, Server, act_on_device, action_disable_device, action_enable_device,
  admin_kick,
}
use clip_sync_server.Auth.Service.{AuthConfig, Crypto}
use clip_sync_server.Base.{
  Bool, Text, arith, if◌then◌else◌, false, is_empty, length, same, some, true, ℕ, ◌≡◌, ◌≤◌,
}
use clip_sync_server.Auth.Redis.{Redis}
use clip_sync_server.Admin.Web.{
  admin_rename_device, admin_set_device_status, handle_rename_device, int64_path_param,
}
use clip_sync_server.Text.Decimal.{parse_positive_bounds}
use clip_sync_server.Text.{trim_space}

module _ (R : Redis) (key : Text → Text) (crypto : Crypto) (cfg : AuthConfig)
    (ids : Text → Text) where
  -- The command of `adminKick` that bans a device, or lifts the ban.
  abbrev pub switch_command : ℕ → Text → Text → Bool → AdminCommand
  switch_command u device reason disabled = record {
    action = if disabled then action_disable_device else action_enable_device;
    user_id = u;
    device_id = device;
    reason = reason;
  }

  -- Banning a device, or lifting its ban, at the address of the device does what the command of
  -- that name does: the same changes and the same status code, whatever MySQL does.
  pub admin_set_device_status-admin_kick :
      (o : Outcomes) (now u : ℕ) (id device reason : Text) (disabled : Bool)
      (s : Server R key crypto cfg ids)
      → int64_path_param id ≡ some u
      → admin_set_device_status R key crypto cfg ids o now id device (some disabled) s
        ≡ admin_kick R key crypto cfg ids o now (some (switch_command u device reason disabled)) s
  unfolding admin_set_device_status admin_kick act_on_device int64_path_param same
  admin_set_device_status-admin_kick o now u id device reason true s h =
      rw h (ground (arith, parse_positive_bounds id u h))
  admin_set_device_status-admin_kick o now u id device reason false s h =
      rw h (ground (arith, parse_positive_bounds id u h))

  -- For a name of at most 32 characters that is not empty, and a device ID and a name without space
  -- around them, the user and the administrator rename a device in the same way.
  pub handle_rename_device-admin_rename_device :
      (o : Outcomes) (now u : ℕ) (id device name : Text) (s : Server R key crypto cfg ids)
      → int64_path_param id ≡ some u
      → trim_space device ≡ device
      → trim_space name ≡ name
      → is_empty name ≡ false
      → length name ≤ 32
      → handle_rename_device R key crypto cfg ids o now u (some (device, name)) s
        ≡ admin_rename_device R key crypto cfg ids o now id device (some name) s
  unfolding handle_rename_device admin_rename_device
  handle_rename_device-admin_rename_device o now u id device name s h d n e l =
      rw (h, d, n) (ground arith)
