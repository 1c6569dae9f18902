-- ===== src/Admin/Web.antt =====
-- admin_http.go and device_name_http.go: the handlers that name, ban and list devices and create
-- users, with the checks in front of them. A body comes decoded, `none` if it is no JSON; a handler
-- answers with a status code.
pub mod Agreement
pub mod Naming
mod Tests
use clip_sync_server.Base.{
  ◌==◌, Bool, List, Option, Result, Text, any, drop, if◌then◌else◌, err, is_empty, length, ltb, map,
  none, not, ok, same, select, some, ◌||◌, ℕ,
}
use clip_sync_server.Auth.Service.{AuthConfig, AuthState, Crypto, authenticate_token}
use clip_sync_server.Auth.Store.{AuthError, MysqlStore, User, user_exists}
use clip_sync_server.Device.{db_failed, Device, StoreError, update_device_name}
use clip_sync_server.Http.{HttpRequest, bearer, bearer_token}
use clip_sync_server.Admin.{
  Outcomes, Server, answer_ban, answer_change, set_device_status, status_of, with_world,
}
use clip_sync_server.Auth.Redis.{Redis}
use clip_sync_server.Hub.Conn.{World, in_group}
use clip_sync_server.Text.{has_prefix, trim_space}
use clip_sync_server.Auth.Cache.{online_devices_of}
use clip_sync_server.Text.Decimal.{parse_positive}
use clip_sync_server.Auth.Accounts.{register_account}
use clip_sync_server.Hub.Members.{rename_device}

-- `int64PathParam`.
unfoldable pub int64_path_param : Text → Option ℕ
int64_path_param id = parse_positive id

abbrev trim_bearer : Text → Text
trim_bearer header = if has_prefix bearer header then drop (length bearer) header else header

-- `requireAdminToken` for the token that is configured and the header `Authorization`; the number
-- is the status code of a refusal.
unfoldable pub require_admin_token : Text → Text → Result ℕ (Unit {0})
require_admin_token configured header =
    if is_empty configured
    then err 503
    else if not (same (trim_space (trim_bearer header)) configured)
    then err 401
    else ok tt

-- `ListDevices`, in the order that MySQL gives (`newest_first`).
unfoldable pub list_devices :
    (List Device → List Device) → Bool → ℕ → List Device → Result StoreError (List Device)
list_devices newest_first done u rows =
    if done then ok (newest_first (select (λ d. d.user_id == u) rows)) else err db_failed

-- `onlineDeviceIDs`.
abbrev pub online_device_ids : ℕ → World → List Text
online_device_ids u w = map (λ c. c.device_id) (select (in_group u) w)

module _ (R : Redis) (key : Text → Text) (crypto : Crypto) (cfg : AuthConfig)
    (ids : Text → Text) where
  abbrev St : Type 0
  St = Server R key crypto cfg ids

  -- `requireUserToken`.
  abbrev pub user_of :
      St → AuthState R key crypto cfg × Result AuthError (ℕ × Text) → St × Result ℕ ℕ
  user_of s (auth, err e) = (record s { auth = auth }, err 401)
  user_of s (auth, ok (u, username)) = (record s { auth = auth }, ok u)

  unfoldable pub require_user_token : ℕ → HttpRequest → St → St × Result ℕ ℕ
  require_user_token now r s =
      let token = bearer_token r in
      if is_empty token
      then (s, err 401)
      else user_of s (authenticate_token R key crypto cfg now token s.auth)

  abbrev pub in_hub : St → Option World → Option (St × ℕ)
  in_hub s none = none
  in_hub s (some w) = some (with_world R key crypto cfg ids s w, 200)

  -- What follows `UpdateDeviceName` in both handlers; `none` is a panic.
  abbrev pub renamed : ℕ → ℕ → Text → Text → St → Result StoreError (List Device) → Option (St × ℕ)
  renamed now u device name s (err e) = some (s, status_of R key crypto cfg ids e)
  renamed now u device name s (ok rows) =
      let s' : St = record s { devices = record s.devices { rows = rows } } in
      in_hub s' (rename_device now u device name s.devices.world)

  unfoldable pub rename : Outcomes → ℕ → ℕ → Text → Text → St → Option (St × ℕ)
  rename o now u device name s =
      renamed now u device name s
        (update_device_name ids o.updated o.checked u device name s.devices.rows)

  -- `handleRenameDevice` of the user `u`; the body holds the device and the name.
  unfoldable pub handle_rename_device :
      Outcomes → ℕ → ℕ → Option (Text × Text) → St → Option (St × ℕ)
  handle_rename_device o now u none s = some (s, 400)
  handle_rename_device o now u (some (device, name)) s =
      let device' = trim_space device in
      let name' = trim_space name in
      if is_empty device'
      then some (s, 400)
      else if ltb 32 (length name')
      then some (s, 400)
      else rename o now u device' name' s

  abbrev rename_of : Outcomes → ℕ → Text → Option Text → St → Option ℕ → Option (St × ℕ)
  rename_of o now device body s none = some (s, 400)
  rename_of o now device none s (some u) = some (s, 400)
  rename_of o now device (some name) s (some u) =
      if is_empty device || is_empty (trim_space name)
      then some (s, 400)
      else rename o now u device name s

  -- `adminRenameDevice`, with the two parts of the path. The name is stored as it is.
  unfoldable pub admin_rename_device :
      Outcomes → ℕ → Text → Text → Option Text → St → Option (St × ℕ)
  admin_rename_device o now id device body s = rename_of o now device body s (int64_path_param id)

  abbrev status_change : Outcomes → ℕ → Text → Option Bool → St → Option ℕ → St × ℕ
  status_change o now device body s none = (s, 400)
  status_change o now device none s (some u) = (s, 400)
  status_change o now device (some disabled) s (some u) =
      let set = set_device_status R key crypto cfg ids o u device disabled s in
      if is_empty device
      then (s, 400)
      else if disabled
      then answer_ban R key crypto cfg ids now u device set
      else answer_change R key crypto cfg ids set

  -- `adminSetDeviceStatus`; the body is `disabled`.
  unfoldable pub admin_set_device_status : Outcomes → ℕ → Text → Text → Option Bool → St → St × ℕ
  admin_set_device_status o now id device body s =
      status_change o now device body s (int64_path_param id)

  abbrev created : St → Result AuthError (User × MysqlStore) → St × ℕ
  created s (err user_exists) = (s, 409)
  created s (err _) = (s, 400)
  created s (ok (user, db)) = (record s { auth = record s.auth { db = db } }, 200)

  -- `adminCreateUser`, with the row ID that MySQL would give; the body holds the user name, the
  -- nickname and the password.
  unfoldable pub admin_create_user : (now row : ℕ) → Option (Text × Text × Text) → St → St × ℕ
  admin_create_user now row none s = (s, 400)
  admin_create_user now row (some (username, nickname, password)) s =
      created s (register_account key crypto cfg now row username nickname password s.auth.db)

  -- A device of the answer is online if the hub has a connection of it, or Redis a field.
  abbrev pub with_online :
      List Text → Result AuthError (List (Text × Text)) → Device → Device × Bool
  with_online members (err e) d = (d, any (same d.device_id) members)
  with_online members (ok fields) d =
      (d, any (same d.device_id) members || any (λ f. same d.device_id f.0) fields)

  abbrev listed : ℕ → St → Result StoreError (List Device) → Result ℕ (List (Device × Bool))
  listed u s (err e) = err 500
  listed u s (ok rows) = ok (
      map (with_online (online_device_ids u s.devices.world) (online_devices_of R u s.auth.cache))
        rows)

  abbrev list_of :
      (List Device → List Device) → Bool → St → Option ℕ → Result ℕ (List (Device × Bool))
  list_of newest_first done s none = err 400
  list_of newest_first done s (some u) =
      listed u s (list_devices newest_first done u s.devices.rows)

  unfoldable pub admin_list_devices :
      (List Device → List Device) → Bool → Text → St → Result ℕ (List (Device × Bool))
  admin_list_devices newest_first done id s = list_of newest_first done s (int64_path_param id)
