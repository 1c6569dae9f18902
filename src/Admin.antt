-- ===== src/Admin.antt =====
-- store_redis.go, main.go, admin_http.go: the commands of the administrator, which come over Redis
-- (`parseAdminCommand`, the subscriber in `main`) or over HTTP (`adminKick`).
pub mod Kick
pub mod Changed
pub mod Unknown
pub mod Channel
pub mod Web
mod Tests
use clip_sync_server.Base.{
  ◌&&◌, Bool, List, Option, Result, Text, [], codes, if◌then◌else◌, err, false, is_empty, ltb, none,
  not, ok, same, some, true, ◌||◌, ℕ,
}
use clip_sync_server.Auth.Service.{AuthConfig, AuthState, Crypto, reason_password_reset}
use clip_sync_server.Device.Remove.{
  DeleteError, DeviceState, delete_device_safely, device_not_disabled, reason_device_banned,
  store_failed,
}
use clip_sync_server.Device.{db_failed, Device, StoreError, device_not_found, update_device_status}
use clip_sync_server.Auth.Redis.{Redis}
use clip_sync_server.Hub.Conn.{World}
use clip_sync_server.Auth.Change.{invalidate_sessions}
use clip_sync_server.Hub.Members.{kick_device, kick_user}
use clip_sync_server.Text.Decimal.{parse_positive}
use clip_sync_server.Text.{trim_space}

pub record AdminCommand : Type 0 where
  pub action : Text
  pub user_id : ℕ
  pub device_id : Text
  pub reason : Text

abbrev pub action_kick_user : Text
action_kick_user = codes "kick_user"

abbrev pub action_kick_device : Text
action_kick_device = codes "kick_device"

abbrev pub action_disable_device : Text
action_disable_device = codes "disable_device"

abbrev pub action_enable_device : Text
action_enable_device = codes "enable_device"

abbrev pub action_delete_device : Text
action_delete_device = codes "delete_device"

abbrev pub reason_device_kicked : Text
reason_device_kicked = codes "device_kicked"

abbrev pub is_device_action : Text → Bool
is_device_action a =
    same a action_disable_device
    || same a action_enable_device
    || same a action_delete_device
    || same a action_kick_device

abbrev old_format : Option ℕ → Option AdminCommand
old_format none = none
old_format (some u) = some (record {
  action = action_kick_user;
  user_id = u;
  device_id = [];
  reason = reason_password_reset;
})

abbrev pub is_complete : AdminCommand → Bool
is_complete cmd = ltb 0 cmd.user_id && not (is_empty cmd.action)

abbrev json_or_number : Text → Option AdminCommand → Option AdminCommand
json_or_number payload none = old_format (parse_positive (trim_space payload))
json_or_number payload (some cmd) =
    if is_complete cmd then some cmd else old_format (parse_positive (trim_space payload))

-- `decode` is json.Unmarshal into an `AdminCommand`; a user ID below zero is zero.
unfoldable pub parse_admin_command : (Text → Option AdminCommand) → Text → Option AdminCommand
parse_admin_command decode payload = json_or_number payload (decode payload)

-- Which statements MySQL carries out: the UPDATE of a ban and the query behind it, the query for a
-- ban, and the DELETE.
pub record Outcomes : Type 0 where
  pub updated : Bool
  pub checked : Bool
  pub queried : Bool
  pub deleted : Bool

module _ (R : Redis) (key : Text → Text) (crypto : Crypto) (cfg : AuthConfig)
    (ids : Text → Text) where
  -- What a command may change.
  pub record Server : Type 0 where
    pub auth : AuthState R key crypto cfg
    pub devices : DeviceState

  abbrev pub changed_rows :
      Server → Result StoreError (List Device) → Server × Result StoreError (Unit {0})
  changed_rows s (err e) = (s, err e)
  changed_rows s (ok rows) = (record s { devices = record s.devices { rows = rows } }, ok tt)

  -- `SetDeviceStatus`.
  unfoldable pub set_device_status :
      Outcomes → ℕ → Text → Bool → Server → Server × Result StoreError (Unit {0})
  set_device_status o u device disabled s =
      changed_rows s (update_device_status ids o.updated o.checked u device disabled s.devices.rows)

  abbrev pub with_world : Server → World → Server
  with_world s w = record s { devices = record s.devices { world = w } }

  unfoldable pub kick_one : ℕ → ℕ → Text → Text → Server → Server
  kick_one now u device reason s = with_world s (kick_device now u device reason s.devices.world).0

  -- `invalidateUserSessions` and `kickUser`.
  unfoldable pub kick_account : ℕ → ℕ → Text → Server → Server
  kick_account now u reason s =
      with_world (record s { auth = invalidate_sessions R key crypto cfg u s.auth })
        (kick_user now u reason s.devices.world).0

  abbrev banned : ℕ → ℕ → Text → Server × Result StoreError (Unit {0}) → Server
  banned now u device (s, err e) = s
  banned now u device (s, ok done) = kick_one now u device reason_device_banned s

  abbrev pub remove : Outcomes → ℕ → ℕ → Text → Server → Server × Result DeleteError (Unit {0})
  remove o now u device s =
      let (devices, r) = delete_device_safely ids o.queried o.deleted now u device s.devices in
      (record s { devices = devices }, r)

  abbrev or_reason : Text → Text → Text
  or_reason reason other = if is_empty reason then other else reason

  -- The subscriber's handling of a command. An unknown action does nothing.
  unfoldable pub run_command : Outcomes → ℕ → AdminCommand → Server → Server
  run_command o now cmd s =
      let u = cmd.user_id in
      let device = cmd.device_id in
      if same cmd.action action_kick_user
      then kick_account now u (or_reason cmd.reason reason_password_reset) s
      else if is_empty device
      then s
      else if same cmd.action action_kick_device
      then kick_one now u device (or_reason cmd.reason reason_device_kicked) s
      else if same cmd.action action_disable_device
      then banned now u device (set_device_status o u device true s)
      else if same cmd.action action_enable_device
      then (set_device_status o u device false s).0
      else if same cmd.action action_delete_device
      then (remove o now u device s).0
      else s

  -- The status codes of `adminKick`.
  abbrev pub status_of : StoreError → ℕ
  status_of device_not_found = 404
  status_of db_failed = 500

  abbrev pub answer_ban : ℕ → ℕ → Text → Server × Result StoreError (Unit {0}) → Server × ℕ
  answer_ban now u device (s, err e) = (s, status_of e)
  answer_ban now u device (s, ok done) = (kick_one now u device reason_device_banned s, 200)

  abbrev pub answer_change : Server × Result StoreError (Unit {0}) → Server × ℕ
  answer_change (s, err e) = (s, status_of e)
  answer_change (s, ok done) = (s, 200)

  abbrev answer_delete : Server × Result DeleteError (Unit {0}) → Server × ℕ
  answer_delete (s, err device_not_disabled) = (s, 409)
  answer_delete (s, err (store_failed e)) = (s, 500)
  answer_delete (s, ok done) = (s, 200)

  unfoldable pub act_on_device : Outcomes → ℕ → AdminCommand → Text → Server → Server × ℕ
  act_on_device o now cmd reason s =
      let u = cmd.user_id in
      let device = cmd.device_id in
      if is_empty device
      then (s, 400)
      else if same cmd.action action_disable_device
      then answer_ban now u device (set_device_status o u device true s)
      else if same cmd.action action_enable_device
      then answer_change (set_device_status o u device false s)
      else if same cmd.action action_delete_device
      then answer_delete (remove o now u device s)
      else (kick_one now u device reason s, 200)

  -- `adminKick`, with the body decoded (`none` if it is no JSON). Every action that is not one on a
  -- device kicks the whole account.
  unfoldable pub admin_kick : Outcomes → ℕ → Option AdminCommand → Server → Server × ℕ
  admin_kick o now none s = (s, 400)
  admin_kick o now (some cmd) s =
      let reason = or_reason cmd.reason reason_device_kicked in
      if not (ltb 0 cmd.user_id)
      then (s, 400)
      else if is_device_action cmd.action
      then act_on_device o now cmd reason s
      else (kick_account now cmd.user_id reason s, 200)
