-- ===== src/Handshake/Admission.antt =====
-- main.go: `wsHandler` from the parameters of the handshake to the connection that it makes.
-- Whether
-- MySQL carries out each statement on the devices, and whether the upgrade succeeds, are arguments.
pub mod Grounds
pub mod After
mod Tests
use clip_sync_server.Base.{
  ◌&&◌, ◌<◌, Bool, List, Result, Text, [], arith, codes, if◌then◌else◌, err, false, is_empty, ltb,
  not, ok, same, same_refl, true, ◌||◌, ℕ, ◌≡◌,
}
use clip_sync_server.Auth.Service.{AuthConfig, AuthState, Crypto, authenticate_token}
use clip_sync_server.Auth.Store.{AuthError}
use clip_sync_server.Hub.Conn.{Client, role_mobile, role_pc}
use clip_sync_server.Device.{Device, StoreError, get_device_name}
use clip_sync_server.Hub.Steps.{IsFresh}
use clip_sync_server.Auth.Redis.{Redis}
use clip_sync_server.Device.Gate.{ensure_device_allowed, is_banned}
use clip_sync_server.Handshake.{parse_caps, platform_from_device_id}
use clip_sync_server.Text.{trim_space}

-- The query of the request, and the address that it comes from.
pub record WsRequest : Type 0 where
  pub token : Text
  pub device : Text
  pub role : Text
  pub platform : Text
  pub caps : Text
  pub name : Text
  pub ip : Text

-- 400, 401, 403, and an upgrade that fails.
pub data Refusal : Type 0 where
  missing_parameter token_invalid device_disabled upgrade_failed : Refusal

-- Which statements on the devices succeed, and the upgrade.
pub record WsOutcomes : Type 0 where
  pub upserted : Bool
  pub queried : Bool
  pub named : Bool
  pub upgraded : Bool

abbrev pub role_phone : Text
role_phone = codes "phone"

-- The `switch` on the role.
unfoldable pub normalize_role : Text → Text
normalize_role role =
    if same role role_pc
    then role_pc
    else if same role role_mobile || same role role_phone
    then role_mobile
    else role_pc

abbrev pub platform_of : WsRequest → Text
platform_of q = if is_empty q.platform then platform_from_device_id q.device else q.platform

-- The capacity of `send` for `websocket.send_queue_size`.
unfoldable pub queue_size : ℕ → ℕ
queue_size configured = if ltb 0 configured then configured else 32

-- The name in the table, `[]` if the query fails, goes before the one that the client reports.
abbrev pub name_or : Text → Result StoreError Text → Text
name_or reported (err e) = reported
name_or reported (ok stored) = if is_empty (trim_space stored) then reported else stored

abbrev pub device_row : ℕ → ℕ → WsRequest → Device
device_row now u q = record {
  user_id = u;
  device_id = q.device;
  role = normalize_role q.role;
  platform = platform_of q;
  name = trim_space q.name;
  last_ip = q.ip;
  disabled = false;
  last_seen_at = now;
  created_at = now;
}

-- The `Client` of the request; `id` is the pointer.
abbrev pub new_client : ℕ → ℕ → ℕ → ℕ → Text → WsRequest → Client
new_client now id capacity u name q = record {
  id = id;
  token = q.token;
  device_id = q.device;
  role = normalize_role q.role;
  ip = q.ip;
  send = [];
  capacity = capacity;
  send_closed = false;
  user_id = u;
  online_at = now;
  platform = platform_of q;
  name = name;
  caps = parse_caps q.caps;
  replaced = false;
  grace = false;
  timer = false;
  conn_open = true;
  written = [];
  member = false;
}

module _ (R : Redis) (key : Text → Text) (crypto : Crypto) (cfg : AuthConfig) (ids : Text → Text)
    (queue : ℕ) where
  pub record Entrance : Type 0 where
    pub auth : AuthState R key crypto cfg
    pub rows : List Device

  abbrev pub upgrade :
      WsOutcomes → ℕ → ℕ → WsRequest → ℕ → Entrance → Entrance × Result Refusal Client
  upgrade o now id q u s =
      let name = name_or (trim_space q.name) (get_device_name ids o.named u q.device s.rows) in
      (
        s,
        if o.upgraded
            then ok (new_client now id (queue_size queue) u name q)
            else err upgrade_failed,
      )

  abbrev pub check_device :
      WsOutcomes → ℕ → ℕ → WsRequest → ℕ → Entrance → Entrance × Result Refusal Client
  check_device o now id q u s =
      let (rows, allowed) =
        ensure_device_allowed ids o.upserted o.queried now (device_row now u q) s.rows in
      let s' = record s { rows = rows } in
      if not allowed then (s', err device_disabled) else upgrade o now id q u s'

  abbrev pub check_token :
      WsOutcomes
      → ℕ
      → ℕ
      → WsRequest
      → List Device
      → AuthState R key crypto cfg × Result AuthError (ℕ × Text)
      → Entrance × Result Refusal Client
  check_token o now id q rows (auth, err e) =
      (record { auth = auth; rows = rows }, err token_invalid)
  check_token o now id q rows (auth, ok (u, username)) =
      check_device o now id q u (record { auth = auth; rows = rows })

  -- `wsHandler` up to the connection, at the time `now`.
  unfoldable pub admit :
      WsOutcomes → ℕ → ℕ → WsRequest → Entrance → Entrance × Result Refusal Client
  admit o now id q s =
      if is_empty q.token || is_empty q.device
      then (s, err missing_parameter)
      else check_token o now id q s.rows (authenticate_token R key crypto cfg now q.token s.auth)
