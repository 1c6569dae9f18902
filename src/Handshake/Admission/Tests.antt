-- ===== src/Handshake/Admission/Tests.antt =====
-- main.go: the handshake of a phone of one user, who is logged in.
use clip_sync_server.Auth.Store.{AuthError, delete_session, find_user_by_token_hash}
use clip_sync_server.Auth.Service.{AuthState, authenticate_token, logout}
use clip_sync_server.Hub.Conn.{Client}
use clip_sync_server.Handshake.Admission.{
  Entrance, Refusal, WsOutcomes, WsRequest, admit, new_client, normalize_role, queue_size,
  token_invalid, device_row,
}
use clip_sync_server.Handshake.Admission.Grounds.{IsAdmitted, admit-IsAdmitted}
use clip_sync_server.Admin.{
  Outcomes, act_on_device, admin_kick, kick_one, set_device_status, AdminCommand, Server,
  action_disable_device,
}
use clip_sync_server.Base.{
  Result, Text, [], ap, codes, err, false, none, ok, refl, same, some, true, ◌≡◌, ℕ, ◌∷◌,
}
use clip_sync_server.Handshake.{add_item, add_items, parse_caps, platform_from_device_id, put_cap}
use clip_sync_server.Handshake.Admission.After.{logged_out_refused}
use clip_sync_server.Auth.Cache.{cache_token, drop_plain_token, drop_token, lookup_token}
use clip_sync_server.Auth.Memory.{config, exact, memory, plain_crypto}
use clip_sync_server.Device.{
  confirm, find_row, get_device_name, is_device_disabled, update_device_status, upsert_device,
  upsert_rows,
}
use clip_sync_server.Text.{
  cut, has_prefix, is_space, split_on, to_lower, trim_left, trim_right, trim_space,
}
use clip_sync_server.Device.Gate.{ensure_device_allowed}
use clip_sync_server.Hub.Members.{kick_device, send_kick}

abbrev phone_id : Text
phone_id = codes "android-1"

abbrev token : Text
token = codes "t1"

abbrev ask : WsRequest
ask = record {
  token = token;
  device = phone_id;
  role = codes "phone";
  platform = [];
  caps = codes "sms_in";
  name = codes " Phone ";
  ip = codes "10.0.0.1";
}

abbrev works : WsOutcomes
works = record { upserted = true; queried = true; named = true; upgraded = true }

abbrev ops : Outcomes
ops = record { updated = true; checked = true; queried = true; deleted = true }

abbrev signed_in : AuthState memory exact plain_crypto config
signed_in = record {
  db = record { users = []; sessions = []; fails = λ stmt. false };
  cache = (cache_token memory token 7 60 ((λ k. none), λ u. [])).0;
  published = [];
}

abbrev entrance : Entrance memory exact plain_crypto config exact 0
entrance = record { auth = signed_in; rows = [] }

abbrev let_in : Entrance memory exact plain_crypto config exact 0 × Result Refusal Client
let_in = admit memory exact plain_crypto config exact 0 works 9 1 ask entrance

abbrev phone : Client
phone = new_client 9 1 32 7 (codes "Phone") ask

handshakes : Unit {0}
unfolding admit authenticate_token lookup_token cache_token same ensure_device_allowed upsert_device
    upsert_rows is_device_disabled find_row get_device_name trim_space trim_left trim_right is_space
    normalize_role queue_size platform_from_device_id to_lower has_prefix parse_caps add_items
    add_item split_on cut put_cap logout delete_session drop_token drop_plain_token
    find_user_by_token_hash admin_kick act_on_device set_device_status update_device_status confirm
    kick_one kick_device send_kick
handshakes = tt

let_in_test : let_in.1 ≡ ok phone
unfolding handshakes
let_in_test = refl

result_of :
    (p : Entrance memory exact plain_crypto config exact 0 × Result Refusal Client) (c : Client)
    → p.1 ≡ ok c
    → p ≡ (p.0, ok c)
result_of (a, r) c h = ap (λ x. (a, x)) h

admit-IsAdmitted_example :
    IsAdmitted memory exact plain_crypto config exact 0 works 9 ask entrance phone
admit-IsAdmitted_example =
    admit-IsAdmitted memory exact plain_crypto config exact 0 works 9 1 ask entrance let_in.0 phone
      (result_of let_in phone let_in_test)

abbrev signed_out : AuthState memory exact plain_crypto config × Result AuthError (Unit {0})
signed_out = logout memory exact plain_crypto config 10 token signed_in

signs_out : signed_out ≡ (signed_out.0, ok tt)
unfolding handshakes
signs_out = refl

token_cached : lookup_token memory token signed_in.cache ≡ ok (some 7)
unfolding handshakes
token_cached = refl

logged_out_refused_example :
    admit memory exact plain_crypto config exact 0 works 20 2 ask
      (record { auth = signed_out.0; rows = [] })
    ≡ (record { auth = signed_out.0; rows = [] }, err token_invalid)
logged_out_refused_example =
    logged_out_refused memory exact plain_crypto config exact 0 works 10 20 2 7 ask signed_in
      signed_out.0 [] refl refl token_cached tt refl signs_out

-- User 7 has lost the phone, and user 8 signs in on it.
abbrev lost : Server memory exact plain_crypto config exact
lost = record { auth = signed_in; devices = record { rows = device_row 5 7 ask ∷ []; world = [] } }

abbrev ban : AdminCommand
ban = record {
  action = action_disable_device;
  user_id = 7;
  device_id = phone_id;
  reason = codes "lost";
}

abbrev banned : Server memory exact plain_crypto config exact × ℕ
banned = admin_kick memory exact plain_crypto config exact ops 9 (some ban) lost

abbrev of_other : AuthState memory exact plain_crypto config
of_other = record signed_in { cache = (cache_token memory token 8 60 ((λ k. none), λ u. [])).0 }

abbrev other_in : Entrance memory exact plain_crypto config exact 0 × Result Refusal Client
other_in =
    admit memory exact plain_crypto config exact 0 works 20 2 ask
      (record { auth = of_other; rows = banned.0.devices.rows })
