-- ===== src/Admin/Tests.antt =====
-- The commands of the administrator at one user with a phone that is connected.
use clip_sync_server.Admin.{
  AdminCommand, Outcomes, Server, act_on_device, action_disable_device, action_kick_device,
  action_kick_user, admin_kick, is_device_action, kick_account, kick_one, parse_admin_command,
  run_command, set_device_status,
}
use clip_sync_server.Base.{
  All, Text, [], arith, codes, false, none, refl, same, some, true, ◌||◌, ℕ, ◌∷◌, ◌≡◌, ◌==◌,
}
use clip_sync_server.Hub.Conn.{Client, role_mobile}
use clip_sync_server.Device.{Device, update_device_status, confirm}
use clip_sync_server.Admin.Kick.{ban_locks_out, IsConnected}
use clip_sync_server.Auth.Memory.{config, exact, memory, plain_crypto}
use clip_sync_server.Device.Gate.{ensure_device_allowed}
use clip_sync_server.Auth.Change.{invalidate_sessions}
use clip_sync_server.Text.{is_space, trim_left, trim_right, trim_space, is_digit}
use clip_sync_server.Hub.Members.{kick_device, send_kick}
use clip_sync_server.Text.Decimal.{parse_digits, parse_int, parse_positive}
use clip_sync_server.Auth.Service.{reason_password_reset}
use clip_sync_server.Admin.Unknown.{IsOfAccount, known_actions, unknown_action}

abbrev pub phone_id : Text
phone_id = codes "tab-1"

abbrev pub tablet : Device
tablet = record {
  user_id = 7;
  device_id = phone_id;
  role = codes "mobile";
  platform = codes "android";
  name = codes "Tablet";
  last_ip = codes "10.0.0.1";
  disabled = false;
  last_seen_at = 3;
  created_at = 1;
}

abbrev pub conn : Client
conn = record {
  id = 1;
  token = [];
  device_id = phone_id;
  role = role_mobile;
  ip = [];
  send = [];
  capacity = 2;
  send_closed = false;
  user_id = 7;
  online_at = 5;
  platform = [];
  name = [];
  caps = [];
  replaced = false;
  grace = false;
  timer = false;
  conn_open = true;
  written = [];
  member = true;
}

abbrev pub server : Server memory exact plain_crypto config exact
server = record {
  auth = record {
    db = record { users = []; sessions = []; fails = λ stmt. false };
    cache = ((λ k. none), λ u. []);
    published = [];
  };
  devices = record { rows = tablet ∷ []; world = conn ∷ [] };
}

abbrev pub works : Outcomes
works = record { updated = true; checked = true; queried = true; deleted = true }

abbrev command : Text → AdminCommand
command action = record {
  action = action;
  user_id = 7;
  device_id = phone_id;
  reason = codes "lost";
}

commands : Unit {0}
unfolding admin_kick act_on_device run_command set_device_status update_device_status confirm
    is_digit same kick_one kick_device send_kick parse_admin_command parse_positive parse_int
    parse_digits trim_space trim_left trim_right is_space kick_account invalidate_sessions
commands = tt

answered : (p : Server memory exact plain_crypto config exact × ℕ) → p.1 ≡ 200 → p ≡ (p.0, 200)
answered (a, n) h = rw h

abbrev ban : Server memory exact plain_crypto config exact × ℕ
ban =
    admin_kick memory exact plain_crypto config exact works 9 (some (command action_disable_device))
      server

ban_done : ban.1 ≡ 200
unfolding commands
ban_done = refl

ban_locks_out_example :
    All
      (λ c. IsConnected memory exact plain_crypto config exact 7 phone_id c → c.conn_open ≡ false)
      ban.0.devices.world
    × ((ensure_device_allowed exact true true 20 tablet ban.0.devices.rows).1 ≡ false)
ban_locks_out_example =
    ban_locks_out memory exact plain_crypto config exact works 9 20 (command action_disable_device)
      server ban.0 true tablet refl refl refl (answered ban ban_done)

is_known : (is_device_action action_kick_device || same action_kick_device action_kick_user) ≡ true
unfolding commands
is_known = refl

is_unknown : All (λ a. same (codes "restart") a ≡ false) known_actions
unfolding commands
is_unknown = (refl, (refl, (refl, (refl, (refl, tt)))))

unknown_action_example :
    let (s', status) =
      admin_kick memory exact plain_crypto config exact works 9
        (some (command (codes "restart")))
        server in
    (run_command memory exact plain_crypto config exact works 9 (command (codes "restart")) server
      ≡ server)
    × (status ≡ 200)
    × All (λ c. IsOfAccount 7 c → c.conn_open ≡ false) s'.devices.world
    × All (λ r. (r.user_id == 7) ≡ false) s'.auth.db.sessions
    × (s'.devices.rows ≡ server.devices.rows)
unknown_action_example =
    unknown_action memory exact plain_crypto config exact works 9 (command (codes "restart")) server
      (omega arith) is_unknown refl

-- The old format, a user ID alone, is a kick of the account.
old_format_test :
    parse_admin_command (λ t. none) (codes " 12 ")
    ≡ some (record {
      action = action_kick_user;
      user_id = 12;
      device_id = [];
      reason = reason_password_reset;
    })
unfolding commands
old_format_test = refl
