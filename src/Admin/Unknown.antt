-- ===== src/Admin/Unknown.antt =====
-- admin_http.go, main.go: a command with an action that nobody knows.
use clip_sync_server.Base.{
  ◌≡◌, ◌<◌, ◌==◌, All, List, Text, [], arith, false, same, some, true, ℕ, ◌∷◌, All-of, All-select,
  not, refl,
}
use clip_sync_server.Admin.{
  AdminCommand, Outcomes, Server, action_delete_device, action_disable_device, action_enable_device,
  action_kick_device, action_kick_user, admin_kick, kick_account, run_command, reason_device_kicked,
  or_reason,
}
use clip_sync_server.Auth.Service.{AuthConfig, AuthState, Crypto}
use clip_sync_server.Hub.Conn.{Client, World}
use clip_sync_server.Auth.Redis.{Redis}
use clip_sync_server.Auth.Store.{delete_session, delete_session_stmt}
use clip_sync_server.Auth.Change.{invalidate_sessions}
use clip_sync_server.Hub.Members.{kick_user, send_kick}

abbrev pub known_actions : List Text
known_actions =
    action_kick_user ∷ action_kick_device ∷ action_disable_device ∷ action_enable_device
    ∷ action_delete_device ∷ []

-- A connection of the user that the hub holds, outside its grace.
abbrev pub IsOfAccount : ℕ → Client → Type 0
IsOfAccount u c = (c.member ≡ true) × (c.grace ≡ false) × (c.user_id ≡ u)

account_closed :
    (now u : ℕ) (reason : Text) (w : World)
    → All (λ c. IsOfAccount u c → c.conn_open ≡ false) (kick_user now u reason w).0
unfolding kick_user send_kick
account_closed now u reason [] = tt
account_closed now u reason (c ∷ w) =
    (λ (member, ready, owner). ground (arith, member, ready, owner), account_closed now u reason w)

module _ (R : Redis) (key : Text → Text) (crypto : Crypto) (cfg : AuthConfig)
    (ids : Text → Text) where
  sessions_ended :
      (u : ℕ) (st : AuthState R key crypto cfg)
      → st.db.fails delete_session_stmt ≡ false
      → All (λ r. (r.user_id == u) ≡ false) (invalidate_sessions R key crypto cfg u st).db.sessions
  unfolding invalidate_sessions delete_session
  sessions_ended u st f = rw f (
      All-select (λ r. not (r.user_id == u)) (λ r. (r.user_id == u) ≡ false) st.db.sessions
        (All-of _ st.db.sessions (λ r h. ground (arith, h))))

  -- A command for a user whose action is none of the five: over Redis it changes nothing; over HTTP
  -- it is answered with 200, every connection of the user that the hub holds, of whatever device, is
  -- closed, but for the placeholders in their grace, and no session of the user is left, if MySQL
  -- deletes them, while the table of devices stays as it was.
  pub unknown_action :
      (o : Outcomes) (now : ℕ) (cmd : AdminCommand) (s : Server R key crypto cfg ids)
      → 0 < cmd.user_id
      → All (λ a. same cmd.action a ≡ false) known_actions
      → s.auth.db.fails delete_session_stmt ≡ false
      → let (s', status) = admin_kick R key crypto cfg ids o now (some cmd) s in
        (run_command R key crypto cfg ids o now cmd s ≡ s)
        × (status ≡ 200)
        × All (λ c. IsOfAccount cmd.user_id c → c.conn_open ≡ false) s'.devices.world
        × All (λ r. (r.user_id == cmd.user_id) ≡ false) s'.auth.db.sessions
        × (s'.devices.rows ≡ s.devices.rows)
  unfolding run_command kick_account admin_kick
  unknown_action o now cmd s p (a, (b, (c, (d, (e, done))))) f =
      let reason = or_reason R key crypto cfg ids cmd.reason reason_device_kicked in
      let answer : admin_kick R key crypto cfg ids o now (some cmd) s
          ≡ (kick_account R key crypto cfg ids now cmd.user_id reason s, 200) =
        ground arith in
      rw answer (
        ground arith,
        refl,
        account_closed now cmd.user_id reason s.devices.world,
        sessions_ended cmd.user_id s.auth f,
        refl,
      )
