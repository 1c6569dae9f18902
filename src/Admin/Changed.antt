-- ===== src/Admin/Changed.antt =====
-- auth_service.go, main.go: the command that `ChangePassword` publishes before it issues the new
-- token, and the subscriber that carries it out.
use clip_sync_server.Base.{List, Text, [], map, ℕ, Result, drop, length}
use clip_sync_server.Admin.{
  AdminCommand, Outcomes, Server, action_kick_user, run_command, Result, DeviceState,
}
use clip_sync_server.Auth.Service.{AuthConfig, AuthState, Crypto}
use clip_sync_server.Auth.Redis.{Redis}
use clip_sync_server.Admin.Channel.Delivery.{run_all}
use clip_sync_server.Device.Remove.{DeviceState}

abbrev kick_command : ℕ × Text → AdminCommand
kick_command k = record { action = action_kick_user; user_id = k.0; device_id = []; reason = k.1 }

module _ (R : Redis) (key : Text → Text) (crypto : Crypto) (cfg : AuthConfig)
    (ids : Text → Text) where
  open crypto use {token_hash}

  abbrev Auth : Type 0
  Auth = AuthState R key crypto cfg

  -- The server with this state of the accounts, after the subscriber has carried out the kicks that
  -- were published.
  abbrev pub after_kicks :
      Outcomes → ℕ → List (ℕ × Text) → Server R key crypto cfg ids → Server R key crypto cfg ids
  after_kicks o now kicks s =
      run_all (run_command R key crypto cfg ids o now) (map kick_command kicks) s

  -- The kicks that are published in `st'` and not yet in `st`.
  abbrev pub new_kicks : Auth → Auth → List (ℕ × Text)
  new_kicks st st' = drop (length st.published) st'.published
