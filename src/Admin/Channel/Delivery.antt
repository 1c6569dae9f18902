-- ===== src/Admin/Channel/Delivery.antt =====
-- store_redis.go: what is published is what the subscriber does.
-- The commands one after the other.
use clip_sync_server.Base.{
  ◌++◌, ◌<◌, All, Bool, List, Option, Text, [], ap, arith, false, is_empty, refl, same, some, suc,
  true, zero, ℕ, ◌∙◌, ◌∷◌, ◌≡◌, ◌≤◌, if◌then◌else◌, ◌||◌, sym,
}
use clip_sync_server.Admin.{
  AdminCommand, Outcomes, Server, admin_kick, is_complete, parse_admin_command, run_command,
  action_disable_device, action_enable_device, action_kick_user, is_device_action,
}
use clip_sync_server.Auth.Service.{AuthConfig, Crypto}
use clip_sync_server.Auth.Redis.{Redis}
use clip_sync_server.Admin.Channel.{
  backoff, publish_command, publish_device_status, status_command, subscribe_admin_commands,
}
use clip_sync_server.Admin.Kick.{admin_kick-run_command}

abbrev pub run_all {ℓ} : {S : Type ℓ} → (AdminCommand → S → S) → List AdminCommand → S → S
run_all on_command [] s = s
run_all on_command (cmd ∷ cmds) s = run_all on_command cmds (on_command cmd s)

-- Commands that are published one after the other, each with whether Redis takes it and whether the
-- subscriber is connected.
abbrev pub publish_all :
    (AdminCommand → Text) → List (AdminCommand × Bool × Bool) → List Text → List Text
publish_all encode [] channel = channel
publish_all encode ((cmd, sent, heard) ∷ cmds) channel =
    publish_all encode cmds (publish_command encode sent heard cmd channel).0

-- Those that reach the subscriber.
abbrev pub delivered : List (AdminCommand × Bool × Bool) → List AdminCommand
delivered [] = []
delivered ((cmd, true, true) ∷ cmds) = cmd ∷ delivered cmds
delivered ((cmd, true, false) ∷ cmds) = delivered cmds
delivered ((cmd, false, heard) ∷ cmds) = delivered cmds

backoff_settled : (n : ℕ) → backoff (suc (suc (suc (suc (suc n))))) ≡ 32
unfolding backoff
backoff_settled zero = refl
backoff_settled (suc n) = rw (backoff_settled n) refl

-- Between one second and 32.
pub backoff_bounds : (n : ℕ) → (1 ≤ backoff n) × (backoff n ≤ 32)
unfolding backoff
backoff_bounds zero = omega arith
backoff_bounds (suc zero) = omega arith
backoff_bounds (suc (suc zero)) = omega arith
backoff_bounds (suc (suc (suc zero))) = omega arith
backoff_bounds (suc (suc (suc (suc zero)))) = omega arith
backoff_bounds (suc (suc (suc (suc (suc n))))) = omega (arith, backoff_settled n)

module _ {ℓ} {S : Type ℓ} (encode : AdminCommand → Text) (decode : Text → Option AdminCommand)
    (on_command : AdminCommand → S → S)
    (round_trip : (cmd : AdminCommand) → decode (encode cmd) ≡ some cmd) where
  pub parse_admin_command-encode :
      (cmd : AdminCommand)
      → is_complete cmd ≡ true
      → parse_admin_command decode (encode cmd) ≡ some cmd
  unfolding parse_admin_command
  parse_admin_command-encode cmd h = rw (round_trip cmd, h)

  subscribe-append :
      (xs ys : List Text) (s : S)
      → subscribe_admin_commands decode on_command (xs ++ ys) s
        ≡ subscribe_admin_commands decode on_command ys
            (subscribe_admin_commands decode on_command xs s)
  unfolding subscribe_admin_commands
  subscribe-append [] ys s = refl
  subscribe-append (x ∷ xs) ys s = subscribe-append xs ys _

  pub subscribe-publish_command :
      (cmd : AdminCommand) (channel : List Text) (s : S)
      → is_complete cmd ≡ true
      → subscribe_admin_commands decode on_command
          (publish_command encode true true cmd channel).0
          s
        ≡ on_command cmd (subscribe_admin_commands decode on_command channel s)
  unfolding publish_command subscribe_admin_commands
  subscribe-publish_command cmd channel s h =
      subscribe-append channel (encode cmd ∷ []) s ∙ rw (parse_admin_command-encode cmd h)

  -- If encoding/json reads back what it wrote: of the commands that are published, each with a user
  -- and an action, the subscriber carries out those that reach it, in that order, each once.
  pub subscribe-publish_all :
      (cmds : List (AdminCommand × Bool × Bool)) (channel : List Text) (s : S)
      → All (λ c. is_complete c.0 ≡ true) cmds
      → subscribe_admin_commands decode on_command (publish_all encode cmds channel) s
        ≡ run_all on_command (delivered cmds) (subscribe_admin_commands decode on_command channel s)
  unfolding publish_command
  subscribe-publish_all [] channel s h = refl
  subscribe-publish_all ((cmd, true, true) ∷ cmds) channel s (h, hs) =
      subscribe-publish_all cmds (publish_command encode true true cmd channel).0 s hs
      ∙ ap (run_all on_command (delivered cmds)) (subscribe-publish_command cmd channel s h)
  subscribe-publish_all ((cmd, true, false) ∷ cmds) channel s (h, hs) =
      subscribe-publish_all cmds channel s hs
  subscribe-publish_all ((cmd, false, heard) ∷ cmds) channel s (h, hs) =
      subscribe-publish_all cmds channel s hs

known_action :
    (a : Text) → (is_device_action a || same a action_kick_user) ≡ true → is_empty a ≡ false
unfolding same
known_action [] k = cc
known_action (c ∷ a) k = refl

known_action-is_complete :
    (cmd : AdminCommand)
    → 0 < cmd.user_id
    → (is_device_action cmd.action || same cmd.action action_kick_user) ≡ true
    → is_complete cmd ≡ true
known_action-is_complete cmd p k = let named = known_action cmd.action k in ground arith

status_command_known :
    (disabled : Bool)
    → (is_device_action (if disabled then action_disable_device else action_enable_device)
        || same (if disabled then action_disable_device else action_enable_device) action_kick_user)
      ≡ true
unfolding same
status_command_known true = refl
status_command_known false = refl

module _ (R : Redis) (key : Text → Text) (crypto : Crypto) (cfg : AuthConfig) (ids : Text → Text)
    (encode : AdminCommand → Text) (decode : Text → Option AdminCommand)
    (round_trip : (cmd : AdminCommand) → decode (encode cmd) ≡ some cmd) where
  -- If encoding/json reads back what it wrote: a command with a user, an action that both sides
  -- know and a reason, published over Redis while the subscriber is connected, and handled by it,
  -- leaves the server as the same command over HTTP does, whatever MySQL does.
  pub publish_command-admin_kick :
      (o : Outcomes) (now : ℕ) (cmd : AdminCommand) (s : Server R key crypto cfg ids)
      → 0 < cmd.user_id
      → is_empty cmd.reason ≡ false
      → (is_device_action cmd.action || same cmd.action action_kick_user) ≡ true
      → subscribe_admin_commands decode
          (run_command R key crypto cfg ids o now)
          (publish_command encode true true cmd []).0
          s
        ≡ (admin_kick R key crypto cfg ids o now (some cmd) s).0
  unfolding subscribe_admin_commands
  publish_command-admin_kick o now cmd s p r k =
      subscribe-publish_command encode decode (run_command R key crypto cfg ids o now) round_trip
        cmd [] s (known_action-is_complete cmd p k)
      ∙ sym (admin_kick-run_command R key crypto cfg ids o now cmd s p r k)

  -- A ban, or the end of one, that is published does what the same command does over HTTP.
  pub publish_device_status-admin_kick :
      (o : Outcomes) (now u : ℕ) (device : Text) (disabled : Bool) (reason : Text)
      (s : Server R key crypto cfg ids)
      → 0 < u
      → is_empty reason ≡ false
      → subscribe_admin_commands decode
          (run_command R key crypto cfg ids o now)
          (publish_device_status encode true true u device disabled reason []).0
          s
        ≡ (admin_kick R key crypto cfg ids o now
            (some (status_command u device disabled reason))
            s).0
  unfolding publish_device_status
  publish_device_status-admin_kick o now u device disabled reason s p r =
      publish_command-admin_kick o now (status_command u device disabled reason) s p r
        (status_command_known disabled)
