-- ===== src/Admin/Channel.antt =====
-- store_redis.go, main.go: the channel of the administration over Redis, with what publishes a
-- command and the subscriber. Redis delivers a message at most once, to who listens at that moment:
-- the channel is the list of the messages that reach the subscriber, the oldest first, `sent` says
-- whether Redis takes a message, and `heard` whether the subscriber is connected then; while it
-- waits to connect again, it is not, and the message is lost, which the publisher does not learn.
-- `encode` and `decode` are encoding/json on an `AdminCommand`.
pub mod Delivery
mod Tests
use clip_sync_server.Base.{
  ◌*◌, ◌++◌, Bool, List, Option, Text, [], if◌then◌else◌, false, ltb, none, some, suc, true, zero,
  ℕ, ◌∷◌, ◌&&◌,
}
use clip_sync_server.Admin.{
  AdminCommand, action_disable_device, action_enable_device, action_kick_device, action_kick_user,
  parse_admin_command,
}

abbrev pub status_command : ℕ → Text → Bool → Text → AdminCommand
status_command u device disabled reason = record {
  action = if disabled then action_disable_device else action_enable_device;
  user_id = u;
  device_id = device;
  reason = reason;
}

module _ (encode : AdminCommand → Text) where
  unfoldable pub publish_command : Bool → Bool → AdminCommand → List Text → List Text × Bool
  publish_command sent heard cmd channel =
      (if sent && heard then channel ++ encode cmd ∷ [] else channel, sent)

  unfoldable pub publish_kick_user : Bool → Bool → ℕ → Text → List Text → List Text × Bool
  publish_kick_user sent heard u reason channel =
      publish_command sent heard
        (record { action = action_kick_user; user_id = u; device_id = []; reason = reason }) channel

  unfoldable pub publish_kick_device : Bool → Bool → ℕ → Text → Text → List Text → List Text × Bool
  publish_kick_device sent heard u device reason channel =
      publish_command sent heard
        (record { action = action_kick_device; user_id = u; device_id = device; reason = reason })
        channel

  unfoldable pub publish_device_status :
      Bool → Bool → ℕ → Text → Bool → Text → List Text → List Text × Bool
  publish_device_status sent heard u device disabled reason channel =
      publish_command sent heard (status_command u device disabled reason) channel

abbrev handled {ℓ} : {S : Type ℓ} → (AdminCommand → S → S) → Option AdminCommand → S → S
handled on_command none s = s
handled on_command (some cmd) s = on_command cmd s

-- `SubscribeAdminCommands` on the messages that come before the channel closes.
unfoldable pub subscribe_admin_commands {ℓ} :
    {S : Type ℓ} → (Text → Option AdminCommand) → (AdminCommand → S → S) → List Text → S → S
subscribe_admin_commands decode on_command [] s = s
subscribe_admin_commands decode on_command (msg ∷ channel) s =
    subscribe_admin_commands decode on_command channel
      (handled on_command (parse_admin_command decode msg) s)

-- The wait before the subscription is tried again, in seconds, after so many failures.
unfoldable pub backoff : ℕ → ℕ
backoff zero = 1
backoff (suc n) = let wait = backoff n in if ltb wait 30 then wait * 2 else wait
