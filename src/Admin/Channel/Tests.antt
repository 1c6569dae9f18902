-- ===== src/Admin/Channel/Tests.antt =====
-- store_redis.go: a ban that is published, with the texts of a command written behind their
-- lengths.
use clip_sync_server.Admin.Tests.{phone_id, server, works}
use clip_sync_server.Base.{
  ◌++◌, List, Option, Text, [], arith, codes, drop, false, length, none, refl, some, take, true, ℕ,
  ◌∷◌, ◌≡◌, drop-append, take-append, same, ◌||◌,
}
use clip_sync_server.Admin.{
  AdminCommand, action_kick_device, action_kick_user, admin_kick, parse_admin_command, run_command,
  is_device_action, same,
}
use clip_sync_server.Auth.Memory.{config, exact, memory, plain_crypto}
use clip_sync_server.Text.{is_digit, is_space, trim_left, trim_right, trim_space}
use clip_sync_server.Text.Decimal.{parse_digits, parse_int, parse_positive}
use clip_sync_server.Admin.Channel.Delivery.{publish_command-admin_kick}
use clip_sync_server.Admin.Channel.{
  publish_command, publish_device_status, publish_kick_device, publish_kick_user, status_command,
  subscribe_admin_commands,
}

abbrev encode : AdminCommand → Text
encode cmd =
    cmd.user_id
    ∷ length cmd.action
    ∷ (cmd.action ++ (length cmd.device_id ∷ (cmd.device_id ++ cmd.reason)))

abbrev with_device : ℕ → Text → Text → Option AdminCommand
with_device u action [] = none
with_device u action (n ∷ t) =
    some (record { action = action; user_id = u; device_id = take n t; reason = drop n t })

abbrev decode : Text → Option AdminCommand
decode [] = none
decode (u ∷ []) = none
decode (u ∷ n ∷ t) = with_device u (take n t) (drop n t)

decode-encode : (cmd : AdminCommand) → decode (encode cmd) ≡ some cmd
decode-encode cmd =
    let rest = length cmd.device_id ∷ (cmd.device_id ++ cmd.reason) in
    rw
      (
        take-append cmd.action rest,
        drop-append cmd.action rest,
        take-append cmd.device_id cmd.reason,
        drop-append cmd.device_id cmd.reason,
      )
      refl

abbrev kick : AdminCommand
kick = record {
  action = action_kick_device;
  user_id = 7;
  device_id = phone_id;
  reason = codes "lost";
}

abbrev appended : AdminCommand → List AdminCommand → List AdminCommand
appended cmd cmds = cmds ++ cmd ∷ []

-- What the subscriber does not understand it passes over.
noise_test :
    subscribe_admin_commands decode appended
      (codes "x" ∷ (publish_kick_user encode true true 7 [] []).0)
      []
    ≡ record { action = action_kick_user; user_id = 7; device_id = []; reason = [] } ∷ []
unfolding subscribe_admin_commands publish_kick_user publish_command parse_admin_command
    parse_positive parse_int parse_digits trim_space trim_left trim_right is_space is_digit
noise_test = refl

lost_test : (publish_kick_device encode false true 7 phone_id [] []).1 ≡ false
unfolding publish_kick_device publish_command
lost_test = refl

-- A command that is published while the subscriber is not connected is lost, and the publisher is
-- told that all went well.
unheard_test :
    publish_kick_device encode true false 7 phone_id [] (codes "x" ∷ []) ≡ (codes "x" ∷ [], true)
unfolding publish_kick_device publish_command
unheard_test = refl

is_known : (is_device_action action_kick_device || same action_kick_device action_kick_user) ≡ true
unfolding same
is_known = refl

abbrev kick_lost : AdminCommand
kick_lost = record kick { reason = codes "lost" }

publish_command-admin_kick_example :
    subscribe_admin_commands decode
      (run_command memory exact plain_crypto config exact works 9)
      (publish_command encode true true kick_lost []).0
      server
    ≡ (admin_kick memory exact plain_crypto config exact works 9 (some kick_lost) server).0
publish_command-admin_kick_example =
    publish_command-admin_kick memory exact plain_crypto config exact encode decode decode-encode
      works 9 kick_lost server (omega arith) refl is_known

ban_test :
    (publish_device_status encode true true 7 phone_id true [] []).0
    ≡ encode (status_command 7 phone_id true []) ∷ []
unfolding publish_device_status publish_command
ban_test = refl
