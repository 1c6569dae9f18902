-- ===== src/Hub/Route.antt =====
-- main.go: the message types, `targetRoleForType`, `route`, the forwarding of `pushHandler` and the
-- answer to an application-level ping.
use clip_sync_server.Base.{
  ℕ, Bool, not, ◌&&◌, Option, none, some, List, ◌==◌, if◌then◌else◌, Text, codes, same,
}
use clip_sync_server.Hub.Conn.{
  Client, World, Frame, raw, pong, role_pc, role_mobile, in_group, try_send,
}
use clip_sync_server.Hub.Loop.{Visit, Outcome, for_each}
use clip_sync_server.Hub.Presence.{sent, skip, world_of}

abbrev pub type_notify_pc : Text
type_notify_pc = codes "notify_pc"

abbrev pub type_notify_mobile : Text
type_notify_mobile = codes "notify_mobile"

abbrev pub type_notify_all : Text
type_notify_all = codes "notify_all"

abbrev pub type_clipboard : Text
type_clipboard = codes "clipboard"

abbrev pub type_presence : Text
type_presence = codes "presence"

-- The role "*": everybody.
abbrev pub everyone : Text
everyone = codes "*"

unfoldable pub target_role_for_type : Text → Text
target_role_for_type t =
    if same t type_notify_pc
    then role_pc
    else if same t type_notify_mobile
    then role_mobile
    else if same t type_notify_all
    then everyone
    else if same t type_clipboard
    then everyone
    else everyone

-- The role test of both loops, negated as in the source.
unfoldable pub is_refused : Text → Client → Bool
is_refused want c = not (same want everyone) && not (same c.role want)

abbrev counted : Option (Client × Bool) → Option Visit
counted none = none
counted (some (c, done)) =
    some (record { client = c; dispatched = if done then 1 else 0; online = 1 })

abbrev pass_over : Client → Option Visit
pass_over c = some (record { client = c; dispatched = 0; online = 1 })

-- One round of the loop of `route`.
unfoldable pub route_one : Client → Text → Frame → Client → Option Visit
route_one sender want m c =
    if in_group sender.user_id c
    then (if c.grace
        then skip c
        else if c.id == sender.id
        then pass_over c
        else if is_refused want c
        then pass_over c
        else counted (try_send m c))
    else skip c

-- `h.route(sender, msgType, bytes)`, with the counters that it logs.
unfoldable pub route : Client → Text → List ℕ → World → Option Outcome
route sender msg_type bytes w =
    for_each (route_one sender (target_role_for_type msg_type) (raw bytes)) w

-- One round of the loop of `pushHandler`.
unfoldable pub push_one : ℕ → Text → Frame → Client → Option Visit
push_one u want m c =
    if in_group u c
    then (if c.grace
        then skip c
        else if is_refused want c
        then pass_over c
        else counted (try_send m c))
    else skip c

-- The forwarding of `pushHandler`, with `dispatched` and `onlineTotal`.
unfoldable pub push : ℕ → Text → List ℕ → World → Option Outcome
push u msg_type bytes w = for_each (push_one u (target_role_for_type msg_type) (raw bytes)) w

unfoldable pub pong_one : ℕ → ℕ → Client → Option Visit
pong_one now id c = if c.id == id then sent (try_send (pong now) c) else skip c

-- The pong that `readPump` answers to `{"type":"ping"}` on its own connection.
unfoldable pub answer_ping : ℕ → ℕ → World → Option World
answer_ping now id w = world_of (for_each (pong_one now id) w)
