-- ===== src/Hub/Delivery.antt =====
-- Where a message goes: `route` and the forwarding of `pushHandler` in a valid world.
use clip_sync_server.Base.{
  ℕ, Text, List, ◌≡◌, Bool, not, some, ◌&&◌, if◌then◌else◌, map, same, arith, ◌==◌, All-mono, false,
  true, refl,
}
use clip_sync_server.Hub.Route.{
  is_refused, route_one, push, route, push_one, target_role_for_type, type_notify_pc,
  type_notify_mobile, everyone,
}
use clip_sync_server.Hub.Conn.{
  Client, try_send, Frame, is_active, World, role_pc, raw, has_room, role_mobile,
}
use clip_sync_server.Hub.Loop.{Visit, total, for_each-map}
use clip_sync_server.Hub.Invariant.{IsSound, IsValid}
use clip_sync_server.Hub.Steps.{feed}

wildcard :
    (same role_pc everyone ≡ false)
    × (same role_mobile everyone ≡ false)
    × (same everyone everyone ≡ true)
unfolding same
wildcard = (refl, refl, refl)

-- Whether a message of type `t` is meant for a role: notify_pc for computers, notify_mobile for
-- mobile devices, any other type for all.
abbrev pub suits : Text → Client → Bool
suits t c =
    if same t type_notify_pc
    then same c.role role_pc
    else if same t type_notify_mobile
    then same c.role role_mobile
    else true

is_refused-target_role :
    (t : Text) (c : Client) → is_refused (target_role_for_type t) c ≡ not (suits t c)
unfolding is_refused target_role_for_type
is_refused-target_role t c = ground (arith, wildcard)

-- The connections to which `route` sends: active in the sender's group, not the sender, and of a
-- role that the type of the message is meant for.
abbrev pub is_addressee : Client → Text → Client → Bool
is_addressee sender t c = is_active sender.user_id c && (not (c.id == sender.id) && suits t c)

abbrev route_visit : Client → Text → Frame → Client → Visit
route_visit sender t m c = record {
  client = feed (is_addressee sender t) (λ _. m) c;
  dispatched = if is_addressee sender t c && has_room c then 1 else 0;
  online = if is_active sender.user_id c then 1 else 0;
}

route_one-visit :
    (sender : Client) (t : Text) (m : Frame) (c : Client)
    → IsSound c
    → route_one sender (target_role_for_type t) m c ≡ some (route_visit sender t m c)
unfolding route_one try_send
route_one-visit sender t m c s = ground (arith, is_refused-target_role t c)

-- In a valid world `route` does not panic. Exactly the active members of the sender's group that
-- are not the sender get the message, at the end of their queues, if there is room: of a notify_pc
-- those with the role pc, of a notify_mobile those with the role mobile, of any other type all. No
-- other connection changes. The counters are the numbers of queued frames and of active connections
-- of the group.
pub route-map :
    (sender : Client) (msg_type : Text) (bytes : List ℕ) (w : World)
    → IsValid w
    → route sender msg_type bytes w
      ≡ some (record {
        world = map (feed (is_addressee sender msg_type) (λ _. raw bytes)) w;
        dispatched = total (λ c. if is_addressee sender msg_type c && has_room c then 1 else 0) w;
        online = total (λ c. if is_active sender.user_id c then 1 else 0) w;
      })
unfolding route
route-map sender msg_type bytes w v =
    for_each-map (route_one sender (target_role_for_type msg_type) (raw bytes))
      (route_visit sender msg_type (raw bytes)) w
      (All-mono IsSound _ w (route_one-visit sender msg_type (raw bytes)) v.sound)

-- The connections to which `/push` sends.
abbrev pub is_push_target : ℕ → Text → Client → Bool
is_push_target u t c = is_active u c && suits t c

abbrev push_visit : ℕ → Text → Frame → Client → Visit
push_visit u t m c = record {
  client = feed (is_push_target u t) (λ _. m) c;
  dispatched = if is_push_target u t c && has_room c then 1 else 0;
  online = if is_active u c then 1 else 0;
}

push_one-visit :
    (u : ℕ) (t : Text) (m : Frame) (c : Client)
    → IsSound c
    → push_one u (target_role_for_type t) m c ≡ some (push_visit u t m c)
unfolding push_one try_send
push_one-visit u t m c s = ground (arith, is_refused-target_role t c)

-- In a valid world the forwarding of `/push` does not panic: exactly the active connections of the
-- user with a role that the type is meant for get the message, if there is room, and the counters
-- are the
-- numbers of queued frames and of active connections.
pub push-map :
    (u : ℕ) (msg_type : Text) (bytes : List ℕ) (w : World)
    → IsValid w
    → push u msg_type bytes w
      ≡ some (record {
        world = map (feed (is_push_target u msg_type) (λ _. raw bytes)) w;
        dispatched = total (λ c. if is_push_target u msg_type c && has_room c then 1 else 0) w;
        online = total (λ c. if is_active u c then 1 else 0) w;
      })
unfolding push
push-map u msg_type bytes w v =
    for_each-map (push_one u (target_role_for_type msg_type) (raw bytes))
      (push_visit u msg_type (raw bytes)) w
      (All-mono IsSound _ w (push_one-visit u msg_type (raw bytes)) v.sound)
