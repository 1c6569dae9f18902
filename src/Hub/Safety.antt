-- ===== src/Hub/Safety.antt =====
-- No interleaving of the hub's steps panics or leaves its invariant.
use clip_sync_server.Hub.Conn.{World, Client, try_send, pong, has_room, is_active, raw}
use clip_sync_server.Hub.Route.{answer_ping, pong_one}
use clip_sync_server.Hub.Reach.{
  act, Act, Allowed, drain_one, IsOpen, Succeeds, enters, announces, greets, leaves, expires,
  renames, routes, pushes, kicks_device, kicks_user, pings, writes,
}
use clip_sync_server.Base.{
  sym, ◌∙◌, [], ℕ, subst, ◌≡◌, some_eq, All, arith, some, ◌==◌, if◌then◌else◌, map, All-mono, ◌&&◌,
  ap, refl,
}
use clip_sync_server.Hub.Invariant.{Keeps, IsValid, IsSound, IsValid-map}
use clip_sync_server.Hub.Loop.{Visit, for_each-map}
use clip_sync_server.Hub.Steps.{
  feed, enter-IsValid, feed-IsValid, unregister-IsValid, expire-IsValid, rename-IsValid,
  kick-IsValid,
}
use clip_sync_server.Hub.Members.{enter, unregister, expire, is_target, kick_device, kick_user}
use clip_sync_server.Hub.Broadcast.{announced, broadcast_presence-map}
use clip_sync_server.Hub.Presence.{group, presence_for, world_of}
use clip_sync_server.Hub.Delivery.{route-map, is_addressee, push-map, is_push_target}
use clip_sync_server.Hub.Greet.{send_presence_to-IsValid}

pong_visit : ℕ → ℕ → Client → Visit
pong_visit now id c = record {
  client = feed (λ d. d.id == id) (λ _. pong now) c;
  dispatched = if c.id == id && has_room c then 1 else 0;
  online = 0;
}

pong_one-visit :
    (now id : ℕ) (c : Client) → IsOpen id c → pong_one now id c ≡ some (pong_visit now id c)
unfolding pong_one pong_visit try_send
pong_one-visit now id c o = ground (arith, o)

answer_ping-map :
    (now id : ℕ) (w : World)
    → All (IsOpen id) w
    → answer_ping now id w ≡ some (map (feed (λ d. d.id == id) (λ _. pong now)) w)
unfolding answer_ping pong_visit
answer_ping-map now id w o = rw (
    for_each-map (pong_one now id) (pong_visit now id) w
      (All-mono (IsOpen id) _ w (pong_one-visit now id) o))

drain_one-IsKept : (id : ℕ) → Keeps (drain_one id)
drain_one-IsKept id c = ground arith

drain_one-IsSound : (id : ℕ) (c : Client) → IsSound c → IsSound (drain_one id c)
drain_one-IsSound id c s = ground arith

-- In a valid world every step that the program's order of calls allows succeeds: no send meets a
-- closed channel, and afterwards the world is valid again.
pub act-Succeeds : (a : Act) (w : World) → IsValid w → Allowed a w → Succeeds (act a w)
unfolding act
act-Succeeds (enters c) w v (f, n) = (enter c w, refl, enter-IsValid c w f n v)
act-Succeeds (announces now u) w v _ = (
  map (announced now u (group u w)) w,
  broadcast_presence-map now u w v,
  feed-IsValid (is_active u) (λ c. presence_for now (group u w) c.id) w v,
)
act-Succeeds (greets now id) w v o = send_presence_to-IsValid now id w v o
act-Succeeds (leaves id) w v _ = (unregister id w, refl, unregister-IsValid id w v)
act-Succeeds (expires id) w v _ = (expire id w, refl, expire-IsValid id w v)
act-Succeeds (renames u device name) w v _ = (_, refl, rename-IsValid u device name w v)
act-Succeeds (routes sender t bytes) w v _ = (
  _,
  ap world_of (route-map sender t bytes w v),
  feed-IsValid (is_addressee sender t) (λ _. raw bytes) w v,
)
act-Succeeds (pushes u t bytes) w v _ = (
  _,
  ap world_of (push-map u t bytes w v),
  feed-IsValid (is_push_target u t) (λ _. raw bytes) w v,
)
act-Succeeds (pings now id) w v o =
    (_, answer_ping-map now id w o, feed-IsValid (λ d. d.id == id) (λ _. pong now) w v)
act-Succeeds (kicks_user now u reason) w v _ = (
  (kick_user now u reason w).0,
  refl,
  unfold kick_user in kick-IsValid (is_active u) now reason w v,
)
act-Succeeds (kicks_device now u device reason) w v _ = (
  (kick_device now u device reason w).0,
  refl,
  unfold kick_device in kick-IsValid (is_target u device) now reason w v,
)
act-Succeeds (writes id) w v _ =
    (_, refl, IsValid-map (drain_one id) (drain_one-IsKept id) (drain_one-IsSound id) w v)

-- The worlds that the server can be in.
pub data Reach : World → Type 0 where
  starts : Reach []
  steps : {w : World} (a : Act) (w' : World) → Reach w → Allowed a w → act a w ≡ some w' → Reach w'

-- In every reachable state of the hub the channel of an active member is open, a replaced
-- connection has left its set, a member in its grace has a pending timer, connections are different
-- pointers, and no two members of one user have the same device ID.
pub Reach-IsValid : {w : World} → Reach w → IsValid w
Reach-IsValid starts = record { sound = tt; apart = tt }
Reach-IsValid (steps {w} a w' r h e) =
    let (w'', e', v) = act-Succeeds a w (Reach-IsValid r) h in
    subst IsValid (some_eq w'' w' (sym e' ∙ e)) v

-- From every reachable world, every step that the program's order of calls allows succeeds, and
-- leads to a reachable world: the server never panics on a closed channel.
pub Reach-act :
    {w : World} (a : Act) → Reach w → Allowed a w → (w' : World) × (act a w ≡ some w') × Reach w'
Reach-act {w} a r h =
    let (w', e, v) = act-Succeeds a w (Reach-IsValid r) h in (w', e, steps a w' r h e)
