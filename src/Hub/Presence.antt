-- ===== src/Hub/Presence.antt =====
-- main.go: `broadcastPresence`, `buildPresenceMsg`, `sendPresenceTo`.
use clip_sync_server.Base.{
  ℕ, Bool, not, ◌&&◌, Option, none, some, List, [], ◌∷◌, map, ltb, ◌==◌, if◌then◌else◌,
  both_or_neither, select, any, same,
}
use clip_sync_server.Hub.Conn.{Client, World, OnlineDevice, Frame, presence, in_group, try_send}
use clip_sync_server.Hub.Loop.{Visit, Outcome, for_each}

-- The connections in `h.clients[u]`.
abbrev pub group : ℕ → World → List Client
group u w = select (in_group u) w

-- `c` takes the place of `keep` under their common device ID.
unfoldable pub supersedes : Client → Client → Bool
supersedes c keep =
    if both_or_neither c.grace keep.grace then ltb keep.online_at c.online_at else not c.grace

-- One round of the loop that fills `byDevice`; the map is the list of its values.
unfoldable pub keep_one : Client → List Client → List Client
keep_one c [] = c ∷ []
keep_one c (keep ∷ kept) =
    if same keep.device_id c.device_id
    then (if supersedes c keep then c ∷ kept else keep ∷ kept)
    else keep ∷ keep_one c kept

unfoldable pub keep_each : List Client → List Client → List Client
keep_each kept [] = kept
keep_each kept (c ∷ set) = keep_each (keep_one c kept) set

-- `byDevice`: one connection for each device ID of the set.
unfoldable pub by_device : List Client → List Client
by_device set = keep_each [] set

unfoldable pub device_of : ℕ → Client → OnlineDevice
device_of self_id other = record {
  device_id = other.device_id;
  role = other.role;
  platform = other.platform;
  name = other.name;
  ip = other.ip;
  online_at = other.online_at;
  self = other.id == self_id;
  caps = other.caps;
}

-- The frame for the connection `self_id`, over the devices listed.
unfoldable pub presence_for : ℕ → List Client → ℕ → Frame
presence_for now devices self_id = presence now (map (device_of self_id) devices)

-- `receivers` holds this connection.
unfoldable pub is_receiver : List Client → Client → Bool
is_receiver devices c = any (λ d. d.id == c.id && not d.grace) devices

abbrev pub sent : Option (Client × Bool) → Option Visit
sent none = none
sent (some (c, done)) = some (record { client = c; dispatched = if done then 1 else 0; online = 0 })

abbrev pub skip : Client → Option Visit
skip c = some (record { client = c; dispatched = 0; online = 0 })

unfoldable pub announce_to : ℕ → List Client → Client → Option Visit
announce_to now devices c =
    if is_receiver devices c then sent (try_send (presence_for now devices c.id) c) else skip c

abbrev pub world_of : Option Outcome → Option World
world_of none = none
world_of (some o) = some o.world

-- `h.broadcastPresence(u)`.
unfoldable pub broadcast_presence : ℕ → ℕ → World → Option World
broadcast_presence now u w = world_of (for_each (announce_to now (by_device (group u w))) w)

-- `h.buildPresenceMsg(u, self)`; `none` is the nil message of an empty group.
unfoldable pub build_presence_msg : ℕ → ℕ → ℕ → World → Option Frame
build_presence_msg now u self_id w = elim (group u w) [
  | [] ↦ none
  | c ∷ cs ↦ some (presence_for now (by_device (c ∷ cs)) self_id)
]

abbrev pub offer : Option Frame → Client → Option Visit
offer none c = skip c
offer (some m) c = sent (try_send m c)

-- One connection's round of `sendPresenceTo`.
unfoldable pub greet_one : ℕ → World → ℕ → Client → Option Visit
greet_one now w target c =
    if c.id == target && not c.grace
    then offer (build_presence_msg now c.user_id c.id w) c
    else skip c

-- `h.sendPresenceTo(target)`.
unfoldable pub send_presence_to : ℕ → ℕ → World → Option World
send_presence_to now target w = world_of (for_each (greet_one now w target) w)
