-- ===== src/Hub/Reach.antt =====
-- The hub as a state machine: every interleaving of the steps that its goroutines make.
use clip_sync_server.Hub.Conn.{Client, World}
use clip_sync_server.Base.{
  Option, ℕ, some, Text, ◌==◌, if◌then◌else◌, ◌≡◌, true, drop, List, All, false, map,
}
use clip_sync_server.Hub.Steps.{IsFresh, IsNew}
use clip_sync_server.Hub.Members.{enter, unregister, expire, rename_one, kick_user, kick_device}
use clip_sync_server.Hub.Invariant.{IsValid}
use clip_sync_server.Hub.Presence.{broadcast_presence, send_presence_to, world_of}
use clip_sync_server.Hub.Route.{route, push, answer_ping}

-- One step under the lock, or one that reads and sends on the goroutine of the connection.
-- `greet` and `ping` are made by a connection's own goroutine, after `register` and before
-- `unregister`, so their connection is still open (`Allowed`).
pub data Act : Type 0 where
  enters : Client → Act
  announces : (now user : ℕ) → Act
  greets : (now id : ℕ) → Act
  leaves : (id : ℕ) → Act
  expires : (id : ℕ) → Act
  renames : (user : ℕ) → (device name : Text) → Act
  routes : Client → (msg_type : Text) → (bytes : List ℕ) → Act
  pushes : (user : ℕ) → (msg_type : Text) → (bytes : List ℕ) → Act
  pings : (now id : ℕ) → Act
  kicks_user : (now user : ℕ) → (reason : Text) → Act
  kicks_device : (now user : ℕ) → (device reason : Text) → Act
  writes : (id : ℕ) → Act

-- One frame leaves the queue of the connection `id` (`writePump`).
abbrev pub drain_one : ℕ → Client → Client
drain_one id c = if c.id == id then record c { send = drop 1 c.send } else c

-- `none` is a panic.
unfoldable pub act : Act → World → Option World
act (enters c) w = some (enter c w)
act (announces now u) w = broadcast_presence now u w
act (greets now id) w = send_presence_to now id w
act (leaves id) w = some (unregister id w)
act (expires id) w = some (expire id w)
act (renames u device name) w = some (map (rename_one u device name) w)
act (routes sender msg_type bytes) w = world_of (route sender msg_type bytes w)
act (pushes u msg_type bytes) w = world_of (push u msg_type bytes w)
act (pings now id) w = answer_ping now id w
act (kicks_user now u reason) w = some (kick_user now u reason w).0
act (kicks_device now u device reason) w = some (kick_device now u device reason w).0
act (writes id) w = some (map (drain_one id) w)

-- The connection `id` has not been unregistered.
abbrev pub IsOpen : ℕ → Client → Type 0
IsOpen id c = (c.id == id) ≡ true → c.send_closed ≡ false

-- What the program's own order of calls gives.
abbrev pub Allowed : Act → World → Type 0
Allowed (enters c) w = IsFresh c × IsNew c w
Allowed (greets now id) w = All (IsOpen id) w
Allowed (pings now id) w = All (IsOpen id) w
Allowed _ w = Unit {0}

-- The step does not panic, and its result is valid.
abbrev pub Succeeds : Option World → Type 0
Succeeds r = (w : World) × (r ≡ some w) × IsValid w
