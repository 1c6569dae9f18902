-- ===== src/Hub/Conn.antt =====
-- main.go: `Client`, the frames put on its `send` channel, and a non-blocking send on it.
use clip_sync_server.Base.{
  ℕ, ◌≡◌, Bool, false, ◌&&◌, Option, none, some, List, [], ◌∷◌, ◌++◌, ltb, if◌then◌else◌, length,
  Text, codes, ◌==◌, not,
}

-- The roles by which messages are routed.
abbrev pub role_pc : Text
role_pc = codes "pc"

abbrev pub role_mobile : Text
role_mobile = codes "mobile"

-- One entry of a presence list.
pub record OnlineDevice : Type 0 where
  pub device_id : Text
  pub role : Text
  pub platform : Text
  pub name : Text
  pub ip : Text
  pub online_at : ℕ
  pub self : Bool
  pub caps : List (Text × Bool)

-- What is handed to `json.Marshal` (or the bytes that `route` forwards): `raw` is a client's
-- message, the others are written by the server.
pub data Frame : Type 0 where
  presence : (ts : ℕ) → List OnlineDevice → Frame
  pong : (ts : ℕ) → Frame
  server_kick : (ts : ℕ) → (reason : Text) → Frame
  raw : List ℕ → Frame

-- A connection. `id` is the identity of the Go pointer. `member` says that
-- `hub.clients[user_id]` holds the pointer. `timer` says that `graceTimer` is pending.
-- `written` are the frames written past the queue, by `sendKick`.
pub record Client : Type 0 where
  pub id : ℕ
  pub token : Text
  pub device_id : Text
  pub role : Text
  pub ip : Text
  pub send : List Frame
  pub capacity : ℕ
  pub send_closed : Bool
  pub user_id : ℕ
  pub online_at : ℕ
  pub platform : Text
  pub name : Text
  pub caps : List (Text × Bool)
  pub replaced : Bool
  pub grace : Bool
  pub timer : Bool
  pub conn_open : Bool
  pub written : List Frame
  pub member : Bool

-- All connections ever made.
abbrev pub World : Type 0
World = List Client

-- `c` is in `hub.clients[u]`.
abbrev pub in_group : ℕ → Client → Bool
in_group u c = c.member && c.user_id == u

-- In the group and not in its offline grace.
abbrev pub is_active : ℕ → Client → Bool
is_active u c = in_group u c && not c.grace

abbrev pub has_room : Client → Bool
has_room c = ltb (length c.send) c.capacity

abbrev pub enqueue : Frame → Client → Client
enqueue m c = if has_room c then record c { send = c.send ++ m ∷ [] } else c

-- `select { case c.send <- m: default: }`. The flag says whether the frame was queued; `none` is
-- the panic of a send on a closed channel.
unfoldable pub try_send : Frame → Client → Option (Client × Bool)
try_send m c = if c.send_closed then none else some (enqueue m c, has_room c)

-- On an open channel the send does not panic.
pub try_send_open :
    (m : Frame) (c : Client) → c.send_closed ≡ false → try_send m c ≡ some (enqueue m c, has_room c)
unfolding try_send
try_send_open m c h = rw h
