-- ===== src/Hub/Members.antt =====
-- main.go: `register`, `unregister`, `finalizeGrace`, `renameDevice` and the kicks.
use clip_sync_server.Base.{
  ℕ, Bool, true, false, not, ◌&&◌, Option, some, [], ◌∷◌, ◌++◌, map, ◌==◌, if◌then◌else◌, any,
  count_if, Text, same,
}
use clip_sync_server.Hub.Conn.{Client, World, server_kick, in_group, is_active}
use clip_sync_server.Hub.Presence.{broadcast_presence, send_presence_to}

-- `old` is in the group of the new connection `c`, under the same device ID.
unfoldable pub is_stale : Client → Client → Bool
is_stale c old = in_group c.user_id old && same old.device_id c.device_id

-- What `register` does to a connection of the group: a stale one is taken out of the set, marked
-- as replaced, loses its timer, and its socket is closed.
unfoldable pub retire : Client → Client → Client
retire c old =
    if is_stale c old
    then record old { member = false; replaced = true; timer = false; conn_open = false }
    else old

-- The part of `register` under the lock, with the closing of the stale sockets.
unfoldable pub enter : Client → World → World
enter c w = map (retire c) w ++ record c { member = true } ∷ []

-- `replacedGrace`.
unfoldable pub replaces_grace : Client → World → Bool
replaces_grace c w = any (λ old. is_stale c old && old.grace) w

-- `h.register(c)`; `none` is a panic.
unfoldable pub register : ℕ → Client → World → Option World
register now c w =
    if replaces_grace c w
    then send_presence_to now c.id (enter c w)
    else broadcast_presence now c.user_id (enter c w)

unfoldable pub leave_one : ℕ → Client → Client
leave_one id c =
    if c.id == id
    then (if c.replaced
        then record c { send_closed = true }
        else record c { send_closed = true; grace = true; timer = true })
    else c

-- `h.unregister(c)`, for the connection `id`.
unfoldable pub unregister : ℕ → World → World
unregister id w = map (leave_one id) w

-- The guard of `finalizeGrace`, passed.
abbrev pub lapses : ℕ → Client → Bool
lapses id c = c.id == id && (not c.replaced && c.grace)

unfoldable pub expire_one : ℕ → Client → Client
expire_one id c =
    if lapses id c then record c { member = false; grace = false; timer = false } else c

unfoldable pub expire : ℕ → World → World
expire id w = map (expire_one id) w

-- `h.finalizeGrace(c)`, for the connection `id` of the user `u`.
unfoldable pub finalize_grace : ℕ → ℕ → ℕ → World → Option World
finalize_grace now u id w =
    if any (lapses id) w then broadcast_presence now u (expire id w) else some w

unfoldable pub rename_one : ℕ → Text → Text → Client → Client
rename_one u device name c =
    if in_group u c && same c.device_id device then record c { name = name } else c

-- `h.renameDevice(u, device, name)`.
unfoldable pub rename_device : ℕ → ℕ → Text → Text → World → Option World
rename_device now u device name w = broadcast_presence now u (map (rename_one u device name) w)

-- `sendKick`: the frame is written to the socket past the queue, and the socket is closed. A
-- write to a closed socket is an error that is ignored.
unfoldable pub send_kick : ℕ → Text → Client → Client
send_kick now reason c =
    if c.conn_open
    then record c { written = c.written ++ server_kick now reason ∷ []; conn_open = false }
    else c

-- `h.kickUser(u, reason)`, with the number of connections kicked.
unfoldable pub kick_user : ℕ → ℕ → Text → World → World × ℕ
kick_user now u reason w =
    (map (λ c. if is_active u c then send_kick now reason c else c) w, count_if (is_active u) w)

abbrev pub is_target : ℕ → Text → Client → Bool
is_target u device c = is_active u c && same c.device_id device

-- `h.kickDevice(u, device, reason)`, with the number of connections kicked.
unfoldable pub kick_device : ℕ → ℕ → Text → Text → World → World × ℕ
kick_device now u device reason w = (
  map (λ c. if is_target u device c then send_kick now reason c else c) w,
  count_if (is_target u device) w,
)
