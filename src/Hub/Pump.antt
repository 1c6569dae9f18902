-- ===== src/Hub/Pump.antt =====
-- main.go: `writePump` of one connection, what is put on its channel meanwhile, and the limits of
-- its reader. A write of a frame succeeds or fails; which do is an argument.
pub mod Order
mod Tests
use clip_sync_server.Base.{◌*◌, ◌++◌, Bool, List, [], if◌then◌else◌, false, true, ℕ, ◌∷◌}
use clip_sync_server.Hub.Conn.{Client, Frame, enqueue}
use clip_sync_server.Sms.{or_default}

-- What goes over the socket from `writePump`.
pub data Wire : Type 0 where
  text_frame : Frame → Wire
  ping close_frame : Wire

-- `running` says that `writePump` has not returned; `wire` are the frames that it has written.
pub record Pump : Type 0 where
  pub client : Client
  pub wire : List Wire
  pub running : Bool

-- A turn of the loop that reads the channel, one that the ticker wakes, and what others do to the
-- channel meanwhile: a non-blocking send and the close.
pub data Event : Type 0 where
  receives : Bool → Event
  ticks : Bool → Event
  offered : Frame → Event
  shut : Event

-- Seconds from the configuration, or the default.
abbrev pub ping_interval : ℕ → ℕ
ping_interval configured = or_default configured 30

abbrev pub write_deadline : ℕ → ℕ
write_deadline configured = or_default configured 10

abbrev pub read_deadline : ℕ → ℕ
read_deadline configured = or_default configured 60

abbrev pub read_limit : ℕ → ℕ
read_limit configured = or_default configured (10 * 1024 * 1024)

-- The deferred function.
abbrev pub stopped : Pump → Pump
stopped p = record p { running = false; client = record p.client { conn_open = false } }

abbrev pub written_frame : Bool → Wire → Pump → Pump
written_frame works f p = if works then record p { wire = p.wire ++ f ∷ [] } else p

-- `lockedWrite` of a frame taken from the channel.
abbrev pub write_text : Bool → Frame → Pump → Pump
write_text works m p = if works then record p { wire = p.wire ++ text_frame m ∷ [] } else stopped p

-- An empty open channel blocks; a closed one ends the loop once it is empty.
abbrev pub receive : Bool → List Frame → Pump → Pump
receive works (m ∷ rest) p =
    write_text works m (record p { client = record p.client { send = rest } })
receive works [] p = if p.client.send_closed then stopped (written_frame works close_frame p) else p

abbrev pub tick : Bool → Pump → Pump
tick works p = if works then record p { wire = p.wire ++ ping ∷ [] } else stopped p

-- A panic of a send on a closed channel does not occur; such a send leaves everything as it is.
abbrev pub offer : Frame → Pump → Pump
offer m p = if p.client.send_closed then p else record p { client = enqueue m p.client }

unfoldable pub pump_one : Event → Pump → Pump
pump_one (receives works) p = if p.running then receive works p.client.send p else p
pump_one (ticks works) p = if p.running then tick works p else p
pump_one (offered m) p = offer m p
pump_one shut p = record p { client = record p.client { send_closed = true } }

-- `writePump` over the events of a connection.
unfoldable pub write_pump : List Event → Pump → Pump
write_pump [] p = p
write_pump (e ∷ es) p = write_pump es (pump_one e p)
