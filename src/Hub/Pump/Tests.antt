-- ===== src/Hub/Pump/Tests.antt =====
-- main.go: `writePump` of a phone whose queue holds two frames.
use clip_sync_server.Hub.Tests.{phone}
use clip_sync_server.Base.{◌++◌, List, [], false, refl, true, ◌∷◌, ◌≡◌}
use clip_sync_server.Hub.Pump.{
  Event, Pump, close_frame, offered, ping, pump_one, receives, shut, text_frame, ticks, write_pump,
}
use clip_sync_server.Hub.Pump.Order.{
  accepted, in_order, turns, write_pump-in_order, write_pump_drains,
}
use clip_sync_server.Hub.Conn.{raw}

abbrev pump : Pump
pump = record { client = phone; wire = []; running = true }

abbrev offers : List Event
offers =
    offered (raw (1 ∷ []))
    ∷ offered (raw (2 ∷ []))
    ∷ offered (raw (3 ∷ []))
    ∷ receives true
    ∷ ticks true
    ∷ []

-- The third frame finds the queue full.
queue_test : (write_pump offers pump).client.send ≡ raw (2 ∷ []) ∷ []
unfolding write_pump pump_one
queue_test = refl

wire_test :
    (write_pump (shut ∷ receives true ∷ receives false ∷ []) (write_pump offers pump)).wire
    ≡ text_frame (raw (1 ∷ [])) ∷ ping ∷ text_frame (raw (2 ∷ [])) ∷ []
unfolding write_pump pump_one
wire_test = refl

still_runs : (write_pump offers pump).running ≡ true
unfolding write_pump pump_one
still_runs = refl

write_pump-in_order_example :
    in_order (write_pump offers pump) ≡ in_order pump ++ accepted offers pump
write_pump-in_order_example = write_pump-in_order offers pump still_runs

abbrev closing : Pump
closing = record pump {
  client = record phone { send = raw (1 ∷ []) ∷ raw (2 ∷ []) ∷ []; send_closed = true };
}

write_pump_drains_example :
    let p' = write_pump (turns 3) closing in
    (p'.wire ≡ text_frame (raw (1 ∷ [])) ∷ text_frame (raw (2 ∷ [])) ∷ close_frame ∷ [])
    × (p'.running ≡ false)
    × (p'.client.conn_open ≡ false)
write_pump_drains_example = write_pump_drains closing refl refl
