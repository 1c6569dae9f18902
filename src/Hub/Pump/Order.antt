-- ===== src/Hub/Pump/Order.antt =====
-- main.go: frames leave a connection in the order in which they were queued.
-- The text frames among those written.
use clip_sync_server.Base.{
  ◌&&◌, ◌++◌, Bool, List, [], ap, if◌then◌else◌, false, not, refl, true, ◌∷◌, ◌≡◌, Bool-cases,
  append-nil, append_assoc, arith, inl, inr, suc, sym, zero, ℕ, ◌∙◌, length, map,
}
use clip_sync_server.Hub.Pump.{
  Event, Pump, Wire, close_frame, offered, ping, pump_one, receive, receives, shut, text_frame,
  ticks, write_pump, stopped,
}
use clip_sync_server.Hub.Conn.{Frame, has_room}

abbrev pub texts : List Wire → List Frame
texts [] = []
texts (text_frame m ∷ ws) = m ∷ texts ws
texts (ping ∷ ws) = texts ws
texts (close_frame ∷ ws) = texts ws

-- The frame that the channel takes at an event, and those that it takes in the course of the
-- events.
abbrev pub taken : Event → Pump → List Frame
taken (offered m) p = if not p.client.send_closed && has_room p.client then m ∷ [] else []
taken _ p = []

abbrev pub accepted : List Event → Pump → List Frame
accepted [] p = []
accepted (e ∷ es) p = taken e p ++ accepted es (pump_one e p)

texts-append : (xs ys : List Wire) → texts (xs ++ ys) ≡ texts xs ++ texts ys
texts-append [] ys = refl
texts-append (text_frame m ∷ xs) ys = ap (◌∷◌ m) (texts-append xs ys)
texts-append (ping ∷ xs) ys = texts-append xs ys
texts-append (close_frame ∷ xs) ys = texts-append xs ys

-- What has been written and what is still in the channel.
abbrev pub in_order : Pump → List Frame
in_order p = texts p.wire ++ p.client.send

pump_one_stopped : (e : Event) (p : Pump) → p.running ≡ false → (pump_one e p).running ≡ false
unfolding pump_one
pump_one_stopped (receives works) p h = ground arith
pump_one_stopped (ticks works) p h = ground arith
pump_one_stopped (offered m) p h = ground arith
pump_one_stopped shut p h = h

-- Once it has returned `writePump` writes nothing more.
stays_stopped : (es : List Event) (p : Pump) → p.running ≡ false → (write_pump es p).running ≡ false
unfolding write_pump
stays_stopped [] p h = h
stays_stopped (e ∷ es) p h = stays_stopped es (pump_one e p) (pump_one_stopped e p h)

receive-in_order :
    (works : Bool) (send : List Frame) (p : Pump)
    → p.client.send ≡ send
    → (receive works send p).running ≡ true
    → in_order (receive works send p) ≡ in_order p
receive-in_order works [] p e h = elim (Bool-cases p.client.send_closed) [
  | inl closed ↦ ground arith
  | inr is_open ↦ rw is_open refl
]
receive-in_order true (m ∷ rest) p e h =
    rw (texts-append p.wire (text_frame m ∷ []), append_assoc, e) refl
receive-in_order false (m ∷ rest) p e h = ground arith

pump_one-in_order :
    (e : Event) (p : Pump)
    → (pump_one e p).running ≡ true
    → in_order (pump_one e p) ≡ in_order p ++ taken e p
unfolding pump_one
pump_one-in_order (receives works) p h = elim (Bool-cases p.running) [
  | inl runs ↦
      let after : (receive works p.client.send p).running ≡ true = ground arith in
      let kept = receive-in_order works p.client.send p refl after in
      let whole = append-nil (in_order p) in ground arith
  | inr ended ↦ ground arith
]
pump_one-in_order (ticks works) p h =
    let kept = texts-append p.wire (ping ∷ []) in
    let same_texts = append-nil (texts p.wire) in
    let whole = append-nil (in_order p) in ground arith
pump_one-in_order (offered m) p h =
    let joined = append_assoc (texts p.wire) p.client.send (m ∷ []) in
    let whole = append-nil (in_order p) in ground arith
pump_one-in_order shut p h = sym (append-nil _)

-- As long as `writePump` runs, with whatever turns, ticks, offers and a close in between: the
-- frames that it has written, followed by those that wait in the channel, are those that were there
-- at the start followed by those that the channel has taken since, in that order, each once.
pub write_pump-in_order :
    (es : List Event) (p : Pump)
    → (write_pump es p).running ≡ true
    → in_order (write_pump es p) ≡ in_order p ++ accepted es p
unfolding write_pump
write_pump-in_order [] p h = sym (append-nil _)
write_pump-in_order (e ∷ es) p h = elim (Bool-cases (pump_one e p).running) [
  | inl runs ↦
      write_pump-in_order es (pump_one e p) h
      ∙ rw (pump_one-in_order e p runs) (append_assoc (in_order p) (taken e p) _)
  | inr ended ↦ let stays = stays_stopped es (pump_one e p) ended in ground arith
]

abbrev pub turns : ℕ → List Event
turns zero = []
turns (suc n) = receives true ∷ turns n

abbrev next_sent : Frame → List Frame → Pump → Pump
next_sent m rest p = record p {
  wire = p.wire ++ text_frame m ∷ [];
  client = record p.client { send = rest };
}

receive_next :
    (m : Frame) (rest : List Frame) (p : Pump)
    → p.client.send ≡ m ∷ rest
    → p.running ≡ true
    → pump_one (receives true) p ≡ next_sent m rest p
unfolding pump_one
receive_next m rest p e r = ground arith

receive_last :
    (p : Pump)
    → p.client.send ≡ []
    → p.client.send_closed ≡ true
    → p.running ≡ true
    → pump_one (receives true) p ≡ stopped (record p { wire = p.wire ++ close_frame ∷ [] })
unfolding pump_one
receive_last p e c r = ground arith

all_sent :
    (send : List Frame) (p : Pump)
    → p.client.send ≡ send
    → p.client.send_closed ≡ true
    → p.running ≡ true
    → let p' = write_pump (turns (suc (length send))) p in
      (p'.wire ≡ p.wire ++ (map text_frame send ++ close_frame ∷ []))
      × (p'.running ≡ false)
      × (p'.client.conn_open ≡ false)
unfolding write_pump
all_sent [] p e c r = rw (receive_last p e c r, write_pump) (refl, refl, refl)
all_sent (m ∷ rest) p e c r =
    let (sent, ends, closes) = all_sent rest (next_sent m rest p) refl c r in
    rw (receive_next m rest p e r, write_pump)
      (sent ∙ append_assoc p.wire (text_frame m ∷ []) _, ends, closes)

-- Once its channel is closed, if no write fails, a `writePump` that runs takes one turn for each
-- frame that waits and one more: it writes these frames in order and then the frame that closes the
-- connection, returns, and closes the connection.
pub write_pump_drains :
    (p : Pump)
    → p.client.send_closed ≡ true
    → p.running ≡ true
    → let p' = write_pump (turns (suc (length p.client.send))) p in
      (p'.wire ≡ p.wire ++ (map text_frame p.client.send ++ close_frame ∷ []))
      × (p'.running ≡ false)
      × (p'.client.conn_open ≡ false)
write_pump_drains p c r = all_sent p.client.send p refl c r
