-- ===== src/Hub/Greet.antt =====
-- main.go: `sendPresenceTo` to any connection that has not been unregistered. Between `register`
-- and
-- this call the connection may already have been replaced by another one.
use clip_sync_server.Base.{
  ◌&&◌, ◌==◌, All, All-mono, Bool-cases, Option, arith, if◌then◌else◌, false, inl, inr, map, none,
  not, refl, some, true, ℕ, ◌≡◌,
}
use clip_sync_server.Hub.Conn.{Client, Frame, World, enqueue, has_room, try_send}
use clip_sync_server.Hub.Invariant.{IsKept, IsSound, IsValid, IsValid-map}
use clip_sync_server.Hub.Loop.{Visit, for_each-map}
use clip_sync_server.Hub.Presence.{build_presence_msg, greet_one, offer, send_presence_to}

-- A frame, if there is one, for an open connection.
abbrev pub queued : Option Frame → Client → Visit
queued none c = record { client = c; dispatched = 0; online = 0 }
queued (some m) c = record {
  client = enqueue m c;
  dispatched = if has_room c then 1 else 0;
  online = 0;
}

offer-queued :
    (o : Option Frame) (c : Client) → c.send_closed ≡ false → offer o c ≡ some (queued o c)
unfolding try_send
offer-queued none c h = refl
offer-queued (some m) c h = ground arith

queued-IsKept : (o : Option Frame) (c : Client) → IsKept c (queued o c).client
queued-IsKept none c = ground arith
queued-IsKept (some m) c = ground arith

queued-IsSound : (o : Option Frame) (c : Client) → IsSound c → IsSound (queued o c).client
queued-IsSound none c s = s
queued-IsSound (some m) c s = ground arith

-- What the target of a greeting is sent, if anything.
abbrev pub message_for : ℕ → World → ℕ → Client → Option Frame
message_for now w id c =
    if c.id == id && not c.grace then build_presence_msg now c.user_id c.id w else none

greet_one-queued :
    (now : ℕ) (w : World) (id : ℕ) (c : Client)
    → ((c.id == id) ≡ true → c.send_closed ≡ false)
    → greet_one now w id c ≡ some (queued (message_for now w id c) c)
unfolding greet_one
greet_one-queued now w id c o = elim (Bool-cases (c.id == id && not c.grace)) [
  | inl hit ↦ rw (hit) (offer-queued (build_presence_msg now c.user_id c.id w) c (o (ground arith)))
  | inr miss ↦ rw miss
]

-- The greeting does not panic and leaves the world valid.
pub send_presence_to-IsValid :
    (now id : ℕ) (w : World)
    → IsValid w
    → All (λ c. (c.id == id) ≡ true → c.send_closed ≡ false) w
    → (w' : World) × (send_presence_to now id w ≡ some w') × IsValid w'
unfolding send_presence_to
send_presence_to-IsValid now id w v o = (
  map (λ c. (queued (message_for now w id c) c).client) w,
  rw (
      for_each-map (greet_one now w id) (λ c. queued (message_for now w id c) c) w
        (All-mono _ _ w (greet_one-queued now w id) o)),
  IsValid-map (λ c. (queued (message_for now w id c) c).client)
      (λ c. queued-IsKept (message_for now w id c) c)
      (λ c s. queued-IsSound (message_for now w id c) c s) w v,
)
