-- ===== src/Hub/Join.antt =====
-- `register` as a whole: the announced and the silent branch.
use clip_sync_server.Base.{
  ◌++◌, ==_refl, All, All-append, All-map, [], ap, arith, false, map, some, true, ℕ, ◌∙◌, ◌∷◌, ◌≡◌,
  ◌≢◌,
}
use clip_sync_server.Hub.Conn.{Client, World, enqueue}
use clip_sync_server.Hub.Steps.{IsFresh, IsNew, enter-IsValid}
use clip_sync_server.Hub.Broadcast.{
  IsTarget, announced, broadcast_presence-map, greeted, send_presence_to-map,
}
use clip_sync_server.Hub.Invariant.{IsValid}
use clip_sync_server.Hub.Members.{enter, register, replaces_grace, retire}
use clip_sync_server.Hub.Presence.{group, presence_for}

abbrev pub joined : Client → Client
joined c = record c { member = true }

retire-IsTarget : (c d : Client) → d.id ≢ c.id → IsTarget c.id (retire c d)
unfolding retire
retire-IsTarget c d h e = absurd (ground arith)

joined-IsTarget : (c : Client) → IsFresh c → IsTarget c.id (joined c)
joined-IsTarget c f e = ground arith

enter-IsTarget : (c : Client) (w : World) → IsFresh c → IsNew c w → All (IsTarget c.id) (enter c w)
unfolding enter
enter-IsTarget c w f n =
    All-append (IsTarget c.id) (map (retire c) w) (joined c ∷ [])
      (All-map (λ d. d.id ≢ c.id) (IsTarget c.id) (retire c) w (retire-IsTarget c) n)
      (joined-IsTarget c f, tt)

greeted-retire :
    (now : ℕ) (c d : Client) (v : World)
    → d.id ≢ c.id
    → greeted now v c.id (retire c d) ≡ retire c d
unfolding retire
greeted-retire now c d v h = ground arith

greeted-joined :
    (now : ℕ) (c : Client) (v : World)
    → greeted now v c.id (joined c) ≡ enqueue (presence_for now (group c.user_id v) c.id) (joined c)
greeted-joined now c v = rw (==_refl c.id)

greeted-enter :
    (now : ℕ) (c : Client) (w v : World)
    → IsNew c w
    → map (greeted now v c.id) (enter c w)
      ≡ map (retire c) w ++ enqueue (presence_for now (group c.user_id v) c.id) (joined c) ∷ []
unfolding enter
greeted-enter now c [] v n = ap (λ d. d ∷ []) (greeted-joined now c v)
greeted-enter now c (d ∷ w) v (h, hs) = cc (greeted-retire now c d v h, greeted-enter now c w v hs)

-- In a valid world, when a new connection replaces one of its device that waits in its grace,
-- `register` offers one presence frame, to the new connection, and the queues of all others stay as
-- they were.
pub register_quiet :
    (now : ℕ) (c : Client) (w : World)
    → IsValid w
    → IsFresh c
    → IsNew c w
    → replaces_grace c w ≡ true
    → register now c w
      ≡ some (
          map (retire c) w
          ++ enqueue (presence_for now (group c.user_id (enter c w)) c.id) (joined c) ∷ [])
unfolding register
register_quiet now c w v f n q = rw q (
    send_presence_to-map now c.id (enter c w) (enter-IsValid c w f n v) (enter-IsTarget c w f n)
    ∙ ap some (greeted-enter now c w (enter c w) n))

-- In a valid world, when a new connection replaces none that waits in its grace, `register` offers
-- the new list to every active connection of the user.
pub register_loud :
    (now : ℕ) (c : Client) (w : World)
    → IsValid w
    → IsFresh c
    → IsNew c w
    → replaces_grace c w ≡ false
    → register now c w
      ≡ some (map (announced now c.user_id (group c.user_id (enter c w))) (enter c w))
unfolding register
register_loud now c w v f n q =
    rw q (broadcast_presence-map now c.user_id (enter c w) (enter-IsValid c w f n v))
