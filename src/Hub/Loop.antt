-- ===== src/Hub/Loop.antt =====
-- The loops of main.go over the connections of a group.
use clip_sync_server.Base.{ℕ, ◌+◌, ◌≡◌, refl, Option, none, some, [], ◌∷◌, map, All}
use clip_sync_server.Hub.Conn.{Client, World}

-- What one round of a loop does: the connection after it, and what it adds to the counters.
pub record Visit : Type 0 where
  pub client : Client
  pub dispatched : ℕ
  pub online : ℕ

pub record Outcome : Type 0 where
  pub world : World
  pub dispatched : ℕ
  pub online : ℕ

abbrev add_visit : Visit → Outcome → Outcome
add_visit v o = record {
  world = v.client ∷ o.world;
  dispatched = v.dispatched + o.dispatched;
  online = v.online + o.online;
}

abbrev join : Option Visit → Option Outcome → Option Outcome
join none _ = none
join (some v) none = none
join (some v) (some o) = some (add_visit v o)

-- A loop whose rounds touch one connection each; a panic in a round is the panic of the loop.
unfoldable pub for_each : (Client → Option Visit) → World → Option Outcome
for_each f [] = some (record { world = []; dispatched = 0; online = 0 })
for_each f (c ∷ w) = join (f c) (for_each f w)

abbrev pub total : (Client → ℕ) → World → ℕ
total f [] = 0
total f (c ∷ w) = f c + total f w

-- A loop whose rounds do not panic is a map, and its counters are sums.
pub for_each-map :
    (f : Client → Option Visit) (g : Client → Visit) (w : World)
    → All (λ c. f c ≡ some (g c)) w
    → for_each f w
      ≡ some (record {
        world = map (λ c. (g c).client) w;
        dispatched = total (λ c. (g c).dispatched) w;
        online = total (λ c. (g c).online) w;
      })
unfolding for_each
for_each-map f g [] h = refl
for_each-map f g (c ∷ w) (h, hs) = rw (h, for_each-map f g w hs)
