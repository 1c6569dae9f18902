-- ===== src/Hub/Invariant.antt =====
-- What holds of the connections at every moment, and the maps that keep it.
use clip_sync_server.Base.{
  ◌≡◌, ◌≢◌, Bool, true, false, not, ◌&&◌, [], ◌∷◌, ◌++◌, map, arith, ◌==◌, All, All-append, All-map,
  same,
}
use clip_sync_server.Hub.Conn.{Client, World}

-- A connection by itself: the channel of an active member is open; a replaced connection has left
-- the set; a member in its grace has a pending timer.
pub record IsSound (c : Client) : Type 0 where
  pub open_channel : (c.member && (not c.grace && c.send_closed)) ≡ false
  pub replaced_left : (c.member && c.replaced) ≡ false
  pub timed : (c.member && (c.grace && not c.timer)) ≡ false

-- Both are in the set of the same user under the same device ID.
abbrev pub clash : Client → Client → Bool
clash c d = (c.member && d.member) && (c.user_id == d.user_id && same c.device_id d.device_id)

-- Two connections are different pointers, and no two members of one device.
abbrev pub Apart : Client → Client → Type 0
Apart c d = (c.id ≢ d.id) × (clash c d ≡ false)

abbrev pub AllApart : World → Type 0
AllApart [] = Unit {0}
AllApart (c ∷ w) = All (Apart c) w × AllApart w

pub record IsValid (w : World) : Type 0 where
  pub sound : All IsSound w
  pub apart : AllApart w

-- `d` is a later state of the connection `c`, which has not entered the set in between.
pub record IsKept (c d : Client) : Type 0 where
  pub same_id : d.id ≡ c.id
  pub same_user : d.user_id ≡ c.user_id
  pub same_device : d.device_id ≡ c.device_id
  pub no_entry : d.member ≡ true → c.member ≡ true

abbrev pub Keeps : (Client → Client) → Type 0
Keeps f = (c : Client) → IsKept c (f c)

Apart-IsKept : (c d c' d' : Client) → IsKept c c' → IsKept d d' → Apart c d → Apart c' d'
Apart-IsKept c d c' d' k l (i, n) = ground arith

AllApart-map : (f : Client → Client) → Keeps f → (w : World) → AllApart w → AllApart (map f w)
AllApart-map f k [] h = tt
AllApart-map f k (c ∷ w) (h, hs) = (
  All-map (Apart c) (Apart (f c)) f w (λ d. Apart-IsKept c d (f c) (f d) (k c) (k d)) h,
  AllApart-map f k w hs,
)

-- A map that keeps each connection sound and each identity keeps the invariant.
pub IsValid-map :
    (f : Client → Client)
    → Keeps f
    → ((c : Client) → IsSound c → IsSound (f c))
    → (w : World) → IsValid w
    → IsValid (map f w)
IsValid-map f k s w v = record {
  sound = All-map IsSound IsSound f w s v.sound;
  apart = AllApart-map f k w v.apart;
}

AllApart-append :
    (w : World) (c : Client) → AllApart w → All (λ d. Apart d c) w → AllApart (w ++ c ∷ [])
AllApart-append [] c h k = (tt, tt)
AllApart-append (d ∷ w) c (h, hs) (k, ks) =
    (All-append (Apart d) w (c ∷ []) h (k, tt), AllApart-append w c hs ks)

-- A sound connection that is apart from all others may be added.
pub IsValid-append :
    (w : World) (c : Client)
    → IsValid w
    → IsSound c
    → All (λ d. Apart d c) w
    → IsValid (w ++ c ∷ [])
IsValid-append w c v s k = record {
  sound = All-append IsSound w (c ∷ []) v.sound (s, tt);
  apart = AllApart-append w c v.apart k;
}
