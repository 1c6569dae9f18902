-- ===== src/Hub/Broadcast.antt =====
-- What the presence broadcast and the single presence frame do in a valid world.
use clip_sync_server.Base.{
  refl, ℕ, ◌≡◌, ◌&&◌, some, List, map, arith, if◌then◌else◌, All-mono, All-both, inl, inr,
  Bool-cases, ◌==◌, any, All, true, ◌≢◌, ◌∷◌, [], none, ◌∙◌, not,
}
use clip_sync_server.Hub.Conn.{Client, World, is_active, has_room, enqueue, try_send_open, in_group}
use clip_sync_server.Hub.Loop.{Visit, for_each-map}
use clip_sync_server.Hub.Presence.{
  group, is_receiver, presence_for, announce_to, broadcast_presence, build_presence_msg, greet_one,
  by_device, send_presence_to,
}
use clip_sync_server.Hub.Invariant.{IsSound, IsValid, AllApart}
use clip_sync_server.Hub.Devices.{by_device-group, receivers-active}

-- A connection after the broadcast to user `u` over the listed devices.
abbrev pub announced : ℕ → ℕ → List Client → Client → Client
announced now u devices c = if is_active u c then enqueue (presence_for now devices c.id) c else c

abbrev announce_visit : ℕ → ℕ → List Client → Client → Visit
announce_visit now u devices c = record {
  client = announced now u devices c;
  dispatched = if is_active u c && has_room c then 1 else 0;
  online = 0;
}

announce_to-visit :
    (now u : ℕ) (devices : List Client) (c : Client)
    → IsSound c × (is_receiver devices c ≡ is_active u c)
    → announce_to now devices c ≡ some (announce_visit now u devices c)
unfolding announce_to
announce_to-visit now u devices c (s, r) = elim (Bool-cases (is_active u c)) [
  | inl active ↦ rw (r, active, try_send_open _ c (ground arith))
  | inr idle ↦ rw (r, idle)
]

-- The broadcast never panics: each active connection of the user gets one frame, which lists the
-- members of the group, if its queue has room, and nobody else gets anything.
pub broadcast_presence-map :
    (now u : ℕ) (w : World)
    → IsValid w
    → broadcast_presence now u w ≡ some (map (announced now u (group u w)) w)
unfolding broadcast_presence
broadcast_presence-map now u w v = rw (by_device-group u w v.apart) (
    rw (
      for_each-map (announce_to now (group u w)) (announce_visit now u (group u w)) w (
        All-mono (λ c. IsSound c × (is_receiver (group u w) c ≡ is_active u c))
          (λ c. announce_to now (group u w) c ≡ some (announce_visit now u (group u w) c)) w
          (announce_to-visit now u (group u w))
          (All-both IsSound (λ c. is_receiver (group u w) c ≡ is_active u c) w v.sound
            (receivers-active u w v.apart)))))

group-ne-nil : (u : ℕ) (w : World) → any (in_group u) w ≡ true → group u w ≢ []
group-ne-nil u [] h e = cc
group-ne-nil u (c ∷ w) h e = ground (arith, group-ne-nil u w)

build_presence_msg-some :
    (now u self_id : ℕ) (w : World)
    → AllApart w
    → any (in_group u) w ≡ true
    → build_presence_msg now u self_id w ≡ some (presence_for now (group u w) self_id)
unfolding build_presence_msg
build_presence_msg-some now u self_id w a h =
    shown (group u w) (group-ne-nil u w h) ∙ rw (by_device-group u w a)
  where
    shown :
        (set : List Client)
        → set ≢ []
        → elim set [ [] ↦ none | c ∷ cs ↦ some (presence_for now (by_device (c ∷ cs)) self_id) ]
          ≡ some (presence_for now (by_device set) self_id)
    shown [] n = absurd (n refl)
    shown (c ∷ cs) n = refl

-- A connection after the frame for `target` alone.
abbrev pub greeted : ℕ → World → ℕ → Client → Client
greeted now w target c =
    if c.id == target then enqueue (presence_for now (group c.user_id w) c.id) c else c

abbrev greet_visit : ℕ → World → ℕ → Client → Visit
greet_visit now w target c = record {
  client = greeted now w target c;
  dispatched = if c.id == target && has_room c then 1 else 0;
  online = 0;
}

-- The target is an active member of its group.
abbrev pub IsTarget : ℕ → Client → Type 0
IsTarget target c = (c.id == target) ≡ true → is_active c.user_id c ≡ true

greet_target :
    (now : ℕ) (w : World) (target : ℕ) (c : Client)
    → AllApart w
    → IsSound c
    → (c.id == target) ≡ true
    → is_active c.user_id c ≡ true
    → any (in_group c.user_id) w ≡ true
    → greet_one now w target c ≡ some (greet_visit now w target c)
unfolding greet_one
greet_target now w target c a s hit active present =
    let awake : not c.grace ≡ true = ground arith in
    rw (
      hit,
      awake,
      build_presence_msg-some now c.user_id c.id w a present,
      try_send_open (presence_for now (group c.user_id w) c.id) c (ground arith),
    )

greet_one-visit :
    (now : ℕ) (w : World) (target : ℕ) (c : Client)
    → AllApart w
    → IsSound c
      × (IsTarget target c × (in_group c.user_id c ≡ true → any (in_group c.user_id) w ≡ true))
    → greet_one now w target c ≡ some (greet_visit now w target c)
unfolding greet_one
greet_one-visit now w target c a (s, (t, m)) = elim (Bool-cases (c.id == target)) [
  | inl hit ↦ greet_target now w target c a s hit (t hit) (m (ground (arith, t hit)))
  | inr miss ↦ rw miss
]

own_group :
    (w : World) → All (λ c. in_group c.user_id c ≡ true → any (in_group c.user_id) w ≡ true) w
own_group [] = tt
own_group (d ∷ w) = (
  λ h. rw h,
  All-mono (λ c. in_group c.user_id c ≡ true → any (in_group c.user_id) w ≡ true)
      (λ c. in_group c.user_id c ≡ true → any (in_group c.user_id) (d ∷ w) ≡ true) w
      (λ c f h. ground (arith, f h)) (own_group w),
)

-- The single presence frame never panics and goes to the target alone.
pub send_presence_to-map :
    (now target : ℕ) (w : World)
    → IsValid w
    → All (IsTarget target) w
    → send_presence_to now target w ≡ some (map (greeted now w target) w)
unfolding send_presence_to
send_presence_to-map now target w v t = rw (
    for_each-map (greet_one now w target) (greet_visit now w target) w (
      All-mono _ _ w (λ c. greet_one-visit now w target c v.apart)
        (All-both IsSound _ w v.sound (All-both (IsTarget target) _ w t (own_group w)))))
