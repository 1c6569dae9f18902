-- ===== src/Online/Race.antt =====
-- main.go: a connection that replaces another one of its device, and the register in Redis.
use clip_sync_server.Base.{
  ◌&&◌, ◌++◌, ◌==◌, ==_refl, Bool, Bool-cases, List, Result, Text, [], any, ap, arith, err, false,
  inl, inr, map, none, not, ok, refl, same_refl, some, true, ◌||◌, ℕ, ◌∙◌, ◌∷◌, ◌≡◌,
}
use clip_sync_server.Hub.Conn.{Client, World}
use clip_sync_server.Auth.Redis.{Redis}
use clip_sync_server.Online.{
  Site, is_alive, is_replaced, join_hub, keep_online, leave_hub, sign_off, sign_on,
}
use clip_sync_server.Auth.Cache.{clear_if_empty, mark_offline, mark_online}
use clip_sync_server.Hub.Members.{enter, is_stale, leave_one, retire, unregister}

stale_replaced :
    (id : ℕ) (c : Client) (w : World)
    → any (λ d. d.id == id && is_stale c d) w ≡ true
    → is_replaced id (map (retire c) w) ≡ true
unfolding retire
stale_replaced id c [] h = cc
stale_replaced id c (d ∷ w) h = ground (arith, stale_replaced id c w)

any-append {ℓ} :
    {A : Type ℓ} (p : A → Bool) (xs ys : List A) → any p (xs ++ ys) ≡ (any p xs || any p ys)
any-append p [] ys = refl
any-append p (x ∷ xs) ys = ground (arith, any-append p xs ys)

is_replaced-unregister :
    (id other : ℕ) (w : World) → is_replaced id (unregister other w) ≡ is_replaced id w
unfolding unregister leave_one
is_replaced-unregister id other [] = refl
is_replaced-unregister id other (d ∷ w) = ground (arith, is_replaced-unregister id other w)

pub alive_entered : (c : Client) (w : World) → c.grace ≡ false → is_alive c.id (enter c w) ≡ true
unfolding enter
alive_entered c w g =
    any-append (λ d. d.id == c.id && (d.member && not d.grace)) (map (retire c) w)
      (record c { member = true } ∷ [])
    ∙ ground (arith, ==_refl c.id)

-- After the new connection has entered and the old one has left, the old one is replaced.
replaced_entered :
    (old : ℕ) (c : Client) (w : World)
    → any (λ d. d.id == old && is_stale c d) w ≡ true
    → is_replaced old (unregister old (enter c w)) ≡ true
unfolding enter
replaced_entered old c w stale =
    is_replaced-unregister old old (enter c w)
    ∙ any-append (λ d. d.id == old && d.replaced) (map (retire c) w)
        (record c { member = true } ∷ [])
    ∙ ground (arith, stale_replaced old c w stale)

module _ (R : Redis) where
  open R use {State, field, hlen, hclear, field-hset, field-hdel, field-hclear}

  field-mark_online :
      (u : ℕ) (device role : Text) (ttl : ℕ) (s : State)
      → (mark_online R u device role ttl s).1 ≡ true
      → field u device (mark_online R u device role ttl s).0 ≡ some role
  unfolding mark_online
  field-mark_online u device role ttl s h =
      ground (arith, field-hset u u device device role ttl s h, same_refl device, ==_refl u)

  field-clear_if_empty :
      (u : ℕ) (device : Text) (s : State) (n : Result (Unit {0}) ℕ)
      → hlen u s ≡ n
      → field u device (clear_if_empty R u s n) ≡ field u device s
  field-clear_if_empty u device s (err e) h = refl
  field-clear_if_empty u device s (ok n) h = elim (Bool-cases (n == 0)) [
    | inl z ↦ rw z (field-hclear u u device s (h ∙ ap ok (ground arith)))
    | inr p ↦ rw p
  ]

  field-mark_offline :
      (u : ℕ) (device : Text) (s : State)
      → (mark_offline R u device s).1 ≡ true
      → field u device (mark_offline R u device s).0 ≡ none
  unfolding mark_offline
  field-mark_offline u device s h =
      let after_hdel = R.hdel u device s in
      ground (
        arith,
        field-hdel u u device device s,
        field-clear_if_empty u device after_hdel.0 (hlen u after_hdel.0) refl,
        same_refl device,
        ==_refl u,
      )

  -- A connection that has entered before the one it replaces ends keeps its device in the register:
  -- the end of the old connection `old` does not take the device away.
  pub replaced_stays_online :
      (ttl old : ℕ) (c : Client) (s : Site R)
      → any (λ d. d.id == old && is_stale c d) s.world ≡ true
      → (mark_online R c.user_id c.device_id c.role ttl s.cache).1 ≡ true
      → let s' =
          sign_off R old c.user_id c.device_id
            (leave_hub R old (join_hub R c (sign_on R ttl c s))) in
        field c.user_id c.device_id s'.cache ≡ some c.role
  unfolding sign_off leave_hub join_hub sign_on
  replaced_stays_online ttl old c s stale marked =
      rw (replaced_entered old c s.world stale)
        (field-mark_online c.user_id c.device_id c.role ttl s.cache marked)

  -- If the old connection ends after the new one has signed on but before it has entered the hub,
  -- the end of the old one takes the device out of the register, though the new one then is in the
  -- hub.
  pub sign_off_race :
      (ttl old : ℕ) (c : Client) (s : Site R)
      → is_replaced old s.world ≡ false
      → c.grace ≡ false
      → let marked = sign_on R ttl c s in
        (mark_offline R c.user_id c.device_id marked.cache).1 ≡ true
        → let s' = join_hub R c (sign_off R old c.user_id c.device_id (leave_hub R old marked)) in
          (is_alive c.id s'.world ≡ true) × (field c.user_id c.device_id s'.cache ≡ none)
  unfolding sign_off leave_hub join_hub sign_on
  sign_off_race ttl old c s alone g removed =
      let here = is_replaced-unregister old old s.world ∙ alone in
      let cleared =
        field-mark_offline c.user_id c.device_id
          (mark_online R c.user_id c.device_id c.role ttl s.cache).0 removed in
      rw (here) (alive_entered c (unregister old s.world) g, cleared)

  -- The next tick of `keepOnline` that Redis carries out has every connection that is alive in the
  -- register, whatever was there before, and goes on.
  pub keep_online_repairs :
      (ttl : ℕ) (c : Client) (s : Site R)
      → is_alive c.id s.world ≡ true
      → (mark_online R c.user_id c.device_id c.role ttl s.cache).1 ≡ true
      → let (s', goes_on) = keep_online R ttl c s in
        (goes_on ≡ true) × (field c.user_id c.device_id s'.cache ≡ some c.role)
  unfolding keep_online
  keep_online_repairs ttl c s alive marked =
      ground (arith, field-mark_online c.user_id c.device_id c.role ttl s.cache marked)
