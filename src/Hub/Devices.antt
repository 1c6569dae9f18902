-- ===== src/Hub/Devices.antt =====
-- The list of devices that a presence frame shows: `byDevice`.
use clip_sync_server.Base.{
  ℕ, ◌≡◌, refl, sym, ◌∙◌, Bool, true, false, not, ◌&&◌, List, [], ◌∷◌, ◌++◌, arith, All, All-append,
  All-mono, All-both, any, same, same_iff, same_refl, append_assoc, append-nil, Text,
}
use clip_sync_server.Hub.Conn.{Client, World, in_group, is_active}
use clip_sync_server.Hub.Presence.{group, supersedes, keep_one, keep_each, by_device, is_receiver}
use clip_sync_server.Hub.Invariant.{Apart, AllApart}

-- `c` has another device ID than each connection of the list.
abbrev pub Differs : Client → List Client → Type 0
Differs c cs = All (λ d. same c.device_id d.device_id ≡ false) cs

-- No device ID occurs twice.
abbrev pub Spread : List Client → Type 0
Spread [] = Unit {0}
Spread (c ∷ cs) = Differs c cs × Spread cs

same_sym : (s t : Text) → same s t ≡ false → same t s ≡ false
same_sym s t h = ground (arith, same_iff s t, same_iff t s)

keep_one-Differs :
    (d c : Client) (kept : List Client)
    → same d.device_id c.device_id ≡ false
    → Differs d kept
    → Differs d (keep_one c kept)
unfolding keep_one
keep_one-Differs d c [] h k = (h, tt)
keep_one-Differs d c (e ∷ kept) h (k, ks) = ground (arith, keep_one-Differs d c kept h ks)

Differs-same :
    (k c : Client) (kept : List Client)
    → k.device_id ≡ c.device_id
    → Differs k kept
    → Differs c kept
Differs-same k c kept e =
    All-mono (λ d. same k.device_id d.device_id ≡ false) (λ d. same c.device_id d.device_id ≡ false)
      kept (λ d h. rw (← e) h)

keep_one-Spread : (c : Client) (kept : List Client) → Spread kept → Spread (keep_one c kept)
unfolding keep_one
keep_one-Spread c [] h = (tt, tt)
keep_one-Spread c (k ∷ kept) (d, h) = ground (
  arith,
  Differs-same k c kept,
  same_iff k.device_id c.device_id,
  keep_one-Spread c kept h,
  keep_one-Differs k c kept,
)

keep_each-Spread : (kept set : List Client) → Spread kept → Spread (keep_each kept set)
unfolding keep_each
keep_each-Spread kept [] h = h
keep_each-Spread kept (c ∷ set) h =
    keep_each-Spread (keep_one c kept) set (keep_one-Spread c kept h)

-- Whatever the set holds, its presence list has no device ID twice.
by_device-Spread : (set : List Client) → Spread (by_device set)
unfolding by_device
by_device-Spread set = keep_each-Spread [] set tt

-- An active connection of this device is listed.
abbrev pub shows_active : Text → List Client → Bool
shows_active device kept = any (λ k. same k.device_id device && not k.grace) kept

shows_active-keep_one_self :
    (c : Client) (kept : List Client)
    → c.grace ≡ false
    → shows_active c.device_id (keep_one c kept) ≡ true
unfolding keep_one supersedes
shows_active-keep_one_self c [] h = ground (arith, same_refl c.device_id)
shows_active-keep_one_self c (k ∷ kept) h =
    ground (arith, same_refl c.device_id, shows_active-keep_one_self c kept h)

shows_active-keep_one :
    (device : Text) (c : Client) (kept : List Client)
    → shows_active device kept ≡ true
    → shows_active device (keep_one c kept) ≡ true
unfolding keep_one supersedes
shows_active-keep_one device c [] h = cc
shows_active-keep_one device c (k ∷ kept) h = ground (
  arith,
  same_iff k.device_id c.device_id,
  same_iff k.device_id device,
  same_iff c.device_id device,
  shows_active-keep_one device c kept,
)

shows_active-keep_each :
    (device : Text) (kept set : List Client)
    → shows_active device kept ≡ true
    → shows_active device (keep_each kept set) ≡ true
unfolding keep_each
shows_active-keep_each device kept [] h = h
shows_active-keep_each device kept (c ∷ set) h =
    shows_active-keep_each device (keep_one c kept) set (shows_active-keep_one device c kept h)

keep_each-shows_active :
    (kept set : List Client)
    → All (λ c. c.grace ≡ false → shows_active c.device_id (keep_each kept set) ≡ true) set
unfolding keep_each
keep_each-shows_active kept [] = tt
keep_each-shows_active kept (c ∷ set) = (
  λ h.
      shows_active-keep_each c.device_id (keep_one c kept) set
        (shows_active-keep_one_self c kept h),
  keep_each-shows_active (keep_one c kept) set,
)

-- Whatever the set holds, each device with an active connection is listed by an active one, never
-- by a placeholder in its grace.
pub by_device-shows_active :
    (set : List Client)
    → All (λ c. c.grace ≡ false → shows_active c.device_id (by_device set) ≡ true) set
unfolding by_device
by_device-shows_active set = keep_each-shows_active [] set

keep_one_new :
    (c : Client) (kept : List Client)
    → All (λ k. same k.device_id c.device_id ≡ false) kept
    → keep_one c kept ≡ kept ++ c ∷ []
unfolding keep_one
keep_one_new c [] h = refl
keep_one_new c (k ∷ kept) (h, hs) = rw h (rw (keep_one_new c kept hs))

keep_each_new :
    (kept set : List Client)
    → All (λ k. Differs k set) kept
    → Spread set
    → keep_each kept set ≡ kept ++ set
unfolding keep_each
keep_each_new kept [] h s = sym (append-nil kept)
keep_each_new kept (c ∷ set) h (d, s) =
    let fresh =
      All-mono (λ k. Differs k (c ∷ set)) (λ k. same k.device_id c.device_id ≡ false) kept
        (λ k x. x.0) h in
    let later = All-mono (λ k. Differs k (c ∷ set)) (λ k. Differs k set) kept (λ k x. x.1) h in
    rw (keep_one_new c kept fresh) (
      keep_each_new (kept ++ c ∷ []) set
        (All-append (λ k. Differs k set) kept (c ∷ []) later (d, tt)) s
      ∙ append_assoc kept (c ∷ []) set)

-- Where no device ID is repeated, nothing is dropped.
pub by_device_of_Spread : (set : List Client) → Spread set → by_device set ≡ set
unfolding by_device
by_device_of_Spread set s = keep_each_new [] set tt s

group-Differs :
    (u : ℕ) (c : Client) (w : World) → in_group u c ≡ true → All (Apart c) w → Differs c (group u w)
group-Differs u c [] h a = tt
group-Differs u c (d ∷ w) h ((i, n), rest) = ground (arith, group-Differs u c w h rest)

group-Spread : (u : ℕ) (w : World) → AllApart w → Spread (group u w)
group-Spread u [] a = tt
group-Spread u (c ∷ w) (a, rest) = ground (arith, group-Differs u c w, group-Spread u w rest)

-- In a valid world a group has no duplicates to drop.
pub by_device-group : (u : ℕ) (w : World) → AllApart w → by_device (group u w) ≡ group u w
by_device-group u w a = by_device_of_Spread (group u w) (group-Spread u w a)

not-receiver :
    (u : ℕ) (c : Client) (w : World) → All (Apart c) w → is_receiver (group u w) c ≡ false
unfolding is_receiver
not-receiver u c [] a = refl
not-receiver u c (d ∷ w) ((i, n), rest) = ground (arith, not-receiver u c w rest)

receiver_self :
    (u : ℕ) (c : Client) (w : World)
    → All (Apart c) w
    → is_receiver (group u (c ∷ w)) c ≡ is_active u c
unfolding is_receiver
receiver_self u c w a = ground (arith, not-receiver u c w a)

receiver_step :
    (u : ℕ) (d : Client) (w : World) (c : Client)
    → Apart d c × (is_receiver (group u w) c ≡ is_active u c)
    → is_receiver (group u (d ∷ w)) c ≡ is_active u c
unfolding is_receiver
receiver_step u d w c ((i, n), h) = ground arith

-- The receivers are exactly the active connections of the group.
pub receivers-active :
    (u : ℕ) (w : World) → AllApart w → All (λ c. is_receiver (group u w) c ≡ is_active u c) w
receivers-active u [] a = tt
receivers-active u (d ∷ w) (a, rest) = (
  receiver_self u d w a,
  All-mono (λ c. Apart d c × (is_receiver (group u w) c ≡ is_active u c))
      (λ c. is_receiver (group u (d ∷ w)) c ≡ is_active u c) w (receiver_step u d w)
      (All-both (Apart d) (λ c. is_receiver (group u w) c ≡ is_active u c) w a
        (receivers-active u w rest)),
)
