-- ===== src/Hub/Grace.antt =====
-- The offline grace: a device that drops and comes back in time, and one that does not.
use clip_sync_server.Base.{
  ◌++◌, All, [], arith, false, map, true, ◌∷◌, ◌≡◌, All-mono, ap, same_iff, same_refl, sym, ◌∙◌,
  ◌&&◌, All-map, same, some, subst, ℕ, ◌≢◌, All-append, All-select,
}
use clip_sync_server.Hub.Invariant.{AllApart, Apart, IsValid, IsSound}
use clip_sync_server.Hub.Conn.{Client, World, enqueue, in_group}
use clip_sync_server.Hub.Members.{
  leave_one, unregister, enter, is_stale, retire, expire, expire_one, finalize_grace, lapses,
  register, replaces_grace,
}
use clip_sync_server.Hub.Steps.{IsFresh, IsNew, expire-IsValid, unregister-IsValid}
use clip_sync_server.Hub.Broadcast.{announced, broadcast_presence-map}
use clip_sync_server.Hub.Presence.{group, presence_for}
use clip_sync_server.Hub.Join.{joined, register_quiet}
use clip_sync_server.Hub.Middle.{All-middle, any_middle, any_none, map_only}

Apart-sym : (c d : Client) → Apart c d → Apart d c
Apart-sym c d (i, n) = (
  λ e. i (sym e),
  ground (arith, same_iff c.device_id d.device_id, same_iff d.device_id c.device_id),
)

AllApart-middle :
    (xs ys : World) (o : Client)
    → AllApart (xs ++ o ∷ ys)
    → All (λ d. Apart d o) xs × All (λ d. Apart d o) ys
AllApart-middle [] ys o (a, rest) =
    (tt, All-mono (Apart o) (λ d. Apart d o) ys (λ d. Apart-sym o d) a)
AllApart-middle (x ∷ xs) ys o (a, rest) =
    let (before, behind) = AllApart-middle xs ys o rest in
    ((All-middle (Apart x) xs ys o a, before), behind)

-- The connection `old` once its socket has failed.
abbrev pub dropped : Client → Client
dropped old = record old { send_closed = true; grace = true; timer = true }

-- The connection `old` once a new one has taken its place.
abbrev pub superseded : Client → Client
superseded old = record old {
  send_closed = true;
  grace = true;
  timer = false;
  replaced = true;
  conn_open = false;
  member = false;
}

-- `unregister` marks the connection and leaves all others.
unregister-middle :
    (xs ys : World) (old : Client)
    → IsValid (xs ++ old ∷ ys)
    → old.replaced ≡ false
    → unregister old.id (xs ++ old ∷ ys) ≡ xs ++ dropped old ∷ ys
unfolding unregister leave_one
unregister-middle xs ys old v r =
    let (before, behind) = AllApart-middle xs ys old v.apart in
    map_only (leave_one old.id) xs ys old
      (All-mono (λ d. Apart d old) (λ d. leave_one old.id d ≡ d) xs (λ d a. other d a) before)
      (All-mono (λ d. Apart d old) (λ d. leave_one old.id d ≡ d) ys (λ d a. other d a) behind)
    ∙ ap (λ d. xs ++ d ∷ ys) marked
  where
    other : (d : Client) → Apart d old → leave_one old.id d ≡ d
    other d (i, n) = ground arith

    marked : leave_one old.id old ≡ dropped old
    marked = ground arith

-- The new connection is of the same device as `old`.
pub record Returns (old c : Client) : Type 0 where
  pub same_user : c.user_id ≡ old.user_id
  pub same_device : c.device_id ≡ old.device_id

-- `register` retires the dropped connection and leaves all others.
retire-middle :
    (xs ys : World) (old c : Client)
    → IsValid (xs ++ old ∷ ys)
    → Returns old c
    → old.member ≡ true
    → map (retire c) (xs ++ dropped old ∷ ys) ≡ xs ++ superseded old ∷ ys
unfolding retire is_stale
retire-middle xs ys old c v r m =
    let (before, behind) = AllApart-middle xs ys old v.apart in
    map_only (retire c) xs ys (dropped old)
      (All-mono (λ d. Apart d old) (λ d. retire c d ≡ d) xs (λ d a. other d a) before)
      (All-mono (λ d. Apart d old) (λ d. retire c d ≡ d) ys (λ d a. other d a) behind)
    ∙ ap (λ d. xs ++ d ∷ ys) replaced
  where
    other : (d : Client) → Apart d old → retire c d ≡ d
    other d (i, n) = ground (arith, r.same_user, r.same_device)

    replaced : retire c (dropped old) ≡ superseded old
    replaced = ground (arith, r.same_user, r.same_device, same_refl old.device_id)

replaces_grace-dropped :
    (xs ys : World) (old c : Client)
    → Returns old c
    → old.member ≡ true
    → replaces_grace c (xs ++ dropped old ∷ ys) ≡ true
unfolding replaces_grace is_stale
replaces_grace-dropped xs ys old c r m =
    any_middle (λ d. is_stale c d && d.grace) xs ys (dropped old)
      (ground (arith, r.same_user, r.same_device, same_refl old.device_id))

leave_one-id : (id : ℕ) (d c : Client) → d.id ≢ c.id → (leave_one id d).id ≢ c.id
unfolding leave_one
leave_one-id id d c h = ground arith

unregister-IsNew : (id : ℕ) (c : Client) (w : World) → IsNew c w → IsNew c (unregister id w)
unfolding unregister
unregister-IsNew id c w n =
    All-map (λ d. d.id ≢ c.id) (λ d. d.id ≢ c.id) (leave_one id) w (λ d. leave_one-id id d c) n

-- The world after the device of `old` has come back as `c`, before the presence frame.
abbrev pub rejoined : World → World → Client → Client → World
rejoined xs ys old c = (xs ++ superseded old ∷ ys) ++ joined c ∷ []

-- A member of the set fails and its device comes back within the grace: every other connection is
-- left as it was, so nobody hears of it; the old connection is out of the set, with its timer
-- stopped; the new one is offered one frame, with the list of devices.
pub quiet_reconnect :
    (now : ℕ) (xs ys : World) (old c : Client)
    → IsValid (xs ++ old ∷ ys)
    → old.member ≡ true
    → Returns old c
    → IsFresh c
    → IsNew c (xs ++ old ∷ ys)
    → register now c (unregister old.id (xs ++ old ∷ ys))
      ≡ some (
          (xs ++ superseded old ∷ ys)
          ++ enqueue (presence_for now (group c.user_id (rejoined xs ys old c)) c.id) (joined c)
            ∷ [])
unfolding enter
quiet_reconnect now xs ys old c v m r f n =
    let intact : old.replaced ≡ false = not_replaced (All-middle IsSound xs ys old v.sound) in
    let gone = unregister-middle xs ys old v intact in
    let v' = subst IsValid gone (unregister-IsValid old.id (xs ++ old ∷ ys) v) in
    let n' = subst (IsNew c) gone (unregister-IsNew old.id c (xs ++ old ∷ ys) n) in
    rw gone (
      register_quiet now c (xs ++ dropped old ∷ ys) v' f n' (replaces_grace-dropped xs ys old c r m)
      ∙ ap
          (λ w. some (
            w
            ++ enqueue (presence_for now (group c.user_id (w ++ joined c ∷ [])) c.id) (joined c)
              ∷ []))
          (retire-middle xs ys old c v r m))
  where
    not_replaced : IsSound old → old.replaced ≡ false
    not_replaced s = ground arith

-- A grace timer that fires late, when every connection with its identity has been replaced, does
-- nothing.
pub late_timer :
    (now u id : ℕ) (w : World)
    → All (λ d. d.id ≡ id → d.replaced ≡ true) w
    → finalize_grace now u id w ≡ some w
unfolding finalize_grace
late_timer now u id w h = rw (any_none (lapses id) w (All-mono _ _ w passed h))
  where
    passed : (d : Client) → (d.id ≡ id → d.replaced ≡ true) → lapses id d ≡ false
    passed d h = ground (arith, h)

-- The connection `old` once its grace has run out.
abbrev pub departed : Client → Client
departed old = record old { send_closed = true; grace = false; timer = false; member = false }

expire-middle :
    (xs ys : World) (old : Client)
    → IsValid (xs ++ old ∷ ys)
    → old.replaced ≡ false
    → expire old.id (xs ++ dropped old ∷ ys) ≡ xs ++ departed old ∷ ys
unfolding expire expire_one
expire-middle xs ys old v r =
    let (before, behind) = AllApart-middle xs ys old v.apart in
    map_only (expire_one old.id) xs ys (dropped old)
      (All-mono (λ d. Apart d old) (λ d. expire_one old.id d ≡ d) xs (λ d a. other d a) before)
      (All-mono (λ d. Apart d old) (λ d. expire_one old.id d ≡ d) ys (λ d a. other d a) behind)
    ∙ ap (λ d. xs ++ d ∷ ys) ended
  where
    other : (d : Client) → Apart d old → expire_one old.id d ≡ d
    other d (i, n) = ground arith

    ended : expire_one old.id (dropped old) ≡ departed old
    ended = ground arith

-- A member of the set fails and nobody comes back before its timer fires: it leaves the set, all
-- other connections stay, and each active one of the user is offered one frame, with the list that
-- is left.
pub departure :
    (now : ℕ) (xs ys : World) (old : Client)
    → IsValid (xs ++ old ∷ ys)
    → old.member ≡ true
    → let left = xs ++ departed old ∷ ys in
      finalize_grace now old.user_id old.id (unregister old.id (xs ++ old ∷ ys))
      ≡ some (map (announced now old.user_id (group old.user_id left)) left)
unfolding finalize_grace
departure now xs ys old v m =
    let intact : old.replaced ≡ false = not_replaced (All-middle IsSound xs ys old v.sound) in
    let gone = unregister-middle xs ys old v intact in
    let ended = expire-middle xs ys old v intact in
    let v' = subst IsValid gone (unregister-IsValid old.id (xs ++ old ∷ ys) v) in
    let v'' = subst IsValid ended (expire-IsValid old.id (xs ++ dropped old ∷ ys) v') in
    rw (gone, any_middle (lapses old.id) xs ys (dropped old) (ground (arith, intact)), ended)
      (broadcast_presence-map now old.user_id (xs ++ departed old ∷ ys) v'')
  where
    not_replaced : IsSound old → old.replaced ≡ false
    not_replaced s = ground arith

-- No later presence list of the user shows the device of a connection that has departed.
departed-hidden :
    (xs ys : World) (old : Client)
    → IsValid (xs ++ old ∷ ys)
    → old.member ≡ true
    → All
        (λ d. same d.device_id old.device_id ≡ false)
        (group old.user_id (xs ++ departed old ∷ ys))
departed-hidden xs ys old v m =
    let (before, behind) = AllApart-middle xs ys old v.apart in
    All-select (in_group old.user_id) (λ d. same d.device_id old.device_id ≡ false)
      (xs ++ departed old ∷ ys)
      (All-append Hidden xs (departed old ∷ ys) (All-mono (λ d. Apart d old) Hidden xs other before)
        (gone, All-mono (λ d. Apart d old) Hidden ys other behind))
  where
    Hidden : Client → Type 0
    Hidden d = in_group old.user_id d ≡ true → same d.device_id old.device_id ≡ false

    other : (d : Client) → Apart d old → Hidden d
    other d (i, n) h = ground arith

    gone : Hidden (departed old)
    gone h = ground arith
