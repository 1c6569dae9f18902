-- ===== src/Hub/Steps.antt =====
-- Each operation of the hub keeps the invariant and does not panic.
use clip_sync_server.Hub.Conn.{Client, World, Frame, enqueue}
use clip_sync_server.Base.{
  ℕ, Bool, All, Text, ◌≡◌, ◌≢◌, false, if◌then◌else◌, map, arith, true, All-map,
}
use clip_sync_server.Hub.Members.{
  expire_one, unregister, leave_one, retire, expire, send_kick, rename_one, enter, is_stale,
}
use clip_sync_server.Hub.Invariant.{Keeps, IsValid, IsSound, IsValid-append, IsValid-map, Apart}

-- A connection as `wsHandler` builds it, before `register`.
pub record IsFresh (c : Client) : Type 0 where
  pub open_channel : c.send_closed ≡ false
  pub not_replaced : c.replaced ≡ false
  pub not_grace : c.grace ≡ false
  pub no_timer : c.timer ≡ false
  pub outside : c.member ≡ false

-- The pointer is new.
abbrev pub IsNew : Client → World → Type 0
IsNew c w = All (λ d. d.id ≢ c.id) w

retire-Keeps : (c : Client) → Keeps (retire c)
unfolding retire
retire-Keeps c d = ground arith

retire-IsSound : (c d : Client) → IsSound d → IsSound (retire c d)
unfolding retire
retire-IsSound c d s = ground arith

retire-Apart : (c d : Client) → d.id ≢ c.id → Apart (retire c d) (record c { member = true })
unfolding retire is_stale
retire-Apart c d h = ground arith

-- `register` under the lock keeps the invariant.
pub enter-IsValid :
    (c : Client) (w : World) → IsFresh c → IsNew c w → IsValid w → IsValid (enter c w)
unfolding enter
enter-IsValid c w f n v =
    IsValid-append (map (retire c) w) (record c { member = true })
      (IsValid-map (retire c) (retire-Keeps c) (retire-IsSound c) w v) (ground arith)
      (All-map (λ d. d.id ≢ c.id) (λ d. Apart d (record c { member = true })) (retire c) w
        (retire-Apart c) n)

leave_one-Keeps : (id : ℕ) → Keeps (leave_one id)
unfolding leave_one
leave_one-Keeps id d = ground arith

leave_one-IsSound : (id : ℕ) (c : Client) → IsSound c → IsSound (leave_one id c)
unfolding leave_one
leave_one-IsSound id c s = ground arith

pub unregister-IsValid : (id : ℕ) (w : World) → IsValid w → IsValid (unregister id w)
unfolding unregister
unregister-IsValid id w v =
    IsValid-map (leave_one id) (leave_one-Keeps id) (leave_one-IsSound id) w v

expire_one-Keeps : (id : ℕ) → Keeps (expire_one id)
unfolding expire_one
expire_one-Keeps id d = ground arith

expire_one-IsSound : (id : ℕ) (c : Client) → IsSound c → IsSound (expire_one id c)
unfolding expire_one
expire_one-IsSound id c s = ground arith

pub expire-IsValid : (id : ℕ) (w : World) → IsValid w → IsValid (expire id w)
unfolding expire
expire-IsValid id w v =
    IsValid-map (expire_one id) (expire_one-Keeps id) (expire_one-IsSound id) w v

rename_one-Keeps : (u : ℕ) (device name : Text) → Keeps (rename_one u device name)
unfolding rename_one
rename_one-Keeps u device name d = ground arith

rename_one-IsSound :
    (u : ℕ) (device name : Text) (c : Client) → IsSound c → IsSound (rename_one u device name c)
unfolding rename_one
rename_one-IsSound u device name c s = ground arith

pub rename-IsValid :
    (u : ℕ) (device name : Text) (w : World)
    → IsValid w
    → IsValid (map (rename_one u device name) w)
rename-IsValid u device name w v =
    IsValid-map (rename_one u device name) (rename_one-Keeps u device name)
      (rename_one-IsSound u device name) w v

-- Queueing a frame for the connections that pass a test.
abbrev pub feed : (Client → Bool) → (Client → Frame) → Client → Client
feed p m c = if p c then enqueue (m c) c else c

feed-Keeps : (p : Client → Bool) (m : Client → Frame) → Keeps (feed p m)
feed-Keeps p m d = ground arith

feed-IsSound :
    (p : Client → Bool) (m : Client → Frame) (c : Client) → IsSound c → IsSound (feed p m c)
feed-IsSound p m c s = ground arith

pub feed-IsValid :
    (p : Client → Bool) (m : Client → Frame) (w : World) → IsValid w → IsValid (map (feed p m) w)
feed-IsValid p m w v = IsValid-map (feed p m) (feed-Keeps p m) (feed-IsSound p m) w v

kick-Keeps :
    (p : Client → Bool) (now : ℕ) (reason : Text)
    → Keeps (λ c. if p c then send_kick now reason c else c)
unfolding send_kick
kick-Keeps p now reason d = ground arith

kick-IsSound :
    (p : Client → Bool) (now : ℕ) (reason : Text) (c : Client)
    → IsSound c
    → IsSound (if p c then send_kick now reason c else c)
unfolding send_kick
kick-IsSound p now reason c s = ground arith

pub kick-IsValid :
    (p : Client → Bool) (now : ℕ) (reason : Text) (w : World)
    → IsValid w
    → IsValid (map (λ c. if p c then send_kick now reason c else c) w)
kick-IsValid p now reason w v =
    IsValid-map _ (kick-Keeps p now reason) (kick-IsSound p now reason) w v
