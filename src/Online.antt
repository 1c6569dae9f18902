-- ===== src/Online.antt =====
-- main.go: the register of devices online in Redis beside the hub, `wsHandler` from the upgrade to
-- its deferred function, and `keepOnline`. Each function is one step; other goroutines run between.
pub mod Race
mod Tests
use clip_sync_server.Base.{
  ◌&&◌, ◌/◌, ◌==◌, Bool, Text, any, if◌then◌else◌, false, ltb, not, true, ℕ, ◌*◌,
}
use clip_sync_server.Hub.Conn.{Client, World, presence}
use clip_sync_server.Auth.Redis.{Redis}
use clip_sync_server.Hub.Members.{enter, register, unregister}
use clip_sync_server.Hub.Reach.{leaves}
use clip_sync_server.Auth.Cache.{mark_offline, mark_online}

-- redis.online_ttl_sec in seconds, zero for a number that is not positive.
unfoldable pub online_ttl : ℕ → ℕ
online_ttl configured = if ltb 0 configured then configured else 90

-- The period of `keepOnline`, in nanoseconds, for a TTL in seconds.
unfoldable pub keep_interval : ℕ → ℕ
keep_interval ttl =
    let third = ttl * 1000000000 / 3 in if ltb third 1000000000 then 1000000000 else third

-- The connection `id` has been replaced.
abbrev pub is_replaced : ℕ → World → Bool
is_replaced id w = any (λ d. d.id == id && d.replaced) w

-- The connection `id` is in its set and not in its grace.
abbrev pub is_alive : ℕ → World → Bool
is_alive id w = any (λ d. d.id == id && (d.member && not d.grace)) w

module _ (R : Redis) where
  pub record Site : Type 0 where
    pub world : World
    pub cache : R.State

  -- `MarkOnline` of the handshake; its failure is passed over.
  unfoldable pub sign_on : ℕ → Client → Site → Site
  sign_on ttl c s = record s { cache = (mark_online R c.user_id c.device_id c.role ttl s.cache).0 }

  -- The part of `register` under the lock; the presence frames that follow do not matter here.
  unfoldable pub join_hub : Client → Site → Site
  join_hub c s = record s { world = enter c s.world }

  unfoldable pub leave_hub : ℕ → Site → Site
  leave_hub id s = record s { world = unregister id s.world }

  -- The deferred function: a connection that has been replaced leaves the register alone.
  unfoldable pub sign_off : ℕ → ℕ → Text → Site → Site
  sign_off id u device s =
      if is_replaced id s.world then s else record s { cache = (mark_offline R u device s.cache).0 }

  -- One tick of `keepOnline`, and whether the loop goes on.
  unfoldable pub keep_online : ℕ → Client → Site → Site × Bool
  keep_online ttl c s =
      if not (is_alive c.id s.world)
      then (s, false)
      else (record s { cache = (mark_online R c.user_id c.device_id c.role ttl s.cache).0 }, true)
