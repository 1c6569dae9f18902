-- ===== src/SmsCache.antt =====
-- store_sms_cache.go, and `cacheSMSCipherForUser` of main.go: the encrypted short messages of each
-- user in a sorted set of Redis. Redis and encoding/json are parameters. A number or a duration
-- that is not positive is zero here; durations are in nanoseconds, scores in seconds.
pub mod Window
pub mod Newest
pub mod Answer
pub mod History
mod Tests
use clip_sync_server.Base.{
  ◌&&◌, ◌*◌, ◌+◌, ◌-◌, ◌/◌, ◌<◌, ◌==◌, All, Bool, List, Option, Text, [], any, if◌then◌else◌, false,
  leb, ltb, map, none, not, same, select, some, take, true, ◌||◌, ℕ, ◌∷◌, ◌≡◌, ◌≤◌,
}
use clip_sync_server.Sms.{CachedSms, PublicApiConfig, or_default}
use clip_sync_server.Inbound.{Message}
use clip_sync_server.Text.{after, trim_space}
use clip_sync_server.Limit.{minute, second}
use clip_sync_server.Auth.Redis.{number}

pub record Entry : Type 0 where
  pub score : ℕ
  pub member : Text

abbrev pub IsDescending : List Entry → Type 0
IsDescending [] = Unit
IsDescending (e ∷ es) = All (λ d. d.score ≤ e.score) es × IsDescending es

-- The commands on the sorted set of a user, one set for each. `view` lists a set as ZREVRANGE 0 -1
-- does. `zremrangebyscore u hi` removes the scores from 0 to `hi`, `zremrangebyrank u n` the ranks
-- from 0 to `-n - 1`, and `zrevrange u n` reads the ranks from 0 to `n - 1`. `exec before after` is
-- the end of a pipeline between MULTI and EXEC, and whether it succeeds.
pub record SortedSets : Type 1 where
  pub State : Type 0
  pub view : ℕ → State → List Entry
  pub zadd : ℕ → Entry → State → State
  pub zremrangebyscore : ℕ → ℕ → State → State
  pub zremrangebyrank : ℕ → ℕ → State → State
  pub expire : ℕ → ℕ → State → State
  pub zrevrange : ℕ → ℕ → State → List Text
  pub exec : State → State → State × Bool
  pub view-IsDescending : (u : ℕ) (s : State) → IsDescending (view u s)
  pub any-zadd :
      (p : Entry → Bool) (u : ℕ) (e : Entry) (s : State)
      → any p (view u (zadd u e s))
        ≡ (p e || any (λ d. p d && not (same d.member e.member)) (view u s))
  pub view-zadd_other :
      (v u : ℕ) (e : Entry) (s : State) → (v == u) ≡ false → view v (zadd u e s) ≡ view v s
  pub view-zadd_newest :
      (u : ℕ) (e : Entry) (s : State)
      → All (λ d. d.score < e.score) (view u s)
      → view u (zadd u e s) ≡ e ∷ select (λ d. not (same d.member e.member)) (view u s)
  pub view-zremrangebyscore :
      (v u hi : ℕ) (s : State)
      → view v (zremrangebyscore u hi s)
        ≡ (if v == u then select (λ e. ltb hi e.score) (view v s) else view v s)
  pub view-zremrangebyrank :
      (v u n : ℕ) (s : State)
      → view v (zremrangebyrank u n s) ≡ (if v == u then take n (view v s) else view v s)
  pub view-expire : (v u ttl : ℕ) (s : State) → 0 < ttl → view v (expire u ttl s) ≡ view v s
  pub zrevrange-view :
      (u n : ℕ) (s : State) → zrevrange u n s ≡ map (λ e. e.member) (take n (view u s))
  pub exec-done :
      (before after : State) → (exec before after).1 ≡ true → (exec before after).0 ≡ after

-- `ttlSec`: the window, in seconds.
unfoldable pub window : ℕ → ℕ
window ttl = let sec = ttl / second in if leb sec 0 then 600 else sec

module _ (Z : SortedSets) where
  open Z use {State, zadd, zremrangebyscore, zremrangebyrank, expire, zrevrange, exec}

  -- ZREMRANGEBYSCORE from 0 to the end of the window; a range to a negative number is empty.
  unfoldable pub drop_old : ℕ → ℕ → ℕ → State → State
  drop_old u now ttl s = if ltb now (window ttl) then s else zremrangebyscore u (now - window ttl) s

  abbrev pub write_sms : ℕ → ℕ → ℕ → ℕ → Option Text → State → State × Bool
  write_sms u now ttl max_items none s = (s, false)
  write_sms u now ttl max_items (some body) s = exec s (
      expire u (ttl + minute) (
        zremrangebyrank u max_items
          (drop_old u now ttl (zadd u (record { score = now; member = body }) s))))

  -- `CacheSMSCipher` at the time `now`, of a message that json.Marshal makes `body`.
  unfoldable pub cache_sms_cipher : ℕ → ℕ → Option Text → ℕ → ℕ → State → State × Bool
  cache_sms_cipher u now body ttl max_items s =
      if leb ttl 0 || leb max_items 0 then (s, true) else write_sms u now ttl max_items body s

  -- `RecentSMSCipher`; `none` is an error.
  unfoldable pub recent_sms_cipher : ℕ → ℕ → ℕ → ℕ → State → State × Option (List Text)
  recent_sms_cipher u now ttl limit s =
      let trimmed = drop_old u now ttl s in
      let (s', done) = exec s trimmed in
      (s', if done then some (zrevrange u (or_default limit 20) trimmed) else none)

  -- `meta` is json.Unmarshal of the two numbers beside the envelope, empty where there is none.
  unfoldable pub sms_of : (List ℕ → Text × Text) → Text → ℕ → Message → CachedSms
  sms_of meta from_device now msg =
      let (sender, receiver) = meta msg.payload in
      record {
        id = msg.id;
        from_device = from_device;
        type = msg.type;
        ts = msg.ts;
        received_at = now;
        sender = trim_space sender;
        receiver = trim_space receiver;
        payload = msg.payload;
      }

  -- `cacheSMSCipherForUser`. The error is passed over.
  unfoldable pub cache_sms_cipher_for_user :
      (CachedSms → Option Text)
      → (List ℕ → Text × Text)
      → PublicApiConfig
      → ℕ
      → Text
      → ℕ
      → Message
      → State
      → State
  cache_sms_cipher_for_user encode meta cfg u from_device now msg s =
      if not cfg.enabled
      then s
      else (cache_sms_cipher u now (encode (sms_of meta from_device now msg))
          (or_default cfg.cache_ttl (10 * minute)) (or_default cfg.max_items 20) s).0

  abbrev decoded : (Text → Option CachedSms) → Option (List Text) → Option (List (Option CachedSms))
  decoded decode none = none
  decoded decode (some members) = some (map decode members)

  -- What the query reads of the cache at the time `now`.
  unfoldable pub recent_sms :
      (Text → Option CachedSms) → ℕ → State → ℕ → ℕ → ℕ → Option (List (Option CachedSms))
  recent_sms decode now s u ttl limit = decoded decode (recent_sms_cipher u now ttl limit s).1
