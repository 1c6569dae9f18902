-- ===== src/Auth/Cache.antt =====
-- store_redis.go: the cache of tokens and the register of devices that are online.
use clip_sync_server.Base.{
  ◌&&◌, ◌==◌, Bool, Option, Result, Text, if◌then◌else◌, err, none, ok, some, true, ℕ, List, false,
  not,
}
use clip_sync_server.Auth.Store.{AuthError, redis_failed}
use clip_sync_server.Auth.Redis.{
  Redis, Value, number, plain_token_key, text, token_key, user_token_key,
}

module _ (R : Redis) where
  open R use {State, get, set, del, hset, hdel, hlen, hgetall, expire, hclear}

  -- Both writes of the pipeline; `ttl` is not written if it is zero.
  unfoldable pub cache_token : Text → ℕ → ℕ → State → State × Bool
  cache_token hash u ttl s =
      if ttl == 0
      then (s, true)
      else let first_set = set (token_key hash) (number u) ttl s in
        let second_set = set (user_token_key u) (text hash) ttl first_set.0 in
        (second_set.0, first_set.1 && second_set.1)

  abbrev as_user : Result (Unit {0}) (Option Value) → Result AuthError (Option ℕ)
  as_user (ok none) = ok none
  as_user (ok (some (number u))) = ok (some u)
  as_user (ok (some (text t))) = err redis_failed
  as_user (err e) = err redis_failed

  -- `none` is a miss.
  unfoldable pub lookup_token : Text → State → Result AuthError (Option ℕ)
  lookup_token hash s = as_user (get (token_key hash) s)

  -- DEL of both keys.
  unfoldable pub drop_token : Text → ℕ → State → State × Bool
  drop_token hash u s =
      let first_del = del (token_key hash) s in
      let second_del = del (user_token_key u) first_del.0 in
      (second_del.0, first_del.1 && second_del.1)

  unfoldable pub store_plain_token : ℕ → Text → ℕ → State → State × Bool
  store_plain_token u token ttl s =
      if ttl == 0 then (s, true) else set (plain_token_key u) (text token) ttl s

  abbrev pub as_text : Result (Unit {0}) (Option Value) → Result AuthError (Option Text)
  as_text (ok none) = ok none
  as_text (ok (some (text t))) = ok (some t)
  as_text (ok (some (number n))) = err redis_failed
  as_text (err e) = err redis_failed

  unfoldable pub load_plain_token : ℕ → State → Result AuthError (Option Text)
  load_plain_token u s = as_text (get (plain_token_key u) s)

  unfoldable pub drop_plain_token : ℕ → State → State × Bool
  drop_plain_token u s = del (plain_token_key u) s

  -- `userTokenKey(u)`, as `InvalidateSessions` reads it.
  unfoldable pub current_hash : ℕ → State → Result AuthError (Option Text)
  current_hash u s = as_text (get (user_token_key u) s)

  unfoldable pub mark_online : ℕ → Text → Text → ℕ → State → State × Bool
  mark_online u device role ttl s = hset u device role ttl s

  unfoldable pub touch_online : ℕ → ℕ → State → State × Bool
  touch_online u ttl s = expire u ttl s

  -- The key of an empty hash is deleted.
  abbrev pub clear_if_empty : ℕ → State → Result (Unit {0}) ℕ → State
  clear_if_empty u s (err e) = s
  clear_if_empty u s (ok n) = if n == 0 then (hclear u s).0 else s

  unfoldable pub mark_offline : ℕ → Text → State → State × Bool
  mark_offline u device s =
      let removed = hdel u device s in
      if not removed.1
      then (removed.0, false)
      else (clear_if_empty u removed.0 (hlen u removed.0), true)

  abbrev as_devices : Result (Unit {0}) (List (Text × Text)) → Result AuthError (List (Text × Text))
  as_devices (ok m) = ok m
  as_devices (err e) = err redis_failed

  unfoldable pub online_devices_of : ℕ → State → Result AuthError (List (Text × Text))
  online_devices_of u s = as_devices (hgetall u s)

  abbrev as_count : Result (Unit {0}) ℕ → Result AuthError ℕ
  as_count (ok n) = ok n
  as_count (err e) = err redis_failed

  unfoldable pub online_count : ℕ → State → Result AuthError ℕ
  online_count u s = as_count (hlen u s)
