-- ===== src/Auth/CacheLaws.antt =====
-- How the operations on the cache act on the lookups that the service makes.
use clip_sync_server.Base.{◌<◌, Text, arith, false, none, ok, refl, same, some, true, ℕ, ◌≡◌}
use clip_sync_server.Auth.Redis.{Redis, number, plain_token_key, text, token_key, user_token_key}
use clip_sync_server.Auth.Cache.{
  cache_token, current_hash, drop_plain_token, drop_token, lookup_token, store_plain_token,
}

module _ (R : Redis) where
  open R use {State, get, set, del, get-set, get-set_other, get-del, get-del_other}

  pub lookup_token-cache_token :
      (hash : Text) (u ttl : ℕ) (s : State)
      → 0 < ttl
      → (cache_token R hash u ttl s).1 ≡ true
      → lookup_token R hash (cache_token R hash u ttl s).0 ≡ ok (some u)
  unfolding lookup_token cache_token
  lookup_token-cache_token hash u ttl s p h = ground (
    arith,
    get-set (token_key hash) (number u) ttl s,
    get-set_other (token_key hash) (user_token_key u) (text hash) ttl
        (set (token_key hash) (number u) ttl s).0 refl,
  )

  pub lookup_token-cache_token_other :
      (other hash : Text) (u ttl : ℕ) (s : State)
      → same other hash ≡ false
      → lookup_token R other (cache_token R hash u ttl s).0 ≡ lookup_token R other s
  unfolding lookup_token cache_token
  lookup_token-cache_token_other other hash u ttl s h = ground (
    arith,
    get-set_other (token_key other) (token_key hash) (number u) ttl s h,
    get-set_other (token_key other) (user_token_key u) (text hash) ttl
        (set (token_key hash) (number u) ttl s).0 refl,
  )

  pub current_hash-cache_token :
      (hash : Text) (u ttl : ℕ) (s : State)
      → 0 < ttl
      → (cache_token R hash u ttl s).1 ≡ true
      → current_hash R u (cache_token R hash u ttl s).0 ≡ ok (some hash)
  unfolding current_hash cache_token
  current_hash-cache_token hash u ttl s p h =
      ground (
        arith,
        get-set (user_token_key u) (text hash) ttl (set (token_key hash) (number u) ttl s).0,
      )

  pub store_plain_token_keeps :
      (hash token : Text) (u v ttl : ℕ) (s : State)
      → (lookup_token R hash (store_plain_token R u token ttl s).0 ≡ lookup_token R hash s)
        × (current_hash R v (store_plain_token R u token ttl s).0 ≡ current_hash R v s)
  unfolding lookup_token current_hash store_plain_token
  store_plain_token_keeps hash token u v ttl s = ground (
    arith,
    get-set_other (token_key hash) (plain_token_key u) (text token) ttl s refl,
    get-set_other (user_token_key v) (plain_token_key u) (text token) ttl s refl,
  )

  pub lookup_token-drop_token :
      (hash : Text) (u : ℕ) (s : State)
      → (drop_token R hash u s).1 ≡ true
      → lookup_token R hash (drop_token R hash u s).0 ≡ ok none
  unfolding lookup_token drop_token
  lookup_token-drop_token hash u s h = ground (
    arith,
    get-del (token_key hash) s,
    get-del_other (token_key hash) (user_token_key u) (del (token_key hash) s).0 refl,
  )

  pub lookup_token-drop_token_other :
      (other hash : Text) (u : ℕ) (s : State)
      → same other hash ≡ false
      → lookup_token R other (drop_token R hash u s).0 ≡ lookup_token R other s
  unfolding lookup_token drop_token
  lookup_token-drop_token_other other hash u s h = ground (
    arith,
    get-del_other (token_key other) (token_key hash) s h,
    get-del_other (token_key other) (user_token_key u) (del (token_key hash) s).0 refl,
  )

  pub lookup_token-drop_plain_token :
      (hash : Text) (u : ℕ) (s : State)
      → lookup_token R hash (drop_plain_token R u s).0 ≡ lookup_token R hash s
  unfolding lookup_token drop_plain_token
  lookup_token-drop_plain_token hash u s =
      rw (get-del_other (token_key hash) (plain_token_key u) s refl)
