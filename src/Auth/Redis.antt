-- ===== src/Auth/Redis.antt =====
-- What the program relies on of Redis and of its client: commands on keys, each of which may fail.
-- Time and expiry are the server's: a read answers for the moment at which it is made.
use clip_sync_server.Base.{
  List, if◌then◌else◌, ◌&&◌, ◌==◌, Bool, Option, Result, Text, false, none, ok, same, some, true, ℕ,
  ◌≡◌,
}

-- The keys that `tokenKey`, `userTokenKey` and `plainTokenKey` build, which have distinct prefixes.
pub data Key : Type 0 where
  token_key : Text → Key
  user_token_key : ℕ → Key
  plain_token_key : ℕ → Key

abbrev pub same_key : Key → Key → Bool
same_key (token_key a) (token_key b) = same a b
same_key (user_token_key u) (user_token_key v) = u == v
same_key (plain_token_key u) (plain_token_key v) = u == v
same_key _ _ = false

pub data Value : Type 0 where
  number : ℕ → Value
  text : Text → Value

-- A command that writes gives the state after it and whether it succeeded. The laws are those of
-- the commands SET, GET and DEL with a TTL that has not run out, and of HSET with EXPIRE, HDEL,
-- HLEN and DEL on the hash of the devices of a user who are online. `field` is what that hash
-- holds.
pub record Redis : Type 1 where
  pub State : Type 0
  pub get : Key → State → Result (Unit {0}) (Option Value)
  pub set : Key → Value → ℕ → State → State × Bool
  pub del : Key → State → State × Bool
  pub hset : ℕ → Text → Text → ℕ → State → State × Bool
  pub hdel : ℕ → Text → State → State × Bool
  pub hlen : ℕ → State → Result (Unit {0}) ℕ
  pub hgetall : ℕ → State → Result (Unit {0}) (List (Text × Text))
  pub expire : ℕ → ℕ → State → State × Bool
  pub hclear : ℕ → State → State × Bool
  pub field : ℕ → Text → State → Option Text
  pub get-set :
      (k : Key) (v : Value) (ttl : ℕ) (s : State)
      → (set k v ttl s).1 ≡ true
      → get k (set k v ttl s).0 ≡ ok (some v)
  pub get-set_other :
      (j k : Key) (v : Value) (ttl : ℕ) (s : State)
      → same_key j k ≡ false
      → get j (set k v ttl s).0 ≡ get j s
  pub get-del : (k : Key) (s : State) → (del k s).1 ≡ true → get k (del k s).0 ≡ ok none
  pub get-del_other : (j k : Key) (s : State) → same_key j k ≡ false → get j (del k s).0 ≡ get j s
  pub field-hset :
      (v u : ℕ) (e device role : Text) (ttl : ℕ) (s : State)
      → (hset u device role ttl s).1 ≡ true
      → field v e (hset u device role ttl s).0
        ≡ (if v == u && same e device then some role else field v e s)
  pub field-hdel :
      (v u : ℕ) (e device : Text) (s : State)
      → (hdel u device s).1 ≡ true
      → field v e (hdel u device s).0 ≡ (if v == u && same e device then none else field v e s)
  pub field-hclear :
      (v u : ℕ) (e : Text) (s : State) → hlen u s ≡ ok 0 → field v e (hclear u s).0 ≡ field v e s
