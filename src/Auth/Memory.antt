-- ===== src/Auth/Memory.antt =====
-- store_redis.go, auth_crypto.go: a cache in memory that never fails, and passwords in plain text.
use clip_sync_server.Base.{
  ◌&&◌, ◌==◌, ==_refl, List, Option, Result, Text, [], arith, if◌then◌else◌, length, none, ok, refl,
  same, same_iff, same_refl, some, true, ℕ, ◌∷◌, ◌≡◌,
}
use clip_sync_server.Auth.Service.{AuthConfig, Crypto}
use clip_sync_server.Auth.Redis.{
  Key, Redis, Value, plain_token_key, same_key, token_key, user_token_key,
}

abbrev pub Memory : Type 0
Memory = (Key → Option Value) × (ℕ → List (Text × Text))

pub same_key_refl : (k : Key) → same_key k k ≡ true
same_key_refl (token_key t) = same_refl t
same_key_refl (user_token_key u) = ==_refl u
same_key_refl (plain_token_key u) = ==_refl u

-- The hash of a user without one device, and one field of it.
abbrev pub except : Text → List (Text × Text) → List (Text × Text)
except device [] = []
except device ((d, r) ∷ m) = if same d device then except device m else (d, r) ∷ except device m

abbrev pub held : Text → List (Text × Text) → Option Text
held e [] = none
held e ((d, r) ∷ m) = if same e d then some r else held e m

held-except :
    (e device : Text) (m : List (Text × Text))
    → held e (except device m) ≡ (if same e device then none else held e m)
held-except e device [] = ground arith
held-except e device ((d, r) ∷ m) =
    ground (arith, held-except e device m, same_iff d device, same_iff e d, same_iff e device)

pub field-hset_lem :
    (v u : ℕ) (e device role : Text) (ttl : ℕ) (s : Memory)
    → true ≡ true
    → held e (if v == u then (device, role) ∷ except device (s.1 v) else s.1 v)
      ≡ (if v == u && same e device then some role else held e (s.1 v))
field-hset_lem v u e device role ttl s h = ground (arith, held-except e device (s.1 v))

pub field-hdel_lem :
    (v u : ℕ) (e device : Text) (s : Memory)
    → true ≡ true
    → held e (if v == u then except device (s.1 v) else s.1 v)
      ≡ (if v == u && same e device then none else held e (s.1 v))
field-hdel_lem v u e device s h = ground (arith, held-except e device (s.1 v))

held-none : (e : Text) (m : List (Text × Text)) → length m ≡ 0 → held e m ≡ none
held-none e [] h = refl
held-none e (d ∷ m) h = ground arith

abbrev pub hlen_of : ℕ → Memory → Result (Unit {0}) ℕ
hlen_of u s = ok (length (s.1 u))

pub field-hclear_lem :
    (v u : ℕ) (e : Text) (s : Memory)
    → hlen_of u s ≡ ok 0
    → held e (if v == u then [] else s.1 v) ≡ held e (s.1 v)
field-hclear_lem v u e s h = ground (arith, held-none e (s.1 v))

abbrev pub memory : Redis
memory = record {
  State = Memory;
  get = λ k s. ok (s.0 k);
  set = λ k v ttl s. (((λ j. if same_key j k then some v else s.0 j), s.1), true);
  del = λ k s. (((λ j. if same_key j k then none else s.0 j), s.1), true);
  hset = λ u device role ttl s.
      ((s.0, λ v. if v == u then (device, role) ∷ except device (s.1 v) else s.1 v), true);
  hdel = λ u device s. ((s.0, λ v. if v == u then except device (s.1 v) else s.1 v), true);
  hgetall = λ u s. ok (s.1 u);
  expire = λ u ttl s. (s, true);
  hclear = λ u s. ((s.0, λ v. if v == u then [] else s.1 v), true);
  field = λ v e s. held e (s.1 v);
  field-hset = field-hset_lem;
  field-hdel = field-hdel_lem;
  field-hclear = field-hclear_lem;
  hlen = hlen_of;
  get-set = λ k v ttl s h. rw (same_key_refl k);
  get-set_other = λ j k v ttl s h. rw h;
  get-del = λ k s h. rw (same_key_refl k);
  get-del_other = λ j k s h. rw h;
}

abbrev pub exact : Text → Text
exact t = t

abbrev pub plain_crypto : Crypto
plain_crypto = record { token_hash = exact; verify_password = same; hash_password = some }

abbrev pub config : AuthConfig
config = record { token_ttl_hours = 1; allow_register = true; min_password_len = 1 }
