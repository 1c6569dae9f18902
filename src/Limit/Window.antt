-- ===== src/Limit/Window.antt =====
-- How many attempts the limiter lets through.
use clip_sync_server.Base.{
  ◌+◌, ◌++◌, ◌<◌, List, Text, [], arith, count_if, if◌then◌else◌, length, refl, same_refl, select,
  ℕ, ◌∷◌, ◌≡◌, ◌≤◌, All, false, ltb, same,
}
use clip_sync_server.Limit.{LoginLimiter, allow, is_recent, put}

-- The attempts of one address at the given times, one after another; `allowed` are the times that
-- were let through, oldest first.
unfoldable pub serve : Text → List ℕ → LoginLimiter → List ℕ → LoginLimiter × List ℕ
serve ip [] l allowed = (l, allowed)
serve ip (now ∷ later) l allowed =
    let next = allow now ip l in
    serve ip later next.0 (if next.1 then allowed ++ now ∷ [] else allowed)

-- Times that do not fall, from `t` on.
abbrev pub From : ℕ → List ℕ → Type 0
From t [] = Unit {0}
From t (x ∷ xs) = (t ≤ x) × From x xs

-- The attempts in the minute before `now`.
abbrev pub recent : ℕ → List ℕ → ℕ
recent now ts = count_if (is_recent now) ts

recent-append :
    (now t : ℕ) (ts : List ℕ) → recent now (ts ++ t ∷ []) ≡ recent now ts + recent now (t ∷ [])
recent-append now t [] = omega arith
recent-append now t (s ∷ ts) = omega (arith, recent-append now t ts)

length-select : (now : ℕ) (ts : List ℕ) → length (select (is_recent now) ts) ≡ recent now ts
length-select now [] = refl
length-select now (t ∷ ts) = ground (arith, length-select now ts)

-- What was old stays old.
recent-select :
    (now later : ℕ) (ts : List ℕ)
    → now ≤ later
    → recent later (select (is_recent now) ts) ≡ recent later ts
recent-select now later [] h = refl
recent-select now later (t ∷ ts) h = ground (arith, recent-select now later ts h)

recent-anti : (now later : ℕ) (ts : List ℕ) → now ≤ later → recent later ts ≤ recent now ts
recent-anti now later [] h = omega arith
recent-anti now later (t ∷ ts) h = ground (arith, recent-anti now later ts h)

-- The limiter knows of the attempts that count from the time `from` on, and they are within the
-- limit.
record Tracks (ip : Text) (from : ℕ) (l : LoginLimiter) (allowed : List ℕ) : Type 0 where
  known : (t : ℕ) → from ≤ t → recent t (l.attempts ip) ≡ recent t allowed
  within : (t : ℕ) → from ≤ t → recent t allowed ≤ l.limit

put_self : (ip : Text) (ts : List ℕ) (m : Text → List ℕ) → put ip ts m ip ≡ ts
put_self ip ts m = rw (same_refl ip)

allow-Tracks :
    (ip : Text) (from now : ℕ) (l : LoginLimiter) (allowed : List ℕ)
    → 0 < l.limit
    → from ≤ now
    → Tracks ip from l allowed
    → Tracks ip now (allow now ip l).0 (if (allow now ip l).1 then allowed ++ now ∷ [] else allowed)
unfolding allow
allow-Tracks ip from now l allowed p h k = record {
  known = λ t g. ground (
    arith,
    same_refl ip,
    length-select now (l.attempts ip),
    recent-select now t (l.attempts ip) g,
    recent-append t now (select (is_recent now) (l.attempts ip)),
    recent-append t now allowed,
    recent-anti now t allowed g,
    k.known now h,
    k.known t,
    k.within now h,
    k.within t,
  );
  within = λ t g. ground (
    arith,
    same_refl ip,
    length-select now (l.attempts ip),
    recent-select now t (l.attempts ip) g,
    recent-append t now (select (is_recent now) (l.attempts ip)),
    recent-append t now allowed,
    recent-anti now t allowed g,
    k.known now h,
    k.known t,
    k.within now h,
    k.within t,
  );
}

allow-limit : (now : ℕ) (ip : Text) (l : LoginLimiter) → (allow now ip l).0.limit ≡ l.limit
unfolding allow
allow-limit now ip l = ground arith

serve-Tracks :
    (ip : Text) (from : ℕ) (times : List ℕ) (l : LoginLimiter) (allowed : List ℕ)
    → 0 < l.limit
    → From from times
    → Tracks ip from l allowed
    → (t : ℕ) → from ≤ t
    → All (λ x. x ≤ t) times
    → recent t (serve ip times l allowed).1 ≤ l.limit
unfolding serve
serve-Tracks ip from [] l allowed p f k t g a = k.within t g
serve-Tracks ip from (now ∷ later) l allowed p (h, f) k t g (b, a) =
    let next = allow now ip l in
    let same_limit = allow-limit now ip l in
    rw same_limit at (
      serve-Tracks ip now later next.0 (if next.1 then allowed ++ now ∷ [] else allowed)
        (rw same_limit p) f (allow-Tracks ip from now l allowed p h k) t b a)

-- A limiter with a positive limit lets at most that many attempts of an address through in any
-- minute, however many are made: at every moment from the last attempt on, no more than `limit`
-- of the allowed attempts are less than a minute old.
pub serve_bounded :
    (ip : Text) (times : List ℕ) (l : LoginLimiter) (t : ℕ)
    → 0 < l.limit
    → l.attempts ip ≡ []
    → From 0 times
    → All (λ x. x ≤ t) times
    → recent t (serve ip times l []).1 ≤ l.limit
serve_bounded ip times l t p e f a = serve-Tracks ip 0 times l [] p f start t (omega arith) a
  where
    start : Tracks ip 0 l []
    start = record { known = λ s g. rw e; within = λ s g. omega arith }

-- With a positive limit an attempt is refused exactly if the limit is used up by the attempts of
-- that address in the last minute; the attempts of every other address stay as they were.
pub allow_iff :
    (now : ℕ) (ip j : Text) (l : LoginLimiter)
    → 0 < l.limit
    → same j ip ≡ false
    → ((allow now ip l).1 ≡ ltb (recent now (l.attempts ip)) l.limit)
      × ((allow now ip l).0.attempts j ≡ l.attempts j)
unfolding allow
allow_iff now ip j l h n = (ground (arith, length-select now (l.attempts ip)), ground arith)
