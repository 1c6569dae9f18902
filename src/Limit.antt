-- ===== src/Limit.antt =====
-- auth_http.go: the login limiter, a sliding window of one minute for each address.
pub mod Window
mod Tests
use clip_sync_server.Base.{
  ◌+◌, ◌++◌, Bool, List, Text, [], if◌then◌else◌, false, leb, length, ltb, same, select, true, ℕ,
  ◌∷◌,
}

-- time.Minute, in the unit of the clock (nanoseconds).
abbrev pub minute : ℕ
minute = 60_000_000_000

-- `l.attempts` for all addresses; an address that is not in the map has no attempts.
pub record LoginLimiter : Type 0 where
  pub attempts : Text → List ℕ
  pub limit : ℕ

-- time.Second.
abbrev pub second : ℕ
second = 1_000_000_000

-- `t.After(cutoff)` for `cutoff` one minute before `now`.
abbrev pub is_recent : ℕ → ℕ → Bool
is_recent now t = ltb now (t + minute)

abbrev pub put : Text → List ℕ → (Text → List ℕ) → Text → List ℕ
put ip ts m j = if same j ip then ts else m j

-- `l.allow(ip)` at the time `now`. A limit of zero (or less) allows everything.
unfoldable pub allow : ℕ → Text → LoginLimiter → LoginLimiter × Bool
allow now ip l =
    if leb l.limit 0
    then (l, true)
    else let kept = select (is_recent now) (l.attempts ip) in
      if leb l.limit (length kept)
      then (record l { attempts = put ip kept l.attempts }, false)
      else (record l { attempts = put ip (kept ++ now ∷ []) l.attempts }, true)
