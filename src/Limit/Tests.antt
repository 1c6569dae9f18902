-- ===== src/Limit/Tests.antt =====
-- auth_http.go, the login limiter: tests, and the theorems at a limit of two.
use clip_sync_server.Base.{List, Text, [], arith, codes, refl, same, ℕ, ◌∷◌, ◌≡◌, ◌≤◌}
use clip_sync_server.Limit.{LoginLimiter, allow}
use clip_sync_server.Limit.Window.{recent, serve, serve_bounded}

abbrev home : Text
home = codes "10.0.0.1"

abbrev two_a_minute : LoginLimiter
two_a_minute = record { limit = 2; attempts = λ ip. [] }

abbrev knocks : List ℕ
knocks = 0 ∷ 1000000000 ∷ 2000000000 ∷ 61000000000 ∷ []

serve_test : (serve home knocks two_a_minute []).1 ≡ 0 ∷ 1000000000 ∷ 61000000000 ∷ []
unfolding serve allow same
serve_test = refl

serve_bounded_example : recent 61000000000 (serve home knocks two_a_minute []).1 ≤ 2
serve_bounded_example =
    serve_bounded home knocks two_a_minute 61000000000 (omega arith) refl (ground arith)
      (ground arith)
