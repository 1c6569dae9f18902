-- ===== src/SmsCache/Tests/Sequence.antt =====
-- store_sms_cache.go: three messages of one user and one of another, of which two are kept.
use clip_sync_server.SmsCache.Tests.Ordered.{Sets, sets}
use clip_sync_server.Base.{◌*◌, List, [], arith, codes, map, refl, same, some, take, ◌∷◌, ◌≡◌}
use clip_sync_server.SmsCache.History.{Call, IsTimely, caches, history, newest, reads}
use clip_sync_server.Limit.{minute}
use clip_sync_server.Sms.{or_default}
use clip_sync_server.SmsCache.{recent_sms_cipher, window}
use clip_sync_server.SmsCache.History.Refines.{run, recent_sms_cipher-newest}

abbrev nothing : Sets
nothing u = ([], tt)

abbrev calls : List Call
calls =
    caches 7 1000 (codes "a")
    ∷ caches 8 1000 (codes "b")
    ∷ reads 7 1001 5
    ∷ caches 7 1002 (codes "c")
    ∷ caches 7 1900 (codes "d")
    ∷ []

calls-IsTimely : IsTimely 7 0 [] calls
unfolding same
calls-IsTimely = (
  omega arith,
  (λ m. tt),
  (
    omega arith,
    (λ m. ((ground arith, refl), tt)),
    (
      omega arith,
      (
        omega arith,
        (λ m. ((omega arith, refl), tt)),
        (omega arith, (λ m. ((omega arith, refl), ((omega arith, refl), tt))), tt),
      ),
    ),
  ),
)

-- After a quarter of an hour only the last one is in the window of ten minutes.
newest_test :
    newest 2 1900 (10 * minute) (history 7 calls [])
    ≡ record { score = 1900; member = codes "d" } ∷ []
unfolding window
newest_test = refl

recent_sms_cipher-newest_example :
    (recent_sms_cipher sets 7 1900 (10 * minute) 5 (run sets (10 * minute) 2 calls nothing)).1
    ≡ some (
        map
          (λ e. e.member)
          (take (or_default 5 20) (newest 2 1900 (10 * minute) (history 7 calls []))))
recent_sms_cipher-newest_example =
    recent_sms_cipher-newest sets (10 * minute) 2 (λ before after. refl) (omega arith) (omega arith)
      7 calls nothing 1900 5 refl calls-IsTimely (omega arith)
