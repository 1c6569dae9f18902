-- ===== src/SmsCache/History/Refines.antt =====
-- store_sms_cache.go: the sorted set refines the newest messages of the history.
use clip_sync_server.Base.{
  ◌-◌, ◌<◌, ◌==◌, ==_refl, All, All-mono, All-of, Bool-cases, List, Text, [], ap, arith, false, inl,
  inr, leb, ltb, map, not, same, select, some, sym, take, true, ◌||◌, ℕ, ◌∙◌, ◌∷◌, ◌≡◌, ◌≤◌,
  take-nil,
}
use clip_sync_server.SmsCache.History.{
  All-newest, Call, IsTimely, caches, reads, in_window, history, last_call, newest, now_in_window,
  select-newest, select_every, select_cong, take_again,
}
use clip_sync_server.SmsCache.{
  Entry, IsDescending, SortedSets, cache_sms_cipher, drop_old, recent_sms_cipher, window,
}
use clip_sync_server.SmsCache.Window.{drop_old_other, written_other, written_view}
use clip_sync_server.Sms.{or_default}

module _ (Z : SortedSets) (ttl max_items : ℕ) where
  open Z use {State, view, exec}

  unfoldable pub run : List Call → State → State
  run [] s = s
  run (caches v now body ∷ calls) s =
      run calls (cache_sms_cipher Z v now (some body) ttl max_items s).0
  run (reads v now limit ∷ calls) s = run calls (recent_sms_cipher Z v now ttl limit s).0

  drop_old-view :
      (u now : ℕ) (s : State)
      → view u (drop_old Z u now ttl s) ≡ select (in_window now ttl) (view u s)
  unfolding drop_old
  drop_old-view u now s = elim (Bool-cases (ltb now (window ttl))) [
    | inl early ↦ rw early (
        sym (
          select_every (in_window now ttl) (view u s)
            (All-of (λ e. in_window now ttl e ≡ true) (view u s) (λ e. ground arith))))
    | inr late ↦
        rw (late, Z.view-zremrangebyscore u u (now - window ttl) s, ==_refl u)
          (select_cong (λ e. ltb (now - window ttl) e.score) (in_window now ttl) (view u s)
            (λ e. ground arith))
  ]

  module _ (works : (before after : State) → (exec before after).1 ≡ true) (p : 0 < ttl)
      (q : 0 < max_items) where
    cached_newest :
        (u seen now : ℕ) (body : Text) (h : List Entry) (s : State)
        → seen ≤ now
        → IsDescending h
        → All (λ d. (d.score < now) × (same d.member body ≡ false)) h
        → view u s ≡ newest max_items seen ttl h
        → view u (cache_sms_cipher Z u now (some body) ttl max_items s).0
          ≡ newest max_items now ttl (record { score = now; member = body } ∷ h)
    unfolding cache_sms_cipher
    cached_newest u seen now body h s le d fresh holds =
        let e : Entry = record { score = now; member = body } in
        let before = newest max_items seen ttl h in
        let positive : (leb ttl 0 || leb max_items 0) ≡ false = ground arith in
        let older : All (λ c. c.score < now) before =
          All-newest (λ c. c.score < now) max_items seen ttl h
            (All-mono _ (λ c. c.score < now) h (λ c both. both.0) fresh) in
        let others : All (λ c. not (same c.member body) ≡ true) before =
          All-newest (λ c. not (same c.member body) ≡ true) max_items seen ttl h
            (All-mono _ (λ c. not (same c.member body) ≡ true) h (λ c both. ap not both.1) fresh) in
        let added : view u (Z.zadd u e s) ≡ e ∷ before =
          Z.view-zadd_newest u e s (rw holds older)
          ∙ rw holds (ap (◌∷◌ e) (select_every (λ c. not (same c.member body)) before others)) in
        let dropped : view u (drop_old Z u now ttl (Z.zadd u e s))
            ≡ e ∷ newest max_items now ttl h =
          drop_old-view u now (Z.zadd u e s)
          ∙ ap (select (in_window now ttl)) added
          ∙ rw (now_in_window now ttl body)
              (ap (◌∷◌ e) (select-newest max_items seen now ttl h le d)) in
        rw (positive, now_in_window now ttl body)
          (written_view Z u now ttl max_items body s (works s _)
            ∙ ap (take max_items) dropped
            ∙ take_again max_items e (select (in_window now ttl) h))

    recent_newest :
        (u seen now limit : ℕ) (h : List Entry) (s : State)
        → seen ≤ now
        → IsDescending h
        → view u s ≡ newest max_items seen ttl h
        → view u (recent_sms_cipher Z u now ttl limit s).0 ≡ newest max_items now ttl h
    unfolding recent_sms_cipher
    recent_newest u seen now limit h s le d holds =
        ap (view u) (Z.exec-done s (drop_old Z u now ttl s) (works s (drop_old Z u now ttl s)))
        ∙ drop_old-view u now s
        ∙ rw (holds) (select-newest max_items seen now ttl h le d)

    cached_other :
        (u v now : ℕ) (body : Text) (s : State)
        → (v == u) ≡ false
        → view u (cache_sms_cipher Z v now (some body) ttl max_items s).0 ≡ view u s
    unfolding cache_sms_cipher
    cached_other u v now body s n =
        let positive : (leb ttl 0 || leb max_items 0) ≡ false = ground arith in
        rw positive (written_other Z u v now ttl max_items body s (works s _) (ground arith))

    recent_other :
        (u v now limit : ℕ) (s : State)
        → (v == u) ≡ false
        → view u (recent_sms_cipher Z v now ttl limit s).0 ≡ view u s
    unfolding recent_sms_cipher
    recent_other u v now limit s n =
        ap (view u) (Z.exec-done s (drop_old Z v now ttl s) (works s (drop_old Z v now ttl s)))
        ∙ drop_old_other Z u v now ttl s (ground arith)

    run-newest :
        (u seen last : ℕ) (h : List Entry) (calls : List Call) (s : State) (later : ℕ)
        → seen ≤ last
        → IsDescending h
        → IsTimely u last h calls
        → view u s ≡ newest max_items seen ttl h
        → last_call last calls ≤ later
        → select (in_window later ttl) (view u (run calls s))
          ≡ newest max_items later ttl (history u calls h)
    unfolding run
    run-newest u seen last h [] s later le d t holds end =
        rw holds (select-newest max_items seen later ttl h (omega arith) d)
    run-newest u seen last h (caches v now body ∷ calls) s later le d (le', fresh, t) holds end =
        let e : Entry = record { score = now; member = body } in
        let next = (cache_sms_cipher Z v now (some body) ttl max_items s).0 in
        elim (Bool-cases (v == u)) [
          | inl mine ↦
              let same_user : v ≡ u = ground arith in
              let newer = fresh mine in
              let older =
                All-mono _ (λ c. c.score ≤ now) h (λ c both. omega (arith, both.0)) newer in
              rw mine (
                run-newest u now now (e ∷ h) calls next later (omega arith) (older, d)
                  (rw mine at t)
                  (rw same_user (cached_newest u seen now body h s (omega arith) d newer holds))
                  end)
          | inr other ↦ rw other (
              run-newest u seen now h calls next later (omega arith) d (rw other at t)
                (cached_other u v now body s other ∙ holds) end)
        ]
    run-newest u seen last h (reads v now limit ∷ calls) s later le d (le', t) holds end =
        elim (Bool-cases (v == u)) [
          | inl mine ↦
              let same_user : v ≡ u = ground arith in
              run-newest u now now h calls (recent_sms_cipher Z v now ttl limit s).0 later
                (omega arith) d t
                (rw same_user (recent_newest u seen now limit h s (omega arith) d holds)) end
          | inr other ↦
              run-newest u seen now h calls (recent_sms_cipher Z v now ttl limit s).0 later
                (omega arith) d t (recent_other u v now limit s other ∙ holds) end
        ]

    -- If no transaction on Redis fails, with a positive time to live and number of messages, from a
    -- state where the user has no message: after any calls for any users, of which those for the
    -- user come with a clock that does not go back and with messages that are each newer than the
    -- ones before and not the same, a read at a later time answers with the newest messages of the
    -- window among all that were ever cached for the user, at most as many as are kept and as are
    -- asked for, newest first.
    pub recent_sms_cipher-newest :
        (u : ℕ) (calls : List Call) (s : State) (now limit : ℕ)
        → view u s ≡ []
        → IsTimely u 0 [] calls
        → last_call 0 calls ≤ now
        → (recent_sms_cipher Z u now ttl limit (run calls s)).1
          ≡ some (
              map
                (λ e. e.member)
                (take (or_default limit 20) (newest max_items now ttl (history u calls []))))
    unfolding recent_sms_cipher
    recent_sms_cipher-newest u calls s now limit empty t end =
        let before = run calls s in
        let trimmed = drop_old Z u now ttl before in
        rw (works before trimmed) (
          ap some (
            Z.zrevrange-view u (or_default limit 20) trimmed
            ∙ ap (λ es. map (λ e. e.member) (take (or_default limit 20) es))
                (drop_old-view u now before
                  ∙ run-newest u 0 0 [] calls s now (omega arith) tt t
                      (empty ∙ sym (take-nil max_items)) end)))
