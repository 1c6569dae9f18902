-- ===== src/SmsCache/Newest.antt =====
-- store_sms_cache.go, openapi_http.go: a message that has been cached is what the next query reads
-- first.
-- The entry that has just been added.
use clip_sync_server.Base.{
  ◌&&◌, ◌+◌, ◌-◌, ◌<◌, ◌==◌, ==_refl, All, Bool, Bool-cases, List, Text, [], any, ap, arith, false,
  inl, inr, leb, ltb, map, not, refl, same, same_iff, same_refl, select, some, suc, take, true,
  zero, ◌||◌, ℕ, ◌∙◌, ◌∷◌, ◌≡◌, ◌≤◌,
}
use clip_sync_server.SmsCache.{
  Entry, IsDescending, SortedSets, cache_sms_cipher, drop_old, recent_sms_cipher, window, write_sms,
}
use clip_sync_server.Sms.{or_default}
use clip_sync_server.SmsCache.Window.{written_view, window_positive}

abbrev is_added : Entry → Entry → Bool
is_added e d = same d.member e.member && d.score == e.score

abbrev is_rival : Entry → Entry → Bool
is_rival e d = leb e.score d.score && not (is_added e d)

added_is : (e d : Entry) → is_added e d ≡ true → d ≡ e
added_is e d h =
    let member : d.member ≡ e.member = ground (arith, same_iff d.member e.member) in
    let score : d.score ≡ e.score = ground arith in
    λ i. record { score = score i; member = member i }

-- An entry that is in the list is no newer than the first.
added_bounded :
    (e d : Entry) (es : List Entry)
    → All (λ c. c.score ≤ d.score) es
    → any (is_added e) es ≡ true
    → e.score ≤ d.score
added_bounded e d [] h k = ground arith
added_bounded e d (c ∷ es) (h, hs) k = ground (arith, added_bounded e d es hs)

first_added :
    (e : Entry) (es : List Entry)
    → IsDescending es
    → any (is_added e) es ≡ true
    → any (is_rival e) es ≡ false
    → (rest : List Entry) × (es ≡ e ∷ rest)
first_added e [] h k r = ground arith
first_added e (d ∷ es) (h, hs) k r = elim (Bool-cases (is_added e d)) [
  | inl y ↦ (es, ap (λ c. c ∷ es) (added_is e d y))
  | inr n ↦ ground (arith, added_bounded e d es h)
]

no_rival :
    (e : Entry) (es : List Entry)
    → All (λ d. d.score < e.score) es
    → any (λ d. is_rival e d && not (same d.member e.member)) es ≡ false
no_rival e [] h = refl
no_rival e (d ∷ es) (h, hs) = ground (arith, no_rival e es hs)

module _ (Z : SortedSets) where
  open Z use {
    State, view, zadd, zrevrange, any-zadd, view-IsDescending, view-zremrangebyscore,
    zrevrange-view, exec-done,
  }

  -- Where all messages are older, the new one is the first.
  zadd_first :
      (u : ℕ) (e : Entry) (s : State)
      → All (λ d. d.score < e.score) (view u s)
      → (rest : List Entry) × (view u (zadd u e s) ≡ e ∷ rest)
  zadd_first u e s h =
      first_added e (view u (zadd u e s)) (view-IsDescending u (zadd u e s))
        (any-zadd (is_added e) u e s ∙ ground (arith, same_refl e.member, ==_refl e.score))
        (any-zadd (is_rival e) u e s
          ∙ ground (arith, same_refl e.member, ==_refl e.score, no_rival e (view u s) h))

  -- What is within the window at the front stays at the front.
  drop_old_first :
      (u now ttl : ℕ) (e : Entry) (rest : List Entry) (s : State)
      → now < e.score + window ttl
      → view u s ≡ e ∷ rest
      → (later : List Entry) × (view u (drop_old Z u now ttl s) ≡ e ∷ later)
  unfolding drop_old
  drop_old_first u now ttl e rest s h is_front = elim (Bool-cases (ltb now (window ttl))) [
    | inl y ↦ (rest, rw y is_front)
    | inr n ↦
        let inside : ltb (now - window ttl) e.score ≡ true = ground arith in
        (
          select (λ d. ltb (now - window ttl) d.score) rest,
          rw (n, view-zremrangebyscore u u (now - window ttl) s, ==_refl u, is_front, inside) refl,
        )
  ]

  take_first :
      (n : ℕ) (e : Entry) (rest : List Entry)
      → 0 < n
      → (kept : List Entry) × (take n (e ∷ rest) ≡ e ∷ kept)
  take_first zero e rest h = ground arith
  take_first (suc n) e rest h = (take n rest, refl)

  -- The set of the user starts with the new message once it has been written.
  pub cached_first :
      (u now ttl max_items : ℕ) (body : Text) (s : State)
      → 0 < ttl
      → 0 < max_items
      → All (λ d. d.score < now) (view u s)
      → (cache_sms_cipher Z u now (some body) ttl max_items s).1 ≡ true
      → (rest : List Entry) × (view u (cache_sms_cipher Z u now (some body) ttl max_items s).0
          ≡ record { score = now; member = body } ∷ rest)
  unfolding cache_sms_cipher
  cached_first u now ttl max_items body s p q older h =
      let positive : (leb ttl 0 || leb max_items 0) ≡ false = ground arith in
      let done : (write_sms Z u now ttl max_items (some body) s).1 ≡ true = rw positive at h in
      let e : Entry = record { score = now; member = body } in
      let (rest, is_first) = zadd_first u e s older in
      let (later, still_first) =
        drop_old_first u now ttl e rest (zadd u e s) (omega (arith, window_positive ttl))
          is_first in
      let (kept, taken) = take_first max_items e later q in
      (
        kept,
        rw positive (
            written_view Z u now ttl max_items body s done
            ∙ ap (take max_items) still_first
            ∙ taken),
      )

  -- A read within the window starts with the message at the front.
  pub recent_first :
      (u later ttl limit : ℕ) (e : Entry) (rest : List Entry) (s : State)
      → later < e.score + window ttl
      → view u s ≡ e ∷ rest
      → (Z.exec s (drop_old Z u later ttl s)).1 ≡ true
      → (texts : List Text) × ((recent_sms_cipher Z u later ttl limit s).1
          ≡ some (e.member ∷ texts))
  unfolding recent_sms_cipher or_default
  recent_first u later ttl limit e rest s h is_front done =
      let (kept, still_first) = drop_old_first u later ttl e rest s h is_front in
      let limit' = or_default limit 20 in
      let (taken, is_taken) = take_first limit' e kept (ground arith) in
      (
        map (λ d. d.member) taken,
        rw done (
            ap some (
              zrevrange-view u limit' (drop_old Z u later ttl s)
              ∙ ap (λ es. map (λ d. d.member) (take limit' es)) still_first
              ∙ ap (map (λ d. d.member)) is_taken)),
      )
