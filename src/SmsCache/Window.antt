-- ===== src/SmsCache/Window.antt =====
-- store_sms_cache.go: what the set of a user holds after a message has been cached.
use clip_sync_server.Base.{
  ◌+◌, ◌-◌, ◌<◌, ◌==◌, ==_refl, All, Bool-cases, List, Text, [], ap, arith, false, inl, inr, leb,
  length, ltb, select, some, suc, take, true, zero, ◌||◌, ℕ, ◌∙◌, ◌∷◌, ◌≡◌, ◌≤◌,
}
use clip_sync_server.SmsCache.{Entry, SortedSets, cache_sms_cipher, drop_old, window, write_sms}
use clip_sync_server.Limit.{minute}

pub All-take {ℓ κ} :
    {A : Type ℓ} (P : A → Type κ) (n : ℕ) (xs : List A) → All P xs → All P (take n xs)
All-take P zero xs h = tt
All-take P (suc n) [] h = tt
All-take P (suc n) (x ∷ xs) (h, hs) = (h, All-take P n xs hs)

length-take {ℓ} : {A : Type ℓ} (n : ℕ) (xs : List A) → length (take n xs) ≤ n
length-take zero xs = omega arith
length-take (suc n) [] = omega arith
length-take (suc n) (x ∷ xs) = omega (arith, length-take n xs)

pub window_positive : (ttl : ℕ) → 0 < window ttl
unfolding window
window_positive ttl = ground arith

-- The entries of the window that ends at `now`.
abbrev pub IsRecent : ℕ → ℕ → Entry → Type 0
IsRecent now ttl e = now < e.score + window ttl

selected-IsRecent :
    (now ttl : ℕ) (es : List Entry)
    → ltb now (window ttl) ≡ false
    → All (IsRecent now ttl) (select (λ e. ltb (now - window ttl) e.score) es)
selected-IsRecent now ttl [] h = tt
selected-IsRecent now ttl (e ∷ es) h = elim (Bool-cases (ltb (now - window ttl) e.score)) [
  | inl y ↦ rw y (ground arith, selected-IsRecent now ttl es h)
  | inr n ↦ rw n (selected-IsRecent now ttl es h)
]

early-IsRecent :
    (now ttl : ℕ) (es : List Entry) → ltb now (window ttl) ≡ true → All (IsRecent now ttl) es
early-IsRecent now ttl [] h = tt
early-IsRecent now ttl (e ∷ es) h = (ground arith, early-IsRecent now ttl es h)

module _ (Z : SortedSets) where
  open Z use {
    State, view, zadd, zremrangebyrank, expire, view-zremrangebyscore, view-zremrangebyrank,
    view-expire, view-zadd_other, exec-done,
  }

  drop_old-IsRecent :
      (u now ttl : ℕ) (s : State) → All (IsRecent now ttl) (view u (drop_old Z u now ttl s))
  unfolding drop_old
  drop_old-IsRecent u now ttl s = elim (Bool-cases (ltb now (window ttl))) [
    | inl y ↦ rw y (early-IsRecent now ttl (view u s) y)
    | inr n ↦
        rw (n, view-zremrangebyscore u u (now - window ttl) s, ==_refl u)
          (selected-IsRecent now ttl (view u s) n)
  ]

  pub drop_old_other :
      (v u now ttl : ℕ) (s : State) → (v == u) ≡ false → view v (drop_old Z u now ttl s) ≡ view v s
  unfolding drop_old
  drop_old_other v u now ttl s h = ground (arith, view-zremrangebyscore v u (now - window ttl) s)

  -- The set of a user after a message has been written.
  pub written_view :
      (u now ttl max_items : ℕ) (body : Text) (s : State)
      → (write_sms Z u now ttl max_items (some body) s).1 ≡ true
      → view u (write_sms Z u now ttl max_items (some body) s).0
        ≡ take max_items
            (view u (drop_old Z u now ttl (zadd u (record { score = now; member = body }) s)))
  written_view u now ttl max_items body s h =
      let trimmed = drop_old Z u now ttl (zadd u (record { score = now; member = body }) s) in
      let bounded = zremrangebyrank u max_items trimmed in
      ap (view u) (exec-done s (expire u (ttl + minute) bounded) h)
      ∙ view-expire u u (ttl + minute) bounded (omega arith)
      ∙ view-zremrangebyrank u u max_items trimmed
      ∙ ground (arith, ==_refl u)

  pub written_other :
      (v u now ttl max_items : ℕ) (body : Text) (s : State)
      → (write_sms Z u now ttl max_items (some body) s).1 ≡ true
      → (v == u) ≡ false
      → view v (write_sms Z u now ttl max_items (some body) s).0 ≡ view v s
  written_other v u now ttl max_items body s h n =
      let added = zadd u (record { score = now; member = body }) s in
      let trimmed = drop_old Z u now ttl added in
      let bounded = zremrangebyrank u max_items trimmed in
      ap (view v) (exec-done s (expire u (ttl + minute) bounded) h)
      ∙ view-expire v u (ttl + minute) bounded (omega arith)
      ∙ view-zremrangebyrank v u max_items trimmed
      ∙ ground (
        arith,
        drop_old_other v u now ttl added n,
        view-zadd_other v u (record { score = now; member = body }) s,
      )

  -- After a message has been cached the user's set holds at most the configured number of messages,
  -- all of them of the window that ends now, and the sets of other users are what they were.
  pub cache_sms_cipher_bounds :
      (u now ttl max_items : ℕ) (body : Text) (s : State)
      → 0 < ttl
      → 0 < max_items
      → (cache_sms_cipher Z u now (some body) ttl max_items s).1 ≡ true
      → let s' = (cache_sms_cipher Z u now (some body) ttl max_items s).0 in
        (length (view u s') ≤ max_items)
        × All (IsRecent now ttl) (view u s')
        × ((v : ℕ) → (v == u) ≡ false → view v s' ≡ view v s)
  unfolding cache_sms_cipher
  cache_sms_cipher_bounds u now ttl max_items body s p q h =
      let positive : (leb ttl 0 || leb max_items 0) ≡ false = ground arith in
      let done : (write_sms Z u now ttl max_items (some body) s).1 ≡ true = rw positive at h in
      let added = zadd u (record { score = now; member = body }) s in
      let kept = view u (drop_old Z u now ttl added) in
      rw (positive, written_view u now ttl max_items body s done)
        (
          length-take max_items kept,
          All-take (IsRecent now ttl) max_items kept (drop_old-IsRecent u now ttl added),
          λ v n. written_other v u now ttl max_items body s done n,
        )
