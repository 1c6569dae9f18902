-- ===== src/SmsCache/History.antt =====
-- store_sms_cache.go: the cache against the history of all messages.
pub mod Refines
-- One after the other, by any users: a message that is cached, and a read.
use clip_sync_server.Base.{
  ◌+◌, ◌<◌, ◌==◌, All, Bool, Bool-cases, List, Text, [], ap, arith, if◌then◌else◌, false, inl, inr,
  ltb, refl, same, select, suc, take, true, zero, ℕ, ◌∷◌, ◌≡◌, ◌≤◌, some, ◌∙◌, ◌-◌, ==_refl,
  All-mono, All-of, All-select, leb, not, sym, ◌||◌, take-nil,
}
use clip_sync_server.SmsCache.{
  Entry, IsDescending, window, SortedSets, cache_sms_cipher, drop_old, recent_sms_cipher,
}
use clip_sync_server.Text.{after}
use clip_sync_server.SmsCache.Window.{All-take, window_positive, written_view}
use clip_sync_server.Hub.Grace.{dropped}
use clip_sync_server.Text.Decimal.{positive}

pub data Call : Type 0 where
  caches : ℕ → ℕ → Text → Call
  reads : ℕ → ℕ → ℕ → Call

-- The messages of a user, the newest first.
abbrev pub history : ℕ → List Call → List Entry → List Entry
history u [] h = h
history u (caches v now body ∷ calls) h =
    history u calls (if v == u then record { score = now; member = body } ∷ h else h)
history u (reads v now limit ∷ calls) h = history u calls h

-- The clock does not go back between calls, and a message of the user is newer than the ones before
-- it and not the same text.
abbrev pub IsTimely : ℕ → ℕ → List Entry → List Call → Type 0
IsTimely u last h [] = Unit
IsTimely u last h (caches v now body ∷ calls) =
    (last ≤ now)
    × ((v == u) ≡ true → All (λ d. (d.score < now) × (same d.member body ≡ false)) h)
    × IsTimely u now (if v == u then record { score = now; member = body } ∷ h else h) calls
IsTimely u last h (reads v now limit ∷ calls) = (last ≤ now) × IsTimely u now h calls

abbrev pub last_call : ℕ → List Call → ℕ
last_call last [] = last
last_call last (caches v now body ∷ calls) = last_call now calls
last_call last (reads v now limit ∷ calls) = last_call now calls

abbrev pub in_window : ℕ → ℕ → Entry → Bool
in_window now ttl e = ltb now (e.score + window ttl)

-- The abstract cache: of all messages those of the window, and of these the newest ones.
abbrev pub newest : ℕ → ℕ → ℕ → List Entry → List Entry
newest max_items now ttl h = take max_items (select (in_window now ttl) h)

pub take-take {ℓ} : {A : Type ℓ} (n : ℕ) (xs : List A) → take n (take (suc n) xs) ≡ take n xs
take-take zero xs = refl
take-take (suc n) [] = refl
take-take (suc n) (x ∷ xs) = ap (◌∷◌ x) (take-take n xs)

pub take_again {ℓ} :
    {A : Type ℓ} (n : ℕ) (x : A) (xs : List A) → take n (x ∷ take n xs) ≡ take n (x ∷ xs)
take_again zero x xs = refl
take_again (suc n) x xs = ap (◌∷◌ x) (take-take n xs)

pub select_every {ℓ} :
    {A : Type ℓ} (p : A → Bool) (xs : List A) → All (λ x. p x ≡ true) xs → select p xs ≡ xs
select_every p [] h = refl
select_every p (x ∷ xs) (h, hs) = rw h (ap (◌∷◌ x) (select_every p xs hs))

pub select_old :
    (now ttl score : ℕ) (h : List Entry)
    → All (λ d. d.score ≤ score) h
    → ltb now (score + window ttl) ≡ false
    → select (in_window now ttl) h ≡ []
select_old now ttl score [] a o = refl
select_old now ttl score (e ∷ h) (a, as') o = ground (arith, select_old now ttl score h as' o)

-- A later window on the newest of an earlier one.
pub select-newest :
    (max_items now later ttl : ℕ) (h : List Entry)
    → now ≤ later
    → IsDescending h
    → select (in_window later ttl) (newest max_items now ttl h) ≡ newest max_items later ttl h
select-newest zero now later ttl h le d = refl
select-newest (suc n) now later ttl [] le d = refl
select-newest (suc n) now later ttl (e ∷ h) le (d, ds) = elim (Bool-cases (in_window later ttl e)) [
  | inl inside ↦
      let before : in_window now ttl e ≡ true = ground arith in
      rw (before, inside) (ap (◌∷◌ e) (select-newest n now later ttl h le ds))
  | inr outside ↦
      let gone = select_old later ttl e.score h d outside in
      ground (
        arith,
        gone,
        take-nil {A = Entry} n,
        select-newest n now later ttl h le ds,
        select-newest (suc n) now later ttl h le ds,
      )
]

pub select_cong {ℓ} :
    {A : Type ℓ} (p q : A → Bool) (xs : List A) → ((x : A) → p x ≡ q x) → select p xs ≡ select q xs
select_cong p q [] h = refl
select_cong p q (x ∷ xs) h = ground (arith, h x, select_cong p q xs h)

-- What holds of the whole history holds of the newest.
pub All-newest {κ} :
    (P : Entry → Type κ) (max_items now ttl : ℕ) (h : List Entry)
    → All P h
    → All P (newest max_items now ttl h)
All-newest P max_items now ttl h a =
    All-take P max_items (select (in_window now ttl) h)
      (All-select (in_window now ttl) P h (All-mono P _ h (λ e b t. b) a))

pub now_in_window :
    (now ttl : ℕ) (body : Text) → in_window now ttl (record { score = now; member = body }) ≡ true
now_in_window now ttl body = ground (arith, window_positive ttl)
