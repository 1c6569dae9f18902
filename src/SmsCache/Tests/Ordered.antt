-- ===== src/SmsCache/Tests/Ordered.antt =====
-- store_sms_cache.go: sorted sets in memory, whose commands never fail.
use clip_sync_server.Base.{
  ◌&&◌, ◌==◌, ==_refl, All, All-mono, Bool, Bool-cases, List, [], any, ap, arith, if◌then◌else◌,
  false, inl, inr, leb, ltb, map, not, refl, same, select, suc, take, true, zero, ◌||◌, ℕ, ◌∙◌, ◌∷◌,
  ◌≡◌, ◌≤◌, All-select, ◌<◌,
}
use clip_sync_server.SmsCache.Window.{All-take}
use clip_sync_server.SmsCache.{Entry, IsDescending, SortedSets}

abbrev pub put : Entry → List Entry → List Entry
put e [] = e ∷ []
put e (d ∷ ds) = if leb d.score e.score then e ∷ d ∷ ds else d ∷ put e ds

any-put : (p : Entry → Bool) (e : Entry) (ds : List Entry) → any p (put e ds) ≡ (p e || any p ds)
any-put p e [] = refl
any-put p e (d ∷ ds) = ground (arith, any-put p e ds)

any-select_of :
    (p q : Entry → Bool) (ds : List Entry) → any p (select q ds) ≡ any (λ d. p d && q d) ds
any-select_of p q [] = refl
any-select_of p q (d ∷ ds) = ground (arith, any-select_of p q ds)

All-put : (P : Entry → Type 0) (e : Entry) (ds : List Entry) → P e → All P ds → All P (put e ds)
All-put P e [] h k = (h, tt)
All-put P e (d ∷ ds) h (k, ks) = elim (Bool-cases (leb d.score e.score)) [
  | inl y ↦ rw y ((h, (k, ks)))
  | inr n ↦ rw n (k, All-put P e ds h ks)
]

pub put-IsDescending : (e : Entry) (ds : List Entry) → IsDescending ds → IsDescending (put e ds)
put-IsDescending e [] h = (tt, tt)
put-IsDescending e (d ∷ ds) (h, hs) = elim (Bool-cases (leb d.score e.score)) [
  | inl y ↦
      let below : d.score ≤ e.score = ground arith in
      rw y (
        (
          below,
          All-mono (λ c. c.score ≤ d.score) (λ c. c.score ≤ e.score) ds
              (λ c k. omega (arith, k, below)) h,
        ),
        (h, hs),
      )
  | inr n ↦ rw n (All-put (λ c. c.score ≤ d.score) e ds (ground arith) h, put-IsDescending e ds hs)
]

pub select-IsDescending :
    (q : Entry → Bool) (ds : List Entry) → IsDescending ds → IsDescending (select q ds)
select-IsDescending q [] h = tt
select-IsDescending q (d ∷ ds) (h, hs) = elim (Bool-cases (q d)) [
  | inl y ↦ rw y (
    All-select q (λ c. c.score ≤ d.score) ds
        (All-mono (λ c. c.score ≤ d.score) (λ c. q c ≡ true → c.score ≤ d.score) ds (λ c b t. b) h),
    select-IsDescending q ds hs,
  )
  | inr n ↦ rw n (select-IsDescending q ds hs)
]

pub take-IsDescending : (n : ℕ) (ds : List Entry) → IsDescending ds → IsDescending (take n ds)
take-IsDescending zero ds h = tt
take-IsDescending (suc n) [] h = tt
take-IsDescending (suc n) (d ∷ ds) (h, hs) =
    (All-take (λ c. c.score ≤ d.score) n ds h, take-IsDescending n ds hs)

abbrev pub Sorted : Type 0
Sorted = (es : List Entry) × IsDescending es

abbrev pub Sets : Type 0
Sets = ℕ → Sorted

abbrev pub changed : ℕ → (Sorted → Sorted) → Sets → Sets
changed u f s v = if v == u then f (s v) else s v

abbrev pub add : Entry → Sorted → Sorted
add e (es, h) =
    let others : Entry → Bool = λ d. not (same d.member e.member) in
    (
      put e (select others es),
      put-IsDescending e (select others es) (select-IsDescending others es h),
    )

abbrev pub above : ℕ → Sorted → Sorted
above hi (es, h) = (select (λ e. ltb hi e.score) es, select-IsDescending (λ e. ltb hi e.score) es h)

abbrev pub first_of : ℕ → Sorted → Sorted
first_of n (es, h) = (take n es, take-IsDescending n es h)

pub changed_other :
    (v u : ℕ) (f : Sorted → Sorted) (s : Sets) → (v == u) ≡ false → changed u f s v ≡ s v
changed_other v u f s h = rw h refl

pub changed_here : (u : ℕ) (f : Sorted → Sorted) (s : Sets) → changed u f s u ≡ f (s u)
changed_here u f s = rw (==_refl u) refl

pub any-add :
    (p : Entry → Bool) (e : Entry) (x : Sorted)
    → any p (add e x).0 ≡ (p e || any (λ d. p d && not (same d.member e.member)) x.0)
any-add p e (es, h) =
    let others : Entry → Bool = λ d. not (same d.member e.member) in
    any-put p e (select others es) ∙ ap (λ b. p e || b) (any-select_of p others es)

pub changed_if :
    (v u : ℕ) (f : Sorted → Sorted) (g : List Entry → List Entry) (s : Sets)
    → ((x : Sorted) → (f x).0 ≡ g x.0)
    → (changed u f s v).0 ≡ (if v == u then g (s v).0 else (s v).0)
changed_if v u f g s h = elim (Bool-cases (v == u)) [ inl y ↦ rw y (h (s v)) | inr n ↦ rw n refl ]

put_newest : (e : Entry) (ds : List Entry) → All (λ d. d.score < e.score) ds → put e ds ≡ e ∷ ds
put_newest e [] h = refl
put_newest e (d ∷ ds) (h, hs) = ground arith

pub add_newest :
    (e : Entry) (x : Sorted)
    → All (λ d. d.score < e.score) x.0
    → (add e x).0 ≡ e ∷ select (λ d. not (same d.member e.member)) x.0
add_newest e (es, h) k =
    let others : Entry → Bool = λ d. not (same d.member e.member) in
    put_newest e (select others es) (
      All-select others (λ d. d.score < e.score) es
        (All-mono (λ d. d.score < e.score) (λ d. others d ≡ true → d.score < e.score) es
          (λ d b t. b) k))

abbrev pub sets : SortedSets
sets = record {
  State = Sets;
  view = λ u s. (s u).0;
  zadd = λ u e s. changed u (add e) s;
  zremrangebyscore = λ u hi s. changed u (above hi) s;
  zremrangebyrank = λ u n s. changed u (first_of n) s;
  expire = λ u ttl s. s;
  zrevrange = λ u n s. map (λ e. e.member) (take n (s u).0);
  exec = λ before after. (after, true);
  view-IsDescending = λ u s. (s u).1;
  any-zadd = λ p u e s. ap (λ x. any p x.0) (changed_here u (add e) s) ∙ any-add p e (s u);
  view-zadd_other = λ v u e s h. ap (λ x. x.0) (changed_other v u (add e) s h);
  view-zadd_newest = λ u e s h. ap (λ x. x.0) (changed_here u (add e) s) ∙ add_newest e (s u) h;
  view-zremrangebyscore =
      λ v u hi s. changed_if v u (above hi) (select (λ e. ltb hi e.score)) s (λ x. refl);
  view-zremrangebyrank = λ v u n s. changed_if v u (first_of n) (take n) s (λ x. refl);
  view-expire = λ v u ttl s h. refl;
  zrevrange-view = λ u n s. refl;
  exec-done = λ before after h. refl;
}
