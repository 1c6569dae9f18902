-- ===== src/Schema/Planned.antt =====
-- store_mysql.go, store_device.go, store_apikey.go: what statements need and provide on a new or an
-- older database.
use clip_sync_server.Base.{
  ◌&&◌, ◌++◌, All, Bool, Bool-cases, List, Text, [], any, arith, false, inl, inr, not, refl, same,
  same→eq, select, subst, true, ◌||◌, ◌∷◌, ◌≡◌, ◌⊎◌, All-append, All-mono, All-select, sym,
}
use clip_sync_server.Schema.{
  Schema, Statement, add_column, create_table, has_column, has_table, with_table,
}
use clip_sync_server.Schema.Statements.{is_applied}

-- A column that is there, unless the whole table is missing.
abbrev pub IsOld : Schema → Text × Text → Type 0
IsOld s (t, c) = (has_table t s ≡ false) ⊎ (has_column t c s ≡ true)

abbrev pub IsThere : Schema → Text × Text → Type 0
IsThere s (t, c) = has_column t c s ≡ true

-- A statement that creates the table creates it with the column.
abbrev pub offers : Text × Text → Statement → Bool
offers (t, c) (create_table u columns references) = not (same t u) || any (same c) columns
offers (t, c) (add_column u d before) = true

-- What is there after the statements on a database where `known` is old and `there` is there.
abbrev pub provided : List (Text × Text) → List (Text × Text) → List Statement → List (Text × Text)
provided known there [] = there
provided known there (create_table t columns references ∷ qs) =
    provided known (select (λ p. same p.0 t) known ++ there) qs
provided known there (add_column t c before ∷ qs) = provided known ((t, c) ∷ there) qs

abbrev pub lists : List (Text × Text) → Text × Text → Bool
lists known q = any (λ p. same p.0 q.0 && same p.1 q.1) known

abbrev pub every {ℓ} : {A : Type ℓ} → (A → Bool) → List A → Bool
every p [] = true
every p (x ∷ xs) = p x && every p xs

-- Each statement finds in `there` the columns that it needs.
abbrev pub needs_met : List (Text × Text) → Statement → Bool
needs_met there (create_table t columns references) = every (lists there) references
needs_met there (add_column t c before) = lists there (t, before)

abbrev pub planned : List (Text × Text) → List (Text × Text) → List Statement → Bool
planned known there [] = true
planned known there (q ∷ qs) =
    needs_met there q
    && every (λ k. offers k q) known
    && planned known (provided known there (q ∷ [])) qs

pub both_true : (a b : Bool) → (a && b) ≡ true → (a ≡ true) × (b ≡ true)
both_true true b h = (refl, h)
both_true false b h = ground arith

pub every-All {ℓ} :
    {A : Type ℓ} (p : A → Bool) (xs : List A) → every p xs ≡ true → All (λ x. p x ≡ true) xs
every-All p [] h = tt
every-All p (x ∷ xs) h = let (a, b) = both_true (p x) (every p xs) h in (a, every-All p xs b)

pub lists-IsThere :
    (s : Schema) (there : List (Text × Text)) (q : Text × Text)
    → All (IsThere s) there
    → lists there q ≡ true
    → IsThere s q
lists-IsThere s [] q a h = ground arith
lists-IsThere s (p ∷ there) q (a, as') h = elim (Bool-cases (same p.0 q.0 && same p.1 q.1)) [
  | inl e ↦
      let (e0, e1) = both_true (same p.0 q.0) (same p.1 q.1) e in
      subst (λ t. has_column t q.1 s ≡ true) (same→eq p.0 q.0 e0)
        (subst (λ c. has_column p.0 c s ≡ true) (same→eq p.1 q.1 e1) a)
  | inr n ↦ lists-IsThere s there q as' (ground (arith, h))
]

pub with_table-IsOld :
    (u : Text) (columns : List Text) (s : Schema) (k : Text × Text)
    → (same k.0 u ≡ true → any (same k.1) columns ≡ true)
    → IsOld s k
    → IsOld (with_table u columns s) k
with_table-IsOld u columns s k h old = elim (Bool-cases (same k.0 u)) [
  | inl e ↦ inr (rw e (h e))
  | inr n ↦ rw n old
]

-- A table that is there has its old columns.
pub old-IsThere : (s : Schema) (k : Text × Text) → has_table k.0 s ≡ true → IsOld s k → IsThere s k
old-IsThere s k h (inl gone) = ground arith
old-IsThere s k h (inr there) = there

pub provided_step :
    (known there : List (Text × Text)) (q : Statement) (qs : List Statement)
    → provided known there (q ∷ qs) ≡ provided known (provided known there (q ∷ [])) qs
provided_step known there (create_table t columns references) qs = refl
provided_step known there (add_column t c before) qs = refl

pub provided-IsThere :
    (q : Statement) (s : Schema) (known there : List (Text × Text))
    → is_applied s q ≡ true
    → All (IsOld s) known
    → All (IsThere s) there
    → All (IsThere s) (provided known there (q ∷ []))
provided-IsThere (create_table t columns references) s known there h old a =
    All-append (IsThere s) (select (λ p. same p.0 t) known) there
      (All-select (λ p. same p.0 t) (IsThere s) known
        (All-mono (IsOld s) (λ p. same p.0 t ≡ true → IsThere s p) known
          (λ p o e. old-IsThere s p (subst (λ u. has_table u s ≡ true) (sym (same→eq p.0 t e)) h) o)
          old))
      a
provided-IsThere (add_column t c before) s known there h old a = (h, a)
