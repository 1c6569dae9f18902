-- ===== src/Schema/Statements.antt =====
-- What one statement of the migrations leaves behind.
use clip_sync_server.Base.{
  ◌==◌, Bool, Bool-cases, List, Text, [], any, inl, inr, refl, same, same_refl, same→eq, subst,
  true, ℕ, ◌∷◌, ◌≡◌, Option-cases, arith, false, some, sym, Option, Result, err, none, ok,
}
use clip_sync_server.Schema.{
  Schema, Statement, add_column, create_table, duplicate_column, has_column, has_table,
  insert_after, with_table, apply, are_columns, extend, lists_column, is_some,
}

abbrev pub is_applied : Schema → Statement → Bool
is_applied s (create_table t columns references) = has_table t s
is_applied s (add_column t c before) = has_column t c s

any-insert_after :
    (before c : Text) (columns : List Text) → any (same c) (insert_after before c columns) ≡ true
any-insert_after before c [] = rw (same_refl c) refl
any-insert_after before c (d ∷ columns) =
    ground (arith, same_refl c, any-insert_after before c columns)

pub any-insert_after_kept :
    (before c x : Text) (columns : List Text)
    → any (same x) columns ≡ true
    → any (same x) (insert_after before c columns) ≡ true
any-insert_after_kept before c x (d ∷ columns) h =
    ground (arith, any-insert_after_kept before c x columns, h)
any-insert_after_kept before c x [] h = ground arith

-- A table that is new, or has grown by a column, takes nothing away.
abbrev IsGrowth : Text → List Text → Schema → Type 0
IsGrowth t columns s = (c : Text) → has_column t c s ≡ true → any (same c) columns ≡ true

is_applied-with_table :
    (t : Text) (columns : List Text) (s : Schema) (p : Statement)
    → IsGrowth t columns s
    → is_applied s p ≡ true
    → is_applied (with_table t columns s) p ≡ true
is_applied-with_table t columns s (create_table u cs refs) g h = ground arith
is_applied-with_table t columns s (add_column u c before) g h = elim (Bool-cases (same u t)) [
  | inl is_t ↦ rw is_t (g c (subst (λ v. has_column v c s ≡ true) (same→eq u t is_t) h))
  | inr other ↦ rw other h
]

pub extend-IsGrowth :
    (t c before : Text) (s : Schema)
    → (columns : List Text) → s t ≡ some columns
    → IsGrowth t (insert_after before c columns) s
extend-IsGrowth t c before s columns e x h =
    any-insert_after_kept before c x columns (subst (λ o. lists_column x o ≡ true) e h)

none-IsGrowth :
    (t : Text) (columns : List Text) (s : Schema) → has_table t s ≡ false → IsGrowth t columns s
none-IsGrowth t columns s gone c h = elim (Option-cases (s t)) [
  | inl e ↦ let no : false ≡ true = subst (λ o. lists_column c o ≡ true) e h in ground arith
  | inr (cs, e) ↦ let no : true ≡ false = subst (λ o. is_some o ≡ false) e gone in ground arith
]

-- A statement that works takes no table and no column away.
abbrev pub Retains : Schema → Result ℕ Schema → Type 0
Retains s (err e) = Unit
Retains s (ok s') = (p : Statement) → is_applied s p ≡ true → is_applied s' p ≡ true

-- It leaves behind what it is for, and so does one that finds its column there.
abbrev pub Achieves : Statement → Schema → Result ℕ Schema → Type 0
Achieves q s (err e) = (e == duplicate_column) ≡ true → is_applied s q ≡ true
Achieves q s (ok s') = is_applied s' q ≡ true

extend-Retains :
    (t c before : Text) (s : Schema) (o : Option (List Text))
    → s t ≡ o
    → Retains s (extend t c before s o) × Achieves (add_column t c before) s (extend t c before s o)
extend-Retains t c before s none e = (tt, λ h. ground arith)
extend-Retains t c before s (some columns) e = elim (Bool-cases (any (same c) columns)) [
  | inl there ↦ rw there (tt, λ h. subst (λ o. lists_column c o ≡ true) (sym e) there)
  | inr new ↦ elim (Bool-cases (any (same before) columns)) [
    | inl placed ↦
        rw (new, placed)
          (
            λ p h.
                is_applied-with_table t (insert_after before c columns) s p
                  (extend-IsGrowth t c before s columns e) h,
            rw (same_refl t) (any-insert_after before c columns),
          )
    | inr astray ↦ rw (new, astray) (tt, λ h. ground arith)
  ]
]

pub apply-Retains : (q : Statement) (s : Schema) → Retains s (apply q s) × Achieves q s (apply q s)
apply-Retains (create_table t columns references) s = elim (Bool-cases (has_table t s)) [
  | inl there ↦ rw there (λ p h. h, there)
  | inr new ↦ elim (Bool-cases (are_columns references s)) [
    | inl ready ↦
        rw (new, ready)
          (
            λ p h. is_applied-with_table t columns s p (none-IsGrowth t columns s new) h,
            rw (same_refl t) refl,
          )
    | inr early ↦ rw (new, early) (tt, λ h. ground arith)
  ]
]
apply-Retains (add_column t c before) s = extend-Retains t c before s (s t) refl
