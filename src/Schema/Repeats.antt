-- ===== src/Schema/Repeats.antt =====
-- store_mysql.go, store_device.go, store_apikey.go: what the migrations leave behind, and what a
-- second run of them does.
use clip_sync_server.Base.{
  ◌==◌, All, Bool, Bool-cases, List, Option, Result, [], ap, arith, err, false, inl, inr, none, ok,
  refl, some, subst, sym, true, ℕ, ◌∙◌, ◌∷◌, ◌≡◌, Option-cases, any, same,
}
use clip_sync_server.Schema.Statements.{Achieves, apply-Retains, is_applied, Retains}
use clip_sync_server.Schema.{
  MigrateError, Schema, Statement, add_column, chain, create_table, duplicate_column, exec,
  run_statements, settle, lists_column,
}

-- `skips` passes over no error but that of a column that is there.
abbrev pub IsCareful : (Statement → ℕ → Bool) → Type 0
IsCareful skips = (q : Statement) (e : ℕ) → skips q e ≡ true → (e == duplicate_column) ≡ true

-- It passes over that one where the statement adds a column.
abbrev pub Passes : (Statement → ℕ → Bool) → Statement → Type 0
Passes skips (create_table t columns references) = Unit
Passes skips (add_column t c before) = skips (add_column t c before) duplicate_column ≡ true

pub exec-Retains :
    (down : Statement → Bool) (q : Statement) (s : Schema)
    → Retains s (exec down q s) × Achieves q s (exec down q s)
exec-Retains down q s = elim (Bool-cases (down q)) [
  | inl fails ↦ rw fails (tt, λ h. ground arith)
  | inr works ↦ rw works (apply-Retains q s)
]

pub chain-kept {ℓ κ} :
    {E : Type ℓ} (P : Schema → Type κ) (x : Schema × Option E) (next : Schema → Schema × Option E)
    → P x.0
    → ((s : Schema) → P s → P (next s).0)
    → P (chain x next).0
chain-kept P (s, none) next h k = k s h
chain-kept P (s, some e) next h k = h

pub chain-done {ℓ} :
    {E : Type ℓ} (x : Schema × Option E) (next : Schema → Schema × Option E)
    → (chain x next).1 ≡ none
    → (x.1 ≡ none) × (chain x next ≡ next x.0)
chain-done (s, none) next h = (refl, refl)
chain-done (s, some e) next h = ground arith

pub chain-next {ℓ} :
    {E : Type ℓ} (x : Schema × Option E) (next : Schema → Schema × Option E)
    → x.1 ≡ none
    → chain x next ≡ next x.0
chain-next (s, none) next h = refl
chain-next (s, some e) next h = ground arith

-- Where the first part changes nothing.
pub chain-same {ℓ} :
    {E : Type ℓ} (x : Schema × Option E) (next : Schema → Schema × Option E) (s : Schema)
    → x.0 ≡ s
    → (next s).0 ≡ s
    → (chain x next).0 ≡ s
chain-same x next s e h =
    chain-kept (λ s'. s' ≡ s) x next e (λ s' e'. subst (λ y. (next y).0 ≡ s) (sym e') h)

pub chain-none {ℓ} :
    {E : Type ℓ} (x : Schema × Option E) (next : Schema → Schema × Option E) (s : Schema)
    → x.0 ≡ s
    → x.1 ≡ none
    → (next s).1 ≡ none
    → (chain x next).1 ≡ none
chain-none x next s e d h =
    ap (λ y. y.1) (chain-next x next d) ∙ subst (λ y. (next y).1 ≡ none) (sym e) h

module _ (down : Statement → Bool) (failed : ℕ → MigrateError) where
  pub settle-Retains :
      (skips : ℕ → Bool) (s : Schema) (r : Result ℕ Schema)
      → Retains s r
      → (p : Statement) → is_applied s p ≡ true
      → is_applied (settle down failed skips s r).0 p ≡ true
  settle-Retains skips s (ok s') k p h = k p h
  settle-Retains skips s (err e) k p h = h

  pub settle-Achieves :
      (skips : ℕ → Bool) (q : Statement) (s : Schema) (r : Result ℕ Schema)
      → ((e : ℕ) → skips e ≡ true → (e == duplicate_column) ≡ true)
      → Achieves q s r
      → (settle down failed skips s r).1 ≡ none
      → is_applied (settle down failed skips s r).0 q ≡ true
  settle-Achieves skips q s (ok s') careful a h = a
  settle-Achieves skips q s (err e) careful a h = elim (Bool-cases (skips e)) [
    | inl passed ↦ a (careful e passed)
    | inr stops ↦ ground arith
  ]

  pub run-kept :
      (skips : Statement → ℕ → Bool) (qs : List Statement) (s : Schema) (p : Statement)
      → is_applied s p ≡ true
      → is_applied (run_statements down failed skips qs s).0 p ≡ true
  unfolding run_statements
  run-kept skips [] s p h = h
  run-kept skips (q ∷ qs) s p h =
      chain-kept (λ s'. is_applied s' p ≡ true) _ (run_statements down failed skips qs)
        (settle-Retains (skips q) s (exec down q s) (exec-Retains down q s).0 p h)
        (λ s' h'. run-kept skips qs s' p h')

  pub run-All :
      (skips : Statement → ℕ → Bool) (qs : List Statement) (s : Schema)
      → IsCareful skips
      → (run_statements down failed skips qs s).1 ≡ none
      → All (λ q. is_applied (run_statements down failed skips qs s).0 q ≡ true) qs
  unfolding run_statements
  run-All skips [] s careful h = tt
  run-All skips (q ∷ qs) s careful h =
      let after = settle down failed (skips q) s (exec down q s) in
      let (done, same_run) = chain-done after (run_statements down failed skips qs) h in
      let achieved : is_applied after.0 q ≡ true =
        settle-Achieves (skips q) q s (exec down q s) (careful q) (exec-Retains down q s).1 done in
      let rest : (run_statements down failed skips qs after.0).1 ≡ none =
        sym (ap (λ x. x.1) same_run) ∙ h in
      subst (λ x. All (λ p. is_applied x.0 p ≡ true) (q ∷ qs)) (sym same_run)
        (run-kept skips qs after.0 q achieved, run-All skips qs after.0 careful rest)

  settle-again :
      (skips : Statement → ℕ → Bool) (q : Statement) (s : Schema)
      → is_applied s q ≡ true
      → ((settle down failed (skips q) s (exec down q s)).0 ≡ s)
        × (Passes skips q
            → down q ≡ false
            → (settle down failed (skips q) s (exec down q s)).1 ≡ none)
  settle-again skips (create_table t columns references) s h =
      let q = create_table t columns references in
      elim (Bool-cases (down q)) [
        | inl fails ↦ rw fails (refl, λ p d. ground arith)
        | inr works ↦ rw (works, h) (refl, λ p d. refl)
      ]
  settle-again skips (add_column t c before) s h =
      let q = add_column t c before in
      elim (Bool-cases (down q)) [
        | inl fails ↦ rw fails (refl, λ p d. ground arith)
        | inr works ↦ elim (Option-cases (s t)) [
          | inl e ↦ let no : false ≡ true = subst (λ o. lists_column c o ≡ true) e h in ground arith
          | inr (columns, e) ↦
              let there : any (same c) columns ≡ true = subst (λ o. lists_column c o ≡ true) e h in
              rw (works, e, there) (refl, λ p d. rw p refl)
        ]
      ]

  pub run-again :
      (skips : Statement → ℕ → Bool) (qs : List Statement) (s : Schema)
      → All (λ q. is_applied s q ≡ true) qs
      → ((run_statements down failed skips qs s).0 ≡ s)
        × (All (Passes skips) qs
            → ((q : Statement) → down q ≡ false)
            → (run_statements down failed skips qs s).1 ≡ none)
  unfolding run_statements
  run-again skips [] s h = (refl, λ p d. refl)
  run-again skips (q ∷ qs) s (h, hs) =
      let (stays, silent) = settle-again skips q s h in
      let (rest_stays, rest_silent) = run-again skips qs s hs in
      let x = settle down failed (skips q) s (exec down q s) in
      let next = run_statements down failed skips qs in
      (
        chain-same x next s stays rest_stays,
        λ ps d. chain-none x next s stays (silent ps.0 (d q)) (rest_silent ps.1 d),
      )
