-- ===== src/Schema/Upgrade.antt =====
-- store_mysql.go, store_device.go, store_apikey.go: the migrations on a new or an older database.
use clip_sync_server.Base.{
  All, Bool, Bool-cases, List, Option, Option-cases, Result, Text, [], any, ap, arith, err, false,
  inl, inr, none, ok, refl, same, same→eq, some, subst, sym, true, ℕ, ◌∷◌, ◌≡◌, All-both, All-mono,
  ◌&&◌,
}
use clip_sync_server.Schema.Planned.{
  IsOld, IsThere, both_true, every, lists, lists-IsThere, needs_met, old-IsThere, with_table-IsOld,
  offers, provided, every-All, planned, provided-IsThere, provided_step,
}
use clip_sync_server.Schema.{
  MigrateError, Schema, Statement, add_column, apply, are_columns, create_table, exec, extend,
  has_column, has_table, insert_after, settle, lists_column, is_some, run_statements,
}
use clip_sync_server.Schema.Repeats.{
  Passes, IsCareful, chain-next, exec-Retains, settle-Achieves, settle-Retains,
}
use clip_sync_server.Schema.Statements.{extend-IsGrowth, is_applied}
use clip_sync_server.Sms.Query.{present}

-- After a statement that works.
abbrev OldAfter : Text × Text → Result ℕ Schema → Type 0
OldAfter k (err e) = Unit
OldAfter k (ok s') = IsOld s' k

extend-OldAfter :
    (t c before : Text) (s : Schema) (k : Text × Text) (o : Option (List Text))
    → s t ≡ o
    → IsOld s k
    → OldAfter k (extend t c before s o)
extend-OldAfter t c before s k none e old = tt
extend-OldAfter t c before s k (some columns) e old = elim (Bool-cases (any (same c) columns)) [
  | inl there ↦ rw there tt
  | inr new ↦ elim (Bool-cases (any (same before) columns)) [
    | inl placed ↦
        rw (new, placed) (with_table-IsOld t (insert_after before c columns) s k grown old)
    | inr astray ↦ rw (new, astray) tt
  ]
]
  where
    grown : same k.0 t ≡ true → any (same k.1) (insert_after before c columns) ≡ true
    grown is_t =
        let here : has_table k.0 s ≡ true =
          subst (λ u. has_table u s ≡ true) (sym (same→eq k.0 t is_t)) (ap is_some e) in
        extend-IsGrowth t c before s columns e k.1
          (subst (λ u. has_column u k.1 s ≡ true) (same→eq k.0 t is_t) (old-IsThere s k here old))

apply-OldAfter :
    (q : Statement) (s : Schema) (k : Text × Text)
    → offers k q ≡ true
    → IsOld s k
    → OldAfter k (apply q s)
apply-OldAfter (create_table t columns references) s k h old = elim (Bool-cases (has_table t s)) [
  | inl there ↦ rw there old
  | inr new ↦ elim (Bool-cases (are_columns references s)) [
    | inl ready ↦ rw (new, ready) (with_table-IsOld t columns s k (λ e. ground (arith, h, e)) old)
    | inr early ↦ rw (new, early) tt
  ]
]
apply-OldAfter (add_column t c before) s k h old = extend-OldAfter t c before s k (s t) refl old

references_there :
    (s : Schema) (there references : List (Text × Text))
    → All (IsThere s) there
    → every (lists there) references ≡ true
    → are_columns references s ≡ true
references_there s there [] a h = refl
references_there s there (r ∷ references) a h =
    let (one, more) = both_true (lists there r) (every (lists there) references) h in
    rw (lists-IsThere s there r a one) (references_there s there references a more)

module _ (down : Statement → Bool) (up : (q : Statement) → down q ≡ false)
    (failed : ℕ → MigrateError) (skips : Statement → ℕ → Bool) where
  settle-none :
      (q : Statement) (s : Schema) (there : List (Text × Text))
      → Passes skips q
      → All (IsThere s) there
      → needs_met there q ≡ true
      → (settle down failed (skips q) s (exec down q s)).1 ≡ none
  settle-none (create_table t columns references) s there p a h =
      elim (Bool-cases (has_table t s)) [
        | inl present ↦ rw (up (create_table t columns references), present) refl
        | inr new ↦
            rw
              (up (create_table t columns references), new, references_there s there references a h)
              refl
      ]
  settle-none (add_column t c before) s there p a h =
      let base = lists-IsThere s there (t, before) a h in
      elim (Option-cases (s t)) [
        | inl e ↦
            let no : false ≡ true = subst (λ o. lists_column before o ≡ true) e base in ground arith
        | inr (columns, e) ↦
            let placed : any (same before) columns ≡ true =
              subst (λ o. lists_column before o ≡ true) e base in
            elim (Bool-cases (any (same c) columns)) [
              | inl double ↦ rw (up (add_column t c before), e, double) (rw p refl)
              | inr new ↦ rw (up (add_column t c before), e, new, placed) refl
            ]
      ]

  settle-IsOld :
      (q : Statement) (s : Schema) (k : Text × Text)
      → offers k q ≡ true
      → IsOld s k
      → IsOld (settle down failed (skips q) s (exec down q s)).0 k
  settle-IsOld q s k h old = rw (up q) (of (apply q s) (apply-OldAfter q s k h old))
    where
      of : (r : Result ℕ Schema) → OldAfter k r → IsOld (settle down failed (skips q) s r).0 k
      of (ok s') o = o
      of (err e) o = old

  pub run-planned :
      (qs : List Statement) (s : Schema) (known there : List (Text × Text))
      → IsCareful skips
      → All (Passes skips) qs
      → planned known there qs ≡ true
      → All (IsOld s) known
      → All (IsThere s) there
      → let x = run_statements down failed skips qs s in
        (x.1 ≡ none) × All (IsOld x.0) known × All (IsThere x.0) (provided known there qs)
  unfolding run_statements
  run-planned [] s known there careful p h old a = (refl, old, a)
  run-planned (q ∷ qs) s known there careful (p, ps) h old a =
      let rest_planned = planned known (provided known there (q ∷ [])) qs in
      let each = every (λ k. offers k q) known in
      let (now_planned, rest) = both_true (needs_met there q && each) rest_planned h in
      let (met, each_offers) = both_true (needs_met there q) each now_planned in
      let x = settle down failed (skips q) s (exec down q s) in
      let silent = settle-none q s there p a met in
      let old' : All (IsOld x.0) known =
        All-mono (λ k. (offers k q ≡ true) × IsOld s k) (IsOld x.0) known
          (λ k o. settle-IsOld q s k o.0 o.1)
          (All-both (λ k. offers k q ≡ true) (IsOld s) known
            (every-All (λ k. offers k q) known each_offers) old) in
      let kept : All (IsThere x.0) there =
        All-mono (IsThere s) (IsThere x.0) there
          (λ k.
            settle-Retains down failed (skips q) s (exec down q s) (exec-Retains down q s).0
              (add_column k.0 k.1 []))
          a in
      let achieved : is_applied x.0 q ≡ true =
        settle-Achieves down failed (skips q) q s (exec down q s) (careful q)
          (exec-Retains down q s).1 silent in
      let next = run_statements down failed skips qs in
      let (done, old_after, there_after) =
        run-planned qs x.0 known (provided known there (q ∷ [])) careful ps rest old'
          (provided-IsThere q x.0 known there achieved old' kept) in
      subst
        (λ y.
          (y.1 ≡ none) × All (IsOld y.0) known × All (IsThere y.0) (provided known there (q ∷ qs)))
        (sym (chain-next x next silent))
        (
          done,
          old_after,
          subst (λ ks. All (IsThere (next x.0).0) ks) (sym (provided_step known there q qs))
              there_after,
        )
