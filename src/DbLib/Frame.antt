-- ===== src/DbLib/Frame.antt =====
-- What a statement that is written to leaves alone. src/db_lib_impl.h.
use dupa.Base.{
  ℕ, ◌+◌, ◌≡◌, sym, ap, ◌∙◌, inl, inr, refl, Bool-cases, some, List, [], ◌∷◌, ◌==◌, ==_iff, arith,
}
use dupa.DbLib.Monad.{Outcome, returned, thrown, crashed, M, and_then, ensure}
use dupa.DbLib.Interface.{Value, sqlite_ok, sqlite_done, Sqlite}
use dupa.DbLib.{Row, bind1, bind_impl, write, write_all}

-- A sequence returns if both parts do.
and_then-returned :
    {D A B : Type 0} (o : Outcome A × D) (f : A → M D B) (b : B) (d' : D)
    → and_then o f ≡ (returned b, d')
    → (a : A) × (d1 : D) × (o ≡ (returned a, d1)) × (f a d1 ≡ (returned b, d'))
and_then-returned (returned a, d) f b d' e = (a, d, refl, e)
and_then-returned (thrown code, d) f b d' e = absurd (let z = ap (λ p. p.0) e in ground arith)
and_then-returned (crashed, d) f b d' e = absurd (let z = ap (λ p. p.0) e in ground arith)

module _ (sq : Sqlite) {X : Type 0} (g : sq.Db → X) where
  open sq use {Db, Stmt, Double}

  -- No call on the statement that succeeds changes what is looked at.
  pub record IsKept (s : Stmt) : Type 0 where
    pub binds :
        (idx : ℕ) (v : Value Double) (d : Db)
        → (bind1 sq s idx v d).0 ≡ sqlite_ok
        → g (bind1 sq s idx v d).1 ≡ g d
    pub steps : (d : Db) → (sq.step (some s) d).0 ≡ sqlite_done → g (sq.step (some s) d).1 ≡ g d
    pub clears :
        (d : Db) → (sq.clear_bindings s d).0 ≡ sqlite_ok → g (sq.clear_bindings s d).1 ≡ g d
    pub resets : (d : Db) → (sq.reset s d).0 ≡ sqlite_ok → g (sq.reset s d).1 ≡ g d

  -- What comes after a call that is checked returns only if the call succeeds.
  checked :
      {A : Type 0} (r : ℕ × Db) (good : ℕ) (code : Db → ℕ) (rest : M Db A) (a : A) (d' : Db)
      → and_then (ensure (r.0 == good) code r.1) (λ _. rest) ≡ (returned a, d')
      → (r.0 ≡ good) × (rest r.1 ≡ (returned a, d'))
  checked r good code rest a d' e = elim (Bool-cases (r.0 == good)) [
    | inl ok ↦ ((==_iff r.0 good).0 ok, rw ok at e)
    | inr bad ↦ absurd (let z = ap (λ p. p.0) (rw bad at e) in ground arith)
  ]

  last_checked :
      (r : ℕ × Db) (good : ℕ) (code : Db → ℕ) (d' : Db)
      → ensure (r.0 == good) code r.1 ≡ (returned tt, d')
      → (r.0 ≡ good) × (r.1 ≡ d')
  last_checked r good code d' e = elim (Bool-cases (r.0 == good)) [
    | inl ok ↦ ((==_iff r.0 good).0 ok, ap (λ p. p.1) (rw ok at e))
    | inr bad ↦ absurd (let z = ap (λ p. p.0) (rw bad at e) in ground arith)
  ]

  module _ (s : Stmt) (k : IsKept s) where
    bind_impl-kept :
        (row : Row sq) (idx : ℕ) (d d' : Db)
        → bind_impl sq s idx row d ≡ (returned tt, d')
        → g d' ≡ g d
    unfolding bind_impl
    bind_impl-kept [] idx d d' e = ap (λ p. g p.1) (sym e)
    bind_impl-kept (v ∷ vs) idx d d' e =
        let r = bind1 sq s idx v d in
        let (ok, rest) = checked r sqlite_ok (λ _. r.0) (bind_impl sq s (idx + 1) vs) tt d' e in
        bind_impl-kept vs (idx + 1) r.1 d' rest ∙ k.binds idx v d ok

    pub write-kept : (row : Row sq) (d d' : Db) → write sq s row d ≡ (returned tt, d') → g d' ≡ g d
    unfolding write
    write-kept row d d' e =
        let (u, d1, bound, e1) = and_then-returned (bind_impl sq s 1 row d) _ tt d' e in
        let (ok1, e2) = checked (sq.step (some s) d1) sqlite_done sq.errcode _ tt d' e1 in
        let d2 = (sq.step (some s) d1).1 in
        let (ok2, e3) = checked (sq.clear_bindings s d2) sqlite_ok sq.errcode _ tt d' e2 in
        let d3 = (sq.clear_bindings s d2).1 in
        let (ok3, e4) = last_checked (sq.reset s d3) sqlite_ok sq.errcode d' e3 in
        ap g (sym e4)
        ∙ (k.resets d3 ok3 ∙ (k.clears d2 ok2 ∙ (k.steps d1 ok1 ∙ bind_impl-kept row 1 d d1 bound)))

    -- Writing to a statement, when it succeeds, leaves alone what its calls leave alone.
    pub write_all-kept :
        (rows : List (Row sq)) (d d' : Db) → write_all sq s rows d ≡ (returned tt, d') → g d' ≡ g d
    unfolding write_all
    write_all-kept [] d d' e = ap (λ p. g p.1) (sym e)
    write_all-kept (r ∷ rs) d d' e =
        let (u, d1, first, rest) = and_then-returned (write sq s r d) _ tt d' e in
        write_all-kept rs d1 d' rest ∙ write-kept r d d1 first
