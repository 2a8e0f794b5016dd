-- ===== src/DbLib/Writing.antt =====
-- Writing rows into an insert statement. src/db_lib_impl.h.
use dupa.Base.{
  ℕ, Bool, true, ◌+◌, ◌≤◌, ◌≡◌, refl, sym, ap, ◌∙◌, subst, some, List, [], ◌∷◌, ◌++◌, length,
  length-append, arith,
}
use mathlib.Core.List.{append-nil, append_assoc}
use dupa.DbLib.Monad.{returned}
use dupa.DbLib.Interface.{Value, sqlite_ok, sqlite_done, Sqlite}
use dupa.DbLib.{Row, bind1, bind_impl, write, write_all}

-- A prepared statement has been reset and not been stepped since, or its last step was its end, or
-- something else.
pub data Stage : Type 0 where
  at_start at_end elsewhere : Stage

-- A connection is at rest, or has begun a transaction, or something else is under way.
pub data Mode : Type 0 where
  at_rest begun busy : Mode

module _ (sq : Sqlite) where
  open sq use {Db, Stmt, Double, step, clear_bindings, reset}

  -- What SQLite documents of a prepared INSERT into a table, where neither memory nor the disk fails:
  -- the values bound to its parameters, from the first on, and the rows of the table. A parameter can
  -- be bound only before the first step or after sqlite3_reset, and a row can be inserted only while
  -- the table exists. `Accepts` are the table's constraints.
  pub record IsInsert (s : Stmt) (columns : ℕ) : Type 1 where
    pub bound : Db → Row sq
    pub rows : Db → List (Row sq)
    pub stage : Db → Stage
    pub has_table : Db → Bool
    pub mode : Db → Mode
    pub Accepts : List (Row sq) → Row sq → Type 0
    pub binds :
        (d : Db) (v : Value Double)
        → stage d ≡ at_start
        → length (bound d) + 1 ≤ columns
        → (d' : Db) × (bind1 sq s (length (bound d) + 1) v d ≡ (sqlite_ok, d'))
          × (bound d' ≡ bound d ++ v ∷ [])
          × (rows d' ≡ rows d)
          × (stage d' ≡ at_start)
          × (has_table d' ≡ has_table d)
          × (mode d' ≡ mode d)
    pub inserts :
        (d : Db)
        → stage d ≡ at_start
        → has_table d ≡ true
        → length (bound d) ≡ columns
        → Accepts (rows d) (bound d)
        → (d' : Db) × (step (some s) d ≡ (sqlite_done, d'))
          × (rows d' ≡ rows d ++ bound d ∷ [])
          × (stage d' ≡ at_end)
          × (has_table d' ≡ has_table d)
          × (mode d' ≡ mode d)
    pub clears :
        (d : Db)
        → (d' : Db) × (clear_bindings s d ≡ (sqlite_ok, d'))
          × (bound d' ≡ [])
          × (rows d' ≡ rows d)
          × (stage d' ≡ stage d)
          × (has_table d' ≡ has_table d)
          × (mode d' ≡ mode d)
    pub resets :
        (d : Db)
        → stage d ≡ at_end
        → (d' : Db) × (reset s d ≡ (sqlite_ok, d'))
          × (bound d' ≡ bound d)
          × (rows d' ≡ rows d)
          × (stage d' ≡ at_start)
          × (has_table d' ≡ has_table d)
          × (mode d' ≡ mode d)

  module _ (s : Stmt) (columns : ℕ) (t : IsInsert s columns) where
    open t use {bound, rows, Accepts, stage, has_table, mode}

    -- The values are bound to the parameters from the first free one on.
    bind_impl_lem :
        (vs : Row sq) (d : Db) (idx : ℕ)
        → idx ≡ length (bound d) + 1
        → length (bound d) + length vs ≤ columns
        → stage d ≡ at_start
        → (d' : Db) × (bind_impl sq s idx vs d ≡ (returned tt, d'))
          × (bound d' ≡ bound d ++ vs)
          × (rows d' ≡ rows d)
          × (stage d' ≡ at_start)
          × (has_table d' ≡ has_table d)
          × (mode d' ≡ mode d)
    unfolding bind_impl
    bind_impl_lem [] d idx e b g = (d, refl, sym (append-nil (bound d)), refl, g, refl, refl)
    bind_impl_lem (v ∷ vs) d idx e b g =
        let (d1, p, q, r, g1, h1, m1) = t.binds d v g (omega arith) in
        let len = ap length q ∙ length-append (bound d) (v ∷ []) in
        let (d2, p2, q2, r2, g2, h2, m2) =
          bind_impl_lem vs d1 (idx + 1) (omega (arith, len)) (omega (arith, len)) g1 in
        let p' : bind1 sq s idx v d ≡ (sqlite_ok, d1) =
          subst (λ n. bind1 sq s n v d ≡ (sqlite_ok, d1)) (sym e) p in
        (
          d2,
          rw (p', p2) refl,
          q2 ∙ (ap (λ xs. xs ++ vs) q ∙ append_assoc (bound d) (v ∷ []) vs),
          r2 ∙ r,
          g2,
          h2 ∙ h1,
          m2 ∙ m1,
        )

    -- The statement is ready for a row: nothing is bound, it has been reset, and its table exists.
    abbrev pub Ready : Db → Type 0
    Ready d = (bound d ≡ []) × (stage d ≡ at_start) × (has_table d ≡ true)

    pub write_lem :
        (row : Row sq) (d : Db)
        → Ready d
        → length row ≡ columns
        → Accepts (rows d) row
        → (d' : Db) × (write sq s row d ≡ (returned tt, d'))
          × Ready d'
          × (rows d' ≡ rows d ++ row ∷ [])
          × (mode d' ≡ mode d)
    unfolding write
    write_lem row d (e, g, h) len ok =
        let (d1, p1, q1, r1, g1, h1, m1) =
          bind_impl_lem row d 1 (rw e (omega arith)) (rw e (omega (arith, len))) g in
        let b1 : bound d1 ≡ row = q1 ∙ ap (λ xs. xs ++ row) e in
        let (d2, p2, r2, g2, h2, m2) =
          t.inserts d1 g1 (h1 ∙ h) (ap length b1 ∙ len)
            (subst (λ b. Accepts (rows d1) b) (sym b1) (subst (λ x. Accepts x row) (sym r1) ok)) in
        let (d3, p3, b3, r3, g3, h3, m3) = t.clears d2 in
        let (d4, p4, b4, r4, g4, h4, m4) = t.resets d3 (g3 ∙ g2) in
        (
          d4,
          rw (p1, p2, p3, p4) refl,
          (b4 ∙ b3, g4, h4 ∙ (h3 ∙ (h2 ∙ (h1 ∙ h)))),
          r4 ∙ (r3 ∙ (r2 ∙ rw (r1, b1) refl)),
          m4 ∙ (m3 ∙ (m2 ∙ m1)),
        )

    -- Each row is accepted after those before it.
    abbrev pub AllAccepted : List (Row sq) → List (Row sq) → Type 0
    AllAccepted before [] = Unit
    AllAccepted before (r ∷ rs) =
        (length r ≡ columns) × Accepts before r × AllAccepted (before ++ r ∷ []) rs

    -- Rows that the table accepts are appended to it, in order, and the statement is ready again.
    pub write_all_lem :
        (rs : List (Row sq)) (d : Db)
        → Ready d
        → AllAccepted (rows d) rs
        → (d' : Db) × (write_all sq s rs d ≡ (returned tt, d'))
          × Ready d'
          × (rows d' ≡ rows d ++ rs)
          × (mode d' ≡ mode d)
    unfolding write_all
    write_all_lem [] d e a = (d, refl, e, sym (append-nil (rows d)), refl)
    write_all_lem (r ∷ rs) d e (len, ok, more) =
        let (d1, p1, e1, r1, m1) = write_lem r d e len ok in
        let (d2, p2, e2, r2, m2) =
          write_all_lem rs d1 e1 (subst (λ x. AllAccepted x rs) (sym r1) more) in
        (
          d2,
          rw (p1, p2) refl,
          e2,
          r2 ∙ (ap (λ x. x ++ rs) r1 ∙ append_assoc (rows d) (r ∷ []) rs),
          m2 ∙ m1,
        )
