-- ===== src/DbOutput/Written.antt =====
-- The tables after a comparison hold its reports. src/db_output.cpp.
use dupa.Base.{
  ◌==◌, ==_iff, false, inl, inr, ◌≡◌, ◌≢◌, refl, sym, ap, ◌∙◌, subst, List, [], ◌∷◌, ◌++◌, map, In,
}
use mathlib.Core.List.{append-nil, append_assoc}
use dupa.DbLib.Monad.{Outcome, returned}
use dupa.DbLib.Interface.{Sqlite}
use dupa.DbLib.{Row, write, write_all}
use dupa.DbLib.Writing.{IsInsert, Ready, AllAccepted, write_lem, write_all_lem}
use dupa.DbLib.Frame.{IsKept, write-kept, write_all-kept}
use dupa.DirCompare.Reports.{
  Report, overwritten_by, copied_from, rename_to, content_changed, removed, new_file, emit, replay,
}
use dupa.DbOutput.{DirCompDbStream, path_row, candidate_row, db_stream}
use dupa.DbOutput.Rows.{Table, stmt_of, width, row_list, rows_of, table_of, number, Table-cases}

module _ (sq : Sqlite) (st : DirCompDbStream sq.Stmt) where
  open sq use {Db, Stmt}

  -- What SQLite documents of the six statements: each inserts into a table of its own.
  pub record Tables : Type 1 where
    pub insert : (t : Table) → IsInsert sq (stmt_of st t) (width t)
    pub rows_kept :
        (t u : Table) → t ≢ u → IsKept sq (λ d. IsInsert.rows (insert u) d) (stmt_of st t)
    pub bound_kept :
        (t u : Table) → t ≢ u → IsKept sq (λ d. IsInsert.bound (insert u) d) (stmt_of st t)
    pub stage_kept :
        (t u : Table) → t ≢ u → IsKept sq (λ d. IsInsert.stage (insert u) d) (stmt_of st t)
    pub table_kept :
        (t u : Table) → t ≢ u → IsKept sq (λ d. IsInsert.has_table (insert u) d) (stmt_of st t)
    -- The constraint UNIQUE refuses a row that is there already; a table of candidates has none.
    pub accepts_new :
        (t : Table) (before : List (Row sq)) (row : Row sq)
        → ¬ In row before
        → IsInsert.Accepts (insert t) before row
    pub accepts_candidate :
        (t : Table) (before : List (Row sq)) (row : Row sq)
        → width t ≡ 2
        → IsInsert.Accepts (insert t) before row

  module _ (ts : Tables) where
    open ts use {insert}

    abbrev pub rows_at : Table → Db → List (Row sq)
    rows_at t d = IsInsert.rows (insert t) d

    -- Every statement is ready for a row.
    abbrev pub AllReady : Db → Type 0
    AllReady d = (t : Table) → Ready sq (stmt_of st t) (width t) (insert t) d

    -- The outcome of a write to one table.
    abbrev Wrote : Table → List (Row sq) → Db → Outcome (Unit {0}) × Db → Type 0
    Wrote t xs d o =
        (d' : Db) × (o ≡ (returned tt, d'))
        × AllReady d'
        × (rows_at t d' ≡ rows_at t d ++ xs)
        × ((u : Table) → t ≢ u → rows_at u d' ≡ rows_at u d)

    -- What every statement but one sees is kept.
    abbrev IsAside : {X : Type 0} → (Table → Db → X) → Table → Db → Db → Type 0
    IsAside g t d d' = (u : Table) → t ≢ u → g u d' ≡ g u d

    wrote :
        (t : Table) (xs : List (Row sq)) (d d' : Db) (o : Outcome (Unit {0}) × Db)
        → AllReady d
        → o ≡ (returned tt, d')
        → Ready sq (stmt_of st t) (width t) (insert t) d'
        → rows_at t d' ≡ rows_at t d ++ xs
        → IsAside rows_at t d d'
        → IsAside (λ u. IsInsert.bound (insert u)) t d d'
        → IsAside (λ u. IsInsert.stage (insert u)) t d d'
        → IsAside (λ u. IsInsert.has_table (insert u)) t d d'
        → Wrote t xs d o
    wrote t xs d d' o a e b r kept bound stage table = (
      d',
      e,
      (λ u. elim (Table-cases t u) [
        | inl (_, same) ↦ subst (λ w. Ready sq (stmt_of st w) (width w) (insert w) d') same b
        | inr (_, ne) ↦
            let (empty, start, there) = a u in
            (bound u ne ∙ empty, stage u ne ∙ start, table u ne ∙ there)
      ]),
      r,
      kept,
    )

    write_all-Wrote :
        (t : Table) (xs : List (Row sq)) (d : Db)
        → AllReady d
        → AllAccepted sq (stmt_of st t) (width t) (insert t) (rows_at t d) xs
        → Wrote t xs d (write_all sq (stmt_of st t) xs d)
    write_all-Wrote t xs d a ok =
        let (d', e, b, r, _) = write_all_lem sq (stmt_of st t) (width t) (insert t) xs d (a t) ok in
        let keeps : (X : Type 0) (g : Db → X) → IsKept sq g (stmt_of st t) → g d' ≡ g d =
          λ X g k. write_all-kept sq g (stmt_of st t) k xs d d' e in
        wrote t xs d d' (write_all sq (stmt_of st t) xs d) a e b r
          (λ u ne. keeps _ (rows_at u) (ts.rows_kept t u ne))
          (λ u ne. keeps _ (IsInsert.bound (insert u)) (ts.bound_kept t u ne))
          (λ u ne. keeps _ (IsInsert.stage (insert u)) (ts.stage_kept t u ne))
          (λ u ne. keeps _ (IsInsert.has_table (insert u)) (ts.table_kept t u ne))

    write-Wrote :
        (t : Table) (row : Row sq) (d : Db)
        → AllReady d
        → AllAccepted sq (stmt_of st t) (width t) (insert t) (rows_at t d) (row ∷ [])
        → Wrote t (row ∷ []) d (write sq (stmt_of st t) row d)
    write-Wrote t row d a (len, ok, _) =
        let (d', e, b, r, _) =
          write_lem sq (stmt_of st t) (width t) (insert t) row d (a t) len ok in
        let keeps : (X : Type 0) (g : Db → X) → IsKept sq g (stmt_of st t) → g d' ≡ g d =
          λ X g k. write-kept sq g (stmt_of st t) k row d d' e in
        wrote t (row ∷ []) d d' (write sq (stmt_of st t) row d) a e b r
          (λ u ne. keeps _ (rows_at u) (ts.rows_kept t u ne))
          (λ u ne. keeps _ (IsInsert.bound (insert u)) (ts.bound_kept t u ne))
          (λ u ne. keeps _ (IsInsert.stage (insert u)) (ts.stage_kept t u ne))
          (λ u ne. keeps _ (IsInsert.has_table (insert u)) (ts.table_kept t u ne))

    emit-Wrote :
        (r : Report) (d : Db)
        → AllReady d
        → AllAccepted sq
            (stmt_of st (table_of r))
            (width (table_of r))
            (insert (table_of r))
            (rows_at (table_of r) d)
            (row_list r)
        → Wrote (table_of r) (row_list r) d (emit (db_stream sq st) r (returned tt, d))
    unfolding db_stream
    emit-Wrote (overwritten_by f cs) d a ok = write_all-Wrote _ (map (candidate_row f) cs) d a ok
    emit-Wrote (copied_from f cs) d a ok = write_all-Wrote _ (map (candidate_row f) cs) d a ok
    emit-Wrote (rename_to f cs) d a ok = write_all-Wrote _ (map (candidate_row f) cs) d a ok
    emit-Wrote (content_changed f) d a ok = write-Wrote _ (path_row f) d a ok
    emit-Wrote (removed f) d a ok = write-Wrote _ (path_row f) d a ok
    emit-Wrote (new_file f) d a ok = write-Wrote _ (path_row f) d a ok

    -- Rows that are accepted after those before them, in two parts.
    AllAccepted-append :
        (t : Table) (before xs ys : List (Row sq))
        → AllAccepted sq (stmt_of st t) (width t) (insert t) before (xs ++ ys)
        → AllAccepted sq (stmt_of st t) (width t) (insert t) before xs
          × AllAccepted sq (stmt_of st t) (width t) (insert t) (before ++ xs) ys
    AllAccepted-append t before [] ys a = (
      tt,
      subst (λ b. AllAccepted sq (stmt_of st t) (width t) (insert t) b ys) (sym (append-nil before))
          a,
    )
    AllAccepted-append t before (x ∷ xs) ys (len, ok, a) =
        let (left, right) = AllAccepted-append t (before ++ x ∷ []) xs ys a in
        (
          (len, ok, left),
          subst (λ b. AllAccepted sq (stmt_of st t) (width t) (insert t) b ys)
              (append_assoc before (x ∷ []) xs) right,
        )

    -- The rows of the reports can be inserted.
    abbrev pub Fits : List Report → Db → Type 0
    Fits rs d =
        (t : Table)
        → AllAccepted sq (stmt_of st t) (width t) (insert t) (rows_at t d) (rows_of t rs)

    rows_of-own :
        (r : Report) (rs : List Report)
        → rows_of (table_of r) (r ∷ rs) ≡ row_list {D = sq.Double} r ++ rows_of (table_of r) rs
    rows_of-own r rs = rw ((==_iff (number (table_of r)) (number (table_of r))).1 refl) refl

    rows_of-other :
        (t : Table) (r : Report) (rs : List Report)
        → number (table_of r) == number t ≡ false
        → rows_of {D = sq.Double} t (r ∷ rs) ≡ rows_of t rs
    rows_of-other t r rs e = rw e refl

    pub replay-rows :
        (rs : List Report) (d : Db)
        → AllReady d
        → Fits rs d
        → (d' : Db) × (replay (db_stream sq st) rs (returned tt, d) ≡ (returned tt, d'))
          × AllReady d'
          × ((t : Table) → rows_at t d' ≡ rows_at t d ++ rows_of t rs)
    replay-rows [] d a f = (d, refl, a, λ t. sym (append-nil (rows_at t d)))
    replay-rows (r ∷ rs) d a f =
        let own = table_of r in
        let (ok, later) = AllAccepted-append own (rows_at own d) (row_list r) (rows_of own rs) (
          subst (AllAccepted sq (stmt_of st own) (width own) (insert own) (rows_at own d))
            (rows_of-own r rs) (f own)) in
        let (d1, e1, a1, r1, k1) = emit-Wrote r d a ok in
        let f1 : Fits rs d1 = λ t. elim (Table-cases own t) [
          | inl (_, same) ↦
              subst
                (λ u.
                  AllAccepted sq (stmt_of st u) (width u) (insert u) (rows_at u d1) (rows_of u rs))
                same
                (subst
                  (λ b. AllAccepted sq (stmt_of st own) (width own) (insert own) b (rows_of own rs))
                  (sym r1) later)
          | inr (ne, other) ↦
              subst (λ b. AllAccepted sq (stmt_of st t) (width t) (insert t) b (rows_of t rs))
                (sym (k1 t other))
                (subst (AllAccepted sq (stmt_of st t) (width t) (insert t) (rows_at t d))
                  (rows_of-other t r rs ne) (f t))
        ] in
        let (d2, e2, a2, r2) = replay-rows rs d1 a1 f1 in
        (
          d2,
          ap (replay (db_stream sq st) rs) e1 ∙ e2,
          a2,
          λ t. r2 t ∙ elim (Table-cases own t) [
            | inl (_, same) ↦
                subst (λ u. rows_at u d1 ++ rows_of u rs ≡ rows_at u d ++ rows_of u (r ∷ rs)) same
                  (ap (λ b. b ++ rows_of own rs) r1
                    ∙ (append_assoc (rows_at own d) (row_list r) (rows_of own rs)
                        ∙ ap (λ l. rows_at own d ++ l) (sym (rows_of-own r rs))))
            | inr (ne, other) ↦
                ap (λ b. b ++ rows_of t rs) (k1 t other)
                ∙ ap (λ l. rows_at t d ++ l) (sym (rows_of-other t r rs ne))
          ],
        )
