-- ===== src/DbLib/Reading.antt =====
-- A loop over a query delivers the rows that SQLite yields. src/db_lib_impl.h.
use dupa.Base.{
  String, ℕ, zero, suc, ◌+◌, ◌≤◌, ◌≡◌, ◌≢◌, refl, Option, none, some, List, [], ◌∷◌, foldl, length,
  arith,
}
use dupa.DbLib.Monad.{Outcome, returned, thrown, ◌>>=◌}
use dupa.DbLib.Interface.{Kind, sqlite_row, sqlite_done, Sqlite}
use dupa.DbLib.{Row, unpack_impl, InStream, fetch, in_stream, loop, range_for, prepare_stmt, query}

-- How the rows of a statement end: after the last one, or with an error.
pub data Ending : Type 0 where
  finished : Ending
  failed : ℕ → Ending

abbrev pub outcome : {A : Type 0} → Ending → A → Outcome A
outcome finished a = returned a
outcome (failed code) a = thrown code

module _ (sq : Sqlite) where
  open sq use {Db, Stmt, step}

  -- What the calls of sqlite3_step yield, one after the other, from a connection on.
  pub data Yields (kinds : List Kind) (s : Stmt) : Db → List (Row sq) → Ending → Db → Type 0 where
    last : {d d' : Db} → step (some s) d ≡ (sqlite_done, d') → Yields kinds s d [] finished d'
    broken :
        {d d' : Db} (code : ℕ)
        → step (some s) d ≡ (code, d')
        → code ≢ sqlite_done
        → code ≢ sqlite_row
        → Yields kinds s d [] (failed code) d'
    unreadable :
        {d d1 d' : Db} (code : ℕ)
        → step (some s) d ≡ (sqlite_row, d1)
        → unpack_impl sq kinds s 0 d1 ≡ (thrown code, d')
        → Yields kinds s d [] (failed code) d'
    next :
        {d d1 d2 d' : Db} {r : Row sq} {rs : List (Row sq)} {e : Ending}
        → step (some s) d ≡ (sqlite_row, d1)
        → unpack_impl sq kinds s 0 d1 ≡ (returned r, d2)
        → Yields kinds s d2 rs e d'
        → Yields kinds s d (r ∷ rs) e d'

  module _ (kinds : List Kind) (s : Stmt) where
    -- A stream with a row in its buffer, and one at its end.
    abbrev holding : Option (Row sq) → InStream sq
    holding o = record { kinds = kinds; stmt = some s; next_row = o }

    abbrev ended : InStream sq
    ended = record { kinds = kinds; stmt = none; next_row = none }

    fetch_last :
        (o : Option (Row sq)) (d d' : Db)
        → step (some s) d ≡ (sqlite_done, d')
        → fetch sq (holding o) d ≡ (returned ended, d')
    unfolding fetch
    fetch_last o d d' e = rw e refl

    fetch_row :
        (o : Option (Row sq)) (d d1 d2 : Db) (r : Row sq)
        → step (some s) d ≡ (sqlite_row, d1)
        → unpack_impl sq kinds s 0 d1 ≡ (returned r, d2)
        → fetch sq (holding o) d ≡ (returned (holding (some r)), d2)
    unfolding fetch
    fetch_row o d d1 d2 r e u = rw (e, u) refl

    fetch_unreadable :
        (o : Option (Row sq)) (d d1 d2 : Db) (code : ℕ)
        → step (some s) d ≡ (sqlite_row, d1)
        → unpack_impl sq kinds s 0 d1 ≡ (thrown code, d2)
        → fetch sq (holding o) d ≡ (thrown code, d2)
    unfolding fetch
    fetch_unreadable o d d1 d2 code e u = rw (e, u) refl

    fetch_broken :
        (o : Option (Row sq)) (d d' : Db) (code : ℕ)
        → step (some s) d ≡ (code, d')
        → code ≢ sqlite_done
        → code ≢ sqlite_row
        → fetch sq (holding o) d ≡ (thrown code, d')
    unfolding fetch
    fetch_broken o d d' code e nd nr = rw e (ground arith)

    module _ {A : Type 0} (f : A → Row sq → A) where
      -- The loop, the iterator at the row `r` and the stream at its end.
      loop-ended :
          (fuel : ℕ) (a : A) (r : Row sq) (d : Db)
          → loop sq (suc (suc fuel)) f a (record { stream = some ended; value = r }) d
            ≡ (returned (f a r), d)
      unfolding loop
      loop-ended fuel a r d = refl

      -- The iterator at the row `r`, the row `r2` in the buffer, and `rs` to come.
      loop-holding :
          (fuel : ℕ) (a : A) (r r2 : Row sq) (rs : List (Row sq)) (e : Ending) (d d' : Db)
          → Yields kinds s d rs e d'
          → length rs + 3 ≤ fuel
          → loop sq fuel f a (record { stream = some (holding (some r2)); value = r }) d
            ≡ (outcome e (foldl f (f (f a r) r2) rs), d')
      unfolding loop
      loop-holding zero a r r2 rs e d d' y b = absurd (omega arith)
      loop-holding (suc zero) a r r2 rs e d d' y b = absurd (omega arith)
      loop-holding (suc (suc zero)) a r r2 rs e d d' y b = absurd (omega arith)
      loop-holding (suc (suc (suc fuel))) a r r2 rs e d d' (last p) b =
          let q = fetch_last (some r2) d d' p in rw q (loop-ended fuel (f a r) r2 d')
      loop-holding (suc (suc (suc fuel))) a r r2 rs e d d' (broken code p nd nr) b =
          let q = fetch_broken (some r2) d d' code p nd nr in rw q refl
      loop-holding (suc (suc (suc fuel))) a r r2 rs e d d' (unreadable code p u) b =
          let q = fetch_unreadable (some r2) d _ d' code p u in rw q refl
      loop-holding (suc (suc (suc fuel))) a r r2 rs e d d' (next p u y) b =
          let q = fetch_row (some r2) d _ _ _ p u in
          rw q (loop-holding (suc (suc fuel)) (f a r) r2 _ _ e _ d' y (omega arith))

      -- The stream's constructor and the loop.
      in_stream-range_for :
          (fuel : ℕ) (a : A) (rs : List (Row sq)) (e : Ending) (d d' : Db)
          → Yields kinds s d rs e d'
          → length rs + 2 ≤ fuel
          → (in_stream sq kinds s >>= range_for sq fuel f a) d ≡ (outcome e (foldl f a rs), d')
      unfolding in_stream range_for
      in_stream-range_for zero a rs e d d' y b = absurd (omega arith)
      in_stream-range_for (suc zero) a rs e d d' y b = absurd (omega arith)
      in_stream-range_for (suc (suc fuel)) a rs e d d' (last p) b =
          let q = fetch_last none d d' p in rw q refl
      in_stream-range_for (suc (suc fuel)) a rs e d d' (broken code p nd nr) b =
          let q = fetch_broken none d d' code p nd nr in rw q refl
      in_stream-range_for (suc (suc fuel)) a rs e d d' (unreadable code p u) b =
          let q = fetch_unreadable none d _ d' code p u in rw q refl
      in_stream-range_for (suc (suc fuel)) a rs e d d' (next {d2 = d2} {r = r} p u (last p2)) b =
          let q = fetch_row none d _ _ _ p u in
          let q2 = fetch_last (some r) d2 d' p2 in rw (q, q2) (loop-ended fuel a r d')
      in_stream-range_for (suc (suc fuel)) a rs e d d'
            (next {d2 = d2} {r = r} p u (broken code p2 nd nr)) b =
          let q = fetch_row none d _ _ _ p u in
          let q2 = fetch_broken (some r) d2 d' code p2 nd nr in rw (q, q2) refl
      in_stream-range_for (suc (suc fuel)) a rs e d d'
            (next {d2 = d2} {r = r} p u (unreadable {d1 = d3} code p2 u2)) b =
          let q = fetch_row none d _ _ _ p u in
          let q2 = fetch_unreadable (some r) d2 d3 d' code p2 u2 in rw (q, q2) refl
      in_stream-range_for (suc (suc fuel)) a rs e d d'
            (next {d2 = d2} {r = r} p u (next {d1 = d3} {d2 = d4} {r = r2} p2 u2 y)) b =
          let q = fetch_row none d _ _ _ p u in
          let q2 = fetch_row (some r) d2 d3 d4 r2 p2 u2 in
          rw (q, q2) (loop-holding (suc (suc fuel)) a _ _ _ e _ d' y (omega arith))

  -- A loop over a query whose statement yields some rows and then ends runs its body on exactly those
  -- rows, in order; if the statement fails after some rows, the loop throws SQLite's code. The number
  -- of rows and two are enough fuel.
  pub query-range_for :
      {A : Type 0} (f : A → Row sq → A) (a : A) (kinds : List Kind) (sql : String) (s : Stmt)
      (rs : List (Row sq)) (e : Ending) (d d1 d' : Db)
      → prepare_stmt sq sql d ≡ (returned s, d1)
      → Yields kinds s d1 rs e d'
      → (query sq kinds sql >>= range_for sq (length rs + 2) f a) d ≡ (outcome e (foldl f a rs), d')
  unfolding query
  query-range_for f a kinds sql s rs e d d1 d' p y =
      rw p (in_stream-range_for kinds s f (length rs + 2) a rs e d1 d' y (omega arith))
