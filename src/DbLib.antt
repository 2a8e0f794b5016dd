-- ===== src/DbLib.antt =====
-- src/db_lib.h, src/db_lib_impl.h and src/db_lib.cpp: statements as streams, over SQLite.
pub mod Monad
pub mod Interface
pub mod Reading
pub mod Writing
pub mod Frame
mod Tests
use dupa.Base.{
  ℕ, zero, suc, ◌+◌, Bool, true, false, not, String, Option, none, some, List, [], ◌∷◌, ◌==◌,
  if◌then◌else◌, is_some,
}
use Monad.{
  Outcome, returned, thrown, crashed, M, and_then, ◌>>=◌, ◌>>◌, pure, throw, crash, call, ensure,
}
use Interface.{
  Kind, integral, floating, string, Value, int64, double, text, sqlite_ok, sqlite_nomem, sqlite_row,
  sqlite_done, Sqlite,
}

module _ (sq : Sqlite) where
  open sq use {Db, Stmt, Double}

  abbrev pub Row : Type 0
  Row = List (Value Double)

  -- Bind1
  abbrev pub bind1 : Stmt → ℕ → Value Double → Db → ℕ × Db
  bind1 s idx (int64 n) = sq.bind_int64 s idx n
  bind1 s idx (double x) = sq.bind_double s idx x
  bind1 s idx (text t) = sq.bind_text s idx t

  -- BindImpl
  unfoldable pub bind_impl : Stmt → ℕ → Row → M Db (Unit {0})
  bind_impl s idx [] = pure tt
  bind_impl s idx (v ∷ vs) = do
    res ← call (bind1 s idx v)
    ensure (res == sqlite_ok) (λ d. res)
    bind_impl s (idx + 1) vs

  -- DBOutStream::Write
  unfoldable pub write : Stmt → Row → M Db (Unit {0})
  unfolding bind_impl
  write s args = do
    bind_impl s 1 args
    res ← call (sq.step (some s))
    ensure (res == sqlite_done) sq.errcode
    res2 ← call (sq.clear_bindings s)
    ensure (res2 == sqlite_ok) sq.errcode
    res3 ← call (sq.reset s)
    ensure (res3 == sqlite_ok) sq.errcode

  -- std::transform or a loop into an output stream: DBOutputIt writes each tuple.
  unfoldable pub write_all : Stmt → List Row → M Db (Unit {0})
  unfolding write
  write_all s [] = pure tt
  write_all s (r ∷ rs) = do write s r; write_all s rs

  -- Unpack1
  abbrev pub unpack1 : Kind → Stmt → ℕ → M Db (Value Double)
  unpack1 integral s idx = call (sq.column_int64 s idx) >>= λ n. pure (int64 n)
  unpack1 floating s idx = call (sq.column_double s idx) >>= λ x. pure (double x)
  unpack1 string s idx = call (sq.column_text s idx) >>= λ t. pure (text t)

  -- UnpackImpl: a lack of memory is the only failure that is looked for.
  unfoldable pub unpack_impl : List Kind → Stmt → ℕ → M Db Row
  unpack_impl [] s idx = pure []
  unpack_impl (k ∷ ks) s idx = do
    t ← unpack1 k s idx
    err ← call (λ d. (sq.errcode d, d))
    ensure (not (err == sqlite_nomem)) sq.errcode
    rest ← unpack_impl ks s (idx + 1)
    pure (t ∷ rest)

  -- DBInStream; `stmt` is null once the end has been reached.
  pub record InStream : Type 0 where
    pub kinds : List Kind
    pub stmt : Option Stmt
    pub next_row : Option Row

  -- The `switch` of DBInStream::Fetch.
  unfoldable pub fetched : InStream → ℕ → M Db InStream
  unfolding unpack_impl
  fetched s res =
      if res == sqlite_done
      then pure (record s { stmt = none; next_row = none })
      else if res == sqlite_row
      then elim s.stmt [
        | none ↦ crash
        | some p ↦ unpack_impl s.kinds p 0 >>= λ r. pure (record s { next_row = some r })
      ]
      else throw res

  -- DBInStream::Fetch
  unfoldable pub fetch : InStream → M Db InStream
  unfolding fetched
  fetch s = do res ← call (sq.step s.stmt); fetched (record s { next_row = none }) res

  -- DBInStream::DBInStream
  unfoldable pub in_stream : List Kind → Stmt → M Db InStream
  unfolding fetch
  in_stream kinds s = fetch (record { kinds = kinds; stmt = some s; next_row = none })

  -- `*res`
  abbrev deref : Option Row → M Db Row
  deref none = crash
  deref (some r) = pure r

  -- DBInStream::Read
  unfoldable pub read : InStream → M Db (Row × InStream)
  unfolding fetch
  read s = do s' ← fetch s; r ← deref s.next_row; pure (r, s')

  -- DBInStream::Eof
  abbrev pub eof : InStream → Bool
  eof s = not (is_some s.next_row)

  -- DBInputIt, with the stream that it points to.
  pub record InputIt : Type 0 where
    pub stream : Option InStream
    pub value : Row

  -- What DBInputIt::Fetch does with a stream.
  unfoldable pub it_read : InputIt → InStream → M Db InputIt
  unfolding read
  it_read it s = elim s.next_row [
    | none ↦ pure (record it { stream = none })
    | some _ ↦ read s >>= λ (r, s'). pure (record { stream = some s'; value = r })
  ]

  -- DBInputIt::Fetch
  unfoldable pub it_fetch : InputIt → M Db InputIt
  unfolding it_read
  it_fetch it = elim it.stream [ none ↦ pure it | some s ↦ it_read it s ]

  -- DBInputIt::operator++
  unfoldable pub increment : InputIt → M Db InputIt
  unfolding it_fetch
  increment it = elim it.stream [ none ↦ crash | some s ↦ it_fetch it ]

  -- begin()
  unfoldable pub begin : InStream → M Db InputIt
  unfolding it_fetch
  begin s = it_fetch (record { stream = some s; value = [] })

  -- `for (const auto &row : stream)` with a body that does not touch the connection, until the
  -- iterator is equal to end(). The fuel bounds the rounds.
  unfoldable pub loop : {A : Type 0} → ℕ → (A → Row → A) → A → InputIt → M Db A
  unfolding increment
  loop zero f a it = crash
  loop (suc fuel) f a it = elim it.stream [
    | none ↦ pure a
    | some _ ↦ increment it >>= loop fuel f (f a it.value)
  ]

  unfoldable pub range_for : {A : Type 0} → ℕ → (A → Row → A) → A → InStream → M Db A
  unfolding begin loop
  range_for fuel f a s = do it ← begin s; loop fuel f a it

  -- DBConnection::PrepareStmt
  unfoldable pub prepare_stmt : String → M Db Stmt
  prepare_stmt sql = do
    res ← call (sq.prepare sql)
    ensure (res.0 == sqlite_ok) sq.errcode
    pure res.1

  -- DBConnection::Query
  unfoldable pub query : List Kind → String → M Db InStream
  unfolding prepare_stmt in_stream
  query kinds sql = do s ← prepare_stmt sql; in_stream kinds s

  -- DBConnection::Exec
  unfoldable pub exec : String → M Db (Unit {0})
  exec sql = do res ← call (sq.exec sql); ensure (res == sqlite_ok) sq.errcode

  -- DBConnection::DBConnection: `none` is an exception.
  unfoldable pub connect : String → ℕ → Option Db
  connect path flags =
      let (res, d) = sq.open_v2 path flags in
      let (res2, d2) =
        sq.exec
          "PRAGMA page_size = 65536; PRAGMA synchronous = 0; PRAGMA journal_mode = OFF;PRAGMA foreign_keys = 1;"
          d in
      if res == sqlite_ok then (if res2 == sqlite_ok then some d2 else none) else none

  -- DBTransaction::Rollback and DBTransaction::Commit, with ongoing_ after them.
  unfoldable pub rollback : M Db Bool
  unfolding exec
  rollback = do exec "ROLLBACK TRANSACTION"; pure false

  unfoldable pub commit : M Db Bool
  unfolding exec
  commit = do exec "COMMIT TRANSACTION"; pure false

  -- The end of a scope with a DBTransaction that is still ongoing: the exception goes on after
  -- ROLLBACK, and another one on the way ends the program.
  abbrev pub rolled_back : {A : Type 0} → ℕ → Outcome Bool × Db → Outcome A × Db
  rolled_back code (returned b, d) = (thrown code, d)
  rolled_back code (thrown c, d) = (crashed, d)
  rolled_back code (crashed, d) = (crashed, d)

  abbrev pub leave : {A : Type 0} → Outcome A × Db → Outcome A × Db
  leave (returned a, d) = (returned a, d)
  leave (thrown code, d) = rolled_back code (rollback d)
  leave (crashed, d) = (crashed, d)

  -- `DBTransaction trans(db); ...; trans.Commit();`
  unfoldable pub in_transaction : M Db (Unit {0}) → M Db (Unit {0})
  unfolding exec commit rollback
  in_transaction body d =
      and_then (exec "BEGIN TRANSACTION" d)
        (λ _ d1. leave ((body >>= λ _. (commit >>= λ _. pure tt)) d1))
