-- ===== src/DbOutput.antt =====
-- src/db_output.cpp: a comparison that is written to the database.
pub mod Rows
pub mod Written
pub mod Unique
pub mod Dumps
pub mod Memory
mod Tests
mod DumpTests
use dupa.Base.{ℕ, String, List, [], ◌∷◌, map}
use dupa.Conf.{GlobalConfig}
use dupa.DbLib.Monad.{Outcome, returned, M, and_then, ◌>>=◌, ◌>>◌, pure}
use dupa.DbLib.Interface.{Value, text, Sqlite}
use dupa.DbLib.{exec, prepare_stmt, write, write_all, in_transaction}
use dupa.DirCompare.Index.{MultiIndex}
use dupa.DirCompare.Streams.{CompareOutputStream}
use dupa.DirCompare.{dir_compare}

abbrev tables_sql : String
tables_sql =
    "DROP TABLE IF EXISTS Removed;DROP TABLE IF EXISTS NewFile;DROP TABLE IF EXISTS ContentChanged;DROP TABLE IF EXISTS OverwrittenBy;DROP TABLE IF EXISTS CopiedFrom;DROP TABLE IF EXISTS RenameTo;CREATE TABLE Removed(path            TEXT    NOT NULL UNIQUE);CREATE TABLE NewFile(path            TEXT    NOT NULL UNIQUE);CREATE TABLE ContentChanged(path            TEXT    NOT NULL UNIQUE);CREATE TABLE OverwrittenBy(path            TEXT    NOT NULL,candidate_by    TEXT    NOT NULL);CREATE TABLE CopiedFrom(path            TEXT    NOT NULL,candidate_from  TEXT    NOT NULL);CREATE TABLE RenameTo(path            TEXT    NOT NULL,candidate_to    TEXT    NOT NULL);"

-- The statements of DirCompDBStream.
pub record DirCompDbStream (Stmt : Type 0) : Type 0 where
  pub removed : Stmt
  pub new_file : Stmt
  pub content_changed : Stmt
  pub overwritten_by : Stmt
  pub copied_from : Stmt
  pub rename_to : Stmt

-- A path, and a path with one of its candidates.
abbrev pub path_row : {D : Type 0} → String → List (Value D)
path_row f = text f ∷ []

abbrev pub candidate_row : {D : Type 0} → String → String → List (Value D)
candidate_row f c = text f ∷ text c ∷ []

module _ (sq : Sqlite) where
  open sq use {Db, Stmt}

  -- DirCompDBStream::DirCompDBStream, after the transaction has begun.
  unfoldable pub new_stream : M Db (DirCompDbStream Stmt)
  new_stream = do
    exec sq tables_sql
    removed ← prepare_stmt sq "INSERT INTO Removed(path) VALUES(?)"
    new_file ← prepare_stmt sq "INSERT INTO NewFile(path) VALUES(?)"
    content_changed ← prepare_stmt sq "INSERT INTO ContentChanged(path) VALUES(?)"
    overwritten_by ← prepare_stmt sq "INSERT INTO OverwrittenBy(path, candidate_by) VALUES(?, ?)"
    copied_from ← prepare_stmt sq "INSERT INTO CopiedFrom(path, candidate_from) VALUES(?, ?)"
    rename_to ← prepare_stmt sq "INSERT INTO RenameTo(path, candidate_to) VALUES(?, ?)"
    pure (record {
      removed = removed;
      new_file = new_file;
      content_changed = content_changed;
      overwritten_by = overwritten_by;
      copied_from = copied_from;
      rename_to = rename_to;
    })

  -- The methods of DirCompDBStream. After an exception, or a crash, no other is called.
  unfoldable pub db_stream : DirCompDbStream Stmt → CompareOutputStream (Outcome (Unit {0}) × Db)
  db_stream st = record {
    overwritten_by = λ f candidates s.
        and_then s (λ _. write_all sq st.overwritten_by (map (candidate_row f) candidates));
    copied_from = λ f candidates s.
        and_then s (λ _. write_all sq st.copied_from (map (candidate_row f) candidates));
    rename_to = λ f candidates s.
        and_then s (λ _. write_all sq st.rename_to (map (candidate_row f) candidates));
    content_changed = λ f s. and_then s (λ _. write sq st.content_changed (path_row f));
    removed = λ f s. and_then s (λ _. write sq st.removed (path_row f));
    new_file = λ f s. and_then s (λ _. write sq st.new_file (path_row f));
  }

  -- The stream's life in main: its transaction is begun by the constructor and committed after
  -- DirCompare.
  unfoldable pub compare_to_db :
      (mi : MultiIndex) → GlobalConfig → mi.PathHashes → mi.PathHashes → M Db (Unit {0})
  unfolding new_stream db_stream
  compare_to_db mi conf hashes1 hashes2 =
      in_transaction sq
        (new_stream >>= λ st d. dir_compare mi conf (db_stream st) hashes1 hashes2 (returned tt, d))
