-- ===== src/DbLib/Interface.antt =====
-- SQLite's C interface, as far as src/db_lib.h, src/db_lib_impl.h and src/db_lib.cpp call it.
use dupa.Base.{ℕ, String, Option, none, ◌≡◌}

-- The values that the templates bind and unpack: integral types by their 64 bits, floating point
-- types, and std::string.
pub data Kind : Type 0 where
  integral floating string : Kind

pub data Value (D : Type 0) : Type 0 where
  int64 : ℕ → Value D
  double : D → Value D
  text : String → Value D

abbrev pub sqlite_ok : ℕ
sqlite_ok = 0

abbrev pub sqlite_nomem : ℕ
sqlite_nomem = 7

abbrev pub sqlite_misuse : ℕ
sqlite_misuse = 21

abbrev pub sqlite_row : ℕ
sqlite_row = 100

abbrev pub sqlite_done : ℕ
sqlite_done = 101

-- `Db` is a connection with all that depends on it: the tables, the statements, the last error. Each
-- function returns its result code, or its value, and the connection.
pub record Sqlite : Type 1 where
  pub Db : Type 0
  pub Stmt : Type 0
  pub Double : Type 0
  pub open_v2 : String → ℕ → ℕ × Db
  pub errcode : Db → ℕ
  pub exec : String → Db → ℕ × Db
  pub prepare : String → Db → (ℕ × Stmt) × Db
  pub bind_int64 : Stmt → ℕ → ℕ → Db → ℕ × Db
  pub bind_double : Stmt → ℕ → Double → Db → ℕ × Db
  pub bind_text : Stmt → ℕ → String → Db → ℕ × Db
  pub step : Option Stmt → Db → ℕ × Db
  pub clear_bindings : Stmt → Db → ℕ × Db
  pub reset : Stmt → Db → ℕ × Db
  pub column_int64 : Stmt → ℕ → Db → ℕ × Db
  pub column_double : Stmt → ℕ → Db → Double × Db
  pub column_text : Stmt → ℕ → Db → String × Db
  -- a step of a null pointer is a misuse
  pub step-none : (d : Db) → step none d ≡ (sqlite_misuse, d)
