-- ===== src/HashCache/Table.antt =====
-- The checksum cache in its table FileList: ReadCacheFromDb and StoreCksums. src/hash_cache.cpp.
use dupa.Base.{ℕ, String, Option, none, some, List, [], ◌∷◌, map, if◌then◌else◌, is_some}
use dupa.DbLib.Monad.{M, ◌>>=◌, ◌>>◌}
use dupa.DbLib.Interface.{Kind, integral, string, Value, int64, text, Sqlite}
use dupa.DbLib.{prepare_stmt, query, range_for, exec, write_all, in_transaction}
use dupa.HashCache.{FileInfo, find_path}

abbrev pub create_sql : String
create_sql =
    "DROP TABLE IF EXISTS FileList;CREATE TABLE FileList(path           TEXT    UNIQUE NOT NULL,cksum          INTEGER NOT NULL,size           INTEGER NOT NULL,mtime          INTEGER NOT NULL);"

abbrev pub insert_sql : String
insert_sql = "INSERT INTO FileList(path, cksum, size, mtime) VALUES(?, ?, ?, ?)"

abbrev pub select_sql : String
select_sql = "SELECT path, cksum, size, mtime FROM FileList"

-- std::string, Cksum, off_t, time_t
abbrev pub columns : List Kind
columns = string ∷ integral ∷ integral ∷ integral ∷ []

-- The tuple that is written for an entry of the cache, and what is read from one.
abbrev pub info_row : {D : Type 0} → String × FileInfo → List (Value D)
info_row x = text x.0 ∷ int64 x.1.sum ∷ int64 x.1.size ∷ int64 x.1.mtime ∷ []

abbrev pub row_info : {D : Type 0} → List (Value D) → Option (String × FileInfo)
row_info (text p ∷ int64 sum ∷ int64 size ∷ int64 mtime ∷ []) =
    some (p, record { size = size; mtime = mtime; sum = sum })
row_info _ = none

-- cache.insert: an entry that is there already stays.
unfoldable pub insert_path : String × FileInfo → List (String × FileInfo) → List (String × FileInfo)
insert_path x cache = if is_some (find_path x.0 cache) then cache else x ∷ cache

abbrev pub insert_info :
    Option (String × FileInfo) → List (String × FileInfo) → List (String × FileInfo)
insert_info none cache = cache
insert_info (some x) cache = insert_path x cache

-- The body of the loop in ReadCacheFromDb.
unfoldable pub insert_row :
    {D : Type 0} → List (String × FileInfo) → List (Value D) → List (String × FileInfo)
insert_row cache row = insert_info (row_info row) cache

module _ (sq : Sqlite) where
  open sq use {Db}

  -- ReadCacheFromDb, on an open connection; the fuel bounds the number of rows.
  unfoldable pub read_cache_from_db : ℕ → M Db (List (String × FileInfo))
  unfolding insert_row
  read_cache_from_db fuel = do
    rows ← query sq columns select_sql
    range_for sq fuel insert_row [] rows

  -- CreateOrEmptyTable
  unfoldable pub create_or_empty_table : M Db (Unit {0})
  create_or_empty_table = exec sq create_sql

  -- What StoreCksums does within its transaction.
  unfoldable pub store_rows : List (String × FileInfo) → M Db (Unit {0})
  store_rows cache = do out ← prepare_stmt sq insert_sql; write_all sq out (map info_row cache)

  -- HashCache::StoreCksums, with db_ set.
  unfoldable pub store_cksums : List (String × FileInfo) → M Db (Unit {0})
  unfolding create_or_empty_table store_rows
  store_cksums cache = do create_or_empty_table; in_transaction sq (store_rows cache)
