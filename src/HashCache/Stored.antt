-- ===== src/HashCache/Stored.antt =====
-- StoreCksums followed by ReadCacheFromDb, over SQLite's table. src/hash_cache.cpp.
use dupa.Base.{
  ℕ, ◌+◌, ◌≡◌, ◌≢◌, ◌↔◌, inl, inr, refl, sym, ap, ◌∙◌, subst, String, Option, none, some, true,
  List, [], ◌∷◌, ◌++◌, map, foldl, length, In, In-append, In-map,
}
use dupa.DbLib.Monad.{returned, ◌>>=◌}
use dupa.DbLib.Interface.{Value, text, sqlite_ok, Sqlite}
use dupa.DbLib.{Row, prepare_stmt, exec, in_transaction, commit}
use dupa.DbLib.Reading.{Yields, finished, query-range_for}
use dupa.DbLib.Writing.{IsInsert, Ready, write_all_lem, AllAccepted, at_start, at_rest, begun}
use dupa.HashCache.{FileInfo, find_path}
use dupa.HashCache.Table.{
  create_sql, insert_sql, select_sql, columns, info_row, insert_row, read_cache_from_db,
  store_cksums,
}
use dupa.HashCache.RoundTrip.{IsMap, insert_row-find_path}

-- The path of a row.
abbrev pub row_path : {D : Type 0} → List (Value D) → Option String
row_path (text p ∷ vs) = some p
row_path _ = none

-- What SQLite documents of the statements on FileList, where neither memory nor the disk fails: the
-- table is created, empty, while nothing is under way; a transaction begins outside of one, and it is
-- committed once the statement that wrote has been reset; a statement on the table can be prepared when
-- the table exists. The table has unique paths, keeps what is inserted, and a SELECT yields its rows in
-- some order, with the columns' types.
pub record FileList (sq : Sqlite) : Type 1 where
  pub content : sq.Db → List (Row sq)
  pub insert_stmt : sq.Stmt
  pub insert : IsInsert sq insert_stmt 4
  pub insert-rows : (d : sq.Db) → insert.rows d ≡ content d
  pub creates :
      (d : sq.Db)
      → insert.mode d ≡ at_rest
      → (d' : sq.Db) × (sq.exec create_sql d ≡ (sqlite_ok, d'))
        × (content d' ≡ [])
        × (insert.mode d' ≡ at_rest)
        × (insert.has_table d' ≡ true)
  pub begins :
      (d : sq.Db)
      → insert.mode d ≡ at_rest
      → (d' : sq.Db) × (sq.exec "BEGIN TRANSACTION" d ≡ (sqlite_ok, d'))
        × (content d' ≡ content d)
        × (insert.mode d' ≡ begun)
        × (insert.has_table d' ≡ insert.has_table d)
  pub commits :
      (d : sq.Db)
      → insert.mode d ≡ begun
      → insert.stage d ≡ at_start
      → (d' : sq.Db) × (sq.exec "COMMIT TRANSACTION" d ≡ (sqlite_ok, d'))
        × (content d' ≡ content d)
        × (insert.mode d' ≡ at_rest)
        × (insert.has_table d' ≡ insert.has_table d)
  pub prepares :
      (d : sq.Db)
      → insert.has_table d ≡ true
      → (d' : sq.Db) × (sq.prepare insert_sql d ≡ ((sqlite_ok, insert_stmt), d'))
        × (content d' ≡ content d)
        × Ready sq insert_stmt 4 insert d'
        × (insert.mode d' ≡ insert.mode d)
  pub accepts :
      (rows : List (Row sq)) (r : Row sq) (p : String)
      → row_path r ≡ some p
      → ((q : Row sq) → In q rows → row_path q ≢ some p)
      → insert.Accepts rows r
  pub select_stmt : sq.Stmt
  pub selects :
      (d : sq.Db)
      → insert.mode d ≡ at_rest
      → insert.has_table d ≡ true
      → ((r : Row sq) → In r (content d) → (x : String × FileInfo) × (r ≡ info_row x))
      → (d1 : sq.Db) × (d' : sq.Db) × (rs : List (Row sq)) × (sq.prepare select_sql d
          ≡ ((sqlite_ok, select_stmt), d1))
        × Yields sq columns select_stmt d1 rs finished d'
        × ((r : Row sq) → In r rs ↔ In r (content d))

module _ (sq : Sqlite) (t : FileList sq) where
  open sq use {Db}
  open t use {content, insert_stmt, select_stmt}
  open t.insert use {mode, has_table}

  abbrev paths : List (String × FileInfo) → List String
  paths = map (λ (x : String × FileInfo). x.0)

  -- Entries of a map are accepted one after the other.
  map-AllAccepted :
      (before : List (Row sq)) (cache : List (String × FileInfo))
      → IsMap cache
      → ((q : Row sq) (p : String) → In q before → row_path q ≡ some p → ¬ In p (paths cache))
      → AllAccepted sq insert_stmt 4 t.insert before (map info_row cache)
  map-AllAccepted before [] d apart = tt
  map-AllAccepted before (x ∷ cache) d apart = (
    refl,
    t.accepts before (info_row x) x.0 refl (λ q i e. apart q x.0 i e (inl refl)),
    map-AllAccepted (before ++ info_row x ∷ []) cache d.1 (λ q p i e.
        elim (In-append q before (info_row x ∷ []) i) [
          | inl old ↦ λ m. apart q p old e (inr m)
          | inr new ↦ elim new [
            | inl same ↦ λ m.
                d.0 (subst (λ z. In z (paths cache)) (path_eq x p (ap row_path (sym same) ∙ e)) m)
            | inr z ↦ absurd z
          ]
        ]),
  )
    where
      path_eq : (y : String × FileInfo) (p : String) → some y.0 ≡ some p → p ≡ y.0
      path_eq y p e = sym (ap (λ o. elim o [ some z ↦ z | none ↦ p ]) e)

  -- StoreCksums leaves the rows of the cache's entries in the table.
  store_cksums_lem :
      (cache : List (String × FileInfo)) (d : Db)
      → IsMap cache
      → mode d ≡ at_rest
      → (d' : Db) × (store_cksums sq cache d ≡ (returned tt, d'))
        × (content d' ≡ map info_row cache)
        × (mode d' ≡ at_rest)
        × (has_table d' ≡ true)
  unfolding store_cksums in_transaction exec prepare_stmt commit
  store_cksums_lem cache d m rest =
      let (d1, p1, c1, m1, h1) = t.creates d rest in
      let (d2, p2, c2, m2, h2) = t.begins d1 m1 in
      let (d3, p3, c3, ready, m3) = t.prepares d2 (h2 ∙ h1) in
      let empty : t.insert.rows d3 ≡ [] = t.insert-rows d3 ∙ (c3 ∙ (c2 ∙ c1)) in
      let (d4, p4, (b4, g4, h4), r4, m4) =
        write_all_lem sq insert_stmt 4 t.insert (map info_row cache) d3 ready (
          subst (λ b. AllAccepted sq insert_stmt 4 t.insert b (map info_row cache)) (sym empty)
            (map-AllAccepted [] cache m (λ q p i. absurd i))) in
      let (d5, p5, c5, m5, h5) = t.commits d4 (m4 ∙ (m3 ∙ m2)) g4 in
      (
        d5,
        rw (p1, p2, p3, p4, p5) refl,
        c5 ∙ (sym (t.insert-rows d4) ∙ (r4 ∙ ap (λ rs. rs ++ map info_row cache) empty)),
        m5,
        h5 ∙ h4,
      )

  prepared :
      (d d1 : Db)
      → sq.prepare select_sql d ≡ ((sqlite_ok, select_stmt), d1)
      → prepare_stmt sq select_sql d ≡ (returned select_stmt, d1)
  unfolding prepare_stmt
  prepared d d1 p = rw p refl

  -- ReadCacheFromDb reads the table.
  read_cache_from_db_lem :
      (d : Db)
      → mode d ≡ at_rest
      → has_table d ≡ true
      → ((r : Row sq) → In r (content d) → (x : String × FileInfo) × (r ≡ info_row x))
      → (rs : List (Row sq)) × (d' : Db) × (read_cache_from_db sq (length rs + 2) d
          ≡ (returned (foldl insert_row [] rs), d'))
        × ((r : Row sq) → In r rs ↔ In r (content d))
  unfolding read_cache_from_db
  read_cache_from_db_lem d rest there typed =
      let (d1, d', rs, p, y, same) = t.selects d rest there typed in
      (
        rs,
        d',
        query-range_for sq insert_row [] columns select_sql select_stmt rs finished d d1 d'
            (prepared d d1 p) y,
        same,
      )

  -- On a connection at rest, while neither memory nor the disk fails, storing a cache, in which no path
  -- has two entries, and reading it back ends without an exception, on enough fuel, and gives a cache
  -- in which every path has the entry that it had.
  pub read_cache_from_db-store_cksums :
      (cache : List (String × FileInfo)) (d : Db)
      → IsMap cache
      → mode d ≡ at_rest
      → (fuel : ℕ) × (cache' : List (String × FileInfo)) × (d' : Db) × ((store_cksums sq cache
              >>= λ _. read_cache_from_db sq fuel)
            d
          ≡ (returned cache', d'))
        × ((p : String) → find_path p cache' ≡ find_path p cache)
  read_cache_from_db-store_cksums cache d m rest =
      let (d1, p1, c1, m1, h1) = store_cksums_lem cache d m rest in
      let (rs, d2, p2, same) =
        read_cache_from_db_lem d1 m1 h1
          (λ r i. let (x, j, e) = In-map info_row r cache (subst (In r) c1 i) in (x, e)) in
      (
        length rs + 2,
        foldl insert_row [] rs,
        d2,
        rw (p1, p2) refl,
        λ p. insert_row-find_path p cache rs m (λ r. subst (λ c. In r rs ↔ In r c) c1 (same r)),
      )
