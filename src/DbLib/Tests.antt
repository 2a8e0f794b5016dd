-- ===== src/DbLib/Tests.antt =====
-- The theorems on streams at a table in memory.
use dupa.Base.{ℕ, ◌≡◌, refl, true, List, [], ◌∷◌, ◌++◌}
use dupa.DbLib.Monad.{returned, ◌>>=◌}
use dupa.DbLib.Interface.{Value, text, int64}
use dupa.DbLib.{prepare_stmt, query, range_for, unpack_impl}
use dupa.DbLib.Reading.{Yields, last, next, finished, query-range_for}
use dupa.DbLib.Writing.{at_start, at_rest}
use dupa.HashCache.Table.{columns, select_sql}
use dupa.HashCache.Memory.{Memory, selection, memory}

abbrev row_a : List (Value ℕ)
row_a = text "a" ∷ int64 9 ∷ int64 3 ∷ int64 50 ∷ []

abbrev row_b : List (Value ℕ)
row_b = text "b" ∷ int64 0 ∷ int64 0 ∷ int64 51 ∷ []

abbrev stored : Memory
stored = record {
  table = row_a ∷ row_b ∷ [];
  bound = [];
  cursor = [];
  current = [];
  stage = at_start;
  mode = at_rest;
  has_table = true;
}

abbrev selected : Memory
selected = record stored { cursor = row_a ∷ row_b ∷ [] }

abbrev at_a : Memory
at_a = record stored { cursor = row_b ∷ []; current = row_a }

abbrev at_b : Memory
at_b = record stored { current = row_b }

stored_prepared : prepare_stmt memory select_sql stored ≡ (returned selection, selected)
unfolding prepare_stmt
stored_prepared = refl

stored-Yields : Yields memory columns selection selected (row_a ∷ row_b ∷ []) finished at_b
unfolding unpack_impl
stored-Yields =
    next {d1 = at_a} {d2 = at_a} refl refl (next {d1 = at_b} {d2 = at_b} refl refl (last refl))

abbrev collect : List (List (Value ℕ)) → List (Value ℕ) → List (List (Value ℕ))
collect rows r = rows ++ r ∷ []

query-range_for_example :
    (query memory columns select_sql >>= range_for memory 4 collect []) stored
    ≡ (returned (row_a ∷ row_b ∷ []), at_b)
query-range_for_example =
    query-range_for memory collect [] columns select_sql selection (row_a ∷ row_b ∷ []) finished
      stored selected at_b stored_prepared stored-Yields
