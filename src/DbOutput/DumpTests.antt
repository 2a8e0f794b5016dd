-- ===== src/DbOutput/DumpTests.antt =====
-- A dump of a small tree into memory.
use dupa.Base.{ℕ, ◌+◌, ◌≡◌, List, [], ◌∷◌}
use dupa.DbLib.{Row}
use dupa.DbOutput.Memory.{Memory, memory}
use dupa.DbOutput.Dumps.{
  class_rows, RowsOf, rows_written, dump_fuzzy_dedup_res, dump_fuzzy_dedup_res-RowsOf,
}
use dupa.FileTree.Walk.{traverse}
use dupa.Scanner.Lists.{element_lists}
use dupa.FuzzyDedup.TreeTests.{copied, copied-IsTree}
use dupa.FuzzyDedup.PathTests.{copied-Rooted, copied_evaluated}

abbrev address : ℕ → ℕ
address n = 4096 + n

dump_fuzzy_dedup_res-RowsOf_example :
    (rows : List (Row memory)) × RowsOf element_lists memory address address copied
      (traverse copied 2 0)
      rows
    × ((d : Memory)
        → dump_fuzzy_dedup_res element_lists memory address address copied 0 (0 ∷ 1 ∷ []) d
          ≡ rows_written element_lists memory address address
              (class_rows element_lists memory address address copied (0 ∷ 1 ∷ []))
              rows
              d)
dump_fuzzy_dedup_res-RowsOf_example =
    dump_fuzzy_dedup_res-RowsOf element_lists memory address address copied 0 (0 ∷ 1 ∷ [])
      copied-IsTree copied-Rooted copied_evaluated
