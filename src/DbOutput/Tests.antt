-- ===== src/DbOutput/Tests.antt =====
-- A comparison written to tables in memory.
use dupa.Base.{◌≡◌}
use dupa.DbLib.Monad.{returned}
use dupa.DirCompare.{dir_compare}
use dupa.DirCompare.Reports.{reports}
use dupa.DirCompare.Tests.{tables, conf, before, after}
use dupa.DbOutput.{db_stream}
use dupa.DbOutput.Rows.{Table, rows_of}
use dupa.DbOutput.Written.{AllReady, rows_at}
use dupa.DbOutput.Unique.{dir_compare-rows}
use dupa.DbOutput.Memory.{
  Memory, memory, statements, memory_tables, no_rows, no_rows-AllReady, no_rows-empty,
}

dir_compare-rows_example :
    (d' : Memory) × (dir_compare tables conf
        (db_stream memory statements)
        before
        after
        (returned tt, no_rows)
      ≡ (returned tt, d'))
    × AllReady memory statements memory_tables d'
    × ((t : Table)
        → rows_at memory statements memory_tables t d'
          ≡ rows_of t (reports tables conf before after))
dir_compare-rows_example =
    dir_compare-rows memory statements memory_tables tables conf before after no_rows
      no_rows-AllReady no_rows-empty
