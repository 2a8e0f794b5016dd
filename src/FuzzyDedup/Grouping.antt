-- ===== src/FuzzyDedup/Grouping.antt =====
-- A multimap as groups of equal keys and an insertion sort, which fulfil what is supposed of the
-- standard library.
use dupa.FuzzyDedup.Whole.{Std}
use dupa.FuzzyDedup.Grouping.Nodes.{group_filled, nodes-Distinct}
use dupa.FuzzyDedup.Grouping.Ranges.{group, group-Has, group-Distinct, nth_apart}
use dupa.FuzzyDedup.Grouping.Sorting.{insertion_sort, sort-In}
mod Nodes
mod Ranges
mod Sorting

abbrev pub grouped : Std
grouped = record {
  ranges = group;
  sort = insertion_sort;
  ranges-In = group-Has;
  ranges-apart = λ xs j k f g. nth_apart (group xs) j k f g (group-Distinct xs);
  ranges-filled = group_filled;
  ranges-Distinct = nodes-Distinct;
  sort-In = sort-In;
}
