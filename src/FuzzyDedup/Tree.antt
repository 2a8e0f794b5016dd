-- ===== src/FuzzyDedup/Tree.antt =====
-- TreeCtorProcessor and ScanDirectory, for a database. src/fuzzy_dedup.cpp.
use dupa.Base.{ℕ, String, Option, none, some, List, [], ◌∷◌, ◌++◌, ◌>>=◌}
use dupa.FileTree.Store.{dir, file, Heap, new_node}
use dupa.FileTree.{add_child}
use dupa.HashCache.{FileInfo}
use dupa.Scanner.FilePaths.{Paths}
use dupa.Scanner.{ScanProcessor, scan_db}

-- The processor's members, with the heap; the multimap has its pairs in the order of insertion.
pub record TreeCtor (D : Type 0) : Type 0 where
  pub heap : Heap D
  pub sum2node : List (ℕ × ℕ)
  pub root : Option ℕ

module _ (ps : Paths) {D : Type 0} where
  open ps use {native, filename}

  -- TreeCtorProcessor; a handle is the address of a node.
  unfoldable pub tree_ctor_processor : ScanProcessor ps (TreeCtor D) ℕ
  tree_ctor_processor = record {
    file = λ path parent f_info s. do
      (node, h) ← new_node file (native (filename path)) f_info.size s.heap
      h' ← add_child parent node h
      some (record s { heap = h'; sum2node = s.sum2node ++ (f_info.sum, node) ∷ [] });
    root_dir = λ path s. do
      (node, h) ← new_node dir (native path) 0 s.heap
      some (node, record s { heap = h; root = some node });
    dir = λ path parent s. do
      (node, h) ← new_node dir (native (filename path)) 0 s.heap
      h' ← add_child parent node h
      some (node, record s { heap = h' });
  }

  -- ScanDirectory, of a database.
  unfoldable pub scan_directory : List (String × FileInfo) → Heap D → Option (TreeCtor D)
  unfolding tree_ctor_processor
  scan_directory db h =
      scan_db ps tree_ctor_processor db (record { heap = h; sum2node = []; root = none })
