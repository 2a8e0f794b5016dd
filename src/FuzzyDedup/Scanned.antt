-- ===== src/FuzzyDedup/Scanned.antt =====
-- The tree that ScanDirectory makes of a database is one that the rest of FuzzyDedup can work on.
-- src/fuzzy_dedup.cpp.
use dupa.Base.{
  ℕ, suc, ◌<◌, ◌≡◌, ◌≢◌, inl, refl, sym, ap, ◌∙◌, subst, true, String, none, some, List, [], ◌∷◌,
  In, arith,
}
use dupa.FileTree.Store.{NodeType, dir, file, is_dir, Heap, new_node}
use dupa.FileTree.{add_child}
use dupa.FileTree.Invariant.{Returns, Returns-some}
use dupa.FileTree.AddChild.{new_node-Allocated, Allocated}
use dupa.FileTree.Growing.{IsNew, Allocated-IsNew}
use dupa.FileTree.Growth.{Attached, add_child-Attached}
use dupa.HashCache.{FileInfo}
use dupa.Scanner.FilePaths.{Paths}
use dupa.Scanner.{common_prefix_of, scan_db}
use dupa.Scanner.Dirs.{dir_of, common_prefix_of-IsPrefix}
use dupa.Scanner.Prefix.{IsPrefix}
use dupa.Scanner.Induction.{Preserved, scan_db-Inv}
use dupa.FuzzyDedup.Tree.{TreeCtor, tree_ctor_processor, scan_directory}
use dupa.FuzzyDedup.Building.{IsNamed, Scanned, IsHandle, Attached-dir, new_file, new_dir}

module _ (ps : Paths) {D : Type 0} where
  open ps use {elements, of_native, native, single, filename, IsPlain}

  -- A node that is made below a directory.
  pub made :
      (p : ℕ) (type : NodeType) (name : String) (size : ℕ) (s : TreeCtor D)
      → IsNew s.heap
      → IsHandle ps p s
      → name ≢ ""
      → (h1 : Heap D) × (h2 : Heap D) × (new_node type name size s.heap
          ≡ some (s.heap.num_nodes, h1))
        × (add_child p s.heap.num_nodes h1 ≡ some h2)
        × IsNew h2
        × Attached p type name size s.heap h2
  made p type name size s v (lt, d) ne =
      let ((n, h1), e, (same, a)) =
        Returns-some (new_node type name size s.heap) _
          (new_node-Allocated type name size s.heap ne) in
      let (h2, f, (new, k)) =
        Returns-some (add_child p s.heap.num_nodes h1) _
          (add_child-Attached p type name size s.heap h1 v lt d a) in
      (h1, h2, e ∙ ap (λ i. some (i, h1)) same, f, new, k)

  module _ (db : List (String × FileInfo)) where
    processor-Preserved :
        Preserved ps (tree_ctor_processor ps {D = D}) (IsNamed ps) (Scanned ps db) (IsHandle ps)
    unfolding tree_ctor_processor
    processor-Preserved = record {
      file_kept = λ x xs p s named v g.
          let (h1, h2, e, f, new, k) =
            made p file (native (filename (filename (of_native x.0)))) x.1.size s v.is_new g
              named.0 in
          rw (e, f)
            (
              new_file ps db x xs p s h2 v new k,
              λ q.
                  Attached-dir ps p file (native (filename (filename (of_native x.0)))) x.1.size
                    s.heap h2 k q,
            );
      dir_kept = λ x xs name p s named i v g.
          let (h1, h2, e, f, new, k) =
            made p dir (native (filename (single name))) 0 s v.is_new g (named.1 name i) in
          rw (e, f)
            (
              (
                subst (λ n. s.heap.num_nodes < n) (sym k.num_nodes) (omega arith),
                ap is_dir k.new_type,
              ),
              new_dir ps db xs p (native (filename (single name))) s h2 v new k,
              λ q. Attached-dir ps p dir (native (filename (single name))) 0 s.heap h2 k q,
            );
    }

  -- A directory without parent and children.
  first_dir :
      (db : List (String × FileInfo)) (name : String) (h h1 : Heap D)
      → IsNew h
      → h.num_nodes ≡ 0
      → Allocated dir name 0 h h1
      → IsHandle ps 0 (record { heap = h1; sum2node = []; root = some 0 })
        × Scanned ps db db (record { heap = h1; sum2node = []; root = some 0 })
  first_dir db name h h1 v empty a =
      let one : h1.num_nodes ≡ 1 = a.num_nodes ∙ ap suc empty in
      (
        (
          omega (arith, one),
          subst (λ n. is_dir (h1.node n).type ≡ true) empty (ap is_dir a.new_type),
        ),
        record {
          is_new = Allocated-IsNew dir name 0 h h1 v a;
          has_root = refl;
          rooted = (omega (arith, one), λ x below other. absurd (omega (arith, below, one, other)));
          remain = λ x i. i;
          recorded = λ x i. inl i;
          only_files = λ r i. absurd i;
          once = tt;
        },
      )

  -- Into an empty heap, for a database whose files and directories have names and whose files' common
  -- directory has one, ScanDirectory meets no failed assertion: it builds a tree below one root in which
  -- AddChild has kept parents, children and counters consistent, each file of the database has a node of
  -- its size and name in the multimap, under its checksum, each node in the multimap stands for a file of
  -- the database, and none is there twice.
  pub scan_directory-Scanned :
      (x : String × FileInfo) (xs : List (String × FileInfo)) (h : Heap D)
      → IsNew h
      → h.num_nodes ≡ 0
      → ((y : String × FileInfo) → In y (x ∷ xs) → IsNamed ps y)
      → native (common_prefix_of ps (dir_of ps x) (x ∷ xs)) ≢ ""
      → Returns (scan_directory ps (x ∷ xs) h) (Scanned ps (x ∷ xs) [])
  unfolding scan_directory tree_ctor_processor
  scan_directory-Scanned x xs h v empty named ne =
      let name = native (common_prefix_of ps (dir_of ps x) (x ∷ xs)) in
      let ((n, h1), e, (same, a)) =
        Returns-some (new_node dir name 0 h) _ (new_node-Allocated dir name 0 h ne) in
      let first : new_node dir name 0 h ≡ some (0, h1) =
        e ∙ ap (λ i. some (i, h1)) (same ∙ empty) in
      scan_db-Inv ps (tree_ctor_processor ps) (IsNamed ps) (Scanned ps (x ∷ xs)) (IsHandle ps)
        (processor-Preserved (x ∷ xs)) x xs (record { heap = h; sum2node = []; root = none }) named
        (rw first (first_dir (x ∷ xs) name h h1 v empty a))

  -- When the directories of two files of a database, the first of them with a plain path, have no
  -- common prefix, as relative paths may, ScanDirectory fails: the assertion in Node's constructor does
  -- not hold of the root.
  pub scan_directory-unnamed :
      (x y : String × FileInfo) (xs : List (String × FileInfo)) (h : Heap D)
      → IsPlain (of_native x.0)
      → In y (x ∷ xs)
      → ((r : List String)
          → IsPrefix r (elements (dir_of ps x))
          → IsPrefix r (elements (dir_of ps y))
          → r ≡ [])
      → scan_directory ps (x ∷ xs) h ≡ none
  unfolding scan_directory tree_ctor_processor scan_db new_node
  scan_directory-unnamed x y xs h plain i apart =
      let c = common_prefix_of ps (dir_of ps x) (x ∷ xs) in
      let (_, _, below) =
        common_prefix_of-IsPrefix ps (dir_of ps x) (x ∷ xs)
          (ps.parent_path-IsPlain (of_native x.0) plain) in
      let none_common : elements c ≡ [] = apart (elements c) (below x (inl refl)) (below y i) in
      let unnamed : native c ≡ "" = ap native (ps.empty_lem c none_common) ∙ ps.native-empty in
      rw unnamed refl
