-- ===== src/FuzzyDedup/DiskTree.antt =====
-- ScanDirectory of a directory on disk gives a tree that the rest of FuzzyDedup can work on.
-- src/fuzzy_dedup.cpp.
use dupa.Base.{
  ℕ, suc, ◌<◌, ◌≡◌, ◌≢◌, refl, sym, ap, ◌∙◌, subst, true, some, none, List, [], ◌∷◌, ◌++◌,
  In-append_left, In-append_right, inl, arith,
}
use dupa.FileTree.Store.{dir, file, is_dir, Heap, new_node}
use dupa.FileTree.Invariant.{Returns, Returns-some}
use dupa.FileTree.AddChild.{new_node-Allocated}
use dupa.FileTree.Growing.{IsNew, Allocated-IsNew}
use dupa.Scanner.FilePaths.{Paths}
use dupa.Scanner.Walk.{FileSystem, Walk, start, Run, IsOver}
use dupa.Scanner.Walk.Invariant.{Entry, Keeps}
use dupa.Scanner.Walk.Over.{Below, at_root, AllTold, scan_directory-AllTold}
use dupa.FuzzyDedup.Tree.{TreeCtor, tree_ctor_processor}
use dupa.FuzzyDedup.Scanned.{made}
use dupa.FuzzyDedup.Placing.{top, nested, Attached-Placed, new_IsNode}
use dupa.FuzzyDedup.OnDisk.{
  Growing, IsPlace, HasNode, IsPlace-kept, HasNode-kept, dir-Growing, file-Growing,
}

-- A new TreeCtorProcessor.
abbrev pub empty_tree : {D : Type 0} → Heap D → TreeCtor D
empty_tree h = record { heap = h; sum2node = []; root = none }

module _ (ps : Paths) (fs : FileSystem ps) where
  open ps use {FilePath, native, filename}

  -- The entries of directories have names.
  abbrev pub EntriesNamed : Type 0
  EntriesNamed = (d e : FilePath) → Entry ps fs d e → native (filename (filename e)) ≢ ""

module _ (ps : Paths) (fs : FileSystem ps) {D : Type 0} (root : ps.FilePath) where
  open ps use {FilePath, native, filename}
  open fs use {open_dir, analyze}

  root-Growing :
      (h : Heap D)
      → IsNew h
      → h.num_nodes ≡ 0
      → native root ≢ ""
      → Returns
          ((tree_ctor_processor ps).root_dir root (empty_tree h))
          (λ r. IsPlace ps fs root root r.0 r.1 × Growing ps fs root h r.1)
  unfolding tree_ctor_processor
  root-Growing h v empty ne =
      let ((n, h1), e, (same, a)) =
        Returns-some (new_node dir (native root) 0 h) _
          (new_node-Allocated dir (native root) 0 h ne) in
      let first : new_node dir (native root) 0 h ≡ some (0, h1) =
        e ∙ ap (λ i. some (i, h1)) (same ∙ empty) in
      let one : h1.num_nodes ≡ 1 = a.num_nodes ∙ ap suc empty in
      rw first (
        (
          (
            omega (arith, one),
            subst (λ m. is_dir (h1.node m).type ≡ true) empty (ap is_dir a.new_type),
          ),
          top root 0 refl refl,
        ),
        record {
          same_classes = a.same_classes;
          is_new = Allocated-IsNew dir (native root) 0 h h1 v a;
          has_root = refl;
          rooted = (omega (arith, one), λ x below other. absurd (omega (arith, below, one, other)));
          root_name = subst (λ m. (h1.node m).name ≡ native root) empty a.new_name;
          only_files = λ r i. absurd i;
          once = tt;
        },
      )

  pub tree_ctor-Keeps :
      (h : Heap D)
      → IsNew h
      → h.num_nodes ≡ 0
      → native root ≢ ""
      → EntriesNamed ps fs
      → Keeps ps fs
          (tree_ctor_processor ps)
          root
          (empty_tree h)
          (Growing ps fs root h)
          (IsPlace ps fs root)
          (λ f p i s. HasNode ps fs root f p i s)
  unfolding tree_ctor_processor
  tree_ctor-Keeps h v empty ne named = record {
    root_kept = λ es listed. root-Growing h v empty ne;
    dir_kept = λ d e p s w (handle, place) en de.
        let (h1, h2, a, b, new, k) =
          made ps p dir (native (filename (filename e))) 0 s w.is_new handle (named d e en) in
        rw (a, b)
          (
            (
              (
                subst (λ n. s.heap.num_nodes < n) (sym k.num_nodes) (omega arith),
                ap is_dir k.new_type,
              ),
              nested d e p s.heap.num_nodes
                  (Attached-Placed ps fs p dir (native (filename (filename e))) 0 s.heap h2 k root d
                    p place)
                  en de
                  (new_IsNode ps fs p dir (native (filename (filename e))) 0 s.heap h2 k e refl),
            ),
            dir-Growing ps fs root p 0 dir (native (filename (filename e))) s h2 k h w new,
            λ c g.
                IsPlace-kept ps fs root p 0 dir (native (filename (filename e))) s h2 k c g
                  (record s { heap = h2 }) refl,
            λ f g i.
                HasNode-kept ps fs root p 0 dir (native (filename (filename e))) s h2 k f g i
                  (record s { heap = h2 }) refl (λ r m. m),
          );
    file_kept = λ d f p i s w (handle, place) en re done full.
        let (h1, h2, a, b, new, k) =
          made ps p file (native (filename (filename f))) i.size s w.is_new handle (named d f en) in
        let node =
          new_IsNode ps fs p file (native (filename (filename f))) i.size s.heap h2 k f refl in
        let entry : ℕ × ℕ = (i.sum, s.heap.num_nodes) in
        let s' : TreeCtor D = record s { heap = h2; sum2node = s.sum2node ++ entry ∷ [] } in
        let place' =
          Attached-Placed ps fs p file (native (filename (filename f))) i.size s.heap h2 k root d p
            place in
        rw (a, b)
          (
            (entry, In-append_right entry s.sum2node (entry ∷ []) (inl refl), (refl, node)),
            file-Growing ps fs root p i.size file (native (filename (filename f))) s h2 k h i.sum w
                new (d, p, f, i, place', en, re, done, full, (refl, node)),
            λ c g.
                IsPlace-kept ps fs root p i.size file (native (filename (filename f))) s h2 k c g s'
                  refl,
            λ f' g j.
                HasNode-kept ps fs root p i.size file (native (filename (filename f))) s h2 k f' g j
                  s' refl (λ r m. In-append_left r s.sum2node (entry ∷ []) m),
          );
  }

  -- When the walk of a directory that can be opened is over, in whatever order its files were analyzed:
  -- AddChild has kept parents, children and counters consistent in a tree below one root, whose
  -- directories have the places that they have on disk; each node of the multimap is, once, a regular
  -- file with its size, under its checksum and below its directory's node; and each regular file in a
  -- directory that can be opened, which could be analyzed and whose checksum is not 0, has such a node.
  -- The entries of directories and the root's path are supposed to have names, and the heap to be empty.
  pub scan_directory_on_disk-Growing :
      (h : Heap D) (rs : List FilePath) (t : Walk ps fs (tree_ctor_processor ps)) (n : ℕ)
      → IsNew h
      → h.num_nodes ≡ 0
      → native root ≢ ""
      → EntriesNamed ps fs
      → open_dir root ≡ some rs
      → Run ps fs
          (tree_ctor_processor ps)
          (start ps fs (tree_ctor_processor ps) root (empty_tree h))
          n
          t
      → IsOver ps fs (tree_ctor_processor ps) t
      → Growing ps fs root h t.state
        × ((d : FilePath) (es : List FilePath)
            → Below ps fs root d
            → open_dir d ≡ some es
            → (p : ℕ) × IsPlace ps fs root d p t.state
              × AllTold ps fs
                  (tree_ctor_processor ps)
                  (λ f q i s. HasNode ps fs root f q i s)
                  es
                  p
                  t.state)
  scan_directory_on_disk-Growing h rs t n v empty ne named opens r over =
      let told =
        scan_directory-AllTold ps fs (tree_ctor_processor ps) root (empty_tree h)
          (Growing ps fs root h) (IsPlace ps fs root) (λ f p i s. HasNode ps fs root f p i s)
          (tree_ctor-Keeps h v empty ne named) t n r over in
      ((told root rs (at_root root refl) opens).0, λ d es b listed. (told d es b listed).1)
