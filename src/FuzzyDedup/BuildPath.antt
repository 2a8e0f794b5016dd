-- ===== src/FuzzyDedup/BuildPath.antt =====
-- BuildPath of the nodes of a scanned directory. src/file_tree.cpp.
use dupa.Base.{
  ℕ, zero, suc, ◌<◌, ◌≡◌, ◌≢◌, sym, ap, ◌∙◌, some, List, In, inl, inr, arith, Option-cases,
}
use dupa.FileTree.Store.{NodeType, file, Heap}
use dupa.FileTree.Invariant.{IsTree}
use dupa.FileTree.Printing.{build_path}
use dupa.HashCache.{FileInfo}
use dupa.Scanner.FilePaths.{Paths}
use dupa.Scanner.Walk.{FileSystem, Walk, start, Run, IsOver}
use dupa.Scanner.Walk.Visit.{Regular}
use dupa.Scanner.Walk.Invariant.{Entry}
use dupa.Scanner.Walk.Over.{Below, scan_directory-AllTold}
use dupa.FileTree.Growing.{IsNew}
use dupa.FuzzyDedup.Tree.{tree_ctor_processor}
use dupa.FuzzyDedup.Placing.{IsNode, Placed, top, nested}
use dupa.FuzzyDedup.OnDisk.{Growing, IsPlace, HasNode}
use dupa.FuzzyDedup.DiskTree.{EntriesNamed, empty_tree, tree_ctor-Keeps}

module _ (ps : Paths) (fs : FileSystem ps) where
  open ps use {FilePath, of_native, native, join, filename}
  open fs use {open_dir, analyze}

  -- An entry's path is that of its directory with the entry's name.
  abbrev pub EntriesJoined : Type 0
  EntriesJoined =
      (d e : FilePath) → Entry ps fs d e → join d (of_native (native (filename (filename e)))) ≡ e

  module _ {D : Type 0} (root : FilePath) (joined : EntriesJoined)
      (back : of_native (native root) ≡ root) where
    -- A node below one with a path.
    node_path :
        (fuel : ℕ) (h : Heap D) (d e : FilePath) (p n size : ℕ) (type : NodeType)
        → Entry ps fs d e
        → IsNode ps fs h e p type size n
        → build_path ps fuel h p ≡ some d
        → build_path ps (suc fuel) h n ≡ some e
    unfolding build_path
    node_path fuel h d e p n size type en (_, _, _, name, up) below =
        rw (up, build_path) (rw (below, name) (ap some (joined d e en)))

    dir_path :
        (fuel : ℕ) (h : Heap D) (d : FilePath) (n : ℕ)
        → IsTree h
        → (h.node 0).name ≡ native root
        → Placed ps fs root h d n
        → n < fuel
        → build_path ps fuel h n ≡ some d
    unfolding build_path
    dir_path zero h d n t name place lt = absurd (omega (arith, lt))
    dir_path (suc fuel) h e n t name (nested d _ p _ place en de node) lt =
        let (_, _, _, _, up) = node in
        node_path fuel h d e p n 0 _ en node
          (dir_path fuel h d p t name place (omega (arith, lt, (t.below p n (t.above p n up)).0)))
    dir_path (suc fuel) h d n t name (top _ _ at_root z) lt =
        elim (Option-cases (h.node n).parent) [
          | inr (p, up) ↦ absurd (omega (arith, z, (t.below p n (t.above p n up)).0))
          | inl none_up ↦
              rw (none_up, build_path)
                (ap some (
                  ap (λ m. of_native (h.node m).name) z
                  ∙ (ap of_native name ∙ (back ∙ sym at_root))))
        ]

    -- When the walk of a directory is over, in whatever order its files were analyzed, BuildPath of the
    -- node of a file gives the path of the file on disk. The paths of entries are supposed to be those of
    -- their directories with a name, and the root's path to be what its text says.
    pub build_path-HasNode :
        (h : Heap D) (t : Walk ps fs (tree_ctor_processor ps)) (n : ℕ)
        → IsNew h
        → h.num_nodes ≡ 0
        → native root ≢ ""
        → EntriesNamed ps fs
        → Run ps fs
            (tree_ctor_processor ps)
            (start ps fs (tree_ctor_processor ps) root (empty_tree h))
            n
            t
        → IsOver ps fs (tree_ctor_processor ps) t
        → (d f : FilePath) (es : List FilePath) (i : FileInfo) → Below ps fs root d
        → open_dir d ≡ some es
        → In f es
        → Regular ps fs f
        → analyze f ≡ some i
        → i.sum ≢ 0
        → (r : ℕ × ℕ) × In r t.state.sum2node
          × (r.0 ≡ i.sum)
          × (build_path ps t.state.heap.num_nodes t.state.heap r.1 ≡ some f)
    build_path-HasNode h t n new empty ne named r over d f es i b listed m re done full =
        let (grown, (p, (_, place), all)) =
          scan_directory-AllTold ps fs (tree_ctor_processor ps) root (empty_tree h)
            (Growing ps fs root h) (IsPlace ps fs root) (λ f p i s. HasNode ps fs root f p i s)
            (tree_ctor-Keeps ps fs root h new empty ne named) t n r over d es b listed in
        let (entry, there, (sum, node)) = all f i m re done full in
        let (lt, _, _, _, up) = node in
        let tree = grown.is_new.tree in
        let above = (tree.below p entry.1 (tree.above p entry.1 up)).0 in
        (
          entry,
          there,
          sum,
          enough t.state.heap d f p entry.1 i.size (es, listed, m) node tree grown.root_name place
              t.state.heap.num_nodes lt above,
        )
      where
        enough :
            (h : Heap D) (d f : FilePath) (p n size : ℕ)
            → Entry ps fs d f
            → IsNode ps fs h f p file size n
            → IsTree h
            → (h.node 0).name ≡ native root
            → Placed ps fs root h d p
            → (fuel : ℕ) → n < fuel
            → p < n
            → build_path ps fuel h n ≡ some f
        enough h d f p n size en node t name place zero lt above = absurd (omega (arith, lt))
        enough h d f p n size en node t name place (suc fuel) lt above =
            node_path fuel h d f p n size _ en node
              (dir_path fuel h d p t name place (omega (arith, lt, above)))
