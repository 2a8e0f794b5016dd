-- ===== src/FuzzyDedup/DiskResult.antt =====
-- FuzzyDedup of a directory on disk. src/fuzzy_dedup.cpp.
use dupa.Base.{
  ℕ, ◌≡◌, ◌≢◌, ◌↔◌, refl, sym, subst, some, List, In, Bool-cases, ◌==◌, ==_iff, inl, inr, arith,
  Platform,
}
use dupa.Conf.{GlobalConfig}
use dupa.FileTree.Store.{Heap}
use dupa.FileTree.Growing.{IsNew}
use dupa.FileTree.Weights.{WeightLaws}
use dupa.FileTree.Distance.{Weighted}
use dupa.HashCache.{FileInfo}
use dupa.Scanner.FilePaths.{Paths}
use dupa.Scanner.Walk.{FileSystem, Walk, start, Run, IsOver}
use dupa.Scanner.Walk.Visit.{Regular}
use dupa.Scanner.Walk.Over.{Below, scan_directory-AllTold}
use dupa.FuzzyDedup.{Classes}
use dupa.FuzzyDedup.Tree.{TreeCtor, tree_ctor_processor}
use dupa.FuzzyDedup.OnDisk.{FileNode, Growing, IsPlace, HasNode}
use dupa.FuzzyDedup.DiskTree.{EntriesNamed, empty_tree, tree_ctor-Keeps}
use dupa.FuzzyDedup.Whole.{Std, fuzzy_dedup}
use dupa.FuzzyDedup.Ready.{Ready}
use dupa.FuzzyDedup.Deduplicated.{Deduplicated}
use dupa.FuzzyDedup.Reported.{fuzzy_dedup-Deduplicated}

module _ (ps : Paths) (fs : FileSystem ps) (pl : Platform) (laws : WeightLaws pl)
    (conf : GlobalConfig) (std : Std) (root : ps.FilePath) where
  open ps use {FilePath, native}
  open fs use {open_dir, analyze}
  open pl use {Double}

  -- A regular file below the root that the scan takes.
  abbrev pub IsScanned : FilePath → FileInfo → Type 0
  IsScanned f i =
      (d : FilePath) × (es : List FilePath) × Below ps fs root d
      × (open_dir d ≡ some es)
      × In f es
      × Regular ps fs f
      × (analyze f ≡ some i)
      × (i.sum ≢ 0)

  -- The node of a file, below that of a directory.
  abbrev pub NodeFor : TreeCtor Double → FilePath → FileInfo → ℕ → Type 0
  NodeFor t f i n = (p : ℕ) × In (i.sum, n) t.sum2node × FileNode ps fs root t.heap f p i (i.sum, n)

  pub Growing-Ready :
      (h : Heap Double) (t : TreeCtor Double)
      → Weighted pl laws conf.use_size h
      → Growing ps fs root h t
      → Ready pl laws conf std t
  Growing-Ready h t w v = record {
    is_new = v.is_new;
    has_root = v.has_root;
    rooted = v.rooted;
    are_files =
        λ r m. let (_, _, _, _, _, _, _, _, _, (_, (_, ty, _, _, _))) = v.only_files r m in ty;
    once = v.once;
    weighted = λ c. subst (λ cs. laws.IsWeight (cs c).weight) (sym v.same_classes) (w c);
  }

  HasNode-NodeFor :
      (t : TreeCtor Double) (f : FilePath) (i : FileInfo) (p : ℕ)
      → HasNode ps fs root f p i t
      → (n : ℕ) × NodeFor t f i n
  HasNode-NodeFor t f i p ((s, n), m, (same, node)) =
      (n, (p, subst (λ z. In (z, n) t.sum2node) same m, (refl, node)))

  same_class :
      (t : TreeCtor Double) (h : Heap Double)
      → Deduplicated pl laws conf std t h
      → (i j : FileInfo) (a b : ℕ) → In (i.sum, a) t.sum2node
      → In (j.sum, b) t.sum2node
      → ((h.node a).eq_class ≡ (h.node b).eq_class) ↔ (i.sum ≡ j.sum)
  same_class t h k i j a b m n = (
    λ e. elim (Bool-cases (i.sum == j.sum)) [
      | inl same ↦ (==_iff i.sum j.sum).0 same
      | inr other ↦ absurd (
          k.other_files i.sum j.sum a b m n
            (λ z. absurd (ground (arith, other, (==_iff i.sum j.sum).1 z))) e)
    ],
    λ e. k.equal_files i.sum a b m (subst (λ z. In (z, b) t.sum2node) (sym e) n),
  )

  -- When a directory that can be opened has been walked, in whatever order its files were analyzed,
  -- FuzzyDedup meets no failed assertion and classifies the whole tree: any two regular files below the
  -- directory that could be analyzed, with checksums other than 0, have nodes, and these are in one
  -- class exactly if the checksums are equal. The entries of directories and the root's path are
  -- supposed to have names, and the heap to be empty, with classes that weigh nothing yet.
  pub fuzzy_dedup_on_disk-Deduplicated :
      (h : Heap Double) (t : Walk ps fs (tree_ctor_processor ps)) (n : ℕ)
      → IsNew h
      → Weighted pl laws conf.use_size h
      → h.num_nodes ≡ 0
      → native root ≢ ""
      → EntriesNamed ps fs
      → Run ps fs
          (tree_ctor_processor ps)
          (start ps fs (tree_ctor_processor ps) root (empty_tree h))
          n
          t
      → IsOver ps fs (tree_ctor_processor ps) t
      → (f g : FilePath) (i j : FileInfo) → IsScanned f i
      → IsScanned g j
      → (s : Classes pl conf) × (fuzzy_dedup pl conf std t.state ≡ some (some (0, s)))
        × Deduplicated pl laws conf std t.state s.heap
        × ((a : ℕ) × (b : ℕ) × NodeFor t.state f i a
            × NodeFor t.state g j b
            × (((s.heap.node a).eq_class ≡ (s.heap.node b).eq_class) ↔ (i.sum ≡ j.sum)))
  fuzzy_dedup_on_disk-Deduplicated h t n new w empty ne named r over f g i j
        (d, es, b, listed, m, re, done, full) (d', es', b', listed', m', re', done', full') =
      let told =
        scan_directory-AllTold ps fs (tree_ctor_processor ps) root (empty_tree h)
          (Growing ps fs root h) (IsPlace ps fs root) (λ f p i s. HasNode ps fs root f p i s)
          (tree_ctor-Keeps ps fs root h new empty ne named) t n r over in
      let (grown, (p, _, all)) = told d es b listed in
      let (_, (q, _, all')) = told d' es' b' listed' in
      let (x, node) = HasNode-NodeFor t.state f i p (all f i m re done full) in
      let (y, node') = HasNode-NodeFor t.state g j q (all' g j m' re' done' full') in
      let (s, ran, k, _) =
        fuzzy_dedup-Deduplicated pl laws conf std t.state (Growing-Ready h t.state w grown) in
      (s, ran, k, (x, y, node, node', same_class t.state s.heap k i j x y node.1 node'.1))
