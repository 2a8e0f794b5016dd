-- ===== src/FuzzyDedup/OnDisk.antt =====
-- The tree that ScanDirectory makes of a directory on disk, in every order in which its files are
-- analyzed. src/fuzzy_dedup.cpp.
use dupa.Base.{
  ◌∙◌, ℕ, ◌<◌, ◌≡◌, ◌≢◌, inl, inr, sym, subst, true, String, some, [], ◌∷◌, ◌++◌, In, In-append,
  Distinct, map, In-map, arith,
}
use mathlib.Core.List.{map-append}
use dupa.FileTree.Store.{NodeType, file, is_dir, Heap}
use dupa.FileTree.Growing.{IsNew, Distinct-append_one}
use dupa.FileTree.Growth.{Attached}
use dupa.FileTree.Traversal.{Rooted}
use dupa.HashCache.{FileInfo}
use dupa.Scanner.FilePaths.{Paths}
use dupa.Scanner.Walk.{FileSystem}
use dupa.Scanner.Walk.Visit.{Regular}
use dupa.Scanner.Walk.Invariant.{Entry}
use dupa.FuzzyDedup.Tree.{TreeCtor}
use dupa.FuzzyDedup.Building.{node_of, IsHandle, Attached-dir, Attached-Rooted}
use dupa.FuzzyDedup.Placing.{IsNode, Placed, Attached-IsNode, Attached-Placed}

module _ (ps : Paths) (fs : FileSystem ps) {D : Type 0} (root : ps.FilePath) where
  open ps use {FilePath, native, filename}
  open fs use {open_dir, analyze}

  -- The pair of the multimap stands for a file of the directory whose node is p.
  abbrev pub FileNode : Heap D → FilePath → ℕ → FileInfo → ℕ × ℕ → Type 0
  FileNode h f p i r = (r.0 ≡ i.sum) × IsNode ps fs h f p file i.size r.1

  -- A file on disk, in the place that its node has in the tree.
  abbrev pub FromDisk : Heap D → ℕ × ℕ → Type 0
  FromDisk h r =
      (d : FilePath) × (p : ℕ) × (f : FilePath) × (i : FileInfo) × Placed ps fs root h d p
      × Entry ps fs d f
      × Regular ps fs f
      × (analyze f ≡ some i)
      × (i.sum ≢ 0)
      × FileNode h f p i r

  -- The tree while the walk goes on.
  pub record Growing (first : Heap D) (s : TreeCtor D) : Type 0 where
    pub same_classes : s.heap.class_at ≡ first.class_at
    pub is_new : IsNew s.heap
    pub has_root : s.root ≡ some 0
    pub rooted : Rooted s.heap 0
    pub root_name : (s.heap.node 0).name ≡ native root
    pub only_files : (r : ℕ × ℕ) → In r s.sum2node → FromDisk s.heap r
    pub once : Distinct (map node_of s.sum2node)

  abbrev pub IsPlace : FilePath → ℕ → TreeCtor D → Type 0
  IsPlace d n s = IsHandle ps n s × Placed ps fs root s.heap d n

  abbrev pub HasNode : FilePath → ℕ → FileInfo → TreeCtor D → Type 0
  HasNode f p i s = (r : ℕ × ℕ) × In r s.sum2node × FileNode s.heap f p i r

  module _ (p size : ℕ) (type : NodeType) (name : String) (s : TreeCtor D) (h' : Heap D)
      (k : Attached p type name size s.heap h') where
    pub FromDisk-kept : (r : ℕ × ℕ) → FromDisk s.heap r → FromDisk h' r
    FromDisk-kept r (d, q, f, i, place, en, re, done, full, (sum, node)) = (
      d,
      q,
      f,
      i,
      Attached-Placed ps fs p type name size s.heap h' k root d q place,
      en,
      re,
      done,
      full,
      (sum, Attached-IsNode ps fs p type name size s.heap h' k f q file i.size r.1 node),
    )

    pub IsPlace-kept :
        (d : FilePath) (n : ℕ) (s' : TreeCtor D) → s'.heap ≡ h' → IsPlace d n s → IsPlace d n s'
    IsPlace-kept d n s' same (handle, place) =
        subst (λ h. ((n < h.num_nodes) × (is_dir (h.node n).type ≡ true)) × Placed ps fs root h d n)
          (sym same)
          (
            Attached-dir ps p type name size s.heap h' k n handle,
            Attached-Placed ps fs p type name size s.heap h' k root d n place,
          )

    pub HasNode-kept :
        (f : FilePath) (q : ℕ) (i : FileInfo) (s' : TreeCtor D)
        → s'.heap ≡ h'
        → ((r : ℕ × ℕ) → In r s.sum2node → In r s'.sum2node)
        → HasNode f q i s
        → HasNode f q i s'
    HasNode-kept f q i s' same more (r, m, (sum, node)) = (
      r,
      more r m,
      (
        sum,
        subst (λ h. IsNode ps fs h f q file i.size r.1) (sym same)
            (Attached-IsNode ps fs p type name size s.heap h' k f q file i.size r.1 node),
      ),
    )

    -- A node that is a directory, or stands at the end of the multimap.
    pub dir-Growing :
        (first : Heap D) → Growing first s → IsNew h' → Growing first (record s { heap = h' })
    dir-Growing first v new = record {
      same_classes = k.same_classes ∙ v.same_classes;
      is_new = new;
      has_root = v.has_root;
      rooted = Attached-Rooted ps p type name size s.heap h' k v.rooted;
      root_name = k.same_name 0 (λ e. omega (arith, v.rooted.0, e)) ∙ v.root_name;
      only_files = λ r m. FromDisk-kept r (v.only_files r m);
      once = v.once;
    }

    pub file-Growing :
        (first : Heap D) (sum : ℕ)
        → Growing first s
        → IsNew h'
        → FromDisk h' (sum, s.heap.num_nodes)
        → Growing first
            (record s { heap = h'; sum2node = s.sum2node ++ (sum, s.heap.num_nodes) ∷ [] })
    file-Growing first sum v new on_disk = record {
      same_classes = k.same_classes ∙ v.same_classes;
      is_new = new;
      has_root = v.has_root;
      rooted = Attached-Rooted ps p type name size s.heap h' k v.rooted;
      root_name = k.same_name 0 (λ e. omega (arith, v.rooted.0, e)) ∙ v.root_name;
      only_files = λ r m. elim (In-append r s.sum2node ((sum, s.heap.num_nodes) ∷ []) m) [
        | inl old ↦ FromDisk-kept r (v.only_files r old)
        | inr (inl same) ↦ subst (FromDisk h') (sym same) on_disk
        | inr (inr none_left) ↦ absurd none_left
      ];
      once = subst Distinct (sym (map-append node_of s.sum2node ((sum, s.heap.num_nodes) ∷ []))) (
          Distinct-append_one (map node_of s.sum2node) s.heap.num_nodes v.once (λ m.
            let (r, j, e) = In-map node_of s.heap.num_nodes s.sum2node m in
            let (_, _, _, _, _, _, _, _, _, (_, (lt, _, _, _, _))) = v.only_files r j in
            omega (arith, lt, e)));
    }
