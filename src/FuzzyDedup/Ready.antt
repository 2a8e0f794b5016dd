-- ===== src/FuzzyDedup/Ready.antt =====
-- The tree that a scan leaves, and how the steps of FuzzyDedup keep it. src/fuzzy_dedup.cpp.
use dupa.Base.{
  ℕ, ◌<◌, ◌≡◌, inl, refl, sym, ap, ◌∙◌, subst, true, false, none, some, List, [], ◌∷◌, In, Distinct,
  map, arith, Platform,
}
use dupa.Conf.{GlobalConfig}
use dupa.FileTree.Store.{Node, file, is_dir, Heap, is_empty_dir}
use dupa.FileTree.Invariant.{IsTree}
use dupa.FileTree.Growing.{IsNew, IsNew-IsConsistent}
use dupa.FileTree.Weights.{WeightLaws}
use dupa.FileTree.Distance.{Weighted}
use dupa.FileTree.Traversal.{Rooted}
use dupa.FuzzyDedup.Classify.{Sound}
use dupa.FuzzyDedup.Files.{all_nodes, In-all_nodes, Leaves, FilesClassified}
use dupa.FuzzyDedup.EmptyDirs.{EmptyDirsDone}
use dupa.FuzzyDedup.Tree.{TreeCtor}
use dupa.FuzzyDedup.Building.{node_of}
use dupa.FuzzyDedup.Whole.{Std}

-- A file has no children.
pub file_children :
    {D : Type 0} (h : Heap D) (x : ℕ) → IsTree h → (h.node x).type ≡ file → (h.node x).children ≡ []
file_children h x t f = go (h.node x).children refl
  where
    go : (cs : List ℕ) → (h.node x).children ≡ cs → cs ≡ []
    go [] e = refl
    go (c ∷ cs) e =
        let d = t.typed x c (subst (In c) (sym e) (inl refl)) in
        absurd (ground (arith, sym (ap is_dir f) ∙ d))

pub file_not_empty_dir : {D : Type 0} (x : Node D) → x.type ≡ file → is_empty_dir x ≡ false
file_not_empty_dir x e = ground arith

-- The root is one still when nodes and children are the same.
pub Rooted-same :
    {D : Type 0} (h h' : Heap D) (root : ℕ)
    → IsTree h
    → IsTree h'
    → h'.num_nodes ≡ h.num_nodes
    → ((x : ℕ) → (h'.node x).children ≡ (h.node x).children)
    → Rooted h root
    → Rooted h' root
Rooted-same h h' root t t' n same (lt, up) = (
  subst (λ m. root < m) (sym n) lt,
  λ x below other.
      let (p, e) = up x (subst (λ m. x < m) n below) other in
      (p, (t'.below p x (subst (In x) (sym (same p)) (t.above p x e))).2),
)

module _ (pl : Platform) (laws : WeightLaws pl) (conf : GlobalConfig) (std : Std) where
  open pl use {Double}

  -- What a scan leaves.
  pub record Ready (t : TreeCtor Double) : Type 0 where
    pub is_new : IsNew t.heap
    pub has_root : t.root ≡ some 0
    pub rooted : Rooted t.heap 0
    pub are_files : (r : ℕ × ℕ) → In r t.sum2node → (t.heap.node r.1).type ≡ file
    pub once : Distinct (map node_of t.sum2node)
    pub weighted : Weighted pl laws conf.use_size t.heap

  -- The state before the first class.
  pub Ready-Sound : (t : TreeCtor Double) → Ready t → Sound pl laws conf t.heap
  Ready-Sound t v = record {
    consistent = IsNew-IsConsistent t.heap v.is_new;
    weighted = v.weighted;
  }

  pub Ready-file :
      (t : TreeCtor Double)
      → Ready t
      → (n : ℕ) → In n (all_nodes (std.ranges t.sum2node))
      → (t.heap.node n).type ≡ file
  Ready-file t v n m =
      let (k, g, e, i) = In-all_nodes (std.ranges t.sum2node) n m in
      v.are_files (g.0, n) ((std.ranges-In g.0 n t.sum2node).1 (k, g, e, refl, i))

  -- The leaves get their classes from their checksums.
  pub Ready-Leaves :
      (t : TreeCtor Double)
      → Ready t
      → Leaves pl laws conf (all_nodes (std.ranges t.sum2node)) t.heap
  Ready-Leaves t v n m =
      (file_children t.heap n v.is_new.tree (Ready-file t v n m), v.is_new.unclassified n)

  -- The root stays where it is.
  pub Rooted-files :
      (t : TreeCtor Double) (h1 : Heap Double)
      → Ready t
      → FilesClassified pl laws conf (std.ranges t.sum2node) t.heap h1
      → Rooted h1 0
  Rooted-files t h1 v k =
      Rooted-same t.heap h1 0 v.is_new.tree k.sound.consistent.tree k.size k.same_children v.rooted

  pub Rooted-empty :
      (c : ℕ) (h1 h2 : Heap Double)
      → IsTree h1
      → EmptyDirsDone pl laws conf c h1 h2
      → Rooted h1 0
      → Rooted h2 0
  Rooted-empty c h1 h2 t k = Rooted-same h1 h2 0 t k.sound.consistent.tree k.size k.same_children

  -- The empty directories have no class yet.
  pub empties_open :
      (t : TreeCtor Double) (h1 : Heap Double)
      → Ready t
      → FilesClassified pl laws conf (std.ranges t.sum2node) t.heap h1
      → (x : ℕ) → x < h1.num_nodes
      → is_empty_dir (h1.node x) ≡ true
      → (h1.node x).eq_class ≡ none
  empties_open t h1 v k x lt e =
      k.others x (λ m.
        let no = file_not_empty_dir (h1.node x) (k.same_type x ∙ Ready-file t v x m) in
        ground arith)
      ∙ v.is_new.unclassified x
