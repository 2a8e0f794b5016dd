-- ===== src/FuzzyDedup/Deduplicated.antt =====
-- What FuzzyDedup makes of a scanned tree. src/fuzzy_dedup.cpp.
use dupa.Base.{
  some_inj, ℕ, ◌+◌, ◌<◌, ◌≡◌, ◌≢◌, refl, sym, ap, ◌∙◌, subst, true, some, List, In, arith, Platform,
  is_some, if◌then◌else◌,
}
use dupa.Conf.{GlobalConfig}
use dupa.FileTree.Store.{file, EqClass, Heap, is_empty_dir, is_evaluated, is_single}
use dupa.FileTree.Weights.{WeightLaws}
use dupa.FileTree.Traversal.{Rooted, traverse-In}
use dupa.FileTree.Walk.{traverse}
use dupa.FuzzyDedup.Files.{nth, FilesClassified}
use dupa.FuzzyDedup.EmptyDirs.{EmptyDirsDone, is_empty_dir_eq}
use dupa.FuzzyDedup.Propagation.{AllClassified}
use dupa.FuzzyDedup.Tree.{TreeCtor}
use dupa.FuzzyDedup.Unique.{Done, FileDone}
use dupa.FuzzyDedup.Whole.{Std}
use dupa.FuzzyDedup.Ready.{file_not_empty_dir, Rooted-same, Ready, Rooted-files, Rooted-empty}

module _ (pl : Platform) (laws : WeightLaws pl) (conf : GlobalConfig) (std : Std) where
  open pl use {Double}

  -- The result of FuzzyDedup.
  pub record Deduplicated (t : TreeCtor Double) (h : Heap Double) : Type 0 where
    pub all : (x : ℕ) → x < t.heap.num_nodes → is_evaluated (h.node x) ≡ true
    pub same_children : (x : ℕ) → (h.node x).children ≡ (t.heap.node x).children
    pub equal_files :
        (s a b : ℕ)
        → In (s, a) t.sum2node
        → In (s, b) t.sum2node
        → (h.node a).eq_class ≡ (h.node b).eq_class
    pub other_files :
        (s u a b : ℕ)
        → In (s, a) t.sum2node
        → In (u, b) t.sum2node
        → s ≢ u
        → (h.node a).eq_class ≢ (h.node b).eq_class
    pub empty_dirs :
        (a b : ℕ)
        → a < t.heap.num_nodes
        → b < t.heap.num_nodes
        → is_empty_dir (t.heap.node a) ≡ true
        → is_empty_dir (t.heap.node b) ≡ true
        → (h.node a).eq_class ≡ (h.node b).eq_class
    pub fractions :
        (x : ℕ)
        → x < t.heap.num_nodes
        → (t.heap.node x).type ≡ file
        → FileDone pl conf.use_size h x h

  -- The heaps after each of the four steps.
  module _ (t : TreeCtor Double) (v : Ready pl laws conf std t) (h1 h2 h3 h4 : Heap Double) (c : ℕ)
      (k1 : FilesClassified pl laws conf (std.ranges t.sum2node) t.heap h1)
      (k2 : EmptyDirsDone pl laws conf c h1 h2) (k3 : AllClassified pl laws conf h2 h3) (r : List ℕ)
      (k4 : Done pl conf.use_size h3 (traverse h3 h3.num_nodes 0) h3 (r, h4)) where
    rooted3 : Rooted h3 0
    rooted3 =
        Rooted-same h2 h3 0 k2.sound.consistent.tree k3.sound.consistent.tree k3.size
          k3.same_children
          (Rooted-empty pl laws conf std c h1 h2 k1.sound.consistent.tree k2
            (Rooted-files pl laws conf std t h1 v k1))

    -- The class of a file, from its range on.
    file_class :
        (k x : ℕ) (g : ℕ × List ℕ)
        → nth (std.ranges t.sum2node) k ≡ some g
        → In x g.1
        → (h4.node x).eq_class ≡ some (t.heap.num_classes + k)
    file_class k x g e m =
        let is_file : (t.heap.node x).type ≡ file =
          v.are_files (g.0, x) ((std.ranges-In g.0 x t.sum2node).1 (k, g, e, refl, m)) in
        k4.same.eq_classes x
        ∙ k3.kept x _ (
            k2.others x (λ below. file_not_empty_dir (h1.node x) (k1.same_type x ∙ is_file))
            ∙ k1.hit k g x e m)

    empty_class :
        (x : ℕ)
        → x < t.heap.num_nodes
        → is_empty_dir (t.heap.node x) ≡ true
        → (h4.node x).eq_class ≡ some c
    empty_class x lt e =
        k4.same.eq_classes x
        ∙ k3.kept x c (
            k2.hit x (subst (λ n. x < n) (sym k1.size) lt) (
              is_empty_dir_eq (h1.node x) (t.heap.node x) (k1.same_children x) (k1.same_type x)
              ∙ e))

    pub result-Deduplicated : Deduplicated t h4
    result-Deduplicated = record {
      all = λ x lt.
          ap is_some (k4.same.eq_classes x)
          ∙ k3.all x (subst (λ n. x < n) (sym (k2.size ∙ k1.size)) lt);
      same_children = λ x.
          k4.same.children x ∙ (k3.same_children x ∙ (k2.same_children x ∙ k1.same_children x));
      equal_files = λ s a b m n.
          let (j, f, e, p, i) = (std.ranges-In s a t.sum2node).0 m in
          let (k, g, d, q, l) = (std.ranges-In s b t.sum2node).0 n in
          file_class j a f e i
          ∙ (ap (λ z. some (t.heap.num_classes + z))
                (std.ranges-apart t.sum2node j k f g e d (p ∙ sym q))
              ∙ sym (file_class k b g d l));
      other_files = λ s u a b m n ne same.
          let (j, f, e, p, i) = (std.ranges-In s a t.sum2node).0 m in
          let (k, g, d, q, l) = (std.ranges-In u b t.sum2node).0 n in
          let jk : j ≡ k =
            omega (arith, some_inj (sym (file_class j a f e i) ∙ (same ∙ file_class k b g d l))) in
          let whole : some f ≡ some g = sym e ∙ (ap (nth (std.ranges t.sum2node)) jk ∙ d) in
          ne (sym p ∙ (ap (λ z. z.0) (some_inj whole) ∙ q));
      empty_dirs = λ a b lt lu e d. empty_class a lt e ∙ sym (empty_class b lu d);
      fractions = λ x lt e c' o.
          let lt3 : x < h3.num_nodes =
            subst (λ n. x < n) (sym (k3.size ∙ (k2.size ∙ k1.size))) lt in
          let type3 : (h3.node x).type ≡ file =
            k3.same_type x ∙ (k2.same_type x ∙ (k1.same_type x ∙ e)) in
          let listed =
            k4.all_files x ((traverse-In h3 k3.sound.consistent.tree 0 x rooted3).1 lt3) type3 in
          let (_, _, _, done) = k4.files x listed in
          done c' (sym (k4.same.eq_classes x) ∙ o)
          ∙ ap
              (λ (classes : ℕ → EqClass Double).
                if is_single (classes c') then pl.of_ℕ 1 else pl.of_ℕ 0)
              (sym k4.same.same_classes);
    }
