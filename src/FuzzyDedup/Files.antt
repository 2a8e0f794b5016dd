-- ===== src/FuzzyDedup/Files.antt =====
-- ClassifyDuplicateFiles: one class for each checksum. src/fuzzy_dedup.cpp.
use dupa.Base.{
  ℕ, zero, suc, ◌+◌, ◌<◌, ◌≡◌, inl, inr, refl, sym, ap, ◌∙◌, subst, Option, none, some, List, [],
  ◌∷◌, ◌++◌, In, In-append, In-append_left, In-append_right, Distinct, arith, Platform,
}
use dupa.Conf.{GlobalConfig}
use dupa.FileTree.Store.{Heap}
use dupa.FileTree.{add_node}
use dupa.FileTree.Invariant.{Returns, Returns-bind, Returns-map, Returns-some, open_count}
use dupa.FileTree.AddNode.{add_node-IsConsistent}
use dupa.FileTree.Weights.{WeightLaws}
use dupa.FileTree.WeightSteps.{add_node-Weighted}
use dupa.FuzzyDedup.{Classes, new_class, add_range, classify_duplicate_files}
use dupa.FuzzyDedup.Classify.{Sound, new_class-Sound}

-- All nodes of the ranges.
abbrev pub all_nodes : List (ℕ × List ℕ) → List ℕ
all_nodes [] = []
all_nodes (g ∷ gs) = g.1 ++ all_nodes gs

-- The `k`-th entry.
abbrev pub nth : List (ℕ × List ℕ) → ℕ → Option (ℕ × List ℕ)
nth [] k = none
nth (g ∷ gs) zero = some g
nth (g ∷ gs) (suc k) = nth gs k

pub In-all_nodes :
    (gs : List (ℕ × List ℕ)) (n : ℕ)
    → In n (all_nodes gs)
    → (k : ℕ) × (g : ℕ × List ℕ) × (nth gs k ≡ some g) × In n g.1
In-all_nodes [] n m = absurd m
In-all_nodes (g ∷ gs) n m = elim (In-append n g.1 (all_nodes gs) m) [
  | inl here ↦ (0, g, refl, here)
  | inr there ↦ let (k, f, e, i) = In-all_nodes gs n there in (suc k, f, e, i)
]

-- Two lists that make a list without repetition.
pub Distinct-left : (xs ys : List ℕ) → Distinct (xs ++ ys) → Distinct xs
Distinct-left [] ys d = tt
Distinct-left (x ∷ xs) ys d = ((λ m. d.0 (In-append_left x xs ys m)), Distinct-left xs ys d.1)

pub Distinct-right : (xs ys : List ℕ) → Distinct (xs ++ ys) → Distinct ys
Distinct-right [] ys d = d
Distinct-right (x ∷ xs) ys d = Distinct-right xs ys d.1

pub Distinct-apart : (xs ys : List ℕ) (a : ℕ) → Distinct (xs ++ ys) → In a xs → ¬ In a ys
Distinct-apart [] ys a d m i = m
Distinct-apart (x ∷ xs) ys a d (inl same) i =
    d.0 (In-append_right x xs ys (subst (λ z. In z ys) same i))
Distinct-apart (x ∷ xs) ys a d (inr m) i = Distinct-apart xs ys a d.1 m i

module _ (pl : Platform) (laws : WeightLaws pl) (conf : GlobalConfig) where
  open pl use {Double}

  -- The nodes have no children and no class.
  abbrev pub Leaves : List ℕ → Heap Double → Type 0
  Leaves xs h = (x : ℕ) → In x xs → ((h.node x).children ≡ []) × ((h.node x).eq_class ≡ none)

  -- The nodes have got the class, and nothing else has changed.
  pub record RangeAdded (c : ℕ) (xs : List ℕ) (h h' : Heap Double) : Type 0 where
    pub sound : Sound pl laws conf h'
    pub same_classes : h'.num_classes ≡ h.num_classes
    pub size : h'.num_nodes ≡ h.num_nodes
    pub same_type : (x : ℕ) → (h'.node x).type ≡ (h.node x).type
    pub same_children : (x : ℕ) → (h'.node x).children ≡ (h.node x).children
    pub hit : (x : ℕ) → In x xs → (h'.node x).eq_class ≡ some c
    pub others : (x : ℕ) → ¬ In x xs → (h'.node x).eq_class ≡ (h.node x).eq_class

  pub add_range-RangeAdded :
      (c : ℕ) (xs : List ℕ) (h : Heap Double)
      → Sound pl laws conf h
      → Distinct xs
      → Leaves xs h
      → c < h.num_classes
      → Returns (add_range pl conf c xs h) (RangeAdded c xs h)
  unfolding add_range
  add_range-RangeAdded c [] h v d l lt = record {
    sound = v;
    same_classes = refl;
    size = refl;
    same_type = λ x. refl;
    same_children = λ x. refl;
    hit = λ x m. absurd m;
    others = λ x m. refl;
  }
  add_range-RangeAdded c (x ∷ xs) h v d l lt =
      let now = l x (inl refl) in
      let r : (h.node x).not_evaluated_children ≡ 0 =
        v.consistent.counted x ∙ ap (open_count h) now.0 in
      let (h1, done, k) =
        Returns-some (add_node pl conf.use_size c x h) _
          (add_node-IsConsistent pl conf.use_size c x h v.consistent r now.1 lt) in
      let v1 : Sound pl laws conf h1 = record {
        consistent = k.1;
        weighted = add_node-Weighted pl laws conf.use_size c x h h1 v.weighted done;
      } in
      let leaves1 : Leaves xs h1 = λ y m. (
        k.0.same_children y ∙ (l y (inr m)).0,
        k.0.others y (λ same. d.0 (subst (λ a. In a xs) same m)) ∙ (l y (inr m)).1,
      ) in
      Returns-bind _ _ done (
        Returns-map (add_range pl conf c xs h1) (RangeAdded c xs h1) _
          (λ h' z. record {
            sound = z.sound;
            same_classes = z.same_classes ∙ k.0.same_classes;
            size = z.size ∙ k.0.size;
            same_type = λ y. z.same_type y ∙ k.0.same_type y;
            same_children = λ y. z.same_children y ∙ k.0.same_children y;
            hit = λ y m. elim m [
              | inl same ↦
                  subst (λ a. (h'.node a).eq_class ≡ some c) (sym same) (z.others x d.0 ∙ k.0.hit)
              | inr i ↦ z.hit y i
            ];
            others = λ y n. z.others y (λ i. n (inr i)) ∙ k.0.others y (λ same. n (inl same));
          })
          (add_range-RangeAdded c xs h1 v1 d.1 leaves1
            (subst (λ n. c < n) (sym k.0.same_classes) lt)))

  -- The k-th range has got the k-th new class, and no other node one.
  pub record FilesClassified (gs : List (ℕ × List ℕ)) (h h' : Heap Double) : Type 0 where
    pub sound : Sound pl laws conf h'
    pub size : h'.num_nodes ≡ h.num_nodes
    pub same_type : (x : ℕ) → (h'.node x).type ≡ (h.node x).type
    pub same_children : (x : ℕ) → (h'.node x).children ≡ (h.node x).children
    pub hit :
        (k : ℕ) (g : ℕ × List ℕ) (x : ℕ)
        → nth gs k ≡ some g
        → In x g.1
        → (h'.node x).eq_class ≡ some (h.num_classes + k)
    pub others : (x : ℕ) → ¬ In x (all_nodes gs) → (h'.node x).eq_class ≡ (h.node x).eq_class

  In-nth :
      (gs : List (ℕ × List ℕ)) (k : ℕ) (g : ℕ × List ℕ) (x : ℕ)
      → nth gs k ≡ some g
      → In x g.1
      → In x (all_nodes gs)
  In-nth [] k g x e m = absurd (ground arith)
  In-nth (f ∷ gs) zero g x e m =
      let same : f.1 ≡ g.1 = ap (λ o. elim o [ some a ↦ a.1 | none ↦ [] ]) e in
      In-append_left x f.1 (all_nodes gs) (subst (In x) (sym same) m)
  In-nth (f ∷ gs) (suc k) g x e m = In-append_right x f.1 (all_nodes gs) (In-nth gs k g x e m)

  -- On a sound tree, for ranges of nodes without children and without a class, none in two ranges,
  -- ClassifyDuplicateFiles meets no failed assertion, gives the nodes of the k-th range the k-th new
  -- class and no other node one, and leaves the tree sound.
  pub classify_duplicate_files-FilesClassified :
      (gs : List (ℕ × List ℕ)) (s : Classes pl conf)
      → Sound pl laws conf s.heap
      → Distinct (all_nodes gs)
      → Leaves (all_nodes gs) s.heap
      → Returns (classify_duplicate_files pl conf gs s) (λ s'. FilesClassified gs s.heap s'.heap)
  unfolding classify_duplicate_files new_class
  classify_duplicate_files-FilesClassified [] s v d l = record {
    sound = v;
    size = refl;
    same_type = λ x. refl;
    same_children = λ x. refl;
    hit = λ k g x e m. absurd (ground arith);
    others = λ x m. refl;
  }
  classify_duplicate_files-FilesClassified ((sum, ns) ∷ gs) s v d l =
      let c = s.heap.num_classes in
      let (h, done, k) = Returns-some (add_range pl conf c ns (new_class pl conf s.heap)) _ (
        add_range-RangeAdded c ns (new_class pl conf s.heap) (new_class-Sound pl laws conf s.heap v)
          (Distinct-left ns (all_nodes gs) d) (λ x m. l x (In-append_left x ns (all_nodes gs) m))
          (omega arith)) in
      let s' : Classes pl conf = record { heap = h; eq_classes = s.eq_classes ++ c ∷ [] } in
      let leaves : Leaves (all_nodes gs) h = λ x m.
        let was = l x (In-append_right x ns (all_nodes gs) m) in
        (
          k.same_children x ∙ was.0,
          k.others x (λ i. Distinct-apart ns (all_nodes gs) x d i m) ∙ was.1,
        ) in
      Returns-bind _ _ done (
        Returns-map (classify_duplicate_files pl conf gs s') (λ t. FilesClassified gs h t.heap) _
          (λ t. first_range c k)
          (classify_duplicate_files-FilesClassified gs s' k.sound
            (Distinct-right ns (all_nodes gs) d) leaves))
    where
      first_hit :
          {h h' : Heap Double}
          → RangeAdded s.heap.num_classes ns (new_class pl conf s.heap) h
          → FilesClassified gs h h'
          → (j : ℕ) (g : ℕ × List ℕ) (x : ℕ) → nth ((sum, ns) ∷ gs) j ≡ some g
          → In x g.1
          → (h'.node x).eq_class ≡ some (s.heap.num_classes + j)
      first_hit k z zero g x e m =
          let same : ns ≡ g.1 = ap (λ o. elim o [ some a ↦ a.1 | none ↦ [] ]) e in
          let here = subst (In x) (sym same) m in
          z.others x (Distinct-apart ns (all_nodes gs) x d here)
          ∙ (k.hit x here ∙ ap some (omega arith))
      first_hit k z (suc j) g x e m =
          z.hit j g x e m ∙ ap some (let n = k.same_classes in omega (arith, n))

      first_range :
          {h h' : Heap Double} (c : ℕ)
          → RangeAdded s.heap.num_classes ns (new_class pl conf s.heap) h
          → FilesClassified gs h h'
          → FilesClassified ((sum, ns) ∷ gs) s.heap h'
      first_range c k z = record {
        sound = z.sound;
        size = z.size ∙ k.size;
        same_type = λ x. z.same_type x ∙ k.same_type x;
        same_children = λ x. z.same_children x ∙ k.same_children x;
        hit = first_hit k z;
        others = λ x m.
            z.others x (λ i. m (In-append_right x ns (all_nodes gs) i))
            ∙ k.others x (λ i. m (In-append_left x ns (all_nodes gs) i));
      }
