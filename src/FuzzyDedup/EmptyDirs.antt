-- ===== src/FuzzyDedup/EmptyDirs.antt =====
-- ClassifyEmptyDirs: all empty directories get one class. src/fuzzy_dedup.cpp.
use dupa.Base.{
  ℕ, ◌<◌, ◌≡◌, ◌≢◌, inl, inr, refl, sym, ap, ◌∙◌, subst, true, false, none, some, List, [], ◌∷◌, In,
  Distinct, arith, Platform, Bool-cases,
}
use dupa.Conf.{GlobalConfig}
use dupa.FileTree.Store.{Node, Heap, is_empty_dir}
use dupa.FileTree.{add_node}
use dupa.FileTree.Walk.{traverse}
use dupa.FileTree.Invariant.{
  Returns, Returns-bind, Returns-map, Returns-some, open_count, Classified,
}
use dupa.FileTree.AddNode.{add_node-IsConsistent}
use dupa.FileTree.Weights.{WeightLaws}
use dupa.FileTree.WeightSteps.{add_node-Weighted}
use dupa.FileTree.Traversal.{Rooted, traverse-Distinct, traverse-In}
use dupa.FuzzyDedup.{new_class, add_empty_dirs, classify_empty_dirs}
use dupa.FuzzyDedup.Classify.{Sound, new_class-Sound}

pub is_empty_dir_eq :
    {D : Type 0} (x y : Node D)
    → x.children ≡ y.children
    → x.type ≡ y.type
    → is_empty_dir x ≡ is_empty_dir y
is_empty_dir_eq x y e f = ground arith

empty_children : {D : Type 0} (x : Node D) → is_empty_dir x ≡ true → x.children ≡ []
empty_children x e = ground arith

module _ (pl : Platform) (laws : WeightLaws pl) (conf : GlobalConfig) where
  open pl use {Double}

  -- The empty directories among the nodes have got the class, and nothing else has changed.
  pub record EmptyClassified (c : ℕ) (xs : List ℕ) (h h' : Heap Double) : Type 0 where
    pub sound : Sound pl laws conf h'
    pub size : h'.num_nodes ≡ h.num_nodes
    pub same_type : (x : ℕ) → (h'.node x).type ≡ (h.node x).type
    pub same_children : (x : ℕ) → (h'.node x).children ≡ (h.node x).children
    pub hit : (x : ℕ) → In x xs → is_empty_dir (h.node x) ≡ true → (h'.node x).eq_class ≡ some c
    pub others :
        (x : ℕ)
        → (In x xs → is_empty_dir (h.node x) ≡ false)
        → (h'.node x).eq_class ≡ (h.node x).eq_class

  -- The empty directories among the nodes have no class.
  abbrev pub EmptyOpen : List ℕ → Heap Double → Type 0
  EmptyOpen xs h = (x : ℕ) → In x xs → is_empty_dir (h.node x) ≡ true → (h.node x).eq_class ≡ none

  module _ (c x : ℕ) (xs : List ℕ) (h h1 h' : Heap Double) (new : ¬ In x xs) where
    -- An empty directory, then the rest.
    EmptyClassified-added :
        is_empty_dir (h.node x) ≡ true
        → Classified c x h h1
        → EmptyClassified c xs h1 h'
        → EmptyClassified c (x ∷ xs) h h'
    EmptyClassified-added e k z = record {
      sound = z.sound;
      size = z.size ∙ k.size;
      same_type = λ y. z.same_type y ∙ k.same_type y;
      same_children = λ y. z.same_children y ∙ k.same_children y;
      hit = λ y m d. elim m [
        | inl same ↦
            subst (λ a. (h'.node a).eq_class ≡ some c) (sym same)
              (z.others x (λ i. absurd (new i)) ∙ k.hit)
        | inr i ↦
            z.hit y i
              (is_empty_dir_eq (h1.node y) (h.node y) (k.same_children y) (k.same_type y) ∙ d)
      ];
      others = λ y d.
          let apart : y ≢ x = λ same.
            let no = d (inl same) in
            let no' = subst (λ a. is_empty_dir (h.node a) ≡ false) same no in cc in
          z.others y (λ i.
            is_empty_dir_eq (h1.node y) (h.node y) (k.same_children y) (k.same_type y) ∙ d (inr i))
          ∙ k.others y apart;
    }

    -- Another node, then the rest.
    EmptyClassified-skipped :
        is_empty_dir (h.node x) ≡ false
        → EmptyClassified c xs h h'
        → EmptyClassified c (x ∷ xs) h h'
    EmptyClassified-skipped e z = record {
      sound = z.sound;
      size = z.size;
      same_type = z.same_type;
      same_children = z.same_children;
      hit = λ y m d. elim m [
        | inl same ↦
            absurd (let d' = subst (λ a. is_empty_dir (h.node a) ≡ true) same d in ground arith)
        | inr i ↦ z.hit y i d
      ];
      others = λ y d. z.others y (λ i. d (inr i));
    }

  add_empty_dirs-EmptyClassified :
      (c : ℕ) (xs : List ℕ) (h : Heap Double)
      → Sound pl laws conf h
      → Distinct xs
      → EmptyOpen xs h
      → c < h.num_classes
      → Returns (add_empty_dirs pl conf c xs h) (EmptyClassified c xs h)
  unfolding add_empty_dirs
  add_empty_dirs-EmptyClassified c [] h v d o lt = record {
    sound = v;
    size = refl;
    same_type = λ x. refl;
    same_children = λ x. refl;
    hit = λ x m. absurd m;
    others = λ x m. refl;
  }
  add_empty_dirs-EmptyClassified c (x ∷ xs) h v d o lt =
      elim (Bool-cases (is_empty_dir (h.node x))) [
        | inl e ↦
            let r : (h.node x).not_evaluated_children ≡ 0 =
              v.consistent.counted x ∙ ap (open_count h) (empty_children (h.node x) e) in
            let (h1, done, k) =
              Returns-some (add_node pl conf.use_size c x h) _ (
                add_node-IsConsistent pl conf.use_size c x h v.consistent r (o x (inl refl) e)
                  lt) in
            let v1 : Sound pl laws conf h1 = record {
              consistent = k.1;
              weighted = add_node-Weighted pl laws conf.use_size c x h h1 v.weighted done;
            } in
            let open1 : EmptyOpen xs h1 = λ y m f.
              k.0.others y (λ same. d.0 (subst (λ a. In a xs) same m))
              ∙ o y (inr m) (
                  sym
                    (is_empty_dir_eq (h1.node y) (h.node y) (k.0.same_children y) (k.0.same_type y))
                  ∙ f) in
            rw (e, done)
              (Returns-map (add_empty_dirs pl conf c xs h1) (EmptyClassified c xs h1) _
                (λ h'. EmptyClassified-added c x xs h h1 h' d.0 e k.0)
                (add_empty_dirs-EmptyClassified c xs h1 v1 d.1 open1
                  (subst (λ n. c < n) (sym k.0.same_classes) lt)))
        | inr e ↦ rw e (
            Returns-map (add_empty_dirs pl conf c xs h) (EmptyClassified c xs h) _
              (λ h'. EmptyClassified-skipped c x xs h h h' d.0 e)
              (add_empty_dirs-EmptyClassified c xs h v d.1 (λ y m. o y (inr m)) lt))
      ]

  -- What ClassifyEmptyDirs leaves: exactly the empty directories have got the class.
  pub record EmptyDirsDone (c : ℕ) (h h' : Heap Double) : Type 0 where
    pub sound : Sound pl laws conf h'
    pub size : h'.num_nodes ≡ h.num_nodes
    pub same_type : (x : ℕ) → (h'.node x).type ≡ (h.node x).type
    pub same_children : (x : ℕ) → (h'.node x).children ≡ (h.node x).children
    pub hit :
        (x : ℕ) → x < h.num_nodes → is_empty_dir (h.node x) ≡ true → (h'.node x).eq_class ≡ some c
    pub others :
        (x : ℕ)
        → (x < h.num_nodes → is_empty_dir (h.node x) ≡ false)
        → (h'.node x).eq_class ≡ (h.node x).eq_class

  -- On a sound tree whose empty directories have no class, ClassifyEmptyDirs meets no failed
  -- assertion, gives every empty directory the one class that it returns and no other node one, and
  -- leaves the tree sound.
  pub classify_empty_dirs-EmptyDirsDone :
      (root : ℕ) (h : Heap Double)
      → Sound pl laws conf h
      → Rooted h root
      → ((x : ℕ) → x < h.num_nodes → is_empty_dir (h.node x) ≡ true → (h.node x).eq_class ≡ none)
      → Returns (classify_empty_dirs pl conf root h) (λ r. EmptyDirsDone r.0 h r.1)
  unfolding classify_empty_dirs new_class
  classify_empty_dirs-EmptyDirsDone root h v r o =
      let visited = traverse h h.num_nodes root in
      let (h', d, k) =
        Returns-some (add_empty_dirs pl conf h.num_classes visited (new_class pl conf h)) _ (
          add_empty_dirs-EmptyClassified h.num_classes visited (new_class pl conf h)
            (new_class-Sound pl laws conf h v)
            (traverse-Distinct h v.consistent.tree h.num_nodes root)
            (λ x m. o x ((traverse-In h v.consistent.tree root x r).0 m)) (omega arith)) in
      Returns-bind _ _ d (record {
        sound = k.sound;
        size = k.size;
        same_type = k.same_type;
        same_children = k.same_children;
        hit = λ x lt. k.hit x ((traverse-In h v.consistent.tree root x r).1 lt);
        others = λ x e. k.others x (λ m. e ((traverse-In h v.consistent.tree root x r).0 m));
      })
