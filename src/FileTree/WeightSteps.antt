-- ===== src/FileTree/WeightSteps.antt =====
-- EqClass::AddNode keeps every class's weight a weight. src/file_tree.cpp.
use dupa.Base.{
  ℕ, ◌<◌, ◌≡◌, inl, inr, sym, subst, Bool, Option, none, some, List, [], ◌∷◌, ◌==◌, foldl, length,
  length-append, arith, Platform, Bool-cases, Option-cases,
}
use dupa.FileTree.Store.{NodeType, dir, file, Node, EqClass, Heap, set_node}
use dupa.FileTree.{
  lower_parent, set_eq_class, classes_of, own_weight, get_weight, push_node, average, add_node,
}
use dupa.FileTree.Weights.{WeightLaws}
use dupa.FileTree.Distance.{Weighted}

module _ {D : Type 0} where
  lower_parent-class_at :
      (o : Option ℕ) (h h' : Heap D) → lower_parent o h ≡ some h' → h'.class_at ≡ h.class_at
  unfolding lower_parent
  lower_parent-class_at none h h' e = ground arith
  lower_parent-class_at (some p) h h' e = ground arith

  set_eq_class-class_at :
      (c i : ℕ) (h h' : Heap D) → set_eq_class c i h ≡ some h' → h'.class_at ≡ h.class_at
  unfolding set_eq_class
  set_eq_class-class_at c i h h' e = ground (
    arith,
    lower_parent-class_at (h.node i).parent (set_node i (record (h.node i) { eq_class = some c }) h)
        h',
  )

module _ (pl : Platform) (laws : WeightLaws pl) (use_size : Bool) where
  open pl use {Double, of_ℕ, add, mul, div, elements}
  open laws use {IsWeight, of_ℕ-IsWeight, add-IsWeight, mul-IsWeight, div-IsWeight}

  abbrev AllWeighted : Heap Double → Type 0
  AllWeighted h = Weighted pl laws use_size h

  foldl-IsWeight :
      (h : Heap Double)
      → AllWeighted h
      → (cs : List ℕ) (w : Double) → IsWeight w
      → IsWeight (foldl (λ a c. add a (h.class_at c).weight) w cs)
  foldl-IsWeight h k [] w p = p
  foldl-IsWeight h k (c ∷ cs) w p = foldl-IsWeight h k cs _ (add-IsWeight w _ p (k c))

  own_weight-IsWeight :
      (h : Heap Double) (x : Node Double) (t : NodeType) (w : Double)
      → AllWeighted h
      → own_weight pl use_size h x t ≡ some w
      → IsWeight w
  unfolding own_weight
  own_weight-IsWeight h x file w k e = elim (Bool-cases use_size) [
    | inl u ↦ subst IsWeight (ground arith) (of_ℕ-IsWeight x.size)
    | inr u ↦ subst IsWeight (ground arith) (of_ℕ-IsWeight 1)
  ]
  own_weight-IsWeight h x dir w k e = elim (Option-cases (classes_of h x.children)) [
    | inl n ↦ absurd (ground arith)
    | inr (cs, d) ↦
        subst IsWeight (ground arith) (foldl-IsWeight h k (elements cs) (of_ℕ 0) (of_ℕ-IsWeight 0))
  ]

  get_weight-IsWeight :
      (h : Heap Double) (i : ℕ) (w : Double)
      → AllWeighted h
      → get_weight pl use_size h i ≡ some w
      → IsWeight w
  unfolding get_weight
  get_weight-IsWeight h i w k e = elim (Option-cases (h.node i).eq_class) [
    | inl n ↦ own_weight-IsWeight h (h.node i) (h.node i).type w k (ground arith)
    | inr (c, d) ↦ subst IsWeight (ground arith) (k c)
  ]

  push_node-Weighted :
      (c i : ℕ) (h : Heap Double) → AllWeighted h → AllWeighted (push_node pl use_size c i h)
  unfolding push_node
  push_node-Weighted c i h k a = elim (Bool-cases (c == a)) [
    | inl e ↦ rw e (k c)
    | inr e ↦ rw e (k a)
  ]

  average-Weighted :
      (c : ℕ) (w : Double) (h : Heap Double)
      → IsWeight w
      → 0 < length (h.class_at c).nodes
      → AllWeighted h
      → AllWeighted (average pl use_size c w h)
  unfolding average
  average-Weighted c w h p pos k a = elim (Bool-cases (c == a)) [
    | inl e ↦ rw e (
        div-IsWeight _ (length (h.class_at c).nodes)
          (add-IsWeight _ w (mul-IsWeight _ _ (k c) (of_ℕ-IsWeight _)) p) pos)
    | inr e ↦ rw e (k a)
  ]

  push_node-pos :
      (c i : ℕ) (h : Heap Double) → 0 < length ((push_node pl use_size c i h).class_at c).nodes
  unfolding push_node
  push_node-pos c i h = ground (arith, length-append (h.class_at c).nodes (i ∷ []))

  -- After AddNode every class still has a weight.
  pub add_node-Weighted :
      (c i : ℕ) (h h' : Heap Double)
      → AllWeighted h
      → add_node pl use_size c i h ≡ some h'
      → AllWeighted h'
  unfolding add_node
  add_node-Weighted c i h h' k e =
      let h1 = push_node pl use_size c i h in
      elim (Option-cases (get_weight pl use_size h1 i)) [
        | inl n ↦ absurd (ground arith)
        | inr (w, d) ↦
            let done : set_eq_class c i (average pl use_size c w h1) ≡ some h' = ground arith in
            let k2 =
              average-Weighted c w h1 (get_weight-IsWeight h1 i w (push_node-Weighted c i h k) d)
                (push_node-pos c i h) (push_node-Weighted c i h k) in
            subst (λ (f : ℕ → EqClass Double). (a : ℕ) → IsWeight (f a).weight)
              (sym (set_eq_class-class_at c i _ h' done)) k2
      ]
