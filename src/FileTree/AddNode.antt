-- ===== src/FileTree/AddNode.antt =====
-- EqClass::AddNode on a node that is ready and has no class: no assertion fails, and the node is
-- classified. src/file_tree.cpp.
use dupa.Base.{
  ℕ, ◌+◌, ◌-◌, ◌<◌, ◌≡◌, ◌≢◌, inl, inr, refl, sym, ap, ◌∙◌, Bool, true, not, Option, none, some,
  List, [], ◌∷◌, In, arith, Platform, Bool-cases, Option-cases,
}
use dupa.FileTree.Store.{NodeType, dir, file, Node, EqClass, Heap, set_node}
use dupa.FileTree.{
  mem, set_eq_class, classes_of, own_weight, get_weight, add_node, push_node, average,
}
use dupa.FileTree.Invariant.{
  Returns, Returns-assert, Returns-bind, Returns-map, mem-In, open_count, IsConsistent, Classified,
}
use dupa.FileTree.Evaluation.{Classified-IsConsistent}

module _ {D : Type 0} where
  -- When no node of the list is open, all their classes can be read.
  pub classes_of-some :
      (h : Heap D) (xs : List ℕ) → open_count h xs ≡ 0 → (cs : List ℕ) × (classes_of h xs ≡ some cs)
  unfolding classes_of
  classes_of-some h [] e = ([], refl)
  classes_of-some h (x ∷ xs) e = elim (Option-cases (h.node x).eq_class) [
    | inl n ↦ absurd (ground arith)
    | inr (c, d) ↦
        let (cs, r) = classes_of-some h xs (ground arith) in (c ∷ cs, rw (d, classes_of, r))
  ]

  lowered : Option ℕ → Heap D → Heap D
  lowered none h = h
  lowered (some p) h =
      set_node p
        (record (h.node p) { not_evaluated_children = (h.node p).not_evaluated_children - 1 }) h

  -- The heap after SetEqClass.
  settled : ℕ → ℕ → Heap D → Heap D
  unfolding lowered
  settled c i h = lowered (h.node i).parent (set_node i (record (h.node i) { eq_class = some c }) h)

  -- An unevaluated child keeps its parent's counter above zero.
  pub open_count-pos :
      (h : Heap D) (i : ℕ) (xs : List ℕ)
      → (h.node i).eq_class ≡ none
      → In i xs
      → 0 < open_count h xs
  open_count-pos h i [] e m = absurd m
  open_count-pos h i (x ∷ xs) e (inl q) = ground arith
  open_count-pos h i (x ∷ xs) e (inr m) = omega (arith, open_count-pos h i xs e m)

  -- The parent of a node without a class counts it.
  abbrev pub ParentOpen : Heap D → ℕ → Type 0
  ParentOpen h i =
      (p : ℕ) → (h.node i).parent ≡ some p → (i ≢ p) × (0 < (h.node p).not_evaluated_children)

  pub parent_open :
      (h : Heap D) (i : ℕ) → IsConsistent h → (h.node i).eq_class ≡ none → ParentOpen h i
  parent_open h i v e p q =
      let m = v.tree.above p i q in
      (
        (λ d. let b = v.tree.below p i m in omega (arith, b.0, d)),
        omega (arith, v.counted p, open_count-pos h i (h.node p).children e m),
      )

  module _ (c i : ℕ) (h : Heap D) (e : (h.node i).eq_class ≡ none) (open_up : ParentOpen h i) where
    set_eq_class-settled :
        (o : Option ℕ)
        → (h.node i).parent ≡ o
        → (h.node i).not_evaluated_children ≡ 0
        → set_eq_class c i h ≡ some (settled c i h)
    unfolding set_eq_class settled
    set_eq_class-settled none q r = ground arith
    set_eq_class-settled (some p) q r = let (ne, pos) = open_up p q in ground arith

    -- What SetEqClass does to each node.
    settled-shape :
        (o : Option ℕ)
        → (h.node i).parent ≡ o
        → (j : ℕ)
        → (((settled c i h).node j).parent ≡ (h.node j).parent)
          × (((settled c i h).node j).children ≡ (h.node j).children)
          × (((settled c i h).node j).type ≡ (h.node j).type)
          × (((settled c i h).node i).eq_class ≡ some c)
          × (j ≢ i → ((settled c i h).node j).eq_class ≡ (h.node j).eq_class)
    unfolding settled
    settled-shape none q j =
        (ground arith, ground arith, ground arith, ground arith, λ d. ground arith)
    settled-shape (some p) q j =
        let (ne, pos) = open_up p q in
        (ground arith, ground arith, ground arith, ground arith, λ d. ground arith)

    -- What it leaves alone.
    settled-same :
        (o : Option ℕ)
        → (h.node i).parent ≡ o
        → (j : ℕ)
        → (((settled c i h).node j).name ≡ (h.node j).name)
          × (((settled c i h).node j).size ≡ (h.node j).size)
          × (((settled c i h).node j).unique_fraction ≡ (h.node j).unique_fraction)
    unfolding settled
    settled-same none q j = (ground arith, ground arith, ground arith)
    settled-same (some p) q j =
        let (ne, pos) = open_up p q in (ground arith, ground arith, ground arith)

    settled-counter :
        (o : Option ℕ)
        → (h.node i).parent ≡ o
        → (p : ℕ)
        → ((h.node i).parent ≡ some p
            → ((settled c i h).node p).not_evaluated_children + 1
              ≡ (h.node p).not_evaluated_children)
          × ((h.node i).parent ≢ some p
              → ((settled c i h).node p).not_evaluated_children ≡ (h.node p).not_evaluated_children)
    unfolding settled
    settled-counter none q p = (λ d. cc, λ d. ground arith)
    settled-counter (some a) q p =
        let (ne, pos) = open_up a q in
        ((λ d. ground arith), λ d. let other : a ≢ p = λ z. d (q ∙ ap some z) in ground arith)

    settled-frame :
        (o : Option ℕ)
        → (h.node i).parent ≡ o
        → ((settled c i h).num_nodes ≡ h.num_nodes)
          × ((settled c i h).class_at ≡ h.class_at)
          × ((settled c i h).num_classes ≡ h.num_classes)
    unfolding settled
    settled-frame none q = ground arith
    settled-frame (some p) q = ground arith

module _ (pl : Platform) (use_size : Bool) where
  open pl use {Double}

  own_weight-some :
      (h : Heap Double) (x : Node Double) (t : NodeType)
      → open_count h x.children ≡ 0
      → (w : Double) × (own_weight pl use_size h x t ≡ some w)
  unfolding own_weight
  own_weight-some h x file z = (_, refl)
  own_weight-some h x dir z = elim (Option-cases (own_weight pl use_size h x dir)) [
    | inl n ↦ absurd (let (cs, r) = classes_of-some h x.children z in ground arith)
    | inr found ↦ found
  ]

  get_weight-some :
      (h : Heap Double) (i : ℕ)
      → (h.node i).eq_class ≡ none
      → open_count h (h.node i).children ≡ 0
      → (w : Double) × (get_weight pl use_size h i ≡ some w)
  unfolding get_weight
  get_weight-some h i e z = elim (Option-cases (get_weight pl use_size h i)) [
    | inl n ↦ absurd (let (w, d) = own_weight-some h (h.node i) (h.node i).type z in ground arith)
    | inr found ↦ found
  ]

  average-Classified :
      (c i : ℕ) (h : Heap Double) (w : Double) (o : Option ℕ)
      → (h.node i).parent ≡ o
      → (h.node i).eq_class ≡ none
      → ParentOpen h i
      → Classified c i h (settled c i (average pl use_size c w (push_node pl use_size c i h)))
  unfolding average push_node
  average-Classified c i h w o q e open_up =
      let h2 = average pl use_size c w (push_node pl use_size c i h) in
      let shape = settled-shape c i h2 e open_up o q in
      let same = settled-same c i h2 e open_up o q in
      let counter = settled-counter c i h2 e open_up o q in
      let frame = settled-frame c i h2 e open_up o q in
      record {
        size = frame.0;
        same_classes = frame.2;
        same_parent = λ j. (shape j).0;
        same_children = λ j. (shape j).1;
        same_type = λ j. (shape j).2;
        same_name = λ j. (same j).0;
        same_size = λ j. (same j).1;
        same_fraction = λ j. (same j).2;
        hit = (shape i).3;
        others = λ j. (shape j).4;
        lowered = λ p. (counter p).0;
        kept = λ p. (counter p).1;
        grown = ap (λ (f : ℕ → EqClass Double). (f c).nodes) frame.1 ∙ ground arith;
        same_nodes = λ k d.
            ap (λ (f : ℕ → EqClass Double). (f k).nodes) frame.1
            ∙ (let d' : c ≢ k = λ z. d (sym z) in ground arith);
        same_weight = λ k d.
            ap (λ (f : ℕ → EqClass Double). (f k).weight) frame.1
            ∙ (let d' : c ≢ k = λ z. d (sym z) in ground arith);
      }

  -- AddNode on a ready node without a class meets no failed assertion, gives the node the class and
  -- the class the node, lowers the parent's counter and changes nothing else of the tree.
  pub add_node-Classified :
      (c i : ℕ) (h : Heap Double)
      → IsConsistent h
      → (h.node i).not_evaluated_children ≡ 0
      → (h.node i).eq_class ≡ none
      → Returns (add_node pl use_size c i h) (Classified c i h)
  unfolding add_node
  add_node-Classified c i h v r e =
      let h1 = push_node pl use_size c i h in
      let z : open_count h (h.node i).children ≡ 0 = sym (v.counted i) ∙ r in
      let (w, d) = get_weight-some h1 i e z in
      let h2 = average pl use_size c w h1 in
      let done : set_eq_class c i h2 ≡ some (settled c i h2) =
        set_eq_class-settled c i h2 e (parent_open h i v e) (h.node i).parent refl r in
      Returns-assert _ _ new (
        Returns-bind _ _ d
          (rw done (average-Classified c i h w (h.node i).parent refl e (parent_open h i v e))))
    where
      new : not (mem i (h.class_at c).nodes) ≡ true
      new = elim (Bool-cases (mem i (h.class_at c).nodes)) [
        | inl m ↦ let q = (v.listed i c).1 (mem-In i (h.class_at c).nodes m) in cc
        | inr m ↦ rw m
      ]

  -- On a consistent tree AddNode of an allocated class and a ready node without a class meets no failed
  -- assertion, gives the node the class and the class the node, changes nothing else of the tree's
  -- nodes but the parent's counter and nothing of the other classes, and leaves the tree consistent.
  pub add_node-IsConsistent :
      (c i : ℕ) (h : Heap Double)
      → IsConsistent h
      → (h.node i).not_evaluated_children ≡ 0
      → (h.node i).eq_class ≡ none
      → c < h.num_classes
      → Returns (add_node pl use_size c i h) (λ h'. Classified c i h h' × IsConsistent h')
  add_node-IsConsistent c i h v r e lt =
      Returns-map (add_node pl use_size c i h) (Classified c i h) _
        (λ h' k. (k, Classified-IsConsistent k v e r lt)) (add_node-Classified c i h v r e)
