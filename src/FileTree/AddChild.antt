-- ===== src/FileTree/AddChild.antt =====
-- Node's constructor and Node::AddChild: what they change. src/file_tree.h, src/file_tree.cpp.
use dupa.Base.{
  ℕ, suc, ◌+◌, ◌≡◌, ◌≢◌, refl, true, not, String, none, some, [], ◌∷◌, ◌++◌, ◌==◌, ==_iff,
  if◌then◌else◌, str_eq, eq_iff, is_some, arith,
}
use dupa.FileTree.Store.{NodeType, is_dir, Node, Heap, update, new_node, is_evaluated}
use dupa.FileTree.{add_child}
use dupa.FileTree.Invariant.{Returns, Returns-assert}

module _ {D : Type 0} where
  -- The child `c` has got the parent `p`, and nothing else has changed.
  pub record Linked (p c : ℕ) (h h' : Heap D) : Type 0 where
    pub num_nodes : h'.num_nodes ≡ h.num_nodes
    pub same_classes : h'.class_at ≡ h.class_at
    pub num_classes : h'.num_classes ≡ h.num_classes
    pub names : (j : ℕ) → (h'.node j).name ≡ (h.node j).name
    pub types : (j : ℕ) → (h'.node j).type ≡ (h.node j).type
    pub sizes : (j : ℕ) → (h'.node j).size ≡ (h.node j).size
    pub eq_classes : (j : ℕ) → (h'.node j).eq_class ≡ (h.node j).eq_class
    pub parents : (j : ℕ) → (h'.node j).parent ≡ (if c == j then some p else (h.node j).parent)
    pub children :
        (j : ℕ)
        → (h'.node j).children
          ≡ (if p == j then (h.node p).children ++ c ∷ [] else (h.node j).children)
    pub counters :
        (j : ℕ)
        → (h'.node j).not_evaluated_children ≡ (
            if p == j
            then (h.node p).not_evaluated_children + 1
            else (h.node j).not_evaluated_children)

  linked_node : ℕ → ℕ → Heap D → ℕ → Node D
  linked_node p c h =
      let with_parent = update h.node c (record (h.node c) { parent = some p }) in
      update with_parent p (record (with_parent p) {
        children = (with_parent p).children ++ c ∷ [];
        not_evaluated_children = (with_parent p).not_evaluated_children + 1;
      })

  linked_node-Linked :
      (p c : ℕ) (h : Heap D) → c ≢ p → Linked p c h (record h { node = linked_node p c h })
  unfolding linked_node
  linked_node-Linked p c h ne = record {
    num_nodes = refl;
    same_classes = refl;
    num_classes = refl;
    names = λ j. ground (arith, ==_iff p j, ==_iff c p, ==_iff c j);
    types = λ j. ground (arith, ==_iff p j, ==_iff c p, ==_iff c j);
    sizes = λ j. ground (arith, ==_iff p j, ==_iff c p, ==_iff c j);
    eq_classes = λ j. ground (arith, ==_iff p j, ==_iff c p, ==_iff c j);
    parents = λ j. ground (arith, ==_iff p j, ==_iff c p, ==_iff c j);
    children = λ j. ground (arith, ==_iff p j, ==_iff c p, ==_iff c j);
    counters = λ j. ground (arith, ==_iff p j, ==_iff c p, ==_iff c j);
  }

  pub add_child-Linked :
      (p c : ℕ) (h : Heap D)
      → c ≢ p
      → (h.node p).eq_class ≡ none
      → (h.node c).parent ≡ none
      → (h.node c).eq_class ≡ none
      → is_dir (h.node p).type ≡ true
      → Returns (add_child p c h) (Linked p c h)
  unfolding add_child linked_node
  add_child-Linked p c h ne unevaluated orphan fresh d =
      let parent_open : not (is_evaluated (h.node p)) ≡ true = rw unevaluated refl in
      let no_parent : not (is_some (h.node c).parent) ≡ true = rw orphan refl in
      let child_open : not (is_evaluated (h.node c)) ≡ true = rw fresh refl in
      Returns-assert _ _ parent_open (
        Returns-assert _ _ no_parent
          (Returns-assert _ _ child_open (Returns-assert _ _ d (linked_node-Linked p c h ne))))

  -- A fresh node at the end of the heap.
  pub record Allocated (type : NodeType) (name : String) (size : ℕ) (h h' : Heap D) : Type 0 where
    pub num_nodes : h'.num_nodes ≡ suc h.num_nodes
    pub same_classes : h'.class_at ≡ h.class_at
    pub num_classes : h'.num_classes ≡ h.num_classes
    pub others : (j : ℕ) → j ≢ h.num_nodes → h'.node j ≡ h.node j
    pub new_name : (h'.node h.num_nodes).name ≡ name
    pub new_type : (h'.node h.num_nodes).type ≡ type
    pub new_size : (h'.node h.num_nodes).size ≡ size
    pub no_parent : (h'.node h.num_nodes).parent ≡ none
    pub no_children : (h'.node h.num_nodes).children ≡ []
    pub no_class : (h'.node h.num_nodes).eq_class ≡ none
    pub nothing_open : (h'.node h.num_nodes).not_evaluated_children ≡ 0

  pub new_node-Allocated :
      (type : NodeType) (name : String) (size : ℕ) (h : Heap D)
      → name ≢ ""
      → Returns
          (new_node type name size h)
          (λ r. (r.0 ≡ h.num_nodes) × Allocated type name size h r.1)
  unfolding new_node
  new_node-Allocated type name size h ne =
      let same : (h.num_nodes == h.num_nodes) ≡ true = (==_iff h.num_nodes h.num_nodes).1 refl in
      let named : not (str_eq name "") ≡ true = ground (arith, eq_iff name "") in
      Returns-assert _ _ named (
        refl,
        record {
          num_nodes = refl;
          same_classes = refl;
          num_classes = refl;
          others = λ j other. ground (arith, ==_iff h.num_nodes j);
          new_name = ground arith;
          new_type = ground arith;
          new_size = ground arith;
          no_parent = ground arith;
          no_children = ground arith;
          no_class = ground arith;
          nothing_open = ground arith;
        },
      )
