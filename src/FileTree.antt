-- ===== src/FileTree.antt =====
-- src/file_tree.h and src/file_tree.cpp: the operations of Node and EqClass. An operation that fails
-- an assertion, or follows a null pointer, is `none`.
pub mod Store
pub mod Invariant
pub mod Evaluation
pub mod AddNode
pub mod AddChild
pub mod Growing
pub mod Growth
pub mod Walk
pub mod Weights
pub mod Distance
pub mod WeightSteps
pub mod Equivalents
pub mod Traversal
pub mod Printing
pub mod Scattered
pub mod Ancestors
pub mod Tests
use dupa.Base.{
  ℕ, zero, suc, ◌+◌, ◌-◌, Bool, true, false, not, ◌&&◌, ◌||◌, Option, none, some, List, [], ◌∷◌,
  ◌++◌, ◌==◌, leb, if◌then◌else◌, foldl, length, select, is_some, ◌>>=◌, ◌>>◌, assert, Platform,
}
use Store.{
  NodeType, dir, file, is_dir, Node, EqClass, Heap, update, set_node, set_class,
  is_ready_to_evaluate, is_evaluated,
}

abbrev pub mem : ℕ → List ℕ → Bool
mem a [] = false
mem a (x ∷ xs) = (x == a) || mem a xs

-- The entries of the second list that are not in the first.
abbrev pub without : List ℕ → List ℕ → List ℕ
without seen = select (λ c. not (mem c seen))

module _ {D : Type 0} where
  -- Node::AddChild
  unfoldable pub add_child : ℕ → ℕ → Heap D → Option (Heap D)
  add_child p c h = do
    assert (not (is_evaluated (h.node p)))
    assert (not (is_some (h.node c).parent))
    assert (not (is_evaluated (h.node c)))
    assert (is_dir (h.node p).type)
    let h' = set_node c (record (h.node c) { parent = some p }) h
    some (
        set_node p
          (record (h'.node p) {
            children = (h'.node p).children ++ c ∷ [];
            not_evaluated_children = (h'.node p).not_evaluated_children + 1;
          })
          h')

  -- The end of Node::SetEqClass: one unevaluated child less for the parent.
  pub lower_parent : Option ℕ → Heap D → Option (Heap D)
  lower_parent none h = some h
  lower_parent (some p) h = do
    assert (not ((h.node p).not_evaluated_children == 0))
    some (
        set_node p
          (record (h.node p) { not_evaluated_children = (h.node p).not_evaluated_children - 1 }) h)

  -- Node::SetEqClass
  pub set_eq_class : ℕ → ℕ → Heap D → Option (Heap D)
  unfolding lower_parent
  set_eq_class c i h = do
    assert (is_ready_to_evaluate (h.node i))
    assert (not (is_evaluated (h.node i)))
    lower_parent (h.node i).parent (set_node i (record (h.node i) { eq_class = some c }) h)

  -- The classes of the nodes, which have to be evaluated.
  pub classes_of : Heap D → List ℕ → Option (List ℕ)
  classes_of h [] = some []
  classes_of h (n ∷ ns) = do c ← (h.node n).eq_class; cs ← classes_of h ns; some (c ∷ cs)

module _ (pl : Platform) (use_size : Bool) where
  open pl use {Double, of_ℕ, add, mul, div, to_u64, elements}

  -- Node::GetWeight, of a node that has no class yet.
  pub own_weight : Heap Double → Node Double → NodeType → Option Double
  own_weight h x file = some (if use_size then of_ℕ x.size else of_ℕ 1)
  own_weight h x dir = do
    cs ← classes_of h x.children
    some (foldl (λ w c. add w (h.class_at c).weight) (of_ℕ 0) (elements cs))

  -- Node::GetWeight
  unfoldable pub get_weight : Heap Double → ℕ → Option Double
  unfolding own_weight
  get_weight h i = elim (h.node i).eq_class [
    | some c ↦ some (h.class_at c).weight
    | none ↦ own_weight h (h.node i) (h.node i).type
  ]

  -- nodes_.push_back of EqClass::AddNode
  pub push_node : ℕ → ℕ → Heap Double → Heap Double
  push_node c i h = set_class c (record (h.class_at c) { nodes = (h.class_at c).nodes ++ i ∷ [] }) h

  -- The new weight in EqClass::AddNode: the running average, with the node already in the list.
  pub average : ℕ → Double → Heap Double → Heap Double
  average c w h =
      let x = h.class_at c in
      let size = length x.nodes in
      set_class c (record x { weight = div (add (mul x.weight (of_ℕ (size - 1))) w) (of_ℕ size) }) h

  -- EqClass::AddNode
  pub add_node : ℕ → ℕ → Heap Double → Option (Heap Double)
  unfolding push_node average
  add_node c i h = do
    assert (not (mem i (h.class_at c).nodes))
    w ← get_weight (push_node c i h) i
    set_eq_class c i (average c w (push_node c i h))

  -- `sum += weight_` on a uint64_t.
  pub add_weight : Heap Double → ℕ → ℕ → ℕ
  add_weight h sum c = to_u64 (add (of_ℕ sum) (h.class_at c).weight)

  -- The loop over the classes of the first node: `sum` and `sym_diff`.
  pub first_sums : Heap Double → List ℕ → ℕ × ℕ → List ℕ → ℕ × ℕ
  unfolding add_weight
  first_sums h classes2 (sum, sym_diff) [] = (sum, sym_diff)
  first_sums h classes2 (sum, sym_diff) (c ∷ cs) =
      first_sums h classes2
        (add_weight h sum c, if mem c classes2 then sym_diff else add_weight h sym_diff c) cs

  -- The loop over the classes of the second node alone.
  pub second_sums : Heap Double → ℕ × ℕ → List ℕ → ℕ × ℕ
  unfolding add_weight
  second_sums h (sum, sym_diff) [] = (sum, sym_diff)
  second_sums h (sum, sym_diff) (c ∷ cs) =
      second_sums h (add_weight h sum c, add_weight h sym_diff c) cs

  -- The quotient that NodeDistance returns; two empty directories have the distance 0.
  pub distance_of : ℕ → ℕ → Option Double
  distance_of sum sym_diff =
      if sum == 0
      then some (of_ℕ 0)
      else (assert (leb sym_diff sum) >> some (div (of_ℕ sym_diff) (of_ℕ sum)))

  -- NodeDistance
  pub node_distance : Heap Double → ℕ → ℕ → Option Double
  unfolding first_sums second_sums distance_of
  node_distance h n1 n2 = do
    assert (is_ready_to_evaluate (h.node n1))
    assert (is_ready_to_evaluate (h.node n2))
    assert (is_dir (h.node n1).type || is_dir (h.node n2).type)
    classes1 ← classes_of h (h.node n1).children
    classes2 ← classes_of h (h.node n2).children
    let sums = first_sums h classes2 (0, 0) (elements classes1)
    let (sum, sym_diff) = second_sums h sums (elements (without classes1 classes2))
    distance_of sum sym_diff
