-- ===== src/FileTree/Walk.antt =====
-- The operations of Node that go through the tree: Traverse, IsAncestorOf and
-- GetPossibleEquivalents. src/file_tree.cpp.
use dupa.Base.{
  ℕ, zero, suc, Bool, true, false, not, ◌&&◌, Option, none, some, List, [], ◌∷◌, ◌++◌, ◌==◌,
  if◌then◌else◌, ◌>>=◌, ◌>>◌, assert, Platform,
}
use dupa.FileTree.Store.{Heap, is_ready_to_evaluate, is_evaluated}

-- A loop over a list whose body returns a list.
abbrev pub concat_map : (ℕ → List ℕ) → List ℕ → List ℕ
concat_map f [] = []
concat_map f (x ∷ xs) = f x ++ concat_map f xs

module _ {D : Type 0} (h : Heap D) where
  -- The nodes that Node::Traverse calls back, in order: children first. The fuel bounds the depth.
  unfoldable pub traverse : ℕ → ℕ → List ℕ
  traverse zero i = []
  traverse (suc fuel) i = concat_map (traverse fuel) (h.node i).children ++ i ∷ []

  -- Node::IsAncestorOf: from the node upwards.
  unfoldable pub is_ancestor_of : ℕ → ℕ → ℕ → Bool
  is_ancestor_of zero i n = false
  is_ancestor_of (suc fuel) i n =
      if n == i
      then true
      else elim (h.node n).parent [ none ↦ false | some p ↦ is_ancestor_of fuel i p ]

  -- What one member of a child's class adds to the possible equivalents of `i`.
  unfoldable pub equivalent_parent : ℕ → ℕ → ℕ → List ℕ
  equivalent_parent i child e = if e == child then [] else elim (h.node e).parent [
    | none ↦ []
    | some p ↦ if is_evaluated (h.node p) && not (p == i) then p ∷ [] else []
  ]

  -- The loop over a child's class.
  unfoldable pub class_equivalents : ℕ → ℕ → List ℕ → Option (List ℕ)
  unfolding equivalent_parent
  class_equivalents i child [] = some []
  class_equivalents i child (e ∷ es) = do
    assert (is_evaluated (h.node e))
    rest ← class_equivalents i child es
    some (equivalent_parent i child e ++ rest)

  -- The loop over the children.
  unfoldable pub child_equivalents : ℕ → List ℕ → Option (List ℕ)
  unfolding class_equivalents
  child_equivalents i [] = some []
  child_equivalents i (child ∷ cs) = do
    c ← (h.node child).eq_class
    found ← class_equivalents i child (h.class_at c).nodes
    rest ← child_equivalents i cs
    some (found ++ rest)

-- Node::GetPossibleEquivalents
unfoldable pub get_possible_equivalents : (pl : Platform) → Heap pl.Double → ℕ → Option (List ℕ)
unfolding child_equivalents
get_possible_equivalents pl h i = do
  assert (is_ready_to_evaluate (h.node i))
  found ← child_equivalents h i (h.node i).children
  some (pl.elements found)
