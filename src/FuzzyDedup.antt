-- ===== src/FuzzyDedup.antt =====
-- src/fuzzy_dedup.cpp: the classification of a tree's nodes. The vector of classes is a list of
-- their addresses; a failed assertion is `none`.
pub mod Listing
pub mod Classify
pub mod Loop
pub mod Propagation
pub mod Result
pub mod EmptyDirs
pub mod Files
pub mod Interesting
pub mod Tree
pub mod Building
pub mod Scanned
pub mod Placing
pub mod OnDisk
pub mod DiskTree
pub mod BuildPath
pub mod Uniqueness
pub mod Unique
pub mod Vector
pub mod Whole
pub mod Ready
pub mod Deduplicated
pub mod Reported
pub mod DiskResult
pub mod Grouping
pub mod Tests
pub mod TreeTests
pub mod DiskTests
pub mod PathTests
use dupa.Base.{
  ℕ, zero, suc, ◌+◌, Bool, true, false, not, ◌&&◌, Option, none, some, List, [], ◌∷◌, ◌++◌, ◌==◌,
  select, if◌then◌else◌, ◌>>=◌, ◌>>◌, assert, Platform,
}
use dupa.Conf.{GlobalConfig}
use dupa.FileTree.Store.{
  Node, EqClass, Heap, update, is_ready_to_evaluate, is_evaluated, is_empty_dir, is_single,
}
use dupa.FileTree.{add_node, node_distance}
use dupa.FileTree.Walk.{traverse, get_possible_equivalents}

-- GetNodesReadyToEval
unfoldable pub get_nodes_ready_to_eval : {D : Type 0} → ℕ → Heap D → ℕ → List ℕ
get_nodes_ready_to_eval fuel h root =
    select (λ i. is_ready_to_evaluate (h.node i) && not (is_evaluated (h.node i)))
      (traverse h fuel root)

module _ (pl : Platform) (conf : GlobalConfig) where
  open pl use {Double, of_ℕ, div, lt}

  -- The store and the vector of classes.
  pub record Classes : Type 0 where
    pub heap : Heap Double
    pub eq_classes : List ℕ

  -- std::make_unique<EqClass>
  unfoldable pub new_class : Heap Double → Heap Double
  new_class h = record h {
    class_at = update h.class_at h.num_classes (record { nodes = []; weight = of_ℕ 0 });
    num_classes = h.num_classes + 1;
  }

  -- A class of its own for a node, at the end of the vector.
  unfoldable pub add_to_new_class : ℕ → Classes → Option Classes
  unfolding new_class
  add_to_new_class i s = do
    h ← add_node pl conf.use_size s.heap.num_classes i (new_class s.heap)
    some (record { heap = h; eq_classes = s.eq_classes ++ s.heap.num_classes ∷ [] })

  unfoldable pub add_to_class_of : ℕ → ℕ → Classes → Option Classes
  add_to_class_of m i s = do
    c ← (s.heap.node m).eq_class
    h ← add_node pl conf.use_size c i s.heap
    some (record s { heap = h })

  -- The loop of GetClosestNode; 11 / 10 is the literal 1.1.
  unfoldable pub closest_from : Heap Double → ℕ → ℕ × Double → List ℕ → Option (ℕ × Double)
  closest_from h ref best [] = some best
  closest_from h ref best (x ∷ xs) = do
    assert (not (x == ref))
    assert (is_evaluated (h.node x))
    distance ← node_distance pl conf.use_size h ref x
    assert (lt distance (div (of_ℕ 11) (of_ℕ 10)))
    closest_from h ref (if lt distance best.1 then (x, distance) else best) xs

  -- GetClosestNode: with no candidate it reads the first element of an empty vector.
  unfoldable pub get_closest_node : Heap Double → ℕ → List ℕ → Option (ℕ × Double)
  unfolding closest_from
  get_closest_node h ref [] = none
  get_closest_node h ref (x ∷ xs) = do
    distance ← node_distance pl conf.use_size h ref x
    closest_from h ref (x, distance) xs

  -- The choice of a class for one node in PropagateEquivalence.
  unfoldable pub tolerable : Double → Bool
  tolerable d = lt d (div (of_ℕ conf.tolerable_diff_pct) (of_ℕ 100))

  unfoldable pub join_closest : ℕ → List ℕ → Classes → Option Classes
  unfolding tolerable get_closest_node add_to_class_of add_to_new_class
  join_closest i [] s = add_to_new_class i s
  join_closest i (p ∷ ps) s = do
    (m, d) ← get_closest_node s.heap i (p ∷ ps)
    if tolerable d then add_to_class_of m i s else add_to_new_class i s

  unfoldable pub classify : ℕ → Classes → Option Classes
  unfolding join_closest
  classify i s = do possible ← get_possible_equivalents pl s.heap i; join_closest i possible s

  -- The assertion on the parent at the head of the loop, and the push at its end.
  unfoldable pub parent_not_ready : Heap Double → Option ℕ → Bool
  parent_not_ready h none = true
  parent_not_ready h (some p) = not (is_ready_to_evaluate (h.node p))

  unfoldable pub ready_parent : Heap Double → Option ℕ → List ℕ
  ready_parent h none = []
  ready_parent h (some p) = if is_ready_to_evaluate (h.node p) then p ∷ [] else []

  -- One round of the loop of PropagateEquivalence: the nodes to push and the new state.
  unfoldable pub propagate_step : ℕ → Classes → Option (List ℕ × Classes)
  unfolding classify parent_not_ready ready_parent
  propagate_step i s = do
    assert (is_ready_to_evaluate (s.heap.node i))
    assert (not (is_evaluated (s.heap.node i)))
    assert (parent_not_ready s.heap (s.heap.node i).parent)
    s' ← classify i s
    some (ready_parent s'.heap (s'.heap.node i).parent, s')

  -- The loop, on fuel for its rounds.
  unfoldable pub propagate_loop : ℕ → List ℕ → Classes → Option Classes
  unfolding propagate_step
  propagate_loop fuel [] s = some s
  propagate_loop zero (i ∷ queue) s = none
  propagate_loop (suc fuel) (i ∷ queue) s = do
    (pushed, s') ← propagate_step i s
    propagate_loop fuel (queue ++ pushed) s'

  -- PropagateEquivalence
  unfoldable pub propagate_equivalence : ℕ → Classes → Option Classes
  unfolding propagate_loop
  propagate_equivalence root s = do
    let fuel = s.heap.num_nodes
    s' ← propagate_loop fuel (get_nodes_ready_to_eval fuel s.heap root) s
    assert (is_evaluated (s'.heap.node root))
    some s'

  -- The callback of ClassifyEmptyDirs on the nodes that Traverse visits.
  unfoldable pub add_empty_dirs : ℕ → List ℕ → Heap Double → Option (Heap Double)
  add_empty_dirs c [] h = some h
  add_empty_dirs c (x ∷ xs) h = do
    h' ← if is_empty_dir (h.node x) then add_node pl conf.use_size c x h else some h
    add_empty_dirs c xs h'

  -- ClassifyEmptyDirs: the class and the store.
  unfoldable pub classify_empty_dirs : ℕ → Heap Double → Option (ℕ × Heap Double)
  unfolding add_empty_dirs new_class
  classify_empty_dirs root h = do
    let visited = traverse h h.num_nodes root
    h' ← add_empty_dirs h.num_classes visited (new_class h)
    some (h.num_classes, h')

module _ (pl : Platform) (conf : GlobalConfig) where
  -- AddNode for the nodes of one range of the multimap.
  unfoldable pub add_range : ℕ → List ℕ → Heap pl.Double → Option (Heap pl.Double)
  add_range c [] h = some h
  add_range c (x ∷ xs) h = do h' ← add_node pl conf.use_size c x h; add_range c xs h'

  -- ClassifyDuplicateFiles, the multimap given by its ranges of equal checksums, in order.
  unfoldable pub classify_duplicate_files :
      List (ℕ × List ℕ) → Classes pl conf → Option (Classes pl conf)
  unfolding add_range new_class
  classify_duplicate_files [] s = some s
  classify_duplicate_files ((sum, nodes) ∷ ranges) s = do
    h ← add_range s.heap.num_classes nodes (new_class pl conf s.heap)
    let s' : Classes pl conf = record {
      heap = h;
      eq_classes = s.eq_classes ++ s.heap.num_classes ∷ [];
    }
    classify_duplicate_files ranges s'

-- Whether the parent exists and its class has another node.
unfoldable pub parent_is_dup : {D : Type 0} → Heap D → Option ℕ → Option Bool
parent_is_dup h none = some false
parent_is_dup h (some p) = do c ← (h.node p).eq_class; some (not (is_single (h.class_at c)))

-- The inner loop of GetInteresingEqClasses: all_parents_are_dups.
unfoldable pub all_parents_are_dups : {D : Type 0} → Heap D → List ℕ → Option Bool
unfolding parent_is_dup
all_parents_are_dups h [] = some true
all_parents_are_dups h (n ∷ ns) = do
  here ← parent_is_dup h (h.node n).parent
  rest ← all_parents_are_dups h ns
  some (here && rest)

-- What the loop of GetInteresingEqClasses finds of one class: whether it is left out.
unfoldable pub left_out : {D : Type 0} → Heap D → List ℕ → Option Bool
unfolding all_parents_are_dups
left_out h [] = none
left_out h (n ∷ []) = some true
left_out h (n ∷ m ∷ ns) = all_parents_are_dups h (n ∷ m ∷ ns)

-- GetInteresingEqClasses
unfoldable pub get_interesting_eq_classes : {D : Type 0} → Heap D → List ℕ → Option (List ℕ)
unfolding left_out
get_interesting_eq_classes h [] = some []
get_interesting_eq_classes h (c ∷ cs) = do
  out ← left_out h (h.class_at c).nodes
  rest ← get_interesting_eq_classes h cs
  some (if out then rest else c ∷ rest)
