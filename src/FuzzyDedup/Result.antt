-- ===== src/FuzzyDedup/Result.antt =====
-- PropagateEquivalence as a whole. src/fuzzy_dedup.cpp.
use dupa.Base.{
  ℕ, zero, suc, ◌≤◌, inl, inr, Bool, not, ◌&&◌, In-select, In-select_of, arith, Platform,
  Option-cases,
}
use dupa.Conf.{GlobalConfig}
use dupa.FileTree.Store.{Heap, is_ready_to_evaluate, is_evaluated}
use dupa.FileTree.Invariant.{
  Returns, Returns-assert, Returns-bind, Returns-map, Returns-some, open_count, IsConsistent,
}
use dupa.FileTree.Weights.{WeightLaws}
use dupa.FileTree.Walk.{traverse}
use dupa.FileTree.Traversal.{Rooted, Distinct-select, traverse-Distinct, traverse-In}
use dupa.FuzzyDedup.{Classes, get_nodes_ready_to_eval, propagate_loop, propagate_equivalence}
use dupa.FuzzyDedup.Listing.{Listed}
use dupa.FuzzyDedup.Classify.{Sound}
use dupa.FuzzyDedup.Loop.{below, IsQueue}
use dupa.FuzzyDedup.Propagation.{AllClassified, propagate_loop-AllClassified}

module _ {D : Type 0} (h : Heap D) where
  -- No more nodes are without a class than there are nodes.
  open_count-le : (n : ℕ) → open_count h (below n) ≤ n
  open_count-le zero = omega arith
  open_count-le (suc n) = let rest = open_count-le n in ground arith

  -- On a consistent tree GetNodesReadyToEval returns exactly the nodes that are ready and have no
  -- class, each once.
  pub get_nodes_ready_to_eval-IsQueue :
      (root : ℕ)
      → IsConsistent h
      → Rooted h root
      → IsQueue (get_nodes_ready_to_eval h.num_nodes h root) h
  unfolding get_nodes_ready_to_eval
  get_nodes_ready_to_eval-IsQueue root v r =
      let visited = traverse h h.num_nodes root in
      let ready : ℕ → Bool =
        λ i. is_ready_to_evaluate (h.node i) && not (is_evaluated (h.node i)) in
      record {
        once = Distinct-select ready visited (traverse-Distinct h v.tree h.num_nodes root);
        waits = λ i. (
          (λ m.
              let (there, now) = In-select ready i visited m in
              (
                (traverse-In h v.tree root i r).0 there,
                ground arith,
                elim (Option-cases (h.node i).eq_class) [
                  | inl n ↦ n
                  | inr (c, q) ↦ absurd (ground arith)
                ],
              )),
          (λ w.
              In-select_of ready i visited ((traverse-In h v.tree root i r).1 w.0)
                (let a = w.1 in let b = w.2 in ground arith)),
        );
      }

pub propagate_equivalence-Listed :
    (pl : Platform) (laws : WeightLaws pl) (conf : GlobalConfig) (root : ℕ) (s : Classes pl conf)
    → Sound pl laws conf s.heap
    → Rooted s.heap root
    → Returns
        (propagate_equivalence pl conf root s)
        (λ s'. AllClassified pl laws conf s.heap s'.heap × (Listed pl conf s → Listed pl conf s'))
unfolding propagate_equivalence
propagate_equivalence-Listed pl laws conf root s v r =
    let queue = get_nodes_ready_to_eval s.heap.num_nodes s.heap root in
    let (s', d, (k, l)) = Returns-some (propagate_loop pl conf s.heap.num_nodes queue s) _ (
      propagate_loop-AllClassified pl laws conf s.heap.num_nodes queue s v
        (get_nodes_ready_to_eval-IsQueue s.heap root v.consistent r)
        (open_count-le s.heap s.heap.num_nodes)) in
    Returns-bind _ _ d (Returns-assert _ _ (k.all root r.0) (k, l))

-- On a sound tree, whichever of its nodes have a class, PropagateEquivalence ends and meets no failed
-- assertion and no null pointer; then every node of the tree has a class, its old one if it had one,
-- the tree is the same, and the counters, the classes' lists of nodes and their weights are sound.
pub propagate_equivalence-AllClassified :
    (pl : Platform) (laws : WeightLaws pl) (conf : GlobalConfig) (root : ℕ) (s : Classes pl conf)
    → Sound pl laws conf s.heap
    → Rooted s.heap root
    → Returns
        (propagate_equivalence pl conf root s)
        (λ s'. AllClassified pl laws conf s.heap s'.heap)
propagate_equivalence-AllClassified pl laws conf root s v r =
    Returns-map (propagate_equivalence pl conf root s) _ _ (λ s' z. z.0)
      (propagate_equivalence-Listed pl laws conf root s v r)
