-- ===== src/FileTree/Ancestors.antt =====
-- Node::IsAncestorOf and Node::Traverse agree on what is below a node. src/file_tree.cpp.
use dupa.Base.{
  ℕ, zero, suc, ◌≤◌, ◌<◌, ◌≡◌, ◌↔◌, inl, inr, refl, sym, ap, ◌∙◌, true, some, In, arith, ◌==◌,
  ==_iff, ◌>>=◌, Option-cases, Bool-cases,
}
use dupa.FileTree.Store.{Heap}
use dupa.FileTree.Invariant.{IsTree}
use dupa.FileTree.Walk.{traverse, is_ancestor_of}
use dupa.FileTree.Traversal.{climb, lower, traverse-climb, climb-traverse}

module _ {D : Type 0} (h : Heap D) where
  -- The walk upwards finds the node at some level.
  is_ancestor_of-climb :
      (fuel i n : ℕ) → is_ancestor_of h fuel i n ≡ true → (k : ℕ) × (climb h k n ≡ some i)
  unfolding is_ancestor_of
  is_ancestor_of-climb zero i n e = absurd (ground arith)
  is_ancestor_of-climb (suc fuel) i n e = elim (Bool-cases (n == i)) [
    | inl same ↦ (0, ap some ((==_iff n i).0 same))
    | inr other ↦ elim (Option-cases (h.node n).parent) [
      | inl top ↦ absurd (ground arith)
      | inr (p, up) ↦ let (k, d) = is_ancestor_of-climb fuel i p (ground arith) in (suc k, rw up d)
    ]
  ]

  climb-is_ancestor_of :
      (fuel k i n : ℕ) → k < fuel → climb h k n ≡ some i → is_ancestor_of h fuel i n ≡ true
  unfolding is_ancestor_of
  climb-is_ancestor_of zero k i n lt e = absurd (omega arith)
  climb-is_ancestor_of (suc fuel) zero i n lt e =
      let same : n == i ≡ true = (==_iff n i).1 (ground arith) in rw same refl
  climb-is_ancestor_of (suc fuel) (suc k) i n lt e = elim (Bool-cases (n == i)) [
    | inl same ↦ rw same refl
    | inr other ↦ elim (Option-cases (h.node n).parent) [
      | inl top ↦ absurd (ground arith)
      | inr (p, up) ↦
          let rest =
            climb-is_ancestor_of fuel k i p (omega arith)
              (sym (ap (λ o. o >>= climb h k) up) ∙ e) in
          rw (other, up) rest
    ]
  ]

  climb_bound : (k x c : ℕ) → IsTree h → climb h k x ≡ some c → k ≤ x
  climb_bound zero x c t e = omega arith
  climb_bound (suc k) x c t e = elim (Option-cases (h.node x).parent) [
    | inl top ↦ absurd (ground arith)
    | inr (y, up) ↦
        let down = lower h t x y up in
        let rest = climb_bound k y c t (sym (ap (λ o. o >>= climb h k) up) ∙ e) in
        omega (arith, down, rest)
  ]

  -- In a tree, with fuel for its nodes, IsAncestorOf is true of exactly the nodes that Traverse visits.
  pub is_ancestor_of-traverse :
      (i n : ℕ)
      → IsTree h
      → n < h.num_nodes
      → (is_ancestor_of h h.num_nodes i n ≡ true) ↔ In n (traverse h h.num_nodes i)
  is_ancestor_of-traverse i n t lt = (
    λ e.
        let (k, d) = is_ancestor_of-climb h.num_nodes i n e in
        let b = climb_bound k n i t d in
        climb-traverse h t h.num_nodes k i n (omega (arith, b, lt)) d,
    λ m.
        let (k, d) = traverse-climb h t h.num_nodes i n m in
        let b = climb_bound k n i t d in
        climb-is_ancestor_of h.num_nodes k i n (omega (arith, b, lt)) d,
  )
