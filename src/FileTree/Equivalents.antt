-- ===== src/FileTree/Equivalents.antt =====
-- Node::GetPossibleEquivalents on a ready node: no assertion fails, and it returns evaluated
-- directories other than the node. src/file_tree.cpp.
use dupa.Base.{
  ℕ, ◌≡◌, ◌≢◌, inl, inr, refl, sym, ap, ◌∙◌, subst, true, some, List, [], ◌∷◌, ◌++◌, In, In-append,
  arith, Platform, Option-cases,
}
use dupa.FileTree.Store.{Heap, is_evaluated}
use dupa.FileTree.Walk.{
  equivalent_parent, class_equivalents, child_equivalents, get_possible_equivalents,
}
use dupa.FileTree.Invariant.{open_count, IsConsistent}

module _ {D : Type 0} (h : Heap D) (i : ℕ) where
  -- An evaluated node other than `i` that has a child.
  abbrev pub Candidate : ℕ → Type 0
  Candidate p =
      (p ≢ i)
      × ((c : ℕ) × ((h.node p).eq_class ≡ some c))
      × ((e : ℕ) × ((h.node e).parent ≡ some p))

  abbrev pub Candidates : List ℕ → Type 0
  Candidates ps = (p : ℕ) → In p ps → Candidate p

  equivalent_parent-Candidate : (child e : ℕ) → Candidates (equivalent_parent h i child e)
  unfolding equivalent_parent
  equivalent_parent-Candidate child e p m = elim (Option-cases (h.node e).parent) [
    | inl n ↦ absurd (ground arith)
    | inr (a, d) ↦ elim (Option-cases (h.node a).eq_class) [
      | inl n ↦ absurd (ground arith)
      | inr (c, q) ↦
          let same : p ≡ a = ground arith in
          (
            ground arith,
            (c, subst (λ z. (h.node z).eq_class ≡ some c) (sym same) q),
            (e, d ∙ ap some (sym same)),
          )
    ]
  ]

  Candidates-append : (xs ys : List ℕ) → Candidates xs → Candidates ys → Candidates (xs ++ ys)
  Candidates-append xs ys a b p m = elim (In-append p xs ys m) [ inl l ↦ a p l | inr r ↦ b p r ]

  -- Every member of the list has a class.
  AllEvaluated : List ℕ → Type 0
  AllEvaluated es = (e : ℕ) → In e es → is_evaluated (h.node e) ≡ true

  class_equivalents-Candidates :
      (child : ℕ) (es : List ℕ)
      → AllEvaluated es
      → (found : List ℕ) × (class_equivalents h i child es ≡ some found) × Candidates found
  unfolding class_equivalents AllEvaluated
  class_equivalents-Candidates child [] a = ([], refl, λ p m. absurd m)
  class_equivalents-Candidates child (e ∷ es) a =
      let (found, d, k) = class_equivalents-Candidates child es (λ x m. a x (inr m)) in
      let now = a e (inl refl) in
      (
        equivalent_parent h i child e ++ found,
        rw (now, d),
        Candidates-append (equivalent_parent h i child e) found
            (equivalent_parent-Candidate child e) k,
      )

  module _ (v : IsConsistent h) where
    class-AllEvaluated : (c : ℕ) → AllEvaluated (h.class_at c).nodes
    unfolding AllEvaluated
    class-AllEvaluated c e m = let q = (v.listed e c).1 m in rw q

    child_equivalents-Candidates :
        (cs : List ℕ)
        → open_count h cs ≡ 0
        → (found : List ℕ) × (child_equivalents h i cs ≡ some found) × Candidates found
    unfolding child_equivalents
    child_equivalents-Candidates [] o = ([], refl, λ p m. absurd m)
    child_equivalents-Candidates (x ∷ xs) o = elim (Option-cases (h.node x).eq_class) [
      | inl n ↦ absurd (ground arith)
      | inr (c, q) ↦
          let (found, d, k) =
            class_equivalents-Candidates x (h.class_at c).nodes (class-AllEvaluated c) in
          let (rest, d', k') = child_equivalents-Candidates xs (ground arith) in
          (found ++ rest, rw (q, child_equivalents, d, d'), Candidates-append found rest k k')
    ]

-- The possible equivalents of a ready node can be computed, and each of them is an evaluated node
-- with children, other than the node itself.
pub get_possible_equivalents-Candidates :
    (pl : Platform) (h : Heap pl.Double) (i : ℕ)
    → IsConsistent h
    → (h.node i).not_evaluated_children ≡ 0
    → (ps : List ℕ) × (get_possible_equivalents pl h i ≡ some ps) × Candidates h i ps
unfolding get_possible_equivalents
get_possible_equivalents-Candidates pl h i v r =
    let (found, d, k) =
      child_equivalents-Candidates h i v (h.node i).children (sym (v.counted i) ∙ r) in
    (pl.elements found, ground arith, λ p m. k p ((pl.elements-In p found).0 m))
