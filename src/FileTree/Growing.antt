-- ===== src/FileTree/Growing.antt =====
-- A tree that is being built: a new node keeps it one. src/file_tree.cpp.
use dupa.Base.{
  ℕ, length, ◌<◌, ◌≡◌, ◌≢◌, inl, inr, refl, sym, ap, ◌∙◌, subst, String, none, some, List, [], ◌∷◌,
  ◌++◌, In, In-append, Distinct, arith,
}
use dupa.FileTree.Store.{NodeType, is_dir, Heap}
use dupa.FileTree.AddChild.{Allocated}
use dupa.FileTree.Evaluation.{ℕ-cases}
use dupa.FileTree.Invariant.{open_count, IsTree, IsConsistent}

pub Distinct-append_one : (xs : List ℕ) (c : ℕ) → Distinct xs → ¬ In c xs → Distinct (xs ++ c ∷ [])
Distinct-append_one [] c d m = (λ i. i, tt)
Distinct-append_one (x ∷ xs) c d m = (
  λ i. elim (In-append x xs (c ∷ []) i) [
    | inl j ↦ d.0 j
    | inr (inl e) ↦ m (inl (sym e))
    | inr (inr j) ↦ j
  ],
  Distinct-append_one xs c d.1 (λ i. m (inr i)),
)

module _ {D : Type 0} where
  -- A tree that is being built: no node has a class.
  pub record IsNew (h : Heap D) : Type 0 where
    pub tree : IsTree h
    pub counted : (p : ℕ) → (h.node p).not_evaluated_children ≡ open_count h (h.node p).children
    pub unclassified : (i : ℕ) → (h.node i).eq_class ≡ none
    pub no_members : (c : ℕ) → (h.class_at c).nodes ≡ []

  pub IsNew-IsConsistent : (h : Heap D) → IsNew h → IsConsistent h
  IsNew-IsConsistent h v = record {
    tree = v.tree;
    counted = v.counted;
    listed = λ i c. (
      λ e. absurd (ground (arith, v.unclassified i)),
      λ m. absurd (subst (In i) (v.no_members c) m),
    );
    listed_once = λ c. subst Distinct (sym (v.no_members c)) tt;
    closed = λ i c e. absurd (ground (arith, v.unclassified i));
    allocated = λ i c e. absurd (ground (arith, v.unclassified i));
  }

  pub open_count-length :
      (h : Heap D) (xs : List ℕ)
      → ((i : ℕ) → (h.node i).eq_class ≡ none)
      → open_count h xs ≡ length xs
  open_count-length h [] u = refl
  open_count-length h (x ∷ xs) u = rw (u x) (omega (arith, open_count-length h xs u))

  -- The node was nobody's child and has no child.
  pub Allocated-IsNew :
      (type : NodeType) (name : String) (size : ℕ) (h h' : Heap D)
      → IsNew h
      → Allocated type name size h h'
      → IsNew h'
  Allocated-IsNew type name size h h' v a =
      let n = h.num_nodes in
      let apart : (p c : ℕ) → In c (h.node p).children → (p ≢ n) × (c ≢ n) = λ p c m.
        let b = v.tree.below p c m in
        (λ e. omega (arith, b.0, b.1, e), λ e. omega (arith, b.1, e)) in
      let unclassified' : (i : ℕ) → (h'.node i).eq_class ≡ none = λ i. elim (ℕ-cases i n) [
        | inl e ↦ subst (λ j. (h'.node j).eq_class ≡ none) (sym e) a.no_class
        | inr ne ↦ rw (a.others i ne) (v.unclassified i)
      ] in
      let of_new : (p c : ℕ) → In c (h'.node p).children → p ≢ n =
        λ p c m e. subst (In c) a.no_children (subst (λ q. In c (h'.node q).children) e m) in
      let of_old : (p c : ℕ) → In c (h'.node p).children → In c (h.node p).children =
        λ p c m. subst (λ x. In c x.children) (a.others p (of_new p c m)) m in
      record {
        tree = record {
          below = λ p c m.
              let i = of_old p c m in
              let b = v.tree.below p c i in
              (
                b.0,
                subst (λ k. c < k) (sym a.num_nodes) (omega (arith, b.1)),
                ap (λ x. x.parent) (a.others c (apart p c i).1) ∙ b.2,
              );
          above = λ p c e. elim (ℕ-cases c n) [
            | inl same ↦
                absurd
                  (ground (arith, subst (λ j. (h'.node j).parent ≡ some p) same e, a.no_parent))
            | inr ne ↦
                let i = v.tree.above p c (sym (ap (λ x. x.parent) (a.others c ne)) ∙ e) in
                subst (λ x. In c x.children) (sym (a.others p (apart p c i).0)) i
          ];
          once = λ p. elim (ℕ-cases p n) [
            | inl same ↦
                subst (λ q. Distinct (h'.node q).children) (sym same)
                  (subst Distinct (sym a.no_children) tt)
            | inr ne ↦ subst (λ x. Distinct x.children) (sym (a.others p ne)) (v.tree.once p)
          ];
          typed = λ p c m.
              ap (λ x. is_dir x.type) (a.others p (of_new p c m)) ∙ v.tree.typed p c (of_old p c m);
        };
        counted = λ p. elim (ℕ-cases p n) [
          | inl same ↦
              subst (λ q. (h'.node q).not_evaluated_children ≡ open_count h' (h'.node q).children)
                (sym same) (a.nothing_open ∙ ap (open_count h') (sym a.no_children))
          | inr ne ↦
              ap (λ x. x.not_evaluated_children) (a.others p ne)
              ∙ (v.counted p
                  ∙ (open_count-length h (h.node p).children v.unclassified
                      ∙ (ap (λ x. length x.children) (sym (a.others p ne))
                          ∙ sym (open_count-length h' (h'.node p).children unclassified'))))
        ];
        unclassified = unclassified';
        no_members = λ c. ap (λ f. (f c).nodes) a.same_classes ∙ v.no_members c;
      }
