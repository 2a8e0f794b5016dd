-- ===== src/FileTree/Evaluation.antt =====
-- EqClass::AddNode keeps the counters and the classes consistent, and cannot fail on a node whose
-- children are all evaluated. src/file_tree.cpp.
use dupa.Base.{
  ℕ, ◌+◌, ◌<◌, ◌≡◌, ◌≢◌, ◌⊎◌, inl, inr, refl, sym, ap, ◌∙◌, subst, none, some, List, [], ◌∷◌, ◌==◌,
  In, Distinct, arith, Bool-cases, In-append, In-append_left, In-append_right, Distinct-append_one,
}
use dupa.FileTree.Store.{is_dir, Heap}
use dupa.FileTree.{mem}
use dupa.FileTree.Invariant.{mem-In, not-In, open_count, IsTree, IsConsistent, Classified}

pub ℕ-cases : (i j : ℕ) → (i ≡ j) ⊎ (i ≢ j)
ℕ-cases i j = elim (Bool-cases (i == j)) [
  | inl e ↦ inl (ground arith)
  | inr e ↦ inr (λ d. ground arith)
]

module _ {D : Type 0} {c i : ℕ} {h h' : Heap D} (k : Classified c i h h') where
  open_count-miss : (xs : List ℕ) → ¬ In i xs → open_count h' xs ≡ open_count h xs
  open_count-miss [] m = refl
  open_count-miss (x ∷ xs) m =
      let same = k.others x (λ e. m (inl (sym e))) in
      let rest = open_count-miss xs (λ j. m (inr j)) in ground arith

  pub open_count-hit :
      (xs : List ℕ)
      → (h.node i).eq_class ≡ none
      → Distinct xs
      → In i xs
      → open_count h' xs + 1 ≡ open_count h xs
  open_count-hit [] e d m = absurd m
  open_count-hit (x ∷ xs) e d (inl q) =
      let rest = open_count-miss xs (subst (λ z. ¬ In z xs) (sym q) d.0) in
      let now = k.hit in ground arith
  open_count-hit (x ∷ xs) e d (inr m) =
      let same = k.others x (λ q. d.0 (subst (λ z. In z xs) (sym q) m)) in
      let rest = open_count-hit xs e d.1 m in ground arith

  Classified-IsTree : IsTree h → IsTree h'
  Classified-IsTree t = record {
    below = λ p j m.
        let (lt, bound, up) = t.below p j (subst (In j) (k.same_children p) m) in
        (lt, subst (λ z. j < z) (sym k.size) bound, k.same_parent j ∙ up);
    above =
        λ p j e. subst (In j) (sym (k.same_children p)) (t.above p j (sym (k.same_parent j) ∙ e));
    once = λ p. subst Distinct (sym (k.same_children p)) (t.once p);
    typed = λ p j m. ap is_dir (k.same_type p) ∙ t.typed p j (subst (In j) (k.same_children p) m);
  }

  Classified-counted :
      IsConsistent h
      → (h.node i).eq_class ≡ none
      → (p : ℕ) → (h'.node p).not_evaluated_children ≡ open_count h' (h'.node p).children
  Classified-counted v e p =
      let was = v.counted p in
      rw (k.same_children p) (elim (Bool-cases (mem i (h.node p).children)) [
        | inl m ↦
            let here = mem-In i (h.node p).children m in
            omega (
              arith,
              was,
              k.lowered p (v.tree.below p i here).2,
              open_count-hit (h.node p).children e (v.tree.once p) here,
            )
        | inr m ↦
            let gone = not-In i (h.node p).children m in
            omega (
              arith,
              was,
              k.kept p (λ q. gone (v.tree.above p i q)),
              open_count-miss (h.node p).children gone,
            )
      ])

  module _ (v : IsConsistent h) (e : (h.node i).eq_class ≡ none) where
    pub unlisted : ¬ In i (h.class_at c).nodes
    unlisted m = let q = (v.listed i c).1 m in cc

    listed_there : (j a : ℕ) → (h'.node j).eq_class ≡ some a → In j (h'.class_at a).nodes
    listed_there j a q = elim (ℕ-cases j i) [
      | inl same ↦
          let q' : (h'.node i).eq_class ≡ some a =
            subst (λ z. (h'.node z).eq_class ≡ some a) same q in
          let c_a : c ≡ a = let u = k.hit in cc in
          subst (λ z. In j (h'.class_at z).nodes) c_a
            (rw k.grown (In-append_right j (h.class_at c).nodes (i ∷ []) (inl same)))
      | inr other ↦
          let m = (v.listed j a).0 (sym (k.others j other) ∙ q) in
          elim (ℕ-cases a c) [
            | inl same ↦
                subst (λ z. In j (h'.class_at z).nodes) (sym same)
                  (rw k.grown (
                    In-append_left j (h.class_at c).nodes (i ∷ [])
                      (subst (λ z. In j (h.class_at z).nodes) same m)))
            | inr new ↦ rw (k.same_nodes a new) m
          ]
    ]

    listed_before : (j a : ℕ) → In j (h.class_at a).nodes → (h'.node j).eq_class ≡ some a
    listed_before j a m =
        let q = (v.listed j a).1 m in
        k.others j (λ same. let q' = subst (λ z. (h.node z).eq_class ≡ some a) same q in cc) ∙ q

    listed_back : (j a : ℕ) → In j (h'.class_at a).nodes → (h'.node j).eq_class ≡ some a
    listed_back j a m = elim (ℕ-cases a c) [
      | inr new ↦ listed_before j a (rw (k.same_nodes a new) at m)
      | inl same ↦
          let m' = subst (λ z. In j (h'.class_at z).nodes) same m in
          elim (In-append j (h.class_at c).nodes (i ∷ []) (subst (In j) k.grown m')) [
            | inl old ↦
                subst (λ z. (h'.node j).eq_class ≡ some z) (sym same) (listed_before j c old)
            | inr new ↦ elim new [
              | inl d ↦
                  subst (λ z. (h'.node z).eq_class ≡ some a) (sym d) (k.hit ∙ ap some (sym same))
              | inr z ↦ absurd z
            ]
          ]
    ]

    listed_once_after : (a : ℕ) → Distinct (h'.class_at a).nodes
    listed_once_after a = elim (ℕ-cases a c) [
      | inr new ↦ rw (k.same_nodes a new) (v.listed_once a)
      | inl same ↦
          subst (λ z. Distinct (h'.class_at z).nodes) (sym same)
            (rw k.grown (Distinct-append_one (h.class_at c).nodes i (v.listed_once c) unlisted))
    ]

    closed_after :
        (h.node i).not_evaluated_children ≡ 0
        → (j a : ℕ) → (h'.node j).eq_class ≡ some a
        → (h'.node j).not_evaluated_children ≡ 0
    closed_after r j a q =
        let was : (h.node j).not_evaluated_children ≡ 0 = elim (ℕ-cases j i) [
          | inl same ↦ subst (λ z. (h.node z).not_evaluated_children ≡ 0) (sym same) r
          | inr other ↦ v.closed j a (sym (k.others j other) ∙ q)
        ] in
        elim (Bool-cases (mem i (h.node j).children)) [
          | inl m ↦
              let here = mem-In i (h.node j).children m in
              absurd (omega (arith, was, k.lowered j (v.tree.below j i here).2))
          | inr m ↦ k.kept j (λ u. not-In i (h.node j).children m (v.tree.above j i u)) ∙ was
        ]

    allocated_after :
        c < h.num_classes → (j a : ℕ) → (h'.node j).eq_class ≡ some a → a < h'.num_classes
    allocated_after lt j a q = rw k.same_classes (elim (ℕ-cases j i) [
      | inl same ↦
          let q' = subst (λ z. (h'.node z).eq_class ≡ some a) same q in
          let c_a : c ≡ a = let u = k.hit in cc in omega arith
      | inr other ↦ v.allocated j a (sym (k.others j other) ∙ q)
    ])

  -- Classifying a ready node that had no class keeps the heap consistent.
  pub Classified-IsConsistent :
      IsConsistent h
      → (h.node i).eq_class ≡ none
      → (h.node i).not_evaluated_children ≡ 0
      → c < h.num_classes
      → IsConsistent h'
  Classified-IsConsistent v e r lt = record {
    tree = Classified-IsTree v.tree;
    counted = Classified-counted v e;
    listed = λ j a. (listed_there v e j a, listed_back v e j a);
    listed_once = listed_once_after v e;
    closed = closed_after v e r;
    allocated = allocated_after v e lt;
  }
