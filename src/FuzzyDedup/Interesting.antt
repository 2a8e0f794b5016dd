-- ===== src/FuzzyDedup/Interesting.antt =====
-- GetInteresingEqClasses: the classes with duplicates that their parents' classes do not explain.
-- src/fuzzy_dedup.cpp.
use dupa.Base.{
  ℕ, ◌≡◌, ◌≢◌, ◌⊎◌, ◌↔◌, inl, inr, refl, sym, subst, true, false, none, some, List, [], ◌∷◌, In,
  arith, Bool-cases, Option-cases,
}
use dupa.FileTree.Store.{Heap, is_single}
use dupa.FileTree.Invariant.{Returns, Returns-some}
use dupa.FuzzyDedup.{parent_is_dup, all_parents_are_dups, left_out, get_interesting_eq_classes}

module _ {D : Type 0} (h : Heap D) where
  -- The node is the root, or its parent has no duplicate.
  abbrev pub Unexplained : ℕ → Type 0
  Unexplained n =
      ((h.node n).parent ≡ none)
      ⊎ ((p : ℕ) × (c : ℕ) × ((h.node n).parent ≡ some p)
          × ((h.node p).eq_class ≡ some c)
          × (is_single (h.class_at c) ≡ true))

  -- The nodes' parents have classes.
  abbrev pub ParentsClassified : List ℕ → Type 0
  ParentsClassified ns =
      (n p : ℕ) → In n ns → (h.node n).parent ≡ some p → (c : ℕ) × ((h.node p).eq_class ≡ some c)

  -- A node's parent is told apart by the test.
  parent_is_dup_lem :
      (n : ℕ)
      → ((p : ℕ) → (h.node n).parent ≡ some p → (c : ℕ) × ((h.node p).eq_class ≡ some c))
      → ((parent_is_dup h (h.node n).parent ≡ some false) × Unexplained n)
        ⊎ ((parent_is_dup h (h.node n).parent ≡ some true) × ¬ Unexplained n)
  unfolding parent_is_dup
  parent_is_dup_lem n known = elim (Option-cases (h.node n).parent) [
    | inl o ↦ inl (rw o refl, inl o)
    | inr (p, q) ↦
        let (c, e) = known p q in
        elim (Bool-cases (is_single (h.class_at c))) [
          | inl m ↦ inl (ground arith, inr (p, c, q, e, m))
          | inr m ↦ inr (
            ground arith,
            (λ u. elim u [
              | inl o ↦ ground arith
              | inr (p', c', q', e', m') ↦
                  let same_p : p ≡ p' = ground arith in
                  let e2 = subst (λ z. (h.node z).eq_class ≡ some c') (sym same_p) e' in
                  let same_c : c ≡ c' = ground arith in
                  let m2 = subst (λ z. is_single (h.class_at z) ≡ true) (sym same_c) m' in cc
            ]),
          )
        ]
  ]

  -- Some node of the list is not explained.
  abbrev pub SomeUnexplained : List ℕ → Type 0
  SomeUnexplained ns = (n : ℕ) × In n ns × Unexplained n

  all_parents_are_dups_lem :
      (ns : List ℕ)
      → ParentsClassified ns
      → ((all_parents_are_dups h ns ≡ some false) × SomeUnexplained ns)
        ⊎ ((all_parents_are_dups h ns ≡ some true) × ¬ SomeUnexplained ns)
  unfolding all_parents_are_dups
  all_parents_are_dups_lem [] known = inr (refl, λ u. let (n, m, w) = u in m)
  all_parents_are_dups_lem (n ∷ ns) known =
      let here = parent_is_dup_lem n (λ p. known n p (inl refl)) in
      let rest = all_parents_are_dups_lem ns (λ a p m. known a p (inr m)) in
      elim here [
        | inl (e, u) ↦ elim rest [
          | inl (f, w) ↦ inl (rw (e, f) refl, (n, inl refl, u))
          | inr (f, w) ↦ inl (rw (e, f) refl, (n, inl refl, u))
        ]
        | inr (e, u) ↦ elim rest [
          | inl (f, w) ↦ inl (rw (e, f) refl, (w.0, inr w.1, w.2))
          | inr (f, w) ↦ inr (
            rw (e, f) refl,
            (λ z.
                let (a, m, k) = z in
                elim m [ inl same ↦ u (subst Unexplained same k) | inr i ↦ w (a, i, k) ]),
          )
        ]
      ]

  -- A class with two nodes or more, one of which is not explained.
  abbrev pub Interesting : ℕ → Type 0
  Interesting c = (is_single (h.class_at c) ≡ false) × SomeUnexplained (h.class_at c).nodes

  left_out_lem :
      (ns : List ℕ) (c : ℕ)
      → (h.class_at c).nodes ≡ ns
      → ns ≢ []
      → ParentsClassified ns
      → ((left_out h ns ≡ some false) × Interesting c)
        ⊎ ((left_out h ns ≡ some true) × ¬ Interesting c)
  unfolding left_out
  left_out_lem [] c e ne known = absurd (ne refl)
  left_out_lem (n ∷ []) c e ne known = inr (refl, λ z. let s = z.0 in ground arith)
  left_out_lem (n ∷ m ∷ ns) c e ne known = elim (all_parents_are_dups_lem (n ∷ m ∷ ns) known) [
    | inl (f, w) ↦ inl (f, (ground arith, subst SomeUnexplained (sym e) w))
    | inr (f, w) ↦ inr (f, λ z. w (subst SomeUnexplained e z.1))
  ]

  -- When no class of the list is empty and the parents of their nodes have classes,
  -- GetInteresingEqClasses meets no failed assertion and returns exactly the classes of two nodes or
  -- more in which some node is the root or has a parent that is alone in its class.
  pub get_interesting_eq_classes-Interesting :
      (cs : List ℕ)
      → ((c : ℕ) → In c cs → (h.class_at c).nodes ≢ [])
      → ((c : ℕ) → In c cs → ParentsClassified (h.class_at c).nodes)
      → Returns
          (get_interesting_eq_classes h cs)
          (λ found. (c : ℕ) → In c found ↔ (In c cs × Interesting c))
  unfolding get_interesting_eq_classes
  get_interesting_eq_classes-Interesting [] full known = λ c. ((λ m. absurd m), (λ z. z.0))
  get_interesting_eq_classes-Interesting (x ∷ xs) full known =
      let (found, d, k) = Returns-some (get_interesting_eq_classes h xs) _ (
        get_interesting_eq_classes-Interesting xs (λ c m. full c (inr m))
          (λ c m. known c (inr m))) in
      elim (left_out_lem (h.class_at x).nodes x refl (full x (inl refl)) (known x (inl refl))) [
        | inl (e, w) ↦
            rw (e, d)
              (λ c. (
                (λ m. elim m [
                  | inl same ↦ (inl same, subst Interesting (sym same) w)
                  | inr i ↦ let (there, z) = (k c).0 i in (inr there, z)
                ]),
                (λ z. elim z.0 [ inl same ↦ inl same | inr i ↦ inr ((k c).1 (i, z.1)) ]),
              ))
        | inr (e, w) ↦
            rw (e, d)
              (λ c. (
                (λ i. let (there, z) = (k c).0 i in (inr there, z)),
                (λ z. elim z.0 [
                  | inl same ↦ absurd (w (subst Interesting same z.1))
                  | inr i ↦ (k c).1 (i, z.1)
                ]),
              ))
      ]
