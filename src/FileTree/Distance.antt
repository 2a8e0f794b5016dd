-- ===== src/FileTree/Distance.antt =====
-- NodeDistance meets no failed assertion on a ready node and an evaluated directory, and its result is
-- below 1.1, as its caller asserts. src/file_tree.cpp.
use dupa.Base.{
  ℕ, ◌≤◌, ◌≡◌, inl, inr, Bool, true, ◌||◌, List, [], ◌∷◌, ◌==◌, leb, arith, Platform, Bool-cases,
}
use dupa.FileTree.Store.{is_dir, Heap, is_ready_to_evaluate}
use dupa.FileTree.{mem, without, first_sums, second_sums, distance_of, node_distance}
use dupa.FileTree.Invariant.{Returns, Returns-assert, Returns-bind, open_count}
use dupa.FileTree.AddNode.{classes_of-some}
use dupa.FileTree.Weights.{IsSum, none_yet, one_more, WeightLaws}

module _ (pl : Platform) (laws : WeightLaws pl) (use_size : Bool) where
  open pl use {Double, of_ℕ, add, div, lt, to_u64, elements}
  open laws use {IsWeight, add_grows, add_mono, ratio_small, zero_small}

  -- Every class has a weight.
  abbrev pub Weighted : Heap Double → Type 0
  Weighted h = (c : ℕ) → IsWeight (h.class_at c).weight

  -- `sum` and `sym_diff` in the loops of NodeDistance.
  record Sums (t : ℕ × ℕ) : Type 0 where
    whole : IsSum pl IsWeight t.0
    part : IsSum pl IsWeight t.1
    within : t.1 ≤ t.0

  module _ (h : Heap Double) (w : Weighted h) where
    first_sums-Sums :
        (classes2 : List ℕ) (cs : List ℕ) (t : ℕ × ℕ)
        → Sums t
        → Sums (first_sums pl use_size h classes2 t cs)
    unfolding first_sums
    first_sums-Sums classes2 [] (s, y) v = v
    first_sums-Sums classes2 (c ∷ cs) (s, y) v =
        first_sums-Sums classes2 cs _ (elim (Bool-cases (mem c classes2)) [
          | inl in2 ↦ simp in2 (record {
            whole = one_more _ v.whole (w c);
            part = v.part;
            within = omega (arith, v.within, add_grows s (h.class_at c).weight v.whole (w c));
          })
          | inr only1 ↦ simp only1 (record {
            whole = one_more _ v.whole (w c);
            part = one_more _ v.part (w c);
            within = add_mono y s (h.class_at c).weight (w c) v.within;
          })
        ])

    second_sums-Sums : (cs : List ℕ) (t : ℕ × ℕ) → Sums t → Sums (second_sums pl use_size h t cs)
    unfolding second_sums
    second_sums-Sums [] (s, y) v = v
    second_sums-Sums (c ∷ cs) (s, y) v = second_sums-Sums cs _ (record {
      whole = one_more _ v.whole (w c);
      part = one_more _ v.part (w c);
      within = add_mono y s (h.class_at c).weight (w c) v.within;
    })

    -- Below 1.1.
    abbrev pub IsSmall : Double → Type 0
    IsSmall d = lt d (div (of_ℕ 11) (of_ℕ 10)) ≡ true

    distance_of-IsSmall : (s y : ℕ) → y ≤ s → Returns (distance_of pl use_size s y) IsSmall
    unfolding distance_of
    distance_of-IsSmall s y lt = elim (Bool-cases (s == 0)) [
      | inl e ↦ rw e zero_small
      | inr e ↦ rw e (
          Returns-assert {b = leb y s} _ IsSmall (ground arith) (ratio_small y s lt (ground arith)))
    ]

    -- NodeDistance of two nodes whose children all have classes, the second a directory, meets no failed
    -- assertion and is below 1.1, if every class has a weight.
    pub node_distance-IsSmall :
        (n1 n2 : ℕ)
        → (h.node n1).not_evaluated_children ≡ 0
        → (h.node n2).not_evaluated_children ≡ 0
        → open_count h (h.node n1).children ≡ 0
        → open_count h (h.node n2).children ≡ 0
        → is_dir (h.node n2).type ≡ true
        → Returns (node_distance pl use_size h n1 n2) IsSmall
    unfolding node_distance
    node_distance-IsSmall n1 n2 r1 r2 o1 o2 d =
        let (cs1, e1) = classes_of-some h (h.node n1).children o1 in
        let (cs2, e2) = classes_of-some h (h.node n2).children o2 in
        let v =
          second_sums-Sums (elements (without cs1 cs2))
            (first_sums pl use_size h cs2 (0, 0) (elements cs1))
            (first_sums-Sums cs2 (elements cs1) (0, 0)
              (record { whole = none_yet; part = none_yet; within = omega arith })) in
        Returns-assert {b = is_ready_to_evaluate (h.node n1)} _ IsSmall (ground arith) (
          Returns-assert {b = is_ready_to_evaluate (h.node n2)} _ IsSmall (ground arith) (
            Returns-assert {b = is_dir (h.node n1).type || is_dir (h.node n2).type} _ IsSmall
              (ground arith)
              (Returns-bind _ IsSmall e1
                (Returns-bind _ IsSmall e2 (distance_of-IsSmall _ _ v.within)))))
