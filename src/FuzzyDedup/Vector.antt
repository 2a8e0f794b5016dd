-- ===== src/FuzzyDedup/Vector.antt =====
-- Which classes the steps of FuzzyDedup put into the vector. src/fuzzy_dedup.cpp.
use dupa.Base.{
  ℕ, zero, suc, ◌<◌, ◌≡◌, ◌≢◌, ◌⊎◌, inl, inr, refl, sym, ap, ◌∙◌, subst, true, none, some, List, [],
  ◌∷◌, ◌++◌, In, In-append, In-append_left, In-append_right, Distinct, arith, Platform, Bool-cases,
}
use dupa.Conf.{GlobalConfig}
use dupa.FileTree.Store.{Heap, is_empty_dir}
use dupa.FileTree.Evaluation.{ℕ-cases}
use dupa.FileTree.Invariant.{Returns, Returns-bind, Returns-some}
use dupa.FileTree.Weights.{WeightLaws}
use dupa.FuzzyDedup.{Classes, new_class, add_range, classify_duplicate_files}
use dupa.FuzzyDedup.Listing.{Listed}
use dupa.FuzzyDedup.Classify.{Sound, new_class-Sound}
use dupa.FuzzyDedup.Files.{
  all_nodes, nth, Leaves, RangeAdded, add_range-RangeAdded, Distinct-left, Distinct-right,
  Distinct-apart,
}
use dupa.FuzzyDedup.EmptyDirs.{EmptyDirsDone}

In-cases : (a : ℕ) (xs : List ℕ) → In a xs ⊎ ¬ In a xs
In-cases a [] = inr (λ m. m)
In-cases a (x ∷ xs) = elim (ℕ-cases a x) [
  | inl same ↦ inl (inl same)
  | inr ne ↦ elim (In-cases a xs) [
    | inl i ↦ inl (inr i)
    | inr apart ↦ inr (λ m. elim m [ inl e ↦ ne e | inr i ↦ apart i ])
  ]
]

below_or_not : (x n : ℕ) → (x < n) ⊎ ¬ (x < n)
below_or_not zero zero = inr (λ lt. omega (arith, lt))
below_or_not zero (suc n) = inl (omega arith)
below_or_not (suc x) zero = inr (λ lt. omega (arith, lt))
below_or_not (suc x) (suc n) = elim (below_or_not x n) [
  | inl lt ↦ inl (omega (arith, lt))
  | inr outside ↦ inr (λ lt. outside (omega (arith, lt)))
]

module _ (pl : Platform) (laws : WeightLaws pl) (conf : GlobalConfig) where
  open pl use {Double}

  -- The nodes of a range have got a new class.
  range-Listed :
      (n : ℕ) (ns : List ℕ) (s : Classes pl conf) (h : Heap Double)
      → Leaves pl laws conf (n ∷ ns) s.heap
      → RangeAdded pl laws conf s.heap.num_classes (n ∷ ns) (new_class pl conf s.heap) h
      → Listed pl conf s
      → Listed pl conf (record { heap = h; eq_classes = s.eq_classes ++ s.heap.num_classes ∷ [] })
  unfolding new_class
  range-Listed n ns s h leaves k v d = (to, from)
    where
      to : In d (s.eq_classes ++ s.heap.num_classes ∷ []) → (x : ℕ) × ((h.node x).eq_class ≡ some d)
      to m = elim (In-append d s.eq_classes (s.heap.num_classes ∷ []) m) [
        | inr (inl same) ↦ (n, k.hit n (inl refl) ∙ ap some (sym same))
        | inr (inr none_left) ↦ absurd none_left
        | inl old ↦
            let (x, e) = (v d).0 old in
            (x, k.others x (λ i. absurd (ground (arith, e, (leaves x i).1))) ∙ e)
      ]

      from :
          ((x : ℕ) × ((h.node x).eq_class ≡ some d))
          → In d (s.eq_classes ++ s.heap.num_classes ∷ [])
      from (x, e) = elim (In-cases x (n ∷ ns)) [
        | inl i ↦
            In-append_right d s.eq_classes (s.heap.num_classes ∷ [])
              (inl (ground (arith, e, k.hit x i)))
        | inr apart ↦
            In-append_left d s.eq_classes (s.heap.num_classes ∷ [])
              ((v d).1 (x, sym (k.others x apart) ∙ e))
      ]

  filled-Listed :
      (ns : List ℕ) (s : Classes pl conf) (h : Heap Double)
      → ns ≢ []
      → Leaves pl laws conf ns s.heap
      → RangeAdded pl laws conf s.heap.num_classes ns (new_class pl conf s.heap) h
      → Listed pl conf s
      → Listed pl conf (record { heap = h; eq_classes = s.eq_classes ++ s.heap.num_classes ∷ [] })
  filled-Listed [] s h full = absurd (full refl)
  filled-Listed (n ∷ ns) s h full = range-Listed n ns s h

  -- ClassifyDuplicateFiles, for ranges that are not empty.
  pub classify_duplicate_files-Listed :
      (gs : List (ℕ × List ℕ)) (s : Classes pl conf)
      → ((k : ℕ) (g : ℕ × List ℕ) → nth gs k ≡ some g → g.1 ≢ [])
      → Sound pl laws conf s.heap
      → Distinct (all_nodes gs)
      → Leaves pl laws conf (all_nodes gs) s.heap
      → Listed pl conf s
      → Returns (classify_duplicate_files pl conf gs s) (Listed pl conf)
  unfolding classify_duplicate_files new_class
  classify_duplicate_files-Listed [] s full v d l listed = listed
  classify_duplicate_files-Listed ((sum, ns) ∷ gs) s full v d l listed =
      let c = s.heap.num_classes in
      let here : Leaves pl laws conf ns s.heap =
        λ x m. l x (In-append_left x ns (all_nodes gs) m) in
      let (h, done, k) = Returns-some (add_range pl conf c ns (new_class pl conf s.heap)) _ (
        add_range-RangeAdded pl laws conf c ns (new_class pl conf s.heap)
          (new_class-Sound pl laws conf s.heap v) (Distinct-left ns (all_nodes gs) d) here
          (omega arith)) in
      let s' : Classes pl conf = record { heap = h; eq_classes = s.eq_classes ++ c ∷ [] } in
      let leaves : Leaves pl laws conf (all_nodes gs) h = λ x m.
        let was = l x (In-append_right x ns (all_nodes gs) m) in
        (
          k.same_children x ∙ was.0,
          k.others x (λ i. Distinct-apart ns (all_nodes gs) x d i m) ∙ was.1,
        ) in
      Returns-bind _ _ done (
        classify_duplicate_files-Listed gs s' (λ j. full (suc j)) k.sound
          (Distinct-right ns (all_nodes gs) d) leaves
          (filled-Listed ns s h (full 0 (sum, ns) refl) here k listed))

  -- ClassifyEmptyDirs, whose class is kept if it has nodes.
  module _ (c : ℕ) (s : Classes pl conf) (h : Heap Double) (v : Listed pl conf s)
      (k : EmptyDirsDone pl laws conf c s.heap h)
      (unclassified : (x : ℕ)
        → x < s.heap.num_nodes
        → is_empty_dir (s.heap.node x) ≡ true
        → (s.heap.node x).eq_class ≡ none) where
    kept_or_empty :
        (x : ℕ)
        → ((h.node x).eq_class ≡ (s.heap.node x).eq_class)
          ⊎ (((h.node x).eq_class ≡ some c) × ((s.heap.node x).eq_class ≡ none))
    kept_or_empty x = elim (Bool-cases (is_empty_dir (s.heap.node x))) [
      | inr full ↦ inl (k.others x (λ below. full))
      | inl empty ↦ elim (below_or_not x s.heap.num_nodes) [
        | inl lt ↦ inr (k.hit x lt empty, unclassified x lt empty)
        | inr outside ↦ inl (k.others x (λ below. absurd (outside below)))
      ]
    ]

    no_empties-Listed :
        (h.class_at c).nodes ≡ [] → Listed pl conf (record { heap = h; eq_classes = s.eq_classes })
    no_empties-Listed none_left d =
        (λ m. let (x, e) = (v d).0 m in (x, same x ∙ e), λ z. (v d).1 (z.0, sym (same z.0) ∙ z.1))
      where
        same : (x : ℕ) → (h.node x).eq_class ≡ (s.heap.node x).eq_class
        same x = elim (kept_or_empty x) [
          | inl e ↦ e
          | inr (e, _) ↦ absurd (subst (In x) none_left ((k.sound.consistent.listed x c).0 e))
        ]

    empties-Listed :
        (y : ℕ) (ys : List ℕ)
        → (h.class_at c).nodes ≡ y ∷ ys
        → Listed pl conf (record { heap = h; eq_classes = s.eq_classes ++ c ∷ [] })
    empties-Listed y ys some_left d = (
      λ m. elim (In-append d s.eq_classes (c ∷ []) m) [
        | inr (inl same) ↦ (
          y,
          (k.sound.consistent.listed y c).1 (subst (In y) (sym some_left) (inl refl))
              ∙ ap some (sym same),
        )
        | inr (inr none_left) ↦ absurd none_left
        | inl old ↦
            let (x, e) = (v d).0 old in
            elim (kept_or_empty x) [
              | inl kept ↦ (x, kept ∙ e)
              | inr (_, open') ↦ absurd (ground (arith, e, open'))
            ]
      ],
      λ z. elim (kept_or_empty z.0) [
        | inl kept ↦ In-append_left d s.eq_classes (c ∷ []) ((v d).1 (z.0, sym kept ∙ z.1))
        | inr (e, _) ↦ In-append_right d s.eq_classes (c ∷ []) (inl (ground (arith, e, z.1)))
      ],
    )

    pub classify_empty-Listed :
        (ns : List ℕ)
        → (h.class_at c).nodes ≡ ns
        → Listed pl conf (record {
          heap = h;
          eq_classes = elim ns [ [] ↦ s.eq_classes | x ∷ xs ↦ s.eq_classes ++ c ∷ [] ];
        })
    classify_empty-Listed [] e = no_empties-Listed e
    classify_empty-Listed (y ∷ ys) e = empties-Listed y ys e
