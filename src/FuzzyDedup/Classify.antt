-- ===== src/FuzzyDedup/Classify.antt =====
-- The choice of a class for one ready node: no assertion fails, and the node gets a class.
-- src/fuzzy_dedup.cpp.
use dupa.Base.{
  ℕ, ◌<◌, ◌≡◌, ◌⊎◌, inl, inr, refl, sym, ap, ◌∙◌, ◌↔◌, some, In-append, In-append_left,
  In-append_right, subst, not, Option, none, List, [], ◌∷◌, ◌==◌, In, arith, Platform, Bool-cases,
}
use dupa.Conf.{GlobalConfig}
use dupa.FileTree.Store.{Node, Heap, is_evaluated}
use dupa.FileTree.{add_node, node_distance}
use dupa.FileTree.Invariant.{
  Returns, Returns-assert, Returns-bind, Returns-map, Returns-some, IsConsistent, Classified,
}
use dupa.FileTree.AddNode.{add_node-IsConsistent}
use dupa.FileTree.Weights.{WeightLaws}
use dupa.FileTree.Distance.{Weighted, IsSmall, node_distance-IsSmall}
use dupa.FileTree.WeightSteps.{add_node-Weighted}
use dupa.FileTree.Equivalents.{Candidate, Candidates, get_possible_equivalents-Candidates}
use dupa.FuzzyDedup.Listing.{Listed, gets-Listed}
use dupa.FuzzyDedup.{
  Classes, new_class, add_to_new_class, add_to_class_of, closest_from, get_closest_node, tolerable,
  join_closest, classify,
}

module _ (pl : Platform) (laws : WeightLaws pl) (conf : GlobalConfig) where
  open pl use {Double, of_ℕ, div, lt}

  -- The heap of a run of the classification.
  pub record Sound (h : Heap Double) : Type 0 where
    pub consistent : IsConsistent h
    pub weighted : Weighted pl laws conf.use_size h

  -- The node has got a class, old or new, and nothing else of the tree has changed.
  pub record Joined (i : ℕ) (h h' : Heap Double) : Type 0 where
    pub joined_class : ℕ
    pub before : Heap Double
    pub same_nodes : before.node ≡ h.node
    pub same_size : before.num_nodes ≡ h.num_nodes
    pub sound_before : Sound before
    pub classified : Classified joined_class i before h'
    pub sound : Sound h'

  pub new_class-Sound : (h : Heap Double) → Sound h → Sound (new_class pl conf h)
  unfolding new_class
  new_class-Sound h v = record {
    consistent = record {
      tree = record {
        below = v.consistent.tree.below;
        above = v.consistent.tree.above;
        once = v.consistent.tree.once;
        typed = v.consistent.tree.typed;
      };
      counted = v.consistent.counted;
      listed = λ i c. elim (Bool-cases (h.num_classes == c)) [
        | inl e ↦ (
          (λ q. let lt = v.consistent.allocated i c q in absurd (ground arith)),
          (λ m. absurd (ground arith)),
        )
        | inr e ↦ rw e (v.consistent.listed i c)
      ];
      listed_once = λ c. elim (Bool-cases (h.num_classes == c)) [
        | inl e ↦ rw e tt
        | inr e ↦ rw e (v.consistent.listed_once c)
      ];
      closed = v.consistent.closed;
      allocated = λ i c e. omega (arith, v.consistent.allocated i c e);
    };
    weighted = λ c. elim (Bool-cases (h.num_classes == c)) [
      | inl e ↦ rw e (laws.of_ℕ-IsWeight 0)
      | inr e ↦ rw e (v.weighted c)
    ];
  }

  add_node-Joined :
      (c i : ℕ) (h h0 : Heap Double)
      → h0.node ≡ h.node
      → h0.num_nodes ≡ h.num_nodes
      → Sound h0
      → (h0.node i).not_evaluated_children ≡ 0
      → (h0.node i).eq_class ≡ none
      → c < h0.num_classes
      → Returns
          (add_node pl conf.use_size c i h0)
          (λ h'. Joined i h h' × ((h'.node i).eq_class ≡ some c))
  add_node-Joined c i h h0 same size v r e lt =
      let (h', d, done) =
        Returns-some (add_node pl conf.use_size c i h0) _
          (add_node-IsConsistent pl conf.use_size c i h0 v.consistent r e lt) in
      subst (λ m. Returns m (λ h1. Joined i h h1 × ((h1.node i).eq_class ≡ some c))) (sym d)
        (
          record {
            joined_class = c;
            before = h0;
            same_nodes = same;
            same_size = size;
            sound_before = v;
            classified = done.0;
            sound = record {
              consistent = done.1;
              weighted = add_node-Weighted pl laws conf.use_size c i h0 h' v.weighted d;
            };
          },
          done.0.hit,
        )

  module _ (h : Heap Double) (v : Sound h) (ref : ℕ)
      (r : (h.node ref).not_evaluated_children ≡ 0) where
    -- The distance to a candidate can be computed.
    Candidate-IsSmall :
        (x : ℕ)
        → Candidate h ref x
        → Returns
            (node_distance pl conf.use_size h ref x)
            (IsSmall pl laws conf.use_size h v.weighted)
    Candidate-IsSmall x (ne, (c, q), (e, up)) =
        let t = v.consistent.tree in
        let r' = v.consistent.closed x c q in
        node_distance-IsSmall pl laws conf.use_size h v.weighted ref x r r'
          (sym (v.consistent.counted ref) ∙ r) (sym (v.consistent.counted x) ∙ r')
          (t.typed x e (t.above x e up))

    closest_from-In :
        (xs : List ℕ) (m : ℕ) (d : Double)
        → Candidates h ref xs
        → Returns (closest_from pl conf h ref (m, d) xs) (λ b. (b.0 ≡ m) ⊎ In b.0 xs)
    unfolding closest_from
    closest_from-In [] m d k = inl refl
    closest_from-In (x ∷ xs) m d k =
        let (dist, e, small) =
          Returns-some (node_distance pl conf.use_size h ref x)
            (IsSmall pl laws conf.use_size h v.weighted) (Candidate-IsSmall x (k x (inl refl))) in
        let now = k x (inl refl) in
        let there = now.1.1 in
        Returns-assert {b = not (x == ref)} _ _ (let ne = now.0 in ground arith) (
          Returns-assert {b = is_evaluated (h.node x)} _ _ (ground arith) (
            Returns-bind _ _ e (
              Returns-assert _ _ small (elim (Bool-cases (lt dist d)) [
                | inl l ↦ rw l (
                    Returns-map (closest_from pl conf h ref (x, dist) xs) _ _ (λ b. inr)
                      (closest_from-In xs x dist (λ p i. k p (inr i))))
                | inr l ↦ rw l (
                    Returns-map (closest_from pl conf h ref (m, d) xs) (λ b. (b.0 ≡ m) ⊎ In b.0 xs)
                      _ (λ b s. elim s [ inl same ↦ inl same | inr there ↦ inr (inr there) ])
                      (closest_from-In xs m d (λ p i. k p (inr i))))
              ]))))

    -- The closest of at least one candidate is a candidate.
    get_closest_node-In :
        (x : ℕ) (xs : List ℕ)
        → Candidates h ref (x ∷ xs)
        → Returns (get_closest_node pl conf h ref (x ∷ xs)) (λ b. In b.0 (x ∷ xs))
    unfolding get_closest_node
    get_closest_node-In x xs k =
        let (dist, e, small) =
          Returns-some (node_distance pl conf.use_size h ref x)
            (IsSmall pl laws conf.use_size h v.weighted) (Candidate-IsSmall x (k x (inl refl))) in
        Returns-bind _ _ e (closest_from-In xs x dist (λ p i. k p (inr i)))

  module _ (i : ℕ) (s : Classes pl conf) (v : Sound s.heap) where
    abbrev Joins : Option (Classes pl conf) → Type 0
    Joins m = Returns m (λ s'. Joined i s.heap s'.heap × (Listed pl conf s → Listed pl conf s'))

    module _ (r : (s.heap.node i).not_evaluated_children ≡ 0)
        (e : (s.heap.node i).eq_class ≡ none) where
      fresh-Joined :
          Returns
            (add_node pl conf.use_size s.heap.num_classes i (new_class pl conf s.heap))
            (λ h'. Joined i s.heap h' × ((h'.node i).eq_class ≡ some s.heap.num_classes))
      unfolding new_class
      fresh-Joined =
          add_node-Joined s.heap.num_classes i s.heap (new_class pl conf s.heap) refl refl
            (new_class-Sound s.heap v) r e (omega arith)

      joins-Listed :
          (c : ℕ) (s' : Classes pl conf)
          → Joined i s.heap s'.heap
          → (s'.heap.node i).eq_class ≡ some c
          → ((d : ℕ) → In d s'.eq_classes ↔ (In d s.eq_classes ⊎ (d ≡ c)))
          → Listed pl conf s
          → Listed pl conf s'
      joins-Listed c s' j hit = gets-Listed pl conf i c s s' e hit (λ x ne.
          j.classified.others x ne ∙ ap (λ (f : ℕ → Node Double). (f x).eq_class) j.same_nodes)

      add_to_new_class-Joined : Joins (add_to_new_class pl conf i s)
      unfolding add_to_new_class
      add_to_new_class-Joined =
          let (h', d, (j, hit)) =
            Returns-some (add_node pl conf.use_size s.heap.num_classes i (new_class pl conf s.heap))
              _ fresh-Joined in
          Returns-bind _ _ d (
            j,
            joins-Listed s.heap.num_classes _ j hit (λ c. (
              (λ m. elim (In-append c s.eq_classes (s.heap.num_classes ∷ []) m) [
                | inl old ↦ inl old
                | inr (inl same) ↦ inr same
                | inr (inr none_left) ↦ absurd none_left
              ]),
              (λ o. elim o [
                | inl old ↦ In-append_left c s.eq_classes (s.heap.num_classes ∷ []) old
                | inr same ↦ In-append_right c s.eq_classes (s.heap.num_classes ∷ []) (inl same)
              ]),
            )),
          )

      add_to_class_of-Joined :
          (m : ℕ) → Candidate s.heap i m → Joins (add_to_class_of pl conf m i s)
      unfolding add_to_class_of
      add_to_class_of-Joined m (ne, (c, q), up) =
          let (h', d, (j, hit)) =
            Returns-some (add_node pl conf.use_size c i s.heap) _
              (add_node-Joined c i s.heap s.heap refl refl v r e (v.consistent.allocated m c q)) in
          Returns-bind _ _ q (
            Returns-bind _ _ d (
              j,
              λ l.
                  joins-Listed c _ j hit
                    (λ a. (
                      inl,
                      λ o. elim o [
                        | inl old ↦ old
                        | inr same ↦ (l a).1 (m, q ∙ ap some (sym same))
                      ],
                    ))
                    l,
            ))

      join_closest-Joined :
          (ps : List ℕ) → Candidates s.heap i ps → Joins (join_closest pl conf i ps s)
      unfolding join_closest
      join_closest-Joined [] k = add_to_new_class-Joined
      join_closest-Joined (p ∷ ps) k =
          let (best, d, there) =
            Returns-some (get_closest_node pl conf s.heap i (p ∷ ps)) _
              (get_closest_node-In s.heap v i r p ps k) in
          Returns-bind _ _ d (elim (Bool-cases (tolerable pl conf best.1)) [
            | inl t ↦ rw t (add_to_class_of-Joined best.0 (k best.0 there))
            | inr t ↦ rw t add_to_new_class-Joined
          ])

      -- A ready node without a class gets one.
      pub classify-Joined : Joins (classify pl conf i s)
      unfolding classify
      classify-Joined =
          let (ps, d, k) = get_possible_equivalents-Candidates pl s.heap i v.consistent r in
          Returns-bind _ _ d (join_closest-Joined ps k)
