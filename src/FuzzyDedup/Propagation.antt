-- ===== src/FuzzyDedup/Propagation.antt =====
-- PropagateEquivalence's loop as a whole. src/fuzzy_dedup.cpp.
use dupa.Base.{
  ℕ, zero, suc, ◌+◌, ◌≤◌, ◌<◌, ◌≡◌, inl, inr, refl, sym, ap, ◌∙◌, subst, true, not, Option, none,
  some, List, [], ◌∷◌, ◌++◌, ◌==◌, arith, Platform, Bool-cases,
}
use mathlib.Core.List.{append-nil}
use dupa.Conf.{GlobalConfig}
use dupa.FileTree.Store.{Node, Heap, is_ready_to_evaluate, is_evaluated}
use dupa.FileTree.Invariant.{
  Returns, Returns-assert, Returns-bind, Returns-map, Returns-some, open_count,
}
use dupa.FileTree.AddNode.{open_count-pos, parent_open}
use dupa.FileTree.Weights.{WeightLaws}
use dupa.FuzzyDedup.{
  Classes, classify, parent_not_ready, ready_parent, propagate_step, propagate_loop,
}
use dupa.FuzzyDedup.Listing.{Listed}
use dupa.FuzzyDedup.Classify.{Sound, Joined, classify-Joined}
use dupa.FuzzyDedup.Loop.{
  below, below-In, IsQueue, unevaluated, IsQueue-nil, Classified-unevaluated, IsQueue-kept,
  IsQueue-pushed,
}

open_count-node :
    {D : Type 0} (h h' : Heap D) (xs : List ℕ)
    → h.node ≡ h'.node
    → open_count h xs ≡ open_count h' xs
open_count-node h h' [] e = refl
open_count-node h h' (x ∷ xs) e = let rest = open_count-node h h' xs e in rw (e, rest)

module _ (pl : Platform) (laws : WeightLaws pl) (conf : GlobalConfig) where
  open pl use {Double}

  -- What a round leaves behind.
  record Advanced (i : ℕ) (q : List ℕ) (h : Heap Double) (pushed : List ℕ) (h' : Heap Double)
      : Type 0 where
    sound : Sound pl laws conf h'
    queue : IsQueue (q ++ pushed) h'
    fewer : unevaluated h' + 1 ≡ unevaluated h
    size : h'.num_nodes ≡ h.num_nodes
    same_type : (x : ℕ) → (h'.node x).type ≡ (h.node x).type
    same_children : (x : ℕ) → (h'.node x).children ≡ (h.node x).children
    kept : (x c : ℕ) → (h.node x).eq_class ≡ some c → (h'.node x).eq_class ≡ some c

  module _ (i : ℕ) (q : List ℕ) (h h' : Heap Double) (w : IsQueue (i ∷ q) h)
      (j : Joined pl laws conf i h h') where
    IsQueue-before : IsQueue (i ∷ q) j.before
    IsQueue-before = record { once = w.once; waits = rw (j.same_nodes, j.same_size) w.waits }

    pushed-IsQueue :
        (o : Option ℕ) → (h'.node i).parent ≡ o → IsQueue (q ++ ready_parent pl conf h' o) h'
    unfolding ready_parent
    pushed-IsQueue none e =
        let up : (j.before.node i).parent ≡ none = sym (j.classified.same_parent i) ∙ e in
        rw (append-nil q) (
          IsQueue-kept j.classified j.sound_before.consistent
            ((IsQueue-before.waits i).0 (inl refl)) q (λ p u. absurd (ground arith)) IsQueue-before)
    pushed-IsQueue (some p) e =
        let up : (j.before.node i).parent ≡ some p = sym (j.classified.same_parent i) ∙ e in
        let first = (IsQueue-before.waits i).0 (inl refl) in
        elim (Bool-cases ((h'.node p).not_evaluated_children == 0)) [
          | inl r ↦ rw r (
              IsQueue-pushed j.classified j.sound_before.consistent first q p up (ground arith)
                IsQueue-before)
          | inr r ↦
              rw (r, append-nil q)
                (IsQueue-kept j.classified j.sound_before.consistent first q
                  (λ a u z. let same : some p ≡ some a = sym up ∙ u in ground arith) IsQueue-before)
        ]

    Joined-Advanced : Advanced i q h (ready_parent pl conf h' (h'.node i).parent) h'
    Joined-Advanced = record {
      sound = j.sound;
      queue = pushed-IsQueue (h'.node i).parent refl;
      fewer =
          Classified-unevaluated j.classified j.sound_before.consistent
            ((IsQueue-before.waits i).0 (inl refl))
          ∙ open_count-node j.before h (below j.before.num_nodes) j.same_nodes
          ∙ ap (λ n. open_count h (below n)) j.same_size;
      size = j.classified.size ∙ j.same_size;
      same_type =
          λ x. j.classified.same_type x ∙ ap (λ (f : ℕ → Node Double). (f x).type) j.same_nodes;
      same_children = λ x.
          j.classified.same_children x ∙ ap (λ (f : ℕ → Node Double). (f x).children) j.same_nodes;
      kept = λ x c e.
          j.classified.others x (λ same.
            let none_yet = ((w.waits i).0 (inl refl)).2 in
            let e' = subst (λ z. (h.node z).eq_class ≡ some c) same e in cc)
          ∙ (ap (λ (f : ℕ → Node Double). (f x).eq_class) j.same_nodes ∙ e);
    }

  -- A round on the first node of the queue.
  propagate_step-Advanced :
      (i : ℕ) (q : List ℕ) (s : Classes pl conf)
      → Sound pl laws conf s.heap
      → IsQueue (i ∷ q) s.heap
      → Returns
          (propagate_step pl conf i s)
          (λ r. Advanced i q s.heap r.0 r.1.heap × (Listed pl conf s → Listed pl conf r.1))
  unfolding propagate_step
  propagate_step-Advanced i q s v w =
      let (lt, r, e) = (w.waits i).0 (inl refl) in
      let (s', d, (j, l)) =
        Returns-some (classify pl conf i s) _ (classify-Joined pl laws conf i s v r e) in
      Returns-assert {b = is_ready_to_evaluate (s.heap.node i)} _ _ (ground arith) (
        Returns-assert {b = not (is_evaluated (s.heap.node i))} _ _ (ground arith) (
          Returns-assert _ _ (parent_waits (s.heap.node i).parent refl e)
            (Returns-bind _ _ d (Joined-Advanced i q s.heap s'.heap w j, l))))
    where
      parent_waits :
          (o : Option ℕ)
          → (s.heap.node i).parent ≡ o
          → (s.heap.node i).eq_class ≡ none
          → parent_not_ready pl conf s.heap o ≡ true
      parent_waits none u e = refl
      parent_waits (some p) u e =
          let (ne, pos) = parent_open s.heap i v.consistent e p u in ground arith

  -- What the loop leaves: a sound heap with the same tree, in which every node has a class, its old one
  -- if it had one.
  pub record AllClassified (h h' : Heap Double) : Type 0 where
    pub sound : Sound pl laws conf h'
    pub size : h'.num_nodes ≡ h.num_nodes
    pub same_type : (x : ℕ) → (h'.node x).type ≡ (h.node x).type
    pub same_children : (x : ℕ) → (h'.node x).children ≡ (h.node x).children
    pub kept : (x c : ℕ) → (h.node x).eq_class ≡ some c → (h'.node x).eq_class ≡ some c
    pub all : (i : ℕ) → i < h.num_nodes → is_evaluated (h'.node i) ≡ true

  -- From a sound heap and a queue that holds exactly the nodes that wait, on fuel for as many rounds
  -- as there are nodes without a class, the loop ends, no assertion fails, and every node of the tree
  -- has a class.
  pub propagate_loop-AllClassified :
      (fuel : ℕ) (q : List ℕ) (s : Classes pl conf)
      → Sound pl laws conf s.heap
      → IsQueue q s.heap
      → unevaluated s.heap ≤ fuel
      → Returns
          (propagate_loop pl conf fuel q s)
          (λ s'. AllClassified s.heap s'.heap × (Listed pl conf s → Listed pl conf s'))
  unfolding propagate_loop
  propagate_loop-AllClassified fuel [] s v w b = (
    record {
      sound = v;
      size = refl;
      same_type = λ x. refl;
      same_children = λ x. refl;
      kept = λ x c e. e;
      all = IsQueue-nil s.heap v.consistent w;
    },
    λ l. l,
  )
  propagate_loop-AllClassified zero (i ∷ q) s v w b =
      let (lt, r, e) = (w.waits i).0 (inl refl) in
      let pos =
        open_count-pos s.heap i (below s.heap.num_nodes) e ((below-In s.heap.num_nodes i).1 lt) in
      absurd (omega (arith, b, pos))
  propagate_loop-AllClassified (suc fuel) (i ∷ q) s v w b =
      let ((pushed, s'), d, (k, l)) =
        Returns-some (propagate_step pl conf i s) _ (propagate_step-Advanced i q s v w) in
      Returns-bind _ _ d (
        Returns-map (propagate_loop pl conf fuel (q ++ pushed) s')
          (λ s''. AllClassified s'.heap s''.heap × (Listed pl conf s' → Listed pl conf s'')) _
          (λ s'' y.
            let (z, l') = y in
            (
              record {
                sound = z.sound;
                size = z.size ∙ k.size;
                same_type = λ x. z.same_type x ∙ k.same_type x;
                same_children = λ x. z.same_children x ∙ k.same_children x;
                kept = λ x c e. z.kept x c (k.kept x c e);
                all = λ x lt. z.all x (rw k.size lt);
              },
              λ listed. l' (l listed),
            ))
          (propagate_loop-AllClassified fuel (q ++ pushed) s' k.sound k.queue
            (omega (arith, b, k.fewer))))
