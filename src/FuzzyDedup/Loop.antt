-- ===== src/FuzzyDedup/Loop.antt =====
-- PropagateEquivalence's loop: it ends, no assertion fails, and every node has a class then.
-- src/fuzzy_dedup.cpp.
use dupa.Base.{
  ℕ, zero, suc, ◌+◌, ◌≤◌, ◌<◌, ◌≡◌, ◌≢◌, ◌↔◌, inl, inr, refl, sym, ◌∙◌, subst, true, none, some,
  List, [], ◌∷◌, ◌++◌, ◌==◌, In, Distinct, In-append, In-append_left, In-append_right,
  Distinct-append_one, arith, Bool-cases, Option-cases,
}
use dupa.FileTree.Store.{Heap, is_evaluated}
use dupa.FileTree.Invariant.{open_count, IsConsistent, Classified}
use dupa.FileTree.Evaluation.{ℕ-cases, open_count-hit}
use dupa.FileTree.AddNode.{parent_open}

-- The numbers below `n`.
abbrev pub below : ℕ → List ℕ
below zero = []
below (suc n) = n ∷ below n

pub below-In : (n x : ℕ) → In x (below n) ↔ (x < n)
below-In zero x = ((λ m. absurd m), (λ lt. absurd (omega arith)))
below-In (suc n) x = (
  (λ m. elim m [ inl e ↦ omega arith | inr i ↦ let lt = (below-In n x).0 i in omega arith ]),
  (λ lt. elim (ℕ-cases x n) [ inl e ↦ inl e | inr d ↦ inr ((below-In n x).1 (omega arith)) ]),
)

below-Distinct : (n : ℕ) → Distinct (below n)
below-Distinct zero = tt
below-Distinct (suc n) = ((λ m. let lt = (below-In n n).0 m in omega arith), below-Distinct n)

module _ {D : Type 0} where
  -- The nodes that wait for a class: ready, and without one.
  abbrev pub Waiting : Heap D → ℕ → Type 0
  Waiting h i =
      (i < h.num_nodes) × ((h.node i).not_evaluated_children ≡ 0) × ((h.node i).eq_class ≡ none)

  -- The queue holds exactly the nodes that wait, each once.
  pub record IsQueue (q : List ℕ) (h : Heap D) : Type 0 where
    pub once : Distinct q
    pub waits : (i : ℕ) → In i q ↔ Waiting h i

  -- The number of nodes without a class.
  abbrev pub unevaluated : Heap D → ℕ
  unevaluated h = open_count h (below h.num_nodes)

  -- While a node has no class, one that waits is at it or below it.
  some-Waiting :
      (h : Heap D) (d i : ℕ)
      → IsConsistent h
      → h.num_nodes ≤ i + d
      → i < h.num_nodes
      → (h.node i).eq_class ≡ none
      → (j : ℕ) × Waiting h j
  some-Waiting h zero i v b lt e = absurd (omega arith)
  some-Waiting h (suc d) i v b lt e = elim (Bool-cases ((h.node i).not_evaluated_children == 0)) [
    | inl z ↦ (i, (lt, ground arith, e))
    | inr z ↦
        let (c, m, n) = open_child h (h.node i).children (let k = v.counted i in ground arith) in
        let (down, bound, up) = v.tree.below i c m in some-Waiting h d c v (omega arith) bound n
  ]
    where
      open_child :
          (h : Heap D) (xs : List ℕ)
          → open_count h xs ≢ 0
          → (c : ℕ) × In c xs × ((h.node c).eq_class ≡ none)
      open_child h [] ne = absurd (ne refl)
      open_child h (x ∷ xs) ne = elim (Option-cases (h.node x).eq_class) [
        | inl n ↦ (x, inl refl, n)
        | inr (a, q) ↦ let (c, m, n) = open_child h xs (ground arith) in (c, inr m, n)
      ]

  -- With an empty queue every node has a class.
  pub IsQueue-nil :
      (h : Heap D)
      → IsConsistent h
      → IsQueue [] h
      → (i : ℕ) → i < h.num_nodes
      → is_evaluated (h.node i) ≡ true
  IsQueue-nil h v w i lt = elim (Option-cases (h.node i).eq_class) [
    | inl n ↦
        let (j, waiting) = some-Waiting h h.num_nodes i v (omega arith) lt n in
        absurd ((w.waits j).1 waiting)
    | inr (c, q) ↦ rw q
  ]

  module _ {c i : ℕ} {h h' : Heap D} (k : Classified c i h h') (v : IsConsistent h)
      (waiting : Waiting h i) where
    -- Each round leaves one node less without a class.
    pub Classified-unevaluated : unevaluated h' + 1 ≡ unevaluated h
    Classified-unevaluated =
        subst (λ n. open_count h' (below n) + 1 ≡ unevaluated h) (sym k.size)
          (open_count-hit k (below h.num_nodes) waiting.2 (below-Distinct h.num_nodes)
            ((below-In h.num_nodes i).1 waiting.0))

    stays-Waiting : (j : ℕ) → j ≢ i → Waiting h j → Waiting h' j
    stays-Waiting j d (lt, r, e) = (
      subst (λ z. j < z) (sym k.size) lt,
      k.kept j (λ q. let (ne, pos) = parent_open h i v waiting.2 j q in omega (arith, r)) ∙ r,
      k.others j d ∙ e,
    )

    was-Waiting : (j : ℕ) → (h.node i).parent ≢ some j → Waiting h' j → (j ≢ i) × Waiting h j
    was-Waiting j up (lt, r, e) =
        let d : j ≢ i =
          λ same. let q = k.hit in let e' = subst (λ z. (h'.node z).eq_class ≡ none) same e in cc in
        (d, (subst (λ z. j < z) k.size lt, sym (k.kept j up) ∙ r, sym (k.others j d) ∙ e))

    queue_rest : (q : List ℕ) → IsQueue (i ∷ q) h → (j : ℕ) → In j q → Waiting h' j
    queue_rest q w j m =
        stays-Waiting j (λ same. w.once.0 (subst (λ z. In z q) same m)) ((w.waits j).0 (inr m))

    queue_tail :
        (q : List ℕ)
        → IsQueue (i ∷ q) h
        → (j : ℕ) → (h.node i).parent ≢ some j
        → Waiting h' j
        → In j q
    queue_tail q w j up n =
        let (d, n0) = was-Waiting j up n in
        elim ((w.waits j).1 n0) [ inl same ↦ absurd (d same) | inr m ↦ m ]

    -- The queue after a round in which the parent has not become ready.
    pub IsQueue-kept :
        (q : List ℕ)
        → ((p : ℕ) → (h.node i).parent ≡ some p → (h'.node p).not_evaluated_children ≢ 0)
        → IsQueue (i ∷ q) h
        → IsQueue q h'
    IsQueue-kept q busy w = record {
      once = w.once.1;
      waits = λ j. (queue_rest q w j, λ n. queue_tail q w j (λ up. busy j up n.1) n);
    }

    -- The queue after a round in which it has.
    pub IsQueue-pushed :
        (q : List ℕ) (p : ℕ)
        → (h.node i).parent ≡ some p
        → (h'.node p).not_evaluated_children ≡ 0
        → IsQueue (i ∷ q) h
        → IsQueue (q ++ p ∷ []) h'
    IsQueue-pushed q p up r w =
        let (ne, pos) = parent_open h i v waiting.2 p up in
        let busy : ¬ In p q = λ m. let n = ((w.waits p).0 (inr m)).1 in omega (arith, n, pos) in
        let open_parent : (h.node p).eq_class ≡ none = elim (Option-cases (h.node p).eq_class) [
          | inl n ↦ n
          | inr (a, e) ↦ absurd (let z = v.closed p a e in omega (arith, z, pos))
        ] in
        let waits_now : Waiting h' p = (
          subst (λ z. p < z) (sym k.size)
              (let b = v.tree.below p i (v.tree.above p i up) in omega (arith, b.0, b.1)),
          r,
          k.others p (λ same. ne (sym same)) ∙ open_parent,
        ) in
        record {
          once = Distinct-append_one q p w.once.1 busy;
          waits = λ j. (
            (λ m. elim (In-append j q (p ∷ []) m) [
              | inl l ↦ queue_rest q w j l
              | inr l ↦ elim l [
                | inl same ↦ subst (Waiting h') (sym same) waits_now
                | inr z ↦ absurd z
              ]
            ]),
            (λ n. elim (ℕ-cases j p) [
              | inl same ↦ In-append_right j q (p ∷ []) (inl same)
              | inr d ↦ In-append_left j q (p ∷ []) (
                  queue_tail q w j
                    (λ q'. let same : some p ≡ some j = sym up ∙ q' in d (ground arith)) n)
            ]),
          );
        }
