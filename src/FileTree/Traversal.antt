-- ===== src/FileTree/Traversal.antt =====
-- Node::Traverse from the root: it visits every node of the tree, once. src/file_tree.cpp.
use dupa.Base.{
  ℕ, zero, suc, ◌≤◌, ◌<◌, ◌≡◌, ◌≢◌, inl, inr, refl, sym, ap, ◌∙◌, subst, Bool, Option, some, List,
  [], ◌∷◌, ◌++◌, In, Distinct, In-append, In-append_left, In-append_right, arith, ◌>>=◌,
  Option-cases, select, In-select,
}
use dupa.FileTree.Store.{Heap}
use dupa.FileTree.Invariant.{IsTree}
use dupa.FileTree.Evaluation.{ℕ-cases}
use dupa.FileTree.Walk.{concat_map, traverse}

Distinct-append :
    (xs ys : List ℕ)
    → Distinct xs
    → Distinct ys
    → ((x : ℕ) → In x xs → ¬ In x ys)
    → Distinct (xs ++ ys)
Distinct-append [] ys a b apart = b
Distinct-append (x ∷ xs) ys a b apart = (
  (λ m. elim (In-append x xs ys m) [ inl l ↦ a.0 l | inr r ↦ apart x (inl refl) r ]),
  Distinct-append xs ys a.1 b (λ z m. apart z (inr m)),
)

In-concat_map :
    (f : ℕ → List ℕ) (x : ℕ) (cs : List ℕ) → In x (concat_map f cs) → (c : ℕ) × In c cs × In x (f c)
In-concat_map f x [] m = absurd m
In-concat_map f x (c ∷ cs) m = elim (In-append x (f c) (concat_map f cs) m) [
  | inl l ↦ (c, inl refl, l)
  | inr r ↦ let (d, i, j) = In-concat_map f x cs r in (d, inr i, j)
]

In-concat_map_of :
    (f : ℕ → List ℕ) (x c : ℕ) (cs : List ℕ) → In c cs → In x (f c) → In x (concat_map f cs)
In-concat_map_of f x c [] m j = absurd m
In-concat_map_of f x c (d ∷ cs) (inl e) j =
    In-append_left x (f d) (concat_map f cs) (subst (λ z. In x (f z)) e j)
In-concat_map_of f x c (d ∷ cs) (inr m) j =
    In-append_right x (f d) (concat_map f cs) (In-concat_map_of f x c cs m j)

pub Distinct-select : (p : ℕ → Bool) (xs : List ℕ) → Distinct xs → Distinct (select p xs)
Distinct-select p [] d = tt
Distinct-select p (x ∷ xs) d =
    let rest = Distinct-select p xs d.1 in
    let new = λ (m : In x (select p xs)). d.0 (In-select p x xs m).0 in ground arith

module _ {D : Type 0} (h : Heap D) where
  -- The ancestor that stands `k` levels above a node.
  abbrev pub climb : ℕ → ℕ → Option ℕ
  climb zero x = some x
  climb (suc k) x = (h.node x).parent >>= climb k

  climb-parent :
      (k x c i : ℕ) → climb k x ≡ some c → (h.node c).parent ≡ some i → climb (suc k) x ≡ some i
  climb-parent zero x c i e u = let same : x ≡ c = ground arith in rw (same, u)
  climb-parent (suc k) x c i e u = elim (Option-cases (h.node x).parent) [
    | inl n ↦ absurd (ground arith)
    | inr (y, q) ↦ rw q (climb-parent k y c i (sym (ap (λ o. o >>= climb k) q) ∙ e) u)
  ]

  -- The last step of a climb.
  climb-child :
      (k x i : ℕ)
      → climb (suc k) x ≡ some i
      → (c : ℕ) × (climb k x ≡ some c) × ((h.node c).parent ≡ some i)
  climb-child zero x i e = (
    x,
    refl,
    elim (Option-cases (h.node x).parent) [
      | inl n ↦ absurd (ground arith)
      | inr (y, q) ↦ ground arith
    ],
  )
  climb-child (suc k) x i e = elim (Option-cases (h.node x).parent) [
    | inl n ↦ absurd (ground arith)
    | inr (y, q) ↦
        let (c, d, u) = climb-child k y i (sym (ap (λ o. o >>= climb (suc k)) q) ∙ e) in
        (c, rw q d, u)
  ]

  -- Every node of the tree but the root has a parent.
  abbrev pub Rooted : ℕ → Type 0
  Rooted root =
      (root < h.num_nodes)
      × ((x : ℕ) → x < h.num_nodes → x ≢ root → (p : ℕ) × ((h.node x).parent ≡ some p))

  module _ (t : IsTree h) where
    pub lower : (x p : ℕ) → (h.node x).parent ≡ some p → p < x
    lower x p u = let b = t.below p x (t.above p x u) in b.0

    climb-le : (k x c : ℕ) → climb k x ≡ some c → c ≤ x
    climb-le zero x c e = ground arith
    climb-le (suc k) x c e = elim (Option-cases (h.node x).parent) [
      | inl n ↦ absurd (ground arith)
      | inr (y, q) ↦
          let down = climb-le k y c (sym (ap (λ o. o >>= climb k) q) ∙ e) in
          let up = lower x y q in omega (arith, down, up)
    ]

    climb_apart :
        (l x c d i : ℕ)
        → climb zero x ≡ some c
        → climb (suc l) x ≡ some d
        → (h.node c).parent ≡ some i
        → (h.node d).parent ≡ some i
        → c ≡ d
    climb_apart l x c d i e f u w =
        let same : x ≡ c = ground arith in
        let q : (h.node x).parent ≡ some i = rw same u in
        let down = climb-le l i d (sym (ap (λ o. o >>= climb l) q) ∙ f) in
        let up = lower d i w in absurd (omega (arith, down, up))

    -- Two children of a node have no common descendant.
    climb_unique :
        (k l x c d i : ℕ)
        → climb k x ≡ some c
        → climb l x ≡ some d
        → (h.node c).parent ≡ some i
        → (h.node d).parent ≡ some i
        → c ≡ d
    climb_unique zero zero x c d i e f u w = ground arith
    climb_unique zero (suc l) x c d i e f u w = climb_apart l x c d i e f u w
    climb_unique (suc k) zero x c d i e f u w = sym (climb_apart k x d c i f e w u)
    climb_unique (suc k) (suc l) x c d i e f u w = elim (Option-cases (h.node x).parent) [
      | inl n ↦ absurd (ground arith)
      | inr (y, q) ↦
          climb_unique k l y c d i (sym (ap (λ o. o >>= climb k) q) ∙ e)
            (sym (ap (λ o. o >>= climb l) q) ∙ f) u w
    ]

    pub traverse-climb : (fuel i x : ℕ) → In x (traverse h fuel i) → (k : ℕ) × (climb k x ≡ some i)
    unfolding traverse
    traverse-climb zero i x m = absurd m
    traverse-climb (suc fuel) i x m =
        elim (In-append x (concat_map (traverse h fuel) (h.node i).children) (i ∷ []) m) [
          | inl l ↦
              let (c, there, n) = In-concat_map (traverse h fuel) x (h.node i).children l in
              let (k, e) = traverse-climb fuel c x n in
              (suc k, climb-parent k x c i e (let b = t.below i c there in b.2))
          | inr l ↦ elim l [ inl e ↦ (0, ap some e) | inr z ↦ absurd z ]
        ]

    pub climb-traverse : (fuel k i x : ℕ) → k < fuel → climb k x ≡ some i → In x (traverse h fuel i)
    unfolding traverse
    climb-traverse zero k i x lt e = absurd (omega arith)
    climb-traverse (suc fuel) zero i x lt e =
        In-append_right x (concat_map (traverse h fuel) (h.node i).children) (i ∷ [])
          (inl (ground arith))
    climb-traverse (suc fuel) (suc k) i x lt e =
        let (c, d, u) = climb-child k x i e in
        In-append_left x (concat_map (traverse h fuel) (h.node i).children) (i ∷ []) (
          In-concat_map_of (traverse h fuel) x c (h.node i).children (t.above i c u)
            (climb-traverse fuel k c x (omega arith) d))

    -- The subtrees of several children of a node, one after the other.
    concat_map-Distinct :
        (fuel i : ℕ) (cs : List ℕ)
        → Distinct cs
        → ((c : ℕ) → In c cs → (h.node c).parent ≡ some i)
        → ((c : ℕ) → Distinct (traverse h fuel c))
        → Distinct (concat_map (traverse h fuel) cs)
    concat_map-Distinct fuel i [] d up each = tt
    concat_map-Distinct fuel i (c ∷ cs) d up each =
        Distinct-append (traverse h fuel c) (concat_map (traverse h fuel) cs) (each c)
          (concat_map-Distinct fuel i cs d.1 (λ a m. up a (inr m)) each)
          (λ x m n.
            let (a, there, m') = In-concat_map (traverse h fuel) x cs n in
            let (k, e) = traverse-climb fuel c x m in
            let (l, f) = traverse-climb fuel a x m' in
            let same = climb_unique k l x c a i e f (up c (inl refl)) (up a (inr there)) in
            d.0 (subst (λ z. In z cs) (sym same) there))

    -- Traverse visits no node twice.
    pub traverse-Distinct : (fuel i : ℕ) → Distinct (traverse h fuel i)
    unfolding traverse
    traverse-Distinct zero i = tt
    traverse-Distinct (suc fuel) i =
        Distinct-append (concat_map (traverse h fuel) (h.node i).children) (i ∷ [])
          (concat_map-Distinct fuel i (h.node i).children (t.once i)
            (λ c m. let b = t.below i c m in b.2) (traverse-Distinct fuel))
          ((λ z. z), tt)
          (λ x m n.
            let (c, there, m') = In-concat_map (traverse h fuel) x (h.node i).children m in
            let (k, e) = traverse-climb fuel c x m' in
            let down = climb-le k x c e in
            let (b, bound, up) = t.below i c there in elim n [ inl same ↦ omega arith | inr z ↦ z ])

    climb-root :
        (root d x : ℕ)
        → Rooted root
        → x ≤ d
        → x < h.num_nodes
        → (k : ℕ) × (k ≤ x) × (climb k x ≡ some root)
    climb-root root zero x r b lt = elim (ℕ-cases x root) [
      | inl same ↦ (0, omega arith, ap some same)
      | inr ne ↦ let (p, u) = r.1 x lt ne in let down = lower x p u in absurd (omega arith)
    ]
    climb-root root (suc d) x r b lt = elim (ℕ-cases x root) [
      | inl same ↦ (0, omega arith, ap some same)
      | inr ne ↦
          let (p, u) = r.1 x lt ne in
          let down = lower x p u in
          let (k, le, e) = climb-root root d p r (omega arith) (omega arith) in
          (suc k, omega arith, rw (u, e))
    ]

    -- Traverse from the root visits exactly the nodes of the tree.
    pub traverse-In :
        (root x : ℕ)
        → Rooted root
        → (In x (traverse h h.num_nodes root) → x < h.num_nodes)
          × (x < h.num_nodes → In x (traverse h h.num_nodes root))
    traverse-In root x r = (
      (λ m. let (k, e) = traverse-climb h.num_nodes root x m in inside k e),
      (λ lt.
          let (k, le, e) = climb-root root x x r (omega arith) lt in
          climb-traverse h.num_nodes k root x (omega arith) e),
    )
      where
        inside : (k : ℕ) → climb k x ≡ some root → x < h.num_nodes
        inside zero e = let b = r.0 in ground arith
        inside (suc k) e = elim (Option-cases (h.node x).parent) [
          | inl n ↦ absurd (ground arith)
          | inr (y, q) ↦ let b = t.below y x (t.above y x q) in b.1
        ]
