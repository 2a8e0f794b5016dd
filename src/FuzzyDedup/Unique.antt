-- ===== src/FuzzyDedup/Unique.antt =====
-- What CalculateUniqueness returns and writes. src/fuzzy_dedup.cpp.
use dupa.Base.{
  ℕ, zero, suc, ◌+◌, ◌<◌, ◌≤◌, ◌≡◌, ◌≢◌, inl, inr, refl, sym, ap, ◌∙◌, subst, Bool, true, false,
  Option, some, is_some, List, [], ◌∷◌, ◌++◌, In, In-append, In-append_left, In-append_right,
  ==_iff, ◌==◌, if◌then◌else◌, arith, Platform, Option-cases, List-cases,
}
use dupa.FileTree.Store.{NodeType, dir, file, is_dir, Heap, is_evaluated, is_single}
use dupa.FileTree.{get_weight}
use dupa.FileTree.Walk.{concat_map, traverse}
use dupa.FileTree.Evaluation.{ℕ-cases}
use dupa.FileTree.Invariant.{Returns, Returns-assert, Returns-bind, Returns-some, IsTree}
use dupa.FuzzyDedup.Uniqueness.{
  any_outside, has_duplicate_elsewhere, sum_weights, fraction, set_fraction, calculate_children,
  calculate_node, calculate_uniqueness,
}

module _ (pl : Platform) (use_size : Bool) (h0 : Heap pl.Double) where
  open pl use {Double, of_ℕ, add, div, lt, elements}

  -- The heap differs from the first one in fractions alone.
  pub record Same (h : Heap Double) : Type 0 where
    pub same_classes : h.class_at ≡ h0.class_at
    pub children : (j : ℕ) → (h.node j).children ≡ (h0.node j).children
    pub parents : (j : ℕ) → (h.node j).parent ≡ (h0.node j).parent
    pub types : (j : ℕ) → (h.node j).type ≡ (h0.node j).type
    pub eq_classes : (j : ℕ) → (h.node j).eq_class ≡ (h0.node j).eq_class
    pub names : (j : ℕ) → (h.node j).name ≡ (h0.node j).name
    pub sizes : (j : ℕ) → (h.node j).size ≡ (h0.node j).size
    pub counters : (j : ℕ) → (h.node j).not_evaluated_children ≡ (h0.node j).not_evaluated_children
    pub same_nodes : h.num_nodes ≡ h0.num_nodes
    pub same_num_classes : h.num_classes ≡ h0.num_classes

  set_fraction-Same :
      (i : ℕ) (x : Double) (h : Heap Double) → Same h → Same (set_fraction pl use_size i x h)
  set_fraction-Same i x h s = record {
    same_classes = s.same_classes;
    children = λ j. ground (arith, s.children j, ==_iff i j);
    parents = λ j. ground (arith, s.parents j, ==_iff i j);
    types = λ j. ground (arith, s.types j, ==_iff i j);
    eq_classes = λ j. ground (arith, s.eq_classes j, ==_iff i j);
    names = λ j. ground (arith, s.names j, ==_iff i j);
    sizes = λ j. ground (arith, s.sizes j, ==_iff i j);
    counters = λ j. ground (arith, s.counters j, ==_iff i j);
    same_nodes = s.same_nodes;
    same_num_classes = s.same_num_classes;
  }

  -- A file's fraction is 1 if it is alone in its class, and else 0.
  abbrev pub FileDone : ℕ → Heap Double → Type 0
  FileDone x h =
      (c : ℕ)
      → (h0.node x).eq_class ≡ some c
      → (h.node x).unique_fraction ≡ (if is_single (h0.class_at c) then of_ℕ 1 else of_ℕ 0)

  -- No file that is done is undone.
  abbrev Keeps : Heap Double → Heap Double → Type 0
  Keeps h h' = (x : ℕ) → (h0.node x).type ≡ file → FileDone x h → FileDone x h'

  -- The nodes are files of the tree and done.
  pub record Done (visited : List ℕ) (h : Heap Double) (r : List ℕ × Heap Double) : Type 0 where
    pub same : Same r.1
    pub keeps : Keeps h r.1
    pub files :
        (x : ℕ)
        → In x r.0
        → (x < h0.num_nodes) × In x visited × ((h0.node x).type ≡ file) × FileDone x r.1
    pub all_files : (x : ℕ) → In x visited → (h0.node x).type ≡ file → In x r.0

  module _ (evaluated : (x : ℕ) → x < h0.num_nodes → is_evaluated (h0.node x) ≡ true)
      (t : IsTree h0) where
    sum_weights-some :
        (h : Heap Double) (here xs : List ℕ) (sums : Double × Double)
        → Same h
        → ((x : ℕ) → In x xs → x < h0.num_nodes)
        → (r : Double × Double) × (sum_weights pl use_size h here sums xs ≡ some r)
    unfolding sum_weights has_duplicate_elsewhere get_weight
    sum_weights-some h here [] sums s below = (sums, refl)
    sum_weights-some h here (x ∷ xs) sums s below = elim (Option-cases (h.node x).eq_class) [
      | inl e ↦
          let f : is_evaluated (h0.node x) ≡ false = ap is_some (sym (s.eq_classes x) ∙ e) in
          absurd (ground (arith, evaluated x (below x (inl refl))))
      | inr (c, e) ↦
          let (r, d) =
            sum_weights-some h here xs
              (
                add sums.0 (h.class_at c).weight,
                if any_outside here (h.class_at c).nodes
                    then sums.1
                    else add sums.1 (h.class_at c).weight,
              )
              s (λ y i. below y (inr i)) in
          (r, rw (e, get_weight) d)
    ]

    Keeps-trans : (h h1 h2 : Heap Double) → Keeps h h1 → Keeps h1 h2 → Keeps h h2
    Keeps-trans h h1 h2 a b x f d = b x f (a x f d)

    set_fraction-Keeps :
        (i : ℕ) (v : Double) (h : Heap Double)
        → ((h0.node i).type ≡ file
            → (c : ℕ) → (h0.node i).eq_class ≡ some c
            → v ≡ (if is_single (h0.class_at c) then of_ℕ 1 else of_ℕ 0))
        → Keeps h (set_fraction pl use_size i v h)
    set_fraction-Keeps i v h ok x f d c e = elim (ℕ-cases i x) [
      | inl same ↦
          let hit : i == x ≡ true = (==_iff i x).1 same in
          rw hit (
            ok (subst (λ j. (h0.node j).type ≡ file) (sym same) f) c
              (subst (λ j. (h0.node j).eq_class ≡ some c) (sym same) e))
      | inr ne ↦ let miss : i == x ≡ false = ground (arith, ==_iff i x) in rw miss (d c e)
    ]

    -- The loop over the children, when the recursive call is right.
    calculate_children-Done :
        (visit : ℕ → Heap Double → Option (List ℕ × Heap Double)) (below : ℕ → List ℕ) (cs : List ℕ)
        (h : Heap Double)
        → ((c : ℕ) (g : Heap Double) → In c cs → Same g → Returns (visit c g) (Done (below c) g))
        → Same h
        → Returns (calculate_children pl use_size visit cs h) (Done (concat_map below cs) h)
    unfolding calculate_children
    calculate_children-Done visit below [] h k s = record {
      same = s;
      keeps = λ x f d. d;
      files = λ x i. absurd i;
      all_files = λ x i f. absurd i;
    }
    calculate_children-Done visit below (c ∷ cs) h k s =
        let ((xs, h1), d, a) = Returns-some (visit c h) _ (k c h (inl refl) s) in
        let ((ys, h2), e, b) =
          Returns-some (calculate_children pl use_size visit cs h1) _
            (calculate_children-Done visit below cs h1 (λ q g i. k q g (inr i)) a.same) in
        Returns-bind _ _ d (
          Returns-bind _ _ e (record {
            same = b.same;
            keeps = Keeps-trans h h1 h2 a.keeps b.keeps;
            files = λ x i. elim (In-append x xs ys i) [
              | inl j ↦
                  let (lt, m, f, done) = a.files x j in
                  (lt, In-append_left x (below c) (concat_map below cs) m, f, b.keeps x f done)
              | inr j ↦
                  let (lt, m, f, done) = b.files x j in
                  (lt, In-append_right x (below c) (concat_map below cs) m, f, done)
            ];
            all_files = λ x i f. elim (In-append x (below c) (concat_map below cs) i) [
              | inl j ↦ In-append_left x xs ys (a.all_files x j f)
              | inr j ↦ In-append_right x xs ys (b.all_files x j f)
            ];
          }))

    -- A file has no children.
    file-childless : (i : ℕ) → (h0.node i).type ≡ file → (h0.node i).children ≡ []
    file-childless i e = elim (List-cases (h0.node i).children) [
      | inl none_there ↦ none_there
      | inr (c, cs, f) ↦
          let d = t.typed i c (subst (In c) (sym f) (inl refl)) in
          absurd (ground (arith, ap is_dir e))
    ]

    calculate_node-Done :
        (visit : ℕ → Heap Double → Option (List ℕ × Heap Double)) (below : ℕ → List ℕ) (i : ℕ)
        (h : Heap Double) (type : NodeType)
        → ((c : ℕ) (g : Heap Double)
            → In c (h0.node i).children
            → Same g
            → Returns (visit c g) (Done (below c) g))
        → i < h0.num_nodes
        → Same h
        → (h0.node i).type ≡ type
        → Returns
            (calculate_node pl use_size visit i h type)
            (Done (concat_map below (h0.node i).children ++ i ∷ []) h)
    unfolding calculate_node
    calculate_node-Done visit below i h file k lt s e = elim (Option-cases (h.node i).eq_class) [
      | inl open_yet ↦
          let f : is_evaluated (h0.node i) ≡ false = ap is_some (sym (s.eq_classes i) ∙ open_yet) in
          absurd (ground (arith, evaluated i lt))
      | inr (c, d) ↦
          let v : Double = if is_single (h.class_at c) then of_ℕ 1 else of_ℕ 0 in
          let right : (b : ℕ)
              → (h0.node i).eq_class ≡ some b
              → v ≡ (if is_single (h0.class_at b) then of_ℕ 1 else of_ℕ 0) =
            λ b f.
              let same : c ≡ b = ground (arith, s.eq_classes i) in
              ap (λ g. if is_single (g c) then of_ℕ 1 else of_ℕ 0) s.same_classes
              ∙ ap (λ n. if is_single (h0.class_at n) then of_ℕ 1 else of_ℕ 0) same in
          let alone : concat_map below (h0.node i).children ++ i ∷ [] ≡ i ∷ [] =
            ap (λ l. concat_map below l ++ i ∷ []) (file-childless i e) in
          Returns-bind _ _ d (record {
            same = set_fraction-Same i v h s;
            keeps = set_fraction-Keeps i v h (λ _. right);
            files = λ x m. elim m [
              | inl same ↦ (
                subst (λ n. n < h0.num_nodes) (sym same) lt,
                subst (In x) (sym alone) (inl same),
                ap (λ n. (h0.node n).type) same ∙ e,
                subst (λ n. FileDone n (set_fraction pl use_size i v h)) (sym same)
                    (λ b f. rw ((==_iff i i).1 refl) (right b f)),
              )
              | inr none_there ↦ absurd none_there
            ];
            all_files = λ x m f. subst (In x) alone m;
          })
    ]
    calculate_node-Done visit below i h dir k lt s e =
        let ((nodes, h1), d, a) =
          Returns-some (calculate_children pl use_size visit (h.node i).children h) _ (
            subst
              (λ cs.
                Returns (calculate_children pl use_size visit cs h)
                  (Done (concat_map below (h0.node i).children) h))
              (sym (s.children i))
              (calculate_children-Done visit below (h0.node i).children h k s)) in
        let found = elements nodes in
        let (sums, f) =
          sum_weights-some h1 found found (of_ℕ 0, of_ℕ 0) a.same
            (λ x m. (a.files x ((pl.elements-In x nodes).0 m)).0) in
        let not_file : (h0.node i).type ≢ file = λ g. ground (arith, ap is_dir (sym e ∙ g)) in
        let keep = set_fraction-Keeps i (fraction pl use_size sums) h1 (λ g. absurd (not_file g)) in
        Returns-bind _ _ d (
          Returns-bind _ _ f (record {
            same = set_fraction-Same i (fraction pl use_size sums) h1 a.same;
            keeps =
                Keeps-trans h h1 (set_fraction pl use_size i (fraction pl use_size sums) h1) a.keeps
                  keep;
            files = λ x m.
                let (below_x, j, type, done) = a.files x ((pl.elements-In x nodes).0 m) in
                (
                  below_x,
                  In-append_left x (concat_map below (h0.node i).children) (i ∷ []) j,
                  type,
                  keep x type done,
                );
            all_files = λ x m type.
                elim (In-append x (concat_map below (h0.node i).children) (i ∷ []) m) [
                  | inl j ↦ (pl.elements-In x nodes).1 (a.all_files x j type)
                  | inr (inl same) ↦
                      absurd (not_file (ap (λ n. (h0.node n).type) (sym same) ∙ type))
                  | inr (inr j) ↦ absurd j
                ];
          }))

    calculate_uniqueness-Same :
        (fuel i : ℕ) (h : Heap Double)
        → h0.num_nodes ≤ fuel + i
        → i < h0.num_nodes
        → Same h
        → Returns (calculate_uniqueness pl use_size fuel i h) (Done (traverse h0 fuel i) h)
    unfolding calculate_uniqueness traverse
    calculate_uniqueness-Same zero i h b lt s = absurd (omega (arith, b, lt))
    calculate_uniqueness-Same (suc fuel) i h b lt s =
        let now : is_evaluated (h.node i) ≡ true = ap is_some (s.eq_classes i) ∙ evaluated i lt in
        Returns-assert _ _ now (
          calculate_node-Done (calculate_uniqueness pl use_size fuel) (traverse h0 fuel) i h
            (h.node i).type
            (λ c g m same.
              let down = t.below i c m in
              calculate_uniqueness-Same fuel c g (omega (arith, b, down.0)) down.1 same)
            lt s (sym (s.types i)))

-- On a tree all of whose nodes have a class, with fuel for its nodes, CalculateUniqueness fails no
-- assertion and returns exactly the files below the node that it is called for. It changes
-- unique_fraction_ alone, and that of each of these files is then 1 if no other node is in its class,
-- and else 0.
pub calculate_uniqueness-Done :
    (pl : Platform) (use_size : Bool) (h : Heap pl.Double) (i : ℕ)
    → ((x : ℕ) → x < h.num_nodes → is_evaluated (h.node x) ≡ true)
    → IsTree h
    → i < h.num_nodes
    → Returns
        (calculate_uniqueness pl use_size h.num_nodes i h)
        (Done pl use_size h (traverse h h.num_nodes i) h)
calculate_uniqueness-Done pl use_size h i evaluated t lt =
    calculate_uniqueness-Same pl use_size h evaluated t h.num_nodes i h (omega arith) lt (record {
      same_classes = refl;
      children = λ j. refl;
      parents = λ j. refl;
      types = λ j. refl;
      eq_classes = λ j. refl;
      names = λ j. refl;
      sizes = λ j. refl;
      counters = λ j. refl;
      same_nodes = refl;
      same_num_classes = refl;
    })
