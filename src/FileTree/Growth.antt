-- ===== src/FileTree/Growth.antt =====
-- A tree that grows by AddChild stays a tree. src/file_tree.cpp.
use dupa.Base.{
  ℕ, suc, length, length-append, ◌⊎◌, ◌<◌, ◌≡◌, ◌≢◌, inl, inr, refl, sym, ap, ◌∙◌, subst, true,
  false, String, none, some, [], ◌∷◌, ◌++◌, ◌==◌, ==_iff, if◌then◌else◌, In, In-append,
  In-append_left, In-append_right, Distinct, arith,
}
use dupa.FileTree.Store.{NodeType, is_dir, Heap}
use dupa.FileTree.{add_child}
use dupa.FileTree.AddChild.{Linked, add_child-Linked, Allocated}
use dupa.FileTree.Evaluation.{ℕ-cases}
use dupa.FileTree.Invariant.{Returns, Returns-map}
use dupa.FileTree.Growing.{Distinct-append_one, IsNew, open_count-length, Allocated-IsNew}

module _ {D : Type 0} where
  module _ (p c : ℕ) (h h' : Heap D) (k : Linked p c h h') where
    -- A node's children, the parent's or another's.
    kids :
        (q : ℕ)
        → ((p ≡ q) × ((h'.node q).children ≡ (h.node p).children ++ c ∷ []))
          ⊎ ((p ≢ q) × ((h'.node q).children ≡ (h.node q).children))
    kids q = elim (ℕ-cases p q) [
      | inl same ↦ inl (same, ground (arith, k.children q, ==_iff p q))
      | inr ne ↦ inr (ne, ground (arith, k.children q, ==_iff p q))
    ]

    old_or_new :
        (q x : ℕ) → In x (h'.node q).children → In x (h.node q).children ⊎ ((p ≡ q) × (x ≡ c))
    old_or_new q x m = elim (kids q) [
      | inl (same, e) ↦ elim (In-append x (h.node p).children (c ∷ []) (subst (In x) e m)) [
        | inl i ↦ inl (subst (λ r. In x (h.node r).children) same i)
        | inr (inl d) ↦ inr (same, d)
        | inr (inr i) ↦ absurd i
      ]
      | inr (ne, e) ↦ inl (subst (In x) e m)
    ]

    kids-In : (q x : ℕ) → In x (h.node q).children → In x (h'.node q).children
    kids-In q x i = elim (kids q) [
      | inl (same, f) ↦ subst (In x) (sym f) (
          In-append_left x (h.node p).children (c ∷ [])
            (subst (λ r. In x (h.node r).children) (sym same) i))
      | inr (_, f) ↦ subst (In x) (sym f) i
    ]

    new_kid-In : In c (h'.node p).children
    new_kid-In = elim (kids p) [
      | inl (_, f) ↦
          subst (In c) (sym f) (In-append_right c (h.node p).children (c ∷ []) (inl refl))
      | inr (ne, _) ↦ absurd (ne refl)
    ]

  Linked-IsNew :
      (p c : ℕ) (h h' : Heap D)
      → IsNew h
      → p < c
      → c < h.num_nodes
      → (h.node c).parent ≡ none
      → is_dir (h.node p).type ≡ true
      → Linked p c h h'
      → IsNew h'
  Linked-IsNew p c h h' v lt in_heap orphan d k =
      let unclassified' : (i : ℕ) → (h'.node i).eq_class ≡ none =
        λ i. k.eq_classes i ∙ v.unclassified i in
      let new_child : ¬ In c (h.node p).children =
        λ m. let b = v.tree.below p c m in ground (arith, b.2) in
      let parent_of : (q x : ℕ) → In x (h.node q).children → (h'.node x).parent ≡ some q =
        λ q x m. let b = v.tree.below q x m in ground (arith, k.parents x, ==_iff c x, b.2) in
      let count : (q : ℕ) → (h.node q).not_evaluated_children ≡ length (h.node q).children =
        λ q. v.counted q ∙ open_count-length h (h.node q).children v.unclassified in
      record {
        tree = record {
          below = λ q x m. elim (old_or_new p c h h' k q x m) [
            | inl i ↦
                let b = v.tree.below q x i in
                (b.0, subst (λ n. x < n) (sym k.num_nodes) b.1, parent_of q x i)
            | inr (same, e) ↦ (
              omega (arith, lt, same, e),
              subst (λ n. x < n) (sym k.num_nodes) (omega (arith, in_heap, e)),
              ground (arith, k.parents x, ==_iff c x),
            )
          ];
          above = λ q x e. elim (ℕ-cases x c) [
            | inl same ↦
                let parent : p ≡ q = ground (arith, k.parents x, ==_iff c x) in
                subst (λ r. In x (h'.node r).children) parent
                  (subst (λ y. In y (h'.node p).children) (sym same) (new_kid-In p c h h' k))
            | inr other ↦
                kids-In p c h h' k q x (v.tree.above q x (ground (arith, k.parents x, ==_iff c x)))
          ];
          once = λ q. elim (kids p c h h' k q) [
            | inl (same, f) ↦
                subst Distinct (sym f)
                  (Distinct-append_one (h.node p).children c (v.tree.once p) new_child)
            | inr (ne, f) ↦ subst Distinct (sym f) (v.tree.once q)
          ];
          typed = λ q x m. ap is_dir (k.types q) ∙ elim (old_or_new p c h h' k q x m) [
            | inl i ↦ v.tree.typed q x i
            | inr (same, _) ↦ subst (λ r. is_dir (h.node r).type ≡ true) same d
          ];
        };
        counted = λ q.
            let now : (h'.node q).not_evaluated_children ≡ length (h'.node q).children =
              elim (kids p c h h' k q) [
                | inl (same, f) ↦ ground (
                  arith,
                  k.counters q,
                  ==_iff p q,
                  count p,
                  ap (λ xs. length xs) f,
                  length-append (h.node p).children (c ∷ []),
                )
                | inr (ne, f) ↦
                    ground (arith, k.counters q, ==_iff p q, count q, ap (λ xs. length xs) f)
              ] in
            now ∙ sym (open_count-length h' (h'.node q).children unclassified');
        unclassified = unclassified';
        no_members = λ x. ap (λ f. (f x).nodes) k.same_classes ∙ v.no_members x;
      }

  -- The heap has one node more, a child of `p`, and its other nodes differ in their children alone.
  pub record Attached (p : ℕ) (type : NodeType) (name : String) (size : ℕ) (h h' : Heap D)
      : Type 0 where
    pub num_nodes : h'.num_nodes ≡ suc h.num_nodes
    pub same_classes : h'.class_at ≡ h.class_at
    pub num_classes : h'.num_classes ≡ h.num_classes
    pub same_parent : (j : ℕ) → j ≢ h.num_nodes → (h'.node j).parent ≡ (h.node j).parent
    pub same_type : (j : ℕ) → j ≢ h.num_nodes → (h'.node j).type ≡ (h.node j).type
    pub same_size : (j : ℕ) → j ≢ h.num_nodes → (h'.node j).size ≡ (h.node j).size
    pub same_name : (j : ℕ) → j ≢ h.num_nodes → (h'.node j).name ≡ (h.node j).name
    pub new_parent : (h'.node h.num_nodes).parent ≡ some p
    pub new_type : (h'.node h.num_nodes).type ≡ type
    pub new_size : (h'.node h.num_nodes).size ≡ size
    pub new_name : (h'.node h.num_nodes).name ≡ name

  -- A node that is allocated and given to AddChild of a directory.
  pub add_child-Attached :
      (p : ℕ) (type : NodeType) (name : String) (size : ℕ) (h h1 : Heap D)
      → IsNew h
      → p < h.num_nodes
      → is_dir (h.node p).type ≡ true
      → Allocated type name size h h1
      → Returns (add_child p h.num_nodes h1) (λ h'. IsNew h' × Attached p type name size h h')
  add_child-Attached p type name size h h1 v lt d a =
      let n = h.num_nodes in
      let ne : p ≢ n = λ e. omega (arith, lt, e) in
      let v1 = Allocated-IsNew type name size h h1 v a in
      let d1 : is_dir (h1.node p).type ≡ true = ap (λ x. is_dir x.type) (a.others p ne) ∙ d in
      let old : (j : ℕ) → j ≢ n → n == j ≡ false = λ j other. ground (arith, ==_iff n j) in
      let same : n == n ≡ true = (==_iff n n).1 refl in
      Returns-map (add_child p n h1) (Linked p n h1) _
        (λ h' k. (
          Linked-IsNew p n h1 h' v1 lt (subst (λ m. n < m) (sym a.num_nodes) (omega arith))
              a.no_parent d1 k,
          record {
            num_nodes = k.num_nodes ∙ a.num_nodes;
            same_classes = k.same_classes ∙ a.same_classes;
            num_classes = k.num_classes ∙ a.num_classes;
            same_parent = λ j other.
                k.parents j
                ∙ (ap (λ b. if b then some p else (h1.node j).parent) (old j other)
                    ∙ ap (λ x. x.parent) (a.others j other));
            same_type = λ j other. k.types j ∙ ap (λ x. x.type) (a.others j other);
            same_size = λ j other. k.sizes j ∙ ap (λ x. x.size) (a.others j other);
            same_name = λ j other. k.names j ∙ ap (λ x. x.name) (a.others j other);
            new_parent = k.parents n ∙ ap (λ b. if b then some p else (h1.node n).parent) same;
            new_type = k.types n ∙ a.new_type;
            new_size = k.sizes n ∙ a.new_size;
            new_name = k.names n ∙ a.new_name;
          },
        ))
        (add_child-Linked p n h1 (λ e. ne (sym e)) (v1.unclassified p) a.no_parent a.no_class d1)
