-- ===== src/FuzzyDedup/Building.antt =====
-- The tree while ScanDirectory builds it from a database. src/fuzzy_dedup.cpp.
use dupa.Base.{
  ℕ, ◌<◌, ◌≡◌, ◌≢◌, ◌⊎◌, inl, inr, refl, sym, ap, ◌∙◌, subst, true, String, some, List, [], ◌∷◌,
  ◌++◌, In, In-append, In-append_left, In-append_right, Distinct, map, In-map, arith,
}
use mathlib.Core.List.{map-append}
use dupa.FileTree.Store.{NodeType, dir, file, is_dir, Heap}
use dupa.FileTree.Growing.{IsNew, Distinct-append_one}
use dupa.FileTree.Growth.{Attached}
use dupa.FileTree.Evaluation.{ℕ-cases}
use dupa.FileTree.Traversal.{Rooted}
use dupa.HashCache.{FileInfo}
use dupa.Scanner.FilePaths.{Paths}
use dupa.Scanner.Dirs.{dir_of}
use dupa.FuzzyDedup.Tree.{TreeCtor}

abbrev pub node_of : ℕ × ℕ → ℕ
node_of r = r.1

module _ (ps : Paths) where
  open ps use {elements, of_native, native, single, filename}

  -- The file and the directories on its path have names.
  abbrev pub IsNamed : String × FileInfo → Type 0
  IsNamed x =
      (native (filename (filename (of_native x.0))) ≢ "")
      × ((e : String) → In e (elements (dir_of ps x)) → native (filename (single e)) ≢ "")

module _ (ps : Paths) {D : Type 0} where
  open ps use {elements, of_native, native, single, filename}

  -- The node stands for the file.
  abbrev pub StandsFor : Heap D → String × FileInfo → ℕ × ℕ → Type 0
  StandsFor h x r =
      (r.0 ≡ x.1.sum)
      × (r.1 < h.num_nodes)
      × ((h.node r.1).type ≡ file)
      × ((h.node r.1).size ≡ x.1.size)
      × ((h.node r.1).name ≡ native (filename (filename (of_native x.0))))

  -- The tree so far, when the files of `rest` are still to come.
  pub record Scanned (db rest : List (String × FileInfo)) (s : TreeCtor D) : Type 0 where
    pub is_new : IsNew s.heap
    pub has_root : s.root ≡ some 0
    pub rooted : Rooted s.heap 0
    pub remain : (x : String × FileInfo) → In x rest → In x db
    pub recorded :
        (x : String × FileInfo)
        → In x db
        → In x rest ⊎ ((r : ℕ × ℕ) × In r s.sum2node × StandsFor s.heap x r)
    pub only_files :
        (r : ℕ × ℕ) → In r s.sum2node → (x : String × FileInfo) × In x db × StandsFor s.heap x r
    pub once : Distinct (map node_of s.sum2node)

  abbrev pub IsHandle : ℕ → TreeCtor D → Type 0
  IsHandle g s = (g < s.heap.num_nodes) × (is_dir (s.heap.node g).type ≡ true)

  module _ (p : ℕ) (type : NodeType) (name : String) (size : ℕ) (h h' : Heap D)
      (k : Attached p type name size h h') where
    Attached-StandsFor : (x : String × FileInfo) (r : ℕ × ℕ) → StandsFor h x r → StandsFor h' x r
    Attached-StandsFor x r (sum, lt, t, z, w) =
        let ne : r.1 ≢ h.num_nodes = λ e. omega (arith, lt, e) in
        (
          sum,
          subst (λ n. r.1 < n) (sym k.num_nodes) (omega (arith, lt)),
          k.same_type r.1 ne ∙ t,
          k.same_size r.1 ne ∙ z,
          k.same_name r.1 ne ∙ w,
        )

    pub Attached-dir :
        (g : ℕ)
        → (g < h.num_nodes) × (is_dir (h.node g).type ≡ true)
        → (g < h'.num_nodes) × (is_dir (h'.node g).type ≡ true)
    Attached-dir g (lt, d) =
        let ne : g ≢ h.num_nodes = λ e. omega (arith, lt, e) in
        (subst (λ n. g < n) (sym k.num_nodes) (omega (arith, lt)), ap is_dir (k.same_type g ne) ∙ d)

    pub Attached-Rooted : Rooted h 0 → Rooted h' 0
    Attached-Rooted (lt, up) = (
      subst (λ n. 0 < n) (sym k.num_nodes) (omega arith),
      λ x below other. elim (ℕ-cases x h.num_nodes) [
        | inl same ↦ (p, subst (λ y. (h'.node y).parent ≡ some p) (sym same) k.new_parent)
        | inr ne ↦
            let (q, e) = up x (omega (arith, below, k.num_nodes, ne)) other in
            (q, k.same_parent x ne ∙ e)
      ],
    )

  module _ (db : List (String × FileInfo)) where
    pub new_file :
        (x : String × FileInfo) (xs : List (String × FileInfo)) (p : ℕ) (s : TreeCtor D)
        (h' : Heap D)
        → Scanned db (x ∷ xs) s
        → IsNew h'
        → Attached p file (native (filename (filename (of_native x.0)))) x.1.size s.heap h'
        → Scanned db xs
            (record s { heap = h'; sum2node = s.sum2node ++ (x.1.sum, s.heap.num_nodes) ∷ [] })
    new_file x xs p s h' v new k =
        let n = s.heap.num_nodes in
        let keep =
          Attached-StandsFor p file (native (filename (filename (of_native x.0)))) x.1.size s.heap
            h' k in
        let stands : StandsFor h' x (x.1.sum, n) = (
          refl,
          subst (λ c. n < c) (sym k.num_nodes) (omega arith),
          k.new_type,
          k.new_size,
          k.new_name,
        ) in
        let entry : ℕ × ℕ = (x.1.sum, n) in
        let last : In entry (s.sum2node ++ entry ∷ []) =
          In-append_right entry s.sum2node (entry ∷ []) (inl refl) in
        record {
          is_new = new;
          has_root = v.has_root;
          rooted =
              Attached-Rooted p file (native (filename (filename (of_native x.0)))) x.1.size s.heap
                h' k v.rooted;
          remain = λ y i. v.remain y (inr i);
          recorded = λ y i. elim (v.recorded y i) [
            | inl (inl same) ↦
                inr (entry, last, subst (λ z. StandsFor h' z entry) (sym same) stands)
            | inl (inr j) ↦ inl j
            | inr (r, j, z) ↦ inr (r, In-append_left r s.sum2node (entry ∷ []) j, keep y r z)
          ];
          only_files = λ r i. elim (In-append r s.sum2node (entry ∷ []) i) [
            | inl j ↦ let (y, l, z) = v.only_files r j in (y, l, keep y r z)
            | inr (inl same) ↦ (x, v.remain x (inl refl), subst (StandsFor h' x) (sym same) stands)
            | inr (inr j) ↦ absurd j
          ];
          once = subst Distinct (sym (map-append node_of s.sum2node (entry ∷ []))) (
              Distinct-append_one (map node_of s.sum2node) n v.once (λ i.
                let (r, j, e) = In-map node_of n s.sum2node i in
                let (y, l, z) = v.only_files r j in omega (arith, z.1, e)));
        }

    pub new_dir :
        (xs : List (String × FileInfo)) (p : ℕ) (name : String) (s : TreeCtor D) (h' : Heap D)
        → Scanned db xs s
        → IsNew h'
        → Attached p dir name 0 s.heap h'
        → Scanned db xs (record s { heap = h' })
    new_dir xs p name s h' v new k =
        let keep = Attached-StandsFor p dir name 0 s.heap h' k in
        record {
          is_new = new;
          has_root = v.has_root;
          rooted = Attached-Rooted p dir name 0 s.heap h' k v.rooted;
          remain = v.remain;
          recorded = λ y i. elim (v.recorded y i) [
            | inl j ↦ inl j
            | inr (r, j, z) ↦ inr (r, j, keep y r z)
          ];
          only_files = λ r i. let (y, l, z) = v.only_files r i in (y, l, keep y r z);
          once = v.once;
        }
