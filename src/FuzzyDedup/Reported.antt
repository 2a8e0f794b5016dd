-- ===== src/FuzzyDedup/Reported.antt =====
-- FuzzyDedup as a whole, and what it reports. src/fuzzy_dedup.cpp.
use dupa.Base.{
  inr, Option-cases, ◌↔◌, Bool, ℕ, ◌<◌, ◌≡◌, inl, refl, sym, ap, ◌∙◌, subst, true, none, some, List,
  [], ◌∷◌, ◌++◌, In, arith, Platform, ◌>>=◌,
}
use dupa.Conf.{GlobalConfig}
use dupa.FileTree.Store.{EqClass, Heap, is_evaluated}
use dupa.FileTree.Invariant.{Returns, Returns-some}
use dupa.FileTree.Weights.{WeightLaws}
use dupa.FileTree.Walk.{traverse}
use dupa.FuzzyDedup.{
  Classes, get_interesting_eq_classes, classify_duplicate_files, classify_empty_dirs,
  propagate_equivalence,
}
use dupa.FuzzyDedup.Classify.{Sound}
use dupa.FuzzyDedup.Files.{classify_duplicate_files-FilesClassified}
use dupa.FuzzyDedup.EmptyDirs.{classify_empty_dirs-EmptyDirsDone}
use dupa.FuzzyDedup.Result.{propagate_equivalence-Listed}
use dupa.FuzzyDedup.Listing.{Listed}
use dupa.FuzzyDedup.Vector.{classify_duplicate_files-Listed, classify_empty-Listed}
use dupa.FuzzyDedup.Interesting.{
  Interesting, get_interesting_eq_classes-Interesting, ParentsClassified,
}
use dupa.FuzzyDedup.Tree.{TreeCtor}
use dupa.FuzzyDedup.Uniqueness.{calculate_uniqueness}
use dupa.FuzzyDedup.Unique.{Done, calculate_uniqueness-Done}
use dupa.FuzzyDedup.Whole.{Std, classify_empty, sort_eq_classes, deduplicate, fuzzy_dedup}
use dupa.FuzzyDedup.Ready.{
  Ready, Ready-Sound, Ready-Leaves, Rooted-files, Rooted-empty, empties_open,
}
use dupa.FuzzyDedup.Deduplicated.{Deduplicated, result-Deduplicated}

module _ (pl : Platform) (laws : WeightLaws pl) (conf : GlobalConfig) (std : Std) where
  open pl use {Double}

  -- What GetInteresingEqClasses needs of the result.
  pub record Reportable (s : Classes pl conf) : Type 0 where
    pub listed : Listed pl conf s
    pub members : (x c : ℕ) → ((s.heap.node x).eq_class ≡ some c) ↔ In x (s.heap.class_at c).nodes
    pub parents_classified : (ns : List ℕ) → ParentsClassified s.heap ns

  -- The classes in the vector.
  classified-Listed :
      (t : TreeCtor Double)
      → Ready pl laws conf std t
      → (s1 : Classes pl conf)
      → classify_duplicate_files pl conf
          (std.ranges t.sum2node)
          (record { heap = t.heap; eq_classes = [] })
        ≡ some s1
      → Listed pl conf s1
  classified-Listed t v s1 d =
      let s0 : Classes pl conf = record { heap = t.heap; eq_classes = [] } in
      let none_yet : Listed pl conf s0 =
        λ c. ((λ m. absurd m), (λ z. absurd (ground (arith, z.1, v.is_new.unclassified z.0)))) in
      subst (λ r. Returns r (Listed pl conf)) d
        (classify_duplicate_files-Listed pl laws conf (std.ranges t.sum2node) s0
          (std.ranges-filled t.sum2node) (Ready-Sound pl laws conf std t v)
          (std.ranges-Distinct t.sum2node v.once) (Ready-Leaves pl laws conf std t v) none_yet)

  result-Reportable :
      (s3 : Classes pl conf) (h4 : Heap Double) (r : List ℕ)
      → Sound pl laws conf s3.heap
      → ((x : ℕ) → x < s3.heap.num_nodes → is_evaluated (s3.heap.node x) ≡ true)
      → Listed pl conf s3
      → Done pl conf.use_size s3.heap (traverse s3.heap s3.heap.num_nodes 0) s3.heap (r, h4)
      → (before : ℕ → ℕ → Bool)
      → Reportable (record { heap = h4; eq_classes = std.sort before s3.eq_classes })
  result-Reportable s3 h4 r sound all l k before = record {
    listed = λ d. (
      λ m.
          let (x, e) = (l d).0 ((std.sort-In before d s3.eq_classes).0 m) in
          (x, k.same.eq_classes x ∙ e),
      λ z.
          (std.sort-In before d s3.eq_classes).1 ((l d).1 (z.0, sym (k.same.eq_classes z.0) ∙ z.1)),
    );
    members = λ x c. (
      λ e.
          subst (λ (cs : ℕ → EqClass Double). In x (cs c).nodes) (sym k.same.same_classes)
            ((sound.consistent.listed x c).0 (sym (k.same.eq_classes x) ∙ e)),
      λ m.
          k.same.eq_classes x
          ∙ (sound.consistent.listed x c).1
              (subst (λ (cs : ℕ → EqClass Double). In x (cs c).nodes) k.same.same_classes m),
    );
    parents_classified = λ ns n p m e.
        let up : (s3.heap.node n).parent ≡ some p = sym (k.same.parents n) ∙ e in
        let (lt, lt', _) = sound.consistent.tree.below p n (sound.consistent.tree.above p n up) in
        let evaluated = all p (omega (arith, lt, lt')) in
        elim (Option-cases (s3.heap.node p).eq_class) [
          | inl open' ↦ absurd (ground (arith, evaluated, open'))
          | inr (c, q) ↦ (c, k.same.eq_classes p ∙ q)
        ];
  }

  deduplicate-Deduplicated :
      (t : TreeCtor Double)
      → Ready pl laws conf std t
      → Returns
          (deduplicate pl conf std 0 t)
          (λ s. Deduplicated pl laws conf std t s.heap × Reportable s)
  unfolding deduplicate classify_empty sort_eq_classes
  deduplicate-Deduplicated t v =
      let s0 : Classes pl conf = record { heap = t.heap; eq_classes = [] } in
      let (s1, d1, k1) =
        Returns-some (classify_duplicate_files pl conf (std.ranges t.sum2node) s0) _ (
          classify_duplicate_files-FilesClassified pl laws conf (std.ranges t.sum2node) s0
            (Ready-Sound pl laws conf std t v) (std.ranges-Distinct t.sum2node v.once)
            (Ready-Leaves pl laws conf std t v)) in
      let rooted1 = Rooted-files pl laws conf std t s1.heap v k1 in
      let ((c, h2), d2, k2) = Returns-some (classify_empty_dirs pl conf 0 s1.heap) _ (
        classify_empty_dirs-EmptyDirsDone pl laws conf 0 s1.heap k1.sound rooted1
          (empties_open pl laws conf std t s1.heap v k1)) in
      let rooted2 =
        Rooted-empty pl laws conf std c s1.heap h2 k1.sound.consistent.tree k2 rooted1 in
      let s2 : Classes pl conf = record {
        heap = h2;
        eq_classes = elim (h2.class_at c).nodes [
          | [] ↦ s1.eq_classes
          | x ∷ xs ↦ s1.eq_classes ++ c ∷ []
        ];
      } in
      let listed2 =
        classify_empty-Listed pl laws conf c s1 h2 (classified-Listed t v s1 d1) k2
          (empties_open pl laws conf std t s1.heap v k1) (h2.class_at c).nodes refl in
      let (s3, d3, (k3, l3)) =
        Returns-some (propagate_equivalence pl conf 0 s2) _
          (propagate_equivalence-Listed pl laws conf 0 s2 k2.sound rooted2) in
      let root3 : 0 < s3.heap.num_nodes = subst (λ n. 0 < n) (sym k3.size) rooted2.0 in
      let ((r, h4), d4, k4) =
        Returns-some (calculate_uniqueness pl conf.use_size s3.heap.num_nodes 0 s3.heap) _ (
          calculate_uniqueness-Done pl conf.use_size s3.heap 0
            (λ x lt. k3.all x (subst (λ n. x < n) k3.size lt)) k3.sound.consistent.tree root3) in
      rw (d1, d2, d3, d4)
        (
          result-Deduplicated pl laws conf std t v s1.heap h2 s3.heap h4 c k1 k2 k3 r k4,
          result-Reportable s3 h4 r k3.sound (λ x lt. k3.all x (subst (λ n. x < n) k3.size lt))
              (l3 listed2) k4 _,
        )

  -- On what a scan leaves, FuzzyDedup meets no failed assertion: in the tree, which is the same, every
  -- node gets a class, two scanned files have the same class exactly if they have the same checksum,
  -- all empty directories have one class, and the unique fraction of each file is 1 if no other node is
  -- in its class, and else 0; and the vector has exactly the classes of the nodes.
  pub fuzzy_dedup-Deduplicated :
      (t : TreeCtor Double)
      → Ready pl laws conf std t
      → (s : Classes pl conf) × (fuzzy_dedup pl conf std t ≡ some (some (0, s)))
        × Deduplicated pl laws conf std t s.heap
        × Reportable s
  unfolding fuzzy_dedup
  fuzzy_dedup-Deduplicated t v =
      let (s, d, k) = Returns-some (deduplicate pl conf std 0 t) _ (deduplicate-Deduplicated t v) in
      (
        s,
        ap
              (λ o. elim o [
                | none ↦ some none
                | some root ↦ deduplicate pl conf std root t >>= (λ z. some (some (root, z)))
              ])
              v.has_root
            ∙ ap (λ o. o >>= (λ z. some (some (0, z)))) d,
        k.0,
        k.1,
      )

  -- On what a scan leaves, FuzzyDedup and then GetInteresingEqClasses meet no failed assertion, and the
  -- classes that are reported are exactly those of two nodes or more in which some node is the root or
  -- has a parent that is alone in its class.
  pub fuzzy_dedup-Interesting :
      (t : TreeCtor Double)
      → Ready pl laws conf std t
      → (s : Classes pl conf) × (found : List ℕ) × (fuzzy_dedup pl conf std t ≡ some (some (0, s)))
        × (get_interesting_eq_classes s.heap s.eq_classes ≡ some found)
        × ((c : ℕ) → In c found ↔ Interesting s.heap c)
  fuzzy_dedup-Interesting t v =
      let (s, ran, _, w) = fuzzy_dedup-Deduplicated t v in
      let (found, got, exact) = Returns-some (get_interesting_eq_classes s.heap s.eq_classes) _ (
        get_interesting_eq_classes-Interesting s.heap s.eq_classes
          (λ c m none_left.
            let (x, e) = (w.listed c).0 m in subst (In x) none_left ((w.members x c).0 e))
          (λ c m. w.parents_classified (s.heap.class_at c).nodes)) in
      (
        s,
        found,
        ran,
        got,
        λ c. (
          (λ m. ((exact c).0 m).1),
          (λ z. (exact c).1 (let (x, m, _) = z.1 in (w.listed c).1 (x, (w.members x c).1 m), z)),
        ),
      )
