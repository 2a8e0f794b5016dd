-- ===== src/FuzzyDedup/Whole.antt =====
-- FuzzyDedup, from the scanned tree on. src/fuzzy_dedup.cpp.
use dupa.Base.{
  ℕ, Bool, Option, none, some, List, [], ◌∷◌, ◌++◌, ◌≡◌, ◌≢◌, ◌↔◌, In, Distinct, map, ◌>>=◌,
  Platform,
}
use dupa.Conf.{GlobalConfig}
use dupa.FuzzyDedup.{Classes, classify_duplicate_files, classify_empty_dirs, propagate_equivalence}
use dupa.FuzzyDedup.Tree.{TreeCtor}
use dupa.FuzzyDedup.Building.{node_of}
use dupa.FuzzyDedup.Files.{all_nodes, nth}
use dupa.FuzzyDedup.Uniqueness.{calculate_uniqueness}

-- What std::unordered_multimap and std::sort promise: the ranges of equal keys, in the order of the
-- walk, have each inserted pair once, no key twice and no empty range; sorting leaves the same elements.
pub record Std : Type 0 where
  pub ranges : List (ℕ × ℕ) → List (ℕ × List ℕ)
  pub sort : (ℕ → ℕ → Bool) → List ℕ → List ℕ
  pub ranges-In :
      (s n : ℕ) (xs : List (ℕ × ℕ))
      → In (s, n) xs
        ↔ ((k : ℕ) × (g : ℕ × List ℕ) × (nth (ranges xs) k ≡ some g) × (g.0 ≡ s) × In n g.1)
  pub ranges-apart :
      (xs : List (ℕ × ℕ)) (j k : ℕ) (f g : ℕ × List ℕ)
      → nth (ranges xs) j ≡ some f
      → nth (ranges xs) k ≡ some g
      → f.0 ≡ g.0
      → j ≡ k
  pub ranges-filled :
      (xs : List (ℕ × ℕ)) (k : ℕ) (g : ℕ × List ℕ) → nth (ranges xs) k ≡ some g → g.1 ≢ []
  pub ranges-Distinct :
      (xs : List (ℕ × ℕ)) → Distinct (map node_of xs) → Distinct (all_nodes (ranges xs))
  pub sort-In : (before : ℕ → ℕ → Bool) (c : ℕ) (cs : List ℕ) → In c (sort before cs) ↔ In c cs

module _ (pl : Platform) (conf : GlobalConfig) (std : Std) where
  open pl use {Double, lt}

  -- The class of the empty directories is kept if it has any.
  unfoldable pub classify_empty : ℕ → Classes pl conf → Option (Classes pl conf)
  classify_empty root s = do
    (c, h) ← classify_empty_dirs pl conf root s.heap
    some (record {
      heap = h;
      eq_classes = elim (h.class_at c).nodes [
        | [] ↦ s.eq_classes
        | x ∷ xs ↦ s.eq_classes ++ c ∷ []
      ];
    })

  -- SortEqClasses
  unfoldable pub sort_eq_classes : Classes pl conf → Classes pl conf
  sort_eq_classes s = record {
    heap = s.heap;
    eq_classes =
        std.sort (λ a b. lt (s.heap.class_at b).weight (s.heap.class_at a).weight) s.eq_classes;
  }

  -- The part after the scan, for a tree with a root.
  unfoldable pub deduplicate : ℕ → TreeCtor Double → Option (Classes pl conf)
  unfolding classify_empty sort_eq_classes
  deduplicate root t = do
    s1 ←
        classify_duplicate_files pl conf (std.ranges t.sum2node)
          (record { heap = t.heap; eq_classes = [] })
    s2 ← classify_empty root s1
    s3 ← propagate_equivalence pl conf root s2
    let s4 = sort_eq_classes s3
    (descendants, h) ← calculate_uniqueness pl conf.use_size s4.heap.num_nodes root s4.heap
    some (record { heap = h; eq_classes = s4.eq_classes })

  -- FuzzyDedup: the root and the classes, or nothing.
  unfoldable pub fuzzy_dedup : TreeCtor Double → Option (Option (ℕ × Classes pl conf))
  unfolding deduplicate
  fuzzy_dedup t = elim t.root [
    | none ↦ some none
    | some root ↦ do s ← deduplicate root t; some (some (root, s))
  ]
