-- ===== src/FuzzyDedup/Tests.antt =====
-- The classification of the tree of FileTree/Tests.
use dupa.FileTree.Store.{is_empty_dir, Heap}
use dupa.Base.{
  List, Distinct, inl, inr, In, ◌↔◌, none, ℕ, zero, suc, ◌<◌, ◌≡◌, ◌≢◌, refl, true, false, some, [],
  arith, ◌∷◌,
}
use dupa.Conf.{GlobalConfig}
use dupa.FileTree.Invariant.{Returns}
use dupa.FileTree.Traversal.{Rooted}
use dupa.FileTree.Tests.{fixed_point, fixed_point_laws, sample, sample-IsConsistent}
use dupa.FuzzyDedup.{
  classify_duplicate_files, get_interesting_eq_classes, classify_empty_dirs, Classes,
  get_nodes_ready_to_eval, propagate_equivalence,
}
use dupa.FuzzyDedup.Loop.{IsQueue}
use dupa.FuzzyDedup.Files.{FilesClassified, classify_duplicate_files-FilesClassified}
use dupa.FuzzyDedup.Interesting.{Interesting, get_interesting_eq_classes-Interesting}
use dupa.FuzzyDedup.EmptyDirs.{EmptyDirsDone, classify_empty_dirs-EmptyDirsDone}
use dupa.FuzzyDedup.Classify.{Sound}
use dupa.FuzzyDedup.Propagation.{AllClassified}
use dupa.FuzzyDedup.Result.{get_nodes_ready_to_eval-IsQueue, propagate_equivalence-AllClassified}

abbrev pub settings : GlobalConfig
settings = record {
  read_cache_from = "";
  dump_cache_to = "";
  sql_out = "";
  dirs = "d" ∷ [];
  concurrency = 4;
  tolerable_diff_pct = 20;
  verbose = false;
  cache_only = false;
  use_size = true;
  ignore_db_prefix = false;
  skip_renames = false;
}

abbrev start : Classes fixed_point settings
start = record { heap = sample; eq_classes = 0 ∷ [] }

sample-Sound : Sound fixed_point fixed_point_laws settings sample
sample-Sound = record { consistent = sample-IsConsistent; weighted = λ c. tt }

sample-Rooted : Rooted sample 0
sample-Rooted = (omega arith, up)
  where
    up : (x : ℕ) → x < 6 → x ≢ 0 → (p : ℕ) × ((sample.node x).parent ≡ some p)
    up zero lt ne = absurd (ne refl)
    up (suc zero) lt ne = (0, refl)
    up (suc (suc zero)) lt ne = (0, refl)
    up (suc (suc (suc zero))) lt ne = (1, refl)
    up (suc (suc (suc (suc zero)))) lt ne = (2, refl)
    up (suc (suc (suc (suc (suc zero))))) lt ne = (0, refl)
    up (suc (suc (suc (suc (suc (suc n)))))) lt ne = absurd (omega arith)

get_nodes_ready_to_eval-IsQueue_example : IsQueue (get_nodes_ready_to_eval 6 sample 0) sample
get_nodes_ready_to_eval-IsQueue_example =
    get_nodes_ready_to_eval-IsQueue sample 0 sample-IsConsistent sample-Rooted

propagate_equivalence-AllClassified_example :
    Returns
      (propagate_equivalence fixed_point settings 0 start)
      (λ s'. AllClassified fixed_point fixed_point_laws settings sample s'.heap)
propagate_equivalence-AllClassified_example =
    propagate_equivalence-AllClassified fixed_point fixed_point_laws settings 0 start sample-Sound
      sample-Rooted

classify_empty_dirs-EmptyDirsDone_example :
    Returns
      (classify_empty_dirs fixed_point settings 0 sample)
      (λ r. EmptyDirsDone fixed_point fixed_point_laws settings r.0 sample r.1)
classify_empty_dirs-EmptyDirsDone_example =
    classify_empty_dirs-EmptyDirsDone fixed_point fixed_point_laws settings 0 sample sample-Sound
      sample-Rooted none_empty
  where
    none_empty :
        (x : ℕ) → x < 6 → is_empty_dir (sample.node x) ≡ true → (sample.node x).eq_class ≡ none
    none_empty zero lt e = refl
    none_empty (suc zero) lt e = refl
    none_empty (suc (suc zero)) lt e = refl
    none_empty (suc (suc (suc zero))) lt e = absurd (ground arith)
    none_empty (suc (suc (suc (suc zero)))) lt e = absurd (ground arith)
    none_empty (suc (suc (suc (suc (suc zero))))) lt e = refl
    none_empty (suc (suc (suc (suc (suc (suc n)))))) lt e = absurd (omega arith)

-- Two files with one checksum, alone.
abbrev two_files : Heap ℕ
two_files = record {
  node = λ i. record (sample.node 3) { parent = none; eq_class = some 0 };
  class_at = λ c. record { nodes = 3 ∷ 4 ∷ []; weight = 70 };
  num_nodes = 5;
  num_classes = 1;
}

get_interesting_eq_classes-Interesting_example :
    Returns
      (get_interesting_eq_classes two_files (0 ∷ []))
      (λ found. (c : ℕ) → In c found ↔ (In c (0 ∷ []) × Interesting two_files c))
get_interesting_eq_classes-Interesting_example =
    get_interesting_eq_classes-Interesting two_files (0 ∷ []) (λ c m e. ground arith)
      (λ c m n p i e. absurd (ground arith))

-- Three files that are not in a directory, without classes.
abbrev bare : Heap ℕ
bare = record {
  node = λ i. record (sample.node 3) { parent = none; eq_class = none };
  class_at = λ c. record { nodes = []; weight = 0 };
  num_nodes = 3;
  num_classes = 0;
}

bare-Sound : Sound fixed_point fixed_point_laws settings bare
bare-Sound = record {
  consistent = record {
    tree = record {
      below = λ p c m. absurd m;
      above = λ p c e. absurd (ground arith);
      once = λ p. tt;
      typed = λ p c m. absurd m;
    };
    counted = λ p. refl;
    listed = λ i c. ((λ e. absurd (ground arith)), (λ m. absurd m));
    listed_once = λ c. tt;
    closed = λ i c e. absurd (ground arith);
    allocated = λ i c e. absurd (ground arith);
  };
  weighted = λ c. tt;
}

abbrev ranges : List (ℕ × List ℕ)
ranges = (77, 0 ∷ 1 ∷ []) ∷ (88, 2 ∷ []) ∷ []

abbrev unclassified : Classes fixed_point settings
unclassified = record { heap = bare; eq_classes = [] }

classify_duplicate_files-FilesClassified_example :
    Returns
      (classify_duplicate_files fixed_point settings ranges unclassified)
      (λ s'. FilesClassified fixed_point fixed_point_laws settings ranges bare s'.heap)
classify_duplicate_files-FilesClassified_example =
    classify_duplicate_files-FilesClassified fixed_point fixed_point_laws settings ranges
      unclassified bare-Sound apart (λ x m. (refl, refl))
  where
    apart : Distinct {A = ℕ} (0 ∷ 1 ∷ 2 ∷ [])
    apart = (
      (λ m. elim m [ inl e ↦ omega arith | inr z ↦ elim z [ inl e ↦ omega arith | inr w ↦ w ] ]),
      ((λ m. elim m [ inl e ↦ omega arith | inr z ↦ z ]), ((λ m. m), tt)),
    )
